-- ===== src/Number/Reduction.antt =====
-- What closing a part of a position makes of its size.
use velotradex.Base.{◌≡◌, refl, ◌⊎◌, inl, inr, true, false, arith}
use velotradex.Number.{Number, int, le, not_positive, min_number}
use velotradex.Number.Laws.{IsOrdered, HasSigns, positive_of_check, min_bounds}

module _ {N : Type 0} ⦃num : Number N⦄ where
  open num use {abs, sign, eq, lt, sub, mul, is_finite}

  -- Nothing is added to the position, and its direction is kept until it is flat.
  abbrev pub IsReduction : N → N → Type 0
  IsReduction before after =
      (le (abs after) (abs before) ≡ true)
      × ((after ≡ before) ⊎ ((eq after (int 0) ≡ true) ⊎ (eq (sign after) (sign before) ≡ true)))

  module _ (o : IsOrdered N) (s : HasSigns N) where
    pub unchanged-IsReduction : (a : N) → is_finite a ≡ true → IsReduction a a
    unchanged-IsReduction a h =
        (ground (arith, o.number_of_finite (abs a), s.abs_finite a), inl refl)

    le_of_eq_le : (a b c : N) → eq a b ≡ true → le b c ≡ true → le a c ≡ true
    le_of_eq_le a b c h k = ground (arith, o.eq-of_lt a b c, o.eq_trans a b c)

    flat_or_kept :
        (size rest : N)
        → is_finite size ≡ true
        → eq size (int 0) ≡ false
        → le (int 0) rest ≡ true
        → (eq (mul (sign size) rest) (int 0) ≡ true)
          ⊎ (eq (sign (mul (sign size) rest)) (sign size) ≡ true)
    flat_or_kept size rest h nz low =
        ground (arith, s.mul-zero size rest, s.sign-mul-sign size rest, o.eq_sym (int 0) rest)

    -- Closing an amount, at most the whole
    pub closed-IsReduction :
        (size amount : N)
        → is_finite size ≡ true
        → eq size (int 0) ≡ false
        → not_positive amount ≡ false
        → let closing = min_number (abs size) amount in
          IsReduction size (mul (sign size) (sub (abs size) closing)) × (le closing amount ≡ true)
    closed-IsReduction size amount h nz pos =
        let asked = positive_of_check o amount pos in
        let limit = min_number (abs size) amount in
        let (low, under, below) =
          min_bounds o (abs size) amount (o.number_of_finite (abs size) (s.abs_finite size h))
            asked.1 (s.abs_nonneg size h) (ground arith) in
        let (rest_low, rest_high) = s.sub_bounds (abs size) limit (s.abs_finite size h) low under in
        let rest = sub (abs size) limit in
        let same = s.abs-mul-sign size rest h nz rest_low in
        (
          (
            le_of_eq_le (abs (mul (sign size) rest)) rest (abs size) same rest_high,
            inr (flat_or_kept size rest h nz rest_low),
          ),
          below,
        )
