-- ===== src/TakeProfit/Split.antt =====
-- How the amount of a position is split among its take profits.
use velotradex.Base.{ℕ, suc, ◌≡◌, refl, ap, true, false, List, [], ◌∷◌, map, length, All, arith}
use velotradex.Number.{Number, int, le, max_number}
use velotradex.Number.Laws.{IsOrdered, HasSigns, HasBounds, IsNumber, min_bounds}
use velotradex.TakeProfit.{share_of, allocate_units, units_of, allocate_amount_by_distribution}

module _ {N : Type 0} ⦃num : Number N⦄ where
  open num use {eq, sub, mul, div, pow, round, is_finite}

  -- Each part lies between 0 and what the parts before it left, and the last one is what is left.
  abbrev pub IsSplit : N → List N → Type 0
  IsSplit rest [] = Unit
  IsSplit rest (u ∷ []) = u ≡ rest
  IsSplit rest (u ∷ v ∷ us) =
      (le (int 0) u ≡ true) × (le u rest ≡ true) × IsSplit (sub rest u) (v ∷ us)

  length-allocate_units :
      (total rest : N) (ratios : List N) → length (allocate_units total rest ratios) ≡ length ratios
  unfolding allocate_units
  length-allocate_units total rest [] = refl
  length-allocate_units total rest (r ∷ []) = refl
  length-allocate_units total rest (r ∷ s ∷ ratios) =
      ap suc (length-allocate_units total (sub rest (share_of total rest r)) (s ∷ ratios))

  then-IsSplit :
      (u total rest q : N) (ratios : List N)
      → le (int 0) u ≡ true
      → le u rest ≡ true
      → IsSplit (sub rest u) (allocate_units total (sub rest u) (q ∷ ratios))
      → IsSplit rest (u ∷ allocate_units total (sub rest u) (q ∷ ratios))
  unfolding allocate_units
  then-IsSplit u total rest q [] least most h = (least, most, h)
  then-IsSplit u total rest q (p ∷ ratios) least most h = (least, most, h)

  module _ (o : IsOrdered N) (s : HasSigns N) (b : HasBounds N) where
    share_bounds :
        (total rest ratio : N)
        → IsNumber (round (mul total ratio))
        → IsNumber rest
        → le (int 0) rest ≡ true
        → (le (int 0) (share_of total rest ratio) ≡ true)
          × (le (share_of total rest ratio) rest ≡ true)
    share_bounds total rest ratio n h low =
        let asked = round (mul total ratio) in
        let raised = max_number (int 0) asked in
        let (least, under, below) =
          min_bounds o raised rest (ground (arith, o.zero_number)) h (ground (arith, o.zero_number))
            low in
        (least, below)

    allocate_units-IsSplit :
        (total rest : N) (ratios : List N)
        → All (λ ratio. IsNumber (round (mul total ratio))) ratios
        → is_finite rest ≡ true
        → le (int 0) rest ≡ true
        → IsSplit rest (allocate_units total rest ratios)
    unfolding allocate_units
    allocate_units-IsSplit total rest [] h f low = tt
    allocate_units-IsSplit total rest (r ∷ []) h f low = refl
    allocate_units-IsSplit total rest (r ∷ q ∷ ratios) (n, h) f low =
        let (least, most) = share_bounds total rest r n (o.number_of_finite rest f) low in
        let (left, less) = s.sub_bounds rest (share_of total rest r) f least most in
        then-IsSplit (share_of total rest r) total rest q ratios least most (
          allocate_units-IsSplit total (sub rest (share_of total rest r)) (q ∷ ratios) h
            (b.finite-between (sub rest (share_of total rest r)) rest left less f) left)

    -- The amounts of the take profits are the parts, one for each, of the rounded units of the total
    -- amount, divided by the units of one: every part lies between 0 and what the parts before it
    -- left, and the last one is all that is left; for a total whose units are finite and more than
    -- 0, and ratios that give numbers, in an arithmetic with the laws of IEEE comparisons and
    -- differences.
    pub allocate-IsSplit :
        (total : N) (distribution : List N) (precision : ℕ)
        → is_finite (units_of total precision) ≡ true
        → le (units_of total precision) (int 0) ≡ false
        → All (λ ratio. IsNumber (round (mul (units_of total precision) ratio))) distribution
        → (shares : List N) × (allocate_amount_by_distribution total distribution precision
            ≡ map (λ share. div share (pow (int 10) (int precision))) shares)
          × (length shares ≡ length distribution)
          × IsSplit (units_of total precision) shares
    unfolding allocate_amount_by_distribution
    allocate-IsSplit total distribution precision f more h =
        let units = units_of total precision in
        let low : le (int 0) units ≡ true = ground (
          arith,
          o.total (int 0) units,
          o.number_of_finite units f,
          o.zero_number,
          o.eq_sym units (int 0),
          o.eq_sym (int 0) units,
        ) in
        (
          allocate_units units units distribution,
          rw more refl,
          length-allocate_units units units distribution,
          allocate_units-IsSplit units units distribution h f low,
        )
