-- ===== src/Number/Laws.antt =====
-- Facts of IEEE doubles that hold without exception for the operands named, NaN and the infinities
-- included: comparisons order the values that are not NaN, and rounding is monotone.
use velotradex.Base.{arith, not, ◌≡◌, ◌⊎◌, true, false}
use velotradex.Number.{Number, min_number, int, le, not_positive}

module _ {N : Type 0} ⦃num : Number N⦄ where
  open num use {lt, eq, abs, sign, sub, mul, is_finite}

  abbrev pub ◌≺◌ : N → N → Type 0
  ◌≺◌ a b = lt a b ≡ true

  abbrev pub ◌≼◌ : N → N → Type 0
  ◌≼◌ a b = le a b ≡ true

  abbrev pub IsNumber : N → Type 0
  IsNumber a = eq a a ≡ true

-- The order. `eq` is `===`, which also holds between 0 and -0.
pub record IsOrdered (N : Type 0) ⦃num : Number N⦄ : Type 0 where
  pub lt_irrefl : (a : N) → num.lt a a ≡ false
  pub lt_trans : (a b c : N) → num.lt a b ≡ true → num.lt b c ≡ true → num.lt a c ≡ true
  pub lt-of_eq : (a b c : N) → num.lt a b ≡ true → num.eq b c ≡ true → num.lt a c ≡ true
  pub eq-of_lt : (a b c : N) → num.eq a b ≡ true → num.lt b c ≡ true → num.lt a c ≡ true
  pub eq_sym : (a b : N) → num.eq a b ≡ true → num.eq b a ≡ true
  pub eq_trans : (a b c : N) → num.eq a b ≡ true → num.eq b c ≡ true → num.eq a c ≡ true
  pub total :
      (a b : N)
      → num.eq a a ≡ true
      → num.eq b b ≡ true
      → (num.lt a b ≡ true) ⊎ (num.eq a b ≡ true) ⊎ (num.lt b a ≡ true)
  pub numbers_of_lt : (a b : N) → num.lt a b ≡ true → (num.eq a a ≡ true) × (num.eq b b ≡ true)
  pub zero_number : num.eq (int 0) (int 0) ≡ true
  pub number_of_finite : (a : N) → num.is_finite a ≡ true → num.eq a a ≡ true

-- Signs and magnitudes.
pub record HasSigns (N : Type 0) ⦃num : Number N⦄ : Type 0 where
  -- A difference of ordered magnitudes lies between 0 and the larger.
  pub sub_bounds :
      (a b : N)
      → num.is_finite a ≡ true
      → le (int 0) b ≡ true
      → le b a ≡ true
      → (le (int 0) (num.sub a b) ≡ true) × (le (num.sub a b) a ≡ true)
  -- Multiplying a magnitude by 1 or -1 keeps the magnitude.
  pub abs-mul-sign :
      (a b : N)
      → num.is_finite a ≡ true
      → num.eq a (int 0) ≡ false
      → le (int 0) b ≡ true
      → num.eq (num.abs (num.mul (num.sign a) b)) b ≡ true
  pub sign-mul-sign :
      (a b : N)
      → num.is_finite a ≡ true
      → num.eq a (int 0) ≡ false
      → num.lt (int 0) b ≡ true
      → num.eq (num.sign (num.mul (num.sign a) b)) (num.sign a) ≡ true
  pub mul-zero :
      (a b : N)
      → num.is_finite a ≡ true
      → num.eq b (int 0) ≡ true
      → num.eq (num.mul (num.sign a) b) (int 0) ≡ true
  pub abs_nonneg : (a : N) → num.is_finite a ≡ true → le (int 0) (num.abs a) ≡ true
  pub abs_finite : (a : N) → num.is_finite a ≡ true → num.is_finite (num.abs a) ≡ true

-- The infinities lie outside of the finite values.
pub record HasBounds (N : Type 0) ⦃num : Number N⦄ : Type 0 where
  pub finite-between :
      (a b : N)
      → le (int 0) a ≡ true
      → le a b ≡ true
      → num.is_finite b ≡ true
      → num.is_finite a ≡ true

-- A difference is not positive when the first number is not the greater; it may round to -Infinity.
pub record HasDifferences (N : Type 0) ⦃num : Number N⦄ : Type 0 where
  pub sub-of_le :
      (a b : N)
      → num.is_finite a ≡ true
      → num.is_finite b ≡ true
      → le a b ≡ true
      → le (num.sub a b) (int 0) ≡ true

module _ {N : Type 0} ⦃num : Number N⦄ (o : IsOrdered N) where
  open o use {lt_irrefl, lt_trans, lt-of_eq, eq-of_lt, eq_sym, eq_trans, total}

  pub le_trans : (a b c : N) → le a b ≡ true → le b c ≡ true → le a c ≡ true
  le_trans a b c h k =
      ground (arith, lt_trans a b c, lt-of_eq a b c, eq-of_lt a b c, eq_trans a b c)

  -- The smaller of two magnitudes.
  pub min_bounds :
      (a b : N)
      → num.eq a a ≡ true
      → num.eq b b ≡ true
      → le (int 0) a ≡ true
      → le (int 0) b ≡ true
      → (le (int 0) (min_number a b) ≡ true)
        × (le (min_number a b) a ≡ true)
        × (le (min_number a b) b ≡ true)
  min_bounds a b ha hb ka kb = ground (arith, total a b, eq_sym a b)

  -- What passes the check of most fields is greater than 0.
  pub positive_of_check :
      (a : N) → not_positive a ≡ false → (num.lt (int 0) a ≡ true) × (num.eq a a ≡ true)
  positive_of_check a h =
      ground (arith, o.number_of_finite a, o.zero_number, total (int 0) a, eq_sym (int 0) a)

  -- Of two numbers, one is at most the other or greater.
  pub not-lt_of_le : (a b : N) → num.eq a a ≡ true → num.eq b b ≡ true → le a b ≡ not (num.lt b a)
  not-lt_of_le a b ha hb = ground (
    arith,
    total a b,
    lt_irrefl a,
    lt_trans a b a,
    lt-of_eq b a b,
    lt_irrefl b,
    eq_sym a b,
    eq-of_lt a b a,
  )
