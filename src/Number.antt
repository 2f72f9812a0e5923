-- ===== src/Number.antt =====
-- The JavaScript `number`: a type with the constants, operators and conversions that the source
-- uses. The development holds for every such type; where a proof needs more, it takes laws that hold
-- of IEEE doubles, NaN and the infinities included, as named hypotheses.
pub mod Laws
pub mod Reduction
pub mod Int
pub mod Whole
use velotradex.Base.{
  ℕ, String, ◌≡◌, ◌⊎◌, Bool, true, false, ◌&&◌, ◌||◌, not, Option, none, some, if◌then◌else◌,
}

pub record Number (N : Type 0) : Type 0 where
  pub nan : N
  pub infinity : N
  -- the literal `m` times ten to the power `-e`
  pub literal : ℕ → ℕ → N
  pub neg : N → N
  pub abs : N → N
  pub sign : N → N
  pub floor : N → N
  pub round : N → N
  pub add : N → N → N
  pub sub : N → N → N
  pub mul : N → N → N
  pub div : N → N → N
  pub pow : N → N → N
  -- `a < b` and `a === b`; both are false at NaN
  pub lt : N → N → Bool
  pub eq : N → N → Bool
  pub is_finite : N → Bool
  pub is_integer : N → Bool
  -- `Number(text)`, `parseFloat(text)`, `String(x)` and `x.toFixed(digits)`
  pub of_text : String → N
  pub parse_float : String → N
  pub to_text : N → String
  pub to_fixed : N → N → String

module _ {N : Type 0} ⦃num : Number N⦄ where
  abbrev pub int : ℕ → N
  int n = num.literal n 0

  -- `a <= b`
  abbrev pub le : N → N → Bool
  le a b = num.lt a b || num.eq a b

  abbrev pub positive : N → Bool
  positive a = num.lt (int 0) a

  -- `!Number.isFinite(a) || a <= 0` is the refusal of most checks of the source.
  abbrev pub not_positive : N → Bool
  not_positive a = not (num.is_finite a) || le a (int 0)

  -- `Number(text)` of a field that may be `undefined`, which is NaN
  abbrev pub of_optional : Option String → N
  of_optional none = num.nan
  of_optional (some s) = num.of_text s

  -- `Math.min` and `Math.max` of two numbers, NaN if either is
  abbrev pub min_number : N → N → N
  min_number a b = if num.eq a a && num.eq b b then (if num.lt b a then b else a) else num.nan

  abbrev pub max_number : N → N → N
  max_number a b = if num.eq a a && num.eq b b then (if num.lt a b then b else a) else num.nan
