-- ===== src/Number/Whole.antt =====
-- A small arithmetic that meets the laws: whole numbers with `none` for NaN and no infinities. The
-- tests and examples of the development run on it.
use Prim.Native.Char.{Char, code}
use Prim.Native.Nat.{◌^◌}
use velotradex.Base.{
  ℕ, zero, suc, ◌+◌, ◌-◌, ◌*◌, ◌/◌, ◌%◌, String, refl, Bool, true, false, ◌&&◌, Option, none, some,
  arith, leb, ◌==◌, if◌then◌else◌,
}
use velotradex.Number.{Number}
use velotradex.Number.Laws.{IsOrdered, HasSigns, HasBounds, HasDifferences}
use velotradex.Number.Int.{ℤ, pos, negsuc, ◌+ℤ◌, ◌-ℤ◌, ◌*ℤ◌, ltb_ℤ, eqb_ℤ, sign_ℤ, abs_ℤ}
use velotradex.Text.{pick}

abbrev pub Whole : Type 0
Whole = Option ℤ

abbrev on_one : (ℤ → ℤ) → Whole → Whole
on_one f none = none
on_one f (some a) = some (f a)

abbrev on_two : (ℤ → ℤ → ℤ) → Whole → Whole → Whole
on_two f (some a) (some b) = some (f a b)
on_two f _ _ = none

abbrev test_two : (ℤ → ℤ → Bool) → Whole → Whole → Bool
test_two f (some a) (some b) = f a b
test_two f _ _ = false

-- Division rounds towards zero, and gives NaN at a zero divisor.
unfoldable pub over : Whole → Whole → Whole
over (some (pos a)) (some (pos b)) = if b == 0 then none else some (pos (a / b))
over (some (negsuc a)) (some (pos b)) = if b == 0 then none else some (pos 0 -ℤ pos (suc a / b))
over _ _ = none

unfoldable pub power : Whole → Whole → Whole
power (some (pos a)) (some (pos b)) = some (pos (a ^ b))
power _ _ = none

unfoldable pub digits_value : ℕ → String → Option ℕ
digits_value n String.[] = some n
digits_value n (String.◌∷◌ c s) =
    let rest = digits_value (n * 10 + (code c - b'0')) s in
    if leb b'0' (code c) && leb (code c) b'9' then rest else none

abbrev signed_value : Bool → Option ℕ → Whole
signed_value b none = none
signed_value true (some n) = some (pos 0 -ℤ pos n)
signed_value false (some n) = some (pos n)

unfoldable pub value_of : String → Whole
value_of String.[] = some (pos 0)
value_of (String.◌∷◌ c s) =
    if code c == b'-'
    then signed_value true (digits_value 0 s)
    else signed_value false (digits_value 0 (String.◌∷◌ c s))

unfoldable pub print : ℕ → ℕ → String → String
print zero n s = s
print (suc k) n s =
    let t = String.◌∷◌ (pick (n % 10) "0123456789" Prim.Native.Char.nul) s in
    let more = print k (n / 10) t in if n / 10 == 0 then t else more

unfoldable pub text_of : Whole → String
text_of none = "NaN"
text_of (some (pos n)) = print 30 n ""
text_of (some (negsuc n)) = String.◌∷◌ (pick 0 "-" Prim.Native.Char.nul) (print 30 (suc n) "")

instance abbrev pub whole_number : Number Whole
whole_number = record {
  nan = none;
  infinity = some (pos (10 ^ 30));
  literal = λ m e. some (pos (m / 10 ^ e));
  neg = on_one (λ a. pos 0 -ℤ a);
  abs = on_one abs_ℤ;
  sign = on_one sign_ℤ;
  floor = λ a. a;
  round = λ a. a;
  add = on_two ◌+ℤ◌;
  sub = on_two ◌-ℤ◌;
  mul = on_two ◌*ℤ◌;
  div = over;
  pow = power;
  lt = test_two ltb_ℤ;
  eq = test_two eqb_ℤ;
  is_finite = λ a. elim a [ none ↦ false | some _ ↦ true ];
  is_integer = λ a. elim a [ none ↦ false | some _ ↦ true ];
  of_text = value_of;
  parse_float = value_of;
  to_text = text_of;
  to_fixed = λ a d. text_of a;
}

pub Whole-IsOrdered : IsOrdered Whole
unfolding ltb_ℤ eqb_ℤ
Whole-IsOrdered = record {
  lt_irrefl = ground arith;
  lt_trans = ground arith;
  lt-of_eq = ground arith;
  eq-of_lt = ground arith;
  eq_sym = ground arith;
  eq_trans = ground arith;
  total = ground arith;
  numbers_of_lt = ground arith;
  zero_number = refl;
  number_of_finite = ground arith;
}

pub Whole-HasSigns : HasSigns Whole
unfolding ltb_ℤ eqb_ℤ ◌-ℤ◌ ◌*ℤ◌ abs_ℤ sign_ℤ
Whole-HasSigns = record {
  sub_bounds = ground arith;
  abs-mul-sign = ground arith;
  sign-mul-sign = ground arith;
  mul-zero = ground arith;
  abs_nonneg = ground arith;
  abs_finite = ground arith;
}

pub Whole-HasBounds : HasBounds Whole
unfolding ltb_ℤ eqb_ℤ
Whole-HasBounds = record { finite-between = ground arith }

pub Whole-HasDifferences : HasDifferences Whole
unfolding ltb_ℤ eqb_ℤ ◌-ℤ◌
Whole-HasDifferences = record { sub-of_le = ground arith }

-- Everything that the arithmetic computes with, for the tests.
unfoldable pub whole : Unit {0}
unfolding ltb_ℤ eqb_ℤ ◌+ℤ◌ ◌-ℤ◌ ◌*ℤ◌ abs_ℤ sign_ℤ over power value_of digits_value text_of print
    pick
whole = tt
