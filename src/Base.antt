-- ===== src/Base.antt =====
-- Names of the libraries that all modules share, Boolean tests on numbers, predicates on lists and
-- the result of code that may throw.
pub use Prim.Native.Nat.{ℕ, zero, suc, ◌+◌, ◌-◌, ◌*◌, ◌/◌, ◌%◌, ◌≤◌, ◌<◌}
pub use Prim.Native.String.{String, ◌++◌ as ◌<>◌}
pub use mathlib.Core.Path.{◌≡◌, refl, sym, ap, subst, ◌∙◌}
pub use mathlib.Core.Logic.{◌≢◌, ◌↔◌, ◌⊎◌, inl, inr}
pub use mathlib.Core.Bool.{Bool, true, false, not, ◌&&◌, ◌||◌}
pub use mathlib.Core.Option.{Option, none, some}
pub use mathlib.Core.List.{List, [], ◌∷◌, ◌++◌, map, foldl, Memᴰ, append_assoc, append-nil}
pub use native.Mathlib.Omega.{arith}
pub use text.Mathlib.Text.{◌==◌ as str_eq}
pub use text.Mathlib.TextEquality.{eq_iff}
pub use text.Mathlib.TextPositions.{eq_refl}
use Prim.Native.Nat.{compare, Ordering}

abbrev pub ltb : ℕ → ℕ → Bool
ltb a b = elim (compare a b) [ Ordering.lt ↦ true | _ ↦ false ]

abbrev pub leb : ℕ → ℕ → Bool
leb a b = elim (compare a b) [ Ordering.gt ↦ false | _ ↦ true ]

infix 50 ◌==◌
abbrev pub ◌==◌ : ℕ → ℕ → Bool
a == b = elim (compare a b) [ Ordering.eq ↦ true | _ ↦ false ]

infix 1 if◌then◌else◌
abbrev pub if◌then◌else◌ {ℓ} : {A : Type ℓ} → Bool → A → A → A
if true then x else y = x
if false then x else y = y

pub ltb→lt : (a b : ℕ) → ltb a b ≡ true → a < b
ltb→lt a b h = ground arith

pub leb→le : (a b : ℕ) → leb a b ≡ true → a ≤ b
leb→le a b h = ground arith

pub ==_iff : (a b : ℕ) → ((a == b) ≡ true) ↔ (a ≡ b)
==_iff a b = ground arith

pub Bool-cases : (b : Bool) → (b ≡ true) ⊎ (b ≡ false)
Bool-cases true = inl refl
Bool-cases false = inr refl

pub both_true : (a b : Bool) → (a && b) ≡ true → (a ≡ true) × (b ≡ true)
both_true a b h = (ground arith, ground arith)

pub Option-cases {ℓ} : {A : Type ℓ} (o : Option A) → (o ≡ none) ⊎ ((a : A) × (o ≡ some a))
Option-cases none = inl refl
Option-cases (some a) = inr (a, refl)

-- The result of code that returns a value or throws an error with a message.
pub data Outcome {ℓ} (A : Type ℓ) : Type ℓ where
  ok : A → Outcome A
  throws : String → Outcome A

-- `await` of code that may throw, in a `do` block
infixl 5 ◌>>=◌ ◌>>◌
abbrev pub ◌>>=◌ {ℓ κ} : {A : Type ℓ} {B : Type κ} → Outcome A → (A → Outcome B) → Outcome B
ok a >>= f = f a
throws e >>= f = throws e

abbrev pub ◌>>◌ {ℓ} : {B : Type ℓ} → Outcome (Unit {0}) → Outcome B → Outcome B
m >> k = m >>= λ _. k

-- `if (!test) throw new Error(message)`
abbrev pub require : Bool → String → Outcome (Unit {0})
require true message = ok tt
require false message = throws message

abbrev pub is_some {ℓ} : {A : Type ℓ} → Option A → Bool
is_some none = false
is_some (some a) = true

module _ {ℓ} {A : Type ℓ} where
  abbrev pub length : List A → ℕ
  length [] = 0
  length (x ∷ xs) = suc (length xs)

  -- the first element that a test accepts
  unfoldable pub find : (A → Bool) → List A → Option A
  find p [] = none
  find p (x ∷ xs) = if p x then some x else find p xs

  -- `Array.prototype.filter`
  abbrev pub keep : (A → Bool) → List A → List A
  keep p [] = []
  keep p (x ∷ xs) = if p x then x ∷ keep p xs else keep p xs

  abbrev pub All {κ} : (A → Type κ) → List A → Type κ
  All P [] = Unit
  All P (x ∷ xs) = P x × All P xs

-- What holds of both branches holds of the conditional.
pub if_both {ℓ κ} :
    {A : Type ℓ} (P : A → Type κ) (b : Bool) {x y : A} → P x → P y → P (if b then x else y)
if_both P true p q = p
if_both P false p q = q

pub none_of_is_some {ℓ} : {A : Type ℓ} (x : Option A) → is_some x ≡ false → x ≡ none
none_of_is_some none h = refl
none_of_is_some (some a) h = cc

pub some-injective {ℓ} : {A : Type ℓ} {a b : A} → some a ≡ some b → a ≡ b
some-injective {A} {a} e = ap (λ (o : Option A). elim o [ none ↦ a | some y ↦ y ]) e

pub Outcome-cases {ℓ} :
    {A : Type ℓ} (o : Outcome A) → ((e : String) × (o ≡ throws e)) ⊎ ((a : A) × (o ≡ ok a))
Outcome-cases (throws e) = inl (e, refl)
Outcome-cases (ok a) = inr (a, refl)

pub ok-injective {ℓ} : {A : Type ℓ} {a b : A} → ok a ≡ ok b → a ≡ b
ok-injective {A} {a} e = ap (λ (x : Outcome A). elim x [ ok y ↦ y | throws t ↦ a ]) e

pub All-append {ℓ κ} :
    {A : Type ℓ} (P : A → Type κ) (xs ys : List A) → All P xs → All P ys → All P (xs ++ ys)
All-append P [] ys h k = k
All-append P (x ∷ xs) ys (p, h) k = (p, All-append P xs ys h k)

pub All-map {ℓ κ ι} :
    {A : Type ℓ} {P : A → Type κ} {Q : A → Type ι} (xs : List A)
    → ((a : A) → P a → Q a)
    → All P xs
    → All Q xs
All-map [] f h = tt
All-map (x ∷ xs) f (p, h) = (f x p, All-map xs f h)

pub text_cases : (s t : String) → (s ≡ t) ⊎ (s ≢ t)
text_cases s t = elim (Bool-cases (str_eq s t)) [
  | inl h ↦ inl ((eq_iff s t).0 h)
  | inr h ↦ inr (λ e. cc (h, (eq_iff s t).1 e))
]

pub str_ne : (s t : String) → s ≢ t → str_eq s t ≡ false
str_ne s t ne = elim (Bool-cases (str_eq s t)) [
  | inl h ↦ let no : ⊥ = ne ((eq_iff s t).0 h) in elim no [ ]
  | inr h ↦ h
]

module _ {ℓ} {A : Type ℓ} where
  pub length-append : (xs ys : List A) → length (xs ++ ys) ≡ length xs + length ys
  length-append [] ys = omega arith
  length-append (x ∷ xs) ys = omega (arith, length-append xs ys)

  pub length-map {κ} : {B : Type κ} (xs : List A) (f : A → B) → length (map f xs) ≡ length xs
  length-map [] f = refl
  length-map (x ∷ xs) f = ap suc (length-map xs f)

  -- The elements with their places, counted from a start.
  abbrev pub indexed : ℕ → List A → List (ℕ × A)
  indexed i [] = []
  indexed i (x ∷ xs) = (i, x) ∷ indexed (i + 1) xs

  pub length-indexed : (i : ℕ) (xs : List A) → length (indexed i xs) ≡ length xs
  length-indexed i [] = refl
  length-indexed i (x ∷ xs) = ap suc (length-indexed (i + 1) xs)

  pub find-none_Memᴰ :
      (p : A → Bool) {x : A} {xs : List A} → find p xs ≡ none → Memᴰ x xs → p x ≡ false
  unfolding find
  find-none_Memᴰ p {x = x} {xs = []} h m = elim m [ ]
  find-none_Memᴰ p {x = x} {xs = y ∷ xs} h (Memᴰ.head e) = rw e (ground arith)
  find-none_Memᴰ p {x = x} {xs = y ∷ xs} h (Memᴰ.tail m) =
      let rest : find p xs ≡ none = ground arith in find-none_Memᴰ p rest m

  pub find-some :
      (p : A → Bool) (xs : List A) {x : A} → find p xs ≡ some x → (p x ≡ true) × Memᴰ x xs
  unfolding find
  find-some p [] h = cc
  find-some p (y ∷ xs) {x = x} h = elim (Bool-cases (p y)) [
    | inl e ↦ let same : y ≡ x = some-injective (rw e at h) in (rw same at e, Memᴰ.head (sym same))
    | inr e ↦
        let rest : find p xs ≡ some x = rw e at h in
        let (accepted, m) = find-some p xs rest in (accepted, Memᴰ.tail m)
  ]

module _ {ℓ} {A : Type ℓ} where
  pub keep-append : (p : A → Bool) (xs ys : List A) → keep p (xs ++ ys) ≡ keep p xs ++ keep p ys
  keep-append p [] ys = refl
  keep-append p (x ∷ xs) ys = elim (Bool-cases (p x)) [
    | inl h ↦ rw h (ap (λ r. x ∷ r) (keep-append p xs ys))
    | inr h ↦ rw h (keep-append p xs ys)
  ]

  -- A weaker test first changes nothing.
  pub keep-keep :
      (p q : A → Bool) (xs : List A)
      → ((x : A) → p x ≡ true → q x ≡ true)
      → keep p (keep q xs) ≡ keep p xs
  keep-keep p q [] f = refl
  keep-keep p q (x ∷ xs) f = ground (arith, f x, keep-keep p q xs f)

  -- A stronger test keeps no more.
  pub length-keep_le :
      (p q : A → Bool) (xs : List A)
      → ((x : A) → p x ≡ true → q x ≡ true)
      → length (keep p xs) ≤ length (keep q xs)
  length-keep_le p q [] f = omega arith
  length-keep_le p q (x ∷ xs) f = ground (arith, f x, length-keep_le p q xs f)

  pub All-keep {κ} : (P : A → Type κ) (p : A → Bool) (xs : List A) → All P xs → All P (keep p xs)
  All-keep P p [] h = tt
  All-keep P p (x ∷ xs) (a, h) = if_both (All P) (p x) (a, All-keep P p xs h) (All-keep P p xs h)

  -- What a filter keeps meets its test.
  pub All-keep_test : (p : A → Bool) (xs : List A) → All (λ x. p x ≡ true) (keep p xs)
  All-keep_test p [] = tt
  All-keep_test p (x ∷ xs) = elim (Bool-cases (p x)) [
    | inl h ↦ rw h (h, All-keep_test p xs)
    | inr h ↦ rw h (All-keep_test p xs)
  ]

  -- What a filter keeps meets its test, and what it met before.
  pub All-keep_both {κ} :
      (P : A → Type κ) (p : A → Bool) (xs : List A)
      → All P xs
      → All (λ x. P x × (p x ≡ true)) (keep p xs)
  All-keep_both P p [] h = tt
  All-keep_both P p (x ∷ xs) (a, h) = elim (Bool-cases (p x)) [
    | inl t ↦ rw t ((a, t), All-keep_both P p xs h)
    | inr f ↦ rw f (All-keep_both P p xs h)
  ]

  -- What holds of each member holds of all.
  pub every_member {κ} : (P : A → Type κ) (xs : List A) → ((x : A) → Memᴰ x xs → P x) → All P xs
  every_member P [] h = tt
  every_member P (x ∷ xs) h = (h x (Memᴰ.head refl), every_member P xs (λ y m. h y (Memᴰ.tail m)))
