-- ===== src/Run.antt =====
-- Code that changes a state and may throw. An error leaves what was written before it.
use velotradex.Base.{Outcome, ok, throws}

abbrev pub Run {ℓ κ} : Type ℓ → Type κ → Type (ℓ ⊔ κ)
Run S A = S → Outcome A × S

module _ {ℓ κ ι} {S : Type ℓ} {A : Type κ} {B : Type ι} where
  abbrev pub proceed : (A → Run S B) → Outcome A × S → Outcome B × S
  proceed f (ok a, s) = f a s
  proceed f (throws t, s) = (throws t, s)

  infixl 5 ◌>>=◌ ◌>>◌
  abbrev pub ◌>>=◌ : Run S A → (A → Run S B) → Run S B
  ◌>>=◌ m f s = proceed f (m s)

  abbrev pub ◌>>◌ : Run S A → Run S B → Run S B
  ◌>>◌ m k s = proceed (λ _. k) (m s)

module _ {ℓ κ} {S : Type ℓ} {A : Type κ} where
  abbrev pub return : A → Run S A
  return a s = (ok a, s)

  -- Reading the state
  abbrev pub ask : (S → Outcome A) → Run S A
  ask f s = (f s, s)

  -- An operation that does not run throws nothing.
  abbrev pub given : Outcome A → Run S A
  given o s = (o, s)

abbrev pub change {ℓ} : {S : Type ℓ} → (S → S) → Run S (Unit {0})
change f s = (ok tt, f s)

-- Operations whose states before and after stand in a relation that is reflexive and transitive.
module _ {ℓ κ} {S : Type ℓ} (R : S → S → Type κ) where
  abbrev pub Along {ι} : {A : Type ι} → Run S A → Type (ℓ ⊔ κ)
  Along m = (s : S) → R s (m s).1

  module _ (chain : (a b c : S) → R a b → R b c → R a c) where
    pub proceed-Along {ι ο} :
        {A : Type ι} {B : Type ο} (f : A → Run S B) (s : S) (r : Outcome A × S)
        → ((a : A) → Along (f a))
        → R s r.1
        → R s (proceed f r).1
    proceed-Along f s (ok a, t) h k = chain s t (f a t).1 k (h a t)
    proceed-Along f s (throws e, t) h k = k

    pub bind-Along {ι ο} :
        {A : Type ι} {B : Type ο} (m : Run S A) (f : A → Run S B)
        → Along m
        → ((a : A) → Along (f a))
        → Along (m >>= f)
    bind-Along m f h k s = proceed-Along f s (m s) k (h s)
