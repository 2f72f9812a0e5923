-- ===== src/Virtual/Reduce.antt =====
-- Fills of orders that may only reduce a position.
use velotradex.Base.{
  ap, sym, some-injective, if◌then◌else◌, String, ◌≡◌, refl, inl, inr, true, false, ◌||◌, Option,
  none, some, arith, Bool-cases, Outcome, ok, throws, ok-injective, ◌>>◌,
}
use velotradex.Number.{Number, int, le, not_positive}
use velotradex.Number.Laws.{IsOrdered, HasSigns}
use velotradex.Number.Reduction.{IsReduction, closed-IsReduction}
use velotradex.Virtual.{VirtualOrder, VirtualPosition, Fill}
use velotradex.Virtual.Engine.{
  Next, Decision, cancels, writes, is_buy, current_size, same_direction, reduced_next, next_of,
  fill_of, decision_of, check_fill, decide,
}

passes {ℓ} :
    {B : Type ℓ} {b : B} (c : Outcome (Unit {0})) (k : Outcome B)
    → (c >> k) ≡ ok b
    → (u : Unit {0}) × (c ≡ ok u) × (k ≡ ok b)
passes (ok u) k h = (u, refl, h)
passes (throws e) k h = cc h

writes-injective : {N : Type 0} {f g : Fill N} → writes f ≡ writes g → f ≡ g
writes-injective {N} {f} e = ap (λ (d : Decision N). elim d [ cancels ↦ f | writes x ↦ x ]) e

module _ {N : Type 0} ⦃num : Number N⦄ (ordered : IsOrdered N) (signs : HasSigns N) where
  open num use {of_text, is_finite, eq, neg}

  checked :
      (o : VirtualOrder) (price : String) (multiplier : N) (position : Option VirtualPosition)
      → check_fill o price multiplier position ≡ ok tt
      → (not_positive (of_text o.amount) ≡ false) × (is_finite (current_size position) ≡ true)
  unfolding check_fill
  checked o price multiplier position h = ground arith

  -- What a fill that only reduces makes of a position
  abbrev pub IsClosing : VirtualOrder → Option VirtualPosition → Next N → Type 0
  IsClosing o position n =
      IsReduction (current_size position) n.size × (le n.filled_amount (of_text o.amount) ≡ true)

  next_of-IsClosing :
      (o : VirtualOrder) (price multiplier : N) (position : Option VirtualPosition) (n : Next N)
      → o.reduce_only ≡ true
      → not_positive (of_text o.amount) ≡ false
      → is_finite (current_size position) ≡ true
      → next_of o price multiplier position ≡ some n
      → IsClosing o position n
  unfolding next_of reduced_next
  next_of-IsClosing o price multiplier position n reduces pos h made =
      let size = current_size position in
      let amount = of_text o.amount in
      let signed = if is_buy o.side then amount else neg amount in
      elim (Bool-cases (eq size (int 0) || same_direction size signed)) [
        | inl t ↦ cc (rw (reduces, t) at made)
        | inr f ↦
            let same = some-injective (rw (reduces, f) at made) in
            rw⁻¹ same (closed-IsReduction ordered signs size amount h (ground arith) pos)
      ]

  decision_of-IsClosing :
      (o : VirtualOrder) (price : N) (position : Option VirtualPosition) (made : Option (Next N))
      (fill : Fill N)
      → ((n : Next N) → made ≡ some n → IsClosing o position n)
      → ok (decision_of o price made) ≡ ok (writes fill)
      → (n : Next N) × (fill ≡ fill_of o price n) × IsClosing o position n
  decision_of-IsClosing o price position none fill h e = cc (ok-injective e)
  decision_of-IsClosing o price position (some n) fill h e =
      (n, sym (writes-injective (ok-injective e)), h n refl)

  -- A fill of an order that may only reduce writes a size whose magnitude is no larger than that of
  -- the position and whose direction is that of the position until it is flat, and the amount that it
  -- trades is no larger than that of the order; in an arithmetic with the laws of IEEE comparisons,
  -- differences and signs, sizes before they are written as text.
  pub decide-IsClosing :
      (o : VirtualOrder) (price : String) (multiplier : N) (position : Option VirtualPosition)
      (fill : Fill N)
      → o.reduce_only ≡ true
      → decide o price multiplier position ≡ ok (writes fill)
      → (n : Next N) × (fill ≡ fill_of o (of_text price) n) × IsClosing o position n
  unfolding decide
  decide-IsClosing o price multiplier position fill reduces h =
      let (u, passed, rest) = passes (check_fill o price multiplier position) _ h in
      let (pos, finite) = checked o price multiplier position passed in
      decision_of-IsClosing o (of_text price) position
        (next_of o (of_text price) multiplier position) fill
        (λ n made.
          next_of-IsClosing o (of_text price) multiplier position n reduces pos finite made)
        rest
