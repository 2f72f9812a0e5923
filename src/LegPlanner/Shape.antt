-- ===== src/LegPlanner/Shape.antt =====
-- What `plan` answers for every input.
use velotradex.Base.{
  ℕ, zero, suc, ◌≤◌, ◌<◌, ◌≡◌, refl, ap, subst, ◌≢◌, ◌⊎◌, inl, inr, true, false, Option, none, some,
  List, [], ◌∷◌, arith, if◌then◌else◌, ltb, ◌==◌, length, length-map, Option-cases, All,
}
use velotradex.Number.{Number, int}
use velotradex.LegPlanner.{
  InternalLeg, PlannerInput, AdjustResult, LegPlan, equal_shares, resolve_distribution, sum_of,
  resolve_precision, risk_of, notional_of, risk_over, notional_over, shared, final_legs, plan_of,
  plan,
}
use velotradex.LegPlanner.Limits.{IsTradable, IsSound, Explains, adjust_legs-IsSound}

length-equal_shares :
    (N : Type 0) ⦃num : Number N⦄ (n k : ℕ) → length (equal_shares {N = N} n k) ≡ k
length-equal_shares N n zero = refl
length-equal_shares N n (suc k) = ap suc (length-equal_shares N n k)

module _ {N : Type 0} ⦃num : Number N⦄ where
  length-resolve_distribution :
      (n : ℕ) (ds : Option (List N)) → length (resolve_distribution n ds) ≡ n
  unfolding resolve_distribution
  length-resolve_distribution n none = length-equal_shares N n n
  length-resolve_distribution n (some ds) =
      ground (arith, length-equal_shares N n n, length-map ds (λ (d : N). num.div d (sum_of ds)))

  length-shared :
      (input : PlannerInput N) (ts ds : List N)
      → length ds ≡ length ts
      → length (shared input ts ds) ≡ length ts
  length-shared input [] [] h = refl
  length-shared input [] (d ∷ ds) h = refl
  length-shared input (t ∷ ts) [] h = absurd (omega arith)
  length-shared input (t ∷ ts) (d ∷ ds) h = ap suc (length-shared input ts ds (omega arith))

  module _ (input : PlannerInput N) where
    -- An accepted plan is made of tradable legs, at least one and at most one for each level; its
    -- totals are theirs and are not over the limits, and it says when legs were merged.
    abbrev pub IsWithinLimits : LegPlan N → Type 0
    IsWithinLimits p =
        (ls : List (InternalLeg N)) × (p.legs
          ≡ final_legs input (resolve_precision input.volume_precision (int 2)) 0 ls)
        × All (IsTradable input) ls
        × (0 < length ls)
        × (length ls ≤ length input.targets)
        × (p.total_risk ≡ risk_of input ls)
        × (p.total_notional ≡ notional_of input ls)
        × (risk_over input p.total_risk ≡ false)
        × (notional_over input p.total_notional ≡ false)
        × (p.downgraded_from ≡ (
            if ltb (length ls) (length input.targets) then some (length input.targets) else none))

    abbrev pub IsAnswer : LegPlan N → Type 0
    IsAnswer p =
        ((p.reject_reason ≡ none) × IsWithinLimits p)
        ⊎ ((p.reject_reason ≢ none) × (p.legs ≡ []) × (p.total_volume ≡ "0"))

    plan_of-IsAnswer :
        (dist : List N) (legs : List (InternalLeg N)) (r : AdjustResult N)
        → 0 < length legs
        → length legs ≡ length input.targets
        → IsSound input legs r
        → IsAnswer (plan_of input (resolve_precision input.volume_precision (int 2)) dist r)
    unfolding plan_of
    plan_of-IsAnswer dist legs r pos same s = elim (Option-cases r.reject_reason) [
      | inr (reason, e) ↦ rw e (inr (cc, refl, refl))
      | inl e ↦
          let ok_limits : Explains input r none = subst (Explains input r) e s.explained in
          rw e (
            inl (
              refl,
              (
                r.legs,
                refl,
                s.tradable,
                s.some_left pos,
                omega (arith, s.fewer),
                s.risk,
                s.notional,
                ok_limits.0,
                ok_limits.1,
                refl,
              ),
            ))
    ]

    -- For a signal with take-profit levels and a positive finite base volume, under volume limits
    -- in order, `plan` always answers: either with a plan whose legs are each within the exchange's
    -- volume limits, whose total risk and notional are the sums over the legs and exceed neither
    -- limit by more than the tolerance, and which has between one leg and one for each level; or
    -- with a refusal that has no legs.
    pub plan-IsAnswer :
        ((a : N) → num.lt a a ≡ false)
        → num.lt input.max_order_volume input.min_order_volume ≡ false
        → 0 < length input.targets
        → num.lt (int 0) input.base_volume ≡ true
        → num.is_finite input.base_volume ≡ true
        → (p : LegPlan N) × (plan input ≡ some p) × IsAnswer p
    unfolding plan
    plan-IsAnswer irrefl limits levels positive finite =
        let n = length input.targets in
        let dist = resolve_distribution n input.distribution in
        let legs = shared input input.targets dist in
        let same =
          length-shared input input.targets dist
            (length-resolve_distribution n input.distribution) in
        let vp = resolve_precision input.volume_precision (int 2) in
        let pp = resolve_precision input.price_precision (int 2) in
        let (r, done, sound) =
          adjust_legs-IsSound input irrefl limits n legs vp pp false levels (omega (arith, same)) in
        let no_zero : (n == 0) ≡ false = ground arith in
        rw (positive, finite, no_zero, done)
          (_, refl, plan_of-IsAnswer dist legs r (omega (arith, same)) same sound)
