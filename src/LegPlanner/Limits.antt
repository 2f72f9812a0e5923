-- ===== src/LegPlanner/Limits.antt =====
-- The result of `adjustLegs`: it comes with fuel for each leg, and keeps the limits or says which
-- of them a single leg exceeds.
use velotradex.Base.{
  ℕ, zero, suc, ◌≤◌, ◌<◌, ◌≡◌, refl, inl, inr, Bool, true, false, ◌||◌, Option, none, some, List,
  [], ◌∷◌, map, arith, ltb, ltb→lt, length, length-map, Bool-cases, All,
}
use velotradex.Number.{Number}
use velotradex.LegPlanner.{
  InternalLeg, PlannerInput, Reason, no_base_volume, over_limits, AdjustResult, merge_two_legs,
  amplifies, adjusted_leg, risk_of, notional_of, risk_over, notional_over, adjust_legs,
}
use velotradex.LegPlanner.Sort.{length-merge_two_legs}

module _ {N : Type 0} ⦃num : Number N⦄ (input : PlannerInput N) where
  -- A leg's volume is one that the exchange accepts.
  abbrev pub IsTradable : InternalLeg N → Type 0
  IsTradable leg =
      (num.lt leg.volume input.min_order_volume ≡ false)
      × (num.lt input.max_order_volume leg.volume ≡ false)

  -- Without a reason both limits hold; with one, a single leg exceeds just the limits it names.
  abbrev pub Explains : AdjustResult N → Option Reason → Type 0
  Explains r none =
      (risk_over input r.total_risk ≡ false) × (notional_over input r.total_notional ≡ false)
  Explains r (some no_base_volume) = ⊥
  Explains r (some (over_limits risk notional)) =
      (length r.legs ≤ 1)
      × ((risk || notional) ≡ true)
      × (risk ≡ risk_over input r.total_risk)
      × (notional ≡ notional_over input r.total_notional)

  pub record IsSound (legs : List (InternalLeg N)) (r : AdjustResult N) : Type 0 where
    pub risk : r.total_risk ≡ risk_of input r.legs
    pub notional : r.total_notional ≡ notional_of input r.legs
    pub explained : Explains r r.reject_reason
    pub fewer : length r.legs ≤ length legs
    pub some_left : 0 < length legs → 0 < length r.legs
    pub tradable : All IsTradable r.legs

  module _ (irrefl : (a : N) → num.lt a a ≡ false)
      (limits : num.lt input.max_order_volume input.min_order_volume ≡ false) where
    adjusted_leg-IsTradable :
        (precision : N) (leg : InternalLeg N) → IsTradable (adjusted_leg input precision leg)
    unfolding adjusted_leg
    adjusted_leg-IsTradable precision leg =
        ground (arith, irrefl input.min_order_volume, irrefl input.max_order_volume)

    adjusted-IsTradable :
        (precision : N) (legs : List (InternalLeg N))
        → All IsTradable (map (adjusted_leg input precision) legs)
    adjusted-IsTradable precision [] = tt
    adjusted-IsTradable precision (leg ∷ legs) =
        (adjusted_leg-IsTradable precision leg, adjusted-IsTradable precision legs)

    pub adjust_legs-IsSound :
        (fuel : ℕ) (legs : List (InternalLeg N)) (vp pp : N) (amplified : Bool)
        → 0 < fuel
        → length legs ≤ fuel
        → (r : AdjustResult N) × (adjust_legs input fuel legs vp pp amplified ≡ some r)
          × IsSound legs r
    unfolding adjust_legs
    adjust_legs-IsSound zero legs vp pp amplified f h = absurd (omega arith)
    adjust_legs-IsSound (suc fuel) legs vp pp amplified f h =
        let adjusted = map (adjusted_leg input vp) legs in
        let flag = amplified || amplifies input vp legs in
        let risk = risk_over input (risk_of input adjusted) in
        let notional = notional_over input (notional_of input adjusted) in
        let same = length-map legs (adjusted_leg input vp) in
        let fits = adjusted-IsTradable vp legs in
        elim (Bool-cases (risk || notional)) [
          | inr calm ↦ rw calm (
            _,
            refl,
            record {
              risk = refl;
              notional = refl;
              explained = ground arith;
              fewer = omega (arith, same);
              some_left = λ k. omega (arith, same);
              tradable = fits;
            },
          )
          | inl over ↦ elim (Bool-cases (ltb 1 (length legs))) [
            | inl several ↦
                let merged = length-merge_two_legs legs pp (ltb→lt _ _ several) in
                let (r, done, sound) =
                  adjust_legs-IsSound fuel (merge_two_legs legs pp) vp pp flag
                    (omega (arith, ltb→lt _ _ several)) (omega arith) in
                rw (over, several)
                  (
                    r,
                    done,
                    record {
                      risk = sound.risk;
                      notional = sound.notional;
                      explained = sound.explained;
                      fewer = omega (arith, sound.fewer);
                      some_left = λ k. sound.some_left (omega (arith, ltb→lt _ _ several));
                      tradable = sound.tradable;
                    },
                  )
            | inr one ↦
                rw (over, one)
                  (
                    _,
                    refl,
                    record {
                      risk = refl;
                      notional = refl;
                      explained = (ground (arith, same), over, refl, refl);
                      fewer = omega (arith, same);
                      some_left = λ k. omega (arith, same);
                      tradable = fits;
                    },
                  )
          ]
        ]
