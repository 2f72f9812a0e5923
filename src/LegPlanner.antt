-- ===== src/LegPlanner.antt =====
-- services/exchanges/gate_cfd/CfdLegPlanner.ts (and its types in types.ts): a signal with several
-- take-profit levels is planned as legs that keep the exchange's volume limits and the two risk
-- limits; a plan over a limit merges the two legs of smallest weight and tries again.
-- The recursion of `adjustLegs` takes fuel, and `plan` gives it the number of legs. The texts of the
-- refusals are the cases of `Reason`. `sort` is a stable insertion sort by the comparator's sign.
pub mod Sort
pub mod Limits
pub mod Shape
pub mod Tests
use velotradex.Base.{
  ℕ, zero, suc, ◌+◌, String, Bool, true, false, not, ◌&&◌, ◌||◌, Option, none, some, List, [], ◌∷◌,
  ◌++◌, map, foldl, if◌then◌else◌, ltb, ◌==◌, length, keep, indexed,
}
use velotradex.Number.{Number, int}

-- `InternalLeg`
pub record InternalLeg (N : Type 0) : Type 0 where
  pub tp_price : N
  pub volume : N
  pub weight : N

pub record PlannerInput (N : Type 0) : Type 0 where
  pub entry_price : N
  pub stop_loss : N
  pub targets : List N
  pub distribution : Option (List N)
  pub contract_volume : N
  pub min_order_volume : N
  pub max_order_volume : N
  pub base_volume : N
  pub risk_amount : N
  pub max_position_size : N
  pub price_precision : Option N
  pub volume_precision : Option N

-- `CfdLeg`
pub record Leg : Type 0 where
  pub leg_index : ℕ
  pub tp_price : String
  pub volume : String
  pub price_sl : Option String

-- Why a signal is given up: no base volume, or the limits that one leg still exceeds.
pub data Reason : Type 0 where
  no_base_volume : Reason
  over_limits : (risk notional : Bool) → Reason

-- `AdjustResult`, with the flag that `AdjustCtx` carries
pub record AdjustResult (N : Type 0) : Type 0 where
  pub legs : List (InternalLeg N)
  pub reject_reason : Option Reason
  pub total_risk : N
  pub total_notional : N
  pub amplified : Bool

-- `CfdLegPlan`; `rejected` is the presence of a reason
pub record LegPlan (N : Type 0) : Type 0 where
  pub legs : List Leg
  pub total_volume : String
  pub total_risk : N
  pub total_notional : N
  pub risk_amount : N
  pub max_position_size : N
  pub downgraded_from : Option ℕ
  pub amplification_applied : Bool
  pub distribution : Option (List N)
  pub original_targets : List String
  pub reject_reason : Option Reason

module _ {N : Type 0} ⦃num : Number N⦄ where
  open num use {
    lt, eq, abs, add, sub, mul, div, pow, floor, round, is_finite, is_integer, to_text, to_fixed,
    parse_float, literal,
  }

  unfoldable pub floor_to : N → N → N
  floor_to value precision =
      let factor = pow (int 10) precision in
      div (floor (add (mul value factor) (literal 1 8))) factor

  unfoldable pub round_to : N → N → N
  round_to value precision =
      let factor = pow (int 10) precision in div (round (mul value factor)) factor

  abbrev pub format_volume : N → N → String
  format_volume value precision = to_fixed value precision

  unfoldable pub resolve_precision : Option N → N → N
  resolve_precision none fallback = fallback
  resolve_precision (some p) fallback = if is_integer p && lt (int 0) p then p else fallback

  abbrev pub sum_of : List N → N
  sum_of = foldl add (int 0)

  abbrev pub equal_shares : ℕ → ℕ → List N
  equal_shares n zero = []
  equal_shares n (suc k) = div (int 1) (int n) ∷ equal_shares n k

  unfoldable pub resolve_distribution : ℕ → Option (List N) → List N
  resolve_distribution n none = equal_shares n n
  resolve_distribution n (some ds) =
      let sum = sum_of ds in
      if not (length ds == n)
      then equal_shares n n
      else if not (is_finite sum) || (lt sum (int 0) || eq sum (int 0))
      then equal_shares n n
      else if lt (literal 1 9) (abs (sub sum (int 1)))
      then map (λ d. div d sum) ds
      else ds

  -- `a.sort((x, y) => key(x) - key(y))`: an element goes behind those that compare below it
  abbrev pub insert_by {ℓ} : {A : Type ℓ} → (A → N) → A → List A → List A
  insert_by key x [] = x ∷ []
  insert_by key x (y ∷ ys) =
      if lt (sub (key y) (key x)) (int 0) then y ∷ insert_by key x ys else x ∷ y ∷ ys

  abbrev pub sort_by {ℓ} : {A : Type ℓ} → (A → N) → List A → List A
  sort_by key [] = []
  sort_by key (x ∷ xs) = insert_by key x (sort_by key xs)

  unfoldable pub merged_leg : N → InternalLeg N → InternalLeg N → InternalLeg N
  merged_leg price_precision a b =
      let weight_sum = add a.weight b.weight in
      record {
        tp_price =
            if lt (int 0) weight_sum
            then round_to (div (add (mul a.tp_price a.weight) (mul b.tp_price b.weight)) weight_sum)
                price_precision
            else round_to (div (add a.tp_price b.tp_price) (int 2)) price_precision;
        volume = add a.volume b.volume;
        weight = weight_sum;
      }

  -- `legs.filter((l) => l !== a && l !== b)`; the identity of a leg is its place
  abbrev pub without : ℕ → ℕ → List (ℕ × InternalLeg N) → List (InternalLeg N)
  without i j [] = []
  without i j ((k, l) ∷ ls) = if k == i || k == j then without i j ls else l ∷ without i j ls

  abbrev pub weight_of : ℕ × InternalLeg N → N
  weight_of l = l.1.weight

  abbrev pub merge_first :
      N → List (ℕ × InternalLeg N) → List (ℕ × InternalLeg N) → List (InternalLeg N)
  merge_first price_precision legs (a ∷ b ∷ _) =
      sort_by (λ l. l.tp_price) (without a.0 b.0 legs ++ (merged_leg price_precision a.1 b.1 ∷ []))
  merge_first price_precision legs _ = map (λ l. l.1) legs

  unfoldable pub merge_two_legs : List (InternalLeg N) → N → List (InternalLeg N)
  merge_two_legs legs price_precision =
      let places = indexed 0 legs in merge_first price_precision places (sort_by weight_of places)

  module _ (input : PlannerInput N) where
    open input use {
      entry_price, stop_loss, contract_volume, min_order_volume, max_order_volume, base_volume,
      risk_amount, max_position_size, targets,
    }

    abbrev pub has_sl : Bool
    has_sl = lt (int 0) stop_loss && is_finite stop_loss

    abbrev pub has_risk_check : Bool
    has_risk_check = has_sl && lt (int 0) risk_amount

    abbrev pub has_notional_check : Bool
    has_notional_check = lt (int 0) max_position_size

    abbrev pub risk_distance : N
    risk_distance = if has_sl then abs (sub entry_price stop_loss) else int 0

    -- raised to the least and cut to the greatest order volume
    abbrev pub clamp_volume : N → N
    clamp_volume v =
        let raised = if lt v min_order_volume then min_order_volume else v in
        if lt max_order_volume raised then max_order_volume else raised

    unfoldable pub adjusted_leg : N → InternalLeg N → InternalLeg N
    adjusted_leg volume_precision leg = record leg {
      volume = clamp_volume (floor_to leg.volume volume_precision);
    }

    abbrev pub amplifies : N → List (InternalLeg N) → Bool
    amplifies volume_precision [] = false
    amplifies volume_precision (leg ∷ legs) =
        lt (floor_to leg.volume volume_precision) min_order_volume
        || amplifies volume_precision legs

    abbrev pub risk_of : List (InternalLeg N) → N
    risk_of =
        foldl
          (λ sum leg.
            if has_risk_check
            then add sum (mul (mul leg.volume contract_volume) risk_distance)
            else sum)
          (int 0)

    abbrev pub notional_of : List (InternalLeg N) → N
    notional_of =
        foldl (λ sum leg. add sum (mul (mul leg.volume contract_volume) entry_price)) (int 0)

    abbrev pub risk_over : N → Bool
    risk_over total = has_risk_check && lt (add risk_amount (literal 1 9)) total

    abbrev pub notional_over : N → Bool
    notional_over total = has_notional_check && lt (add max_position_size (literal 1 9)) total

    -- `adjustLegs`; `none` means that the fuel ran out
    unfoldable pub adjust_legs :
        ℕ
        → List (InternalLeg N)
        → (volume_precision price_precision : N) → Bool
        → Option (AdjustResult N)
    adjust_legs zero legs volume_precision price_precision amplified = none
    adjust_legs (suc fuel) legs volume_precision price_precision amplified =
        let adjusted = map (adjusted_leg volume_precision) legs in
        let amplified' = amplified || amplifies volume_precision legs in
        let total_risk = risk_of adjusted in
        let total_notional = notional_of adjusted in
        let over = risk_over total_risk || notional_over total_notional in
        let again =
          adjust_legs fuel (merge_two_legs legs price_precision) volume_precision price_precision
            amplified' in
        let answer : Option Reason → Option (AdjustResult N) = λ reason. some (record {
          legs = adjusted;
          reject_reason = reason;
          total_risk = total_risk;
          total_notional = total_notional;
          amplified = amplified';
        }) in
        if over
        then (if ltb 1 (length legs)
            then again
            else answer (some (over_limits (risk_over total_risk) (notional_over total_notional))))
        else answer none

    abbrev sl_text : Option String
    sl_text = if has_sl then some (to_text stop_loss) else none

    abbrev pub final_legs : N → ℕ → List (InternalLeg N) → List Leg
    final_legs volume_precision i [] = []
    final_legs volume_precision i (l ∷ ls) =
        record {
          leg_index = i;
          tp_price = to_text l.tp_price;
          volume = format_volume l.volume volume_precision;
          price_sl = sl_text;
        }
        ∷ final_legs volume_precision (i + 1) ls

    abbrev pub shared : List N → List N → List (InternalLeg N)
    shared (tp ∷ tps) (d ∷ ds) =
        record { tp_price = tp; volume = mul base_volume d; weight = d } ∷ shared tps ds
    shared _ _ = []

    unfoldable pub refused_plan : LegPlan N
    refused_plan = record {
      legs = [];
      total_volume = "0";
      total_risk = int 0;
      total_notional = int 0;
      risk_amount = risk_amount;
      max_position_size = max_position_size;
      downgraded_from = none;
      amplification_applied = false;
      distribution = none;
      original_targets = map to_text targets;
      reject_reason = some no_base_volume;
    }

    -- a signal with no take-profit level
    unfoldable pub single_plan : N → LegPlan N
    single_plan volume_precision =
        let floored = floor_to base_volume volume_precision in
        let volume = clamp_volume floored in
        record {
          legs =
              record {
                leg_index = 0;
                tp_price = "";
                volume = format_volume volume volume_precision;
                price_sl = sl_text;
              }
              ∷ [];
          total_volume = format_volume volume volume_precision;
          total_risk =
              if lt (int 0) risk_distance
              then mul (mul volume contract_volume) risk_distance
              else int 0;
          total_notional = mul (mul volume contract_volume) entry_price;
          risk_amount = risk_amount;
          max_position_size = max_position_size;
          downgraded_from = none;
          amplification_applied = lt floored min_order_volume;
          distribution = none;
          original_targets = [];
          reject_reason = none;
        }

    unfoldable pub plan_of : N → List N → AdjustResult N → LegPlan N
    plan_of volume_precision dist result = elim result.reject_reason [
      | some reason ↦ record {
        legs = [];
        total_volume = "0";
        total_risk = result.total_risk;
        total_notional = result.total_notional;
        risk_amount = risk_amount;
        max_position_size = max_position_size;
        downgraded_from = none;
        amplification_applied = result.amplified;
        distribution = some dist;
        original_targets = map to_text targets;
        reject_reason = some reason;
      }
      | none ↦
          let legs = final_legs volume_precision 0 result.legs in
          record {
            legs = legs;
            total_volume =
                format_volume (foldl (λ sum l. add sum (parse_float l.volume)) (int 0) legs)
                  volume_precision;
            total_risk = result.total_risk;
            total_notional = result.total_notional;
            risk_amount = risk_amount;
            max_position_size = max_position_size;
            downgraded_from =
                if ltb (length result.legs) (length targets) then some (length targets) else none;
            amplification_applied = result.amplified;
            distribution = some dist;
            original_targets = map to_text targets;
            reject_reason = none;
          }
    ]

    abbrev plan_or_none : N → List N → Option (AdjustResult N) → Option (LegPlan N)
    plan_or_none volume_precision dist none = none
    plan_or_none volume_precision dist (some r) = some (plan_of volume_precision dist r)

    unfoldable pub plan : Option (LegPlan N)
    plan =
        let volume_precision = resolve_precision input.volume_precision (int 2) in
        let price_precision = resolve_precision input.price_precision (int 2) in
        let dist = resolve_distribution (length targets) input.distribution in
        let legs = shared targets dist in
        if not (lt (int 0) base_volume) || not (is_finite base_volume)
        then some refused_plan
        else if length targets == 0
        then some (single_plan volume_precision)
        else plan_or_none volume_precision dist
            (adjust_legs (length targets) legs volume_precision price_precision false)
