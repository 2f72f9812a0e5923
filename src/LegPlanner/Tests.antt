-- ===== src/LegPlanner/Tests.antt =====
-- A signal with three levels whose plan merges two legs, one that is refused, and one without levels.
use velotradex.Base.{◌≡◌, refl, Option, none, some, [], ◌∷◌, ℕ, arith, length}
use velotradex.Number.Int.{pos}
use velotradex.Number.Whole.{Whole, whole, whole_number, Whole-IsOrdered}
use velotradex.LegPlanner.{
  PlannerInput, LegPlan, plan, plan_of, single_plan, refused_plan, adjust_legs, adjusted_leg,
  merge_two_legs, merged_leg, resolve_distribution, resolve_precision, floor_to, round_to,
}
use velotradex.LegPlanner.Shape.{IsAnswer, plan-IsAnswer}

planner : Unit {0}
unfolding plan plan_of single_plan refused_plan adjust_legs adjusted_leg merge_two_legs merged_leg
    resolve_distribution resolve_precision floor_to round_to whole
planner = tt

abbrev w : ℕ → Whole
w n = some (pos n)

abbrev signal : PlannerInput Whole
signal = record {
  entry_price = w 100;
  stop_loss = w 90;
  targets = w 110 ∷ w 120 ∷ w 130 ∷ [];
  distribution = some (w 1 ∷ w 0 ∷ w 0 ∷ []);
  contract_volume = w 1;
  min_order_volume = w 2;
  max_order_volume = w 50;
  base_volume = w 10;
  risk_amount = w 120;
  max_position_size = w 5000;
  price_precision = none;
  volume_precision = none;
}

abbrev legs_of : Option (LegPlan Whole) → ℕ
legs_of none = 99
legs_of (some p) = length p.legs

merged_once : legs_of (plan signal) ≡ 2
unfolding planner
merged_once = refl

refused : legs_of (plan (record signal { risk_amount = w 50 })) ≡ 0
unfolding planner
refused = refl

no_levels : legs_of (plan (record signal { targets = [] })) ≡ 1
unfolding planner
no_levels = refl

plan-IsAnswer_example : (p : LegPlan Whole) × (plan signal ≡ some p) × IsAnswer signal p
unfolding whole
plan-IsAnswer_example = plan-IsAnswer signal Whole-IsOrdered.lt_irrefl refl (omega arith) refl refl
