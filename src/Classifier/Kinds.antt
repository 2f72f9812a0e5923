-- ===== src/Classifier/Kinds.antt =====
-- Which orders count as a stop loss and as a take profit.
use velotradex.Base.{◌≡◌, Bool, not, ◌&&◌, ◌||◌, some, arith}
use velotradex.Text.{includes}
use velotradex.Classifier.{
  Fields, is_stop_loss_order, is_take_profit_trigger_order, names_stop_loss, full_text,
}

-- A price order counts as a stop loss and as a take profit of one side exactly when it counts as a
-- take profit, its text does not call it one, and its type or its field `stopLoss` calls it a stop
-- loss: neither the texts nor the trigger rules of the two kinds ever hold together.
pub is_stop_loss_order-both :
    (f : Fields) (side : Bool)
    → (is_stop_loss_order f (some side) && is_take_profit_trigger_order f side) ≡ (
        is_take_profit_trigger_order f side
        && not (includes (full_text f) "tp-" || includes (full_text f) "take-profit")
        && (names_stop_loss f.type || f.stop_loss))
unfolding is_stop_loss_order is_take_profit_trigger_order
is_stop_loss_order-both f side = ground arith
