-- ===== src/Classifier/Tests.antt =====
-- The take profit of order 12, and what it counts as.
use velotradex.Base.{◌≡◌, refl, true, false, not, ◌&&◌, ◌||◌, none, some, [], ◌∷◌, Memᴰ}
use velotradex.Number.Int.{pos}
use velotradex.Number.Whole.{whole, whole_number}
use velotradex.Text.{includes, starts_with, to_lower_case}
use velotradex.Classifier.{
  Fields, Order, is_scoped_protection_order, is_reduce_only_order, is_scoped_open_order,
  is_reduce_only_tp_open_order, is_stop_loss_order, is_take_profit_trigger_order, names_stop_loss,
  full_text, get_take_profit_coverage, has_take_profit_protection,
}
use velotradex.Classifier.Scope.{is_scoped-Extends}
use velotradex.Classifier.Kinds.{is_stop_loss_order-both}

classifier : Unit {0}
unfolding includes starts_with to_lower_case is_scoped_protection_order is_reduce_only_order
    is_scoped_open_order is_reduce_only_tp_open_order is_stop_loss_order
    is_take_profit_trigger_order get_take_profit_coverage has_take_profit_protection whole
classifier = tt

abbrev take_profit : Fields
take_profit = record {
  text = some "t-tp-1-ord-12";
  initial = none;
  reduce_only = true;
  is_reduce_only = false;
  reduce_only_camel = false;
  size = some "-3";
  left = none;
  amount = none;
  side = none;
  price = some "120";
  type = none;
  order_type = none;
  stop_loss = false;
  rule = none;
}

abbrev order : Order
order = record { own = take_profit; raw = none }

-- It is also found among the orders of the order 1.
is_scoped-Extends_example : is_scoped_protection_order take_profit ("1" ∷ []) [] ≡ true
unfolding classifier
is_scoped-Extends_example =
    is_scoped-Extends take_profit ("1" ∷ []) [] "1" "t-tp-1" "2" (Memᴰ.head refl) refl

abbrev trigger : Fields
trigger = record take_profit { text = none; order_type = some "close-long-position"; rule = some 1 }

is_stop_loss_order-both_example :
    (is_stop_loss_order trigger (some true) && is_take_profit_trigger_order trigger true) ≡ (
      is_take_profit_trigger_order trigger true
      && not (includes (full_text trigger) "tp-" || includes (full_text trigger) "take-profit")
      && (names_stop_loss trigger.type || trigger.stop_loss))
is_stop_loss_order-both_example = is_stop_loss_order-both trigger true

-- A take profit that its type calls a stop loss counts as both.
counts_twice :
    (is_stop_loss_order (record trigger { type = some "stop-loss" }) (some true)
      && is_take_profit_trigger_order (record trigger { type = some "stop-loss" }) true)
    ≡ true
unfolding classifier
counts_twice = refl

is_take_profit : is_take_profit_trigger_order trigger true ≡ true
unfolding classifier
is_take_profit = refl

covered :
    (get_take_profit_coverage (order ∷ []) [] true ≡ some (pos 3))
    × (has_take_profit_protection (order ∷ []) [] true (some (some (pos 2))) ≡ true)
    × (has_take_profit_protection (order ∷ []) [] true (some (some (pos 5))) ≡ false)
unfolding classifier
covered = (refl, refl, refl)
