-- ===== src/Dedup/Tests.antt =====
-- A signal that repeats an open order, and the same signal at another stop loss.
use velotradex.Base.{◌≡◌, refl, ◌⊎◌, true, false, none, some, List, [], ◌∷◌, Memᴰ, find}
use velotradex.Dedup.{StrategyDedupParams, Order, check}
use velotradex.Dedup.Laws.{IsSameSignal, check_iff}

abbrev signal : StrategyDedupParams
signal = record {
  symbol = "XAU_USDT";
  side = "buy";
  entry_price = "2000";
  targets = "";
  stop_loss = "1990";
  exchange_instance_id = "gate-1";
  route_id = 4;
  order_type = some "limit";
}

abbrev open_order : Order
open_order = record {
  id = 12;
  strategy_id = some 3;
  exchange_instance_id = "gate-1";
  route_id = 4;
  symbol = "XAU_USDT";
  side = "buy";
  type = "limit";
  price = some "2000";
  initial_tp = none;
  initial_sl = some "1990";
  lifecycle_status = "PROTECTED";
}

abbrev orders : List Order
orders = record open_order { id = 11; lifecycle_status = "CLOSED" } ∷ open_order ∷ []

repeated : (check signal orders).duplicate_order_id ≡ some 12
unfolding check find
repeated = refl

moved : (check (record signal { stop_loss = "1985" }) orders).is_duplicate ≡ false
unfolding check find
moved = refl

check_iff_example :
    (((check signal orders).is_duplicate ≡ true)
      × ((o : Order) × Memᴰ o orders
          × IsSameSignal signal o
          × ((check signal orders).duplicate_order_id ≡ some o.id)
          × ((check signal orders).duplicate_strategy_id ≡ o.strategy_id)))
    ⊎ (((check signal orders).is_duplicate ≡ false)
        × ((o : Order) → Memᴰ o orders → ¬ IsSameSignal signal o))
check_iff_example = check_iff signal orders
