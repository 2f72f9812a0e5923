-- ===== src/Virtual/StopLoss.antt =====
-- The operation of services/exchanges/virtual/VirtualGateExchange.ts that
-- places the stop loss of a position.
use velotradex.Base.{
  String, Bool, true, false, ◌&&◌, ◌||◌, Option, none, some, List, keep, str_eq, if◌then◌else◌,
  foldl,
}
use velotradex.Number.{Number, int}
use velotradex.Text.{includes}
use velotradex.Run.{Run, ◌>>◌, return, change}
use velotradex.Virtual.{
  VirtualOrder, sl, opened, cancelled, Store, get_position, find_open_orders, size_of,
}
use velotradex.Virtual.Engine.{or_else}
use velotradex.Virtual.Exchange.{
  Exchange, update_row, with_status, or_null, default, on_store, insert,
}
use velotradex.Virtual.Orders.{subscribe_symbol}

module _ {N : Type 0} ⦃num : Number N⦄ where
  open num use {lt, abs, to_text, is_finite}

  abbrev stop_amount : N → String → Option String
  stop_amount size side =
      let same = if str_eq side "buy" then lt (int 0) size else lt size (int 0) in
      if is_finite size && same && lt (int 0) (abs size) then some (to_text (abs size)) else none

module _ (N : Type 0) ⦃num : Number N⦄ where
  unfoldable pub get_stop_loss_amount : String → String → Store → Option String
  get_stop_loss_amount symbol side s =
      let size : N = size_of (get_position symbol s) in stop_amount size side

abbrev is_side : String → Option String → Bool
is_side side none = false
is_side side (some s) = str_eq s side

abbrev pub is_existing_stop : String → String → VirtualOrder → Bool
is_existing_stop side text o =
    elim o.order_role [ sl ↦ true | _ ↦ false ]
    && is_side side o.parent_side
    && (includes text "t-sl-pos-" || str_eq (default o.text "") text)

abbrev pub cancel_each : List VirtualOrder → Store → Store
cancel_each os s = foldl (λ t o. update_row (with_status cancelled) o.virtual_order_id t) s os

unfoldable pub cancel_existing_stop_loss_orders : String → String → String → Store → Store
cancel_existing_stop_loss_orders symbol side text s =
    cancel_each (keep (is_existing_stop side text) (find_open_orders symbol s)) s

abbrev pub stop_order : String → String → String → String → String → String → VirtualOrder
stop_order id symbol side price text amount = record {
  virtual_order_id = id;
  symbol = symbol;
  side = if str_eq side "buy" then "sell" else "buy";
  type = "limit";
  order_role = sl;
  price = some price;
  amount = amount;
  filled_amount = none;
  filled_price = none;
  status = opened;
  reduce_only = true;
  trigger_price = some price;
  text = some text;
  parent_side = some side;
}

module _ {N : Type 0} where
  abbrev pub stop_placed :
      String → String → String → String → String → Option String → Run (Exchange N) (Option String)
  stop_placed id symbol side price text none = return none
  stop_placed id symbol side price text (some amount) = do
    on_store (change (cancel_existing_stop_loss_orders symbol side text))
    on_store (insert (stop_order id symbol side price text amount))
    change (subscribe_symbol symbol)
    return (some id)

module _ {N : Type 0} ⦃num : Number N⦄ where
  -- The default text is 'sl-trigger'.
  unfoldable pub update_stop_loss :
      String → String → String → String → String → Option String → Run (Exchange N) (Option String)
  update_stop_loss id symbol side price text amount e =
      stop_placed id symbol side price text
        (or_else (or_null amount (get_stop_loss_amount N symbol side e.store)) none) e
