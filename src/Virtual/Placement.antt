-- ===== src/Virtual/Placement.antt =====
-- The operations of services/exchanges/virtual/VirtualGateExchange.ts that place orders,
-- close a position and match a tick.
use velotradex.Base.{
  String, Bool, true, false, not, ◌&&◌, ◌||◌, Option, none, some, List, [], ◌∷◌, ◌++◌, str_eq,
  if◌then◌else◌, ok,
}
use velotradex.Dict.{put}
use velotradex.Number.{Number, int, not_positive}
use velotradex.Text.{normalize_symbol_case}
use velotradex.Run.{Run, ◌>>=◌, ◌>>◌, return, ask, given, change}
use velotradex.Virtual.{
  VirtualOrder, close, opened, filled, PendingProtection, Store, is_open, get_position,
  find_open_orders, size_of,
}
use velotradex.Virtual.Engine.{FillResult, or_else}
use velotradex.Virtual.Exchange.{
  MarketTick, Market, OrderParams, OrderResult, Exchange, or_null, default, to_order_result,
  find_order, on_store, insert,
}
use velotradex.Virtual.Orders.{
  order_of, has_protection, is_fresh_tick, assert_fresh_tick, price_or_tick, subscribe_symbol,
  emit_protection_fill, fill, should_fill, when, after_fill,
}

abbrev close_order : String → String → Bool → Option String → String → VirtualOrder
close_order id symbol is_long price amount = record {
  virtual_order_id = id;
  symbol = symbol;
  side = if is_long then "sell" else "buy";
  type = "market";
  order_role = close;
  price = price;
  amount = amount;
  filled_amount = none;
  filled_price = none;
  status = opened;
  reduce_only = true;
  trigger_price = none;
  text = some "close-position";
  parent_side = none;
}

abbrev pub protection_of : String → OrderParams → PendingProtection
protection_of id p = record {
  order_id = id;
  symbol = p.symbol;
  side = p.side;
  stop_loss = or_else p.stop_loss none;
  take_profit = or_else p.take_profit none;
  tp_orders_json = p.tp_orders_json;
}

module _ {N : Type 0} ⦃num : Number N⦄ (market : Market N) where
  open num use {lt, eq, abs, of_text, to_text, is_finite}

  abbrev pub reported : VirtualOrder → String → String → FillResult N → Run (Exchange N) (Unit {0})
  reported o symbol price r =
      when r.is_filled (after_fill o symbol >> change (emit_protection_fill o price r.realized_pnl))

  -- The answer to a market order, whatever became of its fill
  abbrev pub market_result : VirtualOrder → String → OrderResult
  market_result o last = record {
    id = o.virtual_order_id;
    status = filled;
    amount = o.amount;
    price = some last;
  }

  abbrev pub market_done : VirtualOrder → String → FillResult N → Run (Exchange N) OrderResult
  market_done o last r = do
    change (subscribe_symbol o.symbol)
    reported o o.symbol last r
    return (market_result o last)

  abbrev pub market_at : VirtualOrder → MarketTick → Run (Exchange N) OrderResult
  market_at o tick = fill market o tick.last_price >>= market_done o tick.last_price

  abbrev pub place_market : VirtualOrder → Run (Exchange N) OrderResult
  place_market o = given (assert_fresh_tick market o.symbol) >>= market_at o

  -- The order rests; it is filled by a later tick.
  abbrev pub rests : VirtualOrder → Run (Exchange N) OrderResult
  rests o = change (subscribe_symbol o.symbol) >> return (to_order_result o)

  abbrev pub limit_filled : VirtualOrder → Bool → Run (Exchange N) OrderResult
  limit_filled o false = rests o
  limit_filled o true = do
    after_fill o o.symbol
    row ← ask (λ e. find_order o.virtual_order_id o.symbol e.store)
    return (to_order_result row)

  abbrev pub fill_price : VirtualOrder → String → String
  fill_price o last = default (or_null o.trigger_price o.price) last

  abbrev pub is_due : VirtualOrder → String → Bool
  is_due o last = let price = of_text last in not (not_positive price) && should_fill o price

  abbrev pub limit_done : VirtualOrder → FillResult N → Run (Exchange N) OrderResult
  limit_done o r = change (subscribe_symbol o.symbol) >> limit_filled o r.is_filled

  abbrev pub place_due : VirtualOrder → String → Run (Exchange N) OrderResult
  place_due o last = fill market o (fill_price o last) >>= limit_done o

  abbrev pub place_limit : VirtualOrder → Option MarketTick → Run (Exchange N) OrderResult
  place_limit o none = rests o
  place_limit o (some t) =
      if is_fresh_tick market t && is_due o t.last_price then place_due o t.last_price else rests o

  -- `PendingProtection.create`, whose failure is only logged
  abbrev pub protected_by :
      (PendingProtection → Bool) → PendingProtection → Bool → Run Store (Unit {0})
  protected_by persists row true =
      change
        (λ s. if persists row then record s { protections = s.protections ++ (row ∷ []) } else s)
  protected_by persists row false = return tt

  abbrev pub place_inserted :
      (PendingProtection → Bool)
      → String
      → OrderParams
      → VirtualOrder
      → Run (Exchange N) OrderResult
  place_inserted persists id params o = do
    on_store (protected_by persists (protection_of id params) (has_protection params))
    if str_eq o.type "market"
        then place_market o
        else place_limit o (market.latest_tick (normalize_symbol_case o.symbol))

  unfoldable pub place_order :
      (PendingProtection → Bool) → String → OrderParams → Run (Exchange N) OrderResult
  place_order persists id params =
      on_store (insert (order_of id params)) >>= place_inserted persists id params

  abbrev pub close_inserted : String → String → VirtualOrder → Run (Exchange N) Bool
  close_inserted symbol at o = do r ← fill market o at; reported o symbol at r; return true

  abbrev pub close_row : String → String → N → Option String → Option String → VirtualOrder
  close_row id symbol size price amount =
      close_order id symbol (lt (int 0) size) price (default amount (to_text (abs size)))

  abbrev pub close_at :
      String → String → N → Option String → Option String → String → Run (Exchange N) Bool
  close_at id symbol size price amount at =
      on_store (insert (close_row id symbol size price amount)) >>= close_inserted symbol at

  abbrev pub close_all : String → String → N → Option String → Option String → Run (Exchange N) Bool
  close_all id symbol size price amount =
      given (price_or_tick market symbol price) >>= close_at id symbol size price amount

  unfoldable pub close_position :
      String → String → Option String → Option String → Run (Exchange N) Bool
  close_position id symbol price amount e =
      let size = size_of (get_position symbol e.store) in
      if not (is_finite size) || eq size (int 0)
      then (ok true, e)
      else close_all id symbol size price amount e

  -- One order of `processTick`
  abbrev pub tick_order : String → String → VirtualOrder → Run (Exchange N) (Unit {0})
  tick_order symbol last o =
      if is_due o last && is_open o.status
      then fill market o (fill_price o last) >>= reported o symbol (fill_price o last)
      else return tt

  abbrev pub unless_stopped : Run (Exchange N) (Unit {0}) → Run (Exchange N) (Unit {0})
  unless_stopped m e = if e.stopped then (ok tt, e) else m e

  -- An error ends the tick.
  unfoldable pub tick_orders : String → String → List VirtualOrder → Run (Exchange N) (Unit {0})
  tick_orders symbol last [] =
      change (λ e. record e { mark_prices = put symbol last e.mark_prices })
  tick_orders symbol last (o ∷ os) =
      unless_stopped (tick_order symbol last o >> tick_orders symbol last os)

  unfoldable pub process_tick : String → String → Run (Exchange N) (Unit {0})
  process_tick symbol last e =
      let normal = normalize_symbol_case symbol in
      if e.stopped || not_positive (of_text last)
      then (ok tt, e)
      else tick_orders normal last (find_open_orders normal e.store) e
