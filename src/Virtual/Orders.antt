-- ===== src/Virtual/Orders.antt =====
-- The steps that the operations of services/exchanges/virtual/VirtualGateExchange.ts share: fresh
-- ticks, subscriptions, waiters for a fill, reports of a fill.
use velotradex.Base.{
  ℕ, ◌+◌, String, Bool, true, false, not, ◌&&◌, ◌||◌, Option, none, some, List, [], ◌∷◌, ◌++◌,
  str_eq, leb, if◌then◌else◌, Outcome, ok, throws,
}
use velotradex.Dict.{get, delete}
use velotradex.Number.{Number, not_positive}
use velotradex.Text.{normalize_symbol_case}
use velotradex.Virtual.{
  VirtualOrder, entry, tp, close, opened, Store, cancel_stale_reduce_only_orders,
}
use velotradex.Virtual.Engine.{FillResult, fill_order, should_fill_limit, should_trigger_protection}
use velotradex.Virtual.Exchange.{
  MarketTick, Market, OrderParams, OrderResult, Exchange, default, to_order_result, find_order,
  on_store,
}
use velotradex.Run.{Run, ◌>>=◌, ◌>>◌, return, ask, change}

abbrev last_of : Outcome MarketTick → Outcome String
last_of (ok t) = ok t.last_price
last_of (throws e) = throws e

abbrev pub order_of : String → OrderParams → VirtualOrder
order_of id p = record {
  virtual_order_id = id;
  symbol = p.symbol;
  side = p.side;
  type = default p.type "market";
  order_role = if p.reduce_only then tp else entry;
  price = p.price;
  amount = p.amount;
  filled_amount = none;
  filled_price = none;
  status = opened;
  reduce_only = p.reduce_only;
  trigger_price = p.trigger_price;
  text = p.text;
  parent_side =
      if p.reduce_only then some (if str_eq p.side "buy" then "sell" else "buy") else none;
}

abbrev pub has_protection : OrderParams → Bool
has_protection p = is_given p.stop_loss || is_given p.take_profit
  where
    is_given : Option String → Bool
    is_given none = false
    is_given (some s) = not (str_eq s "")

abbrev pub has_exit_role : VirtualOrder → Bool
has_exit_role o = elim o.order_role [ entry ↦ false | _ ↦ true ]

abbrev add_once : String → List String → List String
add_once x [] = x ∷ []
add_once x (y ∷ ys) = if str_eq y x then y ∷ ys else y ∷ add_once x ys

module _ {N : Type 0} ⦃num : Number N⦄ (market : Market N) where
  unfoldable pub is_fresh_tick : MarketTick → Bool
  is_fresh_tick t =
      not (not_positive (num.of_text t.last_price))
      && leb market.now (t.received_at + market.max_tick_age)

  abbrev fresh : Option MarketTick → Outcome MarketTick
  fresh none = throws "No market price"
  fresh (some t) = if is_fresh_tick t then ok t else throws "stale market price"

  unfoldable pub assert_fresh_tick : String → Outcome MarketTick
  assert_fresh_tick symbol = fresh (market.latest_tick symbol)

  -- `price ?? this.assertFreshTick(symbol).lastPrice`
  abbrev pub price_or_tick : String → Option String → Outcome String
  price_or_tick symbol (some price) = ok price
  price_or_tick symbol none = last_of (assert_fresh_tick symbol)

abbrev answers : OrderResult → List ℕ → List (ℕ × Option OrderResult)
answers r [] = []
answers r (w ∷ ws) = (w, some r) ∷ answers r ws

module _ {N : Type 0} where
  unfoldable pub subscribe_symbol : String → Exchange N → Exchange N
  subscribe_symbol symbol e = record e {
    subscriptions = add_once (normalize_symbol_case symbol) e.subscriptions;
  }

  abbrev pub answer_waiters : String → String → Option (List ℕ) → Run (Exchange N) (Unit {0})
  answer_waiters id symbol none = return tt
  answer_waiters id symbol (some []) = return tt
  answer_waiters id symbol (some (w ∷ ws)) = do
    change (λ e. record e { fill_waiters = delete id e.fill_waiters })
    order ← ask (λ e. find_order id symbol e.store)
    change (λ e. record e { settled = e.settled ++ answers (to_order_result order) (w ∷ ws) })

  unfoldable pub resolve_fill_listener : String → String → Run (Exchange N) (Unit {0})
  resolve_fill_listener id symbol e = answer_waiters id symbol (get id e.fill_waiters) e

  unfoldable pub emit_protection_fill : VirtualOrder → String → N → Exchange N → Exchange N
  emit_protection_fill o fill_price pnl e =
      if has_exit_role o
      then record e {
        reports =
            e.reports
            ++ (record {
              virtual_order_id = o.virtual_order_id;
              symbol = o.symbol;
              order_role = o.order_role;
              fill_price = fill_price;
              filled_amount = o.amount;
              realized_pnl = pnl;
            }
                ∷ []);
      }
      else e

  abbrev pub when : Bool → Run (Exchange N) (Unit {0}) → Run (Exchange N) (Unit {0})
  when true m = m
  when false m = return tt

module _ (N : Type 0) ⦃num : Number N⦄ where
  abbrev pub cancel_stale : String → Run Store (Unit {0})
  cancel_stale symbol = change (λ s. (cancel_stale_reduce_only_orders N symbol s).1)

module _ {N : Type 0} ⦃num : Number N⦄ where
  abbrev pub should_fill : VirtualOrder → N → Bool
  should_fill o price = elim o.order_role [
    | entry ↦ should_fill_limit o price
    | close ↦ should_fill_limit o price
    | _ ↦ should_trigger_protection o price
  ]

  -- What follows a fill
  abbrev pub after_fill : VirtualOrder → String → Run (Exchange N) (Unit {0})
  after_fill o symbol =
      resolve_fill_listener o.virtual_order_id symbol
      >> on_store (cancel_stale N (normalize_symbol_case symbol))

  abbrev pub fill : Market N → VirtualOrder → String → Run (Exchange N) (FillResult N)
  fill market o price = on_store (fill_order market.multiplier_by_symbol o price)
