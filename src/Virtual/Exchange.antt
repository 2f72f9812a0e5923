-- ===== src/Virtual/Exchange.antt =====
-- services/exchanges/virtual/VirtualGateExchange.ts: the orders of one simulated exchange. An
-- operation is a step of the whole state, which keeps what was written before an error. Ids, the
-- latest ticks of the market data hub and the clock are parameters, `hub.start` and the callback
-- of a protection fill only note that they were called; errors of the database other than a
-- duplicate id are left out.
use velotradex.Base.{
  ℕ, String, Bool, true, false, not, Option, none, some, is_some, List, str_eq, if◌then◌else◌,
  Outcome, ok, throws,
}
use velotradex.Dict.{Dict, get}
use velotradex.Run.{Run}
use velotradex.Virtual.{
  VirtualOrder, OrderRole, OrderStatus, entry, tp, sl, close, Store, create_order, update_order,
}
use velotradex.Virtual.Engine.{or_else}

pub record MarketTick : Type 0 where
  pub last_price : String
  pub received_at : ℕ

-- What is outside the exchange while an operation runs: the contract multipliers, the latest ticks of
-- the hub, the clock and the age limit of a tick.
pub record Market (N : Type 0) : Type 0 where
  pub multiplier_by_symbol : String → N
  pub latest_tick : String → Option MarketTick
  pub now : ℕ
  pub max_tick_age : ℕ

pub record OrderParams : Type 0 where
  pub symbol : String
  pub side : String
  pub type : Option String
  pub amount : String
  pub price : Option String
  pub reduce_only : Bool
  pub trigger_price : Option String
  pub text : Option String
  pub stop_loss : Option String
  pub take_profit : Option String
  pub tp_orders_json : Option String

-- The columns that are copied for display are left out.
pub record OrderResult : Type 0 where
  pub id : String
  pub status : OrderStatus
  pub amount : String
  pub price : Option String

pub record ProtectionFillInfo (N : Type 0) : Type 0 where
  pub virtual_order_id : String
  pub symbol : String
  pub order_role : OrderRole
  pub fill_price : String
  pub filled_amount : String
  pub realized_pnl : N

-- `settled` are the waiters that were answered, with `none` for a timeout, and `reports` the calls of
-- `onProtectionFill`. A waiter is named by a number.
pub record Exchange (N : Type 0) : Type 0 where
  pub store : Store
  pub fill_waiters : Dict (List ℕ)
  pub settled : List (ℕ × Option OrderResult)
  pub subscriptions : List String
  pub reports : List (ProtectionFillInfo N)
  pub mark_prices : Dict String
  pub stopped : Bool

-- `order.update(change)` of a row that was read before: no condition on the row now
unfoldable pub update_row : (VirtualOrder → VirtualOrder) → String → Store → Store
update_row change id s = (update_order (λ o. true) change id s).1

abbrev pub with_status : OrderStatus → VirtualOrder → VirtualOrder
with_status status o = record o { status = status }

abbrev is_empty : Option String → Bool
is_empty o = not (is_some (or_else o none))

unfoldable pub is_regular_open_order : VirtualOrder → Bool
is_regular_open_order o = elim o.order_role [
  | entry ↦ true
  | close ↦ true
  | tp ↦ is_empty o.trigger_price
  | sl ↦ false
]

unfoldable pub is_price_order : VirtualOrder → Bool
is_price_order o = elim o.order_role [ sl ↦ true | _ ↦ not (is_empty o.trigger_price) ]

-- `a ?? b`
abbrev pub or_null {ℓ} : {A : Type ℓ} → Option A → Option A → Option A
or_null none b = b
or_null (some a) b = some a

abbrev pub default {ℓ} : {A : Type ℓ} → Option A → A → A
default none b = b
default (some a) b = a

unfoldable pub to_order_result : VirtualOrder → OrderResult
to_order_result o = record {
  id = o.virtual_order_id;
  status = o.status;
  amount = default o.filled_amount o.amount;
  price = or_null o.filled_price (or_null o.price o.trigger_price);
}

abbrev pub named : String → Option VirtualOrder → Outcome VirtualOrder
named symbol none = throws "Order not found"
named symbol (some o) = if str_eq o.symbol symbol then ok o else throws "Order not found"

unfoldable pub find_order : String → String → Store → Outcome VirtualOrder
find_order id symbol s = named symbol (get id s.orders)

-- An operation on the rows alone
abbrev pub on_store {ℓ} : {N : Type 0} {A : Type ℓ} → Run Store A → Run (Exchange N) A
on_store f e = let r = f e.store in (r.0, record e { store = r.1 })

abbrev pub inserted : VirtualOrder → Store → Option Store → Outcome VirtualOrder × Store
inserted o s none = (throws "Validation error", s)
inserted o s (some t) = (ok o, t)

-- `createOrder` of an id that is taken throws.
abbrev pub insert : VirtualOrder → Run Store VirtualOrder
insert o s = inserted o s (create_order o s)
