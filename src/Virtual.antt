-- ===== src/Virtual.antt =====
-- services/exchanges/virtual/VirtualStateStore.ts over the tables of models/VirtualOrder.ts,
-- VirtualPosition.ts, VirtualTrade.ts and VirtualAccount.ts: what one simulated exchange instance
-- keeps. Orders are a dictionary by their unique `virtualOrderId`, positions one by symbol; the
-- account is the one in USDT. A transaction is one step. The columns that the code only copies are
-- left out, and so are the queries that only list rows for display.
pub mod Engine
pub mod Exchange
pub mod Book
pub mod Refines
pub mod Orders
pub mod Handlers
pub mod Placement
pub mod StopLoss
pub mod Rows
pub mod Session
pub mod Trading
pub mod Stops
pub mod Calls
pub mod Ledger
pub mod Reduce
pub mod Commit
pub mod Races
pub mod Tests
use velotradex.Base.{
  String, Bool, true, false, not, ◌&&◌, ◌||◌, Option, none, some, List, [], ◌∷◌, ◌++◌, foldl, keep,
  length, ℕ, str_eq, if◌then◌else◌,
}
use velotradex.Dict.{Dict, get, put, values}
use velotradex.Number.{Number, int}

-- `opened` is the status 'open', a reserved word here.
pub data OrderStatus : Type 0 where
  opened filled cancelled rejected : OrderStatus

pub data OrderRole : Type 0 where
  entry tp sl close : OrderRole

pub record VirtualOrder : Type 0 where
  pub virtual_order_id : String
  pub symbol : String
  pub side : String
  pub type : String
  pub order_role : OrderRole
  pub price : Option String
  pub amount : String
  pub filled_amount : Option String
  pub filled_price : Option String
  pub status : OrderStatus
  pub reduce_only : Bool
  pub trigger_price : Option String
  pub text : Option String
  pub parent_side : Option String

pub record VirtualPosition : Type 0 where
  pub size : String
  pub entry_price : String
  pub mark_price : String

pub record VirtualTrade : Type 0 where
  pub virtual_order_id : String
  pub symbol : String
  pub side : String
  pub price : String
  pub amount : String
  pub role : String
  pub realized_pnl : String
  pub text : Option String

pub record VirtualAccount : Type 0 where
  pub available_balance : String
  pub realized_pnl : String

-- A row of models/PendingProtection.ts
pub record PendingProtection : Type 0 where
  pub order_id : String
  pub symbol : String
  pub side : String
  pub stop_loss : Option String
  pub take_profit : Option String
  pub tp_orders_json : Option String

pub record Store : Type 0 where
  pub orders : Dict VirtualOrder
  pub positions : Dict VirtualPosition
  pub trades : List VirtualTrade
  pub account : Option VirtualAccount
  pub protections : List PendingProtection

-- The payload of `recordFill`; `realized_pnl` is the number behind the text of the trade.
pub record Fill (N : Type 0) : Type 0 where
  pub symbol : String
  pub position : VirtualPosition
  pub fill_price : String
  pub filled_amount : String
  pub trade : VirtualTrade
  pub realized_pnl : N

abbrev pub is_open : OrderStatus → Bool
is_open opened = true
is_open _ = false

-- `VirtualOrder.update(change, { where: { virtualOrderId, … } })`: whether a row was updated
abbrev updated :
    (VirtualOrder → Bool)
    → (VirtualOrder → VirtualOrder)
    → String
    → Store
    → Option VirtualOrder
    → Bool × Store
updated test change id s none = (false, s)
updated test change id s (some o) =
    if test o then (true, record s { orders = put id (change o) s.orders }) else (false, s)

unfoldable pub update_order :
    (VirtualOrder → Bool) → (VirtualOrder → VirtualOrder) → String → Store → Bool × Store
update_order test change id s = updated test change id s (get id s.orders)

unfoldable pub get_position : String → Store → Option VirtualPosition
get_position symbol s = get symbol s.positions

unfoldable pub upsert_position : String → VirtualPosition → Store → Store
upsert_position symbol p s = record s { positions = put symbol p s.positions }

abbrev created : VirtualOrder → Store → Option VirtualOrder → Option Store
created o s none = some (record s { orders = put o.virtual_order_id o s.orders })
created o s (some p) = none

-- `none` is a violation of the unique id
unfoldable pub create_order : VirtualOrder → Store → Option Store
create_order o s = created o s (get o.virtual_order_id s.orders)

unfoldable pub mark_order_filled : String → String → String → Store → Bool × Store
mark_order_filled id price amount s =
    update_order (λ o. is_open o.status)
      (λ o. record o { status = filled; filled_price = some price; filled_amount = some amount }) id
      s

unfoldable pub cancel_invalid_reduce_only_order : String → Store → Bool × Store
cancel_invalid_reduce_only_order id s =
    update_order (λ o. is_open o.status && o.reduce_only) (λ o. record o { status = cancelled }) id
      s

unfoldable pub find_open_orders : String → Store → List VirtualOrder
find_open_orders symbol s = keep (λ o. is_open o.status && str_eq o.symbol symbol) (values s.orders)

unfoldable pub create_trade : VirtualTrade → Store → Store
create_trade t s = record s { trades = s.trades ++ (t ∷ []) }

-- `text || '0'`
abbrev pub or_zero : String → String
or_zero s = if str_eq s "" then "0" else s

abbrev cancel_one : Store → VirtualOrder → Store
cancel_one s o = (cancel_invalid_reduce_only_order o.virtual_order_id s).1

abbrev pub cancel_all : List VirtualOrder → Store → Store
cancel_all os s = foldl cancel_one s os

module _ {N : Type 0} ⦃num : Number N⦄ where
  open num use {lt, eq, abs, sign, neg, add, of_text, parse_float, to_fixed, is_finite, literal}

  -- `Number(position?.size ?? '0')`
  abbrev pub size_of : Option VirtualPosition → N
  size_of none = of_text "0"
  size_of (some p) = of_text p.size

  abbrev with_pnl : N → Store → Option VirtualAccount → Store
  with_pnl pnl s none = s
  with_pnl pnl s (some a) = record s {
    account = some (record {
      available_balance = to_fixed (add (parse_float (or_zero a.available_balance)) pnl) (int 4);
      realized_pnl = to_fixed (add (parse_float (or_zero a.realized_pnl)) pnl) (int 4);
    });
  }

  unfoldable pub add_realized_pnl : N → Store → Store
  add_realized_pnl pnl s = with_pnl pnl s s.account

  abbrev epsilon : N
  epsilon = literal 1 8

  -- `payload.realizedPnl && Math.abs(payload.realizedPnl) > EPSILON`
  abbrev counts : N → Bool
  counts pnl = eq pnl pnl && not (eq pnl (int 0)) && lt epsilon (abs pnl)

  abbrev recorded : Fill N → Bool × Store → Bool × Store
  recorded fill (false, s) = (false, s)
  recorded fill (true, s) =
      let written = create_trade fill.trade (upsert_position fill.symbol fill.position s) in
      (
        true,
        if counts fill.realized_pnl then add_realized_pnl fill.realized_pnl written else written,
      )

  -- `recordFill`, one transaction; the order is named by the trade
  unfoldable pub record_fill : Fill N → Store → Bool × Store
  record_fill fill s =
      recorded fill
        (mark_order_filled fill.trade.virtual_order_id fill.fill_price fill.filled_amount s)

  -- 1 for a buy, -1 for a sell, 0 otherwise
  abbrev side_sign : String → N
  side_sign side =
      if str_eq side "buy" then int 1 else if str_eq side "sell" then neg (int 1) else int 0

  abbrev is_stale : N → VirtualOrder → Bool
  is_stale size o =
      let signed = side_sign o.side in
      o.reduce_only && not (eq signed (int 0)) && (eq size (int 0) || eq (sign size) signed)

module _ (N : Type 0) ⦃num : Number N⦄ where
  unfoldable pub cancel_stale_reduce_only_orders : String → Store → ℕ × Store
  cancel_stale_reduce_only_orders symbol s =
      let size : N = size_of (get_position symbol s) in
      let stale = keep (is_stale size) (find_open_orders symbol s) in
      if num.is_finite size then (length stale, cancel_all stale s) else (0, s)
