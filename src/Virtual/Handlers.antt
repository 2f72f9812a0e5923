-- ===== src/Virtual/Handlers.antt =====
-- The operations of services/exchanges/virtual/VirtualGateExchange.ts that work on an order
-- found by its id, and the waiters for its fill.
use velotradex.Base.{
  ℕ, String, Bool, true, false, not, ◌||◌, Option, none, some, List, [], ◌∷◌, ◌++◌, keep, str_eq,
  if◌then◌else◌, throws, ◌==◌, foldl, map,
}
use velotradex.Dict.{Dict, get, put, delete, values}
use velotradex.Number.{Number, int}
use velotradex.Run.{Run, ◌>>=◌, ◌>>◌, return, ask, given, change}
use velotradex.Virtual.{
  VirtualOrder, VirtualPosition, VirtualAccount, OrderStatus, filled, cancelled, Store, is_open,
}
use velotradex.Virtual.Exchange.{
  OrderResult, Exchange, update_row, with_status, is_regular_open_order, is_price_order, or_null,
  default, to_order_result, find_order, on_store,
}
use velotradex.Virtual.Orders.{subscribe_symbol, resolve_fill_listener}

-- `order.update(change)`
abbrev pub write_row : (VirtualOrder → VirtualOrder) → String → Run Store (Unit {0})
write_row f id = change (update_row f id)

abbrev pub amended : Option String → Option String → VirtualOrder → VirtualOrder
amended price amount o = record o {
  price = or_null price o.price;
  amount = default amount o.amount;
}

abbrev pub others : ℕ → List ℕ → List ℕ
others w ws = keep (λ v. not (v == w)) ws

abbrev pub is_filled : OrderStatus → Bool
is_filled filled = true
is_filled _ = false

module _ {N : Type 0} where
  abbrev pub cancel_found :
      (VirtualOrder → Bool) → String → String → VirtualOrder → Run (Exchange N) Bool
  cancel_found is_kind id symbol o =
      if not (is_open o.status) || not (is_kind o)
      then return false
      else (on_store (write_row (with_status cancelled) id)
          >> (resolve_fill_listener id symbol >> return true))

  unfoldable pub cancel_order : String → String → Run (Exchange N) Bool
  cancel_order id symbol =
      ask (λ e. find_order id symbol e.store) >>= cancel_found is_regular_open_order id symbol

  unfoldable pub cancel_price_order : String → String → Run (Exchange N) Bool
  cancel_price_order id symbol =
      ask (λ e. find_order id symbol e.store) >>= cancel_found is_price_order id symbol

  abbrev pub amend_found :
      String → Option String → Option String → VirtualOrder → Run (Exchange N) OrderResult
  amend_found id price amount o =
      if not (is_open o.status)
      then given (throws "Order is not open")
      else (on_store (write_row (amended price amount) id)
          >> return (to_order_result (amended price amount o)))

  unfoldable pub amend_order :
      String → String → Option String → Option String → Run (Exchange N) OrderResult
  amend_order id symbol price amount =
      ask (λ e. find_order id symbol e.store) >>= amend_found id price amount

  abbrev pub waited_for : String → ℕ → VirtualOrder → Exchange N → Exchange N
  waited_for id w o e =
      if is_filled o.status
      then record e { settled = e.settled ++ ((w, some (to_order_result o)) ∷ []) }
      else record e {
        fill_waiters = put id (default (get id e.fill_waiters) [] ++ (w ∷ [])) e.fill_waiters;
      }

  -- `waitForOrderFill` by the waiter `w`
  unfoldable pub wait_for_order_fill : String → String → ℕ → Run (Exchange N) (Unit {0})
  wait_for_order_fill id symbol w =
      ask (λ e. find_order id symbol e.store) >>= λ o. change (waited_for id w o)

  abbrev pub without : String → List ℕ → Exchange N → Exchange N
  without id [] e = record e { fill_waiters = delete id e.fill_waiters }
  without id (w ∷ ws) e = record e { fill_waiters = put id (w ∷ ws) e.fill_waiters }

  abbrev pub removed_from : String → ℕ → Exchange N → Option (List ℕ) → Exchange N
  removed_from id w e none = e
  removed_from id w e (some ws) = without id (others w ws) e

  unfoldable pub remove_waiter : String → ℕ → Exchange N → Exchange N
  remove_waiter id w e = removed_from id w e (get id e.fill_waiters)

  -- The timer of a waiter
  unfoldable pub timed_out : String → ℕ → Exchange N → Exchange N
  timed_out id w e =
      let removed = remove_waiter id w e in
      record removed { settled = removed.settled ++ ((w, none) ∷ []) }

abbrev pub with_account : String → Store → Option VirtualAccount → Store
with_account balance s none = record s {
  account = some (record { available_balance = balance; realized_pnl = "0" });
}
with_account balance s (some a) = s

unfoldable pub get_or_create_account : String → Store → Store
get_or_create_account balance s = with_account balance s s.account

-- The symbols of the positions that are not flat
module _ (N : Type 0) ⦃num : Number N⦄ where
  unfoldable pub held_symbols : Dict VirtualPosition → List String
  held_symbols [] = []
  held_symbols ((symbol, p) ∷ d) =
      let rest = held_symbols d in
      let size : N = num.of_text p.size in if num.eq size (int 0) then rest else symbol ∷ rest

abbrev pub has_text : String → Bool
has_text s = not (str_eq s "")

abbrev pub open_symbols : Store → List String
open_symbols s = map (λ o. o.symbol) (keep (λ o. is_open o.status) (values s.orders))

module _ {N : Type 0} ⦃num : Number N⦄ where
  abbrev pub subscribe_all : List String → Exchange N → Exchange N
  subscribe_all symbols e = foldl (λ f symbol. subscribe_symbol symbol f) e symbols

  abbrev pub opened_for : String → Exchange N → Exchange N
  opened_for balance e = record e { store = get_or_create_account balance e.store; stopped = false }

  -- `start`; the symbols are subscribed to after the hub has started
  unfoldable pub start : String → Exchange N → Exchange N
  start balance e =
      let f = opened_for balance e in
      subscribe_all (keep has_text (open_symbols f.store ++ held_symbols N f.store.positions)) f

  -- `stop`, with the clean-up of the subscriptions and of the queues of ticks
  unfoldable pub stop : Exchange N → Exchange N
  stop e = record e { stopped = true; subscriptions = [] }
