-- ===== src/Virtual/Calls.antt =====
-- The calls that a simulated exchange receives, one after the other, and the book that they make.
use velotradex.Base.{
  String, refl, Bool, true, false, not, ◌&&◌, ◌||◌, Option, List, [], ◌∷◌, str_eq, if◌then◌else◌,
  Outcome, ok, if_both,
}
use velotradex.Number.{Number, int, not_positive}
use velotradex.Text.{normalize_symbol_case}
use velotradex.Run.{Run, ◌>>=◌, ◌>>◌, return}
use velotradex.Virtual.{
  VirtualOrder, PendingProtection, Store, find_open_orders, is_open, size_of, get_position,
}
use velotradex.Virtual.Exchange.{Exchange, OrderParams, Market, on_store, insert}
use velotradex.Virtual.Orders.{order_of, has_protection, price_or_tick, fill}
use velotradex.Virtual.Placement.{
  place_order, place_inserted, protected_by, protection_of, place_market, place_limit,
  close_position, close_all, close_at, close_inserted, close_row, reported, tick_order, tick_orders,
  process_tick, unless_stopped, is_due, fill_price,
}
use velotradex.Virtual.Refines.{Refines, Refines-refl}
use velotradex.Virtual.Rows.{insert-Refines}
use velotradex.Virtual.Session.{Held, held, Held-refl, IsBookRun, bind_runs}
use velotradex.Virtual.Trading.{
  on_store-IsBookRun, choice-IsBookRun, then_return, given-IsBookRun, fill-IsBookRun,
  reported-IsBookRun, place_market-IsBookRun, place_limit-IsBookRun,
}

-- Either outcome of a test
either_Held {ℓ} :
    {N : Type 0} {A : Type ℓ} (e : Exchange N) (b : Bool) (r s : Outcome A × Exchange N)
    → Held e r.1
    → Held e s.1
    → Held e (if b then r else s).1
either_Held e true r s h k = h
either_Held e false r s h k = k

module _ {N : Type 0} ⦃num : Number N⦄ (market : Market N) where
  protected_by-Refines :
      (persists : PendingProtection → Bool) (row : PendingProtection) (b : Bool) (s : Store)
      → Refines s (protected_by market persists row b s).1
  protected_by-Refines persists row true s =
      if_both (Refines s) (persists row) (Refines-refl s) (Refines-refl s)
  protected_by-Refines persists row false s = Refines-refl s

  place_inserted-IsBookRun :
      (persists : PendingProtection → Bool) (id : String) (params : OrderParams) (o : VirtualOrder)
      → IsBookRun (place_inserted market persists id params o)
  place_inserted-IsBookRun persists id params o =
      let protect =
        protected_by market persists (protection_of id params) (has_protection params) in
      let limit = place_limit market o (market.latest_tick (normalize_symbol_case o.symbol)) in
      bind_runs (on_store protect)
        (λ _. if str_eq o.type "market" then place_market market o else limit)
        (on_store-IsBookRun protect
          (protected_by-Refines persists (protection_of id params) (has_protection params)))
        (λ _.
          choice-IsBookRun (str_eq o.type "market") (place_market market o) limit
            (place_market-IsBookRun market o) (place_limit-IsBookRun market o _))

  pub place_order-IsBookRun :
      (persists : PendingProtection → Bool) (id : String) (params : OrderParams)
      → IsBookRun (place_order market persists id params)
  unfolding place_order
  place_order-IsBookRun persists id params =
      bind_runs (on_store (insert (order_of id params))) (place_inserted market persists id params)
        (on_store-IsBookRun (insert (order_of id params))
          (λ s. insert-Refines (order_of id params) s refl))
        (place_inserted-IsBookRun persists id params)

  close_inserted-IsBookRun :
      (symbol at : String) (o : VirtualOrder) → IsBookRun (close_inserted market symbol at o)
  close_inserted-IsBookRun symbol at o =
      bind_runs (fill market o at) (λ r. reported market o symbol at r >>= λ _. return true)
        (fill-IsBookRun market o at)
        (λ r.
          then_return (reported market o symbol at r) (λ _. true)
            (reported-IsBookRun market o symbol at r))

  close_at-IsBookRun :
      (id symbol : String) (size : N) (price amount : Option String) (at : String)
      → IsBookRun (close_at market id symbol size price amount at)
  close_at-IsBookRun id symbol size price amount at =
      let row = close_row market id symbol size price amount in
      bind_runs (on_store (insert row)) (close_inserted market symbol at)
        (on_store-IsBookRun (insert row) (λ s. insert-Refines row s refl))
        (close_inserted-IsBookRun symbol at)

  pub close_position-IsBookRun :
      (id symbol : String) (price amount : Option String)
      → IsBookRun (close_position market id symbol price amount)
  unfolding close_position
  close_position-IsBookRun id symbol price amount e =
      let size : N = size_of (get_position symbol e.store) in
      either_Held e (not (num.is_finite size) || num.eq size (int 0)) (ok true, e)
        (close_all market id symbol size price amount e) (Held-refl e)
        (given-IsBookRun (price_or_tick market symbol price)
          (close_at market id symbol size price amount)
          (close_at-IsBookRun id symbol size price amount) e)

  tick_order-IsBookRun :
      (symbol last : String) (o : VirtualOrder) → IsBookRun (tick_order market symbol last o)
  tick_order-IsBookRun symbol last o =
      let price = fill_price market o last in
      let matched = fill market o price >>= reported market o symbol price in
      choice-IsBookRun (is_due market o last && is_open o.status) matched (return tt)
        (bind_runs (fill market o price) (reported market o symbol price)
          (fill-IsBookRun market o price) (reported-IsBookRun market o symbol price))
        (λ e. Held-refl e)

  unless_stopped-IsBookRun :
      (m : Run (Exchange N) (Unit {0})) → IsBookRun m → IsBookRun (unless_stopped market m)
  unless_stopped-IsBookRun m h e = either_Held e e.stopped (ok tt, e) (m e) (Held-refl e) (h e)

  tick_orders-IsBookRun :
      (symbol last : String) (os : List VirtualOrder)
      → IsBookRun (tick_orders market symbol last os)
  unfolding tick_orders
  tick_orders-IsBookRun symbol last [] e = held e _ (Refines-refl e.store)
  tick_orders-IsBookRun symbol last (o ∷ os) e =
      unless_stopped-IsBookRun
        (tick_order market symbol last o >> tick_orders market symbol last os)
        (bind_runs (tick_order market symbol last o) (λ _. tick_orders market symbol last os)
          (tick_order-IsBookRun symbol last o) (λ _. tick_orders-IsBookRun symbol last os))
        e

  pub process_tick-IsBookRun : (symbol last : String) → IsBookRun (process_tick market symbol last)
  unfolding process_tick
  process_tick-IsBookRun symbol last e =
      let normal = normalize_symbol_case symbol in
      let os = find_open_orders normal e.store in
      either_Held e (e.stopped || not_positive (num.of_text last)) (ok tt, e)
        (tick_orders market normal last os e) (Held-refl e) (tick_orders-IsBookRun normal last os e)
