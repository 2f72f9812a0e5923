-- ===== src/Virtual/Ledger.antt =====
-- A simulated exchange through all its calls.
use velotradex.Dict.{get}
use velotradex.Virtual.Trading.{subscribe-IsBookRun}
use velotradex.Base.{keep, ◌++◌, none, ℕ, String, ◌≡◌, Bool, Option, some, List, [], ◌∷◌}
use velotradex.Number.{Number}
use velotradex.Virtual.{VirtualAccount, OrderStatus, PendingProtection, Store}
use velotradex.Virtual.Exchange.{Exchange, OrderParams, Market}
use velotradex.Virtual.Orders.{subscribe_symbol}
use velotradex.Virtual.Handlers.{
  cancel_order, cancel_price_order, amend_order, wait_for_order_fill, timed_out, remove_waiter,
  removed_from, without, start, stop, subscribe_all, has_text, open_symbols, held_symbols, others,
  opened_for, get_or_create_account, with_account,
}
use velotradex.Virtual.Placement.{place_order, close_position, process_tick}
use velotradex.Virtual.StopLoss.{update_stop_loss}
use velotradex.Virtual.Book.{IsBalanced, BookPath, BookPath-IsBalanced, BookPath-final, IsFinal}
use velotradex.Virtual.Refines.{view, IsKeyed, Refines, Refines-refl, Refines-trans}
use velotradex.Virtual.Session.{
  Held, held, Held-refl, Held-trans, cancel_order-IsBookRun, cancel_price_order-IsBookRun,
  amend_order-IsBookRun, wait-IsBookRun,
}
use velotradex.Virtual.Stops.{update_stop_loss-IsBookRun}
use velotradex.Virtual.Calls.{
  place_order-IsBookRun, close_position-IsBookRun, process_tick-IsBookRun,
}

-- What a simulated exchange is asked, with the market at that moment. The fresh ids are parameters.
pub data Call (N : Type 0) : Type 0 where
  starts : String → Call N
  stops : Call N
  places : Market N → (PendingProtection → Bool) → String → OrderParams → Call N
  amends : String → String → Option String → Option String → Call N
  cancels_order : String → String → Call N
  cancels_price_order : String → String → Call N
  updates_stop_loss : String → String → String → String → String → Option String → Call N
  closes : Market N → String → String → Option String → Option String → Call N
  ticks : Market N → String → String → Call N
  waits : String → String → ℕ → Call N
  times_out : String → ℕ → Call N

with_account-Refines :
    (balance : String) (s : Store) (a : Option VirtualAccount)
    → Refines s (with_account balance s a)
with_account-Refines balance s none = Refines-refl s
with_account-Refines balance s (some a) = Refines-refl s

module _ {N : Type 0} ⦃num : Number N⦄ where
  unfoldable pub perform : Call N → Exchange N → Exchange N
  perform (starts balance) e = start balance e
  perform stops e = stop e
  perform (places k persists id params) e = (place_order k persists id params e).1
  perform (amends id symbol price amount) e = (amend_order id symbol price amount e).1
  perform (cancels_order id symbol) e = (cancel_order id symbol e).1
  perform (cancels_price_order id symbol) e = (cancel_price_order id symbol e).1
  perform (updates_stop_loss id symbol side price text amount) e =
      (update_stop_loss id symbol side price text amount e).1
  perform (closes k id symbol price amount) e = (close_position k id symbol price amount e).1
  perform (ticks k symbol last) e = (process_tick k symbol last e).1
  perform (waits id symbol w) e = (wait_for_order_fill id symbol w e).1
  perform (times_out id w) e = timed_out id w e

  unfoldable pub perform_all : List (Call N) → Exchange N → Exchange N
  perform_all [] e = e
  perform_all (c ∷ cs) e = perform_all cs (perform c e)

  subscribe_all-Held : (symbols : List String) (e : Exchange N) → Held e (subscribe_all symbols e)
  subscribe_all-Held [] e = Held-refl e
  subscribe_all-Held (x ∷ xs) e =
      let f = subscribe_symbol x e in
      Held-trans e f (subscribe_all xs f) (subscribe-IsBookRun x e) (subscribe_all-Held xs f)

  opened_for-Held : (balance : String) (e : Exchange N) → Held e (opened_for balance e)
  unfolding get_or_create_account
  opened_for-Held balance e = held e _ (with_account-Refines balance e.store e.store.account)

  start-Held : (balance : String) (e : Exchange N) → Held e (start balance e)
  unfolding start
  start-Held balance e =
      let f = opened_for balance e in
      Held-trans e f (start balance e) (opened_for-Held balance e) (
        subscribe_all-Held
          (keep has_text (open_symbols f.store ++ held_symbols N f.store.positions)) f)

  stop-Held : (e : Exchange N) → Held e (stop e)
  unfolding stop
  stop-Held e = held e _ (Refines-refl e.store)

  without-Held : (id : String) (ws : List ℕ) (e : Exchange N) → Held e (without id ws e)
  without-Held id [] e = held e _ (Refines-refl e.store)
  without-Held id (w ∷ ws) e = held e _ (Refines-refl e.store)

  removed_from-Held :
      (id : String) (w : ℕ) (e : Exchange N) (ws : Option (List ℕ))
      → Held e (removed_from id w e ws)
  removed_from-Held id w e none = Held-refl e
  removed_from-Held id w e (some ws) = without-Held id (others w ws) e

  remove_waiter-Held : (id : String) (w : ℕ) (e : Exchange N) → Held e (remove_waiter id w e)
  unfolding remove_waiter
  remove_waiter-Held id w e = removed_from-Held id w e (get id e.fill_waiters)

  timed_out-Held : (id : String) (w : ℕ) (e : Exchange N) → Held e (timed_out id w e)
  unfolding timed_out
  timed_out-Held id w e = held e _ (remove_waiter-Held id w e).rows

  perform-Held : (c : Call N) (e : Exchange N) → Held e (perform c e)
  unfolding perform
  perform-Held (starts balance) e = start-Held balance e
  perform-Held stops e = stop-Held e
  perform-Held (places k persists id params) e = place_order-IsBookRun k persists id params e
  perform-Held (amends id symbol price amount) e = amend_order-IsBookRun id symbol price amount e
  perform-Held (cancels_order id symbol) e = cancel_order-IsBookRun id symbol e
  perform-Held (cancels_price_order id symbol) e = cancel_price_order-IsBookRun id symbol e
  perform-Held (updates_stop_loss id symbol side price text amount) e =
      update_stop_loss-IsBookRun id symbol side price text amount e
  perform-Held (closes k id symbol price amount) e =
      close_position-IsBookRun k id symbol price amount e
  perform-Held (ticks k symbol last) e = process_tick-IsBookRun k symbol last e
  perform-Held (waits id symbol w) e = wait-IsBookRun id symbol w e
  perform-Held (times_out id w) e = timed_out-Held id w e

  -- Whatever a simulated exchange is asked, in any order, what happens to its orders is a sequence of
  -- steps of the abstract book - an order is placed under a new id, an open order is traded once and
  -- filled, or an open order is cancelled - and each order stays stored once, under its own id; for an
  -- exchange whose orders are stored that way, and calls that do not overlap.
  pub perform_all-IsPath :
      (cs : List (Call N)) (e : Exchange N)
      → IsKeyed e.store.orders
      → IsKeyed (perform_all cs e).store.orders
        × BookPath (view e.store) (view (perform_all cs e).store)
  unfolding perform_all
  perform_all-IsPath [] e k = Refines-refl e.store k
  perform_all-IsPath (c ∷ cs) e k =
      Refines-trans e.store (perform c e).store (perform_all cs (perform c e)).store
        (perform-Held c e).rows (λ h. perform_all-IsPath cs (perform c e) h) k

  -- After any calls, a filled order has exactly one trade and every other order has none; for calls
  -- that do not overlap, from orders and trades of which this held.
  pub perform_all-IsBalanced :
      (cs : List (Call N)) (e : Exchange N)
      → IsKeyed e.store.orders
      → IsBalanced (view e.store)
      → IsBalanced (view (perform_all cs e).store)
  perform_all-IsBalanced cs e k b =
      BookPath-IsBalanced (view e.store) (view (perform_all cs e).store)
        (perform_all-IsPath cs e k).1 b

  -- An order that was filled, cancelled or rejected keeps that status through any calls that do not
  -- overlap.
  pub perform_all-IsFinal :
      (cs : List (Call N)) (e : Exchange N) (id : String) (s : OrderStatus)
      → IsKeyed e.store.orders
      → IsFinal s
      → (view e.store).status id ≡ some s
      → (view (perform_all cs e).store).status id ≡ some s
  perform_all-IsFinal cs e id s k f h =
      BookPath-final (view e.store) (view (perform_all cs e).store) id s
        (perform_all-IsPath cs e k).1 f h
