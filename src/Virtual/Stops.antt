-- ===== src/Virtual/Stops.antt =====
-- Cancelling a list of open orders and placing a stop loss, as runs of the book.
use velotradex.Base.{
  ap, ◌∙◌, sym, subst, inl, some-injective, inr, String, ◌≡◌, refl, ◌&&◌, ◌⊎◌, Option, none, some,
  List, [], ◌∷◌, keep, Option-cases, str_eq, All, All-map, All-keep, All-keep_both, every_member,
  both_true,
}
use velotradex.Dict.{get, values, get-put_cases}
use velotradex.Number.{Number}
use velotradex.Run.{Run, ◌>>=◌, ◌>>◌, return, change}
use velotradex.Virtual.{VirtualOrder, opened, cancelled, Store, find_open_orders, is_open}
use velotradex.Virtual.Exchange.{update_row, with_status, Exchange, on_store, insert}
use velotradex.Virtual.Orders.{subscribe_symbol}
use velotradex.Virtual.Session.{IsBookRun, bind_runs, Held-refl}
use velotradex.Virtual.Trading.{on_store-IsBookRun, subscribe-IsBookRun, then_return}
use velotradex.Virtual.StopLoss.{
  stop_placed, update_stop_loss, stop_order, cancel_each, cancel_existing_stop_loss_orders,
  is_existing_stop,
}
use velotradex.Virtual.Refines.{
  IsKeyed, Refines, Refines-refl, Refines-trans, withdraw_row, keep_row, values-get,
}
use velotradex.Virtual.Rows.{insert-Refines, update_row-found, update_row-missing, is_open-opened}

-- The row of an id, if there is one, is open or was cancelled.
abbrev CanWithdraw : Store → String → Type 0
CanWithdraw s id =
    (o : VirtualOrder) → get id s.orders ≡ some o → (o.status ≡ opened) ⊎ (o.status ≡ cancelled)

abbrev withdraw : String → Store → Store
withdraw id s = update_row (with_status cancelled) id s

withdraw-Refines : (id : String) (s : Store) → CanWithdraw s id → Refines s (withdraw id s)
withdraw-Refines id s h = elim (Option-cases (get id s.orders)) [
  | inl k ↦ rw (update_row-missing (with_status cancelled) id s k) (Refines-refl s)
  | inr (o, k) ↦ rw (update_row-found (with_status cancelled) id s o k) (elim (h o k) [
    | inl live ↦ withdraw_row id s o k live
    | inr gone ↦ keep_row id s o k (with_status cancelled o) refl (cc gone)
  ])
]

withdraw-CanWithdraw :
    (id other : String) (s : Store)
    → CanWithdraw s id
    → CanWithdraw s other
    → CanWithdraw (withdraw id s) other
withdraw-CanWithdraw id other s h k = elim (Option-cases (get id s.orders)) [
  | inl e ↦ rw (update_row-missing (with_status cancelled) id s e) k
  | inr (o, e) ↦ rw (update_row-found (with_status cancelled) id s o e) (λ p q.
      elim (get-put_cases id other (with_status cancelled o) p s.orders q) [
        | inl (same, change) ↦ inr (sym (ap (λ (r : VirtualOrder). r.status) change))
        | inr (differ, found) ↦ k p found
      ])
]

cancel_each-Refines :
    (os : List VirtualOrder) (s : Store)
    → All (λ o. CanWithdraw s o.virtual_order_id) os
    → Refines s (cancel_each os s)
cancel_each-Refines [] s h = Refines-refl s
cancel_each-Refines (o ∷ os) s (first, others) =
    let id = o.virtual_order_id in
    Refines-trans s (withdraw id s) (cancel_each os (withdraw id s)) (withdraw-Refines id s first) (
      cancel_each-Refines os (withdraw id s)
        (All-map os (λ p h. withdraw-CanWithdraw id p.virtual_order_id s first h) others))

-- The open orders that a query lists can be withdrawn.
listed-CanWithdraw :
    (symbol : String) (s : Store)
    → IsKeyed s.orders
    → All (λ o. CanWithdraw s o.virtual_order_id) (find_open_orders symbol s)
unfolding find_open_orders
listed-CanWithdraw symbol s k =
    let stored =
      every_member (λ o. get o.virtual_order_id s.orders ≡ some o) (values s.orders)
        (λ o m.
          let (j, h) = values-get s.orders o k.0 m in
          subst (λ i. get i s.orders ≡ some o) (sym (k.1 j o h)) h) in
    All-map (find_open_orders symbol s)
      (λ o (h, t) p q.
        let same : o ≡ p = some-injective (cc (h, q)) in
        let live = is_open-opened o.status (both_true (is_open o.status) _ t).0 in
        inl (sym (ap (λ (r : VirtualOrder). r.status) same) ∙ live))
      (All-keep_both (λ o. get o.virtual_order_id s.orders ≡ some o)
        (λ o. is_open o.status && str_eq o.symbol symbol) (values s.orders) stored)

cancel_existing-Refines :
    (symbol side text : String) (s : Store)
    → Refines s (cancel_existing_stop_loss_orders symbol side text s)
unfolding cancel_existing_stop_loss_orders
cancel_existing-Refines symbol side text s k =
    let os = keep (is_existing_stop side text) (find_open_orders symbol s) in
    cancel_each-Refines os s
      (All-keep (λ o. CanWithdraw s o.virtual_order_id) (is_existing_stop side text)
        (find_open_orders symbol s) (listed-CanWithdraw symbol s k))
      k

module _ {N : Type 0} where
  stop_placed-IsBookRun :
      (id symbol side price text : String) (amount : Option String)
      → IsBookRun {N = N} (stop_placed id symbol side price text amount)
  stop_placed-IsBookRun id symbol side price text none e = Held-refl e
  stop_placed-IsBookRun id symbol side price text (some amount) e =
      let row = stop_order id symbol side price text amount in
      let last : Run (Exchange N) (Option String) =
        change (subscribe_symbol symbol) >> return (some id) in
      bind_runs (on_store (change (cancel_existing_stop_loss_orders symbol side text)))
        (λ _. on_store (insert row) >>= λ _. last)
        (on_store-IsBookRun (change (cancel_existing_stop_loss_orders symbol side text))
          (cancel_existing-Refines symbol side text))
        (λ _.
          bind_runs (on_store (insert row)) (λ _. last)
            (on_store-IsBookRun (insert row) (λ s. insert-Refines row s refl))
            (λ _.
              then_return (change (subscribe_symbol symbol)) (λ _. some id)
                (subscribe-IsBookRun symbol)))
        e

pub update_stop_loss-IsBookRun :
    {N : Type 0} ⦃num : Number N⦄ (id symbol side price text : String) (amount : Option String)
    → IsBookRun {N = N} (update_stop_loss id symbol side price text amount)
unfolding update_stop_loss
update_stop_loss-IsBookRun id symbol side price text amount e =
    stop_placed-IsBookRun id symbol side price text _ e
