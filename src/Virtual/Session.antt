-- ===== src/Virtual/Session.antt =====
-- Every operation of the simulated exchange is a path of the book of its orders.
use velotradex.Base.{
  inl, inr, ℕ, String, ◌≡◌, refl, Bool, true, not, ◌||◌, Option, none, some, List, [], ◌∷◌, arith,
  Bool-cases, Outcome, if_both, Outcome-cases,
}
use velotradex.Dict.{get}
use velotradex.Run.{Run, ◌>>=◌, return, ask, change, Along, bind-Along}
use velotradex.Virtual.{VirtualOrder, cancelled, is_open}
use velotradex.Virtual.Exchange.{
  Exchange, update_row, with_status, find_order, is_price_order, is_regular_open_order,
}
use velotradex.Virtual.Orders.{answer_waiters, resolve_fill_listener}
use velotradex.Virtual.Handlers.{
  cancel_order, cancel_price_order, cancel_found, amend_order, amend_found, amended, is_filled,
  waited_for, wait_for_order_fill,
}
use velotradex.Virtual.Refines.{Refines, Refines-refl, Refines-trans, withdraw_row, keep_row}
use velotradex.Virtual.Rows.{found_row, update_row-found, is_open-opened}

module _ {N : Type 0} where
  -- The rows of the orders before and after
  pub record Held (e f : Exchange N) : Type 0 where
    pub rows : Refines e.store f.store

  pub held : (e f : Exchange N) → Refines e.store f.store → Held e f
  held e f r = record { rows = r }

  pub Held-refl : (e : Exchange N) → Held e e
  Held-refl e = held e e (Refines-refl e.store)

  abbrev pub IsBookRun {ℓ} : {A : Type ℓ} → Run (Exchange N) A → Type 0
  IsBookRun m = Along Held m

  pub Held-trans : (a b c : Exchange N) → Held a b → Held b c → Held a c
  Held-trans a b c p q = held a c (Refines-trans a.store b.store c.store p.rows q.rows)

  pub bind_runs {ℓ κ} :
      {A : Type ℓ} {B : Type κ} (m : Run (Exchange N) A) (f : A → Run (Exchange N) B)
      → IsBookRun m
      → ((a : A) → IsBookRun (f a))
      → IsBookRun (m >>= f)
  bind_runs m f h k = bind-Along Held Held-trans m f h k

  -- What does not touch the rows
  pub change_runs :
      (f : Exchange N → Exchange N)
      → ((e : Exchange N) → (f e).store ≡ e.store)
      → IsBookRun (change f)
  change_runs f h e = held e (f e) (rw h (Refines-refl e.store))

  pub ask_runs {ℓ} : {A : Type ℓ} (f : Exchange N → Outcome A) → IsBookRun (ask f)
  ask_runs f e = Held-refl e

  answer_waiters-IsBookRun :
      (id symbol : String) (ws : Option (List ℕ)) → IsBookRun (answer_waiters id symbol ws)
  answer_waiters-IsBookRun id symbol none e = Held-refl e
  answer_waiters-IsBookRun id symbol (some []) e = Held-refl e
  answer_waiters-IsBookRun id symbol (some (w ∷ ws)) e =
      elim (Outcome-cases (find_order id symbol e.store)) [
        | inl (t, k) ↦ rw k (held e _ (Refines-refl e.store))
        | inr (o, k) ↦ rw k (held e _ (Refines-refl e.store))
      ]

  pub resolve-IsBookRun : (id symbol : String) → IsBookRun (resolve_fill_listener id symbol)
  unfolding resolve_fill_listener
  resolve-IsBookRun id symbol e = answer_waiters-IsBookRun id symbol (get id e.fill_waiters) e

  -- An operation on a row that was just read
  with_row {ℓ} :
      {A : Type ℓ} (id symbol : String) (f : VirtualOrder → Run (Exchange N) A)
      → ((e : Exchange N) (o : VirtualOrder) → get id e.store.orders ≡ some o → Held e (f o e).1)
      → IsBookRun (ask (λ e. find_order id symbol e.store) >>= f)
  with_row id symbol f h e = elim (Outcome-cases (find_order id symbol e.store)) [
    | inl (t, k) ↦ rw k (Held-refl e)
    | inr (o, k) ↦ rw k (h e o (found_row id symbol e.store o k))
  ]

  cancel_found-Held :
      (is_kind : VirtualOrder → Bool) (id symbol : String) (e : Exchange N) (o : VirtualOrder)
      → get id e.store.orders ≡ some o
      → Held e (cancel_found is_kind id symbol o e).1
  cancel_found-Held is_kind id symbol e o h =
      let unchanged = not (is_open o.status) || not (is_kind o) in
      elim (Bool-cases unchanged) [
        | inl t ↦ rw t (Held-refl e)
        | inr f ↦
            let live : is_open o.status ≡ true = ground arith in
            let cancelled_now = record e {
              store = update_row (with_status cancelled) id e.store;
            } in
            rw f (
              Held-trans e cancelled_now _
                (held e cancelled_now (
                  rw (update_row-found (with_status cancelled) id e.store o h)
                    (withdraw_row id e.store o h (is_open-opened o.status live))))
                (bind_runs (resolve_fill_listener id symbol) (λ _. return true)
                  (resolve-IsBookRun id symbol) (λ _ g. Held-refl g) cancelled_now))
      ]

  pub cancel_order-IsBookRun : (id symbol : String) → IsBookRun (cancel_order id symbol)
  unfolding cancel_order
  cancel_order-IsBookRun id symbol =
      with_row id symbol (cancel_found is_regular_open_order id symbol)
        (cancel_found-Held is_regular_open_order id symbol)

  pub cancel_price_order-IsBookRun : (id symbol : String) → IsBookRun (cancel_price_order id symbol)
  unfolding cancel_price_order
  cancel_price_order-IsBookRun id symbol =
      with_row id symbol (cancel_found is_price_order id symbol)
        (cancel_found-Held is_price_order id symbol)

  amend_found-Held :
      (id : String) (price amount : Option String) (e : Exchange N) (o : VirtualOrder)
      → get id e.store.orders ≡ some o
      → Held e (amend_found id price amount o e).1
  amend_found-Held id price amount e o h = elim (Bool-cases (not (is_open o.status))) [
    | inl t ↦ rw t (Held-refl e)
    | inr f ↦
        rw (f, update_row-found (amended price amount) id e.store o h)
          (record { rows = keep_row id e.store o h (amended price amount o) refl refl })
  ]

  pub amend_order-IsBookRun :
      (id symbol : String) (price amount : Option String)
      → IsBookRun (amend_order id symbol price amount)
  unfolding amend_order
  amend_order-IsBookRun id symbol price amount =
      with_row id symbol (amend_found id price amount) (amend_found-Held id price amount)

  waited_for-Held :
      (id : String) (w : ℕ) (e : Exchange N) (o : VirtualOrder) → Held e (waited_for id w o e)
  waited_for-Held id w e o =
      if_both (Held e) (is_filled o.status) (held e _ (Refines-refl e.store))
        (held e _ (Refines-refl e.store))

  pub wait-IsBookRun : (id symbol : String) (w : ℕ) → IsBookRun (wait_for_order_fill id symbol w)
  unfolding wait_for_order_fill
  wait-IsBookRun id symbol w =
      with_row id symbol (λ o. change (waited_for id w o)) (λ e o h. waited_for-Held id w e o)
