-- ===== src/Virtual/Rows.antt =====
-- The operations of the store and the filling of an order, as paths of the book.
use velotradex.Base.{
  ℕ, keep, if_both, String, ◌≡◌, refl, ap, inl, inr, true, ◌&&◌, Option, none, some, List, [], ◌∷◌,
  ◌++◌, map, arith, Bool-cases, Option-cases, Outcome, ok, throws, both_true, ok-injective, str_eq,
}
use velotradex.Dict.{get, put}
use velotradex.Number.{Number}
use velotradex.Virtual.{
  VirtualOrder, VirtualTrade, OrderStatus, opened, filled, cancelled, Store, Fill, update_order,
  updated, is_open, mark_order_filled, cancel_invalid_reduce_only_order, create_order, record_fill,
  recorded, upsert_position, create_trade, add_realized_pnl, counts, size_of, get_position,
  is_stale, find_open_orders, cancel_all, cancel_one, cancel_stale_reduce_only_orders,
}
use velotradex.Virtual.Engine.{Decision, cancels, writes, decide, carry_out, fill_order}
use velotradex.Virtual.Exchange.{insert, update_row, find_order, named}
use velotradex.Virtual.Book.{placed, taken}
use velotradex.Virtual.Refines.{
  Refines, Refines-refl, Refines-trans, one_step, put-IsKeyed, status-put, update_order-cases,
  withdraw_row,
}

pub is_open-opened : (s : OrderStatus) → is_open s ≡ true → s ≡ opened
is_open-opened s h = ground arith

cancel_invalid-Refines :
    (id : String) (s : Store) → Refines s (cancel_invalid_reduce_only_order id s).1
unfolding cancel_invalid_reduce_only_order
cancel_invalid-Refines id s =
    elim (update_order-cases (λ o. is_open o.status && o.reduce_only)
      (λ o. record o { status = cancelled }) id s) [
        | inl h ↦ rw h (Refines-refl s)
        | inr (o, found, t, h) ↦ rw h (
            withdraw_row id s o found
              (is_open-opened o.status (both_true (is_open o.status) o.reduce_only t).0))
      ]

cancel_all-Refines : (os : List VirtualOrder) (s : Store) → Refines s (cancel_all os s)
cancel_all-Refines [] s = Refines-refl s
cancel_all-Refines (o ∷ os) s =
    Refines-trans s (cancel_one s o) (cancel_all os (cancel_one s o))
      (cancel_invalid-Refines o.virtual_order_id s) (cancel_all-Refines os (cancel_one s o))

pub cancel_stale-Refines :
    (N : Type 0) ⦃num : Number N⦄ (symbol : String) (s : Store)
    → Refines s (cancel_stale_reduce_only_orders N symbol s).1
unfolding cancel_stale_reduce_only_orders
cancel_stale-Refines N ⦃num = num⦄ symbol s =
    let size : N = size_of (get_position symbol s) in
    let stale = keep (is_stale size) (find_open_orders symbol s) in
    if_both (λ (r : ℕ × Store). Refines s r.1) (num.is_finite size) (cancel_all-Refines stale s)
      (Refines-refl s)

pub insert-Refines : (o : VirtualOrder) (s : Store) → o.status ≡ opened → Refines s (insert o s).1
unfolding create_order
insert-Refines o s live = elim (Option-cases (get o.virtual_order_id s.orders)) [
  | inl free ↦ rw free (
      one_step s (record s { orders = put o.virtual_order_id o s.orders })
        (put-IsKeyed o.virtual_order_id o s.orders refl)
        (placed o.virtual_order_id (rw free refl)
          (λ j. ground (arith, status-put o.virtual_order_id j o s.orders, live)) refl))
  | inr (p, there) ↦ rw there (Refines-refl s)
]

map-append_one :
    (ts : List VirtualTrade) (t : VirtualTrade)
    → map (λ (u : VirtualTrade). u.virtual_order_id) (ts ++ (t ∷ []))
      ≡ map (λ (u : VirtualTrade). u.virtual_order_id) ts ++ (t.virtual_order_id ∷ [])
map-append_one [] t = refl
map-append_one (u ∷ ts) t = ap (λ r. u.virtual_order_id ∷ r) (map-append_one ts t)

module _ {N : Type 0} ⦃num : Number N⦄ where
  -- The account is no part of the book.
  pub add_realized_pnl-rows :
      (pnl : N) (s : Store)
      → ((add_realized_pnl pnl s).orders ≡ s.orders) × ((add_realized_pnl pnl s).trades ≡ s.trades)
  unfolding add_realized_pnl
  add_realized_pnl-rows pnl s = elim (Option-cases s.account) [
    | inl h ↦ rw h (refl, refl)
    | inr (a, h) ↦ rw h (refl, refl)
  ]

  pub add_realized_pnl-positions :
      (pnl : N) (s : Store) → (add_realized_pnl pnl s).positions ≡ s.positions
  unfolding add_realized_pnl
  add_realized_pnl-positions pnl s = elim (Option-cases s.account) [
    | inl h ↦ rw h refl
    | inr (a, h) ↦ rw h refl
  ]

  -- The rows that a committed fill leaves
  abbrev pub IsCommitted : Fill N → Store → Store → Type 0
  IsCommitted fill s t = (t.orders ≡ s.orders) × (t.trades ≡ s.trades ++ (fill.trade ∷ []))

  pub recorded-IsCommitted :
      (fill : Fill N) (s : Store) → IsCommitted fill s (recorded fill (true, s)).1
  unfolding create_trade upsert_position
  recorded-IsCommitted fill s =
      let rows = create_trade fill.trade (upsert_position fill.symbol fill.position s) in
      if_both (IsCommitted fill s) (counts fill.realized_pnl)
        (add_realized_pnl-rows fill.realized_pnl rows) (refl, refl)

take_row :
    (id : String) (s t : Store) (o p : VirtualOrder) (trade : VirtualTrade)
    → get id s.orders ≡ some o
    → o.status ≡ opened
    → p.virtual_order_id ≡ o.virtual_order_id
    → p.status ≡ filled
    → trade.virtual_order_id ≡ id
    → t.orders ≡ put id p s.orders
    → t.trades ≡ s.trades ++ (trade ∷ [])
    → Refines s t
take_row id s t o p trade found live same done own rows trades =
    one_step s t (λ k. rw rows (put-IsKeyed id p s.orders (cc (k.1 id o found, same)) k))
      (taken id (rw (found, live) refl)
        (λ j. rw rows (ground (arith, status-put id j p s.orders, done)))
        (simp (trades, map-append_one, own)))

module _ {N : Type 0} ⦃num : Number N⦄ where
  pub record_fill-Refines : (fill : Fill N) (s : Store) → Refines s (record_fill fill s).1
  unfolding record_fill mark_order_filled
  record_fill-Refines fill s =
      let id = fill.trade.virtual_order_id in
      let mark : VirtualOrder → VirtualOrder = λ o. record o {
        status = filled;
        filled_price = some fill.fill_price;
        filled_amount = some fill.filled_amount;
      } in
      elim (update_order-cases (λ o. is_open o.status) mark id s) [
        | inl h ↦ rw h (Refines-refl s)
        | inr (o, found, t, h) ↦
            let marked = record s { orders = put id (mark o) s.orders } in
            let (rows, trades) = recorded-IsCommitted fill marked in
            rw h (
              take_row id s (recorded fill (true, marked)).1 o (mark o) fill.trade found
                (is_open-opened o.status t) refl refl refl rows trades)
      ]

  pub carry_out-Refines :
      (o : VirtualOrder) (d : Outcome (Decision N)) (s : Store) → Refines s (carry_out o d s).1
  unfolding carry_out
  carry_out-Refines o (throws e) s = Refines-refl s
  carry_out-Refines o (ok cancels) s = cancel_invalid-Refines o.virtual_order_id s
  carry_out-Refines o (ok (writes fill)) s = record_fill-Refines fill s

  pub fill_order-Refines :
      (multiplier_by_symbol : String → N) (o : VirtualOrder) (price : String) (s : Store)
      → Refines s (fill_order multiplier_by_symbol o price s).1
  unfolding fill_order
  fill_order-Refines multiplier_by_symbol o price s =
      carry_out-Refines o (decide o price (multiplier_by_symbol o.symbol) (get_position o.symbol s))
        s

named-found :
    (symbol : String) (row : Option VirtualOrder) (o : VirtualOrder)
    → named symbol row ≡ ok o
    → row ≡ some o
named-found symbol none o h = cc
named-found symbol (some p) o h = elim (Bool-cases (str_eq p.symbol symbol)) [
  | inl t ↦ ap some (ok-injective (rw t at h))
  | inr t ↦ cc (rw t at h)
]

pub found_row :
    (id symbol : String) (s : Store) (o : VirtualOrder)
    → find_order id symbol s ≡ ok o
    → get id s.orders ≡ some o
unfolding find_order
found_row id symbol s o h = named-found symbol (get id s.orders) o h

pub update_row-found :
    (f : VirtualOrder → VirtualOrder) (id : String) (s : Store) (o : VirtualOrder)
    → get id s.orders ≡ some o
    → update_row f id s ≡ record s { orders = put id (f o) s.orders }
unfolding update_row update_order
update_row-found f id s o h = ap (λ row. (updated (λ _. true) f id s row).1) h

pub update_row-missing :
    (f : VirtualOrder → VirtualOrder) (id : String) (s : Store)
    → get id s.orders ≡ none
    → update_row f id s ≡ s
unfolding update_row update_order
update_row-missing f id s h = ap (λ row. (updated (λ _. true) f id s row).1) h
