-- ===== src/Virtual/Commit.antt =====
-- What a fill commits, and what it leaves alone.
use velotradex.Base.{
  ok-injective, String, ◌≡◌, refl, sym, ap, ◌∙◌, ◌≢◌, inl, inr, Bool, true, false, Option, none,
  some, if_both, Outcome, ok, throws, ◌>>◌,
}
use velotradex.Dict.{get, put, get-put_self, get-put_ne}
use velotradex.Number.{Number}
use velotradex.Virtual.{
  VirtualOrder, VirtualPosition, opened, filled, Store, Fill, update_order, is_open,
  mark_order_filled, record_fill, recorded, upsert_position, create_trade, counts, get_position,
  cancel_invalid_reduce_only_order,
}
use velotradex.Virtual.Engine.{
  Decision, cancels, writes, FillResult, decide, carry_out, Next, check_fill, decision_of, next_of,
}
use velotradex.Virtual.Rows.{is_open-opened, recorded-IsCommitted, add_realized_pnl-positions}
use velotradex.Virtual.Refines.{update_order-cases}

other_row :
    (test : VirtualOrder → Bool) (change : VirtualOrder → VirtualOrder) (id other : String)
    (s : Store)
    → id ≢ other
    → get other (update_order test change id s).1.orders ≡ get other s.orders
other_row test change id other s ne = elim (update_order-cases test change id s) [
  | inl e ↦ rw e refl
  | inr (o, found, t, e) ↦ rw e (get-put_ne id other (change o) s.orders ne)
]

module _ {N : Type 0} ⦃num : Number N⦄ where
  -- A decision is about its own order.
  abbrev pub IsOwn : VirtualOrder → Outcome (Decision N) → Type 0
  IsOwn o (throws e) = Unit
  IsOwn o (ok cancels) = Unit
  IsOwn o (ok (writes fill)) =
      (fill.trade.virtual_order_id ≡ o.virtual_order_id) × (fill.symbol ≡ o.symbol)

  decision_of-IsOwn :
      (o : VirtualOrder) (price : N) (n : Option (Next N)) → IsOwn o (ok (decision_of o price n))
  decision_of-IsOwn o price none = tt
  decision_of-IsOwn o price (some n) = (refl, refl)

  checked-IsOwn :
      (o : VirtualOrder) (c : Outcome (Unit {0})) (d : Outcome (Decision N))
      → IsOwn o d
      → IsOwn o (c >> d)
  checked-IsOwn o (ok u) d h = h
  checked-IsOwn o (throws e) d h = tt

  pub decide-IsOwn :
      (o : VirtualOrder) (price : String) (multiplier : N) (position : Option VirtualPosition)
      → IsOwn o (decide o price multiplier position)
  unfolding decide
  decide-IsOwn o price multiplier position =
      checked-IsOwn o (check_fill o price multiplier position)
        (ok (decision_of o (num.of_text price) (next_of o (num.of_text price) multiplier position)))
        (decision_of-IsOwn o (num.of_text price)
          (next_of o (num.of_text price) multiplier position))

  -- A fill commits when its order is open.
  abbrev pub marked : Fill N → VirtualOrder → VirtualOrder
  marked fill o = record o {
    status = filled;
    filled_price = some fill.fill_price;
    filled_amount = some fill.filled_amount;
  }

  abbrev pub with_marked : Fill N → VirtualOrder → Store → Store
  with_marked fill o s = record s {
    orders = put fill.trade.virtual_order_id (marked fill o) s.orders;
  }

  pub record_fill-open :
      (fill : Fill N) (s : Store) (o : VirtualOrder)
      → get fill.trade.virtual_order_id s.orders ≡ some o
      → o.status ≡ opened
      → record_fill fill s ≡ recorded fill (true, with_marked fill o s)
  unfolding record_fill mark_order_filled update_order
  record_fill-open fill s o found live =
      let live : is_open o.status ≡ true = ap is_open live in rw found (rw live refl)

  -- The other way round
  record_fill-committed :
      (fill : Fill N) (s : Store)
      → (record_fill fill s).0 ≡ true
      → (o : VirtualOrder) × (get fill.trade.virtual_order_id s.orders ≡ some o)
        × (o.status ≡ opened)
  unfolding record_fill mark_order_filled
  record_fill-committed fill s h =
      elim (update_order-cases (λ o. is_open o.status) (marked fill) fill.trade.virtual_order_id
        s) [
          | inl e ↦ cc (ap (λ (r : Bool × Store). (recorded fill r).0) e, h)
          | inr (o, found, live, e) ↦ (o, found, is_open-opened o.status live)
        ]

  pub recorded-positions :
      (fill : Fill N) (s : Store)
      → (recorded fill (true, s)).1.positions ≡ put fill.symbol fill.position s.positions
  unfolding create_trade upsert_position
  recorded-positions fill s =
      let rows = create_trade fill.trade (upsert_position fill.symbol fill.position s) in
      if_both (λ (t : Store). t.positions ≡ put fill.symbol fill.position s.positions)
        (counts fill.realized_pnl) (add_realized_pnl-positions fill.realized_pnl rows) refl

  pub recorded-orders :
      (fill : Fill N) (b : Bool) (s : Store) → (recorded fill (b, s)).1.orders ≡ s.orders
  recorded-orders fill true s = (recorded-IsCommitted fill s).0
  recorded-orders fill false s = refl

  -- Filling one order leaves the rows of the others.
  pub carry_out-other :
      (o : VirtualOrder) (d : Outcome (Decision N)) (s : Store) (other : String)
      → IsOwn o d
      → o.virtual_order_id ≢ other
      → get other (carry_out o d s).1.orders ≡ get other s.orders
  unfolding carry_out cancel_invalid_reduce_only_order record_fill mark_order_filled
  carry_out-other o (throws e) s other own ne = refl
  carry_out-other o (ok cancels) s other own ne = other_row _ _ o.virtual_order_id other s ne
  carry_out-other o (ok (writes fill)) s other (own, same) ne =
      let id = fill.trade.virtual_order_id in
      let r = update_order (λ p. is_open p.status) (marked fill) id s in
      ap (get other) (recorded-orders fill r.0 r.1)
      ∙ other_row (λ p. is_open p.status) (marked fill) id other s (λ e. ne (sym own ∙ e))

  record_fill-position :
      (fill : Fill N) (s : Store) (o : VirtualOrder)
      → get fill.trade.virtual_order_id s.orders ≡ some o
      → o.status ≡ opened
      → get fill.symbol (record_fill fill s).1.positions ≡ some fill.position
  record_fill-position fill s o found live =
      ap (λ (r : Bool × Store). get fill.symbol r.1.positions)
        (record_fill-open fill s o found live)
      ∙ ap (get fill.symbol) (recorded-positions fill (with_marked fill o s))
      ∙ get-put_self fill.symbol fill.position s.positions

  -- A committed fill commits wherever its order has the same row, and leaves the same position.
  pub late_fill :
      (o : VirtualOrder) (d : Outcome (Decision N)) (s t : Store) (r : FillResult N)
      → IsOwn o d
      → get o.virtual_order_id t.orders ≡ get o.virtual_order_id s.orders
      → (carry_out o d s).0 ≡ ok r
      → r.is_filled ≡ true
      → ((carry_out o d t).0 ≡ ok r)
        × (get_position o.symbol (carry_out o d t).1 ≡ get_position o.symbol (carry_out o d s).1)
  unfolding carry_out get_position
  late_fill o (throws e) s t r own row h f = cc h
  late_fill o (ok cancels) s t r own row h f =
      cc (ap (λ (x : FillResult N). x.is_filled) (ok-injective h), f)
  late_fill o (ok (writes fill)) s t r (own, same) row h f =
      let commits : (record_fill fill s).0 ≡ true =
        ap (λ (x : FillResult N). x.is_filled) (ok-injective h) ∙ f in
      let (p, found, live) = record_fill-committed fill s commits in
      let there : get fill.trade.virtual_order_id t.orders ≡ some p =
        ap (λ i. get i t.orders) own ∙ row ∙ ap (λ i. get i s.orders) (sym own) ∙ found in
      let commits_late = ap (λ (x : Bool × Store). x.0) (record_fill-open fill t p there live) in
      (
        ap (λ b. ok (record { realized_pnl = fill.realized_pnl; is_filled = b }))
              (commits_late ∙ sym commits)
            ∙ h,
        rw⁻¹ same (
            record_fill-position fill t p there live
            ∙ sym (record_fill-position fill s p found live)),
      )
