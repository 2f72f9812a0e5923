-- ===== src/Virtual/Races.antt =====
-- What a fill writes, and what becomes of it when another operation comes between the reading and the
-- writing of an operation: services/exchanges/virtual/VirtualMatchingEngine.ts reads the position
-- before the transaction of its fill, and VirtualGateExchange.ts reads an order before it updates it.
use velotradex.Base.{String, ◌≡◌, refl, ap, ◌∙◌, ◌≢◌, Bool, true, some, Outcome, ok}
use velotradex.Dict.{get, put, get-put_self}
use velotradex.Number.{Number}
use velotradex.Virtual.{
  VirtualOrder, opened, filled, cancelled, Store, Fill, update_order, is_open, record_fill,
  get_position, cancel_invalid_reduce_only_order,
}
use velotradex.Virtual.Engine.{cancels, FillResult, decide, carry_out, fill_order}
use velotradex.Virtual.Rows.{record_fill-Refines, update_row-found}
use velotradex.Virtual.Exchange.{update_row, with_status, Exchange, Market, MarketTick}
use velotradex.Virtual.Book.{count, trades_due, IsBalanced, BookPath-IsBalanced}
use velotradex.Virtual.Commit.{
  decide-IsOwn, carry_out-other, late_fill, marked, with_marked, record_fill-open, recorded-orders,
}
use velotradex.Virtual.Orders.{assert_fresh_tick, subscribe_symbol}
use velotradex.Virtual.Placement.{place_market}
use velotradex.Virtual.Refines.{IsKeyed, view, status_of}

cancel_invalid-open :
    (id : String) (s : Store) (o : VirtualOrder)
    → get id s.orders ≡ some o
    → o.status ≡ opened
    → o.reduce_only ≡ true
    → (cancel_invalid_reduce_only_order id s).1
      ≡ record s { orders = put id (record o { status = cancelled }) s.orders }
unfolding cancel_invalid_reduce_only_order update_order
cancel_invalid-open id s o found live reduces =
    let live : is_open o.status ≡ true = ap is_open live in rw found (rw (live, reduces) refl)

module _ {N : Type 0} ⦃num : Number N⦄ where
  module _ (multiplier_by_symbol : String → N) (a b : VirtualOrder) (pa pb : String)
      (s : Store) where
    -- `fillOrder` of `b` with the position that it read before `a` was filled
    abbrev pub overtaken : Outcome (FillResult N) × Store
    overtaken =
        carry_out b (decide b pb (multiplier_by_symbol b.symbol) (get_position b.symbol s))
          (fill_order multiplier_by_symbol a pa s).1

    -- A fill that read the position before another order's fill is written after it as if that other
    -- fill had not changed the position: it answers as without it, and leaves the position it would
    -- have left without it, also where both are of one symbol and both are filled; for two different
    -- orders and a fill that alone would be filled.
    pub fill_order-IsOvertaken :
        (r : FillResult N)
        → a.virtual_order_id ≢ b.virtual_order_id
        → (fill_order multiplier_by_symbol b pb s).0 ≡ ok r
        → r.is_filled ≡ true
        → (overtaken.0 ≡ ok r)
          × (get_position b.symbol overtaken.1
              ≡ get_position b.symbol (fill_order multiplier_by_symbol b pb s).1)
    unfolding fill_order
    fill_order-IsOvertaken r ne h f =
        let m = multiplier_by_symbol in
        let da = decide a pa (m a.symbol) (get_position a.symbol s) in
        let db = decide b pb (m b.symbol) (get_position b.symbol s) in
        late_fill b db s (carry_out a da s).1 r
          (decide-IsOwn b pb (m b.symbol) (get_position b.symbol s))
          (carry_out-other a da s b.virtual_order_id
            (decide-IsOwn a pa (m a.symbol) (get_position a.symbol s)) ne)
          h f

  filled_row :
      (fill : Fill N) (s : Store) (o : VirtualOrder)
      → get fill.trade.virtual_order_id s.orders ≡ some o
      → o.status ≡ opened
      → get fill.trade.virtual_order_id (record_fill fill s).1.orders ≡ some (marked fill o)
  filled_row fill s o found live =
      let id = fill.trade.virtual_order_id in
      ap (λ (r : Bool × Store). get id r.1.orders) (record_fill-open fill s o found live)
      ∙ ap (get id) (recorded-orders fill true (with_marked fill o s))
      ∙ get-put_self id (marked fill o) s.orders

  -- A cancellation that read the order before its fill was committed, and is written after it, leaves
  -- a cancelled order that has one trade; for an order that was open, in a store whose filled orders
  -- alone have trades.
  pub record_fill-IsCancelled :
      (fill : Fill N) (s : Store) (o : VirtualOrder)
      → get fill.trade.virtual_order_id s.orders ≡ some o
      → o.status ≡ opened
      → IsKeyed s.orders
      → IsBalanced (view s)
      → let id = fill.trade.virtual_order_id in
        let t = update_row (with_status cancelled) id (record_fill fill s).1 in
        ((view t).status id ≡ some cancelled) × (count id (view t).traded ≡ 1)
  record_fill-IsCancelled fill s o found live k b =
      let id = fill.trade.virtual_order_id in
      let committed = (record_fill fill s).1 in
      let row = filled_row fill s o found live in
      let once =
        BookPath-IsBalanced (view s) (view committed) (record_fill-Refines fill s k).1 b id in
      let gone = with_status cancelled (marked fill o) in
      rw (update_row-found (with_status cancelled) id committed (marked fill o) row) (
        ap status_of (get-put_self id gone committed.orders),
        once ∙ ap (λ p. trades_due (status_of p)) row,
      )

  -- A market order that may only reduce, where there is nothing to reduce, is cancelled without a
  -- trade, and the answer to the call that placed it says that it was filled; for a stored open order
  -- and a fresh tick.
  pub place_market-IsCancelled :
      (market : Market N) (o : VirtualOrder) (e : Exchange N) (tick : MarketTick)
      → assert_fresh_tick market o.symbol ≡ ok tick
      → get o.virtual_order_id e.store.orders ≡ some o
      → o.status ≡ opened
      → o.reduce_only ≡ true
      → decide o tick.last_price
          (market.multiplier_by_symbol o.symbol)
          (get_position o.symbol e.store)
        ≡ ok cancels
      → let r = place_market market o e in
        (r.0
          ≡ ok (record {
            id = o.virtual_order_id;
            status = filled;
            amount = o.amount;
            price = some tick.last_price;
          }))
        × ((view r.1.store).status o.virtual_order_id ≡ some cancelled)
        × ((view r.1.store).traded ≡ (view e.store).traded)
  unfolding fill_order carry_out subscribe_symbol
  place_market-IsCancelled market o e tick fresh found live reduces nothing =
      let id = o.virtual_order_id in
      let written = cancel_invalid-open id e.store o found live reduces in
      let gone = record o { status = cancelled } in
      rw (fresh, nothing)
        (
          refl,
          ap (λ (s : Store). status_of (get id s.orders)) written
              ∙ ap status_of (get-put_self id gone e.store.orders),
          ap (λ (s : Store). (view s).traded) written,
        )
