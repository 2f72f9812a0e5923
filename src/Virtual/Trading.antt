-- ===== src/Virtual/Trading.antt =====
-- Placing, closing, stopping and matching as runs of the book.
use velotradex.Base.{
  String, Bool, true, false, ◌&&◌, Option, none, some, if◌then◌else◌, Outcome, if_both,
}
use velotradex.Number.{Number}
use velotradex.Text.{normalize_symbol_case}
use velotradex.Run.{Run, ◌>>=◌, ◌>>◌, return, ask, given, change}
use velotradex.Virtual.{VirtualOrder, Store}
use velotradex.Virtual.Engine.{FillResult, fill_order}
use velotradex.Virtual.Exchange.{
  Exchange, MarketTick, Market, on_store, find_order, to_order_result,
}
use velotradex.Virtual.Orders.{
  is_fresh_tick, assert_fresh_tick, subscribe_symbol, resolve_fill_listener, emit_protection_fill,
  fill, when, after_fill, cancel_stale, has_exit_role,
}
use velotradex.Virtual.Placement.{
  reported, market_done, market_at, market_result, place_market, rests, limit_filled, limit_done,
  place_due, place_limit, fill_price, is_due,
}
use velotradex.Virtual.Refines.{Refines, Refines-refl}
use velotradex.Virtual.Rows.{cancel_stale-Refines, fill_order-Refines}
use velotradex.Virtual.Session.{Held, held, Held-refl, IsBookRun, bind_runs, resolve-IsBookRun}

module _ {N : Type 0} where
  pub on_store-IsBookRun {ℓ} :
      {A : Type ℓ} (f : Run Store A)
      → ((s : Store) → Refines s (f s).1)
      → IsBookRun {N = N} (on_store f)
  on_store-IsBookRun f h e = held e _ (h e.store)

  pub subscribe-IsBookRun : (symbol : String) → IsBookRun {N = N} (change (subscribe_symbol symbol))
  unfolding subscribe_symbol
  subscribe-IsBookRun symbol e = held e _ (Refines-refl e.store)

  emit-IsBookRun :
      (o : VirtualOrder) (price : String) (pnl : N)
      → IsBookRun (change (emit_protection_fill o price pnl))
  unfolding emit_protection_fill
  emit-IsBookRun o price pnl e =
      if_both (Held e) (has_exit_role o) (held e _ (Refines-refl e.store)) (Held-refl e)

  when-IsBookRun : (b : Bool) (m : Run (Exchange N) (Unit {0})) → IsBookRun m → IsBookRun (when b m)
  when-IsBookRun true m h e = h e
  when-IsBookRun false m h e = Held-refl e

  -- A run that ends with an answer
  pub then_return {ℓ κ} :
      {A : Type ℓ} {B : Type κ} (m : Run (Exchange N) A) (f : A → B)
      → IsBookRun m
      → IsBookRun (m >>= λ a. return (f a))
  then_return m f h = bind_runs m (λ a. return (f a)) h (λ a e. Held-refl e)

  pub given-IsBookRun {ℓ κ} :
      {A : Type ℓ} {B : Type κ} (o : Outcome A) (f : A → Run (Exchange N) B)
      → ((a : A) → IsBookRun (f a))
      → IsBookRun (given o >>= f)
  given-IsBookRun o f h = bind_runs (given o) f (λ e. Held-refl e) h

  -- Either branch of a test
  pub choice-IsBookRun {ℓ} :
      {A : Type ℓ} (b : Bool) (m k : Run (Exchange N) A)
      → IsBookRun m
      → IsBookRun k
      → (e : Exchange N) → Held e ((if b then m else k) e).1
  choice-IsBookRun true m k h i e = h e
  choice-IsBookRun false m k h i e = i e

module _ {N : Type 0} ⦃num : Number N⦄ where
  after_fill-IsBookRun :
      (o : VirtualOrder) (symbol : String) → IsBookRun {N = N} (after_fill o symbol)
  after_fill-IsBookRun o symbol =
      let stale = normalize_symbol_case symbol in
      bind_runs (resolve_fill_listener o.virtual_order_id symbol)
        (λ _. on_store (cancel_stale N stale)) (resolve-IsBookRun o.virtual_order_id symbol)
        (λ _. on_store-IsBookRun (cancel_stale N stale) (cancel_stale-Refines N stale))

module _ {N : Type 0} ⦃num : Number N⦄ (market : Market N) where
  pub fill-IsBookRun : (o : VirtualOrder) (price : String) → IsBookRun (fill market o price)
  fill-IsBookRun o price =
      on_store-IsBookRun (fill_order market.multiplier_by_symbol o price)
        (fill_order-Refines market.multiplier_by_symbol o price)

  pub reported-IsBookRun :
      (o : VirtualOrder) (symbol price : String) (r : FillResult N)
      → IsBookRun (reported market o symbol price r)
  reported-IsBookRun o symbol price r =
      let report = change (emit_protection_fill o price r.realized_pnl) in
      when-IsBookRun r.is_filled (after_fill o symbol >> report) (
        bind_runs (after_fill o symbol) (λ _. report) (after_fill-IsBookRun o symbol)
          (λ _. emit-IsBookRun o price r.realized_pnl))

  market_done-IsBookRun :
      (o : VirtualOrder) (last : String) (r : FillResult N)
      → IsBookRun (market_done market o last r)
  market_done-IsBookRun o last r =
      let ending = reported market o o.symbol last r in
      bind_runs (change (subscribe_symbol o.symbol))
        (λ _. ending >> return (market_result market o last)) (subscribe-IsBookRun o.symbol)
        (λ _.
          then_return ending (λ _. market_result market o last)
            (reported-IsBookRun o o.symbol last r))

  market_at-IsBookRun : (o : VirtualOrder) (t : MarketTick) → IsBookRun (market_at market o t)
  market_at-IsBookRun o t =
      bind_runs (fill market o t.last_price) (market_done market o t.last_price)
        (fill-IsBookRun o t.last_price) (market_done-IsBookRun o t.last_price)

  pub place_market-IsBookRun : (o : VirtualOrder) → IsBookRun (place_market market o)
  place_market-IsBookRun o =
      given-IsBookRun (assert_fresh_tick market o.symbol) (market_at market o)
        (market_at-IsBookRun o)

  rests-IsBookRun : (o : VirtualOrder) → IsBookRun (rests market o)
  rests-IsBookRun o =
      then_return (change (subscribe_symbol o.symbol)) (λ _. to_order_result o)
        (subscribe-IsBookRun o.symbol)

  limit_filled-IsBookRun : (o : VirtualOrder) (b : Bool) → IsBookRun (limit_filled market o b)
  limit_filled-IsBookRun o false e = rests-IsBookRun o e
  limit_filled-IsBookRun o true e =
      let row : Run (Exchange N) VirtualOrder =
        ask (λ e. find_order o.virtual_order_id o.symbol e.store) in
      bind_runs (after_fill o o.symbol) (λ _. row >>= λ r. return (to_order_result r))
        (after_fill-IsBookRun o o.symbol) (λ _. then_return row to_order_result (λ e. Held-refl e))
        e

  limit_done-IsBookRun : (o : VirtualOrder) (r : FillResult N) → IsBookRun (limit_done market o r)
  limit_done-IsBookRun o r =
      bind_runs (change (subscribe_symbol o.symbol)) (λ _. limit_filled market o r.is_filled)
        (subscribe-IsBookRun o.symbol) (λ _. limit_filled-IsBookRun o r.is_filled)

  place_due-IsBookRun : (o : VirtualOrder) (last : String) → IsBookRun (place_due market o last)
  place_due-IsBookRun o last =
      bind_runs (fill market o (fill_price market o last)) (limit_done market o)
        (fill-IsBookRun o (fill_price market o last)) (limit_done-IsBookRun o)

  pub place_limit-IsBookRun :
      (o : VirtualOrder) (t : Option MarketTick) → IsBookRun (place_limit market o t)
  place_limit-IsBookRun o none e = rests-IsBookRun o e
  place_limit-IsBookRun o (some t) e =
      choice-IsBookRun (is_fresh_tick market t && is_due market o t.last_price)
        (place_due market o t.last_price) (rests market o) (place_due-IsBookRun o t.last_price)
        (rests-IsBookRun o) e
