-- ===== src/Virtual/Tests.antt =====
-- A long of two is opened on a simulated exchange, protected by a stop loss, and stopped.
use velotradex.Base.{
  ap, arith, eq_iff, str_eq, String, ◌≡◌, refl, true, false, none, some, List, [], ◌∷◌, ok, inl,
}
use velotradex.Dict.{get, put, delete, values}
use velotradex.Number.Int.{pos}
use velotradex.Number.Whole.{Whole, whole, whole_number, Whole-IsOrdered, Whole-HasSigns}
use velotradex.Text.{normalize_symbol_case, includes, starts_with}
use velotradex.Virtual.{
  VirtualOrder, Store, Fill, entry, tp, opened, filled, cancelled, update_order, get_position,
  upsert_position, create_order, mark_order_filled, cancel_invalid_reduce_only_order,
  find_open_orders, create_trade, add_realized_pnl, record_fill, cancel_stale_reduce_only_orders,
}
use velotradex.Virtual.Engine.{
  Next, should_fill_limit, should_trigger_protection, calculate_realized_pnl, normalize_number,
  plain_next, reduced_next, next_of, check_fill, decide, carry_out, fill_order, fill_of,
}
use velotradex.Virtual.Exchange.{
  Exchange, Market, OrderParams, update_row, with_status, is_regular_open_order, is_price_order,
  to_order_result, find_order,
}
use velotradex.Virtual.Orders.{
  is_fresh_tick, assert_fresh_tick, subscribe_symbol, resolve_fill_listener, emit_protection_fill,
}
use velotradex.Virtual.Handlers.{
  cancel_order, cancel_price_order, amend_order, wait_for_order_fill, remove_waiter, timed_out,
  get_or_create_account, held_symbols, start, stop,
}
use velotradex.Virtual.Placement.{
  place_order, close_position, tick_orders, process_tick, place_market,
}
use velotradex.Virtual.StopLoss.{
  get_stop_loss_amount, cancel_existing_stop_loss_orders, update_stop_loss,
}
use velotradex.Virtual.Book.{count, IsBalanced, BookPath}
use velotradex.Virtual.Refines.{view, IsKeyed}
use velotradex.Virtual.Ledger.{
  Call, starts, places, updates_stop_loss, closes, ticks, waits, perform, perform_all,
  perform_all-IsPath, perform_all-IsBalanced, perform_all-IsFinal,
}
use velotradex.Virtual.Reduce.{IsClosing, decide-IsClosing}
use velotradex.Virtual.Races.{
  overtaken, fill_order-IsOvertaken, record_fill-IsCancelled, place_market-IsCancelled,
}

exchange : Unit {0}
unfolding get put delete values normalize_symbol_case includes starts_with update_order get_position
    upsert_position create_order mark_order_filled cancel_invalid_reduce_only_order find_open_orders
    create_trade add_realized_pnl record_fill cancel_stale_reduce_only_orders should_fill_limit
    should_trigger_protection calculate_realized_pnl normalize_number plain_next reduced_next
    next_of check_fill decide carry_out fill_order update_row is_regular_open_order is_price_order
    to_order_result find_order is_fresh_tick assert_fresh_tick subscribe_symbol
    resolve_fill_listener emit_protection_fill cancel_order cancel_price_order amend_order
    wait_for_order_fill remove_waiter timed_out get_or_create_account held_symbols start stop
    place_order close_position tick_orders process_tick get_stop_loss_amount
    cancel_existing_stop_loss_orders update_stop_loss perform perform_all whole
exchange = tt

abbrev empty : Exchange Whole
empty = record {
  store = record { orders = []; positions = []; trades = []; account = none; protections = [] };
  fill_waiters = [];
  settled = [];
  subscriptions = [];
  reports = [];
  mark_prices = [];
  stopped = false;
}

abbrev market : Market Whole
market = record {
  multiplier_by_symbol = λ symbol. some (pos 1);
  latest_tick = λ symbol. some (record { last_price = "100"; received_at = 5 });
  now = 7;
  max_tick_age = 10;
}

abbrev params : OrderParams
params = record {
  symbol = "BTC_USDT";
  side = "buy";
  type = none;
  amount = "2";
  price = none;
  reduce_only = false;
  trigger_price = none;
  text = none;
  stop_loss = none;
  take_profit = none;
  tp_orders_json = none;
}

abbrev opening : List (Call Whole)
opening = starts "1000" ∷ places market (λ row. true) "o1" params ∷ []

abbrev session : List (Call Whole)
session =
    starts "1000"
    ∷ places market (λ row. true) "o1" params
    ∷ updates_stop_loss "o2" "BTC_USDT" "buy" "90" "sl-trigger" none
    ∷ waits "o2" "BTC_USDT" 4
    ∷ ticks market "BTC_USDT" "80"
    ∷ closes market "o3" "BTC_USDT" none none
    ∷ []

ends :
    ((view (perform_all session empty).store).status "o2" ≡ some filled)
    × ((view (perform_all session empty).store).traded ≡ "o1" ∷ "o2" ∷ [])
    × (get_position "BTC_USDT" (perform_all session empty).store
        ≡ some (record { size = "0"; entry_price = "0"; mark_price = "90" }))
unfolding exchange
ends = (refl, refl, refl)

perform_all-IsPath_example :
    IsKeyed (perform_all session empty).store.orders
    × BookPath (view empty.store) (view (perform_all session empty).store)
unfolding exchange
perform_all-IsPath_example = perform_all-IsPath session empty (tt, λ j o h. cc h)

perform_all-IsBalanced_example : IsBalanced (view (perform_all session empty).store)
unfolding exchange count
perform_all-IsBalanced_example =
    perform_all-IsBalanced session empty (tt, λ j o h. cc h) (λ id. refl)

abbrev opened_exchange : Exchange Whole
opened_exchange = perform_all opening empty

perform_all-IsFinal_example :
    (view (perform_all session opened_exchange).store).status "o1" ≡ some filled
unfolding exchange
perform_all-IsFinal_example =
    perform_all-IsFinal session opened_exchange "o1" filled
      (perform_all-IsPath opening empty (tt, λ j o h. cc h)).0 (inl refl) refl

abbrev sale : VirtualOrder
sale = record {
  virtual_order_id = "o2";
  symbol = "BTC_USDT";
  side = "sell";
  type = "market";
  order_role = tp;
  price = none;
  amount = "5";
  filled_amount = none;
  filled_price = none;
  status = opened;
  reduce_only = true;
  trigger_price = none;
  text = none;
  parent_side = some "buy";
}

abbrev purchase : VirtualOrder
purchase = record sale {
  virtual_order_id = "o3";
  side = "buy";
  amount = "4";
  order_role = entry;
  reduce_only = false;
}

abbrev rows : Store
rows = record {
  orders = ("o2", sale) ∷ ("o3", purchase) ∷ [];
  positions = ("BTC_USDT", record { size = "3"; entry_price = "100"; mark_price = "100" }) ∷ [];
  trades = [];
  account = none;
  protections = [];
}

abbrev one : String → Whole
one symbol = some (pos 1)

abbrev fill_two : Fill Whole
fill_two = record {
  symbol = "BTC_USDT";
  position = record { size = "0"; entry_price = "0"; mark_price = "120" };
  fill_price = "120";
  filled_amount = "3";
  trade = record {
    virtual_order_id = "o2";
    symbol = "BTC_USDT";
    side = "sell";
    price = "120";
    amount = "3";
    role = "taker";
    realized_pnl = "60";
    text = none;
  };
  realized_pnl = some (pos 60);
}

decide-IsClosing_example :
    (n : Next Whole) × (fill_two ≡ fill_of sale (some (pos 120)) n)
    × IsClosing Whole-IsOrdered Whole-HasSigns sale (get_position "BTC_USDT" rows) n
unfolding exchange
decide-IsClosing_example =
    decide-IsClosing Whole-IsOrdered Whole-HasSigns sale "120" (some (pos 1))
      (get_position "BTC_USDT" rows) fill_two refl refl

-- The sale of all three closes the position, but the purchase of four that read it before leaves seven.
overtaken_position :
    get_position "BTC_USDT" (overtaken one sale purchase "120" "120" rows).1
    ≡ some (record { size = "7"; entry_price = "111"; mark_price = "120" })
unfolding exchange
overtaken_position = refl

fill_order-IsOvertaken_example :
    ((overtaken one sale purchase "120" "120" rows).0
      ≡ ok (record { realized_pnl = some (pos 0); is_filled = true }))
    × (get_position "BTC_USDT" (overtaken one sale purchase "120" "120" rows).1
        ≡ get_position "BTC_USDT" (fill_order one purchase "120" rows).1)
unfolding exchange
fill_order-IsOvertaken_example =
    fill_order-IsOvertaken one sale purchase "120" "120" rows
      (record { realized_pnl = some (pos 0); is_filled = true }) (λ e. cc (ap (str_eq "o2") e)) refl
      refl

record_fill-IsCancelled_example :
    ((view (update_row (with_status cancelled) "o2" (record_fill fill_two rows).1)).status "o2"
      ≡ some cancelled)
    × (count "o2"
          (view (update_row (with_status cancelled) "o2" (record_fill fill_two rows).1)).traded
        ≡ 1)
unfolding exchange count
record_fill-IsCancelled_example =
    record_fill-IsCancelled fill_two rows sale refl refl
      ((refl, (refl, tt)), λ j o h. ground (arith, eq_iff "o2" j, eq_iff "o3" j))
      (λ id. ground arith)

place_market-IsCancelled_example :
    ((place_market market sale (record empty { store = record rows { positions = [] } })).0
      ≡ ok (record { id = "o2"; status = filled; amount = "5"; price = some "100" }))
    × ((view
            (place_market market sale
              (record empty { store = record rows { positions = [] } })).1.store).status
          "o2"
        ≡ some cancelled)
    × ((view
          (place_market market sale
            (record empty { store = record rows { positions = [] } })).1.store).traded
        ≡ [])
unfolding exchange
place_market-IsCancelled_example =
    place_market-IsCancelled market sale (record empty { store = record rows { positions = [] } })
      (record { last_price = "100"; received_at = 5 }) refl refl refl refl refl
