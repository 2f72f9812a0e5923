-- ===== src/Matcher/Tests.antt =====
-- A long of two is opened at the market, and its stop loss and take profit are matched.
use velotradex.Base.{
  String, ◌≡◌, refl, Option, none, some, Outcome, ok, throws, List, length, keep, ◌++◌,
}
use velotradex.Dict.{get, put, values}
use velotradex.Number.Int.{pos}
use velotradex.Number.Whole.{Whole, whole, whole_number, Whole-IsOrdered, Whole-HasSigns}
use velotradex.Text.{normalize_symbol_case}
use velotradex.Matcher.{
  VirtualOrder, buy, sell, market, limit, entry, sl, tp, opened, cancelled, Matcher, FillEvent,
  open_for, new, register_order, fill_at_once, enroll, ensure_subscribed, contains, fill_order,
  fill_found, settle, fill_entry, fill_reduce, entry_fill, reduced, calc_pnl, emit_fill,
  handle_tick, tick_order, should_fill_limit, should_trigger_protection, cancel_order, cancel_found,
  get_order, list_open_orders, get_position, start, stop,
}
use velotradex.Matcher.Progress.{IsKept}
use velotradex.Matcher.Lifecycle.{
  IsConsistent, Session, Reach, here, next, unstopped, stopped, with_events, registered, ticked,
  new-IsConsistent, Reach-IsConsistent, Session-IsConsistent, Session-IsKept,
}
use velotradex.Matcher.Reduce.{OnlyReduces, fill_order-OnlyReduces}
use velotradex.Matcher.Fills.{IsSame, IsClosed}
use velotradex.Matcher.Ticks.{triggers, FoundNothing, handle_tick-fills, handle_tick-leaves}

matcher : Unit {0}
unfolding get put values normalize_symbol_case new register_order fill_at_once enroll
    ensure_subscribed contains fill_order fill_found settle fill_entry fill_reduce entry_fill
    reduced calc_pnl emit_fill handle_tick tick_order should_fill_limit should_trigger_protection
    cancel_order cancel_found get_order list_open_orders start stop whole
matcher = tt

abbrev long : VirtualOrder
long = record {
  id = "o1";
  symbol = " xau_usdt";
  side = buy;
  type = market;
  role = entry;
  price = none;
  amount = "2";
  parent_id = none;
  status = cancelled;
}

abbrev stop_loss : VirtualOrder
stop_loss = record {
  id = "o1-sl";
  symbol = "XAU_USDT";
  side = sell;
  type = limit;
  role = sl;
  price = some "2880";
  amount = "5";
  parent_id = some "o1";
  status = opened;
}

abbrev take_profit : VirtualOrder
take_profit = record stop_loss { id = "o1-tp"; role = tp; price = some "2950"; amount = "1" }

abbrev latest : String → Option String
latest symbol = some "2900"

abbrev empty : Matcher Whole
empty = new (λ symbol. some (pos 100))

abbrev or_empty : Outcome (Matcher Whole) → Matcher Whole
or_empty (ok m) = m
or_empty (throws s) = empty

abbrev m1 : Matcher Whole
m1 = or_empty (register_order latest long empty)

abbrev m2 : Matcher Whole
m2 = or_empty (register_order latest take_profit (or_empty (register_order latest stop_loss m1)))

abbrev m3 : Matcher Whole
m3 = handle_tick "XAU_USDT" "2960" m2

positions :
    ((get_position "xau_usdt" m1).size ≡ some (pos 2))
    × ((get_position "xau_usdt" m3).size ≡ some (pos 1))
    × ((get_position "XAU_USDT" (handle_tick "XAU_USDT" "2870" m2)).size ≡ some (pos 0))
unfolding matcher
positions = (refl, refl, refl)

session : Session empty m2
unfolding matcher
session =
    next (next (next here (registered latest long refl)) (registered latest stop_loss refl))
      (registered latest take_profit refl)

-- An id is registered once.
twice : register_order latest long m1 ≡ throws "duplicate order id"
unfolding matcher
twice = refl

m2-IsConsistent : IsConsistent m2
m2-IsConsistent = Session-IsConsistent (new-IsConsistent (λ symbol. some (pos 100))) session

-- The engine after the tick is stopped, and the order is registered and filled a second time.
abbrev again : Matcher Whole
again = or_empty (register_order latest long (stop m3))

second_session : Reach empty m3.events again
unfolding matcher
second_session =
    stopped (unstopped (next session (ticked "XAU_USDT" "2960")))
      (next here (registered latest long refl))

Reach-IsConsistent_example :
    (since : List (FillEvent Whole)) × (again.events ≡ m3.events ++ since)
    × IsConsistent (with_events since again)
Reach-IsConsistent_example =
    Reach-IsConsistent (new-IsConsistent (λ symbol. some (pos 100))) second_session

told_again : (length m3.events ≡ 2) × (length again.events ≡ 3)
unfolding matcher
told_again = (refl, refl)

Session-IsKept_example : IsKept "o1-tp" take_profit m3 × (get "o1-tp" (stop m3).orders ≡ none)
unfolding matcher
Session-IsKept_example =
    Session-IsKept "o1-tp" take_profit {m = m2} m2.events m2-IsConsistent refl
      (next here (ticked "XAU_USDT" "2960"))

fill_order-OnlyReduces_example :
    OnlyReduces Whole-IsOrdered Whole-HasSigns stop_loss m2
      (fill_order "o1-sl" (some (pos 2870)) "2870" m2)
unfolding matcher
fill_order-OnlyReduces_example =
    fill_order-OnlyReduces Whole-IsOrdered Whole-HasSigns "o1-sl" (some (pos 2870)) "2870" stop_loss
      m2 refl refl refl refl

handle_tick-fills_example :
    IsClosed "o1-sl" stop_loss
      (FoundNothing
        (some (pos 2870))
        "2870"
        stop_loss
        m2
        (keep (open_for "XAU_USDT") (values m2.orders)))
      (handle_tick "XAU_USDT" "2870" m2)
unfolding matcher triggers
handle_tick-fills_example =
    handle_tick-fills "XAU_USDT" "2870" "o1-sl" stop_loss m2 m2.events m2-IsConsistent refl refl
      refl refl

handle_tick-leaves_example : IsSame "o1-tp" take_profit (handle_tick "XAU_USDT" "2870" m2)
unfolding matcher triggers
handle_tick-leaves_example =
    handle_tick-leaves "XAU_USDT" "2870" "o1-tp" take_profit m2 m2.events m2-IsConsistent refl refl
