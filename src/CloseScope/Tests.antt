-- ===== src/CloseScope/Tests.antt =====
-- A closing signal that names an order which is not active, and one of a route.
use velotradex.Base.{ℕ, ◌≡◌, refl, ◌≢◌, String, Bool, false, Option, none, some, List, [], ◌∷◌, All}
use velotradex.CloseScope.{
  Order, ScopeParams, given, or_else, by_text, by_id, widened, or_closed, or_latest, is_active,
  is_recently_closed, all_active, recent_closed, by_parser, try_wider_scope, try_closed_orders,
  by_signal, resolve,
}
use velotradex.CloseScope.Within.{IsTarget, resolve-IsTarget, resolve-some}

scope : Unit {0}
unfolding or_else by_text by_id widened or_closed or_latest is_active is_recently_closed all_active
    recent_closed by_parser try_wider_scope try_closed_orders by_signal resolve
scope = tt

abbrev parse_int : String → Option ℕ
parse_int text = none

abbrev uses_parser : String → ℕ → Bool
uses_parser name s = false

abbrev order_7 : Order
order_7 = record {
  id = 7;
  strategy_id = some 3;
  route_id = some 2;
  source = some "gold";
  exchange_order_id = some "x7";
  exchange_instance_id = "gate-1";
  symbol = "XAU_USDT";
  side = "buy";
  lifecycle_status = "OPEN";
  backtest_run_id = none;
  created_at = 1000;
  closed_at = none;
}

abbrev table : List Order
table =
    order_7
    ∷ record order_7 { id = 8; route_id = some 5; exchange_order_id = some "x8"; created_at = 2000 }
    ∷ record order_7 { id = 9; lifecycle_status = "CLOSED"; closed_at = some 2500 }
    ∷ []

abbrev by_route : ScopeParams
by_route = record {
  parsed = record {
    symbol = "XAU_USDT";
    order_id = none;
    route_id = some 2;
    source = none;
    parser_name = none;
    parser = none;
  };
  strategy_id = none;
  exchange_instance_id = some "gate-1";
  target_position_side = some "buy";
}

abbrev by_unknown_id : ScopeParams
by_unknown_id = record by_route {
  parsed = record by_route.parsed { order_id = some "x1"; route_id = none };
}

by_route_found : (resolve parse_int uses_parser 3000 table by_route).scope_order_ids ≡ 7 ∷ []
unfolding scope
by_route_found = refl

by_unknown_id_latest :
    (resolve parse_int uses_parser 3000 table by_unknown_id).scope_order_ids ≡ 8 ∷ []
unfolding scope
by_unknown_id_latest = refl

resolve-IsTarget_example :
    All (IsTarget 3000 by_route) (resolve parse_int uses_parser 3000 table by_route).scoped_orders
resolve-IsTarget_example = resolve-IsTarget parse_int uses_parser 3000 table by_route

some_active : all_active parse_int uses_parser 3000 table by_unknown_id ≢ []
unfolding scope
some_active = λ e. cc

resolve-some_example :
    ((resolve parse_int uses_parser 3000 table by_unknown_id).scoped_orders ≢ [])
    × ((side : String)
        → given by_unknown_id.target_position_side ≡ some side
        → (resolve parse_int uses_parser 3000 table by_unknown_id).expected_position_side ≡ side)
resolve-some_example = resolve-some parse_int uses_parser 3000 table by_unknown_id some_active
