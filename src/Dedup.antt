-- ===== src/Dedup.antt =====
-- services/StrategyDeduplicationService.ts (`check`), the second line of defence: a signal is not
-- executed when an active order of the same route was opened from the same parameters. The order
-- table is a list, searched from its front, and holds the columns that the query reads; `null`
-- columns are `none`. An empty parameter stands for a missing one, as in the source. The audit log
-- is not modelled.
pub mod Laws
pub mod Tests
use velotradex.Base.{
  ℕ, String, Bool, true, false, ◌&&◌, ◌||◌, Option, none, some, List, str_eq, if◌then◌else◌, ◌==◌,
  find,
}

pub record StrategyDedupParams : Type 0 where
  pub symbol : String
  pub side : String
  pub entry_price : String
  pub targets : String
  pub stop_loss : String
  pub exchange_instance_id : String
  pub route_id : ℕ
  pub order_type : Option String

pub record StrategyDedupResult : Type 0 where
  pub is_duplicate : Bool
  pub duplicate_order_id : Option ℕ
  pub duplicate_strategy_id : Option ℕ

-- The columns of an order that the query reads.
pub record Order : Type 0 where
  pub id : ℕ
  pub strategy_id : Option ℕ
  pub exchange_instance_id : String
  pub route_id : ℕ
  pub symbol : String
  pub side : String
  pub type : String
  pub price : Option String
  pub initial_tp : Option String
  pub initial_sl : Option String
  pub lifecycle_status : String

-- `{ [Op.or]: [null, ''] }` for an empty parameter, or else the parameter itself
abbrev pub matches_column : String → Option String → Bool
matches_column param none = str_eq param ""
matches_column param (some v) = str_eq v param

abbrev pub is_active : String → Bool
is_active status = str_eq status "OPEN" || str_eq status "PROTECTED"

-- A missing or empty order type is not compared.
abbrev pub matches_type : Option String → String → Bool
matches_type none type = true
matches_type (some t) type = if str_eq t "" then true else str_eq type t

abbrev pub where_clause : StrategyDedupParams → Order → Bool
where_clause params o =
    str_eq o.exchange_instance_id params.exchange_instance_id
    && (o.route_id == params.route_id)
    && str_eq o.symbol params.symbol
    && str_eq o.side params.side
    && matches_column params.entry_price o.price
    && matches_column params.targets o.initial_tp
    && matches_column params.stop_loss o.initial_sl
    && is_active o.lifecycle_status
    && matches_type params.order_type o.type

abbrev result_of : Option Order → StrategyDedupResult
result_of none = record {
  is_duplicate = false;
  duplicate_order_id = none;
  duplicate_strategy_id = none;
}
result_of (some o) = record {
  is_duplicate = true;
  duplicate_order_id = some o.id;
  duplicate_strategy_id = o.strategy_id;
}

unfoldable pub check : StrategyDedupParams → List Order → StrategyDedupResult
check params orders = result_of (find (where_clause params) orders)
