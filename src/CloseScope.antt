-- ===== src/CloseScope.antt =====
-- services/CloseScopeResolver.ts: the orders that a closing signal is about. The order table and the
-- strategies of the parsers are parameters, as is `parseInt` on the text of an order id; a query
-- filters the table and sorts it with the newest first. A missing field is `none`, and 0 and the
-- empty text count as missing where the source tests a field's truth. Logging is not modelled.
pub mod Within
pub mod Tests
use velotradex.Base.{
  ℕ, suc, zero, ◌+◌, ◌*◌, String, Bool, true, false, not, ◌&&◌, ◌||◌, Option, none, some, List, [],
  ◌∷◌, str_eq, if◌then◌else◌, ltb, leb, ◌==◌, keep, is_some, map,
}

pub record Order : Type 0 where
  pub id : ℕ
  pub strategy_id : Option ℕ
  pub route_id : Option ℕ
  pub source : Option String
  pub exchange_order_id : Option String
  pub exchange_instance_id : String
  pub symbol : String
  pub side : String
  pub lifecycle_status : String
  pub backtest_run_id : Option ℕ
  pub created_at : ℕ
  pub closed_at : Option ℕ

-- The fields of `parsed`, with those of `parsed.raw`, that the code reads.
pub record Signal : Type 0 where
  pub symbol : String
  pub order_id : Option String
  pub route_id : Option ℕ
  pub source : Option String
  pub parser_name : Option String
  pub parser : Option String

pub record ScopeParams : Type 0 where
  pub parsed : Signal
  pub strategy_id : Option ℕ
  pub exchange_instance_id : Option String
  pub target_position_side : Option String

-- the values of `scopeMode`
pub data ScopeMode : Type 0 where
  fallback_latest_order : ScopeMode
  order_id : ScopeMode
  strategy_id : ScopeMode
  strategy_id_widened : ScopeMode
  route_id : ScopeMode
  source : ScopeMode
  parser : ScopeMode
  strategy_id_widened_closed : ScopeMode
  recently_closed : ScopeMode

pub record CloseScope : Type 0 where
  pub scoped_orders : List Order
  pub scope_order_ids : List ℕ
  pub scope_strategy_ids : List ℕ
  pub expected_position_side : String
  pub scope_mode : ScopeMode

-- A field that the source tests for truth, or else `none`.
abbrev pub given : Option String → Option String
given none = none
given (some s) = if str_eq s "" then none else some s

abbrev pub given_id : Option ℕ → Option ℕ
given_id none = none
given_id (some n) = if n == 0 then none else some n

abbrev pub equals_text : String → Option String → Bool
equals_text s none = false
equals_text s (some t) = str_eq t s

abbrev pub equals_id : ℕ → Option ℕ → Bool
equals_id n none = false
equals_id n (some k) = k == n

-- A condition of a query that is there only if the parameter is given.
abbrev pub matches_given : Option String → String → Bool
matches_given none column = true
matches_given (some s) column = str_eq column s

-- Newest first, by a column with a time.
abbrev pub insert_by : (Order → ℕ) → Order → List Order → List Order
insert_by time o [] = o ∷ []
insert_by time o (p ∷ ps) =
    let rest = insert_by time o ps in if ltb (time o) (time p) then p ∷ rest else o ∷ p ∷ ps

abbrev pub sort_by : (Order → ℕ) → List Order → List Order
sort_by time [] = []
sort_by time (o ∷ os) = insert_by time o (sort_by time os)

abbrev closing_time : Order → ℕ
closing_time o = elim o.closed_at [ none ↦ 0 | some t ↦ t ]

abbrev pub take : ℕ → List Order → List Order
take zero os = []
take (suc n) [] = []
take (suc n) (o ∷ os) = o ∷ take n os

-- `Array.from(new Set(ids))`, by the ids that came before
abbrev is_in : ℕ → List ℕ → Bool
is_in n [] = false
is_in n (k ∷ ks) = (k == n) || is_in n ks

abbrev distinct : List ℕ → List ℕ → List ℕ
distinct seen [] = []
distinct seen (n ∷ ns) =
    let rest = distinct (n ∷ seen) ns in if is_in n seen then rest else n ∷ rest

abbrev ids_of : List (Option ℕ) → List ℕ
ids_of [] = []
ids_of (none ∷ os) = ids_of os
ids_of (some n ∷ os) = n ∷ ids_of os

-- The first list, or the second if the first is empty.
unfoldable pub or_else : List Order → List Order → List Order
or_else [] os = os
or_else (o ∷ os) _ = o ∷ os

abbrev pub parser_of : Signal → Option String
parser_of parsed = elim (given parsed.parser_name) [ some p ↦ some p | none ↦ given parsed.parser ]

-- The orders with a field, or none if the signal does not give it.
unfoldable pub by_text : (Order → Option String) → Option String → List Order → List Order
by_text field none os = []
by_text field (some s) os = keep (λ o. equals_text s (field o)) os

unfoldable pub by_id : (Order → Option ℕ) → Option ℕ → List Order → List Order
by_id field none os = []
by_id field (some n) os = keep (λ o. equals_id n (field o)) os

abbrev thirty_minutes : ℕ
thirty_minutes = 30 * 60 * 1000

abbrev pub closed_since : ℕ → Option ℕ → Bool
closed_since now none = false
closed_since now (some t) = leb now (t + thirty_minutes)

abbrev pub Found : Type 0
Found = List Order × ScopeMode

unfoldable pub widened : List Order → List Order → Found
widened (o ∷ os) wider = (o ∷ os, ScopeMode.strategy_id)
widened [] [] = ([], ScopeMode.strategy_id)
widened [] (o ∷ os) = (o ∷ os, strategy_id_widened)

abbrev closed_mode : ScopeMode → ScopeMode
closed_mode strategy_id_widened = strategy_id_widened_closed
closed_mode _ = recently_closed

unfoldable pub or_closed : Found → List Order → Found
or_closed (o ∷ os, mode) _ = (o ∷ os, mode)
or_closed ([], mode) [] = ([], mode)
or_closed ([], mode) (o ∷ os) = (o ∷ os, closed_mode mode)

unfoldable pub or_latest : Found → List Order → Found
or_latest (o ∷ os, mode) _ = (o ∷ os, mode)
or_latest ([], mode) [] = ([], mode)
or_latest ([], mode) (o ∷ os) = (o ∷ [], mode)

module _ (parse_int : String → Option ℕ) (uses_parser : String → ℕ → Bool) (now : ℕ)
    (table : List Order) where
  unfoldable pub is_active : ScopeParams → Order → Bool
  is_active params o =
      str_eq o.symbol params.parsed.symbol
      && (str_eq o.lifecycle_status "OPEN" || str_eq o.lifecycle_status "PROTECTED")
      && not (is_some o.backtest_run_id)
      && matches_given (given params.target_position_side) o.side
      && matches_given (given params.exchange_instance_id) o.exchange_instance_id

  unfoldable pub is_recently_closed : ScopeParams → Order → Bool
  is_recently_closed params o =
      str_eq o.symbol params.parsed.symbol
      && str_eq o.lifecycle_status "CLOSED"
      && not (is_some o.backtest_run_id)
      && closed_since now o.closed_at
      && matches_given (given params.exchange_instance_id) o.exchange_instance_id

  unfoldable pub all_active : ScopeParams → List Order
  all_active params = sort_by (λ o. o.created_at) (keep (is_active params) table)

  unfoldable pub recent_closed : ScopeParams → List Order
  recent_closed params = take 20 (sort_by closing_time (keep (is_recently_closed params) table))

  abbrev made_by : String → Option ℕ → Bool
  made_by name none = false
  made_by name (some s) = uses_parser name s

  unfoldable pub by_parser : Option String → List Order → List Order
  by_parser none os = []
  by_parser (some name) os = keep (λ o. made_by name o.strategy_id) os

  unfoldable pub try_wider_scope : ScopeParams → List Order → List Order
  try_wider_scope params active =
      or_else (by_id (λ o. o.route_id) (given_id params.parsed.route_id) active) (
        or_else (by_text (λ o. o.source) (given params.parsed.source) active)
          (by_text (λ o. some o.exchange_instance_id) (given params.exchange_instance_id) active))

  unfoldable pub try_closed_orders : ScopeParams → List Order
  try_closed_orders params =
      let closed = recent_closed params in
      or_else (by_text (λ o. o.source) (given params.parsed.source) closed) (
        or_else (by_id (λ o. o.route_id) (given_id params.parsed.route_id) closed) (
          or_else (by_parser (parser_of params.parsed) closed)
            (by_id (λ o. o.strategy_id) (given_id params.strategy_id) closed)))

  abbrev pub has_id : String → Order → Bool
  has_id text o = equals_text text o.exchange_order_id || equals_id o.id (parse_int text)

  -- the chain of conditions on what the signal gives
  unfoldable pub by_signal :
      ScopeParams
      → List Order
      → Option String
      → Option ℕ
      → Option ℕ
      → Option String
      → Option String
      → Found
  by_signal params active (some text) _ _ _ _ = (keep (has_id text) active, ScopeMode.order_id)
  by_signal params active none (some s) _ _ _ =
      widened (by_id (λ o. o.strategy_id) (some s) active) (try_wider_scope params active)
  by_signal params active none none (some r) _ _ =
      (by_id (λ o. o.route_id) (some r) active, ScopeMode.route_id)
  by_signal params active none none none (some s) _ =
      (by_text (λ o. o.source) (some s) active, ScopeMode.source)
  by_signal params active none none none none (some name) =
      (by_parser (some name) active, ScopeMode.parser)
  by_signal params active none none none none none = ([], fallback_latest_order)

  abbrev side_of : List Order → String
  side_of [] = "buy"
  side_of (o ∷ os) = if str_eq o.side "" then "buy" else o.side

  abbrev or_side : Option String → String → String
  or_side none side = side
  or_side (some s) _ = s

  unfoldable pub resolve : ScopeParams → CloseScope
  resolve params =
      let active = all_active params in
      let parsed = params.parsed in
      let found =
        by_signal params active (given parsed.order_id) (given_id params.strategy_id)
          (given_id parsed.route_id) (given parsed.source) (parser_of parsed) in
      let scoped = or_latest (or_closed found (try_closed_orders params)) active in
      record {
        scoped_orders = scoped.0;
        scope_order_ids = map (λ o. o.id) scoped.0;
        scope_strategy_ids = distinct [] (ids_of (map (λ o. o.strategy_id) scoped.0));
        expected_position_side = or_side (given params.target_position_side) (side_of scoped.0);
        scope_mode = scoped.1;
      }
