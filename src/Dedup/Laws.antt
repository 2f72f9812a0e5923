-- ===== src/Dedup/Laws.antt =====
-- Which signals count as duplicates.
use velotradex.Base.{
  String, ◌≡◌, refl, ◌↔◌, ◌⊎◌, inl, inr, true, false, Option, none, some, List, arith, eq_iff,
  ==_iff, find, find-none_Memᴰ, find-some, Memᴰ, Option-cases, ap, both_true, some-injective,
}
use velotradex.Dedup.{
  StrategyDedupParams, Order, where_clause, matches_column, matches_type, is_active, check,
}

-- A column agrees with a parameter: both are empty or missing, or both are the same text.
abbrev pub Agrees : String → Option String → Type 0
Agrees param column = ((param ≡ "") × (column ≡ none)) ⊎ (column ≡ some param)

-- An order type that is given and not empty is the order's.
abbrev pub HasType : Option String → String → Type 0
HasType wanted type = (wanted ≡ none) ⊎ (wanted ≡ some "") ⊎ (wanted ≡ some type)

-- An active order that was opened from the same parameters.
pub record IsSameSignal (params : StrategyDedupParams) (o : Order) : Type 0 where
  pub instance_id : o.exchange_instance_id ≡ params.exchange_instance_id
  pub route : o.route_id ≡ params.route_id
  pub symbol : o.symbol ≡ params.symbol
  pub side : o.side ≡ params.side
  pub price : Agrees params.entry_price o.price
  pub targets : Agrees params.targets o.initial_tp
  pub stop_loss : Agrees params.stop_loss o.initial_sl
  pub active : (o.lifecycle_status ≡ "OPEN") ⊎ (o.lifecycle_status ≡ "PROTECTED")
  pub order_type : HasType params.order_type o.type

matches_column_iff :
    (param : String) (column : Option String)
    → (matches_column param column ≡ true) ↔ Agrees param column
matches_column_iff param none =
    (λ h. inl ((eq_iff param "").0 h, refl), ground (arith, eq_iff param ""))
matches_column_iff param (some v) = (
  λ h. inr (ap some ((eq_iff v param).0 h)),
  λ a. elim a [ inl (e, n) ↦ cc | inr e ↦ (eq_iff v param).1 (some-injective e) ],
)

matches_type_iff :
    (wanted : Option String) (type : String)
    → (matches_type wanted type ≡ true) ↔ HasType wanted type
matches_type_iff none type = (λ h. inl refl, λ h. refl)
matches_type_iff (some t) type = ground (arith, eq_iff t "", eq_iff type t)

is_active_iff :
    (status : String) → (is_active status ≡ true) ↔ ((status ≡ "OPEN") ⊎ (status ≡ "PROTECTED"))
is_active_iff status = ground (arith, eq_iff status "OPEN", eq_iff status "PROTECTED")

where_clause_iff :
    (params : StrategyDedupParams) (o : Order)
    → (where_clause params o ≡ true) ↔ IsSameSignal params o
where_clause_iff params o = (
  λ h.
      let (h0, type) = both_true _ _ h in
      let (h1, active) = both_true _ _ h0 in
      let (h2, stop) = both_true _ _ h1 in
      let (h3, tps) = both_true _ _ h2 in
      let (h4, price) = both_true _ _ h3 in
      let (h5, side) = both_true _ _ h4 in
      let (h6, symbol) = both_true _ _ h5 in
      let (inst, route) = both_true _ _ h6 in
      record {
        instance_id = (eq_iff o.exchange_instance_id params.exchange_instance_id).0 inst;
        route = (==_iff o.route_id params.route_id).0 route;
        symbol = (eq_iff o.symbol params.symbol).0 symbol;
        side = (eq_iff o.side params.side).0 side;
        price = (matches_column_iff params.entry_price o.price).0 price;
        targets = (matches_column_iff params.targets o.initial_tp).0 tps;
        stop_loss = (matches_column_iff params.stop_loss o.initial_sl).0 stop;
        active = (is_active_iff o.lifecycle_status).0 active;
        order_type = (matches_type_iff params.order_type o.type).0 type;
      },
  λ same.
      rw
        (
          (eq_iff o.exchange_instance_id params.exchange_instance_id).1 same.instance_id,
          (==_iff o.route_id params.route_id).1 same.route,
          (eq_iff o.symbol params.symbol).1 same.symbol,
          (eq_iff o.side params.side).1 same.side,
          (matches_column_iff params.entry_price o.price).1 same.price,
          (matches_column_iff params.targets o.initial_tp).1 same.targets,
          (matches_column_iff params.stop_loss o.initial_sl).1 same.stop_loss,
          (is_active_iff o.lifecycle_status).1 same.active,
        )
        ((matches_type_iff params.order_type o.type).1 same.order_type),
)

-- A signal is reported as a duplicate of an order of the table that is active and was opened from
-- the same parameters; it is reported as new only if the table has no such order.
pub check_iff :
    (params : StrategyDedupParams) (orders : List Order)
    → (((check params orders).is_duplicate ≡ true)
        × ((o : Order) × Memᴰ o orders
            × IsSameSignal params o
            × ((check params orders).duplicate_order_id ≡ some o.id)
            × ((check params orders).duplicate_strategy_id ≡ o.strategy_id)))
      ⊎ (((check params orders).is_duplicate ≡ false)
          × ((o : Order) → Memᴰ o orders → ¬ IsSameSignal params o))
unfolding check
check_iff params orders = elim (Option-cases (find (where_clause params) orders)) [
  | inr (o, e) ↦
      let (accepted, m) = find-some (where_clause params) orders e in
      rw e (inl (refl, (o, m, (where_clause_iff params o).0 accepted, refl, refl)))
  | inl e ↦ rw e (
      inr (
        refl,
        λ o m same.
            cc ((where_clause_iff params o).1 same, find-none_Memᴰ (where_clause params) e m),
      ))
]
