-- ===== src/CloseScope/Within.antt =====
-- Which orders a closing signal can touch.
use velotradex.Base.{
  ℕ, suc, zero, ◌+◌, ◌*◌, ◌≤◌, String, ◌≡◌, ◌≢◌, refl, ◌⊎◌, inl, inr, Bool, true, false, not,
  Option, none, some, List, [], ◌∷◌, arith, ltb, eq_iff, All, All-map, All-keep, All-keep_test,
  both_true, keep, none_of_is_some, Bool-cases, some-injective, leb→le, ◌∙◌,
}
use velotradex.CloseScope.{
  Order, ScopeParams, given, matches_given, sort_by, insert_by, take, or_else, by_text, by_id,
  is_active, is_recently_closed, closed_since, all_active, recent_closed, try_wider_scope,
  try_closed_orders, by_signal, by_parser, equals_text, equals_id, widened, or_closed, or_latest,
  resolve, Found,
}

-- An order that a closing signal may be about: an open one of the given side, or one that was closed
-- in the last thirty minutes, of the signal's symbol and the given exchange, and not of a backtest.
pub record IsTarget (now : ℕ) (params : ScopeParams) (o : Order) : Type 0 where
  pub symbol : o.symbol ≡ params.parsed.symbol
  pub live : o.backtest_run_id ≡ none
  pub exchange :
      (e : String) → given params.exchange_instance_id ≡ some e → o.exchange_instance_id ≡ e
  pub state :
      (((o.lifecycle_status ≡ "OPEN") ⊎ (o.lifecycle_status ≡ "PROTECTED"))
        × ((s : String) → given params.target_position_side ≡ some s → o.side ≡ s))
      ⊎ ((o.lifecycle_status ≡ "CLOSED")
          × ((t : ℕ) × (o.closed_at ≡ some t) × (now ≤ t + 30 * 60 * 1000)))

module _ (P : Order → Type 0) where
  All-insert_by :
      (time : Order → ℕ) (o : Order) (os : List Order)
      → P o
      → All P os
      → All P (insert_by time o os)
  All-insert_by time o [] p h = (p, tt)
  All-insert_by time o (q ∷ qs) p (a, h) = elim (Bool-cases (ltb (time o) (time q))) [
    | inl e ↦ rw e (a, All-insert_by time o qs p h)
    | inr e ↦ rw e (p, (a, h))
  ]

  All-sort_by : (time : Order → ℕ) (os : List Order) → All P os → All P (sort_by time os)
  All-sort_by time [] h = tt
  All-sort_by time (o ∷ os) (a, h) =
      All-insert_by time o (sort_by time os) a (All-sort_by time os h)

  All-take : (n : ℕ) (os : List Order) → All P os → All P (take n os)
  All-take zero os h = tt
  All-take (suc n) [] h = tt
  All-take (suc n) (o ∷ os) (a, h) = (a, All-take n os h)

  -- All orders of a list, as a record.
  record Every (os : List Order) : Type 0 where
    pub all : All P os

  Every-or_else : (os ps : List Order) → Every os → Every ps → Every (or_else os ps)
  unfolding or_else
  Every-or_else [] ps h k = k
  Every-or_else (o ∷ os) ps h k = h

  Every-by_text :
      (field : Order → Option String) (s : Option String) (os : List Order)
      → Every os
      → Every (by_text field s os)
  unfolding by_text
  Every-by_text field none os h = record { all = tt }
  Every-by_text field (some s) os h = record {
    all = All-keep P (λ o. equals_text s (field o)) os h.all;
  }

  Every-by_id :
      (field : Order → Option ℕ) (n : Option ℕ) (os : List Order)
      → Every os
      → Every (by_id field n os)
  unfolding by_id
  Every-by_id field none os h = record { all = tt }
  Every-by_id field (some n) os h = record {
    all = All-keep P (λ o. equals_id n (field o)) os h.all;
  }

  Every-widened : (os ps : List Order) → Every os → Every ps → Every (widened os ps).0
  unfolding widened
  Every-widened (o ∷ os) ps h k = h
  Every-widened [] [] h k = k
  Every-widened [] (p ∷ ps) h k = k

  Every-or_closed : (f : Found) (ps : List Order) → Every f.0 → Every ps → Every (or_closed f ps).0
  unfolding or_closed
  Every-or_closed (o ∷ os, mode) ps h k = h
  Every-or_closed ([], mode) [] h k = k
  Every-or_closed ([], mode) (p ∷ ps) h k = k

  Every-or_latest : (f : Found) (ps : List Order) → Every f.0 → Every ps → Every (or_latest f ps).0
  unfolding or_latest
  Every-or_latest (o ∷ os, mode) ps h k = h
  Every-or_latest ([], mode) [] h k = k
  Every-or_latest ([], mode) (p ∷ ps) h k = record { all = (k.all.0, tt) }

matches_given-eq :
    (s : Option String) (column e : String)
    → matches_given s column ≡ true
    → s ≡ some e
    → column ≡ e
matches_given-eq none column e h q = cc
matches_given-eq (some s) column e h q = (eq_iff column s).0 h ∙ some-injective q

closed_since-time :
    (now : ℕ) (closed : Option ℕ)
    → closed_since now closed ≡ true
    → (t : ℕ) × (closed ≡ some t) × (now ≤ t + 30 * 60 * 1000)
closed_since-time now none h = cc
closed_since-time now (some t) h = (t, refl, leb→le now (t + 30 * 60 * 1000) h)

false_of_not : (b : Bool) → not b ≡ true → b ≡ false
false_of_not b h = ground arith

module _ (parse_int : String → Option ℕ) (uses_parser : String → ℕ → Bool) (now : ℕ)
    (table : List Order) (params : ScopeParams) where
  abbrev Target : Order → Type 0
  Target o = IsTarget now params o

  is_active-IsTarget :
      (o : Order) → is_active parse_int uses_parser now table params o ≡ true → Target o
  unfolding is_active
  is_active-IsTarget o h =
      let (h1, exchange) = both_true _ _ h in
      let (h2, side) = both_true _ _ h1 in
      let (h3, live) = both_true _ _ h2 in
      let (symbol, status) = both_true _ _ h3 in
      record {
        symbol = (eq_iff o.symbol params.parsed.symbol).0 symbol;
        live = none_of_is_some o.backtest_run_id (false_of_not _ live);
        exchange = λ e q. matches_given-eq _ o.exchange_instance_id e exchange q;
        state = inl (
          ground (
            arith,
            eq_iff o.lifecycle_status "OPEN",
            eq_iff o.lifecycle_status "PROTECTED",
            status,
          ),
          λ s q. matches_given-eq _ o.side s side q,
        );
      }

  is_recently_closed-IsTarget :
      (o : Order) → is_recently_closed parse_int uses_parser now table params o ≡ true → Target o
  unfolding is_recently_closed
  is_recently_closed-IsTarget o h =
      let (h1, exchange) = both_true _ _ h in
      let (h2, recent) = both_true _ _ h1 in
      let (h3, live) = both_true _ _ h2 in
      let (symbol, status) = both_true _ _ h3 in
      record {
        symbol = (eq_iff o.symbol params.parsed.symbol).0 symbol;
        live = none_of_is_some o.backtest_run_id (false_of_not _ live);
        exchange = λ e q. matches_given-eq _ o.exchange_instance_id e exchange q;
        state = inr (
          (eq_iff o.lifecycle_status "CLOSED").0 status,
          closed_since-time now o.closed_at recent,
        );
      }

  active-Every : Every Target (all_active parse_int uses_parser now table params)
  unfolding all_active
  active-Every =
      let p = is_active parse_int uses_parser now table params in
      record {
        all =
            All-sort_by Target _ (keep p table)
              (All-map (keep p table) is_active-IsTarget (All-keep_test p table));
      }

  closed-Every : Every Target (recent_closed parse_int uses_parser now table params)
  unfolding recent_closed
  closed-Every =
      let p = is_recently_closed parse_int uses_parser now table params in
      record {
        all = All-take Target 20 _ (
            All-sort_by Target _ (keep p table)
              (All-map (keep p table) is_recently_closed-IsTarget (All-keep_test p table)));
      }

  Every-try_wider_scope :
      (os : List Order)
      → Every Target os
      → Every Target (try_wider_scope parse_int uses_parser now table params os)
  unfolding try_wider_scope
  Every-try_wider_scope os h =
      Every-or_else Target _ _ (Every-by_id Target _ _ os h)
        (Every-or_else Target _ _ (Every-by_text Target _ _ os h) (Every-by_text Target _ _ os h))

  Every-by_parser :
      (name : Option String) (os : List Order)
      → Every Target os
      → Every Target (by_parser parse_int uses_parser now table name os)
  unfolding by_parser
  Every-by_parser none os h = record { all = tt }
  Every-by_parser (some name) os h = record { all = All-keep Target _ os h.all }

  Every-try_closed_orders : Every Target (try_closed_orders parse_int uses_parser now table params)
  unfolding try_closed_orders
  Every-try_closed_orders =
      let h = closed-Every in
      Every-or_else Target _ _ (Every-by_text Target _ _ _ h) (
        Every-or_else Target _ _ (Every-by_id Target _ _ _ h)
          (Every-or_else Target _ _ (Every-by_parser _ _ h) (Every-by_id Target _ _ _ h)))

  Every-by_signal :
      (os : List Order) (text : Option String) (s r : Option ℕ) (source name : Option String)
      → Every Target os
      → Every Target (by_signal parse_int uses_parser now table params os text s r source name).0
  unfolding by_signal
  Every-by_signal os (some text) _ _ _ _ h = record { all = All-keep Target _ os h.all }
  Every-by_signal os none (some s) _ _ _ h =
      Every-widened Target _ _ (Every-by_id Target _ _ os h) (Every-try_wider_scope os h)
  Every-by_signal os none none (some r) _ _ h = Every-by_id Target _ _ os h
  Every-by_signal os none none none (some source) _ h = Every-by_text Target _ _ os h
  Every-by_signal os none none none none (some name) h = Every-by_parser _ os h
  Every-by_signal os none none none none none h = record { all = tt }

  -- Whatever a closing signal gives, each order that it is resolved to is of the signal's symbol and
  -- the given exchange and not of a backtest, and is either open or protected and of the given side,
  -- or was closed in the last thirty minutes.
  pub resolve-IsTarget :
      All (IsTarget now params) (resolve parse_int uses_parser now table params).scoped_orders
  unfolding resolve
  resolve-IsTarget =
      (Every-or_latest Target _ _
        (Every-or_closed Target _ _ (Every-by_signal _ _ _ _ _ _ active-Every)
          Every-try_closed_orders)
        active-Every).all

  or_latest-some : (f : Found) (o : Order) (os : List Order) → (or_latest f (o ∷ os)).0 ≢ []
  unfolding or_latest
  or_latest-some (p ∷ ps, mode) o os = λ e. cc
  or_latest-some ([], mode) o os = λ e. cc

  not_empty : (f : Found) (os : List Order) → os ≢ [] → (or_latest f os).0 ≢ []
  not_empty f [] any = let no : ⊥ = any refl in elim no [ ]
  not_empty f (o ∷ os) any = or_latest-some f o os

  -- While the query for active orders finds any, a closing signal is resolved to at least one order,
  -- whatever it gives; if it names a side, this is the expected side of the position.
  pub resolve-some :
      all_active parse_int uses_parser now table params ≢ []
      → let scope = resolve parse_int uses_parser now table params in
        (scope.scoped_orders ≢ [])
        × ((side : String)
            → given params.target_position_side ≡ some side
            → scope.expected_position_side ≡ side)
  unfolding resolve
  resolve-some any =
      (not_empty _ (all_active parse_int uses_parser now table params) any, λ side e. rw e refl)
