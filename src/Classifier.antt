-- ===== src/Classifier.antt =====
-- services/OrderClassifier.ts and services/ProtectionCoverageChecker.ts: which orders of an exchange
-- protect a position, by their texts, flags and triggers. An order is what the clients of the exchanges
-- answer, an object whose fields may be missing; numbers among them are texts, as `parseFloat` reads
-- them. The step of a take profit in a message, which is found by regular expressions, and the
-- check for breakeven, a query, are left out.
pub mod Scope
pub mod Kinds
pub mod Tests
use velotradex.Base.{
  ℕ, foldl, String, ◌<>◌, Bool, true, false, not, ◌&&◌, ◌||◌, Option, none, some, List, [], ◌∷◌,
  str_eq, ◌==◌, if◌then◌else◌,
}
use velotradex.Number.{Number, int, le}
use velotradex.Text.{includes, to_lower_case}

pub record Initial : Type 0 where
  pub text : Option String
  pub size : Option String
  pub order_type : Option String
  pub reduce_only : Bool
  pub auto_size : Bool

-- The fields of an order, or of the exchange's own object in its `raw`. The flags say whether the
-- field is `true`, `stop_loss` whether it is truthy, and `rule` is that of the trigger.
pub record Fields : Type 0 where
  pub text : Option String
  pub initial : Option Initial
  pub reduce_only : Bool
  pub is_reduce_only : Bool
  pub reduce_only_camel : Bool
  pub size : Option String
  pub left : Option String
  pub amount : Option String
  pub side : Option String
  pub price : Option String
  pub type : Option String
  pub order_type : Option String
  pub stop_loss : Bool
  pub rule : Option ℕ

pub record Order : Type 0 where
  pub own : Fields
  pub raw : Option Fields

-- `order?.raw || order`
abbrev pub raw_of : Order → Fields
raw_of o = elim o.raw [ none ↦ o.own | some f ↦ f ]

-- `text || other` and `value ?? other`
abbrev pub text_or : Option String → String → String
text_or none other = other
text_or (some s) other = if str_eq s "" then other else s

abbrev pub value_or : Option String → String → String
value_or none other = other
value_or (some s) other = s

abbrev initial_text : Option Initial → String
initial_text none = ""
initial_text (some i) = text_or i.text ""

-- `String(order?.text || order?.initial?.text || '')`
abbrev pub full_text : Fields → String
full_text f = text_or f.text (initial_text f.initial)

abbrev pub has_token : String → String → List String → Bool
has_token text token [] = false
has_token text token (id ∷ ids) = includes text (token <> id) || has_token text token ids

-- The ids are the texts that a template makes of the numbers.
unfoldable pub is_scoped_protection_order : Fields → List String → List String → Bool
is_scoped_protection_order f order_ids strategy_ids =
    let text = full_text f in
    if str_eq text ""
    then false
    else has_token text "-ord-" order_ids || has_token text "-strategy-" strategy_ids

unfoldable pub is_reduce_only_order : Order → Bool
is_reduce_only_order o =
    let raw = raw_of o in raw.reduce_only || raw.is_reduce_only || o.own.reduce_only_camel

abbrev pub closing_side : Bool → String
closing_side true = "sell"
closing_side false = "buy"

module _ (N : Type 0) ⦃num : Number N⦄ where
  open num use {parse_float, is_finite, lt, eq}

  -- The side of an order by the sign of its size, or else by its field
  abbrev order_side : Fields → Fields → String
  order_side raw own =
      let size : N = parse_float (value_or raw.size (value_or own.amount "0")) in
      let named = to_lower_case (text_or own.side "") in
      if is_finite size && not (eq size (int 0))
      then if lt size (int 0) then "sell" else "buy"
      else if str_eq named "sell" || str_eq named "buy"
      then named
      else ""

  -- Sides are `true` for 'buy'.
  unfoldable pub is_scoped_open_order : Order → List String → List String → Bool → Bool
  is_scoped_open_order o order_ids strategy_ids expected =
      let raw = raw_of o in
      let text = text_or raw.text (text_or o.own.text (initial_text raw.initial)) in
      is_scoped_protection_order raw order_ids strategy_ids
      || is_scoped_protection_order o.own order_ids strategy_ids
      || (is_reduce_only_order o
          && includes text "t-tp-"
          && str_eq (order_side raw o.own) (closing_side expected))

  unfoldable pub is_reduce_only_tp_open_order : Order → Bool → Bool
  is_reduce_only_tp_open_order o side =
      let raw = raw_of o in
      let text = text_or raw.text (text_or o.own.text "") in
      let price : N = parse_float (text_or raw.price (text_or o.own.price "0")) in
      not (includes text "sl-" || includes text "close-" || includes text "stop")
      && is_reduce_only_order o
      && str_eq (order_side raw o.own) (closing_side side)
      && is_finite price
      && lt (int 0) price

abbrev pub is_rule : ℕ → Option ℕ → Bool
is_rule n none = false
is_rule n (some r) = r == n

abbrev pub names_stop_loss : Option String → Bool
names_stop_loss none = false
names_stop_loss (some t) = includes (to_lower_case t) "stop-loss"

-- A trigger whose rule is not that of a side, of a call without a side
abbrev closes_by_initial : Option Initial → Bool
closes_by_initial none = false
closes_by_initial (some i) =
    not (str_eq (text_or i.order_type "") "")
    && (includes (text_or i.order_type "") "close" || i.reduce_only || i.auto_size)

abbrev has_rule : Option ℕ → Bool
has_rule none = false
has_rule (some r) = not (r == 0)

abbrev pub stop_by_rule : Fields → Option Bool → Bool
stop_by_rule f (some true) = is_rule 2 f.rule
stop_by_rule f (some false) = is_rule 1 f.rule
stop_by_rule f none = has_rule f.rule && closes_by_initial f.initial

unfoldable pub is_stop_loss_order : Fields → Option Bool → Bool
is_stop_loss_order f side =
    let text = full_text f in
    if includes text "sl-"
    then true
    else if includes text "tp-" || includes text "take-profit"
    then false
    else names_stop_loss f.type || f.stop_loss || stop_by_rule f side

abbrev take_rule : Bool → ℕ
take_rule true = 1
take_rule false = 2

abbrev expected_type : Bool → String
expected_type true = "close-long-position"
expected_type false = "close-short-position"

abbrev initial_type : Option Initial → String
initial_type none = ""
initial_type (some i) = text_or i.order_type ""

abbrev initial_reduces : Option Initial → Bool
initial_reduces none = false
initial_reduces (some i) = i.reduce_only

unfoldable pub is_take_profit_trigger_order : Fields → Bool → Bool
is_take_profit_trigger_order f side =
    let text = full_text f in
    if includes text "sl-" || includes text "close-"
    then false
    else if includes text "tp-" || includes text "take-profit"
    then true
    else is_rule (take_rule side) f.rule
      && (str_eq (text_or f.order_type (initial_type f.initial)) (expected_type side)
          || initial_reduces f.initial)

abbrev initial_size : Option Initial → String
initial_size none = ""
initial_size (some i) = text_or i.size ""

module _ {N : Type 0} ⦃num : Number N⦄ where
  open num use {parse_float, is_finite, lt, abs, add, literal, infinity}

  abbrev open_amount : Order → N
  open_amount o =
      let raw = raw_of o in
      let left = parse_float (value_or raw.left "") in
      let size = parse_float (value_or raw.size (value_or o.own.amount "0")) in
      abs (if is_finite left && lt (int 0) left then left else size)

  abbrev add_open : Bool → N → Order → N
  add_open side coverage o =
      if is_reduce_only_tp_open_order N o side && is_finite (open_amount o)
      then add coverage (open_amount o)
      else coverage

  abbrev trigger_amount : Fields → N
  trigger_amount f =
      let size = initial_size f.initial in
      abs (parse_float (if str_eq size "" then text_or f.amount "0" else size))

  abbrev add_trigger : Bool → N → Order → N
  add_trigger side coverage o =
      let size = trigger_amount o.own in
      if is_take_profit_trigger_order o.own side
      then if is_finite size && lt (int 0) size then add coverage size else infinity
      else coverage

  -- The open orders and the price orders are what the exchange answers.
  unfoldable pub get_take_profit_coverage : List Order → List Order → Bool → N
  get_take_profit_coverage open_orders price_orders side =
      foldl (add_trigger side) (foldl (add_open side) (int 0) open_orders) price_orders

  abbrev epsilon : N
  epsilon = literal 1 8

  -- `!positionSize || positionSize <= 0`
  abbrev covers : N → Option N → Bool
  covers coverage none = lt epsilon coverage
  covers coverage (some size) =
      if not (num.eq size size) || le size (int 0)
      then lt epsilon coverage
      else le size (add coverage epsilon)

  unfoldable pub has_take_profit_protection : List Order → List Order → Bool → Option N → Bool
  has_take_profit_protection open_orders price_orders side size =
      let coverage = get_take_profit_coverage open_orders price_orders side in
      if is_finite coverage then covers coverage size else true
