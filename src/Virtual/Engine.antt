-- ===== src/Virtual/Engine.antt =====
-- services/exchanges/virtual/VirtualMatchingEngine.ts: when an order is filled and what a fill
-- makes of the position. The random id of a trade is left out.
use velotradex.Base.{
  String, Bool, false, not, ◌&&◌, ◌||◌, Option, none, some, str_eq, if◌then◌else◌, Outcome, ok,
  throws, ◌>>◌, require,
}
use velotradex.Number.{Number, int, le, not_positive, min_number}
use velotradex.Virtual.{
  VirtualOrder, VirtualPosition, OrderRole, tp, sl, Store, Fill, or_zero, record_fill, get_position,
  cancel_invalid_reduce_only_order,
}

-- What a fill makes of a position
pub record Next (N : Type 0) : Type 0 where
  pub size : N
  pub entry_price : N
  pub realized_pnl : N
  pub filled_amount : N

-- What `fillOrder` asks of the store
pub data Decision (N : Type 0) : Type 0 where
  cancels : Decision N
  writes : Fill N → Decision N

pub record FillResult (N : Type 0) : Type 0 where
  pub realized_pnl : N
  pub is_filled : Bool

-- `text || other`, of a text that may be null
abbrev pub or_else : Option String → Option String → Option String
or_else none other = other
or_else (some s) other = if str_eq s "" then other else some s

abbrev opposite_of_sell : String → String
opposite_of_sell side = if str_eq side "sell" then "buy" else "sell"

abbrev parent_of : Option String → String → String
parent_of none side = opposite_of_sell side
parent_of (some s) side = if str_eq s "" then opposite_of_sell side else s

abbrev pub is_buy : String → Bool
is_buy side = str_eq side "buy"

abbrev pub is_sell : String → Bool
is_sell side = str_eq side "sell"

module _ {N : Type 0} ⦃num : Number N⦄ where
  open num use {lt, eq, abs, sign, neg, add, sub, mul, div, of_text, to_text, to_fixed, is_finite}

  -- `Number(price)`, and `Number(null)` is 0
  abbrev pub of_nullable : Option String → N
  of_nullable none = int 0
  of_nullable (some s) = of_text s

  unfoldable pub should_fill_limit : VirtualOrder → N → Bool
  should_fill_limit o last =
      let price = of_nullable o.price in
      if not_positive price
      then false
      else if is_buy o.side
      then le last price
      else if is_sell o.side
      then le price last
      else false

  abbrev triggered : OrderRole → Bool → N → N → Bool
  triggered sl long trigger last = if long then le last trigger else le trigger last
  triggered tp long trigger last = if long then le trigger last else le last trigger
  triggered _ long trigger last = false

  unfoldable pub should_trigger_protection : VirtualOrder → N → Bool
  should_trigger_protection o last =
      let trigger = of_nullable (or_else o.trigger_price o.price) in
      not (not_positive trigger)
      && triggered o.order_role (is_buy (parent_of o.parent_side o.side)) trigger last

  unfoldable pub calculate_realized_pnl : N → N → N → N → N → N
  calculate_realized_pnl size entry price closing multiplier =
      if lt (int 0) size
      then mul (mul (sub price entry) closing) multiplier
      else if lt size (int 0)
      then mul (mul (sub entry price) closing) multiplier
      else int 0

  unfoldable pub normalize_number : N → String
  normalize_number value = to_text (of_text (to_fixed value (int 12)))

  -- Whether an order points the way of the position, or there is none.
  abbrev pub same_direction : N → N → Bool
  same_direction size signed = eq (sign size) (sign signed)

  -- `fillOrder` of an order that may open
  unfoldable pub plain_next : N → N → N → N → N → N → Next N
  plain_next size entry signed amount price multiplier =
      let total = add (abs size) amount in
      let next = add size signed in
      let closing = min_number (abs size) amount in
      if eq size (int 0) || same_direction size signed
      then record {
        size = next;
        entry_price =
            if lt (int 0) total
            then div (add (mul (abs size) entry) (mul amount price)) total
            else int 0;
        realized_pnl = int 0;
        filled_amount = amount;
      }
      else record {
        size = next;
        entry_price =
            if eq next (int 0) then int 0 else if eq (sign next) (sign size) then entry else price;
        realized_pnl = calculate_realized_pnl size entry price closing multiplier;
        filled_amount = amount;
      }

  -- `fillOrder` of an order that may only close; `none` is its cancellation
  unfoldable pub reduced_next : N → N → N → N → N → N → Option (Next N)
  reduced_next size entry signed amount price multiplier =
      let closing = min_number (abs size) amount in
      let next = mul (sign size) (sub (abs size) closing) in
      if eq size (int 0) || same_direction size signed
      then none
      else some (record {
        size = next;
        entry_price = if eq next (int 0) then int 0 else entry;
        realized_pnl = calculate_realized_pnl size entry price closing multiplier;
        filled_amount = closing;
      })

  abbrev pub entry_of : Option VirtualPosition → N
  entry_of none = of_text "0"
  entry_of (some p) = of_text (or_zero p.entry_price)

  abbrev pub current_size : Option VirtualPosition → N
  current_size none = of_text "0"
  current_size (some p) = of_text (or_zero p.size)

  unfoldable pub next_of : VirtualOrder → N → N → Option VirtualPosition → Option (Next N)
  next_of o price multiplier position =
      let amount = of_text o.amount in
      let signed = if is_buy o.side then amount else neg amount in
      if o.reduce_only
      then reduced_next (current_size position) (entry_of position) signed amount price multiplier
      else some
          (plain_next (current_size position) (entry_of position) signed amount price multiplier)

  -- The payload of `recordFill`
  abbrev pub fill_of : VirtualOrder → N → Next N → Fill N
  fill_of o price next = record {
    symbol = o.symbol;
    position = record {
      size = normalize_number next.size;
      entry_price = normalize_number next.entry_price;
      mark_price = normalize_number price;
    };
    fill_price = normalize_number price;
    filled_amount = normalize_number next.filled_amount;
    trade = record {
      virtual_order_id = o.virtual_order_id;
      symbol = o.symbol;
      side = o.side;
      price = normalize_number price;
      amount = normalize_number next.filled_amount;
      role = if str_eq o.type "limit" then "maker" else "taker";
      realized_pnl = normalize_number next.realized_pnl;
      text = or_else o.text none;
    };
    realized_pnl = next.realized_pnl;
  }

  abbrev pub decision_of : VirtualOrder → N → Option (Next N) → Decision N
  decision_of o price none = cancels
  decision_of o price (some next) = writes (fill_of o price next)

  -- What `fillOrder` refuses
  unfoldable pub check_fill :
      VirtualOrder → String → N → Option VirtualPosition → Outcome (Unit {0})
  check_fill o fill_price multiplier position = do
    require (is_buy o.side || is_sell o.side) "Invalid order side"
    require (not (not_positive (of_text o.amount))) "Invalid order amount"
    require (not (not_positive (of_text fill_price))) "Invalid fill price"
    require (not (not_positive multiplier)) "Invalid contract multiplier"
    require (is_finite (current_size position)) "Invalid current position size"
    require (is_finite (entry_of position)) "Invalid current entry price"

  -- `fillOrder` between the reading of the position and the writing
  unfoldable pub decide : VirtualOrder → String → N → Option VirtualPosition → Outcome (Decision N)
  decide o fill_price multiplier position = do
    check_fill o fill_price multiplier position
    ok (decision_of o (of_text fill_price) (next_of o (of_text fill_price) multiplier position))

  abbrev pub reply : N → Bool × Store → Outcome (FillResult N) × Store
  reply pnl (b, s) = (ok (record { realized_pnl = pnl; is_filled = b }), s)

  -- The writing of `fillOrder`; a transaction that finds the order no longer open writes nothing.
  unfoldable pub carry_out :
      VirtualOrder → Outcome (Decision N) → Store → Outcome (FillResult N) × Store
  carry_out o (throws e) s = (throws e, s)
  carry_out o (ok cancels) s = (
    ok (record { realized_pnl = int 0; is_filled = false }),
    (cancel_invalid_reduce_only_order o.virtual_order_id s).1,
  )
  carry_out o (ok (writes fill)) s = reply fill.realized_pnl (record_fill fill s)

  module _ (multiplier_by_symbol : String → N) where
    unfoldable pub fill_order : VirtualOrder → String → Store → Outcome (FillResult N) × Store
    fill_order o fill_price s =
        carry_out o (decide o fill_price (multiplier_by_symbol o.symbol) (get_position o.symbol s))
          s
