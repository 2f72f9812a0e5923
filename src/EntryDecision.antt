-- ===== src/EntryDecision.antt =====
-- services/EntryDecision.ts: with which price an entry is decided, and whether it becomes a market
-- order; and services/exchanges/gateOrderFillMath.ts, the filled quantity of an order event, whose
-- signed fields are read by `Number`. `null`, a missing field and the empty text are told apart only
-- as the source does.
pub mod Slippage
pub mod Tests
use velotradex.Base.{
  String, Bool, true, false, not, ◌&&◌, ◌||◌, Option, none, some, str_eq, if◌then◌else◌,
}
use velotradex.Number.{Number, int, le, positive, min_number, max_number}

pub data Side : Type 0 where
  buy : Side
  sell : Side

pub data PriceSource : Type 0 where
  snapshot : PriceSource
  live : PriceSource

pub record DecisionPrice (N : Type 0) : Type 0 where
  pub price : N
  pub source : PriceSource

pub record MarketEntryCheck (N : Type 0) : Type 0 where
  pub side : Side
  pub current_price : N
  pub entry_price : N
  pub tolerance : N

module _ {N : Type 0} ⦃num : Number N⦄ where
  open num use {is_finite, sub, abs, eq, of_text}

  unfoldable pub select_entry_decision_price : N → Option N → DecisionPrice N
  select_entry_decision_price live_price none = record { price = live_price; source = live }
  select_entry_decision_price live_price (some price) =
      if is_finite price && positive price
      then record { price = price; source = snapshot }
      else record { price = live_price; source = live }

  -- `Math.max(0, tolerance || 0)`
  abbrev pub usable_tolerance : N → N
  usable_tolerance t = max_number (int 0) (if not (eq t t) || eq t (int 0) then int 0 else t)

  abbrev pub at_or_through : Side → N → N → Bool
  at_or_through buy current entry = le current entry
  at_or_through sell current entry = le entry current

  -- how much worse than the entry the current price is
  abbrev pub slippage : Side → N → N → N
  slippage buy current entry = sub current entry
  slippage sell current entry = sub entry current

  unfoldable pub is_market_entry_price : MarketEntryCheck N → Bool
  is_market_entry_price input =
      if not (is_finite input.current_price) || not (is_finite input.entry_price)
      then false
      else at_or_through input.side input.current_price input.entry_price
        || le (slippage input.side input.current_price input.entry_price)
            (usable_tolerance input.tolerance)

  abbrev filled_of : N → N → N
  filled_of size left =
      if not (is_finite left)
      then size
      else max_number (int 0) (min_number size (sub size (abs left)))

  abbrev filled_with : N → Option String → N
  filled_with size none = size
  filled_with size (some left) = if str_eq left "" then size else filled_of size (of_text left)

  unfoldable pub compute_gate_filled_qty : String → Option String → N
  compute_gate_filled_qty size left =
      let raw = of_text size in if not (is_finite raw) then int 0 else filled_with (abs raw) left
