-- ===== src/CfdSession.antt =====
-- services/exchanges/gate_cfd/CfdSessionGuard.ts: when a market of contracts for difference is open.
-- Times are numbers, in seconds or milliseconds since the epoch. The texts of a refusal are left out.
pub mod Windows
pub mod Tests
use velotradex.Base.{
  ℕ, String, Bool, true, false, not, ◌&&◌, ◌||◌, Option, none, some, List, [], ◌∷◌, str_eq,
  if◌then◌else◌,
}
use velotradex.Number.{Number, int, le, not_positive}
use velotradex.Text.{trim, to_upper_case}

pub record CfdTickerLike (N : Type 0) : Type 0 where
  pub status : Option String
  pub open_time : Option N
  pub close_time : Option N

abbrev closed_statuses : List String
closed_statuses = "CLOSED" ∷ "PAUSED" ∷ "HALTED" ∷ "SUSPENDED" ∷ "CLOSE" ∷ "NOT_TRADING" ∷ []

abbrev open_statuses : List String
open_statuses = "OPEN" ∷ "TRADING" ∷ "LIVE" ∷ []

abbrev is_one_of : List String → String → Bool
is_one_of [] s = false
is_one_of (t ∷ ts) s = str_eq t s || is_one_of ts s

-- `ticker.status ? String(ticker.status).trim().toUpperCase() : ''`
abbrev normal_status : Option String → String
normal_status none = ""
normal_status (some s) = if str_eq s "" then "" else to_upper_case (trim s)

-- What the status says, if it decides
unfoldable pub decided_by_status : Option String → Option Bool
decided_by_status status =
    let s = normal_status status in
    if is_one_of closed_statuses s
    then some false
    else if is_one_of open_statuses s
    then some true
    else none

abbrev pub or_window : Option Bool → Bool → Bool
or_window none window = window
or_window (some b) window = b

module _ {N : Type 0} ⦃num : Number N⦄ where
  open num use {lt, eq, mul, literal}

  -- `MS_UNIT_THRESHOLD`
  abbrev ms_unit_threshold : N
  ms_unit_threshold = literal 1000000000000 0

  unfoldable pub to_epoch_ms : Option N → N
  to_epoch_ms none = int 0
  to_epoch_ms (some value) =
      if not_positive value
      then int 0
      else if lt ms_unit_threshold value
      then value
      else mul value (int 1000)

  -- The rules 2 to 5, on times in milliseconds
  unfoldable pub is_within : N → N → N → Bool
  is_within open_ms close_ms now =
      if le open_ms (int 0) || le close_ms (int 0) || eq open_ms close_ms
      then true
      else if lt open_ms close_ms
      then le open_ms now && lt now close_ms
      else le open_ms now || lt now close_ms

  unfoldable pub is_session_open : CfdTickerLike N → N → Bool
  is_session_open ticker now =
      or_window (decided_by_status ticker.status)
        (is_within (to_epoch_ms ticker.open_time) (to_epoch_ms ticker.close_time) now)

  -- `checkCanTrade`, without the text of the reason
  unfoldable pub check_can_trade : CfdTickerLike N → N → Bool
  check_can_trade ticker now = is_session_open ticker now
