-- ===== src/CfdSession/Tests.antt =====
-- A session of an hour, in seconds.
use velotradex.Base.{◌≡◌, refl, true, false, ◌↔◌, none, some}
use velotradex.Number.Int.{pos}
use velotradex.Number.Whole.{Whole, whole, whole_number, Whole-IsOrdered}
use velotradex.Text.{trim, trim_start, trim_end, cons_trimmed, to_upper_case, upper_char}
use velotradex.CfdSession.{
  CfdTickerLike, decided_by_status, to_epoch_ms, is_within, is_session_open, check_can_trade,
}
use velotradex.CfdSession.Windows.{IsOpen, is_session_open_iff}

session : Unit {0}
unfolding decided_by_status to_epoch_ms is_within is_session_open check_can_trade trim trim_start
    trim_end cons_trimmed to_upper_case upper_char whole
session = tt

abbrev hour : CfdTickerLike Whole
hour = record {
  status = none;
  open_time = some (some (pos 1700000000));
  close_time = some (some (pos 1700003600));
}

opens :
    (is_session_open hour (some (pos 1700000000000)) ≡ true)
    × (is_session_open hour (some (pos 1700003600000)) ≡ false)
    × (check_can_trade (record hour { status = some " paused" }) (some (pos 1700000000000)) ≡ false)
unfolding session
opens = (refl, refl, refl)

-- A session over midnight
abbrev night : CfdTickerLike Whole
night = record hour { open_time = hour.close_time; close_time = hour.open_time }

open_all_night :
    (is_session_open night (some (pos 1700003600000)) ≡ true)
    × (is_session_open night (some (pos 1700000000000)) ≡ false)
unfolding session
open_all_night = (refl, refl)

is_session_open_iff_example :
    (is_session_open night (some (pos 1700003700000)) ≡ true)
    ↔ IsOpen night (some (pos 1700003700000))
unfolding session
is_session_open_iff_example =
    is_session_open_iff Whole-IsOrdered night (some (pos 1700003700000)) refl refl
