-- ===== src/Lighter/Reconciler/Tests.antt =====
-- Two waiters of one order, and a journal with a failure to sign and a transaction that was sent.
use velotradex.Base.{◌+◌, ◌≡◌, refl, ◌↔◌, true, none, some, List, [], ◌∷◌, keep, All, ok, throws}
use velotradex.Dict.{get, put, delete}
use velotradex.Number.Int.{pos}
use velotradex.Number.Whole.{Whole, whole, whole_number}
use velotradex.Text.{to_upper_case, to_lower_case, starts_with}
use velotradex.Lighter.Reconciler.{
  Event, Reconciler, text, first_field, first_string, normalize_client_order_index,
  is_terminal_status, normalize_order_status, reject_existing_waiter, wait_for_fill, timer_fires,
  timer_answers, resolve_terminal_waiter, handle_order_event,
}
use velotradex.Lighter.Reconciler.Journal.{
  TxRow, sent, unknown, created, is_pending, is_settled, Lookup, normalize_tx_status, settle_remote,
  is_unsigned_local_failure, settle_local, pass, reconcile_startup, update_first,
  finalize_from_order_event, finalize_from_tx_event,
}
use velotradex.Lighter.Reconciler.Waiters.{
  Happening, waits, fires, answers, arrives, waiting, looking, settled_times, places, happen,
  happen_all, asked, happen_all-places,
}
use velotradex.Lighter.Reconciler.Startup.{
  Evolves, unsettled, reconcile_startup-IsSafe, finalize-Evolves,
}

reconciler : Unit {0}
unfolding get put delete to_upper_case to_lower_case starts_with first_field first_string
    normalize_client_order_index is_terminal_status normalize_order_status reject_existing_waiter
    wait_for_fill timer_fires timer_answers resolve_terminal_waiter handle_order_event
    normalize_tx_status settle_remote is_unsigned_local_failure settle_local pass reconcile_startup
    update_first finalize_from_order_event finalize_from_tx_event waiting looking settled_times
    happen happen_all asked whole
reconciler = tt

abbrev empty : Reconciler
empty = record { fill_waiters = []; expired = []; settled = []; orders = [] }

abbrev filled_event : Event Whole
filled_event =
    ("client_order_index", text "7") ∷ ("status", text "filled") ∷ ("price", text "100") ∷ []

-- The second waiter takes the first one's place; the event settles the second, and the first one's
-- timer comes too late.
abbrev session : List (Happening Whole)
session =
    waits "7" "BTC" 1
    ∷ waits "7" "BTC" 2
    ∷ arrives filled_event
    ∷ fires "7" 1
    ∷ waits "8" "ETH" 3
    ∷ fires "8" 3
    ∷ answers 3 (throws "down")
    ∷ []

settled_once :
    (settled_times 1 (happen_all session empty).settled ≡ 1)
    × (settled_times 2 (happen_all session empty).settled ≡ 1)
    × (settled_times 3 (happen_all session empty).settled ≡ 1)
unfolding reconciler
settled_once = (refl, refl, refl)

happen_all-places_example : places 2 (happen_all session empty) ≡ places 2 empty + asked 2 session
unfolding reconciler
happen_all-places_example = happen_all-places 2 session empty tt

abbrev row : TxRow
row = record {
  tx_info_hash = some "h1";
  nonce = some "4";
  client_order_index = some "7";
  status = sent;
  error = none;
}

abbrev table : List TxRow
table =
    row
    ∷ record row { tx_info_hash = some ""; status = unknown; error = some "no key" }
    ∷ record row { status = created }
    ∷ []

abbrev executed : Lookup Whole
executed identifier is_hash = ok (some (("status", text "executed") ∷ []))

reconcile_startup-IsSafe_example :
    let (after, report) = reconcile_startup (some executed) table in
    Evolves (keep (λ r. is_pending r.status) table) after
    × (report.unknown_tx_count ≡ pos (unsettled after))
    × ((report.safe_to_trade ≡ true) ↔ All (λ r. is_settled r.status ≡ true) after)
unfolding reconciler
reconcile_startup-IsSafe_example = reconcile_startup-IsSafe (some executed) table

safe_now : (reconcile_startup (some executed) table).1.safe_to_trade ≡ true
unfolding reconciler
safe_now = refl

finalize-Evolves_example :
    Evolves table (finalize_from_order_event "7" "REJECTED" table)
    × Evolves table (finalize_from_tx_event filled_event table)
unfolding reconciler
finalize-Evolves_example = finalize-Evolves filled_event "7" "REJECTED" table
