-- ===== src/Lighter/Reconciler.antt =====
-- services/exchanges/lighter/LighterStateReconciler.ts and utils/coalesceString.ts: what the events of
-- the Lighter exchange settle. An event is a JSON object of texts and numbers. The waiters of a fill
-- are named by numbers; the timer of a waiter is two steps, its firing and the answer of its look-up,
-- since other events may come between them. Logs and the values in error messages are left out, and so are positions, which are only
-- renamed. The journal of transactions is in Reconciler.Journal.
pub mod Journal
pub mod Waiters
pub mod Startup
pub mod Tests
use velotradex.Base.{
  ℕ, String, Bool, true, false, not, ◌&&◌, ◌||◌, Option, none, some, List, [], ◌∷◌, ◌++◌, str_eq,
  ◌==◌, if◌then◌else◌, Outcome, ok, throws,
}
use velotradex.Dict.{Dict, get, put, delete}
use velotradex.Number.{Number, int}
use velotradex.Text.{to_upper_case, starts_with}

pub data Value (N : Type 0) : Type 0 where
  text : String → Value N
  number : N → Value N

abbrev pub Event : Type 0 → Type 0
Event N = Dict (Value N)

pub record OrderResult : Type 0 where
  pub id : String
  pub status : String
  pub amount : String
  pub price : String

pub record FillWaiter : Type 0 where
  pub waiter : ℕ
  pub symbol : String

-- How a waiter was settled
pub data Answer : Type 0 where
  resolved : OrderResult → Answer
  refused : String → Answer

-- `expired` are the waiters whose timer fired and whose order is being looked up.
pub record Reconciler : Type 0 where
  pub fill_waiters : Dict FillWaiter
  pub expired : List (String × FillWaiter)
  pub settled : List (ℕ × Answer)
  pub orders : List OrderResult

-- `value ?? other`
abbrev pub or_else {ℓ} : {A : Type ℓ} → Option A → Option A → Option A
or_else none other = other
or_else (some v) other = some v

module _ {N : Type 0} ⦃num : Number N⦄ where
  -- `String(value)` and `Number(value)`
  abbrev pub string_of : Value N → String
  string_of (text s) = s
  string_of (number x) = num.to_text x

  abbrev pub number_of : Option (Value N) → N
  number_of none = num.nan
  number_of (some (text s)) = num.of_text s
  number_of (some (number x)) = x

  -- The conversion to a Boolean
  abbrev pub is_truthy : Option (Value N) → Bool
  is_truthy none = false
  is_truthy (some (text s)) = not (str_eq s "")
  is_truthy (some (number x)) = num.eq x x && not (num.eq x (int 0))

  abbrev text_or_empty : Option (Value N) → String
  text_or_empty none = ""
  text_or_empty (some v) = string_of v

  -- The first of the named fields that is there
  unfoldable pub first_field : List String → Event N → Option (Value N)
  first_field [] e = none
  first_field (k ∷ ks) e = or_else (get k e) (first_field ks e)

  unfoldable pub first_string : List String → Event N → String
  first_string ks e = text_or_empty (first_field ks e)

  unfoldable pub normalize_client_order_index : Event N → String
  normalize_client_order_index e = first_string ("client_order_index" ∷ "clientOrderIndex" ∷ []) e

  -- `String(event.status || '').toUpperCase()`
  abbrev pub event_status : Event N → String
  event_status e =
      let status = get "status" e in
      to_upper_case (if is_truthy status then text_or_empty status else "")

abbrev pub is_cancelled_status : String → Bool
is_cancelled_status s =
    str_eq s "CANCELLED"
    || str_eq s "CANCELED"
    || starts_with s "CANCELLED"
    || starts_with s "CANCELED"

unfoldable pub is_terminal_status : String → Bool
is_terminal_status s = str_eq s "FILLED" || is_cancelled_status s || str_eq s "REJECTED"

unfoldable pub normalize_order_status : String → String
normalize_order_status s =
    if str_eq s "FILLED"
    then "filled"
    else if is_cancelled_status s
    then "cancelled"
    else if str_eq s "REJECTED"
    then "rejected"
    else "open"

abbrev pub settle : ℕ → Answer → Reconciler → Reconciler
settle w a r = record r { settled = r.settled ++ ((w, a) ∷ []) }

-- `rejectExistingWaiter`
abbrev pub existing_refused : String → Option FillWaiter → Reconciler → Reconciler
existing_refused key none r = r
existing_refused key (some v) r =
    settle v.waiter (refused "Lighter already waiting for order fill")
      (record r { fill_waiters = delete key r.fill_waiters })

unfoldable pub reject_existing_waiter : String → Reconciler → Reconciler
reject_existing_waiter key r = existing_refused key (get key r.fill_waiters) r

unfoldable pub wait_for_fill : String → String → ℕ → Reconciler → Reconciler
wait_for_fill key symbol w r =
    let cleared = reject_existing_waiter key r in
    record cleared {
      fill_waiters = put key (record { waiter = w; symbol = symbol }) cleared.fill_waiters;
    }

abbrev pub expires : String → ℕ → Option FillWaiter → Reconciler → Reconciler
expires key w none r = r
expires key w (some v) r =
    if v.waiter == w
    then record r {
      fill_waiters = delete key r.fill_waiters;
      expired = r.expired ++ ((key, v) ∷ []);
    }
    else r

-- The timer of the waiter `w`, if it is still the one that waits
unfoldable pub timer_fires : String → ℕ → Reconciler → Reconciler
timer_fires key w r = expires key w (get key r.fill_waiters) r

abbrev pub looked_up : Outcome (Option OrderResult) → Answer
looked_up (ok (some o)) =
    if str_eq o.status "filled"
    then resolved o
    else refused "Timed out waiting for Lighter order fill"
looked_up _ = refused "Timed out waiting for Lighter order fill"

-- The look-ups end in any order; a waiter is taken out by its name.
abbrev pub with_first :
    String × FillWaiter
    → Option (FillWaiter × List (String × FillWaiter))
    → Option (FillWaiter × List (String × FillWaiter))
with_first e none = none
with_first e (some (u, us)) = some (u, e ∷ us)

abbrev pub take : ℕ → List (String × FillWaiter) → Option (FillWaiter × List (String × FillWaiter))
take w [] = none
take w ((key, v) ∷ vs) =
    let rest = take w vs in if v.waiter == w then some (v, vs) else with_first (key, v) rest

abbrev pub answered_to :
    Answer → Option (FillWaiter × List (String × FillWaiter)) → Reconciler → Reconciler
answered_to a none r = r
answered_to a (some (v, rest)) r = settle v.waiter a (record r { expired = rest })

-- The end of the look-up of a waiter whose timer fired
unfoldable pub timer_answers : ℕ → Outcome (Option OrderResult) → Reconciler → Reconciler
timer_answers w reply r = answered_to (looked_up reply) (take w r.expired) r

-- What a terminal status does to the waiter of an order; `symbol` is that of the event.
abbrev pub ending : String → OrderResult → Answer
ending status result =
    if str_eq status "FILLED" then resolved result else refused "Lighter order ended"

abbrev pub is_other_symbol : Option String → String → Bool
is_other_symbol none symbol = false
is_other_symbol (some s) symbol = not (str_eq s symbol)

abbrev pub ends_waiter :
    String → String → Option String → OrderResult → Option FillWaiter → Reconciler → Reconciler
ends_waiter key status symbol result none r = r
ends_waiter key status symbol result (some v) r =
    if is_other_symbol symbol v.symbol
    then r
    else settle v.waiter (ending status result)
        (record r { fill_waiters = delete key r.fill_waiters })

unfoldable pub resolve_terminal_waiter :
    String → String → Option String → OrderResult → Reconciler → Reconciler
resolve_terminal_waiter key status symbol result r =
    if is_terminal_status status
    then ends_waiter key status symbol result (get key r.fill_waiters) r
    else r

module _ {N : Type 0} ⦃num : Number N⦄ where
  -- `result.raw?.symbol`, when it is truthy
  abbrev pub event_symbol : Event N → Option String
  event_symbol e =
      if is_truthy (get "symbol" e) then some (first_string ("symbol" ∷ []) e) else none

  abbrev pub result_of : Event N → OrderResult
  result_of e = record {
    id = normalize_client_order_index e;
    status = normalize_order_status (event_status e);
    amount =
        first_string ("filled_base_amount" ∷ "filledBaseAmount" ∷ "base_amount" ∷ "baseAmount" ∷ [])
          e;
    price = first_string ("avg_price" ∷ "avgPrice" ∷ "price" ∷ []) e;
  }

  -- The journal is written after this, by `finalize_from_order_event`.
  unfoldable pub handle_order_event : Event N → Reconciler → Reconciler
  handle_order_event e r =
      let key = normalize_client_order_index e in
      let result = result_of e in
      let ended = resolve_terminal_waiter key (event_status e) (event_symbol e) result r in
      if str_eq key "" then r else record ended { orders = ended.orders ++ (result ∷ []) }
