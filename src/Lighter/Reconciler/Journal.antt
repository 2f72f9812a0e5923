-- ===== src/Lighter/Reconciler/Journal.antt =====
-- services/exchanges/lighter/LighterStateReconciler.ts over the table of models/LighterTxJournal.ts: how
-- transactions that were sent are settled, at the start and by events. The look-up of a transaction is
-- a parameter; `none` of it is a client without look-ups. Errors of the database are left out, and the
-- rows of one exchange instance are a list.
use velotradex.Base.{
  zero, suc, String, Bool, true, false, not, ◌&&◌, ◌||◌, Option, none, some, List, [], ◌∷◌, keep,
  length, str_eq, ◌==◌, if◌then◌else◌, Outcome, ok, throws,
}
use velotradex.Dict.{get}
use velotradex.Number.{Number, int, le}
use velotradex.Number.Int.{ℤ, pos, negsuc}
use velotradex.Text.{to_lower_case}
use velotradex.Lighter.Reconciler.{
  Event, Value, first_string, first_field, number_of, is_truthy, string_of, or_else,
  is_terminal_status,
}

pub data TxStatus : Type 0 where
  created signed sent accepted confirmed rejected unknown : TxStatus

pub record TxRow : Type 0 where
  pub tx_info_hash : Option String
  pub nonce : Option String
  pub client_order_index : Option String
  pub status : TxStatus
  pub error : Option String

-- What an event says of a transaction
pub data Verdict : Type 0 where
  confirms refuses : Verdict

abbrev pub status_of : Verdict → TxStatus
status_of confirms = confirmed
status_of refuses = rejected

-- The statuses that the queries ask for
abbrev pub is_pending : TxStatus → Bool
is_pending unknown = true
is_pending sent = true
is_pending accepted = true
is_pending _ = false

abbrev pub is_settled : TxStatus → Bool
is_settled rejected = true
is_settled confirmed = true
is_settled _ = false

abbrev is_one_of : List String → String → Bool
is_one_of [] s = false
is_one_of (t ∷ ts) s = str_eq t s || is_one_of ts s

abbrev confirming : List String
confirming = "confirmed" ∷ "success" ∷ "succeeded" ∷ "executed" ∷ "complete" ∷ "completed" ∷ []

abbrev refusing : List String
refusing = "rejected" ∷ "failed" ∷ "failure" ∷ "cancelled" ∷ "canceled" ∷ []

-- `unresolvedCount--`
abbrev pub decremented : ℤ → ℤ
decremented (pos (suc n)) = pos n
decremented (pos zero) = negsuc 0
decremented (negsuc n) = negsuc (suc n)

-- `unresolvedCount === 0`
abbrev pub is_zero : ℤ → Bool
is_zero (pos n) = n == 0
is_zero (negsuc n) = false

-- A text that is there and not empty
abbrev pub is_given : Option String → Bool
is_given none = false
is_given (some s) = not (str_eq s "")

-- `none` for a look-up that is not an object
abbrev pub Lookup : Type 0 → Type 0
Lookup N = String → Bool → Outcome (Option (Event N))

module _ {N : Type 0} ⦃num : Number N⦄ where
  open num use {lt, eq, is_finite}

  -- By the executed_at timestamp
  abbrev by_execution : Event N → Option Verdict
  by_execution e =
      let at = get "executed_at" e in
      if is_truthy at && lt (int 0) (number_of at) then some confirms else none

  -- By the code of the interface
  abbrev by_code : Event N → Option Verdict
  by_code e =
      let status = number_of (get "status" e) in
      let code = number_of (get "code" e) in
      let applies = is_finite code && not (eq code status) in
      if applies && eq code (int 200)
      then some confirms
      else if applies && (lt code (int 0) || le (int 3) code)
      then some refuses
      else by_execution e

  -- By the number of the status
  abbrev by_number : Event N → Option Verdict
  by_number e =
      let status = number_of (get "status" e) in
      if is_finite status && le (int 1) status
      then some confirms
      else if is_finite status && lt status (int 0)
      then some refuses
      else by_code e

  unfoldable pub normalize_tx_status : Event N → Option Verdict
  normalize_tx_status e =
      let raw = to_lower_case (first_string ("status" ∷ "tx_status" ∷ "txStatus" ∷ []) e) in
      if is_one_of confirming raw
      then some confirms
      else if is_one_of refusing raw
      then some refuses
      else by_number e

  abbrev text_or : String → Option (Value N) → String
  text_or s none = s
  text_or s (some v) = string_of v

  -- What the second loop makes of a row and of the count, by the answer to the look-up
  abbrev pub settled_by : Event N → Verdict → TxRow → ℤ → TxRow × ℤ
  settled_by e confirms row count =
      (record row { status = confirmed; error = none }, decremented count)
  settled_by e refuses row count = (
    record row {
      status = rejected;
      error = some (text_or "tx rejected" (first_field ("error" ∷ "message" ∷ "reason" ∷ []) e));
    },
    decremented count,
  )

  abbrev pub judged_by : Event N → TxRow → ℤ → Option Verdict → TxRow × ℤ
  judged_by e row count none = (row, count)
  judged_by e row count (some v) = settled_by e v row count

  abbrev pub looked_up : TxRow → ℤ → Outcome (Option (Event N)) → TxRow × ℤ
  looked_up row count (throws t) = (row, count)
  looked_up row count (ok none) = (row, count)
  looked_up row count (ok (some e)) = judged_by e row count (normalize_tx_status e)

  abbrev pub identified : Lookup N → TxRow → ℤ → Option String → TxRow × ℤ
  identified lookup row count none = (row, count)
  identified lookup row count (some identifier) =
      if str_eq identifier ""
      then (row, count)
      else looked_up row count (lookup identifier (is_given row.tx_info_hash))

  -- One row of the second loop of `reconcileStartup`
  unfoldable pub settle_remote : Lookup N → TxRow → ℤ → TxRow × ℤ
  settle_remote lookup row count =
      if is_settled row.status
      then (row, count)
      else identified lookup row count (or_else row.tx_info_hash row.nonce)

abbrev is_unknown : TxStatus → Bool
is_unknown unknown = true
is_unknown _ = false

unfoldable pub is_unsigned_local_failure : TxRow → Bool
is_unsigned_local_failure row =
    is_unknown row.status && not (is_given row.tx_info_hash) && is_given row.error

-- One row of the first loop
unfoldable pub settle_local : TxRow → ℤ → TxRow × ℤ
settle_local row count =
    if is_unsigned_local_failure row
    then (record row { status = rejected }, decremented count)
    else (row, count)

pub record Report : Type 0 where
  pub safe_to_trade : Bool
  pub unknown_tx_count : ℤ

-- The rows after a loop, and the count
abbrev pub Pass : Type 0
Pass = List TxRow × ℤ

-- A loop of `reconcileStartup` over the rows
unfoldable pub pass : (TxRow → ℤ → TxRow × ℤ) → List TxRow → ℤ → Pass
pass f [] count = ([], count)
pass f (row ∷ rows) count =
    let first = f row count in let rest = pass f rows first.1 in (first.0 ∷ rest.0, rest.1)

module _ {N : Type 0} ⦃num : Number N⦄ where
  abbrev pub second_pass : Option (Lookup N) → Pass → Pass
  second_pass none p = p
  second_pass (some lookup) (rows, count) = pass (settle_remote lookup) rows count

  -- The rows that the query found, as they are afterwards, and the report
  unfoldable pub reconcile_startup : Option (Lookup N) → List TxRow → List TxRow × Report
  reconcile_startup lookup table =
      let rows = keep (λ row. is_pending row.status) table in
      let after = second_pass lookup (pass settle_local rows (pos (length rows))) in
      (after.0, record { safe_to_trade = is_zero after.1; unknown_tx_count = after.1 })

-- The first row that a query finds is changed and saved.
unfoldable pub update_first : (TxRow → Bool) → (TxRow → TxRow) → List TxRow → List TxRow
update_first test f [] = []
update_first test f (row ∷ rows) =
    let rest = update_first test f rows in if test row then f row ∷ rows else row ∷ rest

abbrev is_text : String → Option String → Bool
is_text s none = false
is_text s (some t) = str_eq s t

abbrev pub order_verdict : String → String → TxRow → TxRow
order_verdict key status row =
    if str_eq status "REJECTED"
    then record row { status = rejected; error = some "order rejected" }
    else record row { status = confirmed; error = none }

unfoldable pub finalize_from_order_event : String → String → List TxRow → List TxRow
finalize_from_order_event key status table =
    if is_terminal_status status
    then update_first (λ row. is_pending row.status && is_text key row.client_order_index)
        (order_verdict key status) table
    else table

abbrev or_default : String → String
or_default s = if str_eq s "" then "tx rejected" else s

-- A field that the event names is asked for.
abbrev pub names_row : String → String → TxRow → Bool
names_row nonce key row =
    is_pending row.status
    && (str_eq nonce "" || is_text nonce row.nonce)
    && (str_eq key "" || is_text key row.client_order_index)

module _ {N : Type 0} ⦃num : Number N⦄ where
  abbrev pub tx_verdict : Event N → Verdict → TxRow → TxRow
  tx_verdict e confirms row = record row { status = confirmed; error = none }
  tx_verdict e refuses row = record row {
    status = rejected;
    error = some (or_default (first_string ("error" ∷ "message" ∷ "reason" ∷ []) e));
  }

  abbrev pub judged : Event N → String → String → Option Verdict → List TxRow → List TxRow
  judged e nonce key none table = table
  judged e nonce key (some v) table = update_first (names_row nonce key) (tx_verdict e v) table

  unfoldable pub finalize_from_tx_event : Event N → List TxRow → List TxRow
  finalize_from_tx_event e table =
      let nonce = first_string ("nonce" ∷ "tx_nonce" ∷ "txNonce" ∷ []) e in
      let key = first_string ("client_order_index" ∷ "clientOrderIndex" ∷ []) e in
      if str_eq nonce "" && str_eq key ""
      then table
      else judged e nonce key (normalize_tx_status e) table
