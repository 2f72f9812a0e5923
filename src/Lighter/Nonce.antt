-- ===== src/Lighter/Nonce.antt =====
-- services/exchanges/lighter/LighterNonceManager.ts over the table of models/LighterTxJournal.ts:
-- each transaction is signed with the next nonce of the account, written down in a journal and sent.
-- A submission starts when the one before it has settled (the promise queue), so that submissions
-- are steps one after the other. What the node, the signer and the database answer during a
-- submission is a record of replies, a parameter; an error is its message. `outbox` writes down the
-- calls of `sendTx` with what the node made of them. The length of the queue is not modelled, nor are the
-- columns and fields that only copy the intent and the configuration.
pub mod Order
pub mod Journal
pub mod Tests
use velotradex.Base.{
  ℕ, suc, String, Bool, true, false, Option, none, some, List, [], ◌∷◌, str_eq, if◌then◌else◌,
  Outcome, ok, throws,
}
use velotradex.Text.{to_lower_case, includes}

pub data Status : Type 0 where
  created : Status
  signed : Status
  sent : Status
  accepted : Status
  rejected : Status
  unknown : Status

pub record JournalRecord : Type 0 where
  pub tx_id : String
  pub nonce : ℕ
  pub tx_type : ℕ
  pub tx_info_hash : String
  pub status : Status
  pub error : Option String

-- `LighterSignerOutput`
pub record SignerOutput : Type 0 where
  pub tx_type : ℕ
  pub tx_info : String
  pub tx_info_hash : String

-- `LighterSendTxResult`; `raw` is the JSON text of the answer
pub record SendTxResult : Type 0 where
  pub accepted : Bool
  pub error : Option String
  pub raw : String
  pub tx_hash : Option String

-- A transaction that was handed to the node, and whether the node accepted it.
pub record Sent : Type 0 where
  pub nonce : ℕ
  pub tx_info : String
  pub accepted : Bool

pub record SubmitResult : Type 0 where
  pub tx_id : String
  pub tx_type : ℕ
  pub tx_info_hash : String
  pub nonce : ℕ
  pub signed_tx : String
  pub raw : String
  pub tx_hash : Option String
  pub error : Option String

-- The answers to the calls of one submission, in the order of the calls; `none` at a write of the
-- journal is success. `taken_unheard` tells whether the node accepted the transaction when its answer
-- is lost, which the manager does not learn.
pub record Replies : Type 0 where
  pub first_nonce : Outcome ℕ
  pub tx_id : String
  pub create : Option String
  pub sign : Outcome SignerOutput
  pub save_signed : Option String
  pub save_sent : Option String
  pub send : Outcome SendTxResult
  pub taken_unheard : Bool
  pub save_result : Option String
  pub save_failure : Option String
  pub later_nonce : Outcome ℕ

-- The journal is the table, its newest row first.
pub record NonceManager : Type 0 where
  pub next_nonce_value : Option ℕ
  pub journal : List JournalRecord
  pub outbox : List Sent

abbrev write_last : JournalRecord → List JournalRecord → List JournalRecord
write_last row [] = row ∷ []
write_last row (r ∷ rs) = row ∷ rs

-- `journal.save()` when it succeeds
unfoldable pub save : JournalRecord → NonceManager → NonceManager
save row m = record m { journal = write_last row m.journal }

abbrev pub mentions_nonce : Option String → Bool
mentions_nonce none = false
mentions_nonce (some message) =
    if str_eq message "" then false else includes (to_lower_case message) "nonce"

-- The state after a part of the `try` block, the row as it is in memory, and the result.
pub record Attempt : Type 0 where
  pub manager : NonceManager
  pub row : JournalRecord
  pub result : Outcome SubmitResult

module _ (r : Replies) where
  abbrev fetched : Outcome ℕ → NonceManager → Outcome NonceManager
  fetched (throws e) m = throws e
  fetched (ok k) m = ok (record m { next_nonce_value = some k })

  unfoldable pub allocate_nonce : NonceManager → Option ℕ → Outcome ℕ → Outcome (ℕ × NonceManager)
  allocate_nonce m (some n) _ = ok (n, m)
  allocate_nonce m none (throws e) = throws e
  allocate_nonce m none (ok n) = ok (n, record m { next_nonce_value = some n })

  unfoldable pub refresh_nonce_if_needed : Option String → NonceManager → Outcome NonceManager
  refresh_nonce_if_needed message m =
      if mentions_nonce message then fetched r.later_nonce m else ok m

  abbrev or_unchanged : NonceManager → Outcome NonceManager → NonceManager
  or_unchanged m (throws e) = m
  or_unchanged m (ok m') = m'

  unfoldable pub best_effort_refresh : Option String → NonceManager → NonceManager
  best_effort_refresh message m = or_unchanged m (refresh_nonce_if_needed message m)

  abbrev pub error_text : SendTxResult → String
  error_text result = elim result.error [ some e ↦ e | none ↦ result.raw ]

  abbrev pub settled : SendTxResult → JournalRecord → JournalRecord
  settled result row =
      if result.accepted
      then record row { status = Status.accepted; error = none }
      else record row { status = rejected; error = some (error_text result) }

  abbrev log : Sent → NonceManager → NonceManager
  log s m = record m { outbox = s ∷ m.outbox }

  abbrev pub answered :
      ℕ → SignerOutput → SendTxResult → JournalRecord → NonceManager → Option String → Attempt
  answered n s result row m (some e) = record { manager = m; row = row; result = throws e }
  answered n s result row m none =
      let saved = save row m in
      record {
        manager = if result.accepted then saved else best_effort_refresh row.error saved;
        row = row;
        result = ok (record {
          tx_id = r.tx_id;
          tx_type = s.tx_type;
          tx_info_hash = s.tx_info_hash;
          nonce = n;
          signed_tx = s.tx_info;
          raw = result.raw;
          tx_hash = result.tx_hash;
          error = result.error;
        });
      }

  -- from `sendTx` on, by its answer
  abbrev pub received :
      ℕ → SignerOutput → JournalRecord → NonceManager → Outcome SendTxResult → Attempt
  received n s row m (throws e) = record {
    manager = log (record { nonce = n; tx_info = s.tx_info; accepted = r.taken_unheard }) m;
    row = row;
    result = throws e;
  }
  received n s row m (ok result) =
      answered n s result (settled result row)
        (log (record { nonce = n; tx_info = s.tx_info; accepted = result.accepted }) m)
        r.save_result

  abbrev pub sent_row : SignerOutput → JournalRecord → JournalRecord
  sent_row s row = record row { tx_type = s.tx_type; tx_info_hash = s.tx_info_hash; status = sent }

  abbrev pub signed_row : SignerOutput → JournalRecord → JournalRecord
  signed_row s row = record (sent_row s row) { status = signed }

  -- from the signature on, by the answers to the two writes of the journal before the sending
  unfoldable pub journal_signed :
      ℕ → SignerOutput → JournalRecord → NonceManager → Option String → Option String → Attempt
  journal_signed n s row m (some e) _ = record {
    manager = m;
    row = signed_row s row;
    result = throws e;
  }
  journal_signed n s row m none (some e) = record {
    manager = save (signed_row s row) m;
    row = sent_row s row;
    result = throws e;
  }
  journal_signed n s row m none none =
      received n s (sent_row s row) (save (sent_row s row) (save (signed_row s row) m)) r.send

  abbrev pub advance_nonce : NonceManager → Option ℕ → Outcome NonceManager
  advance_nonce m none = throws "Lighter nonce was not initialized"
  advance_nonce m (some k) = ok (record m { next_nonce_value = some (suc k) })

  abbrev pub advanced :
      ℕ → SignerOutput → JournalRecord → NonceManager → Outcome NonceManager → Attempt
  advanced n s row m (throws e) = record { manager = m; row = row; result = throws e }
  advanced n s row m (ok m') = journal_signed n s row m' r.save_signed r.save_sent

  -- the `try` block, by the answer of the signer
  unfoldable pub sign_and_send : ℕ → JournalRecord → NonceManager → Outcome SignerOutput → Attempt
  sign_and_send n row m (throws e) = record { manager = m; row = row; result = throws e }
  sign_and_send n row m (ok s) = advanced n s row m (advance_nonce m m.next_nonce_value)

  abbrev pub failed_row : String → JournalRecord → JournalRecord
  failed_row e row = record row {
    status = if str_eq row.tx_info_hash "" then rejected else unknown;
    error = some e;
  }

  abbrev rethrow :
      String → NonceManager → Outcome NonceManager → NonceManager × Outcome SubmitResult
  rethrow e m (throws e') = (m, throws e')
  rethrow e m (ok m') = (m', throws e)

  abbrev pub rejected_by : Attempt → String → Option String → NonceManager × Outcome SubmitResult
  rejected_by a e (some e') = (a.manager, throws e')
  rejected_by a e none =
      let saved = save (failed_row e a.row) a.manager in
      rethrow e saved (refresh_nonce_if_needed (some e) saved)

  -- the `catch` block
  unfoldable pub catch_failure :
      Attempt → Outcome SubmitResult → NonceManager × Outcome SubmitResult
  catch_failure a (ok result) = (a.manager, ok result)
  catch_failure a (throws e) = rejected_by a e r.save_failure

  abbrev pub new_row : ℕ → JournalRecord
  new_row n = record {
    tx_id = r.tx_id;
    nonce = n;
    tx_type = 0;
    tx_info_hash = "";
    status = created;
    error = none;
  }

  abbrev pub try_submit : ℕ → NonceManager → NonceManager × Outcome SubmitResult
  try_submit n m = let a = sign_and_send n (new_row n) m r.sign in catch_failure a a.result

  abbrev pub submit_with :
      NonceManager
      → Option String
      → Outcome (ℕ × NonceManager)
      → NonceManager × Outcome SubmitResult
  submit_with m create (throws e) = (m, throws e)
  submit_with m (some e) (ok (n, m')) = (m', throws e)
  submit_with m none (ok (n, m')) = try_submit n (record m' { journal = new_row n ∷ m'.journal })

  unfoldable pub submit_now : NonceManager → NonceManager × Outcome SubmitResult
  submit_now m = submit_with m r.create (allocate_nonce m m.next_nonce_value r.first_nonce)
