-- ===== src/Lighter/Nonce/Journal.antt =====
-- What the journal says of a transaction.
use velotradex.Base.{
  ℕ, String, ◌≡◌, ◌≢◌, refl, Bool, Option, none, some, List, [], ◌∷◌, ◌++◌, ◌⊎◌, inl, inr,
  some-injective, ok-injective, ap, ◌∙◌, if◌then◌else◌, Outcome, ok, throws, Bool-cases, arith,
  eq_iff,
}
use velotradex.Lighter.Nonce.{
  Replies, NonceManager, Sent, SignerOutput, SendTxResult, JournalRecord, Status, save,
  allocate_nonce, refresh_nonce_if_needed, best_effort_refresh, journal_signed, sign_and_send,
  catch_failure, submit_now, try_submit, submit_with, new_row, rethrow, failed_row,
}
use velotradex.Lighter.Nonce.Order.{refresh_nonce_if_needed-cases}

-- All writes of the journal succeed.
pub record Saves (r : Replies) : Type 0 where
  pub create : r.create ≡ none
  pub signed : r.save_signed ≡ none
  pub sent : r.save_sent ≡ none
  pub result : r.save_result ≡ none
  pub failure : r.save_failure ≡ none

-- The status that tells what became of a transaction.
abbrev pub outcome_status : Outcome SignerOutput → Outcome SendTxResult → Status
outcome_status (throws e) _ = Status.rejected
outcome_status (ok s) (throws e) = Status.unknown
outcome_status (ok s) (ok result) = if result.accepted then Status.accepted else Status.rejected

-- The transactions that a submission with the nonce `n` hands to the node; `taken` tells whether
-- the node accepted one whose answer is lost.
abbrev pub sent_with : Bool → ℕ → Outcome SignerOutput → Outcome SendTxResult → List Sent
sent_with taken n (throws e) _ = []
sent_with taken n (ok s) (throws e) =
    record { nonce = n; tx_info = s.tx_info; accepted = taken } ∷ []
sent_with taken n (ok s) (ok result) =
    record { nonce = n; tx_info = s.tx_info; accepted = result.accepted } ∷ []

-- After a submission with the nonce `n` from the state `m`: one new row, which tells what became of
-- the transaction, and the transaction was handed to the node at most once.
abbrev pub Tells : Replies → ℕ → NonceManager → NonceManager → Type 0
Tells r n m m' =
    (row : JournalRecord) × (m'.journal ≡ row ∷ m.journal)
    × (row.tx_id ≡ r.tx_id)
    × (row.nonce ≡ n)
    × (row.status ≡ outcome_status r.sign r.send)
    × (m'.outbox ≡ sent_with r.taken_unheard n r.sign r.send ++ m.outbox)

abbrev Keeps : NonceManager → NonceManager → Type 0
Keeps m m' = (m'.journal ≡ m.journal) × (m'.outbox ≡ m.outbox)

module _ (r : Replies) where
  best_effort_refresh-Keeps :
      (message : Option String) (m : NonceManager) → Keeps m (best_effort_refresh r message m)
  unfolding best_effort_refresh
  best_effort_refresh-Keeps message m = elim (refresh_nonce_if_needed-cases r message m) [
    | inl (e, h) ↦ rw h (refl, refl)
    | inr (inl h) ↦ rw h (refl, refl)
    | inr (inr (k, q, h)) ↦ rw h (refl, refl)
  ]

  rethrow-Keeps :
      (e : String) (message : Option String) (m : NonceManager)
      → Keeps m (rethrow r e m (refresh_nonce_if_needed r message m)).0
  rethrow-Keeps e message m = elim (refresh_nonce_if_needed-cases r message m) [
    | inl (e', h) ↦ rw h (refl, refl)
    | inr (inl h) ↦ rw h (refl, refl)
    | inr (inr (k, q, h)) ↦ rw h (refl, refl)
  ]

module _ (r : Replies) where
  submitted-Tells :
      (n : ℕ) (m : NonceManager) (rows : List JournalRecord) (sign : Outcome SignerOutput)
      (send : Outcome SendTxResult)
      → m.next_nonce_value ≡ some n
      → m.journal ≡ new_row r n ∷ rows
      → Saves r
      → r.sign ≡ sign
      → r.send ≡ send
      → ((s : SignerOutput) → r.sign ≡ ok s → s.tx_info_hash ≢ "")
      → Tells r n (record m { journal = rows }) (try_submit r n m).0
  unfolding sign_and_send journal_signed catch_failure save
  submitted-Tells n m rows (throws e) send next j saves a b full =
      rw (saves.failure, a, j)
        (let (j', o) =
            rethrow-Keeps (record r { sign = throws e; save_failure = none }) e (some e) _ in
          (failed_row r e (new_row r n), j', refl, refl, refl, o))
  submitted-Tells n m rows (ok s) (throws e) next j saves a b full =
      rw (saves.signed, saves.sent, saves.failure, a, b, j, next)
        (let (j', o) = rethrow-Keeps _ e (some e) _ in
          (_, j', refl, refl, ground (arith, eq_iff s.tx_info_hash "", full s a), o))
  submitted-Tells n m rows (ok s) (ok x) next j saves a b full =
      rw (saves.signed, saves.sent, saves.result, a, b, j, next)
        (elim (Bool-cases x.accepted) [
          | inl ac ↦ rw ac (_, refl, refl, refl, refl, refl)
          | inr de ↦
              rw de (let (j', o) = best_effort_refresh-Keeps _ _ _ in (_, j', refl, refl, refl, o))
        ])

-- The nonce that a submission takes: the next one, or the one that the node tells.
abbrev pub Takes : ℕ → Option ℕ → Outcome ℕ → Type 0
Takes n next reply = (next ≡ some n) ⊎ ((next ≡ none) × (reply ≡ ok n))

submit_with-Tells :
    (r : Replies) (n : ℕ) (m : NonceManager) (next : Option ℕ) (reply : Outcome ℕ)
    → Saves r
    → ((s : SignerOutput) → r.sign ≡ ok s → s.tx_info_hash ≢ "")
    → m.next_nonce_value ≡ next
    → Takes n next reply
    → Tells r n m (submit_with r m none (allocate_nonce r m next reply)).0
unfolding allocate_nonce
submit_with-Tells r n m (some k) reply saves full h t =
    let same : k ≡ n = elim t [ inl e ↦ some-injective e | inr (e, q) ↦ cc ] in
    rw same (
      submitted-Tells r n (record m { journal = new_row r n ∷ m.journal }) m.journal r.sign r.send
        (h ∙ ap some same) refl saves refl refl full)
submit_with-Tells r n m none (ok k) saves full h t =
    let same : k ≡ n = elim t [ inl e ↦ cc | inr (e, q) ↦ ok-injective q ] in
    rw same (
      submitted-Tells r n
        (record m { next_nonce_value = some n; journal = new_row r n ∷ m.journal }) m.journal r.sign
        r.send refl refl saves refl refl full)
submit_with-Tells r n m none (throws e) saves full h t =
    let no : ⊥ = elim t [ inl a ↦ cc | inr (a, b) ↦ cc ] in elim no [ ]

-- When every write of the journal succeeds, a submission under the next nonce `n` adds one row to
-- the journal: ACCEPTED if the node accepted the transaction, REJECTED if the node refused it or the
-- signer failed, and UNKNOWN if the answer of the node was lost after the signer had given a hash;
-- the transaction was handed to the node at most once, under the nonce `n`, and not at all if the
-- signer failed.
pub submit_now-Tells :
    (r : Replies) (n : ℕ) (m : NonceManager)
    → Saves r
    → ((s : SignerOutput) → r.sign ≡ ok s → s.tx_info_hash ≢ "")
    → Takes n m.next_nonce_value r.first_nonce
    → Tells r n m (submit_now r m).0
unfolding submit_now
submit_now-Tells r n m saves full t =
    simp saves.create (submit_with-Tells r n m m.next_nonce_value r.first_nonce saves full refl t)
