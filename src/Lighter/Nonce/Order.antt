-- ===== src/Lighter/Nonce/Order.antt =====
-- The order of the nonces that the node accepts.
use velotradex.Base.{
  ℕ, suc, ◌<◌, ◌≡◌, refl, Bool, true, false, Option, none, some, List, [], ◌∷◌, arith,
  if◌then◌else◌, Outcome, ok, throws, All, All-map, subst, Bool-cases, Outcome-cases, Option-cases,
  String, ◌⊎◌, inl, inr,
}
use velotradex.Lighter.Nonce.{
  Replies, NonceManager, Sent, Attempt, JournalRecord, SignerOutput, save, allocate_nonce,
  refresh_nonce_if_needed, best_effort_refresh, settled, failed_row, answered, received, sent_row,
  signed_row, rejected_by, submit_with, try_submit, SendTxResult, SubmitResult, journal_signed,
  sign_and_send, catch_failure, submit_now, new_row, mentions_nonce,
}

-- The nonces that the node accepted, the newest first.
abbrev pub accepted_nonces : List Sent → List ℕ
accepted_nonces [] = []
accepted_nonces (s ∷ ss) = if s.accepted then s.nonce ∷ accepted_nonces ss else accepted_nonces ss

abbrev pub IsBelow : ℕ → List Sent → Type 0
IsBelow k out = All (λ n. n < k) (accepted_nonces out)

abbrev pub IsDecreasing : List ℕ → Type 0
IsDecreasing [] = Unit
IsDecreasing (n ∷ ns) = All (λ k. k < n) ns × IsDecreasing ns

-- The next nonce, if known, is greater than all that were accepted.
abbrev NextIsNew : Option ℕ → List Sent → Type 0
NextIsNew none out = Unit
NextIsNew (some k) out = IsBelow k out

pub record IsOrdered (m : NonceManager) : Type 0 where
  pub decreasing : IsDecreasing (accepted_nonces m.outbox)
  pub new : NextIsNew m.next_nonce_value m.outbox

-- A reply that tells a nonce tells one greater than all accepted ones.
abbrev pub IsFresh : Outcome ℕ → List Sent → Type 0
IsFresh (throws e) out = Unit
IsFresh (ok k) out = IsBelow k out

module _ (r : Replies) where
  pub refresh_nonce_if_needed-cases :
      (message : Option String) (m : NonceManager)
      → ((e : String) × (refresh_nonce_if_needed r message m ≡ throws e))
        ⊎ (refresh_nonce_if_needed r message m ≡ ok m)
        ⊎ ((k : ℕ) × (r.later_nonce ≡ ok k)
            × (refresh_nonce_if_needed r message m ≡ ok (record m { next_nonce_value = some k })))
  unfolding refresh_nonce_if_needed
  refresh_nonce_if_needed-cases message m = elim (Bool-cases (mentions_nonce message)) [
    | inr h ↦ rw h (inr (inl refl))
    | inl h ↦ elim (Outcome-cases r.later_nonce) [
      | inl (e, q) ↦ rw (h, q) (inl (e, refl))
      | inr (k, q) ↦ rw (h, q) (inr (inr (k, refl, refl)))
    ]
  ]

  best_effort_refresh-IsOrdered :
      (message : Option String) (m : NonceManager)
      → IsOrdered m
      → (IsFresh r.later_nonce (best_effort_refresh r message m).outbox
          → IsOrdered (best_effort_refresh r message m))
  unfolding best_effort_refresh
  best_effort_refresh-IsOrdered message m o = elim (refresh_nonce_if_needed-cases message m) [
    | inl (e, h) ↦ rw h (λ f. o)
    | inr (inl h) ↦ rw h (λ f. o)
    | inr (inr (k, q, h)) ↦ rw (h, q) (λ f. record { decreasing = o.decreasing; new = f })
  ]

  -- The nonce `n` is signed: it is greater than all accepted ones, and the next one follows it.
  record Pending (n : ℕ) (m : NonceManager) : Type 0 where
    pub decreasing : IsDecreasing (accepted_nonces m.outbox)
    pub below : IsBelow n m.outbox
    pub advanced : m.next_nonce_value ≡ some (suc n)

  IsBelow-suc : (n : ℕ) (out : List Sent) → IsBelow n out → IsBelow (suc n) out
  IsBelow-suc n out b = All-map (accepted_nonces out) (λ k h. omega (arith, h)) b

  Pending-IsOrdered : (n : ℕ) (m : NonceManager) → Pending n m → IsOrdered m
  Pending-IsOrdered n m p = record {
    decreasing = p.decreasing;
    new = rw p.advanced (IsBelow-suc n m.outbox p.below);
  }

  log-IsOrdered :
      (n : ℕ) (tx : String) (b : Bool) (m : NonceManager)
      → Pending n m
      → IsOrdered
          (record m { outbox = record { nonce = n; tx_info = tx; accepted = b } ∷ m.outbox })
  log-IsOrdered n tx true m p = record {
    decreasing = (p.below, p.decreasing);
    new = rw p.advanced (omega arith, IsBelow-suc n m.outbox p.below);
  }
  log-IsOrdered n tx false m p = record {
    decreasing = p.decreasing;
    new = rw p.advanced (IsBelow-suc n m.outbox p.below);
  }

  -- A write of the journal changes neither the nonce nor the outbox.
  IsOrdered-save : {m : NonceManager} (row : JournalRecord) → IsOrdered m → IsOrdered (save row m)
  unfolding save
  IsOrdered-save row o = record { decreasing = o.decreasing; new = o.new }

  answered-IsOrdered :
      (n : ℕ) (s : SignerOutput) (result : SendTxResult) (row : JournalRecord) (m : NonceManager)
      (saved : Option String)
      → IsOrdered m
      → IsFresh r.later_nonce (answered r n s result row m saved).manager.outbox
      → IsOrdered (answered r n s result row m saved).manager
  answered-IsOrdered n s result row m (some e) o = λ f. o
  answered-IsOrdered n s result row m none o = elim (Bool-cases result.accepted) [
    | inl a ↦ rw a (λ f. IsOrdered-save row o)
    | inr a ↦ rw a (best_effort_refresh-IsOrdered row.error (save row m) (IsOrdered-save row o))
  ]

  received-IsOrdered :
      (n : ℕ) (s : SignerOutput) (row : JournalRecord) (m : NonceManager)
      (reply : Outcome SendTxResult)
      → Pending n m
      → IsFresh r.later_nonce (received r n s row m reply).manager.outbox
      → IsOrdered (received r n s row m reply).manager
  received-IsOrdered n s row m (throws e) p = λ f. log-IsOrdered n s.tx_info r.taken_unheard m p
  received-IsOrdered n s row m (ok result) p =
      answered-IsOrdered n s result (settled r result row) _ r.save_result
        (log-IsOrdered n s.tx_info result.accepted m p)

  journal_signed-IsOrdered :
      (n : ℕ) (s : SignerOutput) (row : JournalRecord) (m : NonceManager)
      (save1 save2 : Option String)
      → Pending n m
      → IsFresh r.later_nonce (journal_signed r n s row m save1 save2).manager.outbox
      → IsOrdered (journal_signed r n s row m save1 save2).manager
  unfolding journal_signed save
  journal_signed-IsOrdered n s row m (some e) _ p = λ f. Pending-IsOrdered n m p
  journal_signed-IsOrdered n s row m none (some e) p =
      λ f. IsOrdered-save (signed_row r s row) (Pending-IsOrdered n m p)
  journal_signed-IsOrdered n s row m none none p =
      received-IsOrdered n s (sent_row r s row) _ r.send
        (record { decreasing = p.decreasing; below = p.below; advanced = p.advanced })

  advanced-IsOrdered :
      (n : ℕ) (s : SignerOutput) (row : JournalRecord) (m : NonceManager)
      → IsOrdered m
      → m.next_nonce_value ≡ some n
      → IsFresh r.later_nonce (sign_and_send r n row m (ok s)).manager.outbox
      → IsOrdered (sign_and_send r n row m (ok s)).manager
  unfolding sign_and_send
  advanced-IsOrdered n s row m o next =
      let below : IsBelow n m.outbox = subst (λ x. NextIsNew x m.outbox) next o.new in
      rw next (
        journal_signed-IsOrdered n s row (record m { next_nonce_value = some (suc n) })
          r.save_signed r.save_sent
          (record { decreasing = o.decreasing; below = below; advanced = refl }))

  sign_and_send-IsOrdered :
      (n : ℕ) (row : JournalRecord) (m : NonceManager) (reply : Outcome SignerOutput)
      → IsOrdered m
      → m.next_nonce_value ≡ some n
      → IsFresh r.later_nonce (sign_and_send r n row m reply).manager.outbox
      → IsOrdered (sign_and_send r n row m reply).manager
  unfolding sign_and_send
  sign_and_send-IsOrdered n row m (throws e) o next f = o
  sign_and_send-IsOrdered n row m (ok s) o next f = advanced-IsOrdered n s row m o next f

  rejected_by-IsOrdered :
      (a : Attempt) (e : String) (saved : Option String)
      → IsOrdered a.manager
      → IsFresh r.later_nonce (rejected_by r a e saved).0.outbox
      → IsOrdered (rejected_by r a e saved).0
  rejected_by-IsOrdered a e (some e') o = λ f. o
  rejected_by-IsOrdered a e none o =
      let m = save (failed_row r e a.row) a.manager in
      elim (refresh_nonce_if_needed-cases (some e) m) [
        | inl (e', w) ↦ rw w (λ f. IsOrdered-save _ o)
        | inr (inl w) ↦ rw w (λ f. IsOrdered-save _ o)
        | inr (inr (k, z, w)) ↦ rw w (λ f. record {
          decreasing = (IsOrdered-save (failed_row r e a.row) o).decreasing;
          new = subst (λ x. IsFresh x m.outbox) z f;
        })
      ]

  catch_failure-IsOrdered :
      (a : Attempt) (result : Outcome SubmitResult)
      → IsOrdered a.manager
      → IsFresh r.later_nonce (catch_failure r a result).0.outbox
      → IsOrdered (catch_failure r a result).0
  unfolding catch_failure
  catch_failure-IsOrdered a (ok x) o f = o
  catch_failure-IsOrdered a (throws e) o f = rejected_by-IsOrdered a e r.save_failure o f

  outbox-catch_failure :
      (a : Attempt) (result : Outcome SubmitResult)
      → (catch_failure r a result).0.outbox ≡ a.manager.outbox
  unfolding catch_failure save
  outbox-catch_failure a (ok x) = refl
  outbox-catch_failure a (throws e) = elim (Option-cases r.save_failure) [
    | inr (e', h) ↦ simp h
    | inl h ↦
        elim (refresh_nonce_if_needed-cases (some e) (save (failed_row r e a.row) a.manager)) [
          | inl (e', w) ↦ simp (h, w)
          | inr (inl w) ↦ simp (h, w)
          | inr (inr (k, z, w)) ↦ simp (h, w)
        ]
  ]

  try_submit-IsOrdered :
      (n : ℕ) (m : NonceManager)
      → IsOrdered m
      → m.next_nonce_value ≡ some n
      → IsFresh r.later_nonce (try_submit r n m).0.outbox
      → IsOrdered (try_submit r n m).0
  try_submit-IsOrdered n m o next f =
      let a = sign_and_send r n (new_row r n) m r.sign in
      catch_failure-IsOrdered a a.result
        (sign_and_send-IsOrdered n (new_row r n) m r.sign o next
          (subst (IsFresh r.later_nonce) (outbox-catch_failure a a.result) f))
        f

  submit_with-IsOrdered :
      (m : NonceManager) (create : Option String) (next : Option ℕ) (reply : Outcome ℕ)
      → IsOrdered m
      → m.next_nonce_value ≡ next
      → IsFresh reply m.outbox
      → let m' = (submit_with r m create (allocate_nonce r m next reply)).0 in
        IsFresh r.later_nonce m'.outbox → IsOrdered m'
  unfolding allocate_nonce
  submit_with-IsOrdered m (some e) (some n) reply o h f g = o
  submit_with-IsOrdered m none (some n) reply o h f g =
      try_submit-IsOrdered n (record m { journal = new_row r n ∷ m.journal })
        (record { decreasing = o.decreasing; new = o.new }) h g
  submit_with-IsOrdered m create none (throws e) o h f g = o
  submit_with-IsOrdered m (some e) none (ok k) o h f g = record {
    decreasing = o.decreasing;
    new = f;
  }
  submit_with-IsOrdered m none none (ok k) o h f g =
      try_submit-IsOrdered k
        (record m { next_nonce_value = some k; journal = new_row r k ∷ m.journal })
        (record { decreasing = o.decreasing; new = f }) refl g

-- The states that submissions reach from an idle manager, when the node, asked for the next nonce of
-- the account, tells one greater than all that it accepted before.
pub data Reach : NonceManager → Type 0 where
  idle : Reach (record { next_nonce_value = none; journal = []; outbox = [] })
  submitted :
      (r : Replies) {m : NonceManager}
      → Reach m
      → IsFresh r.first_nonce m.outbox
      → IsFresh r.later_nonce (submit_now r m).0.outbox
      → Reach (submit_now r m).0

-- Through every sequence of submissions, whichever answers of the signer, the node and the database
-- they get, failures included, the nonces of the transactions that the node accepts increase
-- strictly, also where the node accepted one and its answer was lost, and the next nonce that the
-- manager would sign, if known, is greater than all of them; provided that the node, asked for the
-- next nonce, tells one greater than those it accepted.
pub Reach-IsOrdered : (m : NonceManager) → Reach m → IsOrdered m
unfolding submit_now
Reach-IsOrdered m idle = record { decreasing = tt; new = tt }
Reach-IsOrdered m (submitted r {m = m0} reached first later) =
    submit_with-IsOrdered r m0 r.create m0.next_nonce_value r.first_nonce
      (Reach-IsOrdered m0 reached) refl first later
