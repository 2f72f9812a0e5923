-- ===== src/Lighter/Reconciler/Startup.antt =====
-- What settling the journal guarantees.
use velotradex.Base.{
  ℕ, suc, ◌+◌, String, ◌≡◌, refl, sym, subst, ap, ◌∙◌, ◌↔◌, ◌⊎◌, inl, inr, Bool, true, false, not,
  Option, none, some, List, [], ◌∷◌, keep, length, arith, if_both, Bool-cases, ◌==◌, All,
  All-keep_test, Outcome, ok, throws, str_eq, both_true,
}
use velotradex.Number.{Number}
use velotradex.Number.Int.{ℤ, pos}
use velotradex.Lighter.Reconciler.{Event, or_else, is_terminal_status}
use velotradex.Lighter.Reconciler.Journal.{
  TxRow, Verdict, confirms, refuses, is_pending, is_settled, is_given, Lookup, Pass, decremented,
  judged_by, looked_up, identified, settle_remote, is_unsigned_local_failure, settle_local, pass,
  second_pass, reconcile_startup, update_first, order_verdict, finalize_from_order_event,
  tx_verdict, names_row, judged, finalize_from_tx_event, normalize_tx_status,
}

-- A row is as it was, or its transaction was pending and is settled now.
abbrev pub IsEvolved : TxRow → TxRow → Type 0
IsEvolved row after =
    (after ≡ row)
    ⊎ ((is_pending row.status ≡ true)
        × (is_settled after.status ≡ true)
        × (after.nonce ≡ row.nonce))

abbrev pub Evolves : List TxRow → List TxRow → Type 0
Evolves [] [] = Unit
Evolves (r ∷ rs) (t ∷ ts) = IsEvolved r t × Evolves rs ts
Evolves _ _ = ⊥

Evolves-refl : (rs : List TxRow) → Evolves rs rs
Evolves-refl [] = tt
Evolves-refl (r ∷ rs) = (inl refl, Evolves-refl rs)

abbrev pub unsettled : List TxRow → ℕ
unsettled rs = length (keep (λ row. not (is_settled row.status)) rs)

-- A row of a loop stays as it is, or it is settled, and one is taken from the count.
abbrev Moves : TxRow → ℤ → TxRow × ℤ → Type 0
Moves row count out =
    (out ≡ (row, count))
    ⊎ ((is_settled row.status ≡ false)
        × (is_settled out.0.status ≡ true)
        × (out.0.nonce ≡ row.nonce)
        × (out.1 ≡ decremented count))

abbrev IsStep : (TxRow → ℤ → TxRow × ℤ) → Type 0
IsStep f = (row : TxRow) (count : ℤ) → Moves row count (f row count)

unsettled_failure :
    (row : TxRow) → is_unsigned_local_failure row ≡ true → is_settled row.status ≡ false
unfolding is_unsigned_local_failure
unsettled_failure row h = ground arith

settle_local-IsStep : IsStep settle_local
unfolding settle_local
settle_local-IsStep row count = elim (Bool-cases (is_unsigned_local_failure row)) [
  | inl h ↦ rw h (inr (unsettled_failure row h, refl, refl, refl))
  | inr h ↦ rw h (inl refl)
]

module _ {N : Type 0} ⦃num : Number N⦄ (row : TxRow) (count : ℤ)
    (open_row : is_settled row.status ≡ false) where
  judged_by-Moves : (e : Event N) (v : Option Verdict) → Moves row count (judged_by e row count v)
  judged_by-Moves e none = inl refl
  judged_by-Moves e (some confirms) = inr (open_row, refl, refl, refl)
  judged_by-Moves e (some refuses) = inr (open_row, refl, refl, refl)

  looked_up-Moves :
      (reply : Outcome (Option (Event N))) → Moves row count (looked_up row count reply)
  looked_up-Moves (throws t) = inl refl
  looked_up-Moves (ok none) = inl refl
  looked_up-Moves (ok (some e)) = judged_by-Moves e (normalize_tx_status e)

  identified-Moves :
      (lookup : Lookup N) (identifier : Option String)
      → Moves row count (identified lookup row count identifier)
  identified-Moves lookup none = inl refl
  identified-Moves lookup (some i) =
      if_both (Moves row count) (str_eq i "") (inl refl)
        (looked_up-Moves (lookup i (is_given row.tx_info_hash)))

module _ {N : Type 0} ⦃num : Number N⦄ where
  settle_remote-IsStep : (lookup : Lookup N) → IsStep (settle_remote lookup)
  unfolding settle_remote
  settle_remote-IsStep lookup row count = elim (Bool-cases (is_settled row.status)) [
    | inl h ↦ rw h (inl refl)
    | inr h ↦
        let same : settle_remote lookup row count
            ≡ identified lookup row count (or_else row.tx_info_hash row.nonce) =
          rw h refl in
        subst (Moves row count) (sym same)
          (identified-Moves row count h lookup (or_else row.tx_info_hash row.nonce))
  ]

-- What the loops make of the rows that were found: `k` of the count are for other rows.
abbrev IsReconciled : ℕ → List TxRow → Pass → Type 0
IsReconciled k rs (ts, count) = Evolves rs ts × (count ≡ pos (k + unsettled ts))

unsettled-settled :
    (t : TxRow) (ts : List TxRow) → is_settled t.status ≡ true → unsettled (t ∷ ts) ≡ unsettled ts
unsettled-settled t ts s = rw s refl

unsettled-open :
    (t : TxRow) (ts : List TxRow)
    → is_settled t.status ≡ false
    → (k : ℕ)
    → (k + unsettled (t ∷ ts) ≡ suc (k + unsettled ts))
      × (k + unsettled (t ∷ ts) ≡ suc k + unsettled ts)
unsettled-open t ts s k = rw s (omega arith, omega arith)

still_pending :
    (r t : TxRow) → is_pending r.status ≡ true → IsEvolved r t → is_settled t.status ≡ false → t ≡ r
still_pending r t p (inl e) h = e
still_pending r t p (inr (q, s, n)) h = cc

settled_now :
    (r t u : TxRow)
    → is_pending r.status ≡ true
    → IsEvolved r t
    → is_settled t.status ≡ false
    → is_settled u.status ≡ true
    → u.nonce ≡ t.nonce
    → IsEvolved r u
settled_now r t u p k h s n = inr (p, s, n ∙ ap (λ (x : TxRow). x.nonce) (still_pending r t p k h))

pass-IsReconciled :
    (f : TxRow → ℤ → TxRow × ℤ) (k : ℕ) (rs ts : List TxRow) (count : ℤ)
    → IsStep f
    → All (λ row. is_pending row.status ≡ true) rs
    → IsReconciled k rs (ts, count)
    → IsReconciled k rs (pass f ts count)
unfolding pass
pass-IsReconciled f k [] [] count step h c = c
pass-IsReconciled f k [] (t ∷ ts) count step h (c, e) = elim c [ ]
pass-IsReconciled f k (r ∷ rs) [] count step h (c, e) = elim c [ ]
pass-IsReconciled f k (r ∷ rs) (t ∷ ts) count step (p, h) ((c, cs), e) = elim (step t count) [
  | inl same ↦ elim (Bool-cases (is_settled t.status)) [
    | inl s ↦
        let fewer : count ≡ pos (k + unsettled ts) =
          e ∙ ap (λ n. pos (k + n)) (unsettled-settled t ts s) in
        let (a, b) = pass-IsReconciled f k rs ts count step h (cs, fewer) in
        rw same
          ((c, a), b ∙ ap (λ n. pos (k + n)) (sym (unsettled-settled t (pass f ts count).0 s)))
    | inr s ↦
        let more : count ≡ pos (suc k + unsettled ts) = e ∙ ap pos ((unsettled-open t ts s k).1) in
        let (a, b) = pass-IsReconciled f (suc k) rs ts count step h (cs, more) in
        rw same ((c, a), b ∙ ap pos (sym ((unsettled-open t (pass f ts count).0 s k).1)))
  ]
  | inr (s, settled, nonce, taken) ↦
      let less : (f t count).1 ≡ pos (k + unsettled ts) =
        taken ∙ ap decremented (e ∙ ap pos ((unsettled-open t ts s k).0)) in
      let (a, b) = pass-IsReconciled f k rs ts (f t count).1 step h (cs, less) in
      (
        (settled_now r t (f t count).0 p c s settled nonce, a),
        b
            ∙ ap (λ n. pos (k + n))
                (sym (unsettled-settled (f t count).0 (pass f ts (f t count).1).0 settled)),
      )
]

unsettled_found :
    (rs : List TxRow) → All (λ row. is_pending row.status ≡ true) rs → length rs ≡ unsettled rs
unsettled_found [] h = refl
unsettled_found (r ∷ rs) (p, h) = ground (arith, unsettled_found rs h)

none_unsettled :
    (rs : List TxRow) → ((unsettled rs == 0) ≡ true) ↔ All (λ row. is_settled row.status ≡ true) rs
none_unsettled [] = (λ h. tt, λ h. refl)
none_unsettled (r ∷ rs) = let (to, from) = none_unsettled rs in ground (arith, to, from)

update_first-Evolves :
    (test : TxRow → Bool) (f : TxRow → TxRow) (rs : List TxRow)
    → ((row : TxRow) → test row ≡ true → IsEvolved row (f row))
    → Evolves rs (update_first test f rs)
unfolding update_first
update_first-Evolves test f [] h = tt
update_first-Evolves test f (r ∷ rs) h = elim (Bool-cases (test r)) [
  | inl t ↦ rw t (h r t, Evolves-refl rs)
  | inr n ↦ rw n (inl refl, update_first-Evolves test f rs h)
]

order_verdict-IsEvolved :
    (key status : String) (row : TxRow)
    → is_pending row.status ≡ true
    → IsEvolved row (order_verdict key status row)
order_verdict-IsEvolved key status row p =
    if_both (IsEvolved row) (str_eq status "REJECTED") (inr (p, refl, refl)) (inr (p, refl, refl))

module _ {N : Type 0} ⦃num : Number N⦄ where
  both_passes :
      (lookup : Option (Lookup N)) (rows : List TxRow)
      → All (λ row. is_pending row.status ≡ true) rows
      → IsReconciled 0 rows (second_pass lookup (pass settle_local rows (pos (length rows))))
  both_passes lookup rows found = both lookup
    where
      first : IsReconciled 0 rows (pass settle_local rows (pos (length rows)))
      first =
          pass-IsReconciled settle_local 0 rows rows (pos (length rows)) settle_local-IsStep found
            (Evolves-refl rows, ap pos (unsettled_found rows found ∙ omega arith))

      both :
          (l : Option (Lookup N))
          → IsReconciled 0 rows (second_pass l (pass settle_local rows (pos (length rows))))
      both none = first
      both (some l) =
          pass-IsReconciled (settle_remote l) 0 rows (pass settle_local rows (pos (length rows))).0
            (pass settle_local rows (pos (length rows))).1 (settle_remote-IsStep l) found first

  -- The start settles only transactions that were pending: each row that was found stays as it was or
  -- becomes settled, under its own nonce; the count that is reported is that of the rows that are
  -- still not settled, and trading is called safe exactly when all are settled.
  pub reconcile_startup-IsSafe :
      (lookup : Option (Lookup N)) (table : List TxRow)
      → let (after, report) = reconcile_startup lookup table in
        Evolves (keep (λ row. is_pending row.status) table) after
        × (report.unknown_tx_count ≡ pos (unsettled after))
        × ((report.safe_to_trade ≡ true) ↔ All (λ row. is_settled row.status ≡ true) after)
  unfolding reconcile_startup
  reconcile_startup-IsSafe lookup table =
      let rows = keep (λ row. is_pending row.status) table in
      let found = All-keep_test (λ (row : TxRow). is_pending row.status) table in
      let (evolved, counted) = both_passes lookup rows found in
      let after = second_pass lookup (pass settle_local rows (pos (length rows))) in
      let count : after.1 ≡ pos (unsettled after.0) = counted ∙ ap pos (omega arith) in
      (evolved, count, rw count (none_unsettled after.0))

  tx_verdict-IsEvolved :
      (e : Event N) (v : Verdict) (row : TxRow)
      → is_pending row.status ≡ true
      → IsEvolved row (tx_verdict e v row)
  tx_verdict-IsEvolved e confirms row p = inr (p, refl, refl)
  tx_verdict-IsEvolved e refuses row p = inr (p, refl, refl)

  judged-Evolves :
      (e : Event N) (nonce key : String) (v : Option Verdict) (table : List TxRow)
      → Evolves table (judged e nonce key v table)
  judged-Evolves e nonce key none table = Evolves-refl table
  judged-Evolves e nonce key (some v) table =
      update_first-Evolves (names_row nonce key) (tx_verdict e v) table (λ row t.
        let p : is_pending row.status ≡ true = ground arith in tx_verdict-IsEvolved e v row p)

  -- The events of orders and of transactions settle only transactions that were pending, too: every
  -- row of the journal stays as it was or becomes settled, under its own nonce.
  pub finalize-Evolves :
      (e : Event N) (key status : String) (table : List TxRow)
      → Evolves table (finalize_from_order_event key status table)
        × Evolves table (finalize_from_tx_event e table)
  unfolding finalize_from_order_event finalize_from_tx_event
  finalize-Evolves e key status table = (
    if_both (Evolves table) (is_terminal_status status)
        (update_first-Evolves _ (order_verdict key status) table (λ row t.
          order_verdict-IsEvolved key status row (both_true (is_pending row.status) _ t).0))
        (Evolves-refl table),
    if_both (Evolves table) _ (Evolves-refl table)
        (judged-Evolves e _ _ (normalize_tx_status e) table),
  )
