-- ===== src/Idempotency/Laws.antt =====
-- When a message counts as a duplicate.
use velotradex.Base.{
  find, ℕ, suc, ◌+◌, ◌≤◌, ◌<◌, String, ◌≡◌, refl, ◌≢◌, ◌⊎◌, inl, inr, Bool, true, false, not,
  Option, none, some, List, [], ◌∷◌, ◌++◌, eq_iff, eq_refl, if_both, ◌∙◌, ap, arith, if◌then◌else◌,
  ltb, keep, is_some, none_of_is_some, Bool-cases,
}
use velotradex.Idempotency.{
  key_ttl_ms, IdempotencyKey, Keys, cutoff_date, same_key, create, cleanup_expired_keys, is_blank,
  result_of, is_fresh_key, check_message, write_key,
}

module _ {A : Type 0} where
  find-append :
      (p : A → Bool) (xs : List A) (y : A)
      → find p xs ≡ none
      → find p (xs ++ (y ∷ [])) ≡ (if p y then some y else none)
  unfolding find
  find-append p [] y h = refl
  find-append p (x ∷ xs) y h = ground (arith, find-append p xs y)

  -- A weaker test is not met where a stronger one is not.
  find-none :
      (p q : A → Bool) (xs : List A)
      → ((x : A) → p x ≡ true → q x ≡ true)
      → find q xs ≡ none
      → find p xs ≡ none
  unfolding find
  find-none p q [] f h = refl
  find-none p q (x ∷ xs) f h = ground (arith, f x, find-none p q xs f)

  find-other :
      (p : A → Bool) (xs : List A) (y : A) → p y ≡ false → find p (xs ++ (y ∷ [])) ≡ find p xs
  unfolding find
  find-other p [] y h = ground arith
  find-other p (x ∷ xs) y h = ground (arith, find-other p xs y h)

-- The unique index of the table.
abbrev pub IsUniqueKey : List IdempotencyKey → Type 0
IsUniqueKey [] = Unit
IsUniqueKey (r ∷ rs) = (find (same_key r.channel_id r.content_hash) rs ≡ none) × IsUniqueKey rs

module _ (hash : String → String) where
  fresh-same :
      (now : ℕ) (channel content : String) (r : IdempotencyKey)
      → is_fresh_key hash now channel content r ≡ true
      → same_key channel (hash content) r ≡ true
  fresh-same now channel content r h = ground arith

  module _ (now strategy : ℕ) (message : Option ℕ) (channel content : String) (t : Keys) where
    abbrev row : IdempotencyKey
    row = record {
      id = t.next_id;
      channel_id = channel;
      content_hash = hash content;
      first_seen_at = now;
      message_id = message;
      strategy_id = some strategy;
    }

    write_key-free :
        is_blank content ≡ false
        → find (same_key channel (hash content)) t.rows ≡ none
        → write_key hash now channel content message strategy t
          ≡ record { rows = t.rows ++ (row ∷ []); next_id = suc t.next_id }
    unfolding write_key create
    write_key-free full free = rw (full, free) refl

    pub write_key-taken :
        is_some (find (same_key channel (hash content)) t.rows) ≡ true
        → write_key hash now channel content message strategy t ≡ t
    unfolding write_key create
    write_key-taken taken = elim (Bool-cases (is_blank content)) [
      | inl b ↦ rw b refl
      | inr b ↦ rw (b, taken) refl
    ]

    row-fresh :
        (later : ℕ) → later ≤ now + key_ttl_ms → is_fresh_key hash later channel content row ≡ true
    row-fresh later soon = ground (arith, eq_refl channel, eq_refl (hash content))

    row-other :
        (later : ℕ) (other text : String)
        → (channel ≢ other) ⊎ (hash content ≢ hash text)
        → is_fresh_key hash later other text row ≡ false
    row-other later other text ne =
        ground (arith, eq_iff channel other, eq_iff (hash content) (hash text))

    -- After a message was recorded under a key that the table did not hold, every check of the same
    -- content on the same channel up to 60 seconds later reports a duplicate, and a check of a
    -- message with another channel or another hash answers as before.
    pub check_message-write_key :
        is_blank content ≡ false
        → find (same_key channel (hash content)) t.rows ≡ none
        → let t' = write_key hash now channel content message strategy t in
          ((later : ℕ)
            → later ≤ now + key_ttl_ms
            → check_message hash later channel content t'
              ≡ record { is_duplicate = true; existing_key_id = some t.next_id })
          × ((later : ℕ) (other text : String)
              → (channel ≢ other) ⊎ (hash content ≢ hash text)
              → check_message hash later other text t' ≡ check_message hash later other text t)
    unfolding check_message
    check_message-write_key full free = rw (write_key-free full free) (
      λ later soon.
          rw
            (
              full,
              find-append (is_fresh_key hash later channel content) t.rows row (
                  find-none (is_fresh_key hash later channel content)
                    (same_key channel (hash content)) t.rows (fresh-same later channel content)
                    free),
              row-fresh later soon,
            )
            refl,
      λ later other text ne.
          rw
            (find-other (is_fresh_key hash later other text) t.rows row
              (row-other later other text ne))
            refl,
    )

module _ (p : IdempotencyKey → Bool) where
  find-keep :
      (q : IdempotencyKey → Bool) (xs : List IdempotencyKey)
      → find p xs ≡ none
      → find p (keep q xs) ≡ none
  unfolding find
  find-keep q [] h = refl
  find-keep q (x ∷ xs) h = ground (arith, find-keep q xs)

keep-IsUniqueKey :
    (q : IdempotencyKey → Bool) (xs : List IdempotencyKey)
    → IsUniqueKey xs
    → IsUniqueKey (keep q xs)
keep-IsUniqueKey q [] u = tt
keep-IsUniqueKey q (x ∷ xs) (free, u) =
    if_both IsUniqueKey (q x)
      (find-keep (same_key x.channel_id x.content_hash) q xs free, keep-IsUniqueKey q xs u)
      (keep-IsUniqueKey q xs u)

append-IsUniqueKey :
    (xs : List IdempotencyKey) (y : IdempotencyKey)
    → IsUniqueKey xs
    → find (same_key y.channel_id y.content_hash) xs ≡ none
    → IsUniqueKey (xs ++ (y ∷ []))
unfolding find
append-IsUniqueKey [] y u h = (refl, tt)
append-IsUniqueKey (x ∷ xs) y (free, u) h =
    let other : same_key y.channel_id y.content_hash x ≡ false = ground arith in
    let rest : find (same_key y.channel_id y.content_hash) xs ≡ none = ground arith in
    let mine : same_key x.channel_id x.content_hash y ≡ false = ground (
      arith,
      eq_iff x.channel_id y.channel_id,
      eq_iff y.channel_id x.channel_id,
      eq_iff x.content_hash y.content_hash,
      eq_iff y.content_hash x.content_hash,
    ) in
    (
      find-other (same_key x.channel_id x.content_hash) xs y mine ∙ free,
      append-IsUniqueKey xs y u rest,
    )

module _ (hash : String → String) where
  -- What the service does to the table: a recorded message and a run of the cleanup.
  pub data Step : Keys → Keys → Type 0 where
    wrote :
        (now strategy : ℕ) (message : Option ℕ) (channel content : String) {t : Keys}
        → Step t (write_key hash now channel content message strategy t)
    cleaned : (now : ℕ) {t : Keys} → Step t ((cleanup_expired_keys now t).1)

  -- The tables that the service can reach from an empty one.
  pub data Reach : Keys → Type 0 where
    empty : Reach (record { rows = []; next_id = 1 })
    next : {t t' : Keys} → Reach t → Step t t' → Reach t'

  write_key-IsUniqueKey :
      (now strategy : ℕ) (message : Option ℕ) (channel content : String) (t : Keys)
      → IsUniqueKey t.rows
      → IsUniqueKey ((write_key hash now channel content message strategy t).rows)
  unfolding write_key
  write_key-IsUniqueKey now strategy message channel content t u =
      elim (Bool-cases (is_blank content)) [
        | inl blank ↦ rw blank u
        | inr full ↦ elim (Bool-cases (is_some (find (same_key channel (hash content)) t.rows))) [
          | inl taken ↦ rw (write_key-taken hash now strategy message channel content t taken) u
          | inr free ↦
              let none_found =
                none_of_is_some (find (same_key channel (hash content)) t.rows) free in
              rw (write_key-free hash now strategy message channel content t full none_found) (
                append-IsUniqueKey t.rows (row hash now strategy message channel content t) u
                  none_found)
        ]
      ]

  -- In every table that records of messages and runs of the cleanup lead to, each pair of channel and
  -- content hash stands in at most one row.
  pub Reach-IsUniqueKey : (t : Keys) → Reach t → IsUniqueKey t.rows
  unfolding cleanup_expired_keys
  Reach-IsUniqueKey t empty = tt
  Reach-IsUniqueKey t (next {t = s} r (wrote now strategy message channel content)) =
      write_key-IsUniqueKey now strategy message channel content s (Reach-IsUniqueKey s r)
  Reach-IsUniqueKey t (next {t = s} r (cleaned now)) =
      keep-IsUniqueKey (λ r. not (ltb r.first_seen_at (cutoff_date now))) s.rows
        (Reach-IsUniqueKey s r)

  expired-unseen :
      (later : ℕ) (channel content : String) (xs : List IdempotencyKey) (r : IdempotencyKey)
      → IsUniqueKey xs
      → find (same_key channel (hash content)) xs ≡ some r
      → r.first_seen_at < cutoff_date later
      → find (is_fresh_key hash later channel content) xs ≡ none
  unfolding find
  expired-unseen later channel content [] r u h old = refl
  expired-unseen later channel content (x ∷ xs) r (free, u) h old =
      elim (Bool-cases (same_key channel (hash content) x)) [
        | inl same ↦
            let c : x.channel_id ≡ channel = ground (arith, eq_iff x.channel_id channel) in
            let k : x.content_hash ≡ hash content =
              ground (arith, eq_iff x.content_hash (hash content)) in
            let first : some x ≡ some r = rw same at h in
            let age : x.first_seen_at ≡ r.first_seen_at =
              ap (λ (o : Option IdempotencyKey). elim o [ none ↦ 0 | some y ↦ y.first_seen_at ])
                first in
            let stale : is_fresh_key hash later channel content x ≡ false =
              ground (arith, age, old) in
            let rest : find (same_key channel (hash content)) xs ≡ none = rw k at (rw c at free) in
            rw stale (
              find-none (is_fresh_key hash later channel content) (same_key channel (hash content))
                xs (fresh-same hash later channel content) rest)
        | inr other ↦
            let stale : is_fresh_key hash later channel content x ≡ false = rw other refl in
            rw stale (expired-unseen later channel content xs r u (rw other at h) old)
      ]

  -- In a table that the service can reach, a row of the message's key that is older than 60 seconds
  -- and not yet cleaned makes the record of the message fail on the unique index: the table stays
  -- as it was, and no later check reports the message as a duplicate.
  pub write_key-lost :
      (now strategy : ℕ) (message : Option ℕ) (channel content : String) (t : Keys)
      (r : IdempotencyKey)
      → Reach t
      → find (same_key channel (hash content)) t.rows ≡ some r
      → r.first_seen_at < cutoff_date now
      → let t' = write_key hash now channel content message strategy t in
        (t' ≡ t)
        × ((later : ℕ)
            → now ≤ later
            → check_message hash later channel content t'
              ≡ record { is_duplicate = false; existing_key_id = none })
  unfolding check_message
  write_key-lost now strategy message channel content t r reached found old =
      rw (write_key-taken hash now strategy message channel content t (rw found refl)) (
        refl,
        λ later after.
            rw
              (expired-unseen later channel content t.rows r (Reach-IsUniqueKey t reached) found
                (omega (arith, old, after)))
              (if_both (λ x. x ≡ result_of none) (is_blank content) refl refl),
      )
