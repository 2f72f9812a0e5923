-- ===== src/RateLimiter/Window.antt =====
-- The bound on the requests of a window.
use velotradex.Base.{
  ℕ, ◌≤◌, ◌<◌, ◌≡◌, refl, ◌∙◌, sym, String, ◌≢◌, inl, inr, Bool, true, false, List, [], ◌∷◌, ◌++◌,
  arith, if◌then◌else◌, leb, keep, length, keep-append, keep-keep, length-keep_le, length-append,
  append-nil, str_eq, eq_iff, Bool-cases, text_cases, str_ne,
}
use velotradex.Dict.{Dict, get, put, get-put_self, get-put_ne}
use velotradex.RateLimiter.{RateLimiter, is_recent, hits_of, is_limited}

-- The times of a key's requests that were let through, by the log of all.
abbrev pub times_of : String → List (String × ℕ) → List ℕ
times_of key [] = []
times_of key ((k, t) ∷ log) = if str_eq k key then t ∷ times_of key log else times_of key log

abbrev pub logged : ℕ → String → Bool → List (String × ℕ) → List (String × ℕ)
logged now key true log = log
logged now key false log = log ++ ((key, now) ∷ [])

-- The calls so far, the last of them at a time, with the log of those let through.
pub data Reach : ℕ → List (String × ℕ) → RateLimiter → Type 0 where
  start :
      (max_hits window_ms : ℕ)
      → Reach 0 [] (record { hits = []; max_hits = max_hits; window_ms = window_ms })
  called :
      (key : String) (now : ℕ) {last : ℕ} {log : List (String × ℕ)} {l : RateLimiter}
      → Reach last log l
      → last ≤ now
      → Reach now (logged now key (is_limited now key l).0 log) (is_limited now key l).1

hits_of-put_self :
    (key : String) (ts : List ℕ) (hits : Dict (List ℕ)) → hits_of key (put key ts hits) ≡ ts
hits_of-put_self key ts hits = rw (get-put_self key ts hits) refl

hits_of-put_ne :
    (key k : String) (ts : List ℕ) (hits : Dict (List ℕ))
    → key ≢ k
    → hits_of k (put key ts hits) ≡ hits_of k hits
hits_of-put_ne key k ts hits ne = rw (get-put_ne key k ts hits ne) refl

times_of-append :
    (key k : String) (t : ℕ) (log : List (String × ℕ))
    → times_of key (log ++ ((k, t) ∷ []))
      ≡ times_of key log ++ (if str_eq k key then t ∷ [] else [])
times_of-append key k t [] = ground arith
times_of-append key k t ((j, u) ∷ log) = ground (arith, times_of-append key k t log)

record Holds (last : ℕ) (log : List (String × ℕ)) (l : RateLimiter) : Type 0 where
  -- From now on the limiter's times of a key count as those of the log.
  pub agrees :
      (key : String) (now : ℕ)
      → last ≤ now
      → keep (is_recent l.window_ms now) (hits_of key l.hits)
        ≡ keep (is_recent l.window_ms now) (times_of key log)
  pub bounded :
      (key : String) → length (keep (is_recent l.window_ms last) (times_of key log)) ≤ l.max_hits

leb_false→lt : (a b : ℕ) → leb a b ≡ false → b < a
leb_false→lt a b h = ground arith

recent_before :
    (w now later t : ℕ) → now ≤ later → is_recent w later t ≡ true → is_recent w now t ≡ true
recent_before w now later t h e = ground arith

-- What one call does, given the times that are recent when it comes.
module _ (last now : ℕ) (key : String) (log : List (String × ℕ)) (l : RateLimiter)
    (before : last ≤ now) (h : Holds last log l) where
  abbrev recent : List ℕ
  recent = keep (is_recent l.window_ms now) (hits_of key l.hits)

  recent_eq : recent ≡ keep (is_recent l.window_ms now) (times_of key log)
  recent_eq = h.agrees key now before

  bounded_later :
      (k : String) → length (keep (is_recent l.window_ms now) (times_of k log)) ≤ l.max_hits
  bounded_later k =
      let fewer =
        length-keep_le (is_recent l.window_ms now) (is_recent l.window_ms last) (times_of k log)
          (λ t e. recent_before l.window_ms last now t before e) in
      omega (arith, fewer, h.bounded k)

  recent_later :
      (n : ℕ)
      → now ≤ n
      → keep (is_recent l.window_ms n) recent ≡ keep (is_recent l.window_ms n) (times_of key log)
  recent_later n le =
      keep-keep (is_recent l.window_ms n) (is_recent l.window_ms now) (hits_of key l.hits)
        (λ t e. recent_before l.window_ms now n t le e)
      ∙ h.agrees key n (omega (arith, before, le))

  Holds-limited : Holds now log (record l { hits = put key recent l.hits })
  Holds-limited = record {
    agrees = λ k n le. elim (text_cases key k) [
      | inl e ↦ rw (← e) (rw (hits_of-put_self key recent l.hits) (recent_later n le))
      | inr ne ↦
          rw (hits_of-put_ne key k recent l.hits ne) (h.agrees k n (omega (arith, before, le)))
    ];
    bounded = bounded_later;
  }

  logged_self : times_of key (log ++ ((key, now) ∷ [])) ≡ times_of key log ++ (now ∷ [])
  logged_self = times_of-append key key now log ∙ rw ((eq_iff key key).1 refl) refl

  logged_other : (k : String) → key ≢ k → times_of k (log ++ ((key, now) ∷ [])) ≡ times_of k log
  logged_other k ne =
      times_of-append k key now log ∙ rw (str_ne key k ne) (append-nil (times_of k log))

  one_at_most : length (keep (is_recent l.window_ms now) (now ∷ [])) ≤ 1
  one_at_most = ground arith

  Holds-let_through :
      length recent < l.max_hits
      → Holds now
          (log ++ ((key, now) ∷ []))
          (record l { hits = put key (recent ++ (now ∷ [])) l.hits })
  Holds-let_through room = record {
    agrees = λ k n le. elim (text_cases key k) [
      | inl e ↦ rw (← e) (
          rw
            (
              hits_of-put_self key (recent ++ (now ∷ [])) l.hits,
              logged_self,
              keep-append (is_recent l.window_ms n) recent (now ∷ []),
              keep-append (is_recent l.window_ms n) (times_of key log) (now ∷ []),
              recent_later n le,
            )
            refl)
      | inr ne ↦
          rw (hits_of-put_ne key k (recent ++ (now ∷ [])) l.hits ne, logged_other k ne)
            (h.agrees k n (omega (arith, before, le)))
    ];
    bounded = λ k. elim (text_cases key k) [
      | inl e ↦ rw (← e) (
          rw
            (
              logged_self,
              keep-append (is_recent l.window_ms now) (times_of key log) (now ∷ []),
              sym recent_eq,
            )
            (omega (
              arith,
              length-append recent (keep (is_recent l.window_ms now) (now ∷ [])),
              one_at_most,
              room,
            )))
      | inr ne ↦ rw (logged_other k ne) (bounded_later k)
    ];
  }

Reach-Holds :
    (last : ℕ) (log : List (String × ℕ)) (l : RateLimiter) → Reach last log l → Holds last log l
unfolding is_limited get
Reach-Holds last log l (start max_hits w) = record {
  agrees = λ key now le. refl;
  bounded = λ key. omega arith;
}
Reach-Holds last log l (called key now {last = before} {log = log0} {l = l0} r le) =
    let h = Reach-Holds before log0 l0 r in
    let ts = recent before now key log0 l0 le h in
    elim (Bool-cases (leb l0.max_hits (length ts))) [
      | inl full ↦ simp full (Holds-limited before now key log0 l0 le h)
      | inr room ↦ simp room (
          Holds-let_through before now key log0 l0 le h (leb_false→lt l0.max_hits (length ts) room))
    ]

-- After every sequence of calls whose times do not decrease, and at every time from the last call on,
-- the requests of a key that were let through within the window before that time are at most the
-- limit.
pub Reach-IsBounded :
    (last : ℕ) (log : List (String × ℕ)) (l : RateLimiter) (key : String) (now : ℕ)
    → Reach last log l
    → last ≤ now
    → length (keep (is_recent l.window_ms now) (times_of key log)) ≤ l.max_hits
Reach-IsBounded last log l key now r le =
    bounded_later last now key log l le (Reach-Holds last log l r) key
