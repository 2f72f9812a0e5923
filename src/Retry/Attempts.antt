-- ===== src/Retry/Attempts.antt =====
-- How often an operation is tried, and with what result.
use velotradex.Base.{
  ℕ, zero, suc, ◌+◌, ◌≤◌, ◌<◌, ◌≡◌, refl, subst, inl, inr, Bool, false, Bool-cases, ◌==◌, ==_iff,
  arith,
}
use velotradex.Retry.{NormalizedError, Attempt, gives_up, after, attempts_from, with_retry}

module _ {A : Type 0} (fn : ℕ → Attempt A) (retryable_check : NormalizedError → Bool) where
  -- The attempt failed with an error that is worth another one.
  abbrev pub IsWorthRetry : Attempt A → Type 0
  IsWorthRetry a =
      (e : NormalizedError) × (a ≡ Attempt.failed e) × (gives_up fn retryable_check e ≡ false)

  -- The result is that of the last of the calls; all calls before it from `first` on failed with an
  -- error worth a retry, and there are no more than `limit`.
  pub record IsLastOf (first limit : ℕ) (result : Attempt A) (calls : ℕ) : Type 0 where
    pub last : ℕ
    pub counted : calls ≡ last + 1
    pub started : first ≤ last
    pub bounded : calls ≤ limit
    pub answered : result ≡ fn last
    pub before : (i : ℕ) → first ≤ i → i < last → IsWorthRetry (fn i)

  stopped : (attempt left : ℕ) → IsLastOf attempt (attempt + left + 1) (fn attempt) (attempt + 1)
  stopped attempt left = record {
    last = attempt;
    counted = refl;
    started = omega arith;
    bounded = omega arith;
    answered = refl;
    before = λ i lo hi. let no : ⊥ = omega (arith, lo, hi) in elim no [ ];
  }

  after-IsLastOf :
      (attempt left : ℕ) (rest : Attempt A × ℕ) (a : Attempt A)
      → fn attempt ≡ a
      → IsLastOf (attempt + 1) (attempt + 1 + left + 1) rest.0 rest.1
      → let r = after fn retryable_check attempt rest a in
        IsLastOf attempt (attempt + suc left + 1) r.0 r.1
  after-IsLastOf attempt left rest (Attempt.returned x) e h = rw (← e) (stopped attempt (suc left))
  after-IsLastOf attempt left rest (Attempt.failed x) e h =
      elim (Bool-cases (gives_up fn retryable_check x)) [
        | inl g ↦ rw g (rw (← e) (stopped attempt (suc left)))
        | inr g ↦ rw g (record {
          last = h.last;
          counted = h.counted;
          started = omega (arith, h.started);
          bounded = omega (arith, h.bounded);
          answered = h.answered;
          before = λ i lo hi. elim (Bool-cases (i == attempt)) [
            | inl same ↦ rw ((==_iff i attempt).0 same) (x, e, g)
            | inr other ↦ h.before i (ground (arith, lo, other)) hi
          ];
        })
      ]

  attempts_from-IsLastOf :
      (left attempt : ℕ)
      → let r = attempts_from fn retryable_check left attempt in
        IsLastOf attempt (attempt + left + 1) r.0 r.1
  unfolding attempts_from
  attempts_from-IsLastOf zero attempt = stopped attempt 0
  attempts_from-IsLastOf (suc left) attempt =
      after-IsLastOf attempt left _ (fn attempt) refl (attempts_from-IsLastOf left (attempt + 1))

  -- An operation is tried at least once and at most once more than the number of retries; the result is
  -- that of the last attempt, and every attempt before it failed with an error that is worth another
  -- one.
  pub with_retry-IsLastOf :
      (max_retries : ℕ)
      → let r = with_retry fn retryable_check max_retries in IsLastOf 0 (max_retries + 1) r.0 r.1
  unfolding with_retry
  with_retry-IsLastOf max_retries =
      let same : 0 + max_retries + 1 ≡ max_retries + 1 = omega arith in
      subst
        (λ k.
          IsLastOf 0 k (attempts_from fn retryable_check max_retries 0).0
            (attempts_from fn retryable_check max_retries 0).1)
        same (attempts_from-IsLastOf max_retries 0)
