-- ===== src/CfdSession/Windows.antt =====
-- The windows of trading sessions.
use velotradex.Base.{◌≡◌, ◌↔◌, ◌⊎◌, true, none, some, arith}
use velotradex.Number.{Number, int, le}
use velotradex.Number.Laws.{IsOrdered, IsNumber}
use velotradex.CfdSession.{
  CfdTickerLike, decided_by_status, to_epoch_ms, is_within, is_session_open,
}

module _ {N : Type 0} ⦃num : Number N⦄ where
  open num use {lt, eq}

  -- Going round from the opening time, now is met no later than there and before the closing time:
  -- one of the three orders in which the times can follow each other.
  abbrev pub IsBetween : N → N → N → Type 0
  IsBetween a b now =
      ((le a now ≡ true) × (lt now b ≡ true))
      ⊎ ((lt now b ≡ true) × (lt b a ≡ true))
      ⊎ ((lt b a ≡ true) × (le a now ≡ true))

  -- No window: a time that is missing, or two times that are the same
  abbrev pub IsUnbounded : N → N → Type 0
  IsUnbounded a b = (le a (int 0) ≡ true) ⊎ (le b (int 0) ≡ true) ⊎ (eq a b ≡ true)

  abbrev pub IsOpen : CfdTickerLike N → N → Type 0
  IsOpen t now =
      (decided_by_status t.status ≡ some true)
      ⊎ ((decided_by_status t.status ≡ none)
          × (IsUnbounded (to_epoch_ms t.open_time) (to_epoch_ms t.close_time)
              ⊎ IsBetween (to_epoch_ms t.open_time) (to_epoch_ms t.close_time) now))

  is_within_iff :
      IsOrdered N
      → (a b now : N) → IsNumber a
      → IsNumber b
      → (is_within a b now ≡ true) ↔ (IsUnbounded a b ⊎ IsBetween a b now)
  unfolding is_within
  is_within_iff o a b now ha hb =
      ground (
        arith,
        o.total a b,
        o.lt_trans a b a,
        o.lt_irrefl a,
        o.lt_trans a now b,
        o.eq-of_lt a now b,
      )

  -- A market is open exactly when its status says so, or when the status says nothing and it has no
  -- window or now lies in the window, which may go over midnight: from the opening time on and
  -- before the closing time; for times that are numbers, in an arithmetic with the laws of IEEE
  -- comparisons.
  pub is_session_open_iff :
      IsOrdered N
      → (t : CfdTickerLike N) (now : N) → IsNumber (to_epoch_ms t.open_time)
      → IsNumber (to_epoch_ms t.close_time)
      → (is_session_open t now ≡ true) ↔ IsOpen t now
  unfolding is_session_open
  is_session_open_iff o t now ha hb =
      let (to, from) =
        is_within_iff o (to_epoch_ms t.open_time) (to_epoch_ms t.close_time) now ha hb in
      ground (arith, to, from)
