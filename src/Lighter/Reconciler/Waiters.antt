-- ===== src/Lighter/Reconciler/Waiters.antt =====
-- Every waiter of a fill is settled once, or still waits.
use velotradex.Base.{
  ℕ, ◌+◌, String, ◌≡◌, refl, Option, none, some, List, [], ◌∷◌, ◌++◌, arith, str_eq, eq_iff, ◌==◌,
  if◌then◌else◌, if_both, Outcome,
}
use velotradex.Dict.{Dict, get, put, delete, IsUnique, put-IsUnique, get-delete}
use velotradex.Number.{Number}
use velotradex.Lighter.Reconciler.{
  Event, OrderResult, FillWaiter, Answer, Reconciler, settle, existing_refused,
  reject_existing_waiter, wait_for_fill, expires, timer_fires, take, with_first, answered_to,
  looked_up, timer_answers, is_other_symbol, ending, ends_waiter, resolve_terminal_waiter,
  handle_order_event, is_terminal_status, normalize_client_order_index, result_of, event_status,
  event_symbol,
}

-- What happens to the waiters, one after the other
pub data Happening (N : Type 0) : Type 0 where
  waits : String → String → ℕ → Happening N
  fires : String → ℕ → Happening N
  answers : ℕ → Outcome (Option OrderResult) → Happening N
  arrives : Event N → Happening N

abbrev one : ℕ → ℕ → ℕ
one w v = if v == w then 1 else 0

-- How often a waiter waits, is looked up and was settled
unfoldable pub waiting : ℕ → Dict FillWaiter → ℕ
waiting w [] = 0
waiting w ((k, v) ∷ d) = one w v.waiter + waiting w d

unfoldable pub looking : ℕ → List (String × FillWaiter) → ℕ
looking w [] = 0
looking w ((k, v) ∷ vs) = one w v.waiter + looking w vs

unfoldable pub settled_times : ℕ → List (ℕ × Answer) → ℕ
settled_times w [] = 0
settled_times w ((v, a) ∷ vs) = one w v + settled_times w vs

abbrev pub places : ℕ → Reconciler → ℕ
places w r = waiting w r.fill_waiters + (looking w r.expired + settled_times w r.settled)

waiting-put :
    (w : ℕ) (k : String) (v : FillWaiter) (d : Dict FillWaiter)
    → get k d ≡ none
    → waiting w (put k v d) ≡ waiting w d + one w v.waiter
unfolding waiting put get
waiting-put w k v [] h = ground arith
waiting-put w k v ((j, u) ∷ d) h = ground (arith, eq_iff j k, waiting-put w k v d)

waiting-delete_missing :
    (w : ℕ) (k : String) (d : Dict FillWaiter)
    → get k d ≡ none
    → waiting w (delete k d) ≡ waiting w d
unfolding waiting delete get
waiting-delete_missing w k [] h = refl
waiting-delete_missing w k ((j, u) ∷ d) h = ground (arith, eq_iff j k, waiting-delete_missing w k d)

waiting-delete :
    (w : ℕ) (k : String) (v : FillWaiter) (d : Dict FillWaiter)
    → IsUnique d
    → get k d ≡ some v
    → waiting w (delete k d) + one w v.waiter ≡ waiting w d
unfolding waiting delete get
waiting-delete w k v [] u h = cc h
waiting-delete w k v ((j, x) ∷ d) (free, u) h =
    ground (arith, eq_iff j k, waiting-delete w k v d u, waiting-delete_missing w k d)

delete-IsUnique : (k : String) (d : Dict FillWaiter) → IsUnique d → IsUnique (delete k d)
unfolding delete
delete-IsUnique k [] u = tt
delete-IsUnique k ((j, x) ∷ d) (free, u) = ground (arith, delete-IsUnique k d u, get-delete k j d)

get-deleted : (k : String) (d : Dict FillWaiter) → get k (delete k d) ≡ none
get-deleted k d = ground (arith, get-delete k k d, eq_iff k k)

looking-append :
    (w : ℕ) (xs : List (String × FillWaiter)) (k : String) (v : FillWaiter)
    → looking w (xs ++ ((k, v) ∷ [])) ≡ looking w xs + one w v.waiter
unfolding looking
looking-append w [] k v = omega arith
looking-append w ((j, u) ∷ xs) k v = omega (arith, looking-append w xs k v)

settled-append :
    (w : ℕ) (xs : List (ℕ × Answer)) (v : ℕ) (a : Answer)
    → settled_times w (xs ++ ((v, a) ∷ [])) ≡ settled_times w xs + one w v
unfolding settled_times
settled-append w [] v a = omega arith
settled-append w ((u, b) ∷ xs) v a = omega (arith, settled-append w xs v a)

-- What is taken out of the list, and the rest
abbrev IsTaken :
    ℕ → List (String × FillWaiter) → Option (FillWaiter × List (String × FillWaiter)) → Type 0
IsTaken w xs none = Unit
IsTaken w xs (some (v, rest)) = looking w xs ≡ one w v.waiter + looking w rest

with_first-IsTaken :
    (w : ℕ) (k : String) (u : FillWaiter) (xs : List (String × FillWaiter))
    (t : Option (FillWaiter × List (String × FillWaiter)))
    → IsTaken w xs t
    → IsTaken w ((k, u) ∷ xs) (with_first (k, u) t)
unfolding looking
with_first-IsTaken w k u xs none h = tt
with_first-IsTaken w k u xs (some (v, rest)) h = omega (arith, h)

take-IsTaken : (w x : ℕ) (xs : List (String × FillWaiter)) → IsTaken w xs (take x xs)
unfolding looking
take-IsTaken w x [] = tt
take-IsTaken w x ((k, u) ∷ xs) =
    if_both (IsTaken w ((k, u) ∷ xs)) (u.waiter == x) refl
      (with_first-IsTaken w k u xs (take x xs) (take-IsTaken w x xs))

-- A step that keeps the waiters in order, and puts `n` more in the places of `w`
pub record Moves (w n : ℕ) (r t : Reconciler) : Type 0 where
  pub unique : IsUnique t.fill_waiters
  pub moved : places w t ≡ places w r + n

Moves-refl : (w : ℕ) (r : Reconciler) → IsUnique r.fill_waiters → Moves w 0 r r
Moves-refl w r u = record { unique = u; moved = omega arith }

-- Settling a waiter that is taken out of the dictionary
delete-Moves :
    (w : ℕ) (key : String) (v : FillWaiter) (a : Answer) (r : Reconciler)
    → IsUnique r.fill_waiters
    → get key r.fill_waiters ≡ some v
    → Moves w 0 r (settle v.waiter a (record r { fill_waiters = delete key r.fill_waiters }))
delete-Moves w key v a r u h = record {
  unique = delete-IsUnique key r.fill_waiters u;
  moved =
      omega
        (arith, waiting-delete w key v r.fill_waiters u h, settled-append w r.settled v.waiter a);
}

existing_refused-Moves :
    (w : ℕ) (key : String) (o : Option FillWaiter) (r : Reconciler)
    → IsUnique r.fill_waiters
    → get key r.fill_waiters ≡ o
    → Moves w 0 r (existing_refused key o r)
      × (get key (existing_refused key o r).fill_waiters ≡ none)
existing_refused-Moves w key none r u h = (Moves-refl w r u, h)
existing_refused-Moves w key (some v) r u h =
    (delete-Moves w key v _ r u h, get-deleted key r.fill_waiters)

wait_for_fill-Moves :
    (w : ℕ) (key symbol : String) (v : ℕ) (r : Reconciler)
    → IsUnique r.fill_waiters
    → Moves w (one w v) r (wait_for_fill key symbol v r)
unfolding wait_for_fill reject_existing_waiter
wait_for_fill-Moves w key symbol v r u =
    let (first, free) = existing_refused-Moves w key (get key r.fill_waiters) r u refl in
    let cleared = existing_refused key (get key r.fill_waiters) r in
    let row : FillWaiter = record { waiter = v; symbol = symbol } in
    record {
      unique = put-IsUnique key row cleared.fill_waiters first.unique;
      moved = omega (arith, first.moved, waiting-put w key row cleared.fill_waiters free);
    }

expires-Moves :
    (w : ℕ) (key : String) (v : ℕ) (o : Option FillWaiter) (r : Reconciler)
    → IsUnique r.fill_waiters
    → get key r.fill_waiters ≡ o
    → Moves w 0 r (expires key v o r)
expires-Moves w key v none r u h = Moves-refl w r u
expires-Moves w key v (some x) r u h =
    if_both (Moves w 0 r) (x.waiter == v)
      (record {
        unique = delete-IsUnique key r.fill_waiters u;
        moved =
            omega
              (arith, waiting-delete w key x r.fill_waiters u h, looking-append w r.expired key x);
      })
      (Moves-refl w r u)

answered_to-Moves :
    (w : ℕ) (a : Answer) (t : Option (FillWaiter × List (String × FillWaiter))) (r : Reconciler)
    → IsUnique r.fill_waiters
    → IsTaken w r.expired t
    → Moves w 0 r (answered_to a t r)
answered_to-Moves w a none r u h = Moves-refl w r u
answered_to-Moves w a (some (v, rest)) r u h = record {
  unique = u;
  moved = omega (arith, h, settled-append w r.settled v.waiter a);
}

ends_waiter-Moves :
    (w : ℕ) (key status : String) (symbol : Option String) (result : OrderResult)
    (o : Option FillWaiter) (r : Reconciler)
    → IsUnique r.fill_waiters
    → get key r.fill_waiters ≡ o
    → Moves w 0 r (ends_waiter key status symbol result o r)
ends_waiter-Moves w key status symbol result none r u h = Moves-refl w r u
ends_waiter-Moves w key status symbol result (some v) r u h =
    if_both (Moves w 0 r) (is_other_symbol symbol v.symbol) (Moves-refl w r u)
      (delete-Moves w key v (ending status result) r u h)

resolve-Moves :
    (w : ℕ) (key status : String) (symbol : Option String) (result : OrderResult) (r : Reconciler)
    → IsUnique r.fill_waiters
    → Moves w 0 r (resolve_terminal_waiter key status symbol result r)
unfolding resolve_terminal_waiter
resolve-Moves w key status symbol result r u =
    if_both (Moves w 0 r) (is_terminal_status status)
      (ends_waiter-Moves w key status symbol result (get key r.fill_waiters) r u refl)
      (Moves-refl w r u)

module _ {N : Type 0} ⦃num : Number N⦄ where
  unfoldable pub happen : Happening N → Reconciler → Reconciler
  happen (waits key symbol w) r = wait_for_fill key symbol w r
  happen (fires key w) r = timer_fires key w r
  happen (answers w reply) r = timer_answers w reply r
  happen (arrives e) r = handle_order_event e r

  unfoldable pub happen_all : List (Happening N) → Reconciler → Reconciler
  happen_all [] r = r
  happen_all (h ∷ hs) r = happen_all hs (happen h r)

  abbrev pub asks : ℕ → Happening N → ℕ
  asks w (waits key symbol v) = one w v
  asks w _ = 0

  -- How often the waiter `w` asks
  unfoldable pub asked : ℕ → List (Happening N) → ℕ
  asked w [] = 0
  asked w (h ∷ hs) = asks w h + asked w hs

  event-Moves :
      (w : ℕ) (e : Event N) (r : Reconciler)
      → IsUnique r.fill_waiters
      → Moves w 0 r (handle_order_event e r)
  unfolding handle_order_event
  event-Moves w e r u =
      let key = normalize_client_order_index e in
      let ended = resolve-Moves w key (event_status e) (event_symbol e) (result_of e) r u in
      if_both (Moves w 0 r) (str_eq key "") (Moves-refl w r u)
        (record { unique = ended.unique; moved = ended.moved })

  happen-Moves :
      (w : ℕ) (h : Happening N) (r : Reconciler)
      → IsUnique r.fill_waiters
      → Moves w (asks w h) r (happen h r)
  unfolding happen timer_fires timer_answers
  happen-Moves w (waits key symbol v) r u = wait_for_fill-Moves w key symbol v r u
  happen-Moves w (fires key v) r u = expires-Moves w key v (get key r.fill_waiters) r u refl
  happen-Moves w (answers v reply) r u =
      answered_to-Moves w (looked_up reply) (take v r.expired) r u (take-IsTaken w v r.expired)
  happen-Moves w (arrives e) r u = event-Moves w e r u

  -- Through any sequence of requests to wait, order events, timers and answers of look-ups, in any
  -- order, no waiter is lost and none is settled twice: the times that a waiter still waits, is being
  -- looked up or was settled grow by the times that it asked to wait; from waiters that stand once.
  pub happen_all-places :
      (w : ℕ) (hs : List (Happening N)) (r : Reconciler)
      → IsUnique r.fill_waiters
      → places w (happen_all hs r) ≡ places w r + asked w hs
  unfolding happen_all asked
  happen_all-places w [] r u = omega arith
  happen_all-places w (h ∷ hs) r u =
      let first = happen-Moves w h r u in
      omega (arith, first.moved, happen_all-places w hs (happen h r) first.unique)
