-- ===== src/Matcher/Effects.antt =====
-- What one operation of the matcher does to its orders and events, as a short list of changes.
use velotradex.Base.{
  not, keep, ◌||◌, ◌&&◌, String, subst, ◌∙◌, ◌≡◌, refl, sym, ◌⊎◌, inl, inr, false, Option, none,
  some, List, [], ◌∷◌, ◌++◌, foldl, arith, Bool-cases, Option-cases, none_of_is_some, ok-injective,
  if_both, is_some, ok,
}
use velotradex.Dict.{values, get, put, put-put, get-put_cases}
use velotradex.Number.{Number, of_optional, not_positive}
use velotradex.Matcher.{
  is_limit, enroll, open_for, is_protection, fill_found, cancel_found, opened, filled, cancelled,
  VirtualOrder, FillEvent, Matcher, is_open, is_entry, set_status, settle, fill_order, fill_entry,
  fill_reduce, emit_fill, tick_order, handle_tick, ensure_subscribed, fill_at_once, register_order,
  cancel_order, normalized,
}

pub open_cases : (o : VirtualOrder) → (o.status ≡ opened) ⊎ (is_open o.status ≡ false)
open_cases o = ground arith

module _ {N : Type 0} where
  pub data Change (m : Matcher N) (m' : Matcher N) : Type 0 where
    quiet : m'.orders ≡ m.orders → m'.events ≡ m.events → Change m m'
    add :
        (o : VirtualOrder)
        → get o.id m.orders ≡ none
        → m'.orders ≡ put o.id o m.orders
        → m'.events ≡ m.events
        → Change m m'
    fill :
        (o : VirtualOrder)
        → get o.id m.orders ≡ some o
        → o.status ≡ opened
        → m'.orders ≡ put o.id (record o { status = filled }) m.orders
        → (m'.events ≡ m.events)
          ⊎ ((e : FillEvent N) × (m'.events ≡ m.events ++ (e ∷ [])) × (e.order_id ≡ o.id))
        → Change m m'
    cancel :
        (o : VirtualOrder)
        → get o.id m.orders ≡ some o
        → o.status ≡ opened
        → m'.orders ≡ put o.id (record o { status = cancelled }) m.orders
        → m'.events ≡ m.events
        → Change m m'

  pub data Changes (m : Matcher N) : Matcher N → Type 0 where
    done : Changes m m
    then_change : {m' m'' : Matcher N} → Changes m m' → Change m' m'' → Changes m m''

  pub Changes-trans : {m m' m'' : Matcher N} → Changes m m' → Changes m' m'' → Changes m m''
  Changes-trans c done = c
  Changes-trans c (then_change d x) = then_change (Changes-trans c d) x

  -- Every order stands under its own id.
  abbrev pub IsKeyed : Matcher N → Type 0
  IsKeyed m = (id : String) (o : VirtualOrder) → get id m.orders ≡ some o → o.id ≡ id

  put-IsKeyed :
      (m m' : Matcher N) (p : VirtualOrder)
      → IsKeyed m
      → m'.orders ≡ put p.id p m.orders
      → IsKeyed m'
  put-IsKeyed m m' p k e id o h = elim (get-put_cases p.id id p o m.orders (rw e at h)) [
    | inl (same, found) ↦ rw (← found) same
    | inr (other, old) ↦ k id o old
  ]

  pub Change-IsKeyed : {m m' : Matcher N} → Change m m' → IsKeyed m → IsKeyed m'
  Change-IsKeyed (quiet e f) k = λ id o h. k id o (rw e at h)
  Change-IsKeyed {m} {m'} (add o free e f) k = put-IsKeyed m m' o k e
  Change-IsKeyed {m} {m'} (fill o found live e f) k =
      put-IsKeyed m m' (record o { status = filled }) k e
  Change-IsKeyed {m} {m'} (cancel o found live e f) k =
      put-IsKeyed m m' (record o { status = cancelled }) k e

  pub Changes-IsKeyed : {m m' : Matcher N} → Changes m m' → IsKeyed m → IsKeyed m'
  Changes-IsKeyed done k = k
  Changes-IsKeyed (then_change c x) k = Change-IsKeyed x (Changes-IsKeyed c k)

module _ {N : Type 0} ⦃num : Number N⦄ where
  -- How the settlement of a filled order ends: with an event or without, or by its cancellation.
  abbrev pub Settled : VirtualOrder → Matcher N → Matcher N → Type 0
  Settled o m m' =
      ((m'.orders ≡ m.orders)
        × ((m'.events ≡ m.events)
            ⊎ ((e : FillEvent N) × (m'.events ≡ m.events ++ (e ∷ [])) × (e.order_id ≡ o.id))))
      ⊎ ((m'.orders ≡ put o.id (record o { status = cancelled }) m.orders) × (m'.events ≡ m.events))

  fill_entry-Settled :
      (o : VirtualOrder) (a p : N) (l : String) (x : N) (m : Matcher N)
      → Settled o m (fill_entry o a p l x m)
  unfolding fill_entry emit_fill
  fill_entry-Settled o a p l x m = inl (refl, inr (_, refl, refl))

  fill_reduce-Settled :
      (o : VirtualOrder) (a p : N) (l : String) (x : N) (m : Matcher N)
      → Settled o m (fill_reduce o a p l x m)
  unfolding fill_reduce emit_fill
  fill_reduce-Settled o a p l x m =
      if_both (Settled o m) _ (inr (refl, refl)) (inl (refl, inr (_, refl, refl)))

  pub settle-Settled :
      (o : VirtualOrder) (p : N) (l : String) (m : Matcher N) → Settled o m (settle o p l m)
  unfolding settle
  settle-Settled o p l m = if_both (Settled o m) _ (inl (refl, inl refl)) (
      if_both (Settled o m) (is_entry o.role) (fill_entry-Settled o _ p l _ m)
        (fill_reduce-Settled o _ p l _ m))

  settle-Change :
      (o : VirtualOrder) (p : N) (l : String) (m : Matcher N)
      → get o.id m.orders ≡ some o
      → o.status ≡ opened
      → Change m (settle (record o { status = filled }) p l (set_status o filled m))
  settle-Change o p l m found live =
      elim (settle-Settled (record o { status = filled }) p l (set_status o filled m)) [
        | inl (e, f) ↦ fill o found live e f
        | inr (e, f) ↦ cancel o found live (e ∙ put-put _ _ _ _) f
      ]

  pub own_id :
      (m : Matcher N) (id : String) {o : VirtualOrder}
      → IsKeyed m
      → get id m.orders ≡ some o
      → get o.id m.orders ≡ some o
  own_id m id {o} k found = subst (λ x. get x m.orders ≡ some o) (sym (k id o found)) found

  fill_found-Change :
      (o : VirtualOrder) (p : N) (l : String) (m : Matcher N)
      → get o.id m.orders ≡ some o
      → Change m (fill_found p l m (some o))
  unfolding fill_found
  fill_found-Change o p l m found = elim (open_cases o) [
    | inl live ↦ rw live (settle-Change o p l m found live)
    | inr shut ↦ rw shut (quiet refl refl)
  ]

  pub fill_order-Change :
      (id : String) (p : N) (l : String) (m : Matcher N)
      → IsKeyed m
      → Change m (fill_order id p l m)
  unfolding fill_order fill_found
  fill_order-Change id p l m k = elim (Option-cases (get id m.orders)) [
    | inl gone ↦ rw (gone, fill_found) (quiet refl refl)
    | inr (o, found) ↦ rw (found, fill_found) (fill_found-Change o p l m (own_id m id k found))
  ]

  pub cancel_order-Change : (id : String) (m : Matcher N) → IsKeyed m → Change m (cancel_order id m)
  unfolding cancel_order cancel_found
  cancel_order-Change id m k = elim (Option-cases (get id m.orders)) [
    | inl gone ↦ rw (gone, cancel_found) (quiet refl refl)
    | inr (o, found) ↦
        rw (found, cancel_found)
          (elim (open_cases o) [
            | inl live ↦ rw live (cancel o (own_id m id k found) live refl refl)
            | inr shut ↦ rw shut (quiet refl refl)
          ])
  ]

  pub tick_order-Change :
      (p : N) (l : String) (m : Matcher N) (o : VirtualOrder)
      → IsKeyed m
      → Change m (tick_order p l m o)
  unfolding tick_order
  tick_order-Change p l m o k =
      let filling = fill_order-Change o.id p l m k in
      if_both (Change m) (is_protection o.role) (if_both (Change m) _ filling (quiet refl refl))
        (if_both (Change m) _ filling (quiet refl refl))

  tick_all-Changes :
      (p : N) (l : String) (os : List VirtualOrder) (m : Matcher N)
      → IsKeyed m
      → Changes m (foldl (tick_order p l) m os)
  tick_all-Changes p l [] m k = done
  tick_all-Changes p l (o ∷ os) m k =
      let one = tick_order-Change p l m o k in
      Changes-trans (then_change done one)
        (tick_all-Changes p l os (tick_order p l m o) (Change-IsKeyed one k))

  pub handle_tick-Changes :
      (symbol l : String) (m : Matcher N) → IsKeyed m → Changes m (handle_tick symbol l m)
  unfolding handle_tick
  handle_tick-Changes symbol l m k =
      let price = num.of_text l in
      if_both (Changes m) (not m.started || not_positive price) done
        (tick_all-Changes price l (keep (open_for symbol) (values m.orders)) m k)

  enroll-orders :
      (o : VirtualOrder) (m : Matcher N)
      → ((enroll o m).orders ≡ put o.id o m.orders) × ((enroll o m).events ≡ m.events)
  unfolding enroll ensure_subscribed
  enroll-orders o m = ground arith

  fill_at_once-Change :
      (o : VirtualOrder) (latest : Option String) (m : Matcher N)
      → IsKeyed m
      → Change m (fill_at_once o latest m)
  unfolding fill_at_once
  fill_at_once-Change o latest m k =
      if_both (Change m)
        ((not (is_limit o.type) && is_entry o.role)
          && not (not_positive {N = N} (of_optional latest)))
        (fill_order-Change o.id (of_optional latest) (num.to_text (of_optional latest)) m k)
        (quiet refl refl)

  pub register_order-Changes :
      (latest : String → Option String) (order : VirtualOrder) (m : Matcher N) {m' : Matcher N}
      → IsKeyed m
      → register_order latest order m ≡ ok m'
      → Changes m m'
  unfolding register_order
  register_order-Changes latest order m {m'} k e =
      let o = normalized order in
      let (orders, events) = enroll-orders o m in
      elim (Bool-cases (is_some (get order.id m.orders))) [
        | inl taken ↦ cc (rw taken at e)
        | inr free ↦
            let entered : Change m (enroll o m) = add o (none_of_is_some _ free) orders events in
            let filling =
              fill_at_once-Change o (latest o.symbol) (enroll o m) (Change-IsKeyed entered k) in
            subst (Changes m) (ok-injective (rw free at e))
              (then_change (then_change done entered) filling)
      ]
