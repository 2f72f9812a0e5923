-- ===== src/Matcher/Lifecycle.antt =====
-- What holds of an order and of the emitted events through any sequence of the engine's public
-- operations.
use velotradex.Base.{
  String, ◌≡◌, refl, sym, ap, ◌∙◌, ◌≢◌, inl, inr, Option, none, some, List, append_assoc,
  append-nil, [], ◌∷◌, ◌++◌, arith, ok, All, All-append, All-map,
}
use velotradex.Dict.{IsUnique, put-IsUnique, get, put, get-put_self}
use velotradex.Number.{Number}
use velotradex.Matcher.{
  OrderStatus, opened, filled, VirtualOrder, FillEvent, Matcher, handle_tick, register_order,
  cancel_order, start, stop, new,
}
use velotradex.Matcher.Effects.{
  Change, quiet, add, fill, cancel, Changes, done, then_change, IsKeyed, Change-IsKeyed,
  Changes-IsKeyed, Changes-trans, register_order-Changes, handle_tick-Changes, cancel_order-Change,
}
use velotradex.Matcher.Progress.{Progress, IsKept, Change-IsKept, Changes-IsKept}

module _ {N : Type 0} where
  -- The event tells of an order that is filled.
  abbrev pub IsBacked : Matcher N → FillEvent N → Type 0
  IsBacked m e = (o : VirtualOrder) × (get e.order_id m.orders ≡ some o) × (o.status ≡ filled)

  -- No two events tell of one order.
  abbrev pub AreDistinct : List (FillEvent N) → Type 0
  AreDistinct [] = Unit
  AreDistinct (e ∷ es) = All (λ (x : FillEvent N). x.order_id ≢ e.order_id) es × AreDistinct es

  -- Each order stands under its id, once; each event tells of a filled order, and of no other event's.
  pub record IsConsistent (m : Matcher N) : Type 0 where
    pub keyed : IsKeyed m
    pub unique : IsUnique m.orders
    pub backed : All (IsBacked m) m.events
    pub once : AreDistinct m.events

  AreDistinct-append :
      (es : List (FillEvent N)) (e : FillEvent N)
      → AreDistinct es
      → All (λ (x : FillEvent N). e.order_id ≢ x.order_id) es
      → AreDistinct (es ++ (e ∷ []))
  AreDistinct-append [] e d a = (tt, tt)
  AreDistinct-append (x ∷ es) e (h, d) (k, a) =
      (All-append _ es (e ∷ []) h (k, tt), AreDistinct-append es e d a)

  Change-IsUnique : {m m' : Matcher N} → Change m m' → IsUnique m.orders → IsUnique m'.orders
  Change-IsUnique (quiet e f) u = rw e u
  Change-IsUnique (add o free e f) u = rw e (put-IsUnique _ _ _ u)
  Change-IsUnique (fill o found live e f) u = rw e (put-IsUnique _ _ _ u)
  Change-IsUnique (cancel o found live e f) u = rw e (put-IsUnique _ _ _ u)

  -- What was filled stays so.
  Change-IsBacked :
      {m m' : Matcher N} → Change m m' → (e : FillEvent N) → IsBacked m e → IsBacked m' e
  Change-IsBacked c e (o, found, was) =
      let (p, there, terms, moved) = Change-IsKept e.order_id o found c in
      (p, there, filled_stays o.status p.status was moved)
    where
      filled_stays : (s t : OrderStatus) → s ≡ filled → Progress s t → t ≡ filled
      filled_stays s t h k = ground arith

  not_filled_yet :
      (m : Matcher N) (o : VirtualOrder) (e : FillEvent N)
      → get o.id m.orders ≡ some o
      → o.status ≡ opened
      → IsBacked m e
      → o.id ≢ e.order_id
  not_filled_yet m o e found live (p, there, was) same =
      let p≡o : o ≡ p = cc (found, there, ap (λ x. get x m.orders) same) in
      cc (live, was, ap (λ (x : VirtualOrder). x.status) p≡o)

  IsBacked-later :
      {m m' : Matcher N} (es : List (FillEvent N))
      → Change m m'
      → All (IsBacked m) es
      → All (IsBacked m') es
  IsBacked-later es c = All-map es (Change-IsBacked c)

  IsBacked-same :
      {m m' : Matcher N}
      → Change m m'
      → m'.events ≡ m.events
      → All (IsBacked m) m.events
      → All (IsBacked m') m'.events
  IsBacked-same {m} {m'} c f h = rw f (IsBacked-later m.events c h)

  same_events :
      (m m' : Matcher N) → Change m m' → m'.events ≡ m.events → IsConsistent m → IsConsistent m'
  same_events m m' c f v = record {
    keyed = Change-IsKeyed c v.keyed;
    unique = Change-IsUnique c v.unique;
    backed = IsBacked-same c f v.backed;
    once = rw f v.once;
  }

  one_more :
      (m m' : Matcher N) (o : VirtualOrder) (e : FillEvent N)
      → Change m m'
      → get o.id m.orders ≡ some o
      → o.status ≡ opened
      → m'.orders ≡ put o.id (record o { status = filled }) m.orders
      → m'.events ≡ m.events ++ (e ∷ [])
      → e.order_id ≡ o.id
      → IsConsistent m
      → IsConsistent m'
  one_more m m' o e c found live now told own v =
      let backed_now : IsBacked m' e = (
        record o { status = filled },
        rw own (ap (get o.id) now ∙ get-put_self o.id (record o { status = filled }) m.orders),
        refl,
      ) in
      let fresh : All (λ (x : FillEvent N). e.order_id ≢ x.order_id) m.events =
        All-map m.events (λ x b same. not_filled_yet m o x found live b (sym own ∙ same))
          v.backed in
      record {
        keyed = Change-IsKeyed c v.keyed;
        unique = Change-IsUnique c v.unique;
        backed = rw told (
            All-append (IsBacked m') m.events (e ∷ []) (IsBacked-later m.events c v.backed)
              (backed_now, tt));
        once = rw told (AreDistinct-append m.events e v.once fresh);
      }

  Change-IsConsistent : {m m' : Matcher N} → Change m m' → IsConsistent m → IsConsistent m'
  Change-IsConsistent {m} {m'} (quiet e f) v = same_events m m' (quiet e f) f v
  Change-IsConsistent {m} {m'} (add o free e f) v = same_events m m' (add o free e f) f v
  Change-IsConsistent {m} {m'} (cancel o found live e f) v =
      same_events m m' (cancel o found live e f) f v
  Change-IsConsistent {m} {m'} (fill o found live e (inl f)) v =
      same_events m m' (fill o found live e (inl f)) f v
  Change-IsConsistent {m} {m'} (fill o found live e (inr (x, told, own))) v =
      one_more m m' o x (fill o found live e (inr (x, told, own))) found live e told own v

  Changes-IsConsistent : {m m' : Matcher N} → Changes m m' → IsConsistent m → IsConsistent m'
  Changes-IsConsistent done v = v
  Changes-IsConsistent (then_change c x) v = Change-IsConsistent x (Changes-IsConsistent c v)

  -- The engine as it would be had it emitted only the events `es`.
  abbrev pub with_events : List (FillEvent N) → Matcher N → Matcher N
  with_events es m = record m { events = es }

  -- What a change does does not depend on the events of before.
  later_events :
      (past es : List (FillEvent N)) {m m' : Matcher N}
      → m.events ≡ past ++ es
      → Change m m'
      → (es' : List (FillEvent N)) × (m'.events ≡ past ++ es')
        × Change (with_events es m) (with_events es' m')
  later_events past es h (quiet e f) = (es, f ∙ h, quiet e refl)
  later_events past es h (add o free e f) = (es, f ∙ h, add o free e refl)
  later_events past es h (cancel o found live e f) = (es, f ∙ h, cancel o found live e refl)
  later_events past es h (fill o found live e (inl f)) = (es, f ∙ h, fill o found live e (inl refl))
  later_events past es h (fill o found live e (inr (x, told, own))) = (
    es ++ (x ∷ []),
    told ∙ ap (λ ys. ys ++ (x ∷ [])) h ∙ append_assoc past es (x ∷ []),
    fill o found live e (inr (x, refl, own)),
  )

  all_later_events :
      (past es : List (FillEvent N)) {m m' : Matcher N}
      → m.events ≡ past ++ es
      → Changes m m'
      → (es' : List (FillEvent N)) × (m'.events ≡ past ++ es')
        × Changes (with_events es m) (with_events es' m')
  all_later_events past es h done = (es, h, done)
  all_later_events past es h (then_change c x) =
      let (es', told, c') = all_later_events past es h c in
      let (es'', told', x') = later_events past es' told x in (es'', told', then_change c' x')

module _ {N : Type 0} ⦃num : Number N⦄ where
  -- The public operations that change the state, but for `stop`
  pub data Step (m : Matcher N) : Matcher N → Type 0 where
    started : Step m (start m)
    registered :
        {m' : Matcher N} (latest : String → Option String) (order : VirtualOrder)
        → register_order latest order m ≡ ok m'
        → Step m m'
    withdrawn : (id : String) → Step m (cancel_order id m)
    ticked : (symbol last_price : String) → Step m (handle_tick symbol last_price m)

  -- What is reached without a call of `stop`
  pub data Session (m : Matcher N) : Matcher N → Type 0 where
    here : Session m m
    next : {m' m'' : Matcher N} → Session m m' → Step m' m'' → Session m m''

  -- What is reached by any of the public operations, with the events that had been emitted when
  -- `stop` was last called, or none if it was not
  pub data Reach (m : Matcher N) : List (FillEvent N) → Matcher N → Type 0 where
    unstopped : {m' : Matcher N} → Session m m' → Reach m [] m'
    stopped :
        {past : List (FillEvent N)} {m' m'' : Matcher N}
        → Reach m past m'
        → Session (stop m') m''
        → Reach m m'.events m''

  Step-Changes : {m m' : Matcher N} → IsKeyed m → Step m m' → Changes m m'
  unfolding start
  Step-Changes k started = then_change done (quiet refl refl)
  Step-Changes {m} k (registered latest order e) = register_order-Changes latest order m k e
  Step-Changes {m} k (withdrawn id) = then_change done (cancel_order-Change id m k)
  Step-Changes {m} k (ticked symbol last) = handle_tick-Changes symbol last m k

  Session-Changes : {m m' : Matcher N} → IsKeyed m → Session m m' → Changes m m'
  Session-Changes k here = done
  Session-Changes k (next r s) =
      let before = Session-Changes k r in
      Changes-trans before (Step-Changes (Changes-IsKeyed before k) s)

  pub Session-IsConsistent : {m m' : Matcher N} → IsConsistent m → Session m m' → IsConsistent m'
  Session-IsConsistent v r = Changes-IsConsistent (Session-Changes v.keyed r) v

  stop-IsKeyed : (m : Matcher N) → IsKeyed (stop m)
  unfolding stop get
  stop-IsKeyed m id o h = cc

  stop-IsConsistent : (m : Matcher N) → IsConsistent (with_events [] (stop m))
  unfolding stop get
  stop-IsConsistent m = record { keyed = λ id o h. cc; unique = tt; backed = tt; once = tt }

  stop-events : (m : Matcher N) → (stop m).events ≡ m.events ++ []
  unfolding stop
  stop-events m = sym (append-nil m.events)

  -- Through every sequence of the public operations from a consistent engine, `stop` included: the
  -- events emitted before the last call of `stop` are followed by those since, and seen with the
  -- latter alone the engine is consistent. Each order stands under its id and none twice, each fill
  -- emitted since tells of an order whose status is filled, and no order is told of twice since.
  pub Reach-IsConsistent :
      {past : List (FillEvent N)} {m m' : Matcher N}
      → IsConsistent m
      → Reach m past m'
      → (since : List (FillEvent N)) × (m'.events ≡ past ++ since)
        × IsConsistent (with_events since m')
  Reach-IsConsistent {m} {m'} v (unstopped r) = (m'.events, refl, Session-IsConsistent v r)
  Reach-IsConsistent v (stopped {m' = m1} r s) =
      let (since, told, c) =
        all_later_events m1.events [] (stop-events m1) (Session-Changes (stop-IsKeyed m1) s) in
      (since, told, Changes-IsConsistent c (stop-IsConsistent m1))

  -- Until `stop` is called, through every sequence of the other public operations on an engine that
  -- is consistent with the events since the last `stop`, a registered order stays registered under its id with all of its terms, and its status
  -- changes at most from open to filled or to cancelled: no order is ever reopened, or filled after
  -- it was cancelled. `stop` then forgets the order.
  pub Session-IsKept :
      (id : String) (o : VirtualOrder) {m m' : Matcher N} (since : List (FillEvent N))
      → IsConsistent (with_events since m)
      → get id m.orders ≡ some o
      → Session m m'
      → IsKept id o m' × (get id (stop m').orders ≡ none)
  unfolding stop get
  Session-IsKept id o since v found r =
      (Changes-IsKept id o found (Session-Changes v.keyed r), refl)

  pub new-IsConsistent : (multiplier : String → N) → IsConsistent (new multiplier)
  unfolding new get
  new-IsConsistent multiplier = record { keyed = λ id o h. cc; unique = tt; backed = tt; once = tt }
