-- ===== src/Matcher/Progress.antt =====
-- What becomes of one order by the changes of the engine.
use velotradex.Base.{String, ◌≡◌, refl, ap, ◌∙◌, subst, ◌≢◌, inl, inr, some, arith, text_cases}
use velotradex.Dict.{get, put, get-put_self, get-put_ne}
use velotradex.Matcher.{OrderStatus, opened, filled, cancelled, VirtualOrder, Matcher}
use velotradex.Matcher.Effects.{Change, quiet, add, fill, cancel, Changes, done, then_change}

-- An open order may be filled or cancelled; both are final.
abbrev pub Progress : OrderStatus → OrderStatus → Type 0
Progress opened s = Unit
Progress filled filled = Unit
Progress cancelled cancelled = Unit
Progress _ _ = ⊥

Progress-refl : (s : OrderStatus) → Progress s s
Progress-refl opened = tt
Progress-refl filled = tt
Progress-refl cancelled = tt

Progress-trans : (r s t : OrderStatus) → Progress r s → Progress s t → Progress r t
Progress-trans r s t h k = ground arith

module _ {N : Type 0} where
  -- The order is still registered, with its terms, and its status has only progressed.
  abbrev pub IsKept : String → VirtualOrder → Matcher N → Type 0
  IsKept id o m =
      (o' : VirtualOrder) × (get id m.orders ≡ some o')
      × (o' ≡ record o { status = o'.status })
      × Progress o.status o'.status

  IsKept-put :
      (id : String) (o p : VirtualOrder) (s : OrderStatus) (m m' : Matcher N)
      → get id m.orders ≡ some o
      → get p.id m.orders ≡ some p
      → p.status ≡ opened
      → m'.orders ≡ put p.id (record p { status = s }) m.orders
      → IsKept id o m'
  IsKept-put id o p s m m' found there live e = elim (text_cases p.id id) [
    | inl same ↦
        let now = record p { status = s } in
        let p≡o : p ≡ o = cc (there, found, ap (λ x. get x m.orders) same) in
        (
          now,
          ap (get id) e
              ∙ subst (λ x. get x (put p.id now m.orders) ≡ some now) same
                  (get-put_self p.id now m.orders),
          ap (λ (x : VirtualOrder). record x { status = s }) p≡o,
          subst (λ (x : VirtualOrder). Progress x.status s) p≡o (rw live tt),
        )
    | inr other ↦ (
      o,
      ap (get id) e ∙ get-put_ne p.id id _ m.orders other ∙ found,
      refl,
      Progress-refl o.status,
    )
  ]

  pub Change-IsKept :
      (id : String) (o : VirtualOrder) {m m' : Matcher N}
      → get id m.orders ≡ some o
      → Change m m'
      → IsKept id o m'
  Change-IsKept id o {m} {m'} h (quiet e f) = (o, rw e h, refl, Progress-refl o.status)
  Change-IsKept id o {m} {m'} h (add p free e f) =
      let other : p.id ≢ id = λ same. cc (free, h, ap (λ x. get x m.orders) same) in
      (o, ap (get id) e ∙ get-put_ne p.id id _ m.orders other ∙ h, refl, Progress-refl o.status)
  Change-IsKept id o {m} {m'} h (fill p there live e f) =
      IsKept-put id o p filled m m' h there live e
  Change-IsKept id o {m} {m'} h (cancel p there live e f) =
      IsKept-put id o p cancelled m m' h there live e

  pub Changes-IsKept :
      (id : String) (o : VirtualOrder) {m m' : Matcher N}
      → get id m.orders ≡ some o
      → Changes m m'
      → IsKept id o m'
  Changes-IsKept id o h done = (o, h, refl, Progress-refl o.status)
  Changes-IsKept id o h (then_change c x) =
      let (p, there, terms, moved) = Changes-IsKept id o h c in
      let (q, here, terms', moved') = Change-IsKept id p there x in
      (
        q,
        here,
        terms' ∙ ap (λ (y : VirtualOrder). record y { status = q.status }) terms,
        Progress-trans o.status p.status q.status moved moved',
      )
