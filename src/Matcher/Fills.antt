-- ===== src/Matcher/Fills.antt =====
-- What a fill does to the order under an id and to the others.
use velotradex.Base.{
  String, ◌≡◌, refl, sym, ap, ◌∙◌, subst, ◌≢◌, ◌⊎◌, inl, inr, true, false, some, arith,
  Option-cases, text_cases, Bool-cases, some-injective, ◌||◌,
}
use velotradex.Dict.{get, put, get-put_self, get-put_ne, put-put}
use velotradex.Number.{Number, int, not_positive}
use velotradex.Matcher.{
  get_position, same_sign, signed, is_entry, fill_entry, fill_reduce, emit_fill, OrderStatus,
  filled, cancelled, VirtualOrder, Matcher, is_open, settle, set_status, fill_found, fill_order,
}
use velotradex.Matcher.Effects.{IsKeyed, open_cases, own_id}
use velotradex.Matcher.Stored.{side_of, SameSides, put-SameSides}

closed_one :
    (o o' : VirtualOrder) → is_open o.status ≡ false → some o ≡ some o' → is_open o'.status ≡ false
closed_one o o' shut e = ground arith

same_one :
    (x o : VirtualOrder) → some x ≡ some o → is_open x.status ≡ true → is_open o.status ≡ false → ⊥
same_one x o e live shut = ground arith

module _ {N : Type 0} ⦃num : Number N⦄ where
  -- There is no position of the order's symbol, or one in the order's own direction.
  abbrev pub HasNothingToClose : VirtualOrder → Matcher N → Type 0
  HasNothingToClose o m =
      let size = (get_position o.symbol m).size in
      (num.eq size (int 0) || same_sign size (signed o.side (num.of_text o.amount))) ≡ true

  -- How a fill ends: the order is filled, or cancelled as one that was to close a position.
  abbrev pub Ending : VirtualOrder → OrderStatus → Matcher N → Type 0
  Ending o s m =
      (s ≡ filled) ⊎ ((s ≡ cancelled) × (is_entry o.role ≡ false) × HasNothingToClose o m)

  fill_reduce-Ending :
      (o : VirtualOrder) (a p : N) (l : String) (x : N) (m : Matcher N)
      → is_entry o.role ≡ false
      → a ≡ num.of_text o.amount
      → ((fill_reduce o a p l x m).orders ≡ m.orders)
        ⊎ (((fill_reduce o a p l x m).orders ≡ put o.id (record o { status = cancelled }) m.orders)
            × (is_entry o.role ≡ false)
            × HasNothingToClose o m)
  unfolding fill_reduce emit_fill
  fill_reduce-Ending o a p l x m k e =
      elim (Bool-cases (
        num.eq (get_position o.symbol m).size (int 0)
        || same_sign (get_position o.symbol m).size (signed o.side a))) [
          | inl idle ↦ rw idle (inr (refl, k, rw (← e) idle))
          | inr busy ↦ rw busy (inl refl)
        ]

  settle-Ending :
      (o : VirtualOrder) (p : N) (l : String) (m : Matcher N)
      → ((settle o p l m).orders ≡ m.orders)
        ⊎ (((settle o p l m).orders ≡ put o.id (record o { status = cancelled }) m.orders)
            × (is_entry o.role ≡ false)
            × HasNothingToClose o m)
  unfolding settle fill_entry emit_fill
  settle-Ending o p l m =
      elim (Bool-cases
        (not_positive (num.of_text o.amount) || not_positive (m.multiplier o.symbol))) [
          | inl bad ↦ rw bad (inl refl)
          | inr good ↦ elim (Bool-cases (is_entry o.role)) [
            | inl entry ↦ rw (good, entry) (inl refl)
            | inr other ↦
                elim (fill_reduce-Ending o (num.of_text o.amount) p l (m.multiplier o.symbol) m
                  other refl) [
                    | inl e ↦ rw (good, other) (inl e)
                    | inr (e, k, idle) ↦ rw (good, other) (inr (e, refl, idle))
                  ]
          ]
        ]

  -- A fill leaves the orders as they are, or ends the one order under the id, which was open.
  abbrev Filling : String → Matcher N → Matcher N → Type 0
  Filling id m m' =
      ((m'.orders ≡ m.orders)
        × ((o : VirtualOrder) → get id m.orders ≡ some o → is_open o.status ≡ false))
      ⊎ ((o : VirtualOrder) × (s : OrderStatus) × (get id m.orders ≡ some o)
          × (o.id ≡ id)
          × (is_open o.status ≡ true)
          × Ending o s m
          × (m'.orders ≡ put id (record o { status = s }) m.orders))

  settle-Filling :
      (o : VirtualOrder) (p : N) (l : String) (m : Matcher N)
      → get o.id m.orders ≡ some o
      → is_open o.status ≡ true
      → Filling o.id m (settle (record o { status = filled }) p l (set_status o filled m))
  settle-Filling o p l m found live =
      elim (settle-Ending (record o { status = filled }) p l (set_status o filled m)) [
        | inl e ↦ inr (o, filled, found, refl, live, inl refl, e)
        | inr (e, k, idle) ↦
            inr (o, cancelled, found, refl, live, inr (refl, k, idle), e ∙ put-put _ _ _ _)
      ]

  fill_order-Filling :
      (id : String) (p : N) (l : String) (m : Matcher N)
      → IsKeyed m
      → Filling id m (fill_order id p l m)
  unfolding fill_order fill_found
  fill_order-Filling id p l m k = elim (Option-cases (get id m.orders)) [
    | inl gone ↦ rw (gone, fill_found) (inl (refl, λ o h. cc))
    | inr (o, found) ↦ elim (open_cases o) [
      | inl live ↦
          let same : settle (record o { status = filled }) p l (set_status o filled m)
              ≡ fill_order id p l m =
            rw (found, fill_found, live) refl in
          subst (λ x. Filling x m (fill_order id p l m)) (k id o found)
            (subst (Filling o.id m) same
              (settle-Filling o p l m (own_id m id k found) (rw live refl)))
      | inr shut ↦ rw (found, fill_found, shut) (inl (refl, λ o' e. closed_one o o' shut e))
    ]
  ]

  module _ (id : String) (o : VirtualOrder) where
    -- The order is as it was.
    abbrev pub IsSame : Matcher N → Type 0
    IsSame m = get id m.orders ≡ some o

    -- The order is filled, or it was to close a position and is cancelled for the reason `Why`; its
    -- terms are as they were.
    abbrev pub IsClosed : Type 0 → Matcher N → Type 0
    IsClosed Why m =
        (get id m.orders ≡ some (record o { status = filled }))
        ⊎ ((get id m.orders ≡ some (record o { status = cancelled }))
            × (is_entry o.role ≡ false)
            × Why)

    pub IsClosed-map :
        {Why Because : Type 0} (m : Matcher N)
        → (Why → Because)
        → IsClosed Why m
        → IsClosed Because m
    IsClosed-map m f (inl h) = inl h
    IsClosed-map m f (inr (h, role, why)) = inr (h, role, f why)

    pub other_fill :
        (j : String) (p : N) (l : String) (m : Matcher N)
        → IsKeyed m
        → j ≢ id
        → get id (fill_order j p l m).orders ≡ get id m.orders
    other_fill j p l m k ne = elim (fill_order-Filling j p l m k) [
      | inl (e, f) ↦ ap (get id) e
      | inr (x, s, found, own, live, end, e) ↦ ap (get id) e ∙ get-put_ne j id _ m.orders ne
    ]

    pub own_fill :
        (p : N) (l : String) (m : Matcher N)
        → IsKeyed m
        → IsSame m
        → is_open o.status ≡ true
        → IsClosed (HasNothingToClose o m) (fill_order id p l m)
    own_fill p l m k h live = elim (fill_order-Filling id p l m k) [
      | inl (e, f) ↦ absurd (same_one o o refl live (f o h))
      | inr (x, s, found, own, was, end, e) ↦
          let same : x ≡ o = some-injective (sym found ∙ h) in
          ended x s same end (ap (get id) e ∙ get-put_self id _ m.orders)
    ]
      where
        ended :
            (x : VirtualOrder) (s : OrderStatus)
            → x ≡ o
            → Ending x s m
            → get id (fill_order id p l m).orders ≡ some (record x { status = s })
            → IsClosed (HasNothingToClose o m) (fill_order id p l m)
        ended x s same (inl e) now = inl (
            now
            ∙ ap (λ (y : VirtualOrder). some (record y { status = s })) same
            ∙ ap (λ t. some (record o { status = t })) e)
        ended x s same (inr (e, k, idle)) now = inr (
          now
              ∙ ap (λ (y : VirtualOrder). some (record y { status = s })) same
              ∙ ap (λ t. some (record o { status = t })) e,
          subst (λ (y : VirtualOrder). is_entry y.role ≡ false) same k,
          subst (λ y. HasNothingToClose y m) same idle,
        )

    -- What is closed stays as it is.
    fill-keeps :
        (j : String) (p : N) (l : String) (m : Matcher N) (now : VirtualOrder)
        → IsKeyed m
        → is_open now.status ≡ false
        → get id m.orders ≡ some now
        → get id (fill_order j p l m).orders ≡ some now
    fill-keeps j p l m now k shut h = elim (text_cases j id) [
      | inr ne ↦ other_fill j p l m k ne ∙ h
      | inl e ↦ elim (fill_order-Filling j p l m k) [
        | inl (same, f) ↦ ap (get id) same ∙ h
        | inr (x, s, found, own, live, end, after) ↦
            absurd (same_one x now (sym found ∙ ap (λ y. get y m.orders) e ∙ h) live shut)
      ]
    ]

    pub fill-IsClosed :
        (j : String) (p : N) (l : String) (m : Matcher N) (Why : Type 0)
        → IsKeyed m
        → IsClosed Why m
        → IsClosed Why (fill_order j p l m)
    fill-IsClosed j p l m Why k (inl h) =
        inl (fill-keeps j p l m (record o { status = filled }) k refl h)
    fill-IsClosed j p l m Why k (inr (h, role, why)) =
        inr (fill-keeps j p l m (record o { status = cancelled }) k refl h, role, why)

  pub fill_order-SameSides :
      (id : String) (p : N) (l : String) (m : Matcher N)
      → IsKeyed m
      → SameSides m.orders (fill_order id p l m).orders
  fill_order-SameSides id p l m k j = elim (fill_order-Filling id p l m k) [
    | inl (e, f) ↦ ap (λ d. side_of (get j d)) e
    | inr (x, s, found, own, live, end, e) ↦
        ap (λ d. side_of (get j d)) e
        ∙ subst
            (λ y.
              side_of (get j (put y (record x { status = s }) m.orders)) ≡ side_of (get j m.orders))
            own
            (put-SameSides x (record x { status = s }) m.orders
              (subst (λ y. get y m.orders ≡ some x) (sym own) found) refl j)
  ]
