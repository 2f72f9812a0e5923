-- ===== src/OpenPrice/Sides.antt =====
-- On which side of the entry and of the current price the stop loss stands.
use velotradex.Base.{
  ◌≡◌, refl, ◌⊎◌, inl, inr, true, false, Option, none, some, Bool-cases, both_true, some-injective,
  subst, arith,
}
use velotradex.Number.{Number, le}
use velotradex.Number.Laws.{IsOrdered}
use velotradex.OpenPrice.{
  Side, Mode, InvalidReason, OpenPriceAdjustmentInput, is_usable, crosses, crosses_if_usable,
  crosses_optional, invalid_reason_of, adjust_by_amounts, adjust_by_r, apply_open_price_adjustments,
  is_fixed,
}

module _ {N : Type 0} ⦃num : Number N⦄ where
  -- The stop loss of a buy is below the price, that of a sell above it.
  abbrev pub IsBeyond : Side → N → N → Type 0
  IsBeyond Side.buy stop price = num.lt stop price ≡ true
  IsBeyond Side.sell stop price = num.lt price stop ≡ true

  -- Two prices are positive and finite.
  abbrev pub AreUsable : N → N → Type 0
  AreUsable a b = (is_usable a ≡ true) × (is_usable b ≡ true)

  -- What a check that found no crossing shows.
  abbrev pub IsClear : Side → N → N → Type 0
  IsClear side stop price = AreUsable stop price → IsBeyond side stop price

  -- Two usable prices of which the stop loss is not beyond the other.
  abbrev pub HasCrossed : Side → N → N → Type 0
  HasCrossed side stop price = AreUsable stop price × (¬ IsBeyond side stop price)

  -- What an adjustment's verdict says of the stop loss, the entry and the current price.
  abbrev pub Tells : Side → N → N → Option N → Option InvalidReason → Type 0
  Tells side stop entry current none =
      IsClear side stop entry × ((price : N) → current ≡ some price → IsClear side stop price)
  Tells side stop entry current (some InvalidReason.crosses_entry) = HasCrossed side stop entry
  Tells side stop entry current (some InvalidReason.crosses_current) =
      (price : N) × (current ≡ some price) × HasCrossed side stop price

  module _ (order : IsOrdered N) where
    lt_of-not-le :
        (a b : N) → is_usable a ≡ true → is_usable b ≡ true → le b a ≡ false → num.lt a b ≡ true
    lt_of-not-le a b u v h =
        let fa : num.is_finite a ≡ true = ground arith in
        let fb : num.is_finite b ≡ true = ground arith in
        elim (order.total a b (order.number_of_finite a fa) (order.number_of_finite b fb)) [
          | inl l ↦ l
          | inr (inl e) ↦ ground (arith, order.eq_sym a b e)
          | inr (inr g) ↦ ground arith
        ]

    IsBeyond-crosses :
        (side : Side) (stop price : N)
        → is_usable stop ≡ true
        → is_usable price ≡ true
        → crosses side stop price ≡ false
        → IsBeyond side stop price
    IsBeyond-crosses Side.buy stop price u v h = lt_of-not-le stop price u v h
    IsBeyond-crosses Side.sell stop price u v h = lt_of-not-le price stop v u h

    crosses_if_usable-IsClear :
        (side : Side) (stop price : N)
        → crosses_if_usable side stop price ≡ false
        → IsClear side stop price
    crosses_if_usable-IsClear side stop price h (u, v) =
        IsBeyond-crosses side stop price u v (rw (u, v) at h)

    not-lt_of-le : (a b : N) → le a b ≡ true → num.lt b a ≡ true → ⊥
    not-lt_of-le a b h l = elim (Bool-cases (num.lt a b)) [
      | inl g ↦ cc (order.lt_irrefl a, order.lt_trans a b a g l)
      | inr g ↦
          let same : num.eq a b ≡ true = ground arith in
          cc (order.lt_irrefl b, order.lt-of_eq b a b l same)
    ]

    HasCrossed-crosses :
        (side : Side) (stop price : N)
        → is_usable stop ≡ true
        → is_usable price ≡ true
        → crosses side stop price ≡ true
        → HasCrossed side stop price
    HasCrossed-crosses Side.buy stop price u v h = ((u, v), not-lt_of-le price stop h)
    HasCrossed-crosses Side.sell stop price u v h = ((u, v), not-lt_of-le stop price h)

    crosses_if_usable-HasCrossed :
        (side : Side) (stop price : N)
        → crosses_if_usable side stop price ≡ true
        → HasCrossed side stop price
    crosses_if_usable-HasCrossed side stop price h =
        let (uv, c) = both_true _ _ h in
        let (u, v) = both_true _ _ uv in HasCrossed-crosses side stop price u v c

    IsClear-optional :
        (side : Side) (stop : N) (current : Option N) (price : N)
        → crosses_optional side stop current ≡ false
        → current ≡ some price
        → IsClear side stop price
    IsClear-optional side stop none price h e = cc
    IsClear-optional side stop (some q) price h e =
        subst (IsClear side stop) (some-injective e) (crosses_if_usable-IsClear side stop q h)

    HasCrossed-optional :
        (side : Side) (stop : N) (current : Option N)
        → crosses_optional side stop current ≡ true
        → (price : N) × (current ≡ some price) × HasCrossed side stop price
    HasCrossed-optional side stop none h = cc
    HasCrossed-optional side stop (some q) h = (q, refl, crosses_if_usable-HasCrossed side stop q h)

    invalid_reason_of-Tells :
        (side : Side) (stop entry : N) (current : Option N)
        → Tells side stop entry current (invalid_reason_of side stop entry current)
    unfolding invalid_reason_of
    invalid_reason_of-Tells side stop entry current =
        elim (Bool-cases (crosses_if_usable side stop entry)) [
          | inl h ↦ rw h (crosses_if_usable-HasCrossed side stop entry h)
          | inr h ↦ elim (Bool-cases (crosses_optional side stop current)) [
            | inl g ↦ rw (h, g) (HasCrossed-optional side stop current g)
            | inr g ↦
                rw (h, g)
                  (
                    crosses_if_usable-IsClear side stop entry h,
                    λ price e. IsClear-optional side stop current price g e,
                  )
          ]
        ]

    -- An adjustment by fixed amounts that is not refused leaves the stop loss on the losing side of the
    -- new entry price, and of the current price if there is one, wherever these are positive and
    -- finite; one that is refused has a stop loss that is not on the losing side of the price that its
    -- reason names. An adjustment by shares of R is never refused.
    pub apply_open_price_adjustments-Tells :
        (input : OpenPriceAdjustmentInput N)
        → let o = apply_open_price_adjustments input in
          ((o.mode ≡ Mode.fixed)
            × Tells input.side o.stop_loss o.entry_price input.current_price o.invalid_reason)
          ⊎ ((o.mode ≡ Mode.r) × (o.invalid_reason ≡ none))
    unfolding apply_open_price_adjustments adjust_by_amounts adjust_by_r
    apply_open_price_adjustments-Tells input =
        elim (Bool-cases (is_fixed input.risk_config.padding_mode)) [
          | inl h ↦ simp h (inl (refl, invalid_reason_of-Tells input.side _ _ input.current_price))
          | inr h ↦ simp h (inr (refl, refl))
        ]
