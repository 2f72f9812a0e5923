-- ===== src/EntryDecision/Slippage.antt =====
-- How far a market entry may be from the price of the signal.
use velotradex.Base.{
  ◌≡◌, ◌⊎◌, ◌↔◌, inl, inr, refl, true, false, ◌&&◌, Option, none, some, Bool-cases, some-injective,
  arith, both_true, if◌then◌else◌,
}
use velotradex.Number.{Number, int, le, positive}
use velotradex.Number.Laws.{IsOrdered, HasDifferences, le_trans}
use velotradex.EntryDecision.{
  Side, buy, sell, DecisionPrice, snapshot, live, select_entry_decision_price, usable_tolerance,
  is_market_entry_price,
}

module _ {N : Type 0} ⦃num : Number N⦄ where
  open num use {is_finite, lt, sub}

  -- A snapshot price that is finite and positive decides, and the live price without such a one.
  abbrev pub IsChosen : N → Option N → DecisionPrice N → Type 0
  IsChosen live_price snapshot_price d =
      ((p : N) × (snapshot_price ≡ some p)
        × (is_finite p ≡ true)
        × (lt (int 0) p ≡ true)
        × (d ≡ record { price = p; source = snapshot }))
      ⊎ (((p : N) → snapshot_price ≡ some p → (is_finite p && positive p) ≡ false)
          × (d ≡ record { price = live_price; source = live }))

  -- How far a price may be on the wrong side of the entry: a tolerance that is not positive is none.
  abbrev pub allowed : N → N
  allowed tolerance = if lt (int 0) tolerance then tolerance else int 0

  -- How far it is: a buy is worse above the entry, a sell below.
  abbrev pub worse_by : Side → N → N → N
  worse_by buy price entry = sub price entry
  worse_by sell price entry = sub entry price

  abbrev pub IsAcceptable : Side → N → N → N → Type 0
  IsAcceptable side price entry tolerance =
      (is_finite price ≡ true)
      × (is_finite entry ≡ true)
      × (le (worse_by side price entry) (allowed tolerance) ≡ true)

  chosen :
      (live_price : N) (s : Option N)
      → IsChosen live_price s (select_entry_decision_price live_price s)
  unfolding select_entry_decision_price
  chosen live_price none = inr (λ p e. cc, refl)
  chosen live_price (some p) = elim (Bool-cases (is_finite p && positive p)) [
    | inl usable ↦
        let (finite, above) = both_true (is_finite p) (positive p) usable in
        rw usable (inl (p, refl, finite, above, refl))
    | inr unusable ↦ rw unusable (inr (λ q e. rw (← some-injective e) unusable, refl))
  ]

  module _ (o : IsOrdered N) (h : HasDifferences N) where
    usable_tolerance-allowed : (t : N) → usable_tolerance t ≡ allowed t
    usable_tolerance-allowed t = ground (
      arith,
      o.zero_number,
      o.numbers_of_lt (int 0) t,
      o.lt-of_eq (int 0) t (int 0),
      o.lt_irrefl (int 0),
    )

    allowed_nonneg : (t : N) → le (int 0) (allowed t) ≡ true
    allowed_nonneg t = ground (arith, o.zero_number)

    accepted :
        (side : Side) (price entry tolerance : N)
        → (is_market_entry_price (record {
          side = side;
          current_price = price;
          entry_price = entry;
          tolerance = tolerance;
        })
            ≡ true)
          ↔ IsAcceptable side price entry tolerance
    unfolding is_market_entry_price
    accepted buy price entry tolerance = rw (usable_tolerance-allowed tolerance) (
        ground (
          arith,
          h.sub-of_le price entry,
          le_trans o (sub price entry) (int 0) (allowed tolerance),
          allowed_nonneg tolerance,
        ))
    accepted sell price entry tolerance = rw (usable_tolerance-allowed tolerance) (
        ground (
          arith,
          h.sub-of_le entry price,
          le_trans o (sub entry price) (int 0) (allowed tolerance),
          allowed_nonneg tolerance,
        ))

    -- The price that decides is the snapshot price if there is one that is finite and positive, and
    -- the live price otherwise; at this price an entry is a market order exactly when the price and
    -- the entry are finite and the price is worse than the entry by no more than the tolerance, where
    -- a tolerance that is not positive counts as none.
    pub is_market_entry_price_iff :
        (live_price : N) (snapshot_price : Option N) (side : Side) (entry tolerance : N)
        → let d = select_entry_decision_price live_price snapshot_price in
          IsChosen live_price snapshot_price d
          × ((is_market_entry_price (record {
            side = side;
            current_price = d.price;
            entry_price = entry;
            tolerance = tolerance;
          })
                ≡ true)
              ↔ IsAcceptable side d.price entry tolerance)
    is_market_entry_price_iff live_price snapshot_price side entry tolerance = (
      chosen live_price snapshot_price,
      accepted side (select_entry_decision_price live_price snapshot_price).price entry tolerance,
    )
