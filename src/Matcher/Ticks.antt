-- ===== src/Matcher/Ticks.antt =====
-- Which orders a tick fills.
use velotradex.Base.{
  String, ◌≡◌, refl, sym, ap, ◌∙◌, subst, ◌≢◌, inl, inr, Bool, true, false, not, ◌&&◌, ◌||◌, some,
  List, [], ◌∷◌, ◌++◌, arith, foldl, keep, Bool-cases, text_cases, if_both, if◌then◌else◌,
}
use velotradex.Dict.{Dict, get, values}
use velotradex.Number.{Number, not_positive}
use velotradex.Matcher.{
  VirtualOrder, Matcher, FillEvent, is_open, is_protection, is_limit, should_trigger_protection,
  should_fill_limit, fill_order, tick_order, open_for, handle_tick,
}
use velotradex.Matcher.Effects.{IsKeyed, fill_order-Change, Change-IsKeyed}
use velotradex.Matcher.Lifecycle.{IsConsistent, with_events}
use velotradex.Matcher.Stored.{
  SameSides, parent_side-SameSides, AreStored, values-AreStored, keep-AreStored, Has, values-Has,
  keep-Has,
}
use velotradex.Matcher.Fills.{
  IsClosed, IsClosed-map, HasNothingToClose, IsSame, other_fill, own_fill, fill-IsClosed,
  fill_order-SameSides,
}

module _ {N : Type 0} ⦃num : Number N⦄ where
  -- The condition on which an order is filled at a price: a protection by its trigger, any other
  -- order by its limit.
  unfoldable pub triggers : VirtualOrder → N → Dict VirtualOrder → Bool
  triggers o price d =
      if is_protection o.role
      then should_trigger_protection o price d
      else is_limit o.type && should_fill_limit o price

  tick_order-triggers :
      (price : N) (last : String) (m : Matcher N) (o : VirtualOrder)
      → tick_order price last m o
        ≡ (if triggers o price m.orders then fill_order o.id price last m else m)
  unfolding triggers tick_order
  tick_order-triggers price last m o = elim (Bool-cases (is_protection o.role)) [
    | inl e ↦ rw e refl
    | inr e ↦ rw e refl
  ]

  triggers-SameSides :
      (o : VirtualOrder) (price : N) (d d' : Dict VirtualOrder)
      → SameSides d d'
      → triggers o price d' ≡ triggers o price d
  unfolding triggers should_trigger_protection
  triggers-SameSides o price d d' same = rw (parent_side-SameSides o d d' same) refl

  -- When the loop came to the order there was nothing for it to close.
  abbrev pub FoundNothing : N → String → VirtualOrder → Matcher N → List VirtualOrder → Type 0
  FoundNothing price last o m os =
      (before : List VirtualOrder) × (after : List VirtualOrder) × (os ≡ before ++ (o ∷ after))
      × HasNothingToClose o (foldl (tick_order price last) m before)

  module _ (price : N) (last : String) (d : Dict VirtualOrder) (id : String)
      (o : VirtualOrder) where
    -- What the loop keeps: the orders stand under their ids and have the sides of the start.
    abbrev Loop : Matcher N → Type 0
    Loop m = IsKeyed m × SameSides d m.orders

    round-Loop : (m : Matcher N) (x : VirtualOrder) → Loop m → Loop (tick_order price last m x)
    round-Loop m x (k, same) = rw (tick_order-triggers price last m x) (
        if_both Loop (triggers x price m.orders)
          (
            Change-IsKeyed (fill_order-Change x.id price last m k) k,
            λ p. fill_order-SameSides x.id price last m k p ∙ same p,
          )
          (k, same))

    round-IsClosed :
        (m : Matcher N) (x : VirtualOrder) (Why : Type 0)
        → Loop m
        → IsClosed id o Why m
        → IsClosed id o Why (tick_order price last m x)
    round-IsClosed m x Why (k, same) h =
        rw (tick_order-triggers price last m x)
          (if_both (IsClosed id o Why) _ (fill-IsClosed id o x.id price last m Why k h) h)

    Loop-IsClosed :
        (m : Matcher N) (os : List VirtualOrder) (Why : Type 0)
        → Loop m
        → IsClosed id o Why m
        → IsClosed id o Why (foldl (tick_order price last) m os)
    Loop-IsClosed m [] Why v h = h
    Loop-IsClosed m (x ∷ os) Why v h =
        Loop-IsClosed (tick_order price last m x) os Why (round-Loop m x v)
          (round-IsClosed m x Why v h)

    -- A round for another order leaves this one alone.
    other_round :
        (m : Matcher N) (x : VirtualOrder)
        → Loop m
        → x.id ≢ id
        → get id (tick_order price last m x).orders ≡ get id m.orders
    other_round m x (k, same) ne = rw (tick_order-triggers price last m x) (
        if_both (λ (y : Matcher N). get id y.orders ≡ get id m.orders) _
          (other_fill id o x.id price last m k ne) refl)

    stored_one : (x : VirtualOrder) → x.id ≡ id → get x.id d ≡ some x → get id d ≡ some o → o ≡ x
    stored_one x e st found = cc (ap (λ y. get y d) e)

    not_first :
        (x : VirtualOrder) (os : List VirtualOrder)
        → o.id ≡ id
        → x.id ≢ id
        → Has o (x ∷ os)
        → Has o os
    not_first x os own ne (inl e) = absurd (ne (ap (λ (y : VirtualOrder). y.id) (sym e) ∙ own))
    not_first x os own ne (inr h) = h

    -- In the round of the order itself its condition is what it was at the start.
    condition_now :
        (m : Matcher N) (x : VirtualOrder)
        → Loop m
        → o ≡ x
        → triggers x price m.orders ≡ triggers o price d
    condition_now m x (k, same) e =
        triggers-SameSides x price d m.orders same ∙ ap (λ y. triggers y price d) (sym e)

    firing_round :
        (m : Matcher N) (x : VirtualOrder)
        → Loop m
        → x.id ≡ id
        → triggers o price d ≡ true
        → get x.id d ≡ some x
        → get id d ≡ some o
        → IsSame id o m
        → is_open o.status ≡ true
        → IsClosed id o (HasNothingToClose o m) (tick_order price last m x)
    firing_round m x v e t st found here live =
        let now = condition_now m x v (stored_one x e st found) ∙ t in
        let round : tick_order price last m x ≡ fill_order x.id price last m =
          rw (tick_order-triggers price last m x, now) refl in
        subst (IsClosed id o (HasNothingToClose o m)) (sym round) (
          subst (λ y. IsClosed id o (HasNothingToClose o m) (fill_order y price last m)) (sym e)
            (own_fill id o price last m v.0 here live))

    resting_round :
        (m : Matcher N) (x : VirtualOrder)
        → Loop m
        → x.id ≡ id
        → triggers o price d ≡ false
        → get x.id d ≡ some x
        → get id d ≡ some o
        → IsSame id o m
        → IsSame id o (tick_order price last m x)
    resting_round m x v e t st found here =
        let now = condition_now m x v (stored_one x e st found) ∙ t in
        rw (tick_order-triggers price last m x, now) here

    Loop-fills :
        (m : Matcher N) (os : List VirtualOrder)
        → Loop m
        → o.id ≡ id
        → triggers o price d ≡ true
        → AreStored d os
        → get id d ≡ some o
        → Has o os
        → IsSame id o m
        → is_open o.status ≡ true
        → IsClosed id o (FoundNothing price last o m os) (foldl (tick_order price last) m os)
    unfolding AreStored
    Loop-fills m [] v own t stored found h here live = elim h [ ]
    Loop-fills m (x ∷ os) v own t (st, stored) found h here live = elim (text_cases x.id id) [
      | inl e ↦
          let first : x ∷ os ≡ o ∷ os = ap (λ y. y ∷ os) (sym (stored_one x e st found)) in
          IsClosed-map id o (foldl (tick_order price last) m (x ∷ os))
            (λ idle. ([], os, first, idle))
            (Loop-IsClosed (tick_order price last m x) os (HasNothingToClose o m) (round-Loop m x v)
              (firing_round m x v e t st found here live))
      | inr ne ↦
          IsClosed-map id o (foldl (tick_order price last) m (x ∷ os))
            (λ (before, after, e, idle). (x ∷ before, after, ap (λ ys. x ∷ ys) e, idle))
            (Loop-fills (tick_order price last m x) os (round-Loop m x v) own t stored found
              (not_first x os own ne h) (other_round m x v ne ∙ here) live)
    ]

    Loop-leaves :
        (m : Matcher N) (os : List VirtualOrder)
        → Loop m
        → triggers o price d ≡ false
        → AreStored d os
        → get id d ≡ some o
        → IsSame id o m
        → IsSame id o (foldl (tick_order price last) m os)
    unfolding AreStored
    Loop-leaves m [] v t stored found here = here
    Loop-leaves m (x ∷ os) v t (st, stored) found here =
        Loop-leaves (tick_order price last m x) os (round-Loop m x v) t stored found
          (elim (text_cases x.id id) [
            | inl e ↦ resting_round m x v e t st found here
            | inr ne ↦ other_round m x v ne ∙ here
          ])

  abbrev pub accepts : String → Matcher N → Bool
  accepts last m = m.started && not (not_positive (num.of_text last))

  refused_not :
      (last : String) (m : Matcher N)
      → accepts last m ≡ true
      → (not m.started || not_positive (num.of_text last)) ≡ false
  refused_not last m h = ground arith

  -- On a tick of a started engine, consistent with the events since the last `stop`, with a positive
  -- finite price, an order that is open, of the
  -- tick's symbol, and whose trigger or limit the price meets, is filled, with its terms as they
  -- were; only a closing order is cancelled in place of it, namely when the loop, which takes the
  -- open orders of the symbol in turn, comes to it and finds no position or one in the order's own
  -- direction.
  pub handle_tick-fills :
      (symbol last id : String) (o : VirtualOrder) (m : Matcher N) (since : List (FillEvent N))
      → IsConsistent (with_events since m)
      → accepts last m ≡ true
      → get id m.orders ≡ some o
      → open_for symbol o ≡ true
      → triggers o (num.of_text last) m.orders ≡ true
      → IsClosed id o
          (FoundNothing (num.of_text last) last o m (keep (open_for symbol) (values m.orders)))
          (handle_tick symbol last m)
  unfolding handle_tick
  handle_tick-fills symbol last id o m since v ready found eligible t =
      let d = m.orders in
      let live : is_open o.status ≡ true = ground (arith, eligible) in
      rw (refused_not last m ready) (
        Loop-fills (num.of_text last) last d id o m (keep (open_for symbol) (values d))
          (v.keyed, λ p. refl) (v.keyed id o found) t
          (keep-AreStored d (open_for symbol) (values d) (values-AreStored d v.keyed v.unique))
          found (keep-Has (open_for symbol) o (values d) eligible (values-Has d id o found)) found
          live)

  -- A tick of an engine that is consistent with the events since the last `stop` leaves an order as
  -- it was if the price does not meet its trigger or limit.
  pub handle_tick-leaves :
      (symbol last id : String) (o : VirtualOrder) (m : Matcher N) (since : List (FillEvent N))
      → IsConsistent (with_events since m)
      → get id m.orders ≡ some o
      → triggers o (num.of_text last) m.orders ≡ false
      → IsSame id o (handle_tick symbol last m)
  unfolding handle_tick
  handle_tick-leaves symbol last id o m since v found t =
      let d = m.orders in
      if_both (IsSame id o) (not m.started || not_positive (num.of_text last)) found (
        Loop-leaves (num.of_text last) last d id o m (keep (open_for symbol) (values d))
          (v.keyed, λ p. refl) t
          (keep-AreStored d (open_for symbol) (values d) (values-AreStored d v.keyed v.unique))
          found found)
