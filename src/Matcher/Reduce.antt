-- ===== src/Matcher/Reduce.antt =====
-- Orders that close a position: 'close', 'sl' and 'tp'.
use velotradex.Base.{
  String, ◌≡◌, refl, sym, subst, ◌≢◌, inl, inr, true, false, ◌||◌, some, arith, Bool-cases, if_both,
}
use velotradex.Dict.{get, put, get-put_self, get-put_ne}
use velotradex.Number.{Number, int, not_positive, min_number}
use velotradex.Number.Laws.{IsOrdered, HasSigns}
use velotradex.Number.Reduction.{IsReduction, unchanged-IsReduction, closed-IsReduction}
use velotradex.Text.{normalize_symbol_case}
use velotradex.Matcher.{
  filled, VirtualOrder, PositionState, Matcher, is_entry, is_open, signed, same_sign, set_status,
  get_position, or_flat, reduced, emit_fill, fill_reduce, settle, fill_found, fill_order,
}

module _ {N : Type 0} ⦃num : Number N⦄ where
  open num use {abs, sign, eq, lt, sub, mul, is_finite, of_text}

  module _ (o : IsOrdered N) (s : HasSigns N) where
    reduced-IsReduction :
        (p : PositionState N) (amount : N)
        → is_finite p.size ≡ true
        → eq p.size (int 0) ≡ false
        → not_positive amount ≡ false
        → IsReduction p.size (reduced p (min_number (abs p.size) amount)).size
    unfolding reduced
    reduced-IsReduction p amount h nz pos = (closed-IsReduction o s p.size amount h nz pos).0

    position_written :
        (symbol : String) (p : PositionState N) (m : Matcher N)
        → normalize_symbol_case symbol ≡ symbol
        → or_flat (get (normalize_symbol_case symbol) (put symbol p m.positions)) ≡ p
    position_written symbol p m own = rw (own, get-put_self symbol p m.positions) refl

    module _ (order : VirtualOrder) (m : Matcher N) where
      -- The position of the order's symbol is only reduced, and no other symbol's is changed.
      abbrev pub OnlyReduces : Matcher N → Type 0
      OnlyReduces m' =
          IsReduction (get_position order.symbol m).size (get_position order.symbol m').size
          × ((other : String)
              → order.symbol ≢ other
              → get other m'.positions ≡ get other m.positions)

      fill_reduce-OnlyReduces :
          (amount price : N) (last : String) (multiplier : N)
          → normalize_symbol_case order.symbol ≡ order.symbol
          → is_finite (get_position order.symbol m).size ≡ true
          → not_positive amount ≡ false
          → OnlyReduces (fill_reduce order amount price last multiplier m)
      unfolding fill_reduce emit_fill
      fill_reduce-OnlyReduces amount price last multiplier own h pos =
          let position = get_position order.symbol m in
          let wrong =
            eq position.size (int 0) || same_sign position.size (signed order.side amount) in
          elim (Bool-cases wrong) [
            | inl t ↦ rw t (unchanged-IsReduction o s position.size h, λ other ne. refl)
            | inr f ↦
                let next = reduced position (min_number (abs position.size) amount) in
                rw f (
                  subst (λ (p : PositionState N). IsReduction position.size p.size)
                      (sym (position_written order.symbol next m own))
                      (reduced-IsReduction position amount h (ground arith) pos),
                  λ other ne. get-put_ne order.symbol other next m.positions ne,
                )
          ]

      settle-OnlyReduces :
          (price : N) (last : String)
          → is_entry order.role ≡ false
          → normalize_symbol_case order.symbol ≡ order.symbol
          → is_finite (get_position order.symbol m).size ≡ true
          → OnlyReduces (settle order price last m)
      unfolding settle
      settle-OnlyReduces price last closes own h =
          let amount = of_text order.amount in
          let multiplier = m.multiplier order.symbol in
          elim (Bool-cases (not_positive amount || not_positive multiplier)) [
            | inl t ↦ rw t (unchanged-IsReduction o s _ h, λ other ne. refl)
            | inr f ↦
                rw (f, closes)
                  (fill_reduce-OnlyReduces amount price last multiplier own h (ground arith))
          ]

    -- Filling a stored order whose role is not 'entry', at any price, never enlarges the magnitude
    -- of its symbol's position and keeps its direction until it is flat, and it changes the position
    -- of no other symbol; for an order whose symbol is in normal form and a position of finite size,
    -- in an arithmetic with the laws of IEEE comparisons, differences and signs.
    pub fill_order-OnlyReduces :
        (id : String) (price : N) (last : String) (order : VirtualOrder) (m : Matcher N)
        → get id m.orders ≡ some order
        → is_entry order.role ≡ false
        → normalize_symbol_case order.symbol ≡ order.symbol
        → is_finite (get_position order.symbol m).size ≡ true
        → OnlyReduces order m (fill_order id price last m)
    unfolding fill_order fill_found
    fill_order-OnlyReduces id price last order m found closes own h =
        rw (found, fill_found)
          (if_both (OnlyReduces order m) (is_open order.status)
            (settle-OnlyReduces (record order { status = filled }) (set_status order filled m) price
              last closes own h)
            (unchanged-IsReduction o s _ h, λ other ne. refl))
