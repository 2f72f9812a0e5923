-- ===== src/Matcher/Stored.antt =====
-- The orders that the engine stores: their sides, and the list that a tick takes.
use velotradex.Base.{
  String, ◌≡◌, refl, sym, ap, ◌∙◌, subst, ◌≢◌, ◌⊎◌, inl, inr, Bool, true, Option, none, some, List,
  [], ◌∷◌, arith, keep, Option-cases, text_cases, if_both, if◌then◌else◌, str_eq, eq_iff, All,
  All-map,
}
use velotradex.Dict.{IsUnique, Dict, get, put, values, get-put_self, get-put_ne}
use velotradex.Matcher.{opposite, VirtualOrder, Side, parent_side, side_or}

-- The side of the order under an id: what the trigger of a protection reads of other orders.
abbrev pub side_of : Option VirtualOrder → Option Side
side_of none = none
side_of (some o) = some o.side

abbrev pub SameSides : Dict VirtualOrder → Dict VirtualOrder → Type 0
SameSides d d' = (p : String) → side_of (get p d') ≡ side_of (get p d)

pub put-SameSides :
    (o o' : VirtualOrder) (d : Dict VirtualOrder)
    → get o.id d ≡ some o
    → o'.side ≡ o.side
    → SameSides d (put o.id o' d)
put-SameSides o o' d found same p = elim (text_cases o.id p) [
  | inl e ↦
      subst (λ q. side_of (get q (put o.id o' d)) ≡ side_of (get q d)) e
        (rw (get-put_self o.id o' d, found) (ap some same))
  | inr ne ↦ ap side_of (get-put_ne o.id p o' d ne)
]

pub par_of :
    (s : Side) (b : Bool) (x x' : Option VirtualOrder)
    → side_of x' ≡ side_of x
    → side_or s (if b then none else x') ≡ side_or s (if b then none else x)
par_of s b x x' h = ground arith

pub parent_side-SameSides :
    (o : VirtualOrder) (d d' : Dict VirtualOrder)
    → SameSides d d'
    → parent_side o d' ≡ parent_side o d
parent_side-SameSides o d d' same = elim (Option-cases o.parent_id) [
  | inl e ↦ rw e refl
  | inr (p, e) ↦ rw e (par_of (opposite o.side) (str_eq p "") (get p d) (get p d') (same p))
]

-- The orders of a list are those that a dictionary holds.
unfoldable pub AreStored : Dict VirtualOrder → List VirtualOrder → Type 0
AreStored d = All (λ o. get o.id d ≡ some o)

pub values-AreStored :
    (d : Dict VirtualOrder)
    → ((id : String) (o : VirtualOrder) → get id d ≡ some o → o.id ≡ id)
    → IsUnique d
    → AreStored d (values d)
unfolding AreStored values get
values-AreStored [] k u = tt
values-AreStored ((j, w) ∷ d) k (free, u) =
    let own : w.id ≡ j = k j w (ground (arith, eq_iff j j)) in
    let later : (id : String) (o : VirtualOrder) → get id d ≡ some o → j ≢ id =
      λ id o h e. cc (free, h, ap (λ x. get x d) e) in
    (
      ground (arith, own, eq_iff j w.id),
      All-map (values d) (λ o h. ground (arith, eq_iff j o.id, later o.id o h))
          (values-AreStored d (λ id o h. k id o (ground (arith, eq_iff j id, later id o h))) u),
    )

pub keep-AreStored :
    (d : Dict VirtualOrder) (p : VirtualOrder → Bool) (os : List VirtualOrder)
    → AreStored d os
    → AreStored d (keep p os)
unfolding AreStored
keep-AreStored d p [] h = tt
keep-AreStored d p (o ∷ os) (h, k) = ground (arith, keep-AreStored d p os k)

abbrev pub Has : VirtualOrder → List VirtualOrder → Type 0
Has o [] = ⊥
Has o (x ∷ xs) = (o ≡ x) ⊎ Has o xs

pub values-Has :
    (d : Dict VirtualOrder) (id : String) (o : VirtualOrder) → get id d ≡ some o → Has o (values d)
unfolding get values
values-Has [] id o h = cc
values-Has ((j, w) ∷ d) id o h = ground (arith, values-Has d id o)

pub keep-Has :
    (p : VirtualOrder → Bool) (o : VirtualOrder) (os : List VirtualOrder)
    → p o ≡ true
    → Has o os
    → Has o (keep p os)
keep-Has p o [] t h = h
keep-Has p o (x ∷ os) t (inl e) = rw (ap p (sym e) ∙ t) (inl e)
keep-Has p o (x ∷ os) t (inr h) =
    let rest = keep-Has p o os t h in if_both (Has o) (p x) (inr rest) rest
