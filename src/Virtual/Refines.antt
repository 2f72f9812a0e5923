-- ===== src/Virtual/Refines.antt =====
-- The rows of the simulated exchange as a book of orders, and the updates of one row.
use velotradex.Base.{
  String, ◌≡◌, refl, ◌⊎◌, inl, inr, Bool, true, false, Option, none, some, [], ◌∷◌, map, arith,
  str_eq, eq_iff, if◌then◌else◌, Bool-cases, Option-cases, Memᴰ,
}
use velotradex.Dict.{Dict, get, put, values, get-put, get-put_cases, IsUnique, put-IsUnique}
use velotradex.Virtual.{VirtualOrder, OrderStatus, opened, cancelled, Store, update_order}
use velotradex.Virtual.Book.{Book, BookStep, withdrawn, idle, BookPath, here, next, append_paths}

abbrev pub status_of : Option VirtualOrder → Option OrderStatus
status_of none = none
status_of (some o) = some o.status

abbrev pub view : Store → Book
view s = record {
  status = λ j. status_of (get j s.orders);
  traded = map (λ t. t.virtual_order_id) s.trades;
}

-- Every order stands once, under its own id.
abbrev pub IsKeyed : Dict VirtualOrder → Type 0
IsKeyed d =
    IsUnique d × ((j : String) (o : VirtualOrder) → get j d ≡ some o → o.virtual_order_id ≡ j)

-- What happened to the rows is a path of the book, and keeps them in order.
abbrev pub Refines : Store → Store → Type 0
Refines s t = IsKeyed s.orders → IsKeyed t.orders × BookPath (view s) (view t)

pub Refines-refl : (s : Store) → Refines s s
Refines-refl s k = (k, here (view s))

pub Refines-trans : (a b c : Store) → Refines a b → Refines b c → Refines a c
Refines-trans a b c p q k =
    let (kb, pb) = p k in let (kc, pc) = q kb in (kc, append_paths (view a) (view b) (view c) pb pc)

pub one_step :
    (s t : Store) → (IsKeyed s.orders → IsKeyed t.orders) → BookStep (view s) (view t) → Refines s t
one_step s t f p k = (f k, next (view s) (view s) (view t) (here (view s)) p)

pub put-IsKeyed :
    (id : String) (o : VirtualOrder) (d : Dict VirtualOrder)
    → o.virtual_order_id ≡ id
    → IsKeyed d
    → IsKeyed (put id o d)
put-IsKeyed id o d own (u, k) =
    (put-IsUnique id o d u, λ j p h. ground (arith, get-put_cases id j o p d h, k j p))

pub status-put :
    (id j : String) (o : VirtualOrder) (d : Dict VirtualOrder)
    → status_of (get j (put id o d)) ≡ (if str_eq id j then some o.status else status_of (get j d))
status-put id j o d = rw get-put (pushed (str_eq id j))
  where
    pushed :
        (b : Bool)
        → status_of (if b then some o else get j d)
          ≡ (if b then some o.status else status_of (get j d))
    pushed true = refl
    pushed false = refl

-- Whether an update met a row
pub update_order-cases :
    (test : VirtualOrder → Bool) (change : VirtualOrder → VirtualOrder) (id : String) (s : Store)
    → (update_order test change id s ≡ (false, s))
      ⊎ ((o : VirtualOrder) × (get id s.orders ≡ some o)
          × (test o ≡ true)
          × (update_order test change id s
              ≡ (true, record s { orders = put id (change o) s.orders })))
unfolding update_order
update_order-cases test change id s = elim (Option-cases (get id s.orders)) [
  | inl h ↦ inl (rw h refl)
  | inr (o, h) ↦ elim (Bool-cases (test o)) [
    | inl t ↦ inr (o, h, t, rw (h, t) refl)
    | inr t ↦ inl (rw (h, t) refl)
  ]
]

module _ (id : String) (s : Store) (o : VirtualOrder) (found : get id s.orders ≡ some o) where
  own_id : IsKeyed s.orders → o.virtual_order_id ≡ id
  own_id k = k.1 id o found

  -- A change that keeps the id and the status
  pub keep_row :
      (p : VirtualOrder)
      → p.virtual_order_id ≡ o.virtual_order_id
      → p.status ≡ o.status
      → Refines s (record s { orders = put id p s.orders })
  keep_row p same_id same_status =
      one_step s (record s { orders = put id p s.orders })
        (λ k. put-IsKeyed id p s.orders (cc (own_id k, same_id)) k)
        (idle (λ j. ground (arith, status-put id j p s.orders, found, same_status, eq_iff id j))
          refl)

  -- A cancellation of an open order
  pub withdraw_row :
      o.status ≡ opened
      → Refines s (record s { orders = put id (record o { status = cancelled }) s.orders })
  withdraw_row live =
      one_step s (record s { orders = put id (record o { status = cancelled }) s.orders })
        (λ k. put-IsKeyed id (record o { status = cancelled }) s.orders (own_id k) k)
        (withdrawn id (rw (found, live) refl)
          (λ j. status-put id j (record o { status = cancelled }) s.orders) refl)

-- The rows of a list come from the dictionary.
pub values-get :
    (d : Dict VirtualOrder) (o : VirtualOrder)
    → IsUnique d
    → Memᴰ o (values d)
    → (j : String) × (get j d ≡ some o)
unfolding values get
values-get [] o u m = elim m [ ]
values-get ((j, v) ∷ d) o (free, u) (Memᴰ.head e) = (j, ground (arith, eq_iff j j, e))
values-get ((j, v) ∷ d) o (free, u) (Memᴰ.tail m) =
    let (i, h) = values-get d o u m in (i, ground (arith, eq_iff j i, h, free))
