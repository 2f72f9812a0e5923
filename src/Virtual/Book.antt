-- ===== src/Virtual/Book.antt =====
-- What the simulated exchange promises of its orders: an order is placed, and then filled once, with
-- one trade, or cancelled. The rows behind it are those of Virtual.
use velotradex.Base.{
  ℕ, ◌+◌, String, ◌≡◌, ◌⊎◌, Option, none, some, List, [], ◌∷◌, ◌++◌, arith, str_eq, eq_iff,
  if◌then◌else◌,
}
use velotradex.Virtual.{OrderStatus, opened, filled, cancelled, rejected}

-- The status of each order, and the orders traded, oldest first
pub record Book : Type 0 where
  pub status : String → Option OrderStatus
  pub traded : List String

abbrev pub written :
    String → OrderStatus → (String → Option OrderStatus) → String → Option OrderStatus
written id s status j = if str_eq id j then some s else status j

pub data BookStep (b c : Book) : Type 0 where
  placed :
      (id : String)
      → b.status id ≡ none
      → ((j : String) → c.status j ≡ written id opened b.status j)
      → c.traded ≡ b.traded
      → BookStep b c
  taken :
      (id : String)
      → b.status id ≡ some opened
      → ((j : String) → c.status j ≡ written id filled b.status j)
      → c.traded ≡ b.traded ++ (id ∷ [])
      → BookStep b c
  withdrawn :
      (id : String)
      → b.status id ≡ some opened
      → ((j : String) → c.status j ≡ written id cancelled b.status j)
      → c.traded ≡ b.traded
      → BookStep b c
  idle : ((j : String) → c.status j ≡ b.status j) → c.traded ≡ b.traded → BookStep b c

pub data BookPath : Book → Book → Type 0 where
  here : (b : Book) → BookPath b b
  next : (b c d : Book) → BookPath b c → BookStep c d → BookPath b d

pub append_paths : (b c d : Book) → BookPath b c → BookPath c d → BookPath b d
append_paths b c _ p (here _) = p
append_paths b c d p (next _ e _ q s) = next b e d (append_paths b c e p q) s

-- How often an order was traded
unfoldable pub count : String → List String → ℕ
count id [] = 0
count id (j ∷ js) = let rest = count id js in if str_eq j id then 1 + rest else rest

abbrev pub trades_due : Option OrderStatus → ℕ
trades_due (some filled) = 1
trades_due _ = 0

-- A filled order was traded once, and no other order was traded.
abbrev pub IsBalanced : Book → Type 0
IsBalanced b = (id : String) → count id b.traded ≡ trades_due (b.status id)

abbrev pub IsFinal : OrderStatus → Type 0
IsFinal s = (s ≡ filled) ⊎ ((s ≡ cancelled) ⊎ (s ≡ rejected))

count-append : (id : String) (xs ys : List String) → count id (xs ++ ys) ≡ count id xs + count id ys
unfolding count
count-append id [] ys = omega arith
count-append id (x ∷ xs) ys = ground (arith, count-append id xs ys)

BookStep-IsBalanced : (b c : Book) → BookStep b c → IsBalanced b → IsBalanced c
unfolding count
BookStep-IsBalanced b c (placed id free change same) h j =
    ground (arith, h j, change j, same, eq_iff id j)
BookStep-IsBalanced b c (withdrawn id live change same) h j =
    ground (arith, h j, change j, same, eq_iff id j)
BookStep-IsBalanced b c (taken id live change more) h j =
    ground (arith, h j, change j, more, eq_iff id j, count-append j b.traded (id ∷ []))
BookStep-IsBalanced b c (idle change same) h j = ground (arith, h j, change j, same)

pub BookPath-IsBalanced : (b c : Book) → BookPath b c → IsBalanced b → IsBalanced c
BookPath-IsBalanced b _ (here _) h = h
BookPath-IsBalanced b d (next _ c _ p s) h = BookStep-IsBalanced c d s (BookPath-IsBalanced b c p h)

BookStep-final :
    (b c : Book) (id : String) (s : OrderStatus)
    → BookStep b c
    → IsFinal s
    → b.status id ≡ some s
    → c.status id ≡ some s
BookStep-final b c id s (placed j free change same) f h = ground (arith, change id, eq_iff j id)
BookStep-final b c id s (withdrawn j live change same) f h = ground (arith, change id, eq_iff j id)
BookStep-final b c id s (taken j live change more) f h = ground (arith, change id, eq_iff j id)
BookStep-final b c id s (idle change same) f h = ground (arith, change id)

pub BookPath-final :
    (b c : Book) (id : String) (s : OrderStatus)
    → BookPath b c
    → IsFinal s
    → b.status id ≡ some s
    → c.status id ≡ some s
BookPath-final b _ id s (here _) f h = h
BookPath-final b d id s (next _ c _ p t) f h =
    BookStep-final c d id s t f (BookPath-final b c id s p f h)
