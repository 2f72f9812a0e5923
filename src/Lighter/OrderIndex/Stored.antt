-- ===== src/Lighter/OrderIndex/Stored.antt =====
-- What the answers promise.
use velotradex.Base.{
  ℕ, zero, suc, ◌+◌, ◌≤◌, ◌<◌, String, ◌≡◌, refl, sym, subst, ◌∙◌, inl, inr, Bool, true, false,
  Option, none, some, List, [], ◌∷◌, ◌++◌, arith, eq_iff, if◌then◌else◌, ◌==◌, find, is_some,
  none_of_is_some, ok, throws, some-injective, Bool-cases,
}
use velotradex.Lighter.OrderIndex.{
  IndexRow, same_key, conflicts, create, find_existing, first_six, derive_uint48_index, Answer,
  attempt_result, attempts, or_allocate, get_or_create,
}

bounds_of :
    (value : ℕ)
    → value < 281474976710656
    → (1 ≤ (if value == 0 then 1 else value))
      × ((if value == 0 then 1 else value) < 281474976710656)
bounds_of value h = elim (Bool-cases (value == 0)) [
  | inl z ↦ rw z (omega arith, omega arith)
  | inr n ↦ rw n (ground (arith, n), h)
]

module _ (p : IndexRow → Bool) where
  find-append_none :
      (xs : List IndexRow) (y : IndexRow)
      → find p xs ≡ none
      → find p (xs ++ (y ∷ [])) ≡ (if p y then some y else none)
  unfolding find
  find-append_none [] y h = refl
  find-append_none (x ∷ xs) y h = ground (arith, find-append_none xs y)

  find-none_weaker :
      (q : IndexRow → Bool) (xs : List IndexRow)
      → ((x : IndexRow) → q x ≡ true → p x ≡ true)
      → find p xs ≡ none
      → find q xs ≡ none
  unfolding find
  find-none_weaker q [] f h = refl
  find-none_weaker q (x ∷ xs) f h = ground (arith, f x, find-none_weaker q xs f)

create-some :
    (r : IndexRow) (rows rows' : List IndexRow)
    → create r rows ≡ some rows'
    → (find (conflicts r) rows ≡ none) × (rows' ≡ rows ++ (r ∷ []))
unfolding create
create-some r rows rows' h = elim (Bool-cases (is_some (find (conflicts r) rows))) [
  | inl taken ↦ let no : none ≡ some rows' = rw taken at h in cc
  | inr free ↦
      let made : some (rows ++ (r ∷ [])) ≡ some rows' = rw free at h in
      (none_of_is_some (find (conflicts r) rows) free, sym (some-injective made))
]

find_existing-create :
    (r : IndexRow) (rows rows' : List IndexRow)
    → create r rows ≡ some rows'
    → find_existing r.exchange_instance_id r.business_key rows' ≡ some r.client_order_index
unfolding find_existing
find_existing-create r rows rows' h =
    let (free, made) = create-some r rows rows' h in
    let mine : same_key r.exchange_instance_id r.business_key r ≡ true =
      rw
        (
          (eq_iff r.exchange_instance_id r.exchange_instance_id).1 refl,
          (eq_iff r.business_key r.business_key).1 refl,
        )
        refl in
    let absent =
      find-none_weaker (conflicts r) (same_key r.exchange_instance_id r.business_key) rows
        (λ x e. rw e refl) free in
    rw (made, find-append_none (same_key r.exchange_instance_id r.business_key) rows r absent, mine)
      refl

module _ (derive : String → String → ℕ → ℕ) (others : ℕ → List IndexRow → List IndexRow)
    (instance_id key : String) where
  -- An answer tells the index that the table then holds for the key.
  abbrev IsStored : Answer → Type 0
  IsStored (throws e, rows) = Unit
  IsStored (ok index, rows) = find_existing instance_id key rows ≡ some index

  attempt_result-IsStored :
      (index : ℕ) (rows : List IndexRow) (rest : Answer) (made : Option (List IndexRow))
      (raced : Option ℕ)
      → create
          (record {
            exchange_instance_id = instance_id;
            business_key = key;
            client_order_index = index;
          })
          rows
        ≡ made
      → find_existing instance_id key rows ≡ raced
      → IsStored rest
      → IsStored (attempt_result index rows rest made raced)
  attempt_result-IsStored index rows rest (some rows') raced c f s =
      find_existing-create _ rows rows' c
  attempt_result-IsStored index rows rest none (some x) c f s = f
  attempt_result-IsStored index rows rest none none c f s = s

  attempts-IsStored :
      (left attempt : ℕ) (rows : List IndexRow)
      → IsStored (attempts derive others instance_id key left attempt rows)
  unfolding attempts
  attempts-IsStored zero attempt rows = tt
  attempts-IsStored (suc left) attempt rows =
      attempt_result-IsStored _ _ _ _ _ refl refl
        (attempts-IsStored left (attempt + 1) (others attempt rows))

  or_allocate-IsStored :
      (max_attempts : ℕ) (rows : List IndexRow) (existing : Option ℕ)
      → find_existing instance_id key rows ≡ existing
      → IsStored (or_allocate derive others instance_id key max_attempts rows existing)
  or_allocate-IsStored max_attempts rows (some x) h = h
  or_allocate-IsStored max_attempts rows none h = attempts-IsStored max_attempts 0 rows

-- Whatever other processes do to the table between the attempts, an index that is answered for a key
-- is the one that the table then holds for it, and each later call for the key, with any number of
-- attempts and any digest, answers the same index and leaves the table as it is.
pub get_or_create-IsStored :
    (derive : String → String → ℕ → ℕ) (others : ℕ → List IndexRow → List IndexRow)
    (instance_id key : String) (max_attempts index : ℕ) (rows rows' : List IndexRow)
    → get_or_create derive others instance_id key max_attempts rows ≡ (ok index, rows')
    → (find_existing instance_id key rows' ≡ some index)
      × ((derive' : String → String → ℕ → ℕ) (others' : ℕ → List IndexRow → List IndexRow)
            (max' : ℕ)
          → get_or_create derive' others' instance_id key max' rows' ≡ (ok index, rows'))
unfolding get_or_create
get_or_create-IsStored derive others instance_id key max_attempts index rows rows' h =
    let stored : find_existing instance_id key rows' ≡ some index =
      subst (IsStored derive others instance_id key) h (
        or_allocate-IsStored derive others instance_id key max_attempts rows
          (find_existing instance_id key rows) refl) in
    (stored, λ derive' others' max'. rw stored refl)

-- A digest of bytes gives an index between 1 and 2 ^ 48 - 1.
pub derive_uint48_index_bounds :
    (digest : String → String → ℕ → ℕ → ℕ) (instance_id key : String) (attempt : ℕ)
    → ((i : ℕ) → digest instance_id key attempt i < 256)
    → (1 ≤ derive_uint48_index digest instance_id key attempt)
      × (derive_uint48_index digest instance_id key attempt < 281474976710656)
unfolding derive_uint48_index first_six
derive_uint48_index_bounds digest instance_id key attempt byte =
    let d = digest instance_id key attempt in
    bounds_of (first_six d) (omega (arith, byte 0, byte 1, byte 2, byte 3, byte 4, byte 5))

-- No two rows share their exchange instance and their key, or their exchange instance and their index.
abbrev pub IsDistinct : List IndexRow → Type 0
IsDistinct [] = Unit
IsDistinct (r ∷ rs) = (find (conflicts r) rs ≡ none) × IsDistinct rs

conflicts_sym : (x y : IndexRow) → conflicts y x ≡ false → conflicts x y ≡ false
conflicts_sym x y h = ground (
  arith,
  eq_iff x.exchange_instance_id y.exchange_instance_id,
  eq_iff y.exchange_instance_id x.exchange_instance_id,
  eq_iff x.business_key y.business_key,
  eq_iff y.business_key x.business_key,
)

no_rows : (y : IndexRow) → find (conflicts y) [] ≡ none
unfolding find
no_rows y = refl

find-cons_none :
    (p : IndexRow → Bool) (x : IndexRow) (xs : List IndexRow)
    → find p (x ∷ xs) ≡ none
    → (p x ≡ false) × (find p xs ≡ none)
unfolding find
find-cons_none p x xs h = (ground (arith, h), ground (arith, h))

append-IsDistinct :
    (xs : List IndexRow) (y : IndexRow)
    → IsDistinct xs
    → find (conflicts y) xs ≡ none
    → IsDistinct (xs ++ (y ∷ []))
append-IsDistinct [] y d h = (no_rows y, tt)
append-IsDistinct (x ∷ xs) y (free, d) h =
    let (other, rest) = find-cons_none (conflicts y) x xs h in
    (
      find-append_none (conflicts x) xs y free ∙ rw (conflicts_sym x y other) refl,
      append-IsDistinct xs y d rest,
    )

module _ (derive : String → String → ℕ → ℕ) (others : ℕ → List IndexRow → List IndexRow)
    (instance_id key : String)
    (kept : (n : ℕ) (rows : List IndexRow) → IsDistinct rows → IsDistinct (others n rows)) where
  attempt_result-IsDistinct :
      (r : IndexRow) (index : ℕ) (rows : List IndexRow) (rest : Answer)
      (made : Option (List IndexRow)) (raced : Option ℕ)
      → create r rows ≡ made
      → IsDistinct rows
      → IsDistinct rest.1
      → IsDistinct (attempt_result index rows rest made raced).1
  attempt_result-IsDistinct r index rows rest (some rows') raced c d s =
      let (free, made) = create-some r rows rows' c in
      subst IsDistinct (sym made) (append-IsDistinct rows r d free)
  attempt_result-IsDistinct r index rows rest none (some x) c d s = d
  attempt_result-IsDistinct r index rows rest none none c d s = s

  attempts-IsDistinct :
      (left attempt : ℕ) (rows : List IndexRow)
      → IsDistinct rows
      → IsDistinct (attempts derive others instance_id key left attempt rows).1
  unfolding attempts
  attempts-IsDistinct zero attempt rows d = d
  attempts-IsDistinct (suc left) attempt rows d =
      let seen = kept attempt rows d in
      attempt_result-IsDistinct _ _ _ _ _ _ refl seen
        (attempts-IsDistinct left (attempt + 1) (others attempt rows) seen)

  or_allocate-IsDistinct :
      (max_attempts : ℕ) (rows : List IndexRow) (existing : Option ℕ)
      → IsDistinct rows
      → IsDistinct (or_allocate derive others instance_id key max_attempts rows existing).1
  or_allocate-IsDistinct max_attempts rows (some x) d = d
  or_allocate-IsDistinct max_attempts rows none d = attempts-IsDistinct max_attempts 0 rows d

  -- If other processes leave the unique indexes of the table intact, so does every call: no two rows
  -- of an exchange instance share a key or an index.
  pub get_or_create-IsDistinct :
      (max_attempts : ℕ) (rows : List IndexRow)
      → IsDistinct rows
      → IsDistinct (get_or_create derive others instance_id key max_attempts rows).1
  unfolding get_or_create
  get_or_create-IsDistinct max_attempts rows d =
      or_allocate-IsDistinct max_attempts rows (find_existing instance_id key rows) d
