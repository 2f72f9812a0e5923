-- ===== src/Lighter/OrderIndex/Tests.antt =====
-- A first key whose digest is 0, and a second key whose first digest collides with it.
use velotradex.Base.{
  ℕ, zero, suc, leb, ◌≤◌, ◌<◌, ◌≡◌, refl, String, some, List, [], ◌∷◌, ok, find, arith,
  if◌then◌else◌,
}
use velotradex.Lighter.OrderIndex.{
  IndexRow, create, find_existing, first_six, derive_uint48_index, attempts, get_or_create,
}
use velotradex.Lighter.OrderIndex.Stored.{
  IsDistinct, get_or_create-IsStored, derive_uint48_index_bounds, get_or_create-IsDistinct,
}

index_store : Unit {0}
unfolding create find_existing first_six derive_uint48_index attempts get_or_create find
index_store = tt

-- stands for SHA-256: the last byte is the number of the attempt
abbrev digest : String → String → ℕ → ℕ → ℕ
digest instance_id key attempt zero = 0
digest instance_id key attempt (suc zero) = 0
digest instance_id key attempt (suc (suc zero)) = 0
digest instance_id key attempt (suc (suc (suc zero))) = 0
digest instance_id key attempt (suc (suc (suc (suc zero)))) = 0
digest instance_id key attempt (suc (suc (suc (suc (suc i))))) =
    if leb attempt 200 then attempt else 0

abbrev alone : ℕ → List IndexRow → List IndexRow
alone n rows = rows

abbrev derive : String → String → ℕ → ℕ
derive = derive_uint48_index digest

abbrev row_of : String → ℕ → IndexRow
row_of key index = record {
  exchange_instance_id = "lighter-1";
  business_key = key;
  client_order_index = index;
}

first_key : get_or_create derive alone "lighter-1" "a" 16 [] ≡ (ok 1, row_of "a" 1 ∷ [])
unfolding index_store
first_key = refl

second_key :
    get_or_create derive alone "lighter-1" "b" 16 (row_of "a" 1 ∷ [])
    ≡ (ok 2, row_of "a" 1 ∷ row_of "b" 2 ∷ [])
unfolding index_store
second_key = refl

get_or_create-IsStored_example :
    (find_existing "lighter-1" "b" (row_of "a" 1 ∷ row_of "b" 2 ∷ []) ≡ some 2)
    × ((derive' : String → String → ℕ → ℕ) (others' : ℕ → List IndexRow → List IndexRow) (max' : ℕ)
        → get_or_create derive' others' "lighter-1" "b" max' (row_of "a" 1 ∷ row_of "b" 2 ∷ [])
          ≡ (ok 2, row_of "a" 1 ∷ row_of "b" 2 ∷ []))
get_or_create-IsStored_example =
    get_or_create-IsStored derive alone "lighter-1" "b" 16 2 (row_of "a" 1 ∷ [])
      (row_of "a" 1 ∷ row_of "b" 2 ∷ []) second_key

digest_byte : (i : ℕ) → digest "lighter-1" "a" 7 i < 256
digest_byte zero = omega arith
digest_byte (suc zero) = omega arith
digest_byte (suc (suc zero)) = omega arith
digest_byte (suc (suc (suc zero))) = omega arith
digest_byte (suc (suc (suc (suc zero)))) = omega arith
digest_byte (suc (suc (suc (suc (suc i))))) = omega arith

derive_uint48_index_bounds_example :
    (1 ≤ derive_uint48_index digest "lighter-1" "a" 7)
    × (derive_uint48_index digest "lighter-1" "a" 7 < 281474976710656)
derive_uint48_index_bounds_example = derive_uint48_index_bounds digest "lighter-1" "a" 7 digest_byte

one_row : IsDistinct (row_of "a" 1 ∷ [])
unfolding index_store
one_row = (refl, tt)

get_or_create-IsDistinct_example :
    IsDistinct (get_or_create derive alone "lighter-1" "b" 16 (row_of "a" 1 ∷ [])).1
get_or_create-IsDistinct_example =
    get_or_create-IsDistinct derive alone "lighter-1" "b" (λ n rows d. d) 16 (row_of "a" 1 ∷ [])
      one_row
