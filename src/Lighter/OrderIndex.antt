-- ===== src/Lighter/OrderIndex.antt =====
-- services/exchanges/lighter/LighterClientOrderIndexStore.ts over the table of
-- models/LighterClientOrderIndex.ts: each business key of an exchange instance gets a 48-bit number,
-- once and for all. The table has two unique indexes, which `create` checks. SHA-256 is a parameter,
-- a byte for each text and place; numbers stand for their decimal texts. Other processes may change
-- the table before each attempt (`others`, a parameter).
pub mod Stored
pub mod Tests
use velotradex.Base.{
  ℕ, zero, suc, ◌+◌, ◌*◌, String, Bool, true, false, ◌&&◌, ◌||◌, Option, none, some, List, [], ◌∷◌,
  ◌++◌, str_eq, if◌then◌else◌, ◌==◌, find, is_some, Outcome, ok, throws,
}

pub record IndexRow : Type 0 where
  pub exchange_instance_id : String
  pub business_key : String
  pub client_order_index : ℕ

abbrev pub same_key : String → String → IndexRow → Bool
same_key instance_id key r = str_eq r.exchange_instance_id instance_id && str_eq r.business_key key

abbrev pub same_index : String → ℕ → IndexRow → Bool
same_index instance_id index r =
    str_eq r.exchange_instance_id instance_id && (r.client_order_index == index)

-- The unique indexes forbid the two rows together.
abbrev pub conflicts : IndexRow → IndexRow → Bool
conflicts r s =
    same_key r.exchange_instance_id r.business_key s
    || same_index r.exchange_instance_id r.client_order_index s

-- `model.create`; `none` is a `UniqueConstraintError`
unfoldable pub create : IndexRow → List IndexRow → Option (List IndexRow)
create r rows = if is_some (find (conflicts r) rows) then none else some (rows ++ (r ∷ []))

abbrev index_of : Option IndexRow → Option ℕ
index_of none = none
index_of (some r) = some r.client_order_index

unfoldable pub find_existing : String → String → List IndexRow → Option ℕ
find_existing instance_id key rows = index_of (find (same_key instance_id key) rows)

-- the first six bytes of a digest, as a number
unfoldable pub first_six : (ℕ → ℕ) → ℕ
first_six byte =
    ((((byte 0 * 256 + byte 1) * 256 + byte 2) * 256 + byte 3) * 256 + byte 4) * 256 + byte 5

unfoldable pub derive_uint48_index : (String → String → ℕ → ℕ → ℕ) → String → String → ℕ → ℕ
derive_uint48_index digest instance_id key attempt =
    let value = first_six (digest instance_id key attempt) in if value == 0 then 1 else value

abbrev pub Answer : Type 0
Answer = Outcome ℕ × List IndexRow

-- One attempt, by the results of `create` and of the second look for the key; `rest` is the answer
-- of the attempts that follow.
abbrev pub attempt_result : ℕ → List IndexRow → Answer → Option (List IndexRow) → Option ℕ → Answer
attempt_result index rows rest (some rows') _ = (ok index, rows')
attempt_result index rows rest none (some raced) = (ok raced, rows)
attempt_result index rows rest none none = rest

module _ (derive : String → String → ℕ → ℕ) (others : ℕ → List IndexRow → List IndexRow)
    (instance_id key : String) where
  -- the loop, by the attempts that are left
  unfoldable pub attempts : ℕ → ℕ → List IndexRow → Answer
  attempts zero attempt rows = (throws "Unable to allocate Lighter clientOrderIndex", rows)
  attempts (suc left) attempt rows =
      let index = derive instance_id key attempt in
      let seen = others attempt rows in
      let rest = attempts left (attempt + 1) seen in
      attempt_result index seen rest
        (create
          (record {
            exchange_instance_id = instance_id;
            business_key = key;
            client_order_index = index;
          })
          seen)
        (find_existing instance_id key seen)

  abbrev pub or_allocate : ℕ → List IndexRow → Option ℕ → Answer
  or_allocate max_attempts rows (some existing) = (ok existing, rows)
  or_allocate max_attempts rows none = attempts max_attempts 0 rows

  unfoldable pub get_or_create : ℕ → List IndexRow → Answer
  get_or_create max_attempts rows =
      or_allocate max_attempts rows (find_existing instance_id key rows)
