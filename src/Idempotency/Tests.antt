-- ===== src/Idempotency/Tests.antt =====
-- A message recorded at 1:40, one whose first record is too old, and runs of the checks.
use velotradex.Base.{
  find, ◌≡◌, refl, ◌≢◌, ◌⊎◌, ◌+◌, ◌≤◌, ℕ, String, true, false, none, some, [], ◌∷◌, arith,
}
use velotradex.Text.{trim}
use velotradex.Idempotency.{
  key_ttl_ms, Keys, IdempotencyKey, create, check_message, write_key, cleanup_expired_keys,
}
use velotradex.Idempotency.Laws.{
  IsUniqueKey, Reach, Step, check_message-write_key, Reach-IsUniqueKey, write_key-lost,
}

keys : Unit {0}
unfolding find create check_message write_key cleanup_expired_keys trim
keys = tt

-- stands for SHA-256
abbrev hash : String → String
hash s = s

abbrev no_keys : Keys
no_keys = record { rows = []; next_id = 1 }

abbrev old_row : IdempotencyKey
old_row = record {
  id = 1;
  channel_id = "gold";
  content_hash = "buy";
  first_seen_at = 1000;
  message_id = none;
  strategy_id = some 7;
}

abbrev one_key : Keys
one_key = record { rows = old_row ∷ []; next_id = 2 }

one_key-Reach : Reach hash one_key
unfolding keys
one_key-Reach = Reach.next Reach.empty (Step.wrote 1000 7 none "gold" "buy")

two_keys-Reach : Reach hash (write_key hash 3000 "gold" "sell" none 8 one_key)
two_keys-Reach = Reach.next one_key-Reach (Step.wrote 3000 8 none "gold" "sell")

cleaned : (cleanup_expired_keys 61_001 one_key).1 ≡ record { rows = []; next_id = 2 }
unfolding keys
cleaned = refl

check_message-write_key_example :
    let t = write_key hash 100_000 "gold" "sell" none 8 one_key in
    ((later : ℕ)
      → later ≤ 100_000 + key_ttl_ms
      → check_message hash later "gold" "sell" t
        ≡ record { is_duplicate = true; existing_key_id = some 2 })
    × ((later : ℕ) (other text : String)
        → ("gold" ≢ other) ⊎ ("sell" ≢ text)
        → check_message hash later other text t ≡ check_message hash later other text one_key)
unfolding keys
check_message-write_key_example =
    check_message-write_key hash 100_000 8 none "gold" "sell" one_key refl refl

Reach-IsUniqueKey_example : IsUniqueKey ((write_key hash 3000 "gold" "sell" none 8 one_key).rows)
Reach-IsUniqueKey_example =
    Reach-IsUniqueKey hash (write_key hash 3000 "gold" "sell" none 8 one_key) two_keys-Reach

write_key-lost_example :
    let t = write_key hash 62_000 "gold" "buy" none 9 one_key in
    (t ≡ one_key)
    × ((later : ℕ)
        → 62_000 ≤ later
        → check_message hash later "gold" "buy" t
          ≡ record { is_duplicate = false; existing_key_id = none })
unfolding keys
write_key-lost_example =
    write_key-lost hash 62_000 9 none "gold" "buy" one_key old_row one_key-Reach refl (omega arith)
