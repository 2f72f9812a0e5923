-- ===== src/Idempotency.antt =====
-- services/IdempotencyService.ts over the table of models/IdempotencyKey.ts, whose rows have a unique
-- pair of channel and content hash: the first line of defence against handling a message twice.
-- Times are milliseconds since the epoch; the truncated difference that stands for the cutoff selects
-- the same rows, since no row is older than the epoch. The hash (SHA-256 of node's crypto) is a
-- parameter. Logging and the interval timer are not modelled; a failing `create` is ignored as in
-- the source.
pub mod Laws
pub mod Tests
use velotradex.Base.{
  ℕ, suc, ◌+◌, ◌-◌, String, Bool, true, false, not, ◌&&◌, Option, none, some, List, [], ◌∷◌, ◌++◌,
  str_eq, if◌then◌else◌, ltb, leb, keep, is_some, length, find,
}
use velotradex.Text.{trim}

abbrev pub key_ttl_ms : ℕ
key_ttl_ms = 60_000

pub record IdempotencyKey : Type 0 where
  pub id : ℕ
  pub channel_id : String
  pub content_hash : String
  pub first_seen_at : ℕ
  pub message_id : Option ℕ
  pub strategy_id : Option ℕ

-- The table and the next value of its autoincrement column.
pub record Keys : Type 0 where
  pub rows : List IdempotencyKey
  pub next_id : ℕ

pub record MessageCheckResult : Type 0 where
  pub is_duplicate : Bool
  pub existing_key_id : Option ℕ

abbrev pub cutoff_date : ℕ → ℕ
cutoff_date now = now - key_ttl_ms

abbrev pub same_key : String → String → IdempotencyKey → Bool
same_key channel hash r = str_eq r.channel_id channel && str_eq r.content_hash hash

-- `create` under the unique index: `none` is the violation
unfoldable pub create : IdempotencyKey → Keys → Option Keys
create r t =
    if is_some (find (same_key r.channel_id r.content_hash) t.rows)
    then none
    else some (record { rows = t.rows ++ (r ∷ []); next_id = suc t.next_id })

unfoldable pub cleanup_expired_keys : ℕ → Keys → ℕ × Keys
cleanup_expired_keys now t =
    let left = keep (λ r. not (ltb r.first_seen_at (cutoff_date now))) t.rows in
    (length t.rows - length left, record t { rows = left })

abbrev pub is_blank : String → Bool
is_blank content = str_eq (trim content) ""

abbrev pub result_of : Option IdempotencyKey → MessageCheckResult
result_of none = record { is_duplicate = false; existing_key_id = none }
result_of (some r) = record { is_duplicate = true; existing_key_id = some r.id }

module _ (hash : String → String) where
  abbrev pub is_fresh_key : ℕ → String → String → IdempotencyKey → Bool
  is_fresh_key now channel content r =
      same_key channel (hash content) r && leb (cutoff_date now) r.first_seen_at

  unfoldable pub check_message : ℕ → String → String → Keys → MessageCheckResult
  check_message now channel content t =
      if is_blank content
      then result_of none
      else result_of (find (is_fresh_key now channel content) t.rows)

  abbrev or_unchanged : Keys → Option Keys → Keys
  or_unchanged t none = t
  or_unchanged t (some t') = t'

  unfoldable pub write_key : ℕ → String → String → Option ℕ → ℕ → Keys → Keys
  write_key now channel content message strategy t =
      if is_blank content
      then t
      else or_unchanged t (
          create
            (record {
              id = t.next_id;
              channel_id = channel;
              content_hash = hash content;
              first_seen_at = now;
              message_id = message;
              strategy_id = some strategy;
            })
            t)
