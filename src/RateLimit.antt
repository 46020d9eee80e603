-- ===== src/RateLimit.antt =====
-- internal/ratelimit: the two Lua scripts that Redis runs atomically, and the Go code around them.
-- Token counts are exact, in units of a sixty-millionth of a token, and times in microseconds, so a
-- bucket of capacity `cap` tokens per minute refills by `cap` units each microsecond. The scripts
-- compute the same in doubles. `bucket_key` keeps the scope and the id of the Redis key apart.
use llm_inference_gateway.Base.{
  ℕ, zero, suc, ◌+◌, ◌-◌, ◌*◌, ◌/◌, ◌≡◌, Bool, true, false, List, [], ◌∷◌, Option, none, some, ltb,
  leb, nat_beq, if◌then◌else◌, Text,
}
use llm_inference_gateway.Base.Int.{ℤ, pos, negsuc, ◌+ℤ◌, ◌-ℤ◌, ltb_ℤ, min_ℤ, pos_part, neg_part}
pub mod Atomic
pub mod Refill

pub data Scope : Type 0 where
  org team key : Scope

-- The units of one token.
abbrev pub token : ℕ
token = 60000000

-- `tokens` and `last_refill` of a hash, and when it expires.
pub record Bucket : Type 0 where
  pub tokens : ℤ
  pub last_refill : ℕ
  pub expires_at : ℕ

-- The three hashes of a request; the scripts touch no other.
pub record Buckets : Type 0 where
  pub org_bucket : Option Bucket
  pub team_bucket : Option Bucket
  pub key_bucket : Option Bucket

pub record Capacities : Type 0 where
  pub org_capacity : ℕ
  pub team_capacity : ℕ
  pub key_capacity : ℕ

-- Redis deletes an expired key.
unfoldable pub live : ℕ → Option Bucket → Option Bucket
live now none = none
live now (some b) = if leb b.expires_at now then none else some b

-- The balance after the refill since the last one, at most the capacity; a missing key is full.
unfoldable pub balance : ℕ → ℕ → Option Bucket → ℤ
balance now cap none = pos (cap * token)
balance now cap (some b) = min_ℤ (pos (cap * token)) (b.tokens +ℤ pos ((now - b.last_refill) * cap))

-- `HSET` and `EXPIRE`, with the bucket TTL in microseconds.
unfoldable pub store : ℕ → ℕ → ℤ → Option Bucket
store now ttl tokens = some (record { tokens = tokens; last_refill = now; expires_at = now + ttl })

-- `{allowed, retry_after_ms, limiting_scope, remaining_key_tokens}`. The retry delay is
-- `math.ceil((deficit / rate) * 1000)`; it has no value where the rate is 0.
pub data Reply : Type 0 where
  reserved : ℤ → Reply
  limited : Option ℕ → Scope → Reply

-- `deficit / rate` seconds in milliseconds, rounded up: a unit of deficit takes `1 / cap`
-- microseconds.
unfoldable pub retry_after_ms : ℤ → ℕ → Option ℕ
retry_after_ms deficit cap =
    if nat_beq cap 0 then none else some ((pos_part deficit + cap * 1000 - 1) / (cap * 1000))

-- One round of the first loop of reserve.lua: the balance, and the rejection if it is short.
unfoldable pub check : ℕ → ℕ → ℤ → Scope → Option Bucket → ℤ × Option Reply
unfolding live balance retry_after_ms
check now cap cost scope b =
    let tokens = balance now cap (live now b) in
    (
      tokens,
      if ltb_ℤ tokens cost
          then some (limited (retry_after_ms (cost -ℤ tokens) cap) scope)
          else none,
    )

-- reserve.lua: check all three scopes, and only then deduct from all three.
unfoldable pub reserve_script : ℕ → ℕ → Capacities → ℤ → Buckets → Buckets × Reply
unfolding check store
reserve_script now ttl caps cost bs =
    let (org_balance, org_short) = check now caps.org_capacity cost org bs.org_bucket in
    let (team_balance, team_short) = check now caps.team_capacity cost team bs.team_bucket in
    let (key_balance, key_short) = check now caps.key_capacity cost key bs.key_bucket in
    elim org_short [
      | some r ↦ (bs, r)
      | none ↦ elim team_short [
        | some r ↦ (bs, r)
        | none ↦ elim key_short [
          | some r ↦ (bs, r)
          | none ↦ (
            record {
              org_bucket = store now ttl (org_balance -ℤ cost);
              team_bucket = store now ttl (team_balance -ℤ cost);
              key_bucket = store now ttl (key_balance -ℤ cost);
            },
            reserved (key_balance -ℤ cost),
          )
        ]
      ]
    ]

-- One round of adjust.lua: a refund is clamped at the capacity, a charge may go below 0.
unfoldable pub adjust_bucket : ℕ → ℕ → ℕ → ℤ → Option Bucket → Option Bucket
unfolding live balance store
adjust_bucket now ttl cap delta b =
    let tokens = balance now cap (live now b) +ℤ delta in
    store now ttl (if ltb_ℤ (pos (cap * token)) tokens then pos (cap * token) else tokens)

unfoldable pub adjust_script : ℕ → ℕ → Capacities → ℤ → Buckets → Buckets
unfolding adjust_bucket
adjust_script now ttl caps delta bs = record {
  org_bucket = adjust_bucket now ttl caps.org_capacity delta bs.org_bucket;
  team_bucket = adjust_bucket now ttl caps.team_capacity delta bs.team_bucket;
  key_bucket = adjust_bucket now ttl caps.key_capacity delta bs.key_bucket;
}

-- `bucketTTL`, two minutes.
abbrev pub bucket_ttl : ℕ
bucket_ttl = 120000000

pub record Decision : Type 0 where
  pub allowed : Bool
  pub retry_after_ms : Option ℕ
  pub limiting_scope : Option Scope
  pub remaining : ℤ

-- A reply becomes a decision; `math.floor` of the key's balance is left in units.
unfoldable pub decision_of : Reply → Decision
decision_of (reserved left) = record {
  allowed = true;
  retry_after_ms = some 0;
  limiting_scope = none;
  remaining = left;
}
decision_of (limited after scope) = record {
  allowed = false;
  retry_after_ms = after;
  limiting_scope = some scope;
  remaining = pos 0;
}

-- `Limiter.Reserve`: without `redis_up` the script does not run, and `fail_open` decides. A script
-- that runs but whose reply is lost is not modelled.
unfoldable pub reserve :
    (redis_up fail_open : Bool) → ℕ → Capacities → ℤ → Buckets → Buckets × Option Decision
unfolding reserve_script decision_of
reserve redis_up fail_open now caps cost bs =
    if redis_up
    then (let (bs', reply) = reserve_script now bucket_ttl caps cost bs in
        (bs', some (decision_of reply)))
    else (
      bs,
      if fail_open
          then some (record {
            allowed = true;
            retry_after_ms = some 0;
            limiting_scope = none;
            remaining = pos 0;
          })
          else none,
    )

-- `Limiter.Adjust`: nothing is done for a delta of 0; `false` is an error.
unfoldable pub adjust : (redis_up : Bool) → ℕ → Capacities → ℤ → Buckets → Buckets × Bool
unfolding adjust_script
adjust redis_up now caps (pos zero) bs = (bs, true)
adjust redis_up now caps delta bs =
    if redis_up then (adjust_script now bucket_ttl caps delta bs, true) else (bs, false)
