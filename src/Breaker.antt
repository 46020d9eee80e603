-- ===== src/Breaker.antt =====
-- internal/breaker/breaker.go: the circuit breaker of one (provider, model) pair.
-- Each method takes the clock readings that it makes; a mutating method returns the new breaker.
-- Durations are int64 patterns (Base/Word.antt); `time.Since` is a difference of monotonic readings.
pub mod Invariant
pub mod Window
pub mod Trip
pub mod HalfOpen
pub mod Recovery
pub mod Registry
pub mod Prober
use llm_inference_gateway.Base.{
  ℕ, zero, suc, ◌+◌, ◌-◌, ◌*◌, ◌/◌, ◌%◌, Bool, true, false, ◌&&◌, List, [], ◌∷◌, ltb, leb,
  if◌then◌else◌, nat_beq, get_or, set, replicate, map, Text,
}
use llm_inference_gateway.Base.Word.{le64, min64, mul64}

pub data State : Type 0 where
  closed half_open open_state : State

-- The value of the constant, which the gauge shows.
abbrev pub state_code : State → ℕ
state_code closed = 0
state_code half_open = 1
state_code open_state = 2

-- A threshold is known by the comparison that the code makes with it:
-- `reaches failures total` is `float64(failures)/float64(total) >= ErrorRateThreshold`.
pub record Threshold : Type 0 where
  pub reaches : ℕ → ℕ → Bool

pub record Config : Type 0 where
  pub error_rate_threshold : Threshold
  pub min_requests : ℕ
  pub window : ℕ
  pub cooldown : ℕ
  pub cooldown_max : ℕ
  pub half_open_probes : ℕ

pub record Bucket : Type 0 where
  pub unix_sec : ℕ
  pub successes : ℕ
  pub failures : ℕ

abbrev pub empty_bucket : Bucket
empty_bucket = record { unix_sec = 0; successes = 0; failures = 0 }

-- `gauge` is the last value that this breaker wrote to `gateway_breaker_state`.
pub record Breaker : Type 0 where
  pub provider_name : Text
  pub model : Text
  pub cfg : Config
  pub state : State
  pub buckets : List Bucket
  pub window_seconds : ℕ
  pub cur_cooldown : ℕ
  pub opened_at : ℕ
  pub half_open_allowed : ℕ
  pub half_open_wins : ℕ
  pub gauge : ℕ

-- `int64(d.Seconds())`, and at least one bucket.
abbrev pub seconds_of : ℕ → ℕ
seconds_of d = let s = d / 1000000000 in if ltb s 1 then 1 else s

unfoldable pub new_breaker : Text → Text → Config → Breaker
new_breaker provider_name model cfg = record {
  provider_name = provider_name;
  model = model;
  cfg = cfg;
  state = closed;
  buckets = replicate (seconds_of cfg.window) empty_bucket;
  window_seconds = seconds_of cfg.window;
  cur_cooldown = cfg.cooldown;
  opened_at = 0;
  half_open_allowed = 0;
  half_open_wins = 0;
  gauge = state_code closed;
}

abbrev pub set_state : State → Breaker → Breaker
set_state s b = record b { state = s; gauge = state_code s }

-- `time.Since(b.openedAt) >= b.curCooldown`
abbrev pub cooled_down : ℕ → Breaker → Bool
cooled_down now b = le64 b.cur_cooldown (now - b.opened_at)

ready_in : State → ℕ → Breaker → Bool
ready_in closed now b = true
ready_in open_state now b = cooled_down now b
ready_in half_open now b = ltb 0 b.half_open_allowed

unfoldable pub ready : ℕ → Breaker → Bool
unfolding ready_in
ready now b = ready_in b.state now b

-- The first `if` of `Allow`.
admit : State → ℕ → Breaker → Breaker
admit open_state now b =
    if cooled_down now b
    then record (set_state half_open b) {
      half_open_allowed = b.cfg.half_open_probes;
      half_open_wins = 0;
    }
    else b
admit _ now b = b

-- Its `switch`.
take_slot : State → Breaker → Breaker × Bool
take_slot closed b = (b, true)
take_slot half_open b =
    if leb b.half_open_allowed 0
    then (b, false)
    else (record b { half_open_allowed = b.half_open_allowed - 1 }, true)
take_slot open_state b = (b, false)

unfoldable pub allow : ℕ → Breaker → Breaker × Bool
unfolding admit take_slot
allow now b = let b' = admit b.state now b in take_slot b'.state b'

abbrev pub bump : Bool → Bucket → Bucket
bump true k = record k { successes = k.successes + 1 }
bump false k = record k { failures = k.failures + 1 }

-- The bucket of the second `now`, emptied if it still holds another second.
abbrev pub claim : ℕ → Bucket → Bucket
claim now k = if nat_beq k.unix_sec now then k else record empty_bucket { unix_sec = now }

-- `record`, on the buckets: `now` is `time.Now().Unix()`.
unfoldable pub record_outcome : Bool → ℕ → ℕ → List Bucket → List Bucket
record_outcome success now window_seconds buckets =
    let idx = now % window_seconds in
    set buckets idx (bump success (claim now (get_or buckets idx empty_bucket)))

-- `age >= 0 && age < b.windowSeconds`
abbrev pub is_fresh : ℕ → ℕ → Bucket → Bool
is_fresh now window_seconds k = leb k.unix_sec now && ltb (now - k.unix_sec) window_seconds

-- The loop of `shouldTrip`, over the pair (total, failures).
unfoldable pub tally : ℕ → ℕ → List Bucket → ℕ × ℕ
tally now w [] = (0, 0)
tally now w (k ∷ ks) =
    let (total, failures) = tally now w ks in
    if is_fresh now w k
    then (k.successes + k.failures + total, k.failures + failures)
    else (total, failures)

unfoldable pub should_trip : ℕ → Breaker → Bool
should_trip now b =
    let (total, failures) = tally now b.window_seconds b.buckets in
    if ltb total b.cfg.min_requests
    then false
    else b.cfg.error_rate_threshold.reaches failures total

unfoldable pub reset_window : Breaker → Breaker
reset_window b = record b { buckets = map (λ _. empty_bucket) b.buckets }

record_success_in : State → ℕ → Breaker → Breaker
unfolding reset_window
record_success_in half_open now b =
    let b' = record b { half_open_wins = b.half_open_wins + 1 } in
    if leb b'.cfg.half_open_probes b'.half_open_wins
    then reset_window (record (set_state closed b') { cur_cooldown = b'.cfg.cooldown })
    else b'
record_success_in closed now b = record b {
  buckets = record_outcome true now b.window_seconds b.buckets;
}
record_success_in open_state now b = b

-- `now` is the Unix second read by `record`.
unfoldable pub record_success : ℕ → Breaker → Breaker
unfolding record_success_in
record_success now b = record_success_in b.state now b

-- What a failure reads from the clock: `record` and `shouldTrip` each a Unix second, and the
-- monotonic instant stored in `openedAt`.
pub record Readings : Type 0 where
  pub recorded : ℕ
  pub tripped : ℕ
  pub instant : ℕ

record_failure_in : State → Readings → Breaker → Breaker
record_failure_in half_open r b = record (set_state open_state b) {
  cur_cooldown = min64 (mul64 b.cur_cooldown 2) b.cfg.cooldown_max;
  opened_at = r.instant;
}
record_failure_in closed r b =
    let b' = record b { buckets = record_outcome false r.recorded b.window_seconds b.buckets } in
    if should_trip r.tripped b'
    then record (set_state open_state b') { cur_cooldown = b'.cfg.cooldown; opened_at = r.instant }
    else b'
record_failure_in open_state r b = b

unfoldable pub record_failure : Readings → Breaker → Breaker
unfolding record_failure_in
record_failure r b = record_failure_in b.state r b
