-- ===== src/Breaker/Invariant.antt =====
-- internal/breaker/breaker.go: the state of a breaker between two calls of its methods.
use llm_inference_gateway.Base.{
  ℕ, ◌%◌, ◌≤◌, ◌<◌, ◌≡◌, Bool, true, false, List, [], ◌∷◌, arith, length, length-set,
  length-replicate, length-map, Text,
}
use llm_inference_gateway.Breaker.{
  half_open, state_code, Config, Bucket, empty_bucket, Breaker, Readings, new_breaker, seconds_of,
  allow, record_outcome, record_success, record_failure,
}

-- What `BreakerConfig.validate` asks for, with durations far from the end of int64 (146 years).
pub record IsValidConfig (c : Config) : Type 0 where
  pub requests_positive : 1 ≤ c.min_requests
  pub window_positive : 0 < c.window
  pub cooldown_positive : 0 < c.cooldown
  pub cooldown_ordered : c.cooldown ≤ c.cooldown_max
  pub cooldown_small : c.cooldown_max < 4611686018427387904
  pub probes_positive : 1 ≤ c.half_open_probes

pub record IsValid (b : Breaker) : Type 0 where
  pub config_valid : IsValidConfig b.cfg
  pub window_positive : 0 < b.window_seconds
  pub ring_full : length b.buckets ≡ b.window_seconds
  pub gauge_current : b.gauge ≡ state_code b.state
  pub cooldown_low : b.cfg.cooldown ≤ b.cur_cooldown
  pub cooldown_high : b.cur_cooldown ≤ b.cfg.cooldown_max
  pub slots_bounded : b.state ≡ half_open → b.half_open_allowed ≤ b.cfg.half_open_probes
  pub wins_bounded : b.state ≡ half_open → b.half_open_wins < b.cfg.half_open_probes

-- A method call, with the clock readings that it makes.
pub data Call : Type 0 where
  allows succeeds : ℕ → Call
  fails : Readings → Call

unfoldable pub step : Call → Breaker → Breaker
step (allows now) b = (allow now b).0
step (succeeds now) b = record_success now b
step (fails r) b = record_failure r b

unfoldable pub run : List Call → Breaker → Breaker
run [] b = b
run (c ∷ cs) b = run cs (step c b)

pub length-record_outcome :
    (success : Bool) (now w : ℕ) (ks : List Bucket)
    → length (record_outcome success now w ks) ≡ length ks
unfolding record_outcome
length-record_outcome success now w ks = length-set ks (now % w) _

new_breaker-IsValid : (p m : Text) (c : Config) → IsValidConfig c → IsValid (new_breaker p m c)
unfolding new_breaker
new_breaker-IsValid p m c v = ground (arith, length-replicate (seconds_of c.window) empty_bucket)

pub allow-IsValid : (now : ℕ) (b : Breaker) → IsValid b → IsValid (allow now b).0
unfolding allow
allow-IsValid now b v = ground arith

record_success-IsValid : (now : ℕ) (b : Breaker) → IsValid b → IsValid (record_success now b)
unfolding record_success
record_success-IsValid now b v = ground (
  arith,
  length-record_outcome true now b.window_seconds b.buckets,
  length-map (λ (_ : Bucket). empty_bucket) b.buckets,
)

pub record_failure-IsValid : (r : Readings) (b : Breaker) → IsValid b → IsValid (record_failure r b)
unfolding record_failure
record_failure-IsValid r b v =
    ground (arith, length-record_outcome false r.recorded b.window_seconds b.buckets)

pub step-IsValid : (c : Call) (b : Breaker) → IsValid b → IsValid (step c b)
unfolding step
step-IsValid (allows now) b v = allow-IsValid now b v
step-IsValid (succeeds now) b v = record_success-IsValid now b v
step-IsValid (fails r) b v = record_failure-IsValid r b v

pub run-IsValid : (cs : List Call) (b : Breaker) → IsValid b → IsValid (run cs b)
unfolding run
run-IsValid [] b v = v
run-IsValid (c ∷ cs) b v = run-IsValid cs (step c b) (step-IsValid c b v)

-- A breaker with a validated configuration, after any sequence of method calls at any clock
-- readings, has a full ring of buckets, a gauge that shows its state, a cooldown between the
-- configured one and the ceiling, and in HALF_OPEN at most the configured number of slots left
-- and fewer wins than would close it.
pub run-new_breaker-IsValid :
    (p m : Text) (c : Config) (cs : List Call)
    → IsValidConfig c
    → IsValid (run cs (new_breaker p m c))
run-new_breaker-IsValid p m c cs v = run-IsValid cs _ (new_breaker-IsValid p m c v)
