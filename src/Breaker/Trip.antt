-- ===== src/Breaker/Trip.antt =====
-- internal/breaker/breaker.go: `RecordFailure` in CLOSED, and `shouldTrip`.
use native.Mathlib.Nat.{zero-add}
use llm_inference_gateway.Base.{
  ◌∙◌, ℕ, zero, suc, ◌+◌, ◌≤◌, ◌<◌, ◌≡◌, refl, Bool, true, false, List, [], ◌∷◌, arith, ltb,
  if◌then◌else◌, not, ◌&&◌, ◌⊎◌, replicate, Text, inl, inr,
}
use llm_inference_gateway.Breaker.{
  closed, open_state, Threshold, Config, Breaker, Readings, record_failure, record_success,
  should_trip, new_breaker, seconds_of, record_outcome,
}
use llm_inference_gateway.Breaker.Window.{
  Outcome, window_of, recent, Chronological, tally-window_of,
}
use llm_inference_gateway.Breaker.Invariant.{IsValidConfig, fails, step, run}

-- What `breaker.error_rate_threshold <= 1` gives: a quotient of equal numbers is 1, and reaches it.
pub record IsThreshold (t : Threshold) : Type 0 where
  pub reached_by_all : (n : ℕ) → 0 < n → t.reaches n n ≡ true

-- The rule that the breaker implements, on the number of outcomes and of failures.
pub trips : Config → ℕ × ℕ → Bool
trips c (total, failures) =
    not (ltb total c.min_requests) && c.error_rate_threshold.reaches failures total

-- The breaker is closed, and its ring stands for `log`.
pub record Follows (b : Breaker) (log : List Outcome) : Type 0 where
  pub still_closed : b.state ≡ closed
  pub window_positive : 0 < b.window_seconds
  pub ring : b.buckets ≡ window_of b.window_seconds log

abbrev pub failure_at : ℕ → Outcome
failure_at t = record { at = t; success = false }

should_trip-trips :
    (b : Breaker) (now : ℕ) (log : List Outcome)
    → 0 < b.window_seconds
    → b.buckets ≡ window_of b.window_seconds log
    → Chronological now log
    → should_trip now b ≡ trips b.cfg (recent now b.window_seconds log)
unfolding should_trip trips
should_trip-trips b now log pos ring c =
    rw (ring, tally-window_of b.window_seconds now log pos c) (ground arith)

-- The breaker when `shouldTrip` looks at it.
abbrev after_record : Breaker → ℕ → Breaker
after_record b now = record b { buckets = record_outcome false now b.window_seconds b.buckets }

ring-after_record :
    (b : Breaker) (now : ℕ) (log : List Outcome)
    → Follows b log
    → (after_record b now).buckets ≡ window_of b.window_seconds (failure_at now ∷ log)
unfolding window_of
ring-after_record b now log f = rw f.ring

-- A failure reported to a closed breaker whose ring stands for `log` opens it exactly when the
-- outcomes of the last window, this failure included, are at least `min_requests` and reach the
-- error-rate threshold. It then starts the configured cooldown at the failure's instant; otherwise
-- it stays closed and its ring stands for the log with the failure added. The clock is assumed not
-- to go back, within the log and between the failure's own readings.
pub record_failure-trips :
    (b : Breaker) (r : Readings) (log : List Outcome)
    → Follows b log
    → Chronological r.recorded log
    → r.recorded ≤ r.tripped
    → let b' = record_failure r b in
      let log' = failure_at r.recorded ∷ log in
      ((trips b.cfg (recent r.tripped b.window_seconds log') ≡ true)
        × (b'.state ≡ open_state)
        × (b'.cur_cooldown ≡ b.cfg.cooldown)
        × (b'.opened_at ≡ r.instant))
      ⊎ ((trips b.cfg (recent r.tripped b.window_seconds log') ≡ false) × Follows b' log')
unfolding record_failure window_of
record_failure-trips b r log f c le = ground (
  arith,
  should_trip-trips (after_record b r.recorded) r.tripped (failure_at r.recorded ∷ log)
      f.window_positive (ring-after_record b r.recorded log f) (le, c),
  ring-after_record b r.recorded log f,
)

new_breaker-Follows :
    (p m : Text) (c : Config) → 0 < seconds_of c.window → Follows (new_breaker p m c) []
unfolding new_breaker window_of
new_breaker-Follows p m c pos = record { still_closed = refl; window_positive = pos; ring = refl }

record_success-Follows :
    (b : Breaker) (now : ℕ) (log : List Outcome)
    → Follows b log
    → Follows (record_success now b) (record { at = now; success = true } ∷ log)
unfolding record_success window_of
record_success-Follows b now log f = ground arith

recent-failures : (now w k : ℕ) → 0 < w → recent now w (replicate k (failure_at now)) ≡ (k, k)
unfolding recent
recent-failures now w zero pos = refl
recent-failures now w (suc k) pos = ground (arith, recent-failures now w k pos)

Chronological-replicate : (now k : ℕ) → Chronological now (replicate k (failure_at now))
Chronological-replicate now zero = tt
Chronological-replicate now (suc k) = (omega arith, Chronological-replicate now k)

record_failure-keeps_cfg :
    (r : Readings) (b : Breaker)
    → ((record_failure r b).cfg ≡ b.cfg) × ((record_failure r b).window_seconds ≡ b.window_seconds)
unfolding record_failure
record_failure-keeps_cfg r b = ground arith

-- One failure of an outage, when `k` came before it.
outage_step :
    (b : Breaker) (r : Readings) (k : ℕ)
    → IsThreshold b.cfg.error_rate_threshold
    → r.tripped ≡ r.recorded
    → Follows b (replicate k (failure_at r.recorded))
    → ((b.cfg.min_requests ≤ suc k) × ((record_failure r b).state ≡ open_state))
      ⊎ ((suc k < b.cfg.min_requests)
          × Follows (record_failure r b) (replicate (suc k) (failure_at r.recorded)))
unfolding trips
outage_step b r k t same f = ground (
  arith,
  record_failure-trips b r (replicate k (failure_at r.recorded)) f
      (Chronological-replicate r.recorded k) (omega arith),
  recent-failures r.recorded b.window_seconds (suc k) f.window_positive,
  t.reached_by_all (suc k),
)

open_absorbs :
    (k : ℕ) (r : Readings) (b : Breaker)
    → b.state ≡ open_state
    → (run (replicate k (fails r)) b).state ≡ open_state
unfolding run step record_failure
open_absorbs zero r b e = e
open_absorbs (suc k) r b e = open_absorbs k r (record_failure r b) (ground arith)

outage_from :
    (k j : ℕ) (b : Breaker) (r : Readings)
    → IsThreshold b.cfg.error_rate_threshold
    → r.tripped ≡ r.recorded
    → j < b.cfg.min_requests
    → Follows b (replicate j (failure_at r.recorded))
    → (run (replicate k (fails r)) b).state
      ≡ (if ltb (j + k) b.cfg.min_requests then closed else open_state)
unfolding run step
outage_from zero j b r t same lt f = ground (arith, f.still_closed)
outage_from (suc k) j b r t same lt f = elim (outage_step b r j t same f) [
  | inl (full, e) ↦ rw (open_absorbs k r (record_failure r b) e) (ground arith)
  | inr (room, f') ↦
      let (c, w) = record_failure-keeps_cfg r b in
      rw (outage_from k (suc j) (record_failure r b) r (rw c t) same (rw c room) f') (ground arith)
]

-- From a new breaker with a validated configuration, `k` failures in one second leave it closed
-- when they are fewer than `min_requests`, and open otherwise: the volume gate holds it until
-- then, and a total outage opens it at once after that. The threshold's comparison is assumed to
-- be passed by a quotient of 1.
pub outage_opens :
    (p m : Text) (c : Config) (r : Readings) (k : ℕ)
    → IsValidConfig c
    → IsThreshold c.error_rate_threshold
    → r.tripped ≡ r.recorded
    → (run (replicate k (fails r)) (new_breaker p m c)).state
      ≡ (if ltb k c.min_requests then closed else open_state)
unfolding new_breaker
outage_opens p m c r k v t same =
    let from_none =
      outage_from k 0 (new_breaker p m c) r t same v.requests_positive
        (new_breaker-Follows p m c (ground arith)) in
    from_none ∙ rw (zero-add k)
