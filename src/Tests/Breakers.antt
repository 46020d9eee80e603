-- ===== src/Tests/Breakers.antt =====
-- The breaker's theorems at concrete inputs.
use llm_inference_gateway.Base.{
  ℕ, ◌+◌, ◌≡◌, refl, true, false, List, [], ◌∷◌, some, arith, replicate, text_eq, if◌then◌else◌,
  ltb,
}
use llm_inference_gateway.Tests.{
  openai, mistral, gpt, half, breaker_config, fresh, opened, readings,
}
use llm_inference_gateway.Breaker.{
  Breaker, closed, half_open, open_state, new_breaker, tally, record_failure, allow,
}
use llm_inference_gateway.Breaker.Invariant.{
  IsValidConfig, IsValid, Call, allows, fails, run, run-new_breaker-IsValid,
}
use llm_inference_gateway.Breaker.Window.{
  Outcome, window_of, recent, Chronological, tally-window_of,
}
use llm_inference_gateway.Breaker.Trip.{IsThreshold, Follows, outage_opens}
use llm_inference_gateway.Breaker.Recovery.{Recovers, probe_successes-close, Reopened}
use llm_inference_gateway.Breaker.Registry.{NulFree}
use llm_inference_gateway.Breaker.Prober.{healthy, Round, probe, probe_all, IsAlone, prober_stalls}

breaker_config-IsValidConfig : IsValidConfig breaker_config
breaker_config-IsValidConfig = record {
  requests_positive = omega arith;
  window_positive = omega arith;
  cooldown_positive = omega arith;
  cooldown_ordered = omega arith;
  cooldown_small = omega arith;
  probes_positive = omega arith;
}

-- An outage, a probe after the cooldown that fails, and a call during the next cooldown.
abbrev outage : List Call
outage =
    fails readings
    ∷ fails readings
    ∷ fails readings
    ∷ fails readings
    ∷ allows 106000000000
    ∷ fails readings
    ∷ allows 107000000000
    ∷ []

run_example : IsValid (run outage (new_breaker openai gpt breaker_config))
run_example = run-new_breaker-IsValid openai gpt breaker_config outage breaker_config-IsValidConfig

-- Outcomes at seconds 103, 95 and 91; the last two are in buckets that later seconds may claim.
abbrev log : List Outcome
log =
    record { at = 103; success = false }
    ∷ record { at = 95; success = true }
    ∷ record { at = 91; success = false }
    ∷ []

log-Chronological : Chronological 104 log
log-Chronological = (omega arith, (omega arith, (omega arith, tt)))

tally_example : tally 104 10 (window_of 10 log) ≡ recent 104 10 log
tally_example = tally-window_of 10 104 log (omega arith) log-Chronological

fresh-Follows : Follows fresh []
unfolding new_breaker window_of
fresh-Follows = record { still_closed = refl; window_positive = omega arith; ring = refl }

half-IsThreshold : IsThreshold half
half-IsThreshold = record { reached_by_all = λ n h. ground arith }

outage_example :
    (run (replicate 5 (fails readings)) (new_breaker openai gpt breaker_config)).state
    ≡ (if ltb 5 4 then closed else open_state)
outage_example =
    outage_opens openai gpt breaker_config readings 5 breaker_config-IsValidConfig half-IsThreshold
      refl

close_example : Recovers 2 6000000000 6 opened
unfolding new_breaker
close_example = probe_successes-close 6000000000 6 opened refl refl (omega arith)

fresh-IsValid : IsValid opened
unfolding new_breaker
fresh-IsValid = record {
  config_valid = breaker_config-IsValidConfig;
  window_positive = omega arith;
  ring_full = refl;
  gauge_current = refl;
  cooldown_low = omega arith;
  cooldown_high = omega arith;
  slots_bounded = λ e. ground arith;
  wins_bounded = λ e. ground arith;
}

-- The breaker after one probe that failed.
abbrev reopened : Breaker
reopened = record_failure readings (allow 6000000000 opened).0

reopened-Reopened : Reopened opened 1 reopened
unfolding new_breaker
reopened-Reopened = Reopened.again 6000000000 readings Reopened.here refl

openai-NulFree : NulFree openai
openai-NulFree = ground arith

mistral-NulFree : NulFree mistral
mistral-NulFree = ground arith

-- A round that nobody disturbs, at this instant.
abbrev round : ℕ → Round
round now = record {
  now_ready = now;
  now_allow = now;
  success_second = 6;
  failure_readings = readings;
  providers = λ name. some (healthy true);
  before_ready = λ b. b;
  before_allow = λ b. b;
  during_check = λ b. b;
}

round-IsAlone : (now : ℕ) → IsAlone (round now)
round-IsAlone now = λ c. (refl, refl, refl)

stall_example :
    ((probe_all (round 7000000000 ∷ []) (probe (round 6000000000) opened)).state ≡ half_open)
    × ((probe_all (round 7000000000 ∷ []) (probe (round 6000000000) opened)).half_open_wins ≡ 1)
    × ((probe_all (round 7000000000 ∷ []) (probe (round 6000000000) opened)).half_open_allowed + 1
        ≡ 2)
unfolding new_breaker
stall_example =
    prober_stalls (round 6000000000) (round 7000000000 ∷ []) opened (round-IsAlone 6000000000) refl
      refl refl (omega arith) refl
