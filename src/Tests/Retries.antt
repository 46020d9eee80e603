-- ===== src/Tests/Retries.antt =====
-- The retry engine's theorems at concrete inputs.
use llm_inference_gateway.Base.{
  ℕ, ◌*◌, ◌≡◌, ◌≤◌, ◌<◌, refl, true, false, List, [], ◌∷◌, none, map, arith, length, if◌then◌else◌,
  ltb, codes,
}
use llm_inference_gateway.Tests.{openai, mistral, gpt, breaker_config, readings, spent}
use llm_inference_gateway.Breaker.{half_open}
use llm_inference_gateway.Breaker.Invariant.{allows, run}
use llm_inference_gateway.Breaker.HalfOpen.{granted}
use llm_inference_gateway.Breaker.Registry.{new_registry, put, breaker_for, key}
use llm_inference_gateway.Providers.{classify_by_status}
use llm_inference_gateway.Retry.Calls.{status_of}
use llm_inference_gateway.Retry.Leak.{IsTerminal, breaker_of, calls, terminal_calls_leak}
use llm_inference_gateway.Router.{Candidate, Tier}
use llm_inference_gateway.Router.Tiers.{flatten}
use llm_inference_gateway.Retry.{
  Engine, Oracle, World, ProviderError, answered, failed, api, transport,
}
use llm_inference_gateway.Retry.Pick.{total_weight, select, select-share}
use llm_inference_gateway.Retry.Execute.{execute}
use llm_inference_gateway.Retry.Report.{Report, execute_bounded}

-- A source of numbers that always draws 0.
draws : (n : ℕ) → 0 < n → 0 < n
draws n h = h

abbrev heavy : Candidate
heavy = record { provider_name = openai; model = gpt; weight = 3 }

abbrev light : Candidate
light = record { provider_name = mistral; model = codes "large"; weight = 1 }

share_example : select 3 heavy (light ∷ []) ≡ light
unfolding total_weight
share_example =
    select-share (heavy ∷ []) light [] heavy (light ∷ []) 3 refl (omega arith) (omega arith)

-- The first call fails with status 503 and the later ones return 7; no draw, no wait.
abbrev oracle : Oracle ℕ
oracle = record {
  complete = λ n name model timeout.
      if ltb n 3
      then failed (api (record { status_code = 503; message = []; retry_after = 0 }))
      else answered 7;
  duration = λ n. 5;
  monotonic = λ n. n;
  unix = λ n. 100;
  failure_readings = λ n. readings;
  rand = λ n k. 0;
  remaining = λ n. none;
  timer_first = λ n. true;
  is_done = λ n. false;
  others = λ n r. r;
}

abbrev engine : Engine
engine = record {
  is_configured = λ name. true;
  provider_timeout = λ name. 30000000000;
  cfg = record { max_attempts_per_provider = 2; base_backoff = 100; max_backoff = 1000 };
}

abbrev tiers : List Tier
tiers = record { candidates = heavy ∷ light ∷ [] } ∷ []

abbrev world : World
world = record {
  registry = new_registry breaker_config;
  queries = 0;
  attempts = [];
  provider_duration = 0;
}

bounded_example :
    let end = (execute oracle engine tiers world).0 in
    (length end.attempts ≤ length (flatten tiers) * 2)
    × (end.provider_duration ≤ length (flatten tiers) * 2 * 5)
bounded_example = execute_bounded oracle engine tiers world 5 (omega arith) (λ n. omega arith)

-- A provider whose connections all break, and its half-open breaker with two slots left.
abbrev broken_connection : ProviderError
broken_connection = transport (codes "connection reset")

abbrev refusing : Oracle ℕ
refusing = record oracle { complete = λ n name model timeout. failed broken_connection }

abbrev half_open_world : World
half_open_world = record world {
  registry = put openai gpt (record spent { half_open_allowed = 2 }) (new_registry breaker_config);
}

refusing-IsTerminal : IsTerminal refusing heavy broken_connection
unfolding classify_by_status status_of
refusing-IsTerminal = record { alone = λ n r. refl; fails = λ n timeout. refl; ends = refl }

leak_example :
    let b = breaker_of heavy (calls refusing engine heavy 2 half_open_world) in
    (b.state ≡ half_open)
    × (run (map allows (7000000000 ∷ 900000000000 ∷ [])) b ≡ b)
    × (granted (7000000000 ∷ 900000000000 ∷ []) b ≡ 0)
unfolding put breaker_for new_registry key
leak_example =
    terminal_calls_leak refusing engine heavy broken_connection refusing-IsTerminal (ground arith) 2
      half_open_world (7000000000 ∷ 900000000000 ∷ []) (omega arith) refl refl
