-- ===== src/Retry/Report.antt =====
-- internal/retry/engine.go: the result of `Execute` and the attempts in it.
use mathlib.Core.List.{Memᴰ}
use llm_inference_gateway.Base.{
  ℕ, arith, ◌*◌, ◌≤◌, ◌<◌, ◌≡◌, ◌≢◌, List, [], ◌∷◌, ◌++◌, some, length, All,
}
use llm_inference_gateway.Providers.{terminal, classify_by_status}
use llm_inference_gateway.Router.{Candidate, Tier}
use llm_inference_gateway.Router.Tiers.{flatten}
use llm_inference_gateway.Retry.{
  Attempt, Engine, Oracle, World, ProviderError, no_healthy_provider, context_done, provider,
}
use llm_inference_gateway.Retry.Calls.{status_of}
use llm_inference_gateway.Retry.Trail.{entry, IsTransient}
use llm_inference_gateway.Retry.Execute.{Result, Outcome, ok, error, tiers_loop, execute}
use llm_inference_gateway.Retry.Paid.{Paid, tiers_loop-Paid}
use llm_inference_gateway.Retry.Used.{AllUsed}
use llm_inference_gateway.Retry.Walk.{tiers_loop-Walked}

-- The state at the begin of `Execute`.
abbrev pub begun : World → World
begun w = record w { attempts = []; provider_duration = 0 }

-- What the caller is told, by its attempts.
pub data Report {R : Type 0} (o : Oracle R) (e : Engine) (tiers : List Tier) (w : World)
    : Outcome R → Type 0 where
  delivered :
      (res : Result R) (c : Candidate) (r : R) (before : List Attempt)
      → Memᴰ c (flatten tiers)
      → res.provider ≡ c.provider_name
      → res.model ≡ c.model
      → res.response ≡ some r
      → res.attempts ≡ before ++ entry c 200 ∷ []
      → All IsTransient before
      → Report o e tiers w (ok res)
  refused :
      (c : Candidate) (f : ProviderError) (before attempts : List Attempt)
      → classify_by_status (status_of f) ≡ terminal
      → attempts ≡ before ++ entry c (status_of f) ∷ []
      → All IsTransient before
      → Report o e tiers w (error (provider f) attempts)
  timed_out :
      (attempts : List Attempt)
      → attempts ≢ []
      → All IsTransient attempts
      → Report o e tiers w (error context_done attempts)
  unavailable :
      (w' : World)
      → AllUsed o e tiers no_healthy_provider (begun w) no_healthy_provider w'
      → Report o e tiers w (error no_healthy_provider [])
  exhausted :
      (c : Candidate) (f : ProviderError) (before attempts : List Attempt) (w' : World)
      → AllUsed o e tiers no_healthy_provider (begun w) (provider f) w'
      → attempts ≡ before ++ entry c (status_of f) ∷ []
      → All IsTransient attempts
      → Report o e tiers w (error (provider f) attempts)

times_mono : (time n bound longest : ℕ) → time ≤ n * longest → n ≤ bound → time ≤ bound * longest
times_mono time n bound longest h g = grind arith

-- One request logs at most `max_attempts_per_provider` attempts for each candidate of its tiers, where
-- that is at least one; and the time it reports for its provider calls is at most that many times the
-- longest that a call takes.
pub execute_bounded :
    {R : Type 0} (o : Oracle R) (e : Engine) (tiers : List Tier) (w : World) (longest : ℕ)
    → 0 < e.cfg.max_attempts_per_provider
    → ((n : ℕ) → o.duration n ≤ longest)
    → let end = (execute o e tiers w).0 in
      let bound = length (flatten tiers) * e.cfg.max_attempts_per_provider in
      (length end.attempts ≤ bound) × (end.provider_duration ≤ bound * longest)
unfolding execute Paid
execute_bounded o e tiers w longest h short =
    let t = tiers_loop-Walked o e h tiers no_healthy_provider (begun w) in
    let bound = length (flatten tiers) * e.cfg.max_attempts_per_provider in
    let few : length (tiers_loop o e tiers no_healthy_provider (begun w)).0.attempts ≤ bound =
      rw t.appended t.bounded in
    (
      few,
      times_mono _ _ bound longest
          (tiers_loop-Paid o longest short e tiers no_healthy_provider (begun w) (omega arith)) few,
    )
