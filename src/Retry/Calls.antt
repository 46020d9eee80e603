-- ===== src/Retry/Calls.antt =====
-- internal/retry/engine.go, `tryCandidate`: the attempts made on one candidate.
use llm_inference_gateway.Base.{
  ℕ, zero, suc, ◌+◌, Bool, true, false, not, [], ◌∷◌, ◌++◌, Option, none, some, if◌then◌else◌,
}
use llm_inference_gateway.Base.Int.{pos}
use llm_inference_gateway.Providers.{terminal, retryable, classify_by_status}
use llm_inference_gateway.Breaker.{Breaker, allow, record_success, record_failure}
use llm_inference_gateway.Breaker.Registry.{get, put}
use llm_inference_gateway.Router.{Candidate}
use llm_inference_gateway.Retry.{
  Engine, Oracle, World, Completion, answered, failed, ProviderError, api, transport, Err,
  breaker_rejected, provider,
}
use llm_inference_gateway.Retry.Backoff.{backoff_for, sleep_within_deadline, attempt_timeout}
use llm_inference_gateway.Retry.Pick.{tick}

-- The three results of `tryCandidate`.
pub record Tried (R : Type 0) : Type 0 where
  pub response : Option R
  pub status : ℕ
  pub err : Option Err

-- The status of the `APIError`, or 0.
unfoldable pub status_of : ProviderError → ℕ
status_of (api e) = e.status_code
status_of (transport _) = 0

-- A method call on the candidate's breaker, which may run after others touched it.
unfoldable pub with_breaker :
    {R A : Type 0} → Oracle R → Candidate → (ℕ → Breaker → Breaker × A) → World → World × A
unfolding tick
with_breaker o c method w =
    let w' = tick o w in
    let (registry, b) = get c.provider_name c.model w'.registry in
    let (b', a) = method w.queries b in
    (record w' { registry = put c.provider_name c.model b' registry }, a)

-- `br.Allow()`
unfoldable pub ask_breaker : {R : Type 0} → Oracle R → Candidate → World → World × Bool
unfolding with_breaker
ask_breaker o c w = with_breaker o c (λ n b. allow (o.monotonic n) b) w

unfoldable pub add_attempt : Candidate → ℕ → World → World
add_attempt c status w = record w {
  attempts = w.attempts ++ record { provider = c.provider_name; status = status } ∷ [];
}

-- The wait before an attempt other than the first; `false` gives the candidate up.
unfoldable pub pause : {R : Type 0} → Oracle R → Engine → ℕ → Option Err → World → World × Bool
unfolding tick
pause o e zero last_err w = (w, true)
pause o e (suc n) last_err w =
    let wait =
      backoff_for (o.rand w.queries) (pos n) e.cfg.base_backoff e.cfg.max_backoff last_err in
    (tick o w, sleep_within_deadline (o.remaining w.queries) (o.timer_first w.queries) wait)

-- The provider call, with its duration added up.
unfoldable pub call : {R : Type 0} → Oracle R → Engine → Candidate → World → World × Completion R
unfolding tick
call o e c w =
    let timeout = attempt_timeout (o.remaining w.queries) (e.provider_timeout c.provider_name) in
    (
      record (tick o w) { provider_duration = w.provider_duration + o.duration w.queries },
      o.complete w.queries c.provider_name c.model timeout,
    )

-- `br.RecordSuccess()` and the attempt's entry.
unfoldable pub succeed : {R : Type 0} → Oracle R → Candidate → World → World
unfolding with_breaker add_attempt
succeed o c w = add_attempt c 200 (with_breaker o c (λ n b. (record_success (o.unix n) b, tt)) w).0

-- The attempt's entry, and `br.RecordFailure()` unless the failure is terminal.
unfoldable pub charge : {R : Type 0} → Oracle R → Candidate → ℕ → World → World
unfolding with_breaker add_attempt
charge o c status w =
    let w' = add_attempt c status w in
    elim (classify_by_status status) [
      | terminal ↦ w'
      | _ ↦ (with_breaker o c (λ n b. (record_failure (o.failure_readings n) b, tt)) w').0
    ]

-- The loop, with `n` rounds left; `attempt`, `last_err` and `last_status` are its variables.
unfoldable pub attempt_loop :
    {R : Type 0} → Oracle R → Engine → Candidate → ℕ → ℕ → Option Err → ℕ → World → World × Tried R
attempt_loop o e c zero attempt last_err last_status w =
    (w, record { response = none; status = last_status; err = last_err })
attempt_loop o e c (suc n) attempt last_err last_status w = elim (pause o e attempt last_err w).1 [
  | false ↦ (
    (pause o e attempt last_err w).0,
    record { response = none; status = last_status; err = last_err },
  )
  | true ↦
      let (w', completion) = call o e c (pause o e attempt last_err w).0 in
      elim completion [
        | answered r ↦ (succeed o c w', record { response = some r; status = 200; err = none })
        | failed f ↦ elim (classify_by_status (status_of f)) [
          | retryable ↦
              attempt_loop o e c n (suc attempt) (some (provider f)) (status_of f)
                (charge o c (status_of f) w')
          | _ ↦ (
            charge o c (status_of f) w',
            record { response = none; status = status_of f; err = some (provider f) },
          )
        ]
      ]
]

unfoldable pub try_candidate :
    {R : Type 0} → Oracle R → Engine → Candidate → World → World × Tried R
try_candidate o e c w =
    let (w', allowed) = ask_breaker o c w in
    if not allowed
    then (w', record { response = none; status = 0; err = some breaker_rejected })
    else (attempt_loop o e c e.cfg.max_attempts_per_provider 0 none 0 w')
