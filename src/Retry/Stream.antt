-- ===== src/Retry/Stream.antt =====
-- internal/retry/engine.go: the streaming half, `ExecuteStream` and `tryCandidateStream`, on top of
-- `relayStream`. The calls of `onDelta` are threaded through as a list.
pub mod Relay
pub use llm_inference_gateway.Retry.Stream.Relay.{
  Usage, Delta, Streamed, Sent, Streaming, Relayed, has_content, is_heard, offer, streamed,
}
unfoldable pub use llm_inference_gateway.Retry.Stream.Relay.{relay, relay_stream}
use llm_inference_gateway.Base.{
  ℕ, zero, suc, Bool, true, false, not, ◌&&◌, ◌||◌, List, [], ◌∷◌, ◌++◌, Option, none, some,
  if◌then◌else◌, Text, length,
}
use llm_inference_gateway.Providers.{terminal, retryable, classify_by_status}
use llm_inference_gateway.Router.{Candidate, Tier}
use llm_inference_gateway.Retry.{
  Attempt, Engine, Oracle, World, Completion, answered, failed, ProviderError, Err,
  no_healthy_provider, breaker_rejected, context_done, provider,
}
use llm_inference_gateway.Retry.Pick.{pick_from_tier, tick}
use llm_inference_gateway.Retry.Calls.{
  status_of, ask_breaker, add_attempt, pause, call, succeed, charge,
}

-- The results of `tryCandidateStream`.
pub record StreamTried : Type 0 where
  pub usage : Option Usage
  pub flushed : Bool
  pub status : ℕ
  pub err : Option Err

-- What follows a relay; `again` continues the loop after a retryable failure.
unfoldable pub after_relay :
    Streaming
    → Candidate
    → Relayed
    → Bool
    → World
    → (ProviderError → World × List Sent × StreamTried)
    → World × List Sent × StreamTried
after_relay s c r flushed w again = elim r.err [
  | none ↦ (
    succeed s.oracle c w,
    r.sent,
    record { usage = r.usage; flushed = flushed; status = 200; err = none },
  )
  | some f ↦ elim flushed [
    | true ↦ (
      add_attempt c (status_of f) w,
      r.sent,
      record { usage = none; flushed = true; status = status_of f; err = some (provider f) },
    )
    | false ↦ elim (classify_by_status (status_of f)) [
      | retryable ↦ again f
      | _ ↦ (
        charge s.oracle c (status_of f) w,
        r.sent,
        record { usage = none; flushed = false; status = status_of f; err = some (provider f) },
      )
    ]
  ]
]

-- The loop, with `n` rounds left.
unfoldable pub stream_loop :
    Streaming
    → Engine
    → Candidate
    → ℕ
    → ℕ
    → Option Err
    → ℕ
    → Bool
    → World
    → List Sent
    → World × List Sent × StreamTried
unfolding after_relay relay_stream
stream_loop s e c zero attempt last_err last_status flushed w sent =
    (w, sent, record { usage = none; flushed = flushed; status = last_status; err = last_err })
stream_loop s e c (suc n) attempt last_err last_status flushed w sent =
    elim (pause s.oracle e attempt last_err w).1 [
      | false ↦ (
        (pause s.oracle e attempt last_err w).0,
        sent,
        record { usage = none; flushed = flushed; status = last_status; err = last_err },
      )
      | true ↦
          let w1 = (pause s.oracle e attempt last_err w).0 in
          let (w2, completion) = call s.oracle e c w1 in
          let r = relay_stream s c w1.queries completion sent in
          after_relay s c r (flushed || r.flushed) w2 (λ f.
            stream_loop s e c n (suc attempt) (some (provider f)) (status_of f)
              (flushed || r.flushed) (charge s.oracle c (status_of f) w2) r.sent)
    ]

unfoldable pub try_candidate_stream :
    Streaming → Engine → Candidate → World → List Sent → World × List Sent × StreamTried
try_candidate_stream s e c w sent =
    let (w', allowed) = ask_breaker s.oracle c w in
    if not allowed
    then (
      w',
      sent,
      record { usage = none; flushed = false; status = 0; err = some breaker_rejected },
    )
    else (stream_loop s e c e.cfg.max_attempts_per_provider 0 none 0 false w' sent)

-- What `ExecuteStream` does with it: return the usage, return an error, or go on with `lastErr`.
pub data StreamVerdict : Type 0 where
  finished : Option Usage → StreamVerdict
  broken : Err → Bool → StreamVerdict
  next : Err → StreamVerdict

unfoldable pub judge_stream_failure : Streaming → Err → StreamTried → World → World × StreamVerdict
unfolding tick
judge_stream_failure s err t w = elim t.flushed [
  | true ↦ (w, broken err true)
  | false ↦ elim (classify_by_status t.status) [
    | terminal ↦ (w, broken err false)
    | _ ↦ (
      tick s.oracle w,
      if s.oracle.is_done w.queries then broken context_done false else next err,
    )
  ]
]

unfoldable pub judge_stream : Streaming → Err → StreamTried → World → World × StreamVerdict
unfolding judge_stream_failure
judge_stream s last_err t w = elim t.err [
  | none ↦ (w, finished t.usage)
  | some breaker_rejected ↦ (w, next last_err)
  | some no_healthy_provider ↦ judge_stream_failure s no_healthy_provider t w
  | some context_done ↦ judge_stream_failure s context_done t w
  | some (provider f) ↦ judge_stream_failure s (provider f) t w
]

-- How a tier's loop ends; `starved` is not an outcome of the code.
pub data StreamEnd : Type 0 where
  delivered : Candidate → Option Usage → StreamEnd
  cut : Err → Bool → StreamEnd
  used : Err → StreamEnd
  starved : StreamEnd

unfoldable pub stream_tier_loop :
    Streaming
    → Engine
    → ℕ
    → Tier
    → List Text
    → Err
    → World
    → List Sent
    → World × List Sent × StreamEnd
stream_tier_loop s e zero tier tried last_err w sent = (w, sent, starved)
stream_tier_loop s e (suc fuel) tier tried last_err w sent =
    let (w1, picked) = pick_from_tier s.oracle e tier tried w in
    elim picked [
      | none ↦ (w1, sent, used last_err)
      | some c ↦
          let (w2, sent', t) = try_candidate_stream s e c w1 sent in
          let (w3, verdict) = judge_stream s last_err t w2 in
          elim verdict [
            | finished usage ↦ (w3, sent', delivered c usage)
            | broken err flushed ↦ (w3, sent', cut err flushed)
            | next err ↦ stream_tier_loop s e fuel tier (c.provider_name ∷ tried) err w3 sent'
          ]
    ]

unfoldable pub stream_tiers_loop :
    Streaming → Engine → List Tier → Err → World → List Sent → World × List Sent × StreamEnd
stream_tiers_loop s e [] last_err w sent = (w, sent, used last_err)
stream_tiers_loop s e (tier ∷ tiers) last_err w sent =
    let (w', sent', end) =
      stream_tier_loop s e (suc (length tier.candidates)) tier [] last_err w sent in
    elim end [
      | delivered c usage ↦ (w', sent', delivered c usage)
      | cut err flushed ↦ (w', sent', cut err flushed)
      | used err ↦ stream_tiers_loop s e tiers err w' sent'
      | starved ↦ (w', sent', starved)
    ]

pub record StreamResult : Type 0 where
  pub provider : Text
  pub model : Text
  pub attempts : List Attempt
  pub usage : Option Usage
  pub provider_duration : ℕ

-- `*StreamResult`, or `*StreamError` with its cause, attempts and `Flushed`.
pub data StreamOutcome : Type 0 where
  stream_ok : StreamResult → StreamOutcome
  stream_error : Err → List Attempt → Bool → StreamOutcome
  stream_unfinished : StreamOutcome

unfoldable pub stream_outcome : StreamEnd → World → StreamOutcome
stream_outcome (delivered c usage) w = stream_ok (record {
  provider = c.provider_name;
  model = c.model;
  attempts = w.attempts;
  usage = usage;
  provider_duration = w.provider_duration;
})
stream_outcome (cut err flushed) w = stream_error err w.attempts flushed
stream_outcome (used err) w = stream_error err w.attempts false
stream_outcome starved w = stream_unfinished

-- The calls of `onDelta`, and the outcome.
unfoldable pub execute_stream :
    Streaming → Engine → List Tier → World → World × List Sent × StreamOutcome
unfolding stream_tiers_loop stream_outcome
execute_stream s e tiers w =
    let (w', sent, end) =
      stream_tiers_loop s e tiers no_healthy_provider
        (record w { attempts = []; provider_duration = 0 }) [] in
    (w', sent, stream_outcome end w')
