-- ===== src/ChatStream/Log.antt =====
-- internal/server/stream.go and internal/retry/engine.go: the engine's log of the calls of `onDelta`
-- against the variables that they change.
use llm_inference_gateway.Base.{
  ℕ, zero, suc, ◌≡◌, refl, Bool, true, false, List, [], ◌∷◌, ◌++◌, Option, none, some, Bool-cases,
  Option-cases, inl, inr, ◌⊎◌, Text, length,
}
use llm_inference_gateway.Providers.{classify_by_status}
use llm_inference_gateway.Router.{Candidate, Tier}
use llm_inference_gateway.Retry.{Engine, World, ProviderError, Err, no_healthy_provider, provider}
use llm_inference_gateway.Retry.Calls.{status_of, ask_breaker, pause, call}
use llm_inference_gateway.Retry.Pick.{pick_from_tier}
use llm_inference_gateway.Retry.Trail.{class_cases}
use llm_inference_gateway.Retry.Stream.{
  Usage, Delta, Sent, Streaming, Relayed, offer, relay, streamed, relay_stream, StreamTried,
  after_relay, stream_loop, try_candidate_stream, judge_stream, StreamVerdict, finished, broken,
  next, StreamEnd, delivered, cut, used, starved, stream_tier_loop, stream_tiers_loop,
  execute_stream,
}

-- A predicate of logs that each call of `onDelta` keeps.
module _ (s : Streaming) (P : List Sent → Type 0)
    (taken : (sent : List Sent) (c : Candidate) (n : ℕ) (d : Delta)
      → s.on_delta sent c.provider_name c.model d ≡ none
      → P sent
      → P (sent ++ offer c n d true ∷ []))
    (refused : (sent : List Sent) (c : Candidate) (n : ℕ) (d : Delta) (f : ProviderError)
      → s.on_delta sent c.provider_name c.model d ≡ some f
      → P sent
      → P (sent ++ offer c n d false ∷ [])) where
  relay-keeps :
      (c : Candidate) (n : ℕ) (ds : List Delta) (final : Option ProviderError) (u : Option Usage)
      (flushed : Bool) (sent : List Sent)
      → P sent
      → P (relay s c n ds final u flushed sent).sent
  unfolding relay
  relay-keeps c n [] final u flushed sent p = p
  relay-keeps c n (d ∷ ds) final u flushed sent p =
      elim (Option-cases (s.on_delta sent c.provider_name c.model d)) [
        | inl fine ↦ rw (fine, relay) (relay-keeps c n ds final _ _ _ (taken sent c n d fine p))
        | inr (f, bad) ↦ rw (bad, relay) (refused sent c n d f bad p)
      ]

  module _ (e : Engine) where
    after_relay-keeps :
        (c : Candidate) (r : Relayed) (flushed : Bool) (w : World)
        (again : ProviderError → World × List Sent × StreamTried)
        → P r.sent
        → ((f : ProviderError) → P (again f).1)
        → P (after_relay s c r flushed w again).1
    unfolding after_relay
    after_relay-keeps c r flushed w again p k = elim (Option-cases r.err) [
      | inl fine ↦ rw (fine, after_relay) p
      | inr (f, bad) ↦ elim (Bool-cases flushed) [
        | inl on ↦ rw (bad, on, after_relay) p
        | inr off ↦ elim (class_cases (classify_by_status (status_of f))) [
          | inl t ↦ rw (bad, off, t, after_relay) p
          | inr (inl t) ↦ rw (bad, off, t, after_relay) (k f)
          | inr (inr t) ↦ rw (bad, off, t, after_relay) p
        ]
      ]
    ]

    stream_loop-keeps :
        (c : Candidate) (n attempt : ℕ) (last_err : Option Err) (last_status : ℕ) (flushed : Bool)
        (w : World) (sent : List Sent)
        → P sent
        → P (stream_loop s e c n attempt last_err last_status flushed w sent).1
    unfolding stream_loop relay_stream
    stream_loop-keeps c zero attempt last_err last_status flushed w sent p = p
    stream_loop-keeps c (suc n) attempt last_err last_status flushed w sent p =
        elim (Bool-cases (pause s.oracle e attempt last_err w).1) [
          | inr stopped ↦ rw (stopped, stream_loop) p
          | inl waited ↦
              let w1 = (pause s.oracle e attempt last_err w).0 in
              let done = call s.oracle e c w1 in
              let r = relay_stream s c w1.queries done.1 sent in
              let kept =
                relay-keeps c w1.queries (streamed done.1).deltas (streamed done.1).final none false
                  sent p in
              rw (waited, stream_loop)
                (after_relay-keeps c r _ done.0 _ kept (λ f.
                  stream_loop-keeps c n (suc attempt) (some (provider f)) (status_of f) _ _ r.sent
                    kept))
        ]

    try_candidate_stream-keeps :
        (c : Candidate) (w : World) (sent : List Sent)
        → P sent
        → P (try_candidate_stream s e c w sent).1
    unfolding try_candidate_stream
    try_candidate_stream-keeps c w sent p = elim (Bool-cases (ask_breaker s.oracle c w).1) [
      | inl asked ↦ rw (asked, try_candidate_stream) (stream_loop-keeps c _ _ _ _ _ _ sent p)
      | inr rejected ↦ rw (rejected, try_candidate_stream) p
    ]

    Verdict-cases :
        (v : StreamVerdict)
        → ((u : Option Usage) × (v ≡ finished u))
          ⊎ (((err : Err) × (b : Bool) × (v ≡ broken err b)) ⊎ ((err : Err) × (v ≡ next err)))
    Verdict-cases (finished u) = inl (u, refl)
    Verdict-cases (broken err b) = inr (inl (err, b, refl))
    Verdict-cases (next err) = inr (inr (err, refl))

    stream_tier_loop-keeps :
        (fuel : ℕ) (tier : Tier) (tried : List Text) (last_err : Err) (w : World) (sent : List Sent)
        → P sent
        → P (stream_tier_loop s e fuel tier tried last_err w sent).1
    unfolding stream_tier_loop
    stream_tier_loop-keeps zero tier tried last_err w sent p = p
    stream_tier_loop-keeps (suc fuel) tier tried last_err w sent p =
        elim (Option-cases (pick_from_tier s.oracle e tier tried w).1) [
          | inl nobody ↦ rw (nobody, stream_tier_loop) p
          | inr (c, picked) ↦
              let w1 = (pick_from_tier s.oracle e tier tried w).0 in
              let t = try_candidate_stream s e c w1 sent in
              let kept = try_candidate_stream-keeps c w1 sent p in
              elim (Verdict-cases (judge_stream s last_err t.2 t.0).1) [
                | inl (u, v) ↦ rw (picked, v, stream_tier_loop) kept
                | inr (inl (err, b, v)) ↦ rw (picked, v, stream_tier_loop) kept
                | inr (inr (err, v)) ↦
                    rw (picked, v, stream_tier_loop)
                      (stream_tier_loop-keeps fuel tier (c.provider_name ∷ tried) err _ t.1 kept)
              ]
        ]

    End-cases :
        (v : StreamEnd)
        → ((c : Candidate) × (u : Option Usage) × (v ≡ delivered c u))
          ⊎ (((err : Err) × (b : Bool) × (v ≡ cut err b))
              ⊎ (((err : Err) × (v ≡ used err)) ⊎ (v ≡ starved)))
    End-cases (delivered c u) = inl (c, u, refl)
    End-cases (cut err b) = inr (inl (err, b, refl))
    End-cases (used err) = inr (inr (inl (err, refl)))
    End-cases starved = inr (inr (inr refl))

    stream_tiers_loop-keeps :
        (tiers : List Tier) (last_err : Err) (w : World) (sent : List Sent)
        → P sent
        → P (stream_tiers_loop s e tiers last_err w sent).1
    unfolding stream_tiers_loop
    stream_tiers_loop-keeps [] last_err w sent p = p
    stream_tiers_loop-keeps (tier ∷ tiers) last_err w sent p =
        let r = stream_tier_loop s e (suc (length tier.candidates)) tier [] last_err w sent in
        let kept =
          stream_tier_loop-keeps (suc (length tier.candidates)) tier [] last_err w sent p in
        elim (End-cases r.2) [
          | inl (c, u, v) ↦ rw (v, stream_tiers_loop) kept
          | inr (inl (err, b, v)) ↦ rw (v, stream_tiers_loop) kept
          | inr (inr (inl (err, v))) ↦
              rw (v, stream_tiers_loop) (stream_tiers_loop-keeps tiers err r.0 r.1 kept)
          | inr (inr (inr v)) ↦ rw (v, stream_tiers_loop) kept
        ]

    pub execute_stream-keeps :
        (tiers : List Tier) (w : World) → P [] → P (execute_stream s e tiers w).1
    unfolding execute_stream
    execute_stream-keeps tiers w p = stream_tiers_loop-keeps tiers no_healthy_provider _ [] p
