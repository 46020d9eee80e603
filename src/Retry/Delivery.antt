-- ===== src/Retry/Delivery.antt =====
-- internal/retry/engine.go: what the client of `ExecuteStream` receives.
use llm_inference_gateway.Base.{
  ℕ, zero, suc, ◌<◌, ◌≡◌, ◌≢◌, refl, true, false, List, [], ◌∷◌, Option, none, some, arith,
  Bool-cases, inl, inr, ◌⊎◌, Text, length,
}
use llm_inference_gateway.Providers.{classify_by_status}
use llm_inference_gateway.Router.{Candidate, Tier}
use llm_inference_gateway.Retry.{
  Attempt, Engine, World, Err, no_healthy_provider, breaker_rejected, context_done, provider,
}
use llm_inference_gateway.Retry.Pick.{pick_from_tier}
use llm_inference_gateway.Retry.Chosen.{
  untried, untried-le, untried-lt, nobody, somebody, pick_from_tier-Drawn,
}
use llm_inference_gateway.Retry.Trail.{class_cases}
use llm_inference_gateway.Retry.Stream.{
  Usage, Sent, Streaming, StreamTried, try_candidate_stream, StreamVerdict, finished, broken, next,
  judge_stream_failure, judge_stream, StreamEnd, delivered, cut, used, stream_tier_loop,
  stream_tiers_loop, StreamOutcome, StreamResult, stream_ok, stream_error, stream_outcome,
  execute_stream,
}
use llm_inference_gateway.Retry.Heard.{
  Silent, FromCall, Silent-FromCall, Tries, calm, heard, try_candidate_stream-Tries,
}

-- The content against a verdict, where nothing was sent before.
pub data Judged (sent : List Sent) (v : StreamVerdict) : Type 0 where
  ends : (n : ℕ) (u : Option Usage) → v ≡ finished u → FromCall n sent → Judged sent v
  breaks :
      (n : ℕ) (err : Err)
      → v ≡ broken err true
      → FromCall n sent
      → (Silent sent → ⊥)
      → Judged sent v
  stops : (err : Err) → v ≡ broken err false → Silent sent → Judged sent v
  goes : (err : Err) → v ≡ next err → Silent sent → Judged sent v

judge_stream_failure-calm :
    (s : Streaming) (err : Err) (t : StreamTried) (w : World) (sent : List Sent)
    → Silent sent
    → t.flushed ≡ false
    → Judged sent (judge_stream_failure s err t w).1
unfolding judge_stream_failure
judge_stream_failure-calm s err t w sent q e =
    let done = Bool-cases (s.oracle.is_done w.queries) in
    elim (class_cases (classify_by_status t.status)) [
      | inl k ↦ rw (e, k, judge_stream_failure) (stops err refl q)
      | inr (inl k) ↦ elim done [
        | inl d ↦ rw (e, k, d, judge_stream_failure) (stops context_done refl q)
        | inr d ↦ rw (e, k, d, judge_stream_failure) (goes err refl q)
      ]
      | inr (inr k) ↦ elim done [
        | inl d ↦ rw (e, k, d, judge_stream_failure) (stops context_done refl q)
        | inr d ↦ rw (e, k, d, judge_stream_failure) (goes err refl q)
      ]
    ]

Err-cases :
    (err : Option Err)
    → (err ≡ none)
      ⊎ ((err ≡ some breaker_rejected) ⊎ ((x : Err) × (err ≡ some x) × (x ≢ breaker_rejected)))
Err-cases none = inl refl
Err-cases (some breaker_rejected) = inr (inl refl)
Err-cases (some no_healthy_provider) = inr (inr (no_healthy_provider, refl, ground arith))
Err-cases (some context_done) = inr (inr (context_done, refl, ground arith))
Err-cases (some (provider f)) = inr (inr (provider f, refl, ground arith))

judge_stream-failure :
    (s : Streaming) (last_err err : Err) (t : StreamTried) (w : World)
    → t.err ≡ some err
    → err ≢ breaker_rejected
    → judge_stream s last_err t w ≡ judge_stream_failure s err t w
unfolding judge_stream
judge_stream-failure s last_err breaker_rejected t w e n = absurd (n refl)
judge_stream-failure s last_err no_healthy_provider t w e n = rw (e, judge_stream) refl
judge_stream-failure s last_err context_done t w e n = rw (e, judge_stream) refl
judge_stream-failure s last_err (provider f) t w e n = rw (e, judge_stream) refl

judge_stream-Judged :
    (s : Streaming) (last_err : Err) (p : World × List Sent × StreamTried)
    → Tries p
    → Judged p.1 (judge_stream s last_err p.2 p.0).1
unfolding judge_stream judge_stream_failure
judge_stream-Judged s last_err p (calm _ q e) = elim (Err-cases p.2.err) [
  | inl fine ↦ rw (fine, judge_stream) (ends 0 p.2.usage refl (Silent-FromCall 0 p.1 q))
  | inr (inl rejected) ↦ rw (rejected, judge_stream) (goes last_err refl q)
  | inr (inr (x, bad, n)) ↦
      rw (judge_stream-failure s last_err x p.2 p.0 bad n)
        (judge_stream_failure-calm s x p.2 p.0 p.1 q e)
]
judge_stream-Judged s last_err p (heard _ n fc h e (inl fine)) =
    rw (fine, judge_stream) (ends n p.2.usage refl fc)
judge_stream-Judged s last_err p (heard _ n fc h e (inr (f, bad))) =
    rw (bad, judge_stream) (rw (e, judge_stream_failure) (breaks n (provider f) refl fc h))

-- The content against the end of a loop.
pub data Ended (sent : List Sent) (end : StreamEnd) : Type 0 where
  complete :
      (n : ℕ) (c : Candidate) (u : Option Usage)
      → end ≡ delivered c u
      → FromCall n sent
      → Ended sent end
  partial :
      (n : ℕ) (err : Err)
      → end ≡ cut err true
      → FromCall n sent
      → (Silent sent → ⊥)
      → Ended sent end
  nothing : (err : Err) → end ≡ cut err false → Silent sent → Ended sent end
  left : (err : Err) → end ≡ used err → Silent sent → Ended sent end

module _ (s : Streaming) (e : Engine) where
  stream_tier_loop-Ended :
      (fuel : ℕ) (tier : Tier) (tried : List Text) (last_err : Err) (w : World) (sent : List Sent)
      → untried tried tier.candidates < fuel
      → Silent sent
      → let r = stream_tier_loop s e fuel tier tried last_err w sent in Ended r.1 r.2
  unfolding stream_tier_loop
  stream_tier_loop-Ended zero tier tried last_err w sent lt q = absurd (omega arith)
  stream_tier_loop-Ended (suc fuel) tier tried last_err w sent lt q =
      elim (pick_from_tier-Drawn s.oracle e tier tried w) [
        | nobody same none_left ↦ rw (none_left, stream_tier_loop) (left last_err refl q)
        | somebody c same picked (m, fresh) ↦
            let w1 = (pick_from_tier s.oracle e tier tried w).0 in
            let p = try_candidate_stream s e c w1 sent in
            let fewer = untried-lt tried tier.candidates c m fresh in
            elim (judge_stream-Judged s last_err p (try_candidate_stream-Tries s e c w1 sent q)) [
              | ends n u v fc ↦ rw (picked, v, stream_tier_loop) (complete n c u refl fc)
              | breaks n err v fc h ↦ rw (picked, v, stream_tier_loop) (partial n err refl fc h)
              | stops err v now ↦ rw (picked, v, stream_tier_loop) (nothing err refl now)
              | goes err v now ↦
                  rw (picked, v, stream_tier_loop)
                    (stream_tier_loop-Ended fuel tier (c.provider_name ∷ tried) err _ p.1
                      (omega (arith, fewer)) now)
            ]
      ]

  stream_tiers_loop-Ended :
      (tiers : List Tier) (last_err : Err) (w : World) (sent : List Sent)
      → Silent sent
      → let r = stream_tiers_loop s e tiers last_err w sent in Ended r.1 r.2
  unfolding stream_tiers_loop
  stream_tiers_loop-Ended [] last_err w sent q = left last_err refl q
  stream_tiers_loop-Ended (tier ∷ tiers) last_err w sent q =
      let few = untried-le [] tier.candidates in
      let fuel = suc (length tier.candidates) in
      let r = stream_tier_loop s e fuel tier [] last_err w sent in
      elim (stream_tier_loop-Ended fuel tier [] last_err w sent (omega (arith, few)) q) [
        | complete n c u v fc ↦ rw (v, stream_tiers_loop) (complete n c u refl fc)
        | partial n err v fc h ↦ rw (v, stream_tiers_loop) (partial n err refl fc h)
        | nothing err v now ↦ rw (v, stream_tiers_loop) (nothing err refl now)
        | left err v now ↦ rw (v, stream_tiers_loop) (stream_tiers_loop-Ended tiers err r.0 r.1 now)
      ]

-- The outcomes of a streaming request, each with what its client received.
pub data Delivery (sent : List Sent) : StreamOutcome → Type 0 where
  whole : (n : ℕ) (res : StreamResult) → FromCall n sent → Delivery sent (stream_ok res)
  torn :
      (n : ℕ) (err : Err) (attempts : List Attempt)
      → FromCall n sent
      → (Silent sent → ⊥)
      → Delivery sent (stream_error err attempts true)
  unsent :
      (err : Err) (attempts : List Attempt)
      → Silent sent
      → Delivery sent (stream_error err attempts false)

stream_outcome-Delivery :
    (sent : List Sent) (end : StreamEnd) (w : World)
    → Ended sent end
    → Delivery sent (stream_outcome end w)
unfolding stream_outcome
stream_outcome-Delivery sent end w (complete n c u v fc) = rw (v, stream_outcome) (whole n _ fc)
stream_outcome-Delivery sent end w (partial n err v fc h) =
    rw (v, stream_outcome) (torn n err w.attempts fc h)
stream_outcome-Delivery sent end w (nothing err v q) =
    rw (v, stream_outcome) (unsent err w.attempts q)
stream_outcome-Delivery sent end w (left err v q) = rw (v, stream_outcome) (unsent err w.attempts q)

-- A streaming request always ends, and all content that its client received is from one single
-- provider call, whatever providers, clocks and the client do. If it ends in an error, `Flushed`
-- tells exactly whether any content was received.
pub execute_stream-Delivery :
    (s : Streaming) (e : Engine) (tiers : List Tier) (w : World)
    → let r = execute_stream s e tiers w in Delivery r.1 r.2
unfolding execute_stream
execute_stream-Delivery s e tiers w =
    let start = record w { attempts = []; provider_duration = 0 } in
    stream_outcome-Delivery _ _ _
      (stream_tiers_loop-Ended s e tiers no_healthy_provider start [] tt)
