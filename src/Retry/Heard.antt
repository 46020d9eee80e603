-- ===== src/Retry/Heard.antt =====
-- internal/retry/engine.go: what the client receives during the attempts on one candidate.
use llm_inference_gateway.Base.{
  ℕ, zero, suc, ◌≡◌, refl, Bool, true, false, ◌||◌, List, [], ◌∷◌, ◌++◌, Option, none, some, arith,
  All, All-append, All-map, Bool-cases, Option-cases, inl, inr, ◌⊎◌,
}
use llm_inference_gateway.Providers.{classify_by_status}
use llm_inference_gateway.Router.{Candidate}
use llm_inference_gateway.Retry.{Engine, World, ProviderError, Err, provider}
use llm_inference_gateway.Retry.Calls.{status_of, ask_breaker, pause, call, charge}
use llm_inference_gateway.Retry.Trail.{class_cases}
use llm_inference_gateway.Retry.Stream.{
  Usage, Delta, Sent, Streaming, Relayed, has_content, is_heard, offer, relay, streamed,
  relay_stream, StreamTried, after_relay, stream_loop, try_candidate_stream,
}

-- No content reached the client.
abbrev pub Silent : List Sent → Type 0
Silent sent = All (λ x. is_heard x ≡ false) sent

-- All content that reached the client is from the provider call with this number.
abbrev pub FromCall : ℕ → List Sent → Type 0
FromCall n sent = All (λ x. (is_heard x ≡ false) ⊎ (x.call_number ≡ n)) sent

-- The content against the flag `flushed`.
pub data Marked (n : ℕ) (sent : List Sent) : Bool → Type 0 where
  quiet : Silent sent → Marked n sent false
  loud : FromCall n sent → (Silent sent → ⊥) → Marked n sent true

pub Silent-FromCall : (n : ℕ) (sent : List Sent) → Silent sent → FromCall n sent
Silent-FromCall n sent q = All-map sent (λ x e. inl e) q

not_Silent : (xs ys : List Sent) → (Silent ys → ⊥) → Silent (xs ++ ys) → ⊥
not_Silent [] ys h q = h q
not_Silent (x ∷ xs) ys h q = not_Silent xs ys h q.1

still_not : (xs ys : List Sent) → (Silent xs → ⊥) → Silent (xs ++ ys) → ⊥
still_not [] ys h q = h tt
still_not (x ∷ xs) ys h q = still_not xs ys (λ r. h (q.0, r)) q.1

Marked-content :
    (c : Candidate) (n : ℕ) (sent : List Sent) (d : Delta) (b : Bool)
    → has_content d ≡ b
    → Silent sent
    → Marked n (sent ++ offer c n d true ∷ []) b
Marked-content c n sent d true e q =
    loud (All-append _ sent _ (Silent-FromCall n sent q) (inr refl, tt))
      (not_Silent sent _ (λ z. ground (arith, z.0)))
Marked-content c n sent d false e q = quiet (All-append _ sent _ q (e, tt))

Marked-snoc :
    (c : Candidate) (n : ℕ) (sent : List Sent) (d : Delta) (flushed : Bool)
    → Marked n sent flushed
    → Marked n (sent ++ offer c n d true ∷ []) (flushed || has_content d)
Marked-snoc c n sent d false (quiet q) = Marked-content c n sent d (has_content d) refl q
Marked-snoc c n sent d true (loud f h) =
    loud (All-append _ sent _ f (inr refl, tt)) (still_not sent _ h)

Marked-refused :
    (c : Candidate) (n : ℕ) (sent : List Sent) (d : Delta) (flushed : Bool)
    → Marked n sent flushed
    → Marked n (sent ++ offer c n d false ∷ []) flushed
Marked-refused c n sent d false (quiet q) = quiet (All-append _ sent _ q (refl, tt))
Marked-refused c n sent d true (loud f h) =
    loud (All-append _ sent _ f (inl refl, tt)) (still_not sent _ h)

relay-Marked :
    (s : Streaming) (c : Candidate) (n : ℕ) (ds : List Delta) (final : Option ProviderError)
    (u : Option Usage) (flushed : Bool) (sent : List Sent)
    → Marked n sent flushed
    → let r = relay s c n ds final u flushed sent in Marked n r.sent r.flushed
unfolding relay
relay-Marked s c n [] final u flushed sent m = m
relay-Marked s c n (d ∷ ds) final u flushed sent m =
    elim (Option-cases (s.on_delta sent c.provider_name c.model d)) [
      | inl taken ↦
          rw (taken, relay) (relay-Marked s c n ds final _ _ _ (Marked-snoc c n sent d flushed m))
      | inr (f, refused) ↦ rw (refused, relay) (Marked-refused c n sent d flushed m)
    ]

-- The content and the results of the attempts on one candidate that nothing was sent before.
pub data Tries : World × List Sent × StreamTried → Type 0 where
  calm : (p : World × List Sent × StreamTried) → Silent p.1 → p.2.flushed ≡ false → Tries p
  heard :
      (p : World × List Sent × StreamTried) (n : ℕ)
      → FromCall n p.1
      → (Silent p.1 → ⊥)
      → p.2.flushed ≡ true
      → (p.2.err ≡ none) ⊎ ((f : ProviderError) × (p.2.err ≡ some (provider f)))
      → Tries p

module _ (s : Streaming) (e : Engine) (c : Candidate) where
  after_relay-Tries :
      (n : ℕ) (r : Relayed) (flushed : Bool) (w : World)
      (again : ProviderError → World × List Sent × StreamTried)
      → Marked n r.sent flushed
      → ((f : ProviderError) → flushed ≡ false → Silent r.sent → Tries (again f))
      → Tries (after_relay s c r flushed w again)
  unfolding after_relay
  after_relay-Tries n r false w again (quiet q) k = elim (Option-cases r.err) [
    | inl fine ↦ rw (fine, after_relay) (calm _ q refl)
    | inr (f, bad) ↦ elim (class_cases (classify_by_status (status_of f))) [
      | inl t ↦ rw (bad, t, after_relay) (calm _ q refl)
      | inr (inl t) ↦ rw (bad, t, after_relay) (k f refl q)
      | inr (inr t) ↦ rw (bad, t, after_relay) (calm _ q refl)
    ]
  ]
  after_relay-Tries n r true w again (loud fc h) k = elim (Option-cases r.err) [
    | inl fine ↦ rw (fine, after_relay) (heard _ n fc h refl (inl refl))
    | inr (f, bad) ↦ rw (bad, after_relay) (heard _ n fc h refl (inr (f, refl)))
  ]

  stream_loop-Tries :
      (n attempt : ℕ) (last_err : Option Err) (last_status : ℕ) (w : World) (sent : List Sent)
      → Silent sent
      → Tries (stream_loop s e c n attempt last_err last_status false w sent)
  unfolding stream_loop relay_stream
  stream_loop-Tries zero attempt last_err last_status w sent q = calm _ q refl
  stream_loop-Tries (suc n) attempt last_err last_status w sent q =
      elim (Bool-cases (pause s.oracle e attempt last_err w).1) [
        | inr refused ↦ rw (refused, stream_loop) (calm _ q refl)
        | inl waited ↦
            let w1 = (pause s.oracle e attempt last_err w).0 in
            let done = call s.oracle e c w1 in
            let r = relay_stream s c w1.queries done.1 sent in
            rw (waited, stream_loop)
              (after_relay-Tries w1.queries r r.flushed done.0
                (λ f.
                  stream_loop s e c n (suc attempt) (some (provider f)) (status_of f) r.flushed
                    (charge s.oracle c (status_of f) done.0) r.sent)
                (relay-Marked s c w1.queries (streamed done.1).deltas (streamed done.1).final none
                  false sent (quiet q))
                (λ f off quiet_now.
                  rw (off, stream_loop)
                    (stream_loop-Tries n (suc attempt) (some (provider f)) (status_of f)
                      (charge s.oracle c (status_of f) done.0) r.sent quiet_now)))
      ]

  pub try_candidate_stream-Tries :
      (w : World) (sent : List Sent) → Silent sent → Tries (try_candidate_stream s e c w sent)
  unfolding try_candidate_stream
  try_candidate_stream-Tries w sent q = elim (Bool-cases (ask_breaker s.oracle c w).1) [
    | inl asked ↦ rw (asked, try_candidate_stream) (stream_loop-Tries _ _ _ _ _ sent q)
    | inr rejected ↦ rw (rejected, try_candidate_stream) (calm _ q refl)
  ]
