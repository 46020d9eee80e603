-- ===== src/Retry/Attempts.antt =====
-- internal/retry/engine.go: `tryCandidate` and the attempts it adds to a report.
use llm_inference_gateway.Base.{
  ℕ, zero, suc, ◌≤◌, ◌<◌, ◌≡◌, refl, false, List, [], ◌∷◌, ◌++◌, Option, none, some, arith, length,
  Bool-cases, inl, inr, ◌∙◌, ap,
}
use llm_inference_gateway.Providers.{classify_by_status}
use llm_inference_gateway.Router.{Candidate}
use llm_inference_gateway.Retry.{
  Attempt, Engine, Oracle, World, ProviderError, Err, breaker_rejected, provider,
}
use llm_inference_gateway.Retry.Calls.{
  Tried, status_of, pause, call, succeed, charge, attempt_loop, try_candidate, ask_breaker,
}
use llm_inference_gateway.Retry.Trail.{
  entry, succeeded, Adds-cons, Adds-kept, Completion-cases, Adds-failure, Shape, Adds, class_cases,
}

module _ {R : Type 0} (o : Oracle R) (e : Engine) (c : Candidate) where
  attempts-pause :
      (n : ℕ) (err : Option Err) (w : World) → (pause o e n err w).0.attempts ≡ w.attempts
  unfolding pause
  attempts-pause zero err w = refl
  attempts-pause (suc n) err w = refl

  attempts-call : (w : World) → (call o e c w).0.attempts ≡ w.attempts
  unfolding call
  attempts-call w = refl

  attempts-succeed : (w : World) → (succeed o c w).attempts ≡ w.attempts ++ entry c 200 ∷ []
  unfolding succeed
  attempts-succeed w = refl

  attempts-charge : (s : ℕ) (w : World) → (charge o c s w).attempts ≡ w.attempts ++ entry c s ∷ []
  unfolding charge
  attempts-charge s w = ground arith

  -- The state in which the provider of a round answers.
  abbrev at_answer : ℕ → Option Err → World → World
  at_answer attempt last_err w = (call o e c (pause o e attempt last_err w).0).0

  attempts-at_answer :
      (attempt : ℕ) (last_err : Option Err) (w : World)
      → (at_answer attempt last_err w).attempts ≡ w.attempts
  attempts-at_answer attempt last_err w =
      attempts-call (pause o e attempt last_err w).0 ∙ attempts-pause attempt last_err w

  refused_late :
      (attempt : ℕ) (last_err : Option Err) (w : World)
      → (pause o e attempt last_err w).1 ≡ false
      → 0 < attempt
  unfolding pause
  refused_late zero last_err w h = cc
  refused_late (suc n) last_err w h = omega arith

  after_failure :
      (attempt : ℕ) (last_err : Option Err) (w : World) (f : ProviderError)
      → (charge o c (status_of f) (at_answer attempt last_err w)).attempts
        ≡ w.attempts ++ entry c (status_of f) ∷ []
  after_failure attempt last_err w f =
      attempts-charge (status_of f) (at_answer attempt last_err w)
      ∙ ap (λ (xs : List Attempt). xs ++ entry c (status_of f) ∷ [])
          (attempts-at_answer attempt last_err w)

  attempt_loop-Adds :
      (n attempt : ℕ) (last_err : Option Err) (last_status : ℕ) (w : World)
      → Adds c last_err last_status n attempt w
          (attempt_loop o e c n attempt last_err last_status w)
  unfolding attempt_loop
  attempt_loop-Adds zero attempt last_err last_status w =
      Adds-kept c last_err last_status 0 attempt w w none (inl refl) refl
  attempt_loop-Adds (suc n) attempt last_err last_status w =
      elim (Bool-cases (pause o e attempt last_err w).1) [
        | inl go ↦ elim (Completion-cases (call o e c (pause o e attempt last_err w).0).1) [
          | inl (r, answer) ↦
              rw (go, attempt_loop)
                (rw answer (record {
                  new = entry c 200 ∷ [];
                  appended =
                      attempts-succeed (at_answer attempt last_err w)
                      ∙ ap (λ (xs : List Attempt). xs ++ entry c 200 ∷ [])
                          (attempts-at_answer attempt last_err w);
                  bounded = omega arith;
                  shape = succeeded [] r refl tt refl refl;
                }))
          | inr (f, answer) ↦ elim (class_cases (classify_by_status (status_of f))) [
            | inl k ↦
                rw (go, attempt_loop)
                  (rw answer (
                    rw k (
                      Adds-failure c last_err last_status n attempt w _ none f
                        (after_failure attempt last_err w f))))
            | inr (inl k) ↦
                rw (go, attempt_loop)
                  (rw answer (
                    rw k (
                      Adds-cons f k (after_failure attempt last_err w f) (
                        attempt_loop-Adds n (suc attempt) (some (provider f)) (status_of f)
                          (charge o c (status_of f) (at_answer attempt last_err w))))))
            | inr (inr k) ↦
                rw (go, attempt_loop)
                  (rw answer (
                    rw k (
                      Adds-failure c last_err last_status n attempt w _ none f
                        (after_failure attempt last_err w f))))
          ]
        ]
        | inr stop ↦
            rw (stop, attempt_loop)
              (Adds-kept c last_err last_status (suc n) attempt w (pause o e attempt last_err w).0
                none (inr (refused_late attempt last_err w stop))
                (attempts-pause attempt last_err w))
      ]

  -- `tryCandidate` either is refused by the breaker and adds nothing, or adds at least one attempt
  -- and at most the configured number, all on its candidate: transient ones, and at the end a
  -- success with a response or the failure that it returns.
  pub data Trial (w : World) (end : World × Tried R) : Type 0 where
    rejected : end.0.attempts ≡ w.attempts → end.1.err ≡ some breaker_rejected → Trial w end
    tried :
        (new : List Attempt)
        → end.0.attempts ≡ w.attempts ++ new
        → length new ≤ e.cfg.max_attempts_per_provider
        → Shape c none 0 e.cfg.max_attempts_per_provider 0 new end.1
        → Trial w end

  attempts-ask_breaker : (w : World) → (ask_breaker o c w).0.attempts ≡ w.attempts
  unfolding ask_breaker
  attempts-ask_breaker w = refl

  pub try_candidate-Trial : (w : World) → Trial w (try_candidate o e c w)
  unfolding try_candidate
  try_candidate-Trial w = elim (Bool-cases (ask_breaker o c w).1) [
    | inl allowed ↦
        let a = attempt_loop-Adds e.cfg.max_attempts_per_provider 0 none 0 (ask_breaker o c w).0 in
        rw (try_candidate, allowed)
          (tried a.new
            (a.appended ∙ ap (λ (xs : List Attempt). xs ++ a.new) (attempts-ask_breaker w))
            a.bounded a.shape)
    | inr refused ↦ rw (try_candidate, refused) (rejected (attempts-ask_breaker w) refl)
  ]
