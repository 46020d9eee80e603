-- ===== src/Retry/Paid.antt =====
-- internal/retry/engine.go: the time that `Execute` reports for its provider calls.
use llm_inference_gateway.Base.{
  ℕ, zero, suc, ◌+◌, ◌*◌, ◌≤◌, ◌≡◌, refl, not, List, [], ◌∷◌, ◌++◌, Option, none, some, arith,
  length, length-append, Bool-cases, Option-cases, inl, inr, ◌⊎◌, leb, ◌||◌, Text,
}
use llm_inference_gateway.Breaker.{record_failure}
use llm_inference_gateway.Providers.{
  FailureClass, terminal, retryable, fallback, classify_by_status,
}
use llm_inference_gateway.Retry.Execute.{judge, tier_loop, tiers_loop}
use llm_inference_gateway.Retry.Used.{Verdict-cases, TierEnd-cases, tried_once}
use llm_inference_gateway.Router.{Candidate, Tier}
use llm_inference_gateway.Retry.{
  Engine, Oracle, World, Completion, answered, failed, Err, ProviderError, provider,
}
use llm_inference_gateway.Retry.Pick.{
  tick, filter_ready, is_ready, draw, pick_from_tier, contains, total_weight,
}
use llm_inference_gateway.Retry.Calls.{
  status_of, with_breaker, ask_breaker, add_attempt, pause, call, succeed, charge, attempt_loop,
  try_candidate, Tried,
}

-- The provider time so far is at most `longest` for each attempt in the log.
unfoldable pub Paid : ℕ → World → Type 0
Paid longest w = w.provider_duration ≤ length w.attempts * longest

-- The states agree in the provider time and the log.
abbrev pub Alike : World → World → Type 0
Alike w w' = (w'.provider_duration ≡ w.provider_duration) × (w'.attempts ≡ w.attempts)

Paid-Alike : (longest : ℕ) (w w' : World) → Alike w w' → Paid longest w → Paid longest w'
unfolding Paid
Paid-Alike longest w w' (time, log) paid = rw (time, log) paid

longer {ℓ} : {A : Type ℓ} (xs : List A) (x : A) → length (xs ++ x ∷ []) ≡ suc (length xs)
longer xs x = omega (arith, length-append xs (x ∷ []))

one_more : (n longest time d : ℕ) → time ≤ n * longest → d ≤ longest → time + d ≤ suc n * longest
one_more n longest time d h g = grind arith

module _ {R : Type 0} (o : Oracle R) (longest : ℕ) (short : (n : ℕ) → o.duration n ≤ longest) where
  pause-Alike :
      (e : Engine) (n : ℕ) (last_err : Option Err) (w : World) → Alike w (pause o e n last_err w).0
  unfolding pause tick
  pause-Alike e zero last_err w = (refl, refl)
  pause-Alike e (suc n) last_err w = (refl, refl)

  -- A call and the entry of its attempt.
  called :
      (e : Engine) (c : Candidate) (w w' : World)
      → Paid longest w
      → w'.provider_duration ≡ (call o e c w).0.provider_duration
      → length w'.attempts ≡ suc (length w.attempts)
      → Paid longest w'
  unfolding Paid call tick
  called e c w w' paid time log =
      rw (time, log)
        (one_more (length w.attempts) longest w.provider_duration (o.duration w.queries) paid
          (short w.queries))

  succeed-Paid :
      (e : Engine) (c : Candidate) (w : World)
      → Paid longest w
      → Paid longest (succeed o c (call o e c w).0)
  unfolding succeed with_breaker add_attempt tick call
  succeed-Paid e c w paid = called e c w _ paid refl (longer w.attempts _)

  charge-Paid :
      (e : Engine) (c : Candidate) (status : ℕ) (w : World)
      → Paid longest w
      → Paid longest (charge o c status (call o e c w).0)
  unfolding charge with_breaker add_attempt tick call
  charge-Paid e c status w paid =
      elim (classify_by_status status)
        as (λ k. Paid longest (elim k [
          | terminal ↦ add_attempt c status (call o e c w).0
          | _ ↦
              (with_breaker o c (λ n b. (record_failure (o.failure_readings n) b, tt))
                (add_attempt c status (call o e c w).0)).0
        ])) [
          | terminal ↦ called e c w _ paid refl (longer w.attempts _)
          | retryable ↦ called e c w _ paid refl (longer w.attempts _)
          | fallback ↦ called e c w _ paid refl (longer w.attempts _)
        ]

  Completion-cases :
      (x : Completion R) → ((r : R) × (x ≡ answered r)) ⊎ ((f : ProviderError) × (x ≡ failed f))
  Completion-cases (answered r) = inl (r, refl)
  Completion-cases (failed f) = inr (f, refl)

  class_cases : (k : FailureClass) → (k ≡ retryable) ⊎ ((k ≡ terminal) ⊎ (k ≡ fallback))
  class_cases retryable = inl refl
  class_cases terminal = inr (inl refl)
  class_cases fallback = inr (inr refl)

  attempt_loop-Paid :
      (e : Engine) (c : Candidate) (n attempt : ℕ) (last_err : Option Err) (last_status : ℕ)
      (w : World)
      → Paid longest w
      → Paid longest (attempt_loop o e c n attempt last_err last_status w).0
  unfolding attempt_loop
  attempt_loop-Paid e c zero attempt last_err last_status w paid = paid
  attempt_loop-Paid e c (suc n) attempt last_err last_status w paid =
      let p = (pause o e attempt last_err w).0 in
      let paid' : Paid longest p = Paid-Alike longest w p (pause-Alike e attempt last_err w) paid in
      elim (Bool-cases (pause o e attempt last_err w).1) [
        | inr stopped ↦ rw (stopped, attempt_loop) paid'
        | inl waited ↦ elim (Completion-cases (call o e c p).1) [
          | inl (r, end) ↦ rw (waited, end, attempt_loop) (succeed-Paid e c p paid')
          | inr (f, end) ↦
              let after = charge-Paid e c (status_of f) p paid' in
              elim (class_cases (classify_by_status (status_of f))) [
                | inl again ↦
                    rw (waited, end, again, attempt_loop)
                      (attempt_loop-Paid e c n (suc attempt) (some (provider f)) (status_of f) _
                        after)
                | inr (inl k) ↦ rw (waited, end, k, attempt_loop) after
                | inr (inr k) ↦ rw (waited, end, k, attempt_loop) after
              ]
        ]
      ]

  try_candidate-Paid :
      (e : Engine) (c : Candidate) (w : World)
      → Paid longest w
      → Paid longest (try_candidate o e c w).0
  unfolding try_candidate ask_breaker with_breaker tick
  try_candidate-Paid e c w paid =
      let asked : Paid longest (ask_breaker o c w).0 = Paid-Alike longest w _ (refl, refl) paid in
      elim (Bool-cases (ask_breaker o c w).1) [
        | inr refused ↦ rw (refused, try_candidate) asked
        | inl allowed ↦
            rw (allowed, try_candidate)
              (attempt_loop-Paid e c e.cfg.max_attempts_per_provider 0 none 0 (ask_breaker o c w).0
                asked)
      ]

  judge-Alike : (last_err : Err) (t : Tried R) (w : World) → Alike w (judge o last_err t w).0
  unfolding judge tick
  judge-Alike last_err t w = ground arith

  once-Paid :
      (e : Engine) (c : Candidate) (last_err : Err) (w : World)
      → Paid longest w
      → Paid longest (tried_once o e c last_err w).0
  once-Paid e c last_err w paid =
      let t = try_candidate o e c w in
      Paid-Alike longest t.0 _ (judge-Alike last_err t.1 t.0) (try_candidate-Paid e c w paid)

  filter_ready-Paid :
      (e : Engine) (tried : List Text) (cs : List Candidate) (w : World)
      → Paid longest w
      → Paid longest (filter_ready o e tried cs w).0
  unfolding filter_ready is_ready tick
  filter_ready-Paid e tried [] w paid = paid
  filter_ready-Paid e tried (c ∷ cs) w paid =
      elim (Bool-cases (contains c.provider_name tried || not (e.is_configured c.provider_name))) [
        | inl skipped ↦ rw (skipped, filter_ready) (filter_ready-Paid e tried cs w paid)
        | inr kept ↦
            rw (kept, filter_ready)
              (filter_ready-Paid e tried cs (is_ready o c w).0
                (Paid-Alike longest w (is_ready o c w).0 (refl, refl) paid))
      ]

  draw-Paid : (cs : List Candidate) (w : World) → Paid longest w → Paid longest (draw o cs w).0
  unfolding draw tick
  draw-Paid [] w paid = paid
  draw-Paid (c ∷ cs) w paid = elim (Bool-cases (leb (total_weight (c ∷ cs)) 0)) [
    | inl empty ↦ rw empty paid
    | inr weighty ↦ rw weighty (Paid-Alike longest w _ (refl, refl) paid)
  ]

  pick-Paid :
      (e : Engine) (tier : Tier) (tried : List Text) (w : World)
      → Paid longest w
      → Paid longest (pick_from_tier o e tier tried w).0
  unfolding pick_from_tier
  pick-Paid e tier tried w paid =
      let kept = filter_ready o e tried tier.candidates w in
      draw-Paid kept.1 kept.0 (filter_ready-Paid e tried tier.candidates w paid)

  tier_loop-Paid :
      (e : Engine) (fuel : ℕ) (tier : Tier) (tried : List Text) (last_err : Err) (w : World)
      → Paid longest w
      → Paid longest (tier_loop o e fuel tier tried last_err w).0
  unfolding tier_loop
  tier_loop-Paid e zero tier tried last_err w paid = paid
  tier_loop-Paid e (suc fuel) tier tried last_err w paid =
      let w1 = (pick_from_tier o e tier tried w).0 in
      let picked_paid = pick-Paid e tier tried w paid in
      elim (Option-cases (pick_from_tier o e tier tried w).1) [
        | inl nobody ↦ rw (nobody, tier_loop) picked_paid
        | inr (c, picked) ↦
            let tried_paid = once-Paid e c last_err w1 picked_paid in
            elim (Verdict-cases (tried_once o e c last_err w1).1) [
              | inl (r, v) ↦ rw (picked, tier_loop) (rw v tried_paid)
              | inr (inl (err, v)) ↦ rw (picked, tier_loop) (rw v tried_paid)
              | inr (inr (err, v)) ↦
                  rw (picked, tier_loop)
                    (rw v (tier_loop-Paid e fuel tier (c.provider_name ∷ tried) err _ tried_paid))
            ]
      ]

  pub tiers_loop-Paid :
      (e : Engine) (tiers : List Tier) (last_err : Err) (w : World)
      → Paid longest w
      → Paid longest (tiers_loop o e tiers last_err w).0
  unfolding tiers_loop
  tiers_loop-Paid e [] last_err w paid = paid
  tiers_loop-Paid e (tier ∷ tiers) last_err w paid =
      let fuel = suc (length tier.candidates) in
      let walked = tier_loop-Paid e fuel tier [] last_err w paid in
      elim (TierEnd-cases (tier_loop o e fuel tier [] last_err w).1) [
        | inl (err, v) ↦ rw (v, tiers_loop) (tiers_loop-Paid e tiers err _ walked)
        | inr (inl (c, r, v)) ↦ rw (v, tiers_loop) walked
        | inr (inr (inl (err, v))) ↦ rw (v, tiers_loop) walked
        | inr (inr (inr v)) ↦ rw (v, tiers_loop) walked
      ]
