-- ===== src/Retry/Leak.antt =====
-- internal/retry/engine.go, `tryCandidate`: the probe slots of a half-open breaker.
use llm_inference_gateway.Base.{
  ℕ, zero, suc, ◌-◌, ◌<◌, ◌≡◌, ap, ◌∙◌, true, List, none, arith, map, Text, text_beq_iff, text_eq,
  ◌==◌, ◌&&◌, if◌then◌else◌, inl, inr,
}
use llm_inference_gateway.Providers.{terminal, classify_by_status}
use llm_inference_gateway.Breaker.{Breaker, half_open, allow}
use llm_inference_gateway.Breaker.Invariant.{allows, run}
use llm_inference_gateway.Breaker.HalfOpen.{granted, exhausted_stays, allow-half_open}
use llm_inference_gateway.Breaker.Registry.{
  Registry, NulFree, get, put, breaker_for, get-breaker_for, breaker_for-put,
}
use llm_inference_gateway.Router.{Candidate}
use llm_inference_gateway.Retry.{Engine, Oracle, World, ProviderError, failed}
use llm_inference_gateway.Retry.Pick.{tick}
use llm_inference_gateway.Retry.Calls.{
  status_of, pause, call, charge, ask_breaker, attempt_loop, try_candidate, with_breaker,
  add_attempt,
}

-- `n` calls of `tryCandidate` in a row.
pub calls : {R : Type 0} → Oracle R → Engine → Candidate → ℕ → World → World
calls o e c zero w = w
calls o e c (suc n) w = calls o e c n (try_candidate o e c w).0

-- The candidate's breaker.
abbrev pub breaker_of : Candidate → World → Breaker
breaker_of c w = breaker_for c.provider_name c.model w.registry

-- The provider ends every call with this terminal failure, and no other goroutine uses the breakers.
pub record IsTerminal {R : Type 0} (o : Oracle R) (c : Candidate) (f : ProviderError) : Type 0 where
  pub alone : (n : ℕ) (r : Registry) → o.others n r ≡ r
  pub fails : (n timeout : ℕ) → o.complete n c.provider_name c.model timeout ≡ failed f
  pub ends : classify_by_status (status_of f) ≡ terminal

module _ {R : Type 0} (o : Oracle R) (e : Engine) (c : Candidate) (f : ProviderError)
    (dead : IsTerminal o c f) (plain : NulFree c.provider_name) where
  -- A first attempt that ends terminally touches no breaker.
  registry-attempt_loop :
      (n : ℕ) (w : World) → (attempt_loop o e c (suc n) 0 none 0 w).0.registry ≡ w.registry
  unfolding attempt_loop pause call charge tick add_attempt
  registry-attempt_loop n w =
      rw (dead.fails, dead.ends, attempt_loop)
        (rw (dead.ends, charge) (dead.alone w.queries w.registry))

  asked :
      (w : World) → (get c.provider_name c.model (o.others w.queries w.registry)).1 ≡ breaker_of c w
  asked w =
      get-breaker_for c.provider_name c.model (o.others w.queries w.registry)
      ∙ ap (breaker_for c.provider_name c.model) (dead.alone w.queries w.registry)

  breaker_of-ask :
      (w : World)
      → breaker_of c (ask_breaker o c w).0 ≡ (allow (o.monotonic w.queries) (breaker_of c w)).0
  unfolding ask_breaker with_breaker tick
  breaker_of-ask w =
      let p = c.provider_name in
      let r = o.others w.queries w.registry in
      let b = (allow (o.monotonic w.queries) (get p c.model r).1).0 in
      let same : breaker_for p c.model (put p c.model b (get p c.model r).0) ≡ b =
        breaker_for-put p c.model p c.model b (get p c.model r).0 plain plain
        ∙ chosen p c.model b (breaker_for p c.model (get p c.model r).0) in
      same ∙ ap (λ x. (allow (o.monotonic w.queries) x).0) (asked w)
    where
      chosen : (p m : Text) (b b' : Breaker) → (if p == p && m == m then b else b') ≡ b
      chosen p m b b' = ground (arith, text_beq_iff p p, text_beq_iff m m)

  allowed_ask :
      (w : World) → (ask_breaker o c w).1 ≡ (allow (o.monotonic w.queries) (breaker_of c w)).1
  unfolding ask_breaker with_breaker tick
  allowed_ask w = ap (λ x. (allow (o.monotonic w.queries) x).1) (asked w)

  breaker_of-try :
      (k : ℕ) (w : World)
      → e.cfg.max_attempts_per_provider ≡ suc k
      → (allow (o.monotonic w.queries) (breaker_of c w)).1 ≡ true
      → breaker_of c (try_candidate o e c w).0 ≡ (allow (o.monotonic w.queries) (breaker_of c w)).0
  unfolding try_candidate attempt_loop pause call
  breaker_of-try k w quota let_in =
      rw (allowed_ask w ∙ let_in, quota, try_candidate)
        (ap (breaker_for c.provider_name c.model) (registry-attempt_loop k (ask_breaker o c w).0)
          ∙ breaker_of-ask w)

  calls-half_open :
      (k n : ℕ) (w : World)
      → e.cfg.max_attempts_per_provider ≡ suc k
      → (breaker_of c w).state ≡ half_open
      → (breaker_of c w).half_open_allowed ≡ n
      → ((breaker_of c (calls o e c n w)).state ≡ half_open)
        × ((breaker_of c (calls o e c n w)).half_open_allowed ≡ 0)
  unfolding calls
  calls-half_open k zero w quota half slots = (half, slots)
  calls-half_open k (suc n) w quota half slots =
      elim (allow-half_open (o.monotonic w.queries) (breaker_of c w) half) [
        | inl (none_left, _, _) ↦ absurd (omega arith)
        | inr (left, let_in, still, fewer) ↦
            let after = breaker_of-try k w quota let_in in
            calls-half_open k n (try_candidate o e c w).0 quota (ap (λ b. b.state) after ∙ still)
              (omega (arith, ap (λ b. b.half_open_allowed) after))
      ]

  -- Lost probes: when each of the remaining probe slots of a half-open breaker is taken by a call of
  -- `tryCandidate` that the provider ends with a terminal failure, the breaker stays half-open for good:
  -- `Allow` refuses at every later instant, and nothing changes the breaker. No other goroutine uses the
  -- breakers meanwhile, and at least one attempt per provider is configured.
  pub terminal_calls_leak :
      (n : ℕ) (w : World) (ts : List ℕ)
      → 0 < e.cfg.max_attempts_per_provider
      → (breaker_of c w).state ≡ half_open
      → (breaker_of c w).half_open_allowed ≡ n
      → let b = breaker_of c (calls o e c n w) in
        (b.state ≡ half_open) × (run (map allows ts) b ≡ b) × (granted ts b ≡ 0)
  terminal_calls_leak n w ts positive half slots =
      let quota : e.cfg.max_attempts_per_provider ≡ suc (e.cfg.max_attempts_per_provider - 1) =
        omega arith in
      let (still, spent) =
        calls-half_open (e.cfg.max_attempts_per_provider - 1) n w quota half slots in
      let (stays, refused) = exhausted_stays ts (breaker_of c (calls o e c n w)) still spent in
      (still, stays, refused)
