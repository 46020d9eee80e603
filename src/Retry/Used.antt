-- ===== src/Retry/Used.antt =====
-- internal/retry/engine.go: what it means that every tier of a request is used up.
use llm_inference_gateway.Base.{
  ℕ, zero, suc, ◌≡◌, refl, ap, subst, ◌⊎◌, inl, inr, List, [], ◌∷◌, Option, none, some, arith, Text,
  length, Option-cases,
}
use llm_inference_gateway.Router.{Candidate, Tier}
use llm_inference_gateway.Retry.{Engine, Oracle, World, Err, context_done}
use llm_inference_gateway.Retry.Pick.{filter_ready, total_weight, draw, pick_from_tier}
use llm_inference_gateway.Retry.Calls.{try_candidate}
use llm_inference_gateway.Retry.Execute.{
  Verdict, won, aborted, go_on, judge, TierEnd, response, failure, drained, out_of_fuel, tier_loop,
  tiers_loop,
}

-- One candidate tried, and what the engine makes of its end.
abbrev pub tried_once :
    {R : Type 0} → Oracle R → Engine → Candidate → Err → World → World × Verdict R
tried_once o e c last_err w = let (w', t) = try_candidate o e c w in judge o last_err t w'

-- A tier is used up, from the providers tried, the last error and the state at its begin to the last
-- error and the state at its end: one candidate after another is drawn and tried without an end of the
-- request, until the candidates that are untried and ready have no weight left.
pub data Drains {R : Type 0} (o : Oracle R) (e : Engine) (tier : Tier)
    : List Text → Err → World → Err → World → Type 0 where
  nobody_left :
      (tried : List Text) (err : Err) (w : World)
      → total_weight (filter_ready o e tried tier.candidates w).1 ≡ 0
      → Drains o e tier tried err w err (pick_from_tier o e tier tried w).0
  moves_on :
      (tried : List Text) (err err' end : Err) (w w' : World) (c : Candidate)
      → (pick_from_tier o e tier tried w).1 ≡ some c
      → (tried_once o e c err (pick_from_tier o e tier tried w).0).1 ≡ go_on err'
      → Drains o e tier
          (c.provider_name ∷ tried)
          err'
          (tried_once o e c err (pick_from_tier o e tier tried w).0).0
          end
          w'
      → Drains o e tier tried err w end w'

-- Every tier is used up, one after the other.
pub data AllUsed {R : Type 0} (o : Oracle R) (e : Engine)
    : List Tier → Err → World → Err → World → Type 0 where
  over : (err : Err) (w : World) → AllUsed o e [] err w err w
  first :
      (tier : Tier) (tiers : List Tier) (err err' end : Err) (w w' w'' : World)
      → Drains o e tier [] err w err' w'
      → AllUsed o e tiers err' w' end w''
      → AllUsed o e (tier ∷ tiers) err w end w''

pub Verdict-cases :
    {R : Type 0} (v : Verdict R)
    → ((r : Option R) × (v ≡ won r))
      ⊎ ((err : Err) × (v ≡ aborted err))
      ⊎ ((err : Err) × (v ≡ go_on err))
Verdict-cases (won r) = inl (r, refl)
Verdict-cases (aborted err) = inr (inl (err, refl))
Verdict-cases (go_on err) = inr (inr (err, refl))

pub TierEnd-cases :
    {R : Type 0} (end : TierEnd R)
    → ((err : Err) × (end ≡ drained err))
      ⊎ ((c : Candidate) × (r : Option R) × (end ≡ response c r))
      ⊎ ((err : Err) × (end ≡ failure err))
      ⊎ (end ≡ out_of_fuel)
TierEnd-cases (drained err) = inl (err, refl)
TierEnd-cases (response c r) = inr (inl (c, r, refl))
TierEnd-cases (failure err) = inr (inr (inl (err, refl)))
TierEnd-cases out_of_fuel = inr (inr (inr refl))

abbrev err_in : {R : Type 0} → TierEnd R → Err
err_in (drained err) = err
err_in _ = context_done

module _ {R : Type 0} (o : Oracle R) (e : Engine) where
  draw-none : (cs : List Candidate) (w : World) → (draw o cs w).1 ≡ none → total_weight cs ≡ 0
  unfolding draw total_weight
  draw-none [] w q = refl
  draw-none (c ∷ cs) w q = ground arith

  pick-none :
      (tier : Tier) (tried : List Text) (w : World)
      → (pick_from_tier o e tier tried w).1 ≡ none
      → total_weight (filter_ready o e tried tier.candidates w).1 ≡ 0
  unfolding pick_from_tier
  pick-none tier tried w q =
      let kept = filter_ready o e tried tier.candidates w in draw-none kept.1 kept.0 q

  tier_loop-Drains :
      (fuel : ℕ) (tier : Tier) (tried : List Text) (last_err : Err) (w : World) (err : Err)
      → (tier_loop o e fuel tier tried last_err w).1 ≡ drained err
      → Drains o e tier tried last_err w err (tier_loop o e fuel tier tried last_err w).0
  unfolding tier_loop
  tier_loop-Drains zero tier tried last_err w err = λ q. absurd (ground arith)
  tier_loop-Drains (suc fuel) tier tried last_err w err =
      let w1 = (pick_from_tier o e tier tried w).0 in
      elim (Option-cases (pick_from_tier o e tier tried w).1) [
        | inl nobody ↦
            rw (nobody, tier_loop)
              (λ q.
                subst (λ x. Drains o e tier tried last_err w x w1) (ap err_in q)
                  (nobody_left tried last_err w (pick-none tier tried w nobody)))
        | inr (c, picked) ↦ elim (Verdict-cases (tried_once o e c last_err w1).1) [
          | inl (r, v) ↦ rw (picked, tier_loop) (rw v (λ q. absurd (ground arith)))
          | inr (inl (err', v)) ↦ rw (picked, tier_loop) (rw v (λ q. absurd (ground arith)))
          | inr (inr (err', v)) ↦
              rw (picked, tier_loop)
                (rw v (λ q.
                  moves_on tried last_err err' err w _ c picked v
                    (tier_loop-Drains fuel tier (c.provider_name ∷ tried) err' _ err q)))
        ]
      ]

  pub tiers_loop-AllUsed :
      (tiers : List Tier) (last_err : Err) (w : World) (err : Err)
      → (tiers_loop o e tiers last_err w).1 ≡ drained err
      → AllUsed o e tiers last_err w err (tiers_loop o e tiers last_err w).0
  unfolding tiers_loop
  tiers_loop-AllUsed [] last_err w err =
      λ q. subst (λ x. AllUsed o e [] last_err w x w) (ap err_in q) (over last_err w)
  tiers_loop-AllUsed (tier ∷ tiers) last_err w err =
      let fuel = suc (length tier.candidates) in
      let w' = (tier_loop o e fuel tier [] last_err w).0 in
      elim (TierEnd-cases (tier_loop o e fuel tier [] last_err w).1) [
        | inl (err', v) ↦
            rw (v, tiers_loop)
              (λ q.
                first tier tiers last_err err' err w w' _
                  (tier_loop-Drains fuel tier [] last_err w err' v)
                  (tiers_loop-AllUsed tiers err' w' err q))
        | inr (inl (c, r, v)) ↦ rw (v, tiers_loop) (λ q. absurd (ground arith))
        | inr (inr (inl (err', v))) ↦ rw (v, tiers_loop) (λ q. absurd (ground arith))
        | inr (inr (inr v)) ↦ rw (v, tiers_loop) (λ q. absurd (ground arith))
      ]
