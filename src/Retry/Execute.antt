-- ===== src/Retry/Execute.antt =====
-- internal/retry/engine.go, `Execute`: the walk over tiers and the candidates of each.
use llm_inference_gateway.Base.{
  ℕ, zero, suc, List, [], ◌∷◌, Option, none, some, if◌then◌else◌, Text, length,
}
use llm_inference_gateway.Providers.{terminal, classify_by_status}
use llm_inference_gateway.Router.{Candidate, Tier}
use llm_inference_gateway.Retry.{
  Attempt, Engine, Oracle, World, Err, no_healthy_provider, breaker_rejected, context_done,
  provider,
}
use llm_inference_gateway.Retry.Pick.{pick_from_tier, tick}
use llm_inference_gateway.Retry.Calls.{Tried, try_candidate}

-- What happens after `tryCandidate`: a result for the caller, or the next round of the tier's loop
-- with this `lastErr`.
pub data Verdict (R : Type 0) : Type 0 where
  won : Option R → Verdict R
  aborted : Err → Verdict R
  go_on : Err → Verdict R

-- The tests after a call that failed with `err`, which is no breaker's rejection.
unfoldable pub judge_failure : {R : Type 0} → Oracle R → Err → ℕ → World → World × Verdict R
unfolding tick
judge_failure o err status w = elim (classify_by_status status) [
  | terminal ↦ (w, aborted err)
  | _ ↦ (tick o w, if o.is_done w.queries then aborted context_done else go_on err)
]

unfoldable pub judge : {R : Type 0} → Oracle R → Err → Tried R → World → World × Verdict R
unfolding judge_failure
judge o last_err t w = elim t.err [
  | none ↦ (w, won t.response)
  | some breaker_rejected ↦ (w, go_on last_err)
  | some no_healthy_provider ↦ judge_failure o no_healthy_provider t.status w
  | some context_done ↦ judge_failure o context_done t.status w
  | some (provider f) ↦ judge_failure o (provider f) t.status w
]

-- How a tier's loop ends; `out_of_fuel` is not an outcome of the code.
pub data TierEnd (R : Type 0) : Type 0 where
  response : Candidate → Option R → TierEnd R
  failure : Err → TierEnd R
  drained : Err → TierEnd R
  out_of_fuel : TierEnd R

-- The inner loop; each round tries one more provider, so `length tier.candidates + 1` rounds do.
unfoldable pub tier_loop :
    {R : Type 0} → Oracle R → Engine → ℕ → Tier → List Text → Err → World → World × TierEnd R
tier_loop o e zero tier tried last_err w = (w, out_of_fuel)
tier_loop o e (suc fuel) tier tried last_err w =
    let (w1, picked) = pick_from_tier o e tier tried w in
    elim picked [
      | none ↦ (w1, drained last_err)
      | some c ↦
          let (w2, t) = try_candidate o e c w1 in
          let (w3, verdict) = judge o last_err t w2 in
          elim verdict [
            | won r ↦ (w3, response c r)
            | aborted err ↦ (w3, failure err)
            | go_on err ↦ tier_loop o e fuel tier (c.provider_name ∷ tried) err w3
          ]
    ]

-- The outer loop.
unfoldable pub tiers_loop :
    {R : Type 0} → Oracle R → Engine → List Tier → Err → World → World × TierEnd R
tiers_loop o e [] last_err w = (w, drained last_err)
tiers_loop o e (tier ∷ tiers) last_err w =
    let (w', end) = tier_loop o e (suc (length tier.candidates)) tier [] last_err w in
    elim end [
      | response c r ↦ (w', response c r)
      | failure err ↦ (w', failure err)
      | drained err ↦ tiers_loop o e tiers err w'
      | out_of_fuel ↦ (w', out_of_fuel)
    ]

pub record Result (R : Type 0) : Type 0 where
  pub response : Option R
  pub provider : Text
  pub model : Text
  pub attempts : List Attempt
  pub provider_duration : ℕ

-- `*Result`, or `*Error` with its cause and attempts.
pub data Outcome (R : Type 0) : Type 0 where
  ok : Result R → Outcome R
  error : Err → List Attempt → Outcome R
  unfinished : Outcome R

unfoldable pub outcome_of : {R : Type 0} → TierEnd R → World → Outcome R
outcome_of (response c r) w = ok (record {
  response = r;
  provider = c.provider_name;
  model = c.model;
  attempts = w.attempts;
  provider_duration = w.provider_duration;
})
outcome_of (failure err) w = error err w.attempts
outcome_of (drained err) w = error err w.attempts
outcome_of out_of_fuel w = unfinished

unfoldable pub execute : {R : Type 0} → Oracle R → Engine → List Tier → World → World × Outcome R
unfolding tiers_loop outcome_of
execute o e tiers w =
    let (w', end) =
      tiers_loop o e tiers no_healthy_provider
        (record w { attempts = []; provider_duration = 0 }) in
    (w', outcome_of end w')
