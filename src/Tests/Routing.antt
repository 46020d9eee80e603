-- ===== src/Tests/Routing.antt =====
-- The router's theorems at concrete inputs.
use llm_inference_gateway.Base.{List, [], ◌∷◌, arith, codes, Text}
use llm_inference_gateway.Tests.{openai, mistral, gpt}
use llm_inference_gateway.Router.{
  ProviderConfig, Router, new_router, sort_by_priority, resolve, insert_by_priority, fill,
}
use llm_inference_gateway.Router.Tiers.{plan, Resolves, resolve-plan}
use llm_inference_gateway.Router.Levels.{Climbs}

abbrev providers : List ProviderConfig
providers =
    record { name = mistral; priority = 2; weight = 1 }
    ∷ record { name = openai; priority = 1; weight = 3 }
    ∷ record { name = codes "azure"; priority = 1; weight = 1 }
    ∷ []

abbrev models : List (Text × Text)
models = (mistral, codes "large") ∷ (openai, gpt) ∷ (codes "azure", gpt) ∷ []

abbrev router : Router
router = new_router providers ((codes "smart", models) ∷ []) []

resolve_example : Resolves (plan router (codes "smart")) (resolve router (codes "smart"))
resolve_example = resolve-plan router (codes "smart")

router-Climbs : Climbs router router.provider_order
unfolding new_router sort_by_priority insert_by_priority fill
router-Climbs = ground arith
