-- ===== src/Retry/Pick.antt =====
-- internal/retry/engine.go, `pickFromTier`: weighted choice among untried, ready candidates.
use llm_inference_gateway.Base.{
  ℕ, ◌+◌, ◌-◌, ◌≤◌, ◌<◌, ◌≡◌, Bool, true, false, not, ◌||◌, List, [], ◌∷◌, ◌++◌, Option, none, some,
  arith, ltb, leb, if◌then◌else◌, Text, text_eq, ◌==◌,
}
use llm_inference_gateway.Breaker.{ready}
use llm_inference_gateway.Breaker.Registry.{get}
use llm_inference_gateway.Router.{Candidate, Tier}
use llm_inference_gateway.Retry.{Engine, Oracle, World}

unfoldable pub contains : Text → List Text → Bool
contains t [] = false
contains t (u ∷ us) = t == u || contains t us

-- One more oracle query; what other goroutines did to the breakers since the last one is seen.
unfoldable pub tick : {R : Type 0} → Oracle R → World → World
tick o w = record w { registry = o.others w.queries w.registry; queries = w.queries + 1 }

-- `e.breakers.Get(c.ProviderName, c.Model).Ready()`
unfoldable pub is_ready : {R : Type 0} → Oracle R → Candidate → World → World × Bool
is_ready o c w =
    let w' = tick o w in
    let (registry, b) = get c.provider_name c.model w'.registry in
    (record w' { registry = registry }, ready (o.monotonic w.queries) b)

-- The filtering loop.
unfoldable pub filter_ready :
    {R : Type 0} → Oracle R → Engine → List Text → List Candidate → World → World × List Candidate
filter_ready o e tried [] w = (w, [])
filter_ready o e tried (c ∷ cs) w =
    elim (contains c.provider_name tried || not (e.is_configured c.provider_name)) [
      | true ↦ filter_ready o e tried cs w
      | false ↦
          let (w1, ok) = is_ready o c w in
          let (w2, eligible) = filter_ready o e tried cs w1 in
          (w2, if ok then c ∷ eligible else eligible)
    ]

unfoldable pub total_weight : List Candidate → ℕ
total_weight [] = 0
total_weight (c ∷ cs) = c.weight + total_weight cs

-- The selecting loop; its last line is the defensive return after it.
unfoldable pub select : ℕ → Candidate → List Candidate → Candidate
select pick c [] = c
select pick c (d ∷ ds) = if ltb pick c.weight then c else select (pick - c.weight) d ds

-- `len(eligible) == 0 || totalWeight <= 0`, then the draw.
unfoldable pub draw : {R : Type 0} → Oracle R → List Candidate → World → World × Option Candidate
draw o [] w = (w, none)
draw o (c ∷ cs) w =
    if leb (total_weight (c ∷ cs)) 0
    then (w, none)
    else (tick o w, some (select (o.rand w.queries (total_weight (c ∷ cs))) c cs))

unfoldable pub pick_from_tier :
    {R : Type 0} → Oracle R → Engine → Tier → List Text → World → World × Option Candidate
pick_from_tier o e tier tried w =
    let (w', eligible) = filter_ready o e tried tier.candidates w in draw o eligible w'

-- A candidate is selected for exactly its share of the draws: those from the weight of the
-- candidates before it up to that plus its own weight. One of weight 0 is never selected.
pub select-share :
    (before : List Candidate) (c : Candidate) (after : List Candidate) (x : Candidate)
    (xs : List Candidate) (pick : ℕ)
    → x ∷ xs ≡ before ++ c ∷ after
    → total_weight before ≤ pick
    → pick < total_weight before + c.weight
    → select pick x xs ≡ c
unfolding select total_weight
select-share [] c after x [] pick e lo hi = ground arith
select-share [] c after x (y ∷ ys) pick e lo hi = ground arith
select-share (b ∷ []) c after x [] pick e lo hi = cc
select-share (b ∷ b' ∷ before) c after x [] pick e lo hi = cc
select-share (b ∷ before) c after x (y ∷ ys) pick e lo hi =
    ground (arith, select-share before c after y ys (pick - x.weight))
