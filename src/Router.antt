-- ===== src/Router.antt =====
-- internal/router/router.go: from a model alias to the tiers of candidates.
pub mod Order
pub mod Tiers
pub mod Levels
use llm_inference_gateway.Base.{
  ℕ, ◌≡◌, Bool, true, false, ◌&&◌, List, [], ◌∷◌, ◌++◌, Option, none, some, ltb, nat_beq,
  if◌then◌else◌, Text, map, leb, text_eq, ◌||◌,
}
use llm_inference_gateway.Base.Dict.{lookup, insert}

-- The fields of `config.ProviderConfig` that the router reads.
pub record ProviderConfig : Type 0 where
  pub name : Text
  pub priority : ℕ
  pub weight : ℕ

pub record Candidate : Type 0 where
  pub provider_name : Text
  pub model : Text
  pub weight : ℕ

pub record Tier : Type 0 where
  pub candidates : List Candidate

pub record Router : Type 0 where
  pub model_aliases : List (Text × List (Text × Text))
  pub fallback_chains : List (Text × List Text)
  pub provider_order : List Text
  pub provider_priority : List (Text × ℕ)
  pub provider_weight : List (Text × ℕ)

-- `sort.SliceStable` by priority: an entry goes in front of the first that is strictly greater.
-- The sorted slice is built from the back, so entries of one priority keep their order.
unfoldable pub insert_by_priority : ProviderConfig → List ProviderConfig → List ProviderConfig
insert_by_priority p [] = p ∷ []
insert_by_priority p (q ∷ qs) =
    if leb p.priority q.priority then p ∷ q ∷ qs else q ∷ insert_by_priority p qs

unfoldable pub sort_by_priority : List ProviderConfig → List ProviderConfig
sort_by_priority [] = []
sort_by_priority (p ∷ ps) = insert_by_priority p (sort_by_priority ps)

-- The map that the loop of `New` fills in the sorted order.
unfoldable pub fill {ℓ} :
    {V : Type ℓ} → (ProviderConfig → V) → List ProviderConfig → List (Text × V) → List (Text × V)
fill f [] m = m
fill f (p ∷ ps) m = fill f ps (insert p.name (f p) m)

unfoldable pub new_router :
    List ProviderConfig → List (Text × List (Text × Text)) → List (Text × List Text) → Router
new_router providers aliases chains =
    let sorted = sort_by_priority providers in
    record {
      model_aliases = aliases;
      fallback_chains = chains;
      provider_order = map (λ p. p.name) sorted;
      provider_priority = fill (λ p. p.priority) sorted [];
      provider_weight = fill (λ p. p.weight) sorted [];
    }

-- A map read with Go's zero value for a missing key.
abbrev pub zero_or : Option ℕ → ℕ
zero_or none = 0
zero_or (some n) = n

abbrev pub weight_of : Router → Text → ℕ
weight_of r name = zero_or (lookup name r.provider_weight)

abbrev pub priority_of : Router → Text → ℕ
priority_of r name = zero_or (lookup name r.provider_priority)

abbrev pub candidate : Router → Text → Text → Candidate
candidate r name model = record { provider_name = name; model = model; weight = weight_of r name }

-- The loop over an explicit chain.
unfoldable pub chain_tiers : Router → List (Text × Text) → List Text → List Tier
chain_tiers r models [] = []
chain_tiers r models (name ∷ names) =
    let rest = chain_tiers r models names in
    elim (lookup name models) [
      | none ↦ rest
      | some model ↦ record { candidates = candidate r name model ∷ [] } ∷ rest
    ]

-- `append(tiers[len(tiers)-1].Candidates, cand)`
unfoldable pub append_to_last : Candidate → List Tier → List Tier
append_to_last c [] = []
append_to_last c (t ∷ []) = record { candidates = t.candidates ++ c ∷ [] } ∷ []
append_to_last c (t ∷ u ∷ ts) = t ∷ append_to_last c (u ∷ ts)

-- The branch on `haveTier && p == lastPriority`; `last` is `lastPriority` where `haveTier` holds.
unfoldable pub place : Candidate → ℕ → Option ℕ → List Tier → List Tier
unfolding append_to_last
place c p none tiers = tiers ++ record { candidates = c ∷ [] } ∷ []
place c p (some last) tiers =
    if nat_beq p last then append_to_last c tiers else tiers ++ record { candidates = c ∷ [] } ∷ []

-- The loop over the provider order. After either branch `lastPriority` is `p`.
unfoldable pub group : Router → List (Text × Text) → List Text → Option ℕ → List Tier → List Tier
group r models [] last tiers = tiers
group r models (name ∷ names) last tiers = elim (lookup name models) [
  | none ↦ group r models names last tiers
  | some model ↦
      group r models names (some (priority_of r name))
        (place (candidate r name model) (priority_of r name) last tiers)
]

-- `none` is `ErrUnknownModel`, which is returned for an empty list of tiers too.
unfoldable pub unless_empty : List Tier → Option (List Tier)
unless_empty [] = none
unless_empty (t ∷ ts) = some (t ∷ ts)

-- The branch on an explicit chain; an entry with an empty chain counts as none.
unfoldable pub resolve_with : Router → List (Text × Text) → Option (List Text) → Option (List Tier)
unfolding unless_empty
resolve_with r models (some (name ∷ names)) = unless_empty (chain_tiers r models (name ∷ names))
resolve_with r models _ = unless_empty (group r models r.provider_order none [])

unfoldable pub resolve : Router → Text → Option (List Tier)
unfolding resolve_with
resolve r alias = elim (lookup alias r.model_aliases) [
  | none ↦ none
  | some [] ↦ none
  | some (m ∷ ms) ↦ resolve_with r (m ∷ ms) (lookup alias r.fallback_chains)
]

-- `sort.Strings`: Go compares strings byte by byte.
unfoldable pub text_leb : Text → Text → Bool
text_leb [] _ = true
text_leb (x ∷ xs) [] = false
text_leb (x ∷ xs) (y ∷ ys) = ltb x y || (nat_beq x y && text_leb xs ys)

unfoldable pub insert_text : Text → List Text → List Text
insert_text t [] = t ∷ []
insert_text t (u ∷ us) = if text_leb t u then t ∷ u ∷ us else u ∷ insert_text t us

unfoldable pub sort_texts : List Text → List Text
sort_texts [] = []
sort_texts (t ∷ ts) = insert_text t (sort_texts ts)

unfoldable pub aliases : Router → List Text
aliases r = sort_texts (map (λ e. e.0) r.model_aliases)
