-- ===== src/Router/Tiers.antt =====
-- internal/router/router.go: `Resolve` against the list of candidates of an alias.
use llm_inference_gateway.Base.{
  ℕ, ◌≡◌, refl, ◌≢◌, inl, inr, List, [], ◌∷◌, ◌++◌, Option, none, some, arith, nat_beq, Text, All,
  append_assoc, append-nil, Option-cases, text_eq, ◌∙◌, sym, Bool-cases,
}
use llm_inference_gateway.Base.Dict.{lookup}
use llm_inference_gateway.Router.{
  Candidate, Tier, Router, candidate, priority_of, chain_tiers, append_to_last, place, group,
  unless_empty, resolve_with, resolve,
}

-- All candidates, tier after tier.
unfoldable pub flatten : List Tier → List Candidate
flatten [] = []
flatten (t ∷ ts) = t.candidates ++ flatten ts

-- The candidates of the named providers that the alias has a model for, in the order of the names.
pub eligible : Router → List (Text × Text) → List Text → List Candidate
eligible r models [] = []
eligible r models (name ∷ names) =
    let rest = eligible r models names in
    elim (lookup name models) [ none ↦ rest | some model ↦ candidate r name model ∷ rest ]

-- An explicit chain that names a provider replaces the default order.
pub order_of : Router → Option (List Text) → List Text
order_of r none = r.provider_order
order_of r (some []) = r.provider_order
order_of r (some (name ∷ names)) = name ∷ names

-- The specification: the candidates for an alias, first to try first.
pub plan : Router → Text → List Candidate
plan r alias = elim (lookup alias r.model_aliases) [
  | none ↦ []
  | some models ↦ eligible r models (order_of r (lookup alias r.fallback_chains))
]

flatten-append : (ts us : List Tier) → flatten (ts ++ us) ≡ flatten ts ++ flatten us
unfolding flatten
flatten-append [] us = refl
flatten-append (t ∷ ts) us = simp (flatten-append ts us, append_assoc)

flatten-append_to_last :
    (c : Candidate) (ts : List Tier)
    → ts ≢ []
    → flatten (append_to_last c ts) ≡ flatten ts ++ c ∷ []
unfolding flatten append_to_last
flatten-append_to_last c [] h = absurd (h refl)
flatten-append_to_last c (t ∷ []) h = simp append-nil
flatten-append_to_last c (t ∷ u ∷ ts) h =
    simp (flatten-append_to_last c (u ∷ ts) (λ e. cc), append_assoc)

append_to_last-nonempty : (c : Candidate) (ts : List Tier) → ts ≢ [] → append_to_last c ts ≢ []
unfolding append_to_last
append_to_last-nonempty c [] h = h
append_to_last-nonempty c (t ∷ []) h = λ e. cc
append_to_last-nonempty c (t ∷ u ∷ ts) h = λ e. cc

snoc-nonempty {ℓ} : {A : Type ℓ} (ts : List A) (t : A) → ts ++ t ∷ [] ≢ []
snoc-nonempty [] t = λ e. cc
snoc-nonempty (u ∷ ts) t = λ e. cc

flatten-chain_tiers :
    (r : Router) (models : List (Text × Text)) (names : List Text)
    → flatten (chain_tiers r models names) ≡ eligible r models names
unfolding flatten chain_tiers eligible
flatten-chain_tiers r models [] = refl
flatten-chain_tiers r models (name ∷ names) = ground (arith, flatten-chain_tiers r models names)

-- `haveTier` holds only when there is a tier.
abbrev HasTier : Option ℕ → List Tier → Type 0
HasTier none ts = Unit {0}
HasTier (some p) ts = ts ≢ []

flatten-place :
    (c : Candidate) (p : ℕ) (last : Option ℕ) (ts : List Tier)
    → HasTier last ts
    → (flatten (place c p last ts) ≡ flatten ts ++ c ∷ []) × (place c p last ts ≢ [])
unfolding place flatten
flatten-place c p none ts h =
    (flatten-append ts (record { candidates = c ∷ [] } ∷ []), snoc-nonempty ts _)
flatten-place c p (some last) ts h = elim (Bool-cases (nat_beq p last)) [
  | inl same ↦ rw same (flatten-append_to_last c ts h, append_to_last-nonempty c ts h)
  | inr other ↦
      rw other (flatten-append ts (record { candidates = c ∷ [] } ∷ []), snoc-nonempty ts _)
]

flatten-group :
    (r : Router) (models : List (Text × Text)) (names : List Text) (last : Option ℕ)
    (ts : List Tier)
    → HasTier last ts
    → flatten (group r models names last ts) ≡ flatten ts ++ eligible r models names
unfolding group eligible
flatten-group r models [] last ts h = simp append-nil
flatten-group r models (name ∷ names) last ts h = elim (Option-cases (lookup name models)) [
  | inl missing ↦ rw (missing, group, eligible) (flatten-group r models names last ts h)
  | inr (model, found) ↦
      let c = candidate r name model in
      let (flat, some_tier) = flatten-place c (priority_of r name) last ts h in
      rw (found, group, eligible)
        (flatten-group r models names (some (priority_of r name))
            (place c (priority_of r name) last ts) some_tier
          ∙ rw (flat, append_assoc))
]

-- Every tier has a candidate.
abbrev pub Full : List Tier → Type 0
Full = All (λ t. t.candidates ≢ [])

Full-append :
    (ts : List Tier) (c : Candidate) → Full ts → Full (ts ++ record { candidates = c ∷ [] } ∷ [])
Full-append [] c f = ((λ e. cc), tt)
Full-append (t ∷ ts) c f = (f.0, Full-append ts c f.1)

Full-append_to_last : (c : Candidate) (ts : List Tier) → Full ts → Full (append_to_last c ts)
unfolding append_to_last
Full-append_to_last c [] f = tt
Full-append_to_last c (t ∷ []) f = (snoc-nonempty t.candidates c, tt)
Full-append_to_last c (t ∷ u ∷ ts) f = (f.0, Full-append_to_last c (u ∷ ts) f.1)

Full-place :
    (c : Candidate) (p : ℕ) (last : Option ℕ) (ts : List Tier) → Full ts → Full (place c p last ts)
unfolding place
Full-place c p none ts f = Full-append ts c f
Full-place c p (some last) ts f = elim (Bool-cases (nat_beq p last)) [
  | inl same ↦ rw same (Full-append_to_last c ts f)
  | inr other ↦ rw other (Full-append ts c f)
]

Full-group :
    (r : Router) (models : List (Text × Text)) (names : List Text) (last : Option ℕ)
    (ts : List Tier)
    → Full ts
    → Full (group r models names last ts)
unfolding group
Full-group r models [] last ts f = f
Full-group r models (name ∷ names) last ts f = elim (Option-cases (lookup name models)) [
  | inl missing ↦ rw (missing, group) (Full-group r models names last ts f)
  | inr (model, found) ↦
      rw (found, group)
        (Full-group r models names (some (priority_of r name)) _
          (Full-place (candidate r name model) (priority_of r name) last ts f))
]

Full-chain_tiers :
    (r : Router) (models : List (Text × Text)) (names : List Text)
    → Full (chain_tiers r models names)
unfolding chain_tiers
Full-chain_tiers r models [] = tt
Full-chain_tiers r models (name ∷ names) = elim (Option-cases (lookup name models)) [
  | inl missing ↦ rw (missing, chain_tiers) (Full-chain_tiers r models names)
  | inr (model, found) ↦ rw (found, chain_tiers) ((λ e. cc), Full-chain_tiers r models names)
]

-- What `Resolve` promises of its result, when the candidates to try are `cs`.
pub data Resolves (cs : List Candidate) : Option (List Tier) → Type 0 where
  unknown : cs ≡ [] → Resolves cs none
  known : (ts : List Tier) → cs ≢ [] → flatten ts ≡ cs → Full ts → Resolves cs (some ts)

append-nonempty {ℓ} : {A : Type ℓ} (xs ys : List A) → xs ≢ [] → xs ++ ys ≢ []
append-nonempty [] ys h = absurd (h refl)
append-nonempty (x ∷ xs) ys h = λ e. cc

unless_empty-Resolves :
    (cs : List Candidate) (ts : List Tier)
    → flatten ts ≡ cs
    → Full ts
    → Resolves cs (unless_empty ts)
unfolding unless_empty flatten
unless_empty-Resolves cs [] e f = unknown (sym e)
unless_empty-Resolves cs (t ∷ ts) e f =
    known (t ∷ ts) (λ none_left. append-nonempty t.candidates (flatten ts) f.0 (e ∙ none_left)) e f

resolve_with-Resolves :
    (r : Router) (models : List (Text × Text)) (chain : Option (List Text))
    → Resolves (eligible r models (order_of r chain)) (resolve_with r models chain)
unfolding resolve_with order_of eligible flatten
resolve_with-Resolves r models none =
    unless_empty-Resolves _ _ (flatten-group r models r.provider_order none [] tt)
      (Full-group r models r.provider_order none [] tt)
resolve_with-Resolves r models (some []) =
    unless_empty-Resolves _ _ (flatten-group r models r.provider_order none [] tt)
      (Full-group r models r.provider_order none [] tt)
resolve_with-Resolves r models (some (name ∷ names)) =
    unless_empty-Resolves _ _ (flatten-chain_tiers r models (name ∷ names))
      (Full-chain_tiers r models (name ∷ names))

eligible-nil : (r : Router) (names : List Text) → eligible r [] names ≡ []
unfolding eligible
eligible-nil r [] = refl
eligible-nil r (name ∷ names) = eligible-nil r names

-- Resolving an alias fails exactly when no candidate is left for it; otherwise the tiers are all
-- non-empty, and tier after tier they hold, in order and nothing else, the providers of the explicit
-- chain (or, without one, of the default order) that the alias has a model for.
pub resolve-plan : (r : Router) (alias : Text) → Resolves (plan r alias) (resolve r alias)
unfolding resolve plan
resolve-plan r alias =
    elim (lookup alias r.model_aliases)
      as (λ o.
        Resolves
          (elim o [
            | none ↦ []
            | some models ↦ eligible r models (order_of r (lookup alias r.fallback_chains))
          ])
          (elim o [
            | none ↦ none
            | some [] ↦ none
            | some (m ∷ ms) ↦ resolve_with r (m ∷ ms) (lookup alias r.fallback_chains)
          ])) [
            | none ↦ unknown refl
            | some [] ↦ unknown (eligible-nil r (order_of r (lookup alias r.fallback_chains)))
            | some (m ∷ ms) ↦ resolve_with-Resolves r (m ∷ ms) (lookup alias r.fallback_chains)
          ]
