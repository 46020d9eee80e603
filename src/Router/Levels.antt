-- ===== src/Router/Levels.antt =====
-- internal/router/router.go: the grouping by priority in `Resolve`.
use llm_inference_gateway.Base.{
  ℕ, suc, ◌≤◌, ◌<◌, ◌≡◌, refl, inl, inr, List, [], ◌∷◌, ◌++◌, Option, none, some, arith, nat_beq,
  nat_beq_iff, Text, All, Option-cases, Bool-cases, text_eq, zero,
}
use llm_inference_gateway.Base.Dict.{lookup}
use llm_inference_gateway.Router.{
  Candidate, Tier, Router, candidate, priority_of, append_to_last, place, group,
}

-- All candidates of the tier have this priority.
abbrev pub IsLevel : Router → ℕ → Tier → Type 0
IsLevel r k t = All (λ c. priority_of r c.provider_name ≡ k) t.candidates

-- Every tier has one priority, none below `lo`, and they rise strictly from tier to tier.
abbrev pub Rises : Router → ℕ → List Tier → Type 0
Rises r lo [] = Unit {0}
Rises r lo (t ∷ ts) = (k : ℕ) × (lo ≤ k) × IsLevel r k t × Rises r (suc k) ts

-- The order of names never goes down in priority.
abbrev pub Climbs : Router → List Text → Type 0
Climbs r [] = Unit {0}
Climbs r (name ∷ names) =
    All (λ later. priority_of r name ≤ priority_of r later) names × Climbs r names

-- The same with the last tier at `top`.
abbrev RisesTo : Router → ℕ → ℕ → List Tier → Type 0
RisesTo r lo top [] = ⊥
RisesTo r lo top (t ∷ []) = (lo ≤ top) × IsLevel r top t
RisesTo r lo top (t ∷ u ∷ ts) = (k : ℕ) × (lo ≤ k) × IsLevel r k t × RisesTo r (suc k) top (u ∷ ts)

RisesTo-Rises : (r : Router) (lo top : ℕ) (ts : List Tier) → RisesTo r lo top ts → Rises r lo ts
RisesTo-Rises r lo top [] h = tt
RisesTo-Rises r lo top (t ∷ []) (le, level) = (top, le, level, tt)
RisesTo-Rises r lo top (t ∷ u ∷ ts) (k, le, level, rest) =
    (k, le, level, RisesTo-Rises r (suc k) top (u ∷ ts) rest)

le_top : (r : Router) (lo top : ℕ) (ts : List Tier) → RisesTo r lo top ts → lo ≤ top
le_top r lo top [] h = absurd h
le_top r lo top (t ∷ []) h = h.0
le_top r lo top (t ∷ u ∷ ts) (k, le, level, rest) =
    omega (arith, le_top r (suc k) top (u ∷ ts) rest)

RisesTo-snoc :
    (r : Router) (lo top p : ℕ) (c : Candidate) (ts : List Tier)
    → RisesTo r lo top ts
    → top < p
    → priority_of r c.provider_name ≡ p
    → RisesTo r lo p (ts ++ record { candidates = c ∷ [] } ∷ [])
RisesTo-snoc r lo top p c [] h lt e = absurd h
RisesTo-snoc r lo top p c (t ∷ []) (le, level) lt e = (top, le, level, (lt, (e, tt)))
RisesTo-snoc r lo top p c (t ∷ u ∷ ts) (k, le, level, rest) lt e =
    (k, le, level, RisesTo-snoc r (suc k) top p c (u ∷ ts) rest lt e)

IsLevel-snoc :
    (r : Router) (k : ℕ) (c : Candidate) (cs : List Candidate)
    → All (λ d. priority_of r d.provider_name ≡ k) cs
    → priority_of r c.provider_name ≡ k
    → All (λ d. priority_of r d.provider_name ≡ k) (cs ++ c ∷ [])
IsLevel-snoc r k c [] a e = (e, tt)
IsLevel-snoc r k c (d ∷ cs) a e = (a.0, IsLevel-snoc r k c cs a.1 e)

RisesTo-append_to_last :
    (r : Router) (lo top : ℕ) (c : Candidate) (ts : List Tier)
    → RisesTo r lo top ts
    → priority_of r c.provider_name ≡ top
    → RisesTo r lo top (append_to_last c ts)
unfolding append_to_last
RisesTo-append_to_last r lo top c [] h e = h
RisesTo-append_to_last r lo top c (t ∷ []) (le, level) e =
    (le, IsLevel-snoc r top c t.candidates level e)
RisesTo-append_to_last r lo top c (t ∷ u ∷ []) (k, le, level, rest) e =
    (k, le, level, RisesTo-append_to_last r (suc k) top c (u ∷ []) rest e)
RisesTo-append_to_last r lo top c (t ∷ u ∷ v ∷ ts) (k, le, level, rest) e =
    (k, le, level, RisesTo-append_to_last r (suc k) top c (u ∷ v ∷ ts) rest e)

-- The tiers built so far, and `lastPriority`.
abbrev Built : Router → Option ℕ → List Tier → Type 0
Built r none ts = ts ≡ []
Built r (some top) ts = RisesTo r zero top ts

-- The names to come are not below the last tier.
abbrev Above : Router → Option ℕ → List Text → Type 0
Above r none names = Unit {0}
Above r (some top) names = All (λ name. top ≤ priority_of r name) names

place-Built :
    (r : Router) (c : Candidate) (last : Option ℕ) (ts : List Tier)
    → Built r last ts
    → Above r last (c.provider_name ∷ [])
    → Built r
        (some (priority_of r c.provider_name))
        (place c (priority_of r c.provider_name) last ts)
unfolding place
place-Built r c none ts b a = rw b (omega arith, (refl, tt))
place-Built r c (some top) ts b a =
    elim (Bool-cases (nat_beq (priority_of r c.provider_name) top)) [
      | inl same ↦
          let e : priority_of r c.provider_name ≡ top = (nat_beq_iff _ _).0 same in
          rw same (rw e (RisesTo-append_to_last r zero top c ts b e))
      | inr other ↦ rw other (RisesTo-snoc r zero top _ c ts b (ground (arith, a.0)) refl)
    ]

Above-tail :
    (r : Router) (last : Option ℕ) (name : Text) (names : List Text)
    → Above r last (name ∷ names)
    → Above r last names × Above r last (name ∷ [])
Above-tail r none name names a = (tt, tt)
Above-tail r (some top) name names a = (a.1, (a.0, tt))

group-Rises :
    (r : Router) (models : List (Text × Text)) (names : List Text) (last : Option ℕ)
    (ts : List Tier)
    → Built r last ts
    → Above r last names
    → Climbs r names
    → Rises r 0 (group r models names last ts)
unfolding group
group-Rises r models [] none ts b a c = rw b tt
group-Rises r models [] (some top) ts b a c = RisesTo-Rises r 0 top ts b
group-Rises r models (name ∷ names) last ts b a c = elim (Option-cases (lookup name models)) [
  | inl missing ↦
      rw (missing, group)
        (group-Rises r models names last ts b (Above-tail r last name names a).0 c.1)
  | inr (model, found) ↦
      rw (found, group)
        (group-Rises r models names (some (priority_of r name)) _
          (place-Built r (candidate r name model) last ts b (Above-tail r last name names a).1) c.0
          c.1)
]

-- When the default order never goes down in priority, the tiers of an alias without an explicit
-- chain have one priority each, and the priorities rise strictly from tier to tier: providers that
-- share a priority share a tier.
pub default_tiers-Rises :
    (r : Router) (models : List (Text × Text))
    → Climbs r r.provider_order
    → Rises r 0 (group r models r.provider_order none [])
default_tiers-Rises r models c = group-Rises r models r.provider_order none [] refl tt c
