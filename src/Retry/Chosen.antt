-- ===== src/Retry/Chosen.antt =====
-- internal/retry/engine.go: the candidates that `pickFromTier` may return.
use mathlib.Core.List.{Memᴰ}
use llm_inference_gateway.Base.{
  ℕ, suc, ◌≤◌, ◌<◌, ◌≡◌, refl, false, not, ◌||◌, List, [], ◌∷◌, Option, none, some, arith, length,
  All, All-Mem, Text, Bool-cases, inl, inr, ◌∙◌, if◌then◌else◌, leb, ltb, text_beq_iff, ap, ◌-◌,
}
use llm_inference_gateway.Router.{Candidate, Tier}
use llm_inference_gateway.Retry.{Engine, Oracle, World}
use llm_inference_gateway.Retry.Pick.{
  contains, tick, is_ready, filter_ready, total_weight, select, draw, pick_from_tier,
}

-- How many candidates have an untried provider.
pub untried : List Text → List Candidate → ℕ
untried tried [] = 0
untried tried (c ∷ cs) =
    let rest = untried tried cs in if contains c.provider_name tried then rest else suc rest

pub untried-le : (tried : List Text) (cs : List Candidate) → untried tried cs ≤ length cs
unfolding untried
untried-le tried [] = omega arith
untried-le tried (c ∷ cs) = ground (arith, untried-le tried cs)

untried_mono :
    (t : Text) (tried : List Text) (cs : List Candidate) → untried (t ∷ tried) cs ≤ untried tried cs
unfolding untried contains
untried_mono t tried [] = omega arith
untried_mono t tried (c ∷ cs) = ground (arith, untried_mono t tried cs)

-- Trying a new provider of the tier leaves fewer.
pub untried-lt :
    (tried : List Text) (cs : List Candidate) (c : Candidate)
    → Memᴰ c cs
    → contains c.provider_name tried ≡ false
    → untried (c.provider_name ∷ tried) cs < untried tried cs
unfolding untried contains
untried-lt tried [] c m h = elim m [ ]
untried-lt tried (x ∷ cs) c (Memᴰ.head p) h = ground (
  arith,
  ap (λ (d : Candidate). d.provider_name) p,
  text_beq_iff x.provider_name c.provider_name,
  untried_mono c.provider_name tried cs,
)
untried-lt tried (x ∷ cs) c (Memᴰ.tail m) h = ground (arith, untried-lt tried cs c m h)

abbrev pub Fresh : List Text → List Candidate → Candidate → Type 0
Fresh tried cs c = Memᴰ c cs × (contains c.provider_name tried ≡ false)

module _ {R : Type 0} (o : Oracle R) (e : Engine) (tried : List Text) where
  attempts-filter_ready :
      (cs : List Candidate) (w : World) → (filter_ready o e tried cs w).0.attempts ≡ w.attempts
  unfolding filter_ready is_ready tick
  attempts-filter_ready [] w = refl
  attempts-filter_ready (c ∷ cs) w =
      ground (arith, attempts-filter_ready cs w, attempts-filter_ready cs (is_ready o c w).0)

  filter_ready-All :
      (P : Candidate → Type 0) (cs : List Candidate) (w : World)
      → All P cs
      → All (λ c. P c × (contains c.provider_name tried ≡ false)) (filter_ready o e tried cs w).1
  unfolding filter_ready
  filter_ready-All P [] w a = tt
  filter_ready-All P (c ∷ cs) w a =
      elim (Bool-cases (contains c.provider_name tried || not (e.is_configured c.provider_name))) [
        | inl skipped ↦ rw (skipped, filter_ready) (filter_ready-All P cs w a.1)
        | inr kept ↦
            let rest = filter_ready-All P cs (is_ready o c w).0 a.1 in
            elim (Bool-cases (is_ready o c w).1) [
              | inl ok ↦ rw (kept, filter_ready) (rw ok ((a.0, ground arith), rest))
              | inr not_ready ↦ rw (kept, filter_ready) (rw not_ready rest)
            ]
      ]

select-All :
    (Q : Candidate → Type 0) (pick : ℕ) (c : Candidate) (cs : List Candidate)
    → Q c
    → All Q cs
    → Q (select pick c cs)
unfolding select
select-All Q pick c [] q a = q
select-All Q pick c (d ∷ ds) q a = elim (Bool-cases (ltb pick c.weight)) [
  | inl here ↦ rw here q
  | inr on ↦ rw on (select-All Q (pick - c.weight) d ds a.0 a.1)
]

-- The draw leaves the attempts alone, and returns one of the eligible candidates if any.
pub data Drawn (w : World) (Q : Candidate → Type 0) (end : World × Option Candidate) : Type 0 where
  nobody : end.0.attempts ≡ w.attempts → end.1 ≡ none → Drawn w Q end
  somebody : (c : Candidate) → end.0.attempts ≡ w.attempts → end.1 ≡ some c → Q c → Drawn w Q end

draw-Drawn :
    {R : Type 0} (o : Oracle R) (Q : Candidate → Type 0) (cs : List Candidate) (w : World)
    → All Q cs
    → Drawn w Q (draw o cs w)
unfolding draw tick
draw-Drawn o Q [] w a = nobody refl refl
draw-Drawn o Q (c ∷ cs) w a = elim (Bool-cases (leb (total_weight (c ∷ cs)) 0)) [
  | inl empty ↦ rw empty (nobody refl refl)
  | inr weighty ↦ rw weighty (
      somebody (select (o.rand w.queries (total_weight (c ∷ cs))) c cs) refl refl
        (select-All Q (o.rand w.queries (total_weight (c ∷ cs))) c cs a.0 a.1))
]

pub pick_from_tier-Drawn :
    {R : Type 0} (o : Oracle R) (e : Engine) (tier : Tier) (tried : List Text) (w : World)
    → Drawn w (Fresh tried tier.candidates) (pick_from_tier o e tier tried w)
unfolding pick_from_tier
pick_from_tier-Drawn o e tier tried w =
    let kept = filter_ready o e tried tier.candidates w in
    elim (draw-Drawn o (Fresh tried tier.candidates) kept.1 kept.0 (
      filter_ready-All o e tried (λ c. Memᴰ c tier.candidates) tier.candidates w
        (All-Mem tier.candidates))) [
          | nobody same r ↦ nobody (same ∙ attempts-filter_ready o e tried tier.candidates w) r
          | somebody c same r q ↦
              somebody c (same ∙ attempts-filter_ready o e tried tier.candidates w) r q
        ]
