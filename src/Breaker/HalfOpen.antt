-- ===== src/Breaker/HalfOpen.antt =====
-- internal/breaker/breaker.go: `Ready` and `Allow` in OPEN and HALF_OPEN.
use llm_inference_gateway.Base.{
  ℕ, suc, ◌+◌, ◌≤◌, ◌<◌, ◌≡◌, refl, ◌⊎◌, inl, inr, true, false, List, [], ◌∷◌, arith, length, map,
  if◌then◌else◌, ap, ◌∙◌,
}
use Prim.Native.Nat.{min}
use llm_inference_gateway.Breaker.{half_open, open_state, Breaker, allow, ready, cooled_down}
use llm_inference_gateway.Breaker.Invariant.{allows, step, run}

-- `Ready` predicts `Allow` at the same instant, and changes nothing itself: with a positive probe
-- quota the two answers agree in every state.
pub ready-allow :
    (now : ℕ) (b : Breaker) → 0 < b.cfg.half_open_probes → ready now b ≡ (allow now b).1
unfolding ready allow
ready-allow now b pos = ground arith

-- How many of the calls of `Allow` at these instants return true.
pub granted : List ℕ → Breaker → ℕ
granted [] b = 0
granted (t ∷ ts) b = let rest = granted ts (allow t b).0 in if (allow t b).1 then suc rest else rest

pub allow-half_open :
    (t : ℕ) (b : Breaker)
    → b.state ≡ half_open
    → ((b.half_open_allowed ≡ 0) × ((allow t b).1 ≡ false) × ((allow t b).0 ≡ b))
      ⊎ ((0 < b.half_open_allowed)
          × ((allow t b).1 ≡ true)
          × ((allow t b).0.state ≡ half_open)
          × (suc (allow t b).0.half_open_allowed ≡ b.half_open_allowed))
unfolding allow
allow-half_open t b e = ground arith

-- While no outcome is reported, a half-open breaker admits exactly the calls that its remaining
-- slots allow, at whatever instants they come.
pub granted-half_open :
    (ts : List ℕ) (b : Breaker)
    → b.state ≡ half_open
    → granted ts b ≡ min (length ts) b.half_open_allowed
unfolding granted
granted-half_open [] b e = omega arith
granted-half_open (t ∷ ts) b e = elim (allow-half_open t b e) [
  | inl (none_left, denied, same) ↦ rw (denied, same) (omega (arith, granted-half_open ts b e))
  | inr (left, admitted, still, fewer) ↦
      rw admitted (omega (arith, granted-half_open ts (allow t b).0 still))
]

allow-open :
    (t : ℕ) (b : Breaker)
    → b.state ≡ open_state
    → ((cooled_down t b ≡ false) × ((allow t b).1 ≡ false) × ((allow t b).0 ≡ b))
      ⊎ ((cooled_down t b ≡ true)
          × ((allow t b).0.state ≡ half_open)
          × ((allow t b).0.half_open_wins ≡ 0)
          × ((allow t b).0.cfg ≡ b.cfg)
          × ((if (allow t b).1 then 1 else 0) + (allow t b).0.half_open_allowed
              ≡ b.cfg.half_open_probes))
unfolding allow
allow-open t b e = ground arith

-- From OPEN, no sequence of `Allow` calls without a reported outcome is admitted more often than
-- the probe quota.
pub granted-open :
    (ts : List ℕ) (b : Breaker) → b.state ≡ open_state → granted ts b ≤ b.cfg.half_open_probes
unfolding granted
granted-open [] b e = omega arith
granted-open (t ∷ ts) b e = elim (allow-open t b e) [
  | inl (hot, denied, same) ↦ rw (denied, same) (granted-open ts b e)
  | inr (cool, half, wins, cfg, slots) ↦ ground (arith, granted-half_open ts (allow t b).0 half)
]

-- A lost probe: once the quota of a half-open breaker is spent and its outcomes are not reported,
-- `Allow` refuses at every later instant and the breaker never changes again, however long it waits.
pub exhausted_stays :
    (ts : List ℕ) (b : Breaker)
    → b.state ≡ half_open
    → b.half_open_allowed ≡ 0
    → (run (map allows ts) b ≡ b) × (granted ts b ≡ 0)
unfolding run step granted
exhausted_stays [] b e z = (refl, refl)
exhausted_stays (t ∷ ts) b e z = elim (allow-half_open t b e) [
  | inl (none_left, denied, same) ↦
      let (stays, refused) = exhausted_stays ts b e z in
      (ap (run (map allows ts)) same ∙ stays, rw (denied, same) refused)
  | inr (left, _, _, _) ↦ absurd (omega arith)
]
