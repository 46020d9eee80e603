-- ===== src/Breaker/Recovery.antt =====
-- internal/breaker/breaker.go: the ways out of HALF_OPEN, and the cooldown.
use Prim.Native.Nat.{min}
use native.Mathlib.Nat.{pow-suc}
use llm_inference_gateway.Base.{
  ℕ, zero, suc, ◌+◌, ◌-◌, ◌*◌, ◌^◌, ◌≤◌, ◌<◌, ◌≡◌, refl, ◌⊎◌, inl, inr, true, false, Option, none,
  some, arith, map, ◌∙◌, ap, subst,
}
use llm_inference_gateway.Breaker.{
  closed, half_open, open_state, empty_bucket, Breaker, Readings, allow, cooled_down, set_state,
  record_success, record_failure, reset_window,
}
use llm_inference_gateway.Breaker.Invariant.{IsValid, allow-IsValid, record_failure-IsValid}

-- `n` probes that succeed: each asks `Allow` at `now` and is reported at the Unix second `sec`; `none`
-- as soon as `Allow` refuses one.
pub probe_successes : ℕ → ℕ → ℕ → Breaker → Option Breaker
probe_successes zero now sec b = some b
probe_successes (suc n) now sec b = elim (allow now b).1 [
  | false ↦ none
  | true ↦ probe_successes n now sec (record_success sec (allow now b).0)
]

-- All `n` probes are admitted, and leave the breaker closed and reset.
pub Recovers : ℕ → ℕ → ℕ → Breaker → Type 0
Recovers n now sec b =
    (b' : Breaker) × (probe_successes n now sec b ≡ some b')
    × (b'.state ≡ closed)
    × (b'.cur_cooldown ≡ b.cfg.cooldown)
    × (b'.buckets ≡ map (λ _. empty_bucket) b.buckets)

admitted :
    (now : ℕ) (b : Breaker) → b.state ≡ half_open → 0 < b.half_open_allowed → (allow now b).1 ≡ true
unfolding allow
admitted now b e pos = ground arith

probe_success :
    (now sec : ℕ) (b : Breaker)
    → b.state ≡ half_open
    → 0 < b.half_open_allowed
    → let b' = record_success sec (allow now b).0 in
      ((suc b.half_open_wins < b.cfg.half_open_probes)
        × (b'.state ≡ half_open)
        × (b'.cfg ≡ b.cfg)
        × (b'.half_open_wins ≡ suc b.half_open_wins)
        × (suc b'.half_open_allowed ≡ b.half_open_allowed)
        × (b'.buckets ≡ b.buckets))
      ⊎ ((b.cfg.half_open_probes ≤ suc b.half_open_wins)
          × (b'.state ≡ closed)
          × (b'.cur_cooldown ≡ b.cfg.cooldown)
          × (b'.buckets ≡ map (λ _. empty_bucket) b.buckets))
unfolding record_success allow reset_window
probe_success now sec b e pos = ground arith

-- From HALF_OPEN, as many successes as are still missing close the breaker.
probe_successes-half_open :
    (n now sec : ℕ) (b : Breaker)
    → b.state ≡ half_open
    → b.half_open_wins + suc n ≡ b.cfg.half_open_probes
    → suc n ≤ b.half_open_allowed
    → Recovers (suc n) now sec b
unfolding probe_successes Recovers
probe_successes-half_open zero now sec b e wins slots =
    rw (admitted now b e (omega arith), probe_successes)
      (elim (probe_success now sec b e (omega arith)) [
        | inl (more, _, _, _, _, _) ↦ absurd (omega arith)
        | inr (_, shut, cooldown, reset) ↦
            (record_success sec (allow now b).0, refl, shut, cooldown, reset)
      ])
probe_successes-half_open (suc n) now sec b e wins slots =
    let b1 = record_success sec (allow now b).0 in
    rw (admitted now b e (omega arith), probe_successes)
      (elim (probe_success now sec b e (omega arith)) [
        | inr (enough, _, _, _) ↦ absurd (omega arith)
        | inl (more, still, cfg, won, left, same) ↦
            let (b', run, shut, cooldown, reset) =
              probe_successes-half_open n now sec b1 still
                (omega (arith, ap (λ c. c.half_open_probes) cfg)) (omega arith) in
            (
              b',
              run,
              shut,
              cooldown ∙ ap (λ c. c.cooldown) cfg,
              reset ∙ ap (map (λ _. empty_bucket)) same,
            )
      ])

-- What the first `if` of `Allow` makes of a cooled-down breaker.
abbrev half_opened : Breaker → Breaker
half_opened b = record (set_state half_open b) {
  half_open_allowed = b.cfg.half_open_probes;
  half_open_wins = 0;
}

allow-half_opened :
    (now : ℕ) (b : Breaker)
    → b.state ≡ open_state
    → cooled_down now b ≡ true
    → allow now b ≡ allow now (half_opened b)
unfolding allow
allow-half_opened now b e cool = ground arith

probe_successes-half_opened :
    (n now sec : ℕ) (b : Breaker)
    → b.state ≡ open_state
    → cooled_down now b ≡ true
    → probe_successes (suc n) now sec b ≡ probe_successes (suc n) now sec (half_opened b)
unfolding probe_successes
probe_successes-half_opened n now sec b e cool =
    ap (λ p. elim p.1 [ false ↦ none | true ↦ probe_successes n now sec (record_success sec p.0) ])
      (allow-half_opened now b e cool)

probe_successes-open :
    (n now sec : ℕ) (b : Breaker)
    → b.state ≡ open_state
    → cooled_down now b ≡ true
    → suc n ≡ b.cfg.half_open_probes
    → Recovers (suc n) now sec b
unfolding Recovers
probe_successes-open n now sec b e cool quota =
    rw (probe_successes-half_opened n now sec b e cool)
      (probe_successes-half_open n now sec (half_opened b) refl (omega arith) (omega arith))

-- Of an open breaker whose cooldown has elapsed, `Allow` admits `half_open_probes` probes in a row that
-- succeed; the last one closes it, and its cooldown is then the configured one and its window is empty.
pub probe_successes-close :
    (now sec : ℕ) (b : Breaker)
    → b.state ≡ open_state
    → cooled_down now b ≡ true
    → 0 < b.cfg.half_open_probes
    → Recovers b.cfg.half_open_probes now sec b
probe_successes-close now sec b e cool pos =
    let quota : suc (b.cfg.half_open_probes - 1) ≡ b.cfg.half_open_probes = omega arith in
    subst (λ n. Recovers n now sec b) quota
      (probe_successes-open (b.cfg.half_open_probes - 1) now sec b e cool quota)

-- `k` probes in a row that fail, each let through once the cooldown of its time has elapsed.
pub data Reopened (b : Breaker) : ℕ → Breaker → Type 0 where
  here : Reopened b zero b
  again :
      {k : ℕ} {c : Breaker} (now : ℕ) (r : Readings)
      → Reopened b k c
      → cooled_down now c ≡ true
      → Reopened b (suc k) (record_failure r (allow now c).0)

reopen :
    (now : ℕ) (r : Readings) (c : Breaker)
    → IsValid c
    → c.state ≡ open_state
    → cooled_down now c ≡ true
    → let c' = record_failure r (allow now c).0 in
      (c'.state ≡ open_state)
      × (c'.cfg ≡ c.cfg)
      × (c'.opened_at ≡ r.instant)
      × (c'.cur_cooldown ≡ min (c.cur_cooldown * 2) c.cfg.cooldown_max)
unfolding allow record_failure
reopen now r c v e cool = ground arith

doubled :
    (first ceiling k : ℕ) {cur next : ℕ}
    → cur ≡ min (first * 2 ^ k) ceiling
    → next ≡ min (cur * 2) ceiling
    → next ≡ min (first * 2 ^ suc k) ceiling
doubled first ceiling k e e' = omega (arith, ap (λ (t : ℕ). first * t) (pow-suc 2 k))

-- After `k` failed probes in a row an open breaker is open again, and its cooldown is the first one
-- doubled `k` times, up to the ceiling; it never wraps around.
pub Reopened-cooldown :
    {b : Breaker} {k : ℕ} {c : Breaker}
    → Reopened b k c
    → IsValid b
    → b.state ≡ open_state
    → IsValid c
      × (c.state ≡ open_state)
      × (c.cfg ≡ b.cfg)
      × (c.cur_cooldown ≡ min (b.cur_cooldown * 2 ^ k) b.cfg.cooldown_max)
Reopened-cooldown here v e = (v, e, refl, omega arith)
Reopened-cooldown {b} (again {k} {c} now r re cool) v e =
    let (vc, ec, cfg, cd) = Reopened-cooldown re v e in
    let (e', cfg', _, cd') = reopen now r c vc ec cool in
    (
      record_failure-IsValid r (allow now c).0 (allow-IsValid now c vc),
      e',
      cfg' ∙ cfg,
      doubled b.cur_cooldown b.cfg.cooldown_max k cd
          (cd' ∙ ap (λ f. min (c.cur_cooldown * 2) f.cooldown_max) cfg),
    )
