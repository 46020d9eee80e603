-- ===== src/Breaker/Prober.antt =====
-- internal/breaker/prober.go: what one round of the background prober does to one breaker.
use llm_inference_gateway.Base.{
  ℕ, ◌<◌, ◌≡◌, refl, ◌≢◌, ◌⊎◌, ◌+◌, Bool, true, false, not, List, [], ◌∷◌, Option, none, some,
  arith, Text, if◌then◌else◌,
}
use llm_inference_gateway.Breaker.{
  State, half_open, open_state, Breaker, Readings, ready, allow, cooled_down, record_success,
  record_failure,
}

-- A provider as the prober sees it: without a health endpoint, or with the answer of one check.
pub data Health : Type 0 where
  no_checker : Health
  healthy : Bool → Health

-- What one iteration meets outside the breaker: the clock, the providers, and what other
-- goroutines do to the breaker at each point where the prober does not hold its lock.
pub record Round : Type 0 where
  pub now_ready : ℕ
  pub now_allow : ℕ
  pub success_second : ℕ
  pub failure_readings : Readings
  pub providers : Text → Option Health
  pub before_ready : Breaker → Breaker
  pub before_allow : Breaker → Breaker
  pub during_check : Breaker → Breaker

abbrev is_open : State → Bool
is_open open_state = true
is_open _ = false

-- From `Allow` on.
check : Round → Bool → Breaker → Breaker
check d ok b =
    let (b', admitted) = allow d.now_allow (d.before_allow b) in
    if not admitted
    then b'
    else (if ok
        then record_success d.success_second (d.during_check b')
        else record_failure d.failure_readings (d.during_check b'))

-- The body of the loop of `probeOnce`.
unfoldable pub probe : Round → Breaker → Breaker
unfolding check
probe d b =
    if not (is_open b.state)
    then b
    else (let b' = d.before_ready b in
        if not (ready d.now_ready b') then b' else (elim (d.providers b'.provider_name) [
          | none ↦ b'
          | some no_checker ↦ b'
          | some (healthy ok) ↦ check d ok b'
        ]))

-- Nobody else touches the breaker during the round.
abbrev pub IsAlone : Round → Type 0
IsAlone d = (c : Breaker) → (d.before_ready c ≡ c) × (d.before_allow c ≡ c) × (d.during_check c ≡ c)

-- A round leaves alone a breaker that is not open, whatever the provider would answer.
probe-skips : (d : Round) (b : Breaker) → b.state ≢ open_state → probe d b ≡ b
unfolding probe
probe-skips d b h = ground arith

-- Several rounds, one after another.
pub probe_all : List Round → Breaker → Breaker
probe_all [] b = b
probe_all (d ∷ ds) b = probe_all ds (probe d b)

skip_all : (ds : List Round) (b : Breaker) → b.state ≢ open_state → probe_all ds b ≡ b
unfolding probe_all
skip_all [] b h = refl
skip_all (d ∷ ds) b h = rw (probe-skips d b h) (skip_all ds b h)

-- While the cooldown lasts, or when the provider is not configured or has no health endpoint,
-- a round that nobody disturbs leaves the breaker as it was.
pub probe-idle :
    (d : Round) (b : Breaker)
    → IsAlone d
    → (cooled_down d.now_ready b ≡ false)
      ⊎ ((d.providers b.provider_name ≡ none) ⊎ (d.providers b.provider_name ≡ some no_checker))
    → probe d b ≡ b
unfolding probe ready
probe-idle d b alone h = ground (arith, alone b)

-- A round on an open breaker whose cooldown has elapsed, with the answer `ok`.
probe-open :
    (d : Round) (b : Breaker) (ok : Bool)
    → IsAlone d
    → b.state ≡ open_state
    → cooled_down d.now_ready b ≡ true
    → cooled_down d.now_allow b ≡ true
    → 0 < b.cfg.half_open_probes
    → d.providers b.provider_name ≡ some (healthy ok)
    → probe d b ≡ (
        if ok
        then record_success d.success_second (allow d.now_allow b).0
        else record_failure d.failure_readings (allow d.now_allow b).0)
unfolding probe ready allow
probe-open d b ok alone o c1 c2 pos h = ground (arith, alone b, alone (allow d.now_allow b).0)

first_win :
    (sec now : ℕ) (b : Breaker)
    → b.state ≡ open_state
    → cooled_down now b ≡ true
    → 1 < b.cfg.half_open_probes
    → let b' = record_success sec (allow now b).0 in
      (b'.state ≡ half_open)
      × (b'.half_open_wins ≡ 1)
      × (b'.half_open_allowed + 1 ≡ b.cfg.half_open_probes)
unfolding record_success allow
first_win sec now b o c pos = ground arith

-- With a quota of two probes or more the prober alone never closes a breaker: the first healthy
-- round moves it from OPEN to HALF_OPEN with one win, and every later round passes it over. The
-- breaker then waits for real traffic, however long the provider has been healthy.
pub prober_stalls :
    (d : Round) (ds : List Round) (b : Breaker)
    → IsAlone d
    → b.state ≡ open_state
    → cooled_down d.now_ready b ≡ true
    → cooled_down d.now_allow b ≡ true
    → 1 < b.cfg.half_open_probes
    → d.providers b.provider_name ≡ some (healthy true)
    → let b' = probe_all ds (probe d b) in
      (b'.state ≡ half_open)
      × (b'.half_open_wins ≡ 1)
      × (b'.half_open_allowed + 1 ≡ b.cfg.half_open_probes)
unfolding probe_all
prober_stalls d ds b alone o c1 c2 pos h =
    let first = first_win d.success_second d.now_allow b o c2 pos in
    let moved = probe-open d b true alone o c1 c2 (omega arith) h in
    rw (skip_all ds (probe d b) (rw moved (ground (arith, first))), moved) first
