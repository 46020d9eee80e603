-- ===== src/Retry/Backoff.antt =====
-- internal/retry/backoff.go: full-jitter backoff, sleeping within the deadline, attempt timeouts.
-- Durations are int64 patterns; `rand n` is `rand.Int63n(n)`.
use Prim.Native.Nat.{min}
use native.Mathlib.Nat.{pow-suc}
use llm_inference_gateway.Base.{
  ℕ, zero, suc, ◌*◌, ◌%◌, ◌^◌, ◌≤◌, ◌<◌, ◌≡◌, Bool, true, false, not, ◌||◌, Option, none, some,
  arith, ltb, ap, ◌⊎◌, if◌then◌else◌,
}
use llm_inference_gateway.Base.Int.{ℤ, pos, negsuc}
use llm_inference_gateway.Base.Word.{le64, mul64, int64_sign, int64_mod}
use llm_inference_gateway.Retry.{Err, api, provider}

-- The two guards on the attempt number.
abbrev pub exponent : ℤ → ℕ
exponent (negsuc _) = 0
exponent (pos n) = if ltb 62 n then 62 else n

-- Capping the product, and the early return for a ceiling that is not positive.
unfoldable pub jitter_below : ℕ → ℕ → Option ℕ
jitter_below product max_backoff =
    let backoff =
      if le64 product 0 || not (le64 product max_backoff) then max_backoff else product in
    if le64 backoff 0 then none else some backoff

unfoldable pub full_jitter_backoff : (ℕ → ℕ) → ℤ → ℕ → ℕ → ℕ
full_jitter_backoff rand attempt base max_backoff =
    elim (jitter_below (mul64 base (2 ^ exponent attempt)) max_backoff) [
      | none ↦ 0
      | some backoff ↦ rand backoff
    ]

-- `errors.As` finds an `APIError` in an error that is one.
unfoldable pub backoff_for : (ℕ → ℕ) → ℤ → ℕ → ℕ → Option Err → ℕ
backoff_for rand attempt base max_backoff (some (provider (api e))) =
    if not (le64 e.retry_after 0)
    then e.retry_after
    else full_jitter_backoff rand attempt base max_backoff
backoff_for rand attempt base max_backoff _ = full_jitter_backoff rand attempt base max_backoff

-- `remaining` is `time.Until(deadline)`, if the context has a deadline.
unfoldable pub sleep_within_deadline : Option ℕ → Bool → ℕ → Bool
sleep_within_deadline remaining timer_first d = if le64 d 0 then true else (elim remaining [
  | none ↦ timer_first
  | some left ↦ if not (le64 d left) then false else timer_first
])

unfoldable pub attempt_timeout : Option ℕ → ℕ → ℕ
attempt_timeout remaining configured =
    let timeout : ℕ = elim remaining [
      | none ↦ configured
      | some left ↦ if not (le64 configured left) then left else configured
    ] in
    if not (le64 0 timeout) then 0 else timeout

-- The interval that the delay is drawn from, where the ceiling is positive.
interval : ℕ → ℕ → ℕ
interval n max_backoff =
    let p = n % int64_mod in if le64 p 0 || not (le64 p max_backoff) then max_backoff else p

jitter_below-interval :
    (n max_backoff : ℕ)
    → 0 < max_backoff
    → max_backoff < int64_sign
    → jitter_below (n % int64_mod) max_backoff ≡ some (interval n max_backoff)
unfolding jitter_below interval
jitter_below-interval n max_backoff ceiling small = ground arith

interval-bounds :
    (n max_backoff : ℕ)
    → 0 < n
    → 0 < max_backoff
    → max_backoff < int64_sign
    → 0 < interval n max_backoff × interval n max_backoff ≤ min n max_backoff
unfolding interval
interval-bounds n max_backoff nonzero ceiling small = ground arith

interval-exact :
    (n max_backoff : ℕ)
    → 0 < n
    → n < int64_sign
    → 0 < max_backoff
    → max_backoff < int64_sign
    → interval n max_backoff ≡ min n max_backoff
unfolding interval
interval-exact n max_backoff nonzero small_n ceiling small = ground arith

product-pos : (base k : ℕ) → 0 < base → 0 < base * 2 ^ k
product-pos base zero h = omega arith
product-pos base (suc k) h =
    omega (arith, ap (λ (t : ℕ). base * t) (pow-suc 2 k), product-pos base k h)

-- For a positive base and ceiling the delay lies in [0, min(base * 2 ^ attempt, ceiling)), for every
-- attempt number, negative or past the guard at 62 too, and also where the product overflows int64.
pub full_jitter_backoff-lt :
    (rand : ℕ → ℕ) (attempt : ℤ) (base max_backoff : ℕ)
    → ((n : ℕ) → 0 < n → rand n < n)
    → 0 < base
    → 0 < max_backoff
    → max_backoff < int64_sign
    → full_jitter_backoff rand attempt base max_backoff
      < min (base * 2 ^ exponent attempt) max_backoff
unfolding full_jitter_backoff
full_jitter_backoff-lt rand attempt base max_backoff random nonzero ceiling small =
    let n = base * 2 ^ exponent attempt in
    let (positive, bounded) =
      interval-bounds n max_backoff (product-pos base (exponent attempt) nonzero) ceiling small in
    rw (jitter_below-interval n max_backoff ceiling small, full_jitter_backoff)
      (omega (arith, random (interval n max_backoff) positive, bounded))

-- Where the product does not overflow, the delay is drawn from exactly that interval.
pub full_jitter_backoff-exact :
    (rand : ℕ → ℕ) (attempt : ℤ) (base max_backoff : ℕ)
    → 0 < base * 2 ^ exponent attempt
    → base * 2 ^ exponent attempt < int64_sign
    → 0 < max_backoff
    → max_backoff < int64_sign
    → full_jitter_backoff rand attempt base max_backoff
      ≡ rand (min (base * 2 ^ exponent attempt) max_backoff)
unfolding full_jitter_backoff
full_jitter_backoff-exact rand attempt base max_backoff nonzero small_n ceiling small =
    let n = base * 2 ^ exponent attempt in
    rw (jitter_below-interval n max_backoff ceiling small, full_jitter_backoff)
      (ap rand (interval-exact n max_backoff nonzero small_n ceiling small))

-- No attempt outlives the request: with `left` of its deadline and a configured timeout, both below
-- 2 ^ 63, an attempt's timeout is the smaller of the two; past the deadline it is 0.
pub attempt_timeout-min :
    (left configured : ℕ)
    → configured < int64_sign
    → left < int64_mod
    → attempt_timeout (some left) configured
      ≡ (if ltb left int64_sign then min left configured else 0)
unfolding attempt_timeout
attempt_timeout-min left configured small range = ground arith

-- A backoff that does not fit into what is left of the deadline is refused at once, and an allowed
-- positive one is at most what is left.
pub sleep-fits :
    (left d : ℕ) (timer_first : Bool)
    → left < int64_mod
    → d < int64_sign
    → sleep_within_deadline (some left) timer_first d ≡ true
    → (d ≡ 0) ⊎ ((left < int64_sign) × (d ≤ left) × (timer_first ≡ true))
unfolding sleep_within_deadline
sleep-fits left d timer_first range small h = ground arith
