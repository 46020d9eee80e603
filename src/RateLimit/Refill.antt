-- ===== src/RateLimit/Refill.antt =====
-- internal/ratelimit: the refill of one bucket, its expiry, the announced delay and the
-- reconciliation of an estimate with the actual usage.
use llm_inference_gateway.Base.{
  ℕ, ◌+◌, ◌-◌, ◌*◌, ◌/◌, ◌≤◌, ◌<◌, ◌≡◌, refl, false, Option, none, some, inl, inr, arith,
  Bool-cases, if◌then◌else◌, leb, ◌∙◌, ap, leb→le,
}
use native.Mathlib.Nat.{mod-add-div', mod-lt, add-mul, mul_assoc}
use llm_inference_gateway.Base.Int.{ℤ, pos, ◌+ℤ◌, ◌-ℤ◌, ◌≤ℤ◌, ltb_ℤ, min_ℤ, pos_part, int_laws}
use llm_inference_gateway.RateLimit.{
  token, Bucket, live, balance, store, retry_after_ms, adjust_bucket, bucket_ttl,
}

abbrev full : ℕ → ℤ
full cap = pos (cap * token)

-- A balance is never above the capacity.
balance_le : (now cap : ℕ) (b : Option Bucket) → balance now cap b ≤ℤ full cap
unfolding balance
balance_le now cap none = omega arith
balance_le now cap (some b) = ground arith

min_covers : (c a b : ℤ) → c ≤ℤ a → c ≤ℤ b → c ≤ℤ min_ℤ a b
min_covers c a b h k = ground arith

mul_le : (a b c : ℕ) → a ≤ b → a * c ≤ b * c
mul_le a b c h = grind arith

full-min : (a : ℤ) (cap : ℕ) → full cap ≤ℤ a → full cap ≡ min_ℤ (full cap) a
full-min a cap h = ground arith

-- Two minutes refill twice the capacity.
refilled :
    (tokens : ℤ) (cap elapsed : ℕ)
    → bucket_ttl ≤ elapsed
    → pos 0 ≤ℤ tokens +ℤ full cap
    → full cap ≤ℤ tokens +ℤ pos (elapsed * cap)
refilled tokens cap elapsed h debt =
    let more = mul_le bucket_ttl elapsed cap h in grind (int_laws, more)

-- Expiry is invisible for a bucket that is overdrawn by at most its capacity: a key that Redis has
-- deleted reads as full, and so would the bucket have, refilled over the two minutes of its TTL.
pub expired-full :
    (written now cap : ℕ) (tokens : ℤ)
    → pos 0 ≤ℤ tokens +ℤ full cap
    → balance now cap (live now (store written bucket_ttl tokens))
      ≡ balance now cap (store written bucket_ttl tokens)
unfolding live store balance
expired-full written now cap tokens debt = elim (Bool-cases (leb (written + bucket_ttl) now)) [
  | inl gone ↦
      rw (gone, live)
        (full-min (tokens +ℤ pos ((now - written) * cap)) cap
          (refilled tokens cap (now - written) (omega (arith, leb→le _ _ gone)) debt))
  | inr here ↦ rw (here, live) refl
]

ceil_le : (n k : ℕ) → 0 < k → n ≤ (n + k - 1) / k * k
ceil_le n k h = omega (arith, mod-add-div' (n + k - 1) k, mod-lt (n + k - 1) {m = k} h)

-- A delay, if there is one, is long enough to refill the deficit.
retry_after_ms-refills :
    (deficit : ℤ) (cap ms : ℕ)
    → retry_after_ms deficit cap ≡ some ms
    → pos_part deficit ≤ ms * 1000 * cap
unfolding retry_after_ms
retry_after_ms-refills deficit cap ms e =
    let up = ceil_le (pos_part deficit) (cap * 1000) in grind (arith, up, mul_assoc)

shift : (now last more : ℕ) → last ≤ now → now + more - last ≡ now - last + more
shift now last more h = omega arith

longer :
    (now last more cap : ℕ)
    → last ≤ now
    → (now + more - last) * cap ≡ (now - last) * cap + more * cap
longer now last more cap h =
    ap (λ n. n * cap) (shift now last more h) ∙ add-mul (now - last) more cap

-- The deficit is refilled also where the capacity cut the balance.
covers :
    (cost tokens : ℤ) (past ahead cap : ℕ)
    → cost ≤ℤ full cap
    → pos_part (cost -ℤ min_ℤ (full cap) (tokens +ℤ pos past)) ≤ ahead
    → cost ≤ℤ tokens +ℤ pos (past + ahead)
unfolding ◌+ℤ◌ ◌-ℤ◌
covers cost tokens past ahead cap fits h = ground arith

-- The announced delay suffices: if a bucket that has been written before now and does not expire is
-- short of a cost that its capacity covers, and the script announces `ms`, then `ms` milliseconds
-- later the bucket covers the cost, unless somebody else has charged it.
pub retry_after-covers :
    (now cap ms : ℕ) (cost : ℤ) (b : Bucket)
    → b.last_refill ≤ now
    → cost ≤ℤ full cap
    → retry_after_ms (cost -ℤ balance now cap (some b)) cap ≡ some ms
    → cost ≤ℤ balance (now + ms * 1000) cap (some b)
unfolding balance
retry_after-covers now cap ms cost b h fits e =
    let ahead = ms * 1000 * cap in
    let past = (now - b.last_refill) * cap in
    let refill = retry_after_ms-refills (cost -ℤ balance now cap (some b)) cap ms e in
    min_covers cost (full cap) (b.tokens +ℤ pos ((now + ms * 1000 - b.last_refill) * cap)) fits (
      rw (longer now b.last_refill (ms * 1000) cap h)
        (covers cost b.tokens past ahead cap fits refill))

-- Clamping does nothing to a balance that was within the capacity before.
settle :
    (cap cost used : ℕ) (bal : ℤ)
    → bal ≤ℤ full cap
    → (let kept = min_ℤ (full cap) (bal -ℤ pos cost +ℤ pos 0) +ℤ (pos cost -ℤ pos used) in
        if ltb_ℤ (full cap) kept then full cap else kept)
      ≡ bal -ℤ pos used
unfolding ◌+ℤ◌ ◌-ℤ◌
settle cap cost used bal h = ground arith

later : (now ttl : ℕ) → 0 < ttl → leb (now + ttl) now ≡ false
later now ttl h = ground arith

no_elapsed : (now : ℕ) → now - now ≡ 0
no_elapsed now = omega arith

no_time : (now cap : ℕ) → (now - now) * cap ≡ 0
no_time now cap = grind (arith, no_elapsed now)

-- Reconciliation: an estimate that was reserved from a bucket and is adjusted, at the same moment,
-- by the estimate less the actual usage leaves the bucket as a reservation of the actual usage. The TTL
-- is positive.
pub adjust-reconciles :
    (now ttl cap used cost : ℕ) (b : Option Bucket)
    → 0 < ttl
    → adjust_bucket now ttl cap
        (pos cost -ℤ pos used)
        (store now ttl (balance now cap b -ℤ pos cost))
      ≡ store now ttl (balance now cap b -ℤ pos used)
unfolding adjust_bucket store live
adjust-reconciles now ttl cap used cost b h =
    rw (later now ttl h, live, no_time now cap)
      (ap (store now ttl) (settle cap cost used (balance now cap b) (balance_le now cap b)))
