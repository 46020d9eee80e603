-- ===== src/Breaker/Window.antt =====
-- internal/breaker/breaker.go: the ring of per-second buckets and the log of outcomes.
use llm_inference_gateway.Base.{
  ℕ, zero, suc, ◌+◌, ◌-◌, ◌%◌, ◌/◌, dec_lt, ◌≤◌, ◌<◌, ◌≡◌, refl, Bool, ◌&&◌, List, [], ◌∷◌, arith,
  length, length-replicate, get_or-set, get_or-replicate, ◌∙◌, ◌*◌, set, get_or, replicate, leb,
  ltb, if◌then◌else◌, ◌⊎◌, inl, inr,
}
use native.Mathlib.Nat.{div-add-mod}
use llm_inference_gateway.Breaker.Invariant.{length-record_outcome}
use llm_inference_gateway.Breaker.{
  Bucket, empty_bucket, bump, claim, is_fresh, record_outcome, tally,
}

-- One call of `record`: the second that it read, and whether it was a success.
pub record Outcome : Type 0 where
  pub at : ℕ
  pub success : Bool

-- The buckets after the calls of `record` in `log`, newest first.
unfoldable pub window_of : ℕ → List Outcome → List Bucket
window_of w [] = replicate w empty_bucket
window_of w (o ∷ log) = record_outcome o.success o.at w (window_of w log)

-- The specification: how many outcomes, and how many failures, lie within the last `w` seconds.
unfoldable pub recent : ℕ → ℕ → List Outcome → ℕ × ℕ
recent now w [] = (0, 0)
recent now w (o ∷ log) =
    let (total, failures) = recent now w log in
    if leb o.at now && ltb (now - o.at) w
    then (suc total, if o.success then failures else suc failures)
    else (total, failures)

-- The clock never went back over the log, and `now` is no earlier than its newest entry.
abbrev pub Chronological : ℕ → List Outcome → Type 0
Chronological now [] = Unit {0}
Chronological now (o ∷ log) = (o.at ≤ now) × Chronological o.at log

-- A bucket at index `i` is empty, or holds a second that belongs there.
abbrev InPlace : ℕ → ℕ → ℕ → Bucket → Type 0
InPlace w now i k = (k.successes + k.failures ≡ 0) ⊎ ((k.unix_sec % w ≡ i) × (k.unix_sec ≤ now))

-- What a bucket adds to the tally.
abbrev weight : ℕ → ℕ → Bucket → ℕ × ℕ
weight now w k = if is_fresh now w k then (k.successes + k.failures, k.failures) else (0, 0)

tally-set :
    (now w i : ℕ) (ks : List Bucket) (v : Bucket)
    → i < length ks
    → ((tally now w (set ks i v)).0 + (weight now w (get_or ks i empty_bucket)).0
        ≡ (tally now w ks).0 + (weight now w v).0)
      × ((tally now w (set ks i v)).1 + (weight now w (get_or ks i empty_bucket)).1
          ≡ (tally now w ks).1 + (weight now w v).1)
unfolding tally
tally-set now w i [] v h = absurd (omega arith)
tally-set now w zero (k ∷ ks) v h = ground arith
tally-set now w (suc i) (k ∷ ks) v h = ground (arith, tally-set now w i ks v)

turns : (w m n : ℕ) → m < n → w * m + w ≤ w * n
turns w m n h = grind arith

le_turns : (w m n : ℕ) → m ≤ n → w * m ≤ w * n
le_turns w m n h = grind arith

-- Two instants of one bucket are the same, or a whole window apart.
window_apart : (w a b : ℕ) → 0 < w → a ≤ b → a % w ≡ b % w → (a ≡ b) ⊎ (a + w ≤ b)
window_apart w a b pos le same = elim (dec_lt (a / w) (b / w)) [
  | yes p ↦ inr (omega (arith, div-add-mod a w, div-add-mod b w, turns w (a / w) (b / w) p))
  | no p ↦
      inl
        (omega (arith, div-add-mod a w, div-add-mod b w, le_turns w (b / w) (a / w) (omega arith)))
]

length-window_of : (w : ℕ) (log : List Outcome) → length (window_of w log) ≡ w
unfolding window_of
length-window_of w [] = length-replicate w empty_bucket
length-window_of w (o ∷ log) =
    length-record_outcome o.success o.at w (window_of w log) ∙ length-window_of w log

Chronological-mono :
    {now later : ℕ} (log : List Outcome)
    → now ≤ later
    → Chronological now log
    → Chronological later log
Chronological-mono [] h c = tt
Chronological-mono (o ∷ log) h c = (omega arith, c.1)

window_of-InPlace :
    (w now i : ℕ) (log : List Outcome)
    → 0 < w
    → Chronological now log
    → InPlace w now i (get_or (window_of w log) i empty_bucket)
unfolding window_of record_outcome
window_of-InPlace w now i [] pos c = rw (get_or-replicate w i empty_bucket) (inl refl)
window_of-InPlace w now i (o ∷ log) pos c = ground (
  arith,
  get_or-set (window_of w log) (o.at % w) i
      (bump o.success (claim o.at (get_or (window_of w log) (o.at % w) empty_bucket))) empty_bucket,
  length-window_of w log,
  window_of-InPlace w o.at i log pos c.1,
)

tally-replicate : (now w n : ℕ) → tally now w (replicate n empty_bucket) ≡ (0, 0)
unfolding tally
tally-replicate now w zero = refl
tally-replicate now w (suc n) = ground (arith, tally-replicate now w n)

-- One call of `record` adds its outcome to the tally, as long as it is recent.
tally-record :
    (success : Bool) (at now w : ℕ) (ks : List Bucket)
    → 0 < w
    → length ks ≡ w
    → at ≤ now
    → InPlace w at (at % w) (get_or ks (at % w) empty_bucket)
    → tally now w (record_outcome success at w ks) ≡ (
        let (total, failures) = tally now w ks in
        if ltb (now - at) w
        then (suc total, if success then failures else suc failures)
        else (total, failures))
unfolding record_outcome
tally-record success at now w ks pos len le place = ground (
  arith,
  tally-set now w (at % w) ks (bump success (claim at (get_or ks (at % w) empty_bucket))),
  window_apart w (get_or ks (at % w) empty_bucket).unix_sec at,
)

-- The window that `shouldTrip` sums, at any second no earlier than the last outcome, holds exactly
-- the outcomes of the last `w` seconds: the stale buckets of the ring add nothing, and no recent
-- outcome was overwritten. The clock is assumed not to go back.
pub tally-window_of :
    (w now : ℕ) (log : List Outcome)
    → 0 < w
    → Chronological now log
    → tally now w (window_of w log) ≡ recent now w log
unfolding recent window_of
tally-window_of w now [] pos c = tally-replicate now w w
tally-window_of w now (o ∷ log) pos c =
    rw
      (tally-record o.success o.at now w (window_of w log) pos (rw (length-window_of w log)) c.0
        (window_of-InPlace w o.at (o.at % w) log pos c.1))
      (ground (arith, tally-window_of w now log pos (Chronological-mono log c.0 c.1)))
