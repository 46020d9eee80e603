-- ===== src/Retry/Walk.antt =====
-- internal/retry/engine.go: the walks of `tier_loop` and `tiers_loop` over candidates.
use mathlib.Core.List.{Memᴰ}
use llm_inference_gateway.Base.{
  ℕ, zero, suc, ◌+◌, ◌*◌, ◌≤◌, ◌<◌, ◌≡◌, refl, List, [], ◌∷◌, ◌++◌, some, arith, length,
  length-append, append_assoc, append-nil, ◌∙◌, ap, sym, Text,
}
use llm_inference_gateway.Router.{Candidate, Tier}
use llm_inference_gateway.Router.Tiers.{flatten}
use llm_inference_gateway.Retry.{Attempt, Engine, Oracle, World, Err, context_done, provider}
use llm_inference_gateway.Retry.Pick.{pick_from_tier}
use llm_inference_gateway.Retry.Chosen.{
  untried, untried-le, untried-lt, nobody, somebody, pick_from_tier-Drawn,
}
use llm_inference_gateway.Retry.Execute.{TierEnd, response, failure, tier_loop, tiers_loop}
use llm_inference_gateway.Retry.Round.{
  EndShape, responded, terminated, cancelled, untouched, used_up, EndShape-after, Leaves, wins,
  aborts, goes_on, round-Rounds,
}

-- A walk over the candidates `cs` added at most `bound` attempts, and ended in their shape.
pub record Walked {R : Type 0} (cs : List Candidate) (last_err : Err) (bound : ℕ) (w : World)
    (end : World × TierEnd R) : Type 0 where
  pub new : List Attempt
  pub appended : end.0.attempts ≡ w.attempts ++ new
  pub bounded : length new ≤ bound
  pub shape : EndShape cs last_err new end.1

-- `k` more rounds after one that added at most `m` attempts.
one_more : (m k n : ℕ) → k < n → k * m + m ≤ n * m
one_more m k n h = grind arith

-- A walk after the attempts that an earlier round left.
Walked-after :
    {R : Type 0} {cs : List Candidate} {last_err err : Err} {k m n : ℕ} {w w' : World}
    {end : World × TierEnd R} (pre : List Attempt)
    → w'.attempts ≡ w.attempts ++ pre
    → length pre ≤ m
    → k < n
    → Leaves last_err pre err
    → Walked cs err (k * m) w' end
    → Walked cs last_err (n * m) w end
Walked-after {k} {m} {n} {w} pre e le lt left v = record {
  new = pre ++ v.new;
  appended =
      v.appended ∙ (ap (λ (xs : List Attempt). xs ++ v.new) e ∙ append_assoc w.attempts pre v.new);
  bounded = omega (arith, length-append pre v.new, v.bounded, one_more m k n lt);
  shape = EndShape-after left v.shape;
}

module _ {R : Type 0} (o : Oracle R) (e : Engine) (h : 0 < e.cfg.max_attempts_per_provider) where
  abbrev quota : ℕ
  quota = e.cfg.max_attempts_per_provider

  tier_loop-Walked :
      (fuel : ℕ) (tier : Tier) (tried : List Text) (last_err : Err) (w : World)
      → untried tried tier.candidates < fuel
      → Walked tier.candidates last_err
          (untried tried tier.candidates * quota)
          w
          (tier_loop o e fuel tier tried last_err w)
  unfolding tier_loop
  tier_loop-Walked zero tier tried last_err w lt = absurd (omega arith)
  tier_loop-Walked (suc fuel) tier tried last_err w lt =
      elim (pick_from_tier-Drawn o e tier tried w) [
        | nobody same none_left ↦
            rw (none_left, tier_loop)
              (record {
                new = [];
                appended = same ∙ sym (append-nil w.attempts);
                bounded = omega arith;
                shape = untouched refl refl;
              })
        | somebody c same picked (m, fresh) ↦
            let w1 = (pick_from_tier o e tier tried w).0 in
            let (new, e1, le, rounds) = round-Rounds o c tier.candidates m e last_err w1 h in
            let fewer = untried-lt tried tier.candidates c m fresh in
            let e2 = e1 ∙ ap (λ (xs : List Attempt). xs ++ new) same in
            let bound = one_more quota 0 (untried tried tier.candidates) (omega (arith, fewer)) in
            elim rounds [
              | wins r v shape ↦
                  rw (picked, tier_loop)
                    (rw v (record {
                      new = new;
                      appended = e2;
                      bounded = omega (arith, le, bound);
                      shape = shape;
                    }))
              | aborts err v shape ↦
                  rw (picked, tier_loop)
                    (rw v (record {
                      new = new;
                      appended = e2;
                      bounded = omega (arith, le, bound);
                      shape = shape;
                    }))
              | goes_on err v left ↦
                  rw (picked, tier_loop)
                    (rw v (
                      Walked-after new e2 le fewer left (
                        tier_loop-Walked fuel tier (c.provider_name ∷ tried) err _
                          (omega (arith, fewer)))))
            ]
      ]

Mem-left {ℓ} : {A : Type ℓ} {x : A} (xs ys : List A) → Memᴰ x xs → Memᴰ x (xs ++ ys)
Mem-left [] ys m = elim m [ ]
Mem-left (y ∷ xs) ys (Memᴰ.head p) = Memᴰ.head p
Mem-left (y ∷ xs) ys (Memᴰ.tail m) = Memᴰ.tail (Mem-left xs ys m)

Mem-right {ℓ} : {A : Type ℓ} {x : A} (xs ys : List A) → Memᴰ x ys → Memᴰ x (xs ++ ys)
Mem-right [] ys m = m
Mem-right (y ∷ xs) ys m = Memᴰ.tail (Mem-right xs ys m)

EndShape-widen :
    {R : Type 0} {cs ds : List Candidate} {last_err : Err} {new : List Attempt} {end : TierEnd R}
    → ((c : Candidate) → Memᴰ c cs → Memᴰ c ds)
    → EndShape cs last_err new end
    → EndShape ds last_err new end
EndShape-widen f (responded c r before q m eq tr) = responded c r before q (f c m) eq tr
EndShape-widen f (terminated c g before q k eq tr) = terminated c g before q k eq tr
EndShape-widen f (cancelled q ne tr) = cancelled q ne tr
EndShape-widen f (untouched q eq) = untouched q eq
EndShape-widen f (used_up c g before q eq tr) = used_up c g before q eq tr

Walked-stop :
    {R : Type 0} {cs ds : List Candidate} {last_err : Err} {a b : ℕ} {w w' : World}
    (end : TierEnd R) (new : List Attempt)
    → ((c : Candidate) → Memᴰ c cs → Memᴰ c ds)
    → w'.attempts ≡ w.attempts ++ new
    → length new ≤ a
    → a ≤ b
    → EndShape cs last_err new end
    → Walked ds last_err b w (w', end)
Walked-stop end new f e le ab s = record {
  new = new;
  appended = e;
  bounded = omega arith;
  shape = EndShape-widen f s;
}

Walked-next :
    {R : Type 0} {cs ds : List Candidate} {last_err err : Err} {a b n : ℕ} {w w' : World}
    {end : World × TierEnd R} (pre : List Attempt)
    → ((c : Candidate) → Memᴰ c cs → Memᴰ c ds)
    → w'.attempts ≡ w.attempts ++ pre
    → length pre ≤ a
    → a + b ≤ n
    → Leaves last_err pre err
    → Walked cs err b w' end
    → Walked ds last_err n w end
Walked-next {w} pre f e le lt left v = record {
  new = pre ++ v.new;
  appended =
      v.appended ∙ (ap (λ (xs : List Attempt). xs ++ v.new) e ∙ append_assoc w.attempts pre v.new);
  bounded = omega (arith, length-append pre v.new, v.bounded);
  shape = EndShape-widen f (EndShape-after left v.shape);
}

times_mono : (m k n : ℕ) → k ≤ n → k * m ≤ n * m
times_mono m k n h = grind arith

split_bound :
    (q u : ℕ) (xs ys : List Candidate)
    → u ≤ length xs
    → u * q + length ys * q ≤ length (xs ++ ys) * q
split_bound q u xs ys h =
    omega (arith, ap (λ (n : ℕ). n * q) (length-append xs ys), times_mono q u (length xs) h)

module _ {R : Type 0} (o : Oracle R) (e : Engine) (h : 0 < e.cfg.max_attempts_per_provider) where
  pub tiers_loop-Walked :
      (tiers : List Tier) (last_err : Err) (w : World)
      → Walked
          (flatten tiers)
          last_err
          (length (flatten tiers) * e.cfg.max_attempts_per_provider)
          w
          (tiers_loop o e tiers last_err w)
  unfolding tiers_loop flatten
  tiers_loop-Walked [] last_err w = record {
    new = [];
    appended = sym (append-nil w.attempts);
    bounded = omega arith;
    shape = untouched refl refl;
  }
  tiers_loop-Walked (tier ∷ tiers) last_err w =
      let cs = tier.candidates in
      let q = e.cfg.max_attempts_per_provider in
      let few = untried-le [] cs in
      let t = tier_loop-Walked o e h (suc (length cs)) tier [] last_err w (omega (arith, few)) in
      let w' = (tier_loop o e (suc (length cs)) tier [] last_err w).0 in
      let sum = split_bound q (untried [] cs) cs (flatten tiers) few in
      let total = length (cs ++ flatten tiers) * q in
      let here : untried [] cs * q ≤ total = omega (arith, sum) in
      let left = λ (c : Candidate) (m : Memᴰ c cs). Mem-left cs (flatten tiers) m in
      let right = λ (c : Candidate) (m : Memᴰ c (flatten tiers)). Mem-right cs (flatten tiers) m in
      elim t.shape [
        | responded c r before v m eq tr ↦
            rw (v, tiers_loop)
              (Walked-stop (response c (some r)) t.new left t.appended t.bounded here
                (responded c r before refl m eq tr))
        | terminated c f before v k eq tr ↦
            rw (v, tiers_loop)
              (Walked-stop (failure (provider f)) t.new left t.appended t.bounded here
                (terminated c f before refl k eq tr))
        | cancelled v ne tr ↦
            rw (v, tiers_loop)
              (Walked-stop (failure context_done) t.new left t.appended t.bounded here
                (cancelled refl ne tr))
        | untouched v eq ↦
            rw (v, tiers_loop)
              (Walked-next t.new right t.appended t.bounded sum (Leaves.nothing eq refl)
                (tiers_loop-Walked tiers last_err w'))
        | used_up c f before v eq tr ↦
            rw (v, tiers_loop)
              (Walked-next t.new right t.appended t.bounded sum
                (Leaves.failures c f before eq tr refl) (tiers_loop-Walked tiers (provider f) w'))
      ]
