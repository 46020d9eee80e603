-- ===== src/Retry/Round.antt =====
-- internal/retry/engine.go: one round of the inner loop of `Execute`.
use mathlib.Core.List.{Memᴰ}
use llm_inference_gateway.Base.{
  ℕ, ◌≤◌, ◌<◌, ◌≡◌, refl, ◌≢◌, List, [], ◌∷◌, ◌++◌, none, some, arith, length, All, All-append,
  append_assoc, append-nil, inl, inr, ◌∙◌, ap, subst, ◌⊎◌, sym,
}
use llm_inference_gateway.Providers.{terminal, classify_by_status}
use llm_inference_gateway.Router.{Candidate}
use llm_inference_gateway.Retry.{
  Attempt, Engine, Oracle, World, ProviderError, Err, breaker_rejected, context_done, provider,
}
use llm_inference_gateway.Retry.Pick.{tick}
use llm_inference_gateway.Retry.Calls.{Tried, status_of, try_candidate}
use llm_inference_gateway.Retry.Trail.{entry, IsTransient, Shape, kept, succeeded, gave_up}
use llm_inference_gateway.Retry.Attempts.{rejected, tried, try_candidate-Trial}
use llm_inference_gateway.Retry.Execute.{
  Verdict, won, aborted, go_on, judge, TierEnd, response, failure, drained,
}

-- How a walk that added the attempts `new` may end, when its candidates are `cs` and it began
-- with `last_err`.
pub data EndShape {R : Type 0} (cs : List Candidate) (last_err : Err) (new : List Attempt)
    (end : TierEnd R) : Type 0 where
  responded :
      (c : Candidate) (r : R) (before : List Attempt)
      → end ≡ response c (some r)
      → Memᴰ c cs
      → new ≡ before ++ entry c 200 ∷ []
      → All IsTransient before
      → EndShape cs last_err new end
  terminated :
      (c : Candidate) (f : ProviderError) (before : List Attempt)
      → end ≡ failure (provider f)
      → classify_by_status (status_of f) ≡ terminal
      → new ≡ before ++ entry c (status_of f) ∷ []
      → All IsTransient before
      → EndShape cs last_err new end
  cancelled :
      end ≡ failure context_done → new ≢ [] → All IsTransient new → EndShape cs last_err new end
  untouched : end ≡ drained last_err → new ≡ [] → EndShape cs last_err new end
  used_up :
      (c : Candidate) (f : ProviderError) (before : List Attempt)
      → end ≡ drained (provider f)
      → new ≡ before ++ entry c (status_of f) ∷ []
      → All IsTransient new
      → EndShape cs last_err new end

-- The transient attempts that a round left behind when the loop goes on with `err`.
pub data Leaves (last_err : Err) (new : List Attempt) (err : Err) : Type 0 where
  nothing : new ≡ [] → err ≡ last_err → Leaves last_err new err
  failures :
      (c : Candidate) (f : ProviderError) (before : List Attempt)
      → new ≡ before ++ entry c (status_of f) ∷ []
      → All IsTransient new
      → err ≡ provider f
      → Leaves last_err new err

snoc-nonempty {ℓ} : {A : Type ℓ} (xs : List A) (x : A) → xs ++ x ∷ [] ≢ []
snoc-nonempty [] x = λ e. cc
snoc-nonempty (y ∷ xs) x = λ e. cc

append-nonempty {ℓ} : {A : Type ℓ} (xs ys : List A) → ys ≢ [] → xs ++ ys ≢ []
append-nonempty [] ys h = h
append-nonempty (x ∷ xs) ys h = λ e. cc

regroup {ℓ} :
    {A : Type ℓ} (pre before : List A) (x : A) {new : List A}
    → new ≡ before ++ x ∷ []
    → pre ++ new ≡ (pre ++ before) ++ x ∷ []
regroup pre before x e = ap (◌++◌ pre) e ∙ sym (append_assoc pre before (x ∷ []))

-- What the earlier rounds left goes in front.
pub EndShape-after :
    {R : Type 0} {cs : List Candidate} {last_err err : Err} {pre new : List Attempt}
    {end : TierEnd R}
    → Leaves last_err pre err
    → EndShape cs err new end
    → EndShape cs last_err (pre ++ new) end
EndShape-after {cs} {last_err} {new} {end} (nothing p e) s =
    subst (λ xs. EndShape cs last_err (xs ++ new) end) (sym p)
      (subst (λ x. EndShape cs x new end) e s)
EndShape-after {pre} (failures c f b p all e) (responded d r before q m eq tr) =
    responded d r (pre ++ before) q m (regroup pre before _ eq)
      (All-append IsTransient pre before all tr)
EndShape-after {pre} (failures c f b p all e) (terminated d g before q k eq tr) =
    terminated d g (pre ++ before) q k (regroup pre before _ eq)
      (All-append IsTransient pre before all tr)
EndShape-after {pre} {new} (failures c f b p all e) (cancelled q ne tr) =
    cancelled q (append-nonempty pre new ne) (All-append IsTransient pre new all tr)
EndShape-after {pre} {new} (failures c f b p all e) (untouched q eq) =
    used_up c f b (q ∙ ap drained e) (ap (◌++◌ pre) eq ∙ append-nil pre ∙ p)
      (All-append IsTransient pre new all (rw eq tt))
EndShape-after {pre} {new} (failures c f b p all e) (used_up d g before q eq tr) =
    used_up d g (pre ++ before) q (regroup pre before _ eq) (All-append IsTransient pre new all tr)

-- What a round comes to.
pub data Rounds {R : Type 0} (c : Candidate) (cs : List Candidate) (last_err : Err)
    (new : List Attempt) (v : Verdict R) : Type 0 where
  wins :
      (r : R)
      → v ≡ won (some r)
      → EndShape {R = R} cs last_err new (response c (some r))
      → Rounds c cs last_err new v
  aborts :
      (err : Err)
      → v ≡ aborted err
      → EndShape {R = R} cs last_err new (failure err)
      → Rounds c cs last_err new v
  goes_on : (err : Err) → v ≡ go_on err → Leaves last_err new err → Rounds c cs last_err new v

module _ {R : Type 0} (o : Oracle R) (c : Candidate) (cs : List Candidate) (m : Memᴰ c cs) where
  attempts-judge :
      (last_err : Err) (t : Tried R) (w : World) → (judge o last_err t w).0.attempts ≡ w.attempts
  unfolding judge tick
  attempts-judge last_err t w = ground arith

  judge-rejected :
      (last_err : Err) (t : Tried R) (w : World)
      → t.err ≡ some breaker_rejected
      → (judge o last_err t w).1 ≡ go_on last_err
  unfolding judge
  judge-rejected last_err t w e = rw e

  judge-failure :
      (last_err : Err) (t : Tried R) (w : World) (f : ProviderError)
      → t.err ≡ some (provider f)
      → t.status ≡ status_of f
      → ((classify_by_status (status_of f) ≡ terminal)
          × ((judge o last_err t w).1 ≡ aborted (provider f)))
        ⊎ ((classify_by_status (status_of f) ≢ terminal)
            × (((judge o last_err t w).1 ≡ aborted context_done)
                ⊎ ((judge o last_err t w).1 ≡ go_on (provider f))))
  unfolding judge
  judge-failure last_err t w f e s = ground arith

  judge-Rounds :
      (last_err : Err) (n : ℕ) (new : List Attempt) (t : Tried R) (w : World)
      → 0 < n
      → Shape c none 0 n 0 new t
      → Rounds c cs last_err new (judge o last_err t w).1
  unfolding judge
  judge-Rounds last_err n new t w h (kept _ (inl z) _ _) = absurd (omega arith)
  judge-Rounds last_err n new t w h (kept _ (inr z) _ _) = absurd (omega arith)
  judge-Rounds last_err n new t w h (succeeded before r e tr err resp) =
      wins r (ground arith) (responded c r before refl m e tr)
  judge-Rounds last_err n new t w h (gave_up before f e tr err status) =
      elim (judge-failure last_err t w f err status) [
        | inl (k, v) ↦ aborts (provider f) v (terminated c f before refl k e tr)
        | inr (k, inl v) ↦
            aborts context_done v
              (cancelled refl (λ z. snoc-nonempty before _ (sym e ∙ z)) (all_transient k))
        | inr (k, inr v) ↦ goes_on (provider f) v (failures c f before e (all_transient k) refl)
      ]
    where
      all_transient : classify_by_status (status_of f) ≢ terminal → All IsTransient new
      all_transient k = rw e (All-append IsTransient before _ tr (k, tt))

  -- The state and the verdict after a round on `c`.
  abbrev pub round : Engine → Err → World → World × Verdict R
  round e last_err w = let (w', t) = try_candidate o e c w in judge o last_err t w'

  -- A round adds at most the configured number of attempts, in the shape of its verdict.
  pub round-Rounds :
      (e : Engine) (last_err : Err) (w : World)
      → 0 < e.cfg.max_attempts_per_provider
      → (new : List Attempt) × ((round e last_err w).0.attempts ≡ w.attempts ++ new)
        × (length new ≤ e.cfg.max_attempts_per_provider)
        × Rounds c cs last_err new (round e last_err w).1
  round-Rounds e last_err w h = elim (try_candidate-Trial o e c w) [
    | rejected same err ↦ (
      [],
      attempts-judge last_err _ _ ∙ same ∙ sym (append-nil w.attempts),
      omega arith,
      goes_on last_err (judge-rejected last_err _ _ err) (nothing refl refl),
    )
    | tried new same le shape ↦ (
      new,
      attempts-judge last_err _ _ ∙ same,
      le,
      judge-Rounds last_err e.cfg.max_attempts_per_provider new _ _ h shape,
    )
  ]
