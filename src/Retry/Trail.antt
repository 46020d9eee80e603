-- ===== src/Retry/Trail.antt =====
-- internal/retry/engine.go: the attempts on one candidate, by the way they end.
use llm_inference_gateway.Base.{
  ℕ, suc, ◌≤◌, ◌<◌, ◌≡◌, refl, ◌≢◌, List, [], ◌∷◌, ◌++◌, Option, none, some, arith, length, All,
  append_assoc, append-nil, inl, inr, ◌∙◌, ap, ◌⊎◌,
}
use llm_inference_gateway.Providers.{
  FailureClass, terminal, retryable, fallback, classify_by_status,
}
use llm_inference_gateway.Router.{Candidate}
use llm_inference_gateway.Retry.{
  Attempt, World, Completion, answered, failed, ProviderError, Err, provider,
}
use llm_inference_gateway.Retry.Calls.{Tried, status_of}

-- The entry of an attempt on `c`.
abbrev pub entry : Candidate → ℕ → Attempt
entry c status = record { provider = c.provider_name; status = status }

-- An attempt that was neither a success nor a terminal failure: it failed in a way that another
-- attempt or another provider may mend. (Status 200 is classified as terminal.)
abbrev pub IsTransient : Attempt → Type 0
IsTransient a = classify_by_status a.status ≢ terminal

-- The new attempts against the result of the loop entered with `last_err` and `last_status`, `n`
-- rounds left and `attempt` rounds done. None is added only where no round is left or a wait was
-- refused.
pub data Shape {R : Type 0} (c : Candidate) (last_err : Option Err) (last_status : ℕ)
    (n attempt : ℕ) (new : List Attempt) (t : Tried R) : Type 0 where
  kept :
      new ≡ []
      → (n ≡ 0) ⊎ (0 < attempt)
      → t.err ≡ last_err
      → t.status ≡ last_status
      → Shape c last_err last_status n attempt new t
  succeeded :
      (before : List Attempt) (r : R)
      → new ≡ before ++ entry c 200 ∷ []
      → All IsTransient before
      → t.err ≡ none
      → t.response ≡ some r
      → Shape c last_err last_status n attempt new t
  gave_up :
      (before : List Attempt) (f : ProviderError)
      → new ≡ before ++ entry c (status_of f) ∷ []
      → All IsTransient before
      → t.err ≡ some (provider f)
      → t.status ≡ status_of f
      → Shape c last_err last_status n attempt new t

-- At most `n` attempts were added to those of `w`, in this shape.
pub record Adds {R : Type 0} (c : Candidate) (last_err : Option Err) (last_status n attempt : ℕ)
    (w : World) (end : World × Tried R) : Type 0 where
  pub new : List Attempt
  pub appended : end.0.attempts ≡ w.attempts ++ new
  pub bounded : length new ≤ n
  pub shape : Shape c last_err last_status n attempt new end.1

-- A retryable attempt in front of what the rest of the loop adds.
pub Shape-cons :
    {R : Type 0} {c : Candidate} {last_err : Option Err} {last_status n attempt : ℕ}
    {new : List Attempt} {t : Tried R} (f : ProviderError)
    → classify_by_status (status_of f) ≡ retryable
    → Shape c (some (provider f)) (status_of f) n (suc attempt) new t
    → Shape c last_err last_status (suc n) attempt (entry c (status_of f) ∷ new) t
Shape-cons {c} f k (kept e _ err status) =
    gave_up [] f (ap (λ xs. entry c (status_of f) ∷ xs) e) tt err status
Shape-cons {c} f k (succeeded before r e all err resp) =
    succeeded (entry c (status_of f) ∷ before) r (ap (λ xs. entry c (status_of f) ∷ xs) e)
      ((λ h. cc), all) err resp
Shape-cons {c} f k (gave_up before g e all err status) =
    gave_up (entry c (status_of f) ∷ before) g (ap (λ xs. entry c (status_of f) ∷ xs) e)
      ((λ h. cc), all) err status

pub Adds-cons :
    {R : Type 0} {c : Candidate} {last_err : Option Err} {last_status n attempt : ℕ} {w w' : World}
    {end : World × Tried R} (f : ProviderError)
    → classify_by_status (status_of f) ≡ retryable
    → w'.attempts ≡ w.attempts ++ entry c (status_of f) ∷ []
    → Adds c (some (provider f)) (status_of f) n (suc attempt) w' end
    → Adds c last_err last_status (suc n) attempt w end
Adds-cons {c} {w} {w'} f k e a = record {
  new = entry c (status_of f) ∷ a.new;
  appended =
      a.appended
      ∙ (ap (λ (xs : List Attempt). xs ++ a.new) e
          ∙ append_assoc w.attempts (entry c (status_of f) ∷ []) a.new);
  bounded = omega (arith, a.bounded);
  shape = Shape-cons f k a.shape;
}

pub Adds-kept :
    {R : Type 0} (c : Candidate) (last_err : Option Err) (last_status n attempt : ℕ) (w w' : World)
    (response : Option R)
    → (n ≡ 0) ⊎ (0 < attempt)
    → w'.attempts ≡ w.attempts
    → Adds c last_err last_status n attempt w
        (w', record { response = response; status = last_status; err = last_err })
Adds-kept c last_err last_status n attempt w w' response why e = record {
  new = [];
  appended = rw append-nil e;
  bounded = omega arith;
  shape = kept refl why refl refl;
}

pub Completion-cases :
    {R : Type 0} (x : Completion R)
    → ((r : R) × (x ≡ answered r)) ⊎ ((f : ProviderError) × (x ≡ failed f))
Completion-cases (answered r) = inl (r, refl)
Completion-cases (failed f) = inr (f, refl)

pub class_cases : (k : FailureClass) → (k ≡ terminal) ⊎ ((k ≡ retryable) ⊎ (k ≡ fallback))
class_cases terminal = inl refl
class_cases retryable = inr (inl refl)
class_cases fallback = inr (inr refl)

pub Adds-failure :
    {R : Type 0} (c : Candidate) (last_err : Option Err) (last_status n attempt : ℕ) (w w' : World)
    (response : Option R) (f : ProviderError)
    → w'.attempts ≡ w.attempts ++ entry c (status_of f) ∷ []
    → Adds c last_err last_status
        (suc n)
        attempt
        w
        (w', record { response = response; status = status_of f; err = some (provider f) })
Adds-failure c last_err last_status n attempt w w' response f e = record {
  new = entry c (status_of f) ∷ [];
  appended = e;
  bounded = omega arith;
  shape = gave_up [] f refl tt refl refl;
}
