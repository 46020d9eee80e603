-- ===== src/Config/Valid.antt =====
-- internal/config/config.go: `Validate` against the constraints on all sections.
use mathlib.Core.List.{Memᴰ}
use llm_inference_gateway.Base.{
  ℕ, ◌+◌, ◌≡◌, refl, sym, ap, ◌↔◌, Bool, true, false, List, [], ◌∷◌, ◌++◌, Option, some, none,
  arith, All, All-append,
}
use llm_inference_gateway.Config.{
  Message, reports, ProviderConfig, Config, validate, validation, validate_provider,
  validate_providers,
}
use llm_inference_gateway.Config.Sections.{
  Passes, reports-nil, split-All, IsProvider, IsConfig, IsServer-iff, redis_iff, postgres_iff,
  IsProvider-iff, IsBreaker-iff, IsRetry-iff, IsCache-iff, rate_limit_iff, IsLedger-iff,
  observability_iff,
}

All-iff : (xs ys : List (Bool × Message)) → All Passes (xs ++ ys) ↔ (All Passes xs × All Passes ys)
All-iff xs ys = (split-All xs ys, λ p. All-append Passes xs ys p.0 p.1)

providers_iff :
    (i : ℕ) (ps : List ProviderConfig) → All Passes (validate_providers i ps) ↔ All IsProvider ps
unfolding validate_providers
providers_iff i [] = ((λ _. tt), (λ _. tt))
providers_iff i (p ∷ ps) = (
  (λ a.
      let (b, rest) = (All-iff (validate_provider i p) (validate_providers (i + 1) ps)).0 a in
      ((IsProvider-iff i p).0 b, (providers_iff (i + 1) ps).0 rest)),
  (λ v.
      (All-iff (validate_provider i p) (validate_providers (i + 1) ps)).1
        ((IsProvider-iff i p).1 v.0, (providers_iff (i + 1) ps).1 v.1)),
)

All-cons :
    {P Q : Type 0} (xs ys : List (Bool × Message))
    → All Passes xs ↔ P
    → All Passes ys ↔ Q
    → All Passes (xs ++ ys) ↔ (P × Q)
All-cons xs ys p q = (
  (λ a. let (b, c) = (All-iff xs ys).0 a in (p.0 b, q.0 c)),
  (λ r. (All-iff xs ys).1 (p.1 r.0, q.1 r.1)),
)

validation-IsConfig : (c : Config) → All Passes (validation c) ↔ IsConfig c
unfolding validation
validation-IsConfig c =
    let parts = All-cons _ _ (IsServer-iff c.server) (
      All-cons _ _ (redis_iff c.redis) (
        All-cons _ _ (postgres_iff c.postgres) (
          All-cons _ _ (providers_iff 0 c.providers) (
            All-cons _ _ (IsBreaker-iff c.breaker) (
              All-cons _ _ (IsRetry-iff c.retry) (
                All-cons _ _ (IsCache-iff c.cache) (
                  All-cons _ _ (rate_limit_iff c.rate_limit) (
                    All-cons _ _ (IsLedger-iff c.ledger)
                      (observability_iff c.observability))))))))) in
    (
      (λ a.
          let x0 = parts.0 a in
          let x1 = x0.1 in
          let x2 = x1.1 in
          let x3 = x2.1 in
          let x4 = x3.1 in
          let x5 = x4.1 in
          let x6 = x5.1 in
          let x7 = x6.1 in
          let x8 = x7.1 in
          let x9 = x8.1 in
          record {
            server_valid = x0.0;
            redis_valid = x1.0;
            postgres_valid = x2.0;
            providers_valid = x3.0;
            breaker_valid = x4.0;
            retry_valid = x5.0;
            cache_valid = x6.0;
            rate_limit_valid = x7.0;
            ledger_valid = x8.0;
            level_valid = x9;
          }),
      (λ v. parts.1 (
        v.server_valid,
        (
          v.redis_valid,
          (
            v.postgres_valid,
            (
              v.providers_valid,
              (
                v.breaker_valid,
                (
                  v.retry_valid,
                  (v.cache_valid, (v.rate_limit_valid, (v.ledger_valid, v.level_valid))),
                ),
              ),
            ),
          ),
        ),
      )),
    )

validate-nil : (c : Config) → (validate c ≡ none) ↔ (reports (validation c) ≡ [])
unfolding validate
validate-nil c = ground arith

-- The messages of `Validate`'s error; none where there is no error.
abbrev pub errors_of : Option (List Message) → List Message
errors_of none = []
errors_of (some ms) = ms

errors_of-validate : (c : Config) → errors_of (validate c) ≡ reports (validation c)
unfolding validate
errors_of-validate c =
    elim (reports (validation c))
      as (λ ms. errors_of (elim ms [ [] ↦ none | m ∷ ms' ↦ some (m ∷ ms') ]) ≡ ms) [
        | [] ↦ refl
        | m ∷ ms ↦ refl
      ]

reports-Memᴰ : (m : Message) (ts : List (Bool × Message)) → Memᴰ (true, m) ts → Memᴰ m (reports ts)
unfolding reports
reports-Memᴰ m [] i = elim i [ ]
reports-Memᴰ m ((failed, n) ∷ ts) (Memᴰ.head p) =
    let hit : failed ≡ true = sym (ap (λ (t : Bool × Message). t.0) p) in
    rw hit (Memᴰ.head (ap (λ (t : Bool × Message). t.1) p))
reports-Memᴰ m ((true, n) ∷ ts) (Memᴰ.tail i) = Memᴰ.tail (reports-Memᴰ m ts i)
reports-Memᴰ m ((false, n) ∷ ts) (Memᴰ.tail i) = reports-Memᴰ m ts i

Memᴰ-reports : (m : Message) (ts : List (Bool × Message)) → Memᴰ m (reports ts) → Memᴰ (true, m) ts
unfolding reports
Memᴰ-reports m [] i = elim i [ ]
Memᴰ-reports m ((true, n) ∷ ts) (Memᴰ.head p) = Memᴰ.head (ap (λ x. (true, x)) p)
Memᴰ-reports m ((true, n) ∷ ts) (Memᴰ.tail i) = Memᴰ.tail (Memᴰ-reports m ts i)
Memᴰ-reports m ((false, n) ∷ ts) i = Memᴰ.tail (Memᴰ-reports m ts i)

-- `Validate` accepts a configuration exactly when it satisfies every constraint on every section, and
-- the error it returns otherwise has the message of every test that fails and no other.
pub validate-IsConfig :
    (c : Config)
    → ((validate c ≡ none) ↔ IsConfig c)
      × ((m : Message) → Memᴰ (true, m) (validation c) ↔ Memᴰ m (errors_of (validate c)))
validate-IsConfig c = (
  (
    λ h. (validation-IsConfig c).0 ((reports-nil (validation c)).0 ((validate-nil c).0 h)),
    λ v. (validate-nil c).1 ((reports-nil (validation c)).1 ((validation-IsConfig c).1 v)),
  ),
  λ m. rw (errors_of-validate c) (reports-Memᴰ m (validation c), Memᴰ-reports m (validation c)),
)
