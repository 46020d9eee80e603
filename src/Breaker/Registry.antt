-- ===== src/Breaker/Registry.antt =====
-- internal/breaker/registry.go: one breaker for each (provider, model) pair, created on first use.
-- `Get` hands out a pointer, so a method call on what it returned changes the map's entry: `put`.
use llm_inference_gateway.Base.{
  ◌≡◌, ◌≢◌, inl, inr, List, [], ◌∷◌, ◌++◌, none, some, arith, Text, All, if◌then◌else◌, ◌==◌,
  text_beq_iff, text_eq, ◌&&◌, Option-cases, map,
}
use llm_inference_gateway.Base.Dict.{lookup, insert, lookup-insert}
use llm_inference_gateway.Breaker.{Config, Breaker, new_breaker}

pub record Registry : Type 0 where
  pub cfg : Config
  pub breakers : List (Text × Breaker)

unfoldable pub new_registry : Config → Registry
new_registry cfg = record { cfg = cfg; breakers = [] }

-- `providerName + "\x00" + model`
unfoldable pub key : Text → Text → Text
key provider_name model = provider_name ++ 0 ∷ model

-- The breaker that `Get` returns.
unfoldable pub breaker_for : Text → Text → Registry → Breaker
breaker_for p m r = elim (lookup (key p m) r.breakers) [ some b ↦ b | none ↦ new_breaker p m r.cfg ]

-- The registry that it leaves.
unfoldable pub get : Text → Text → Registry → Registry × Breaker
get p m r = elim (lookup (key p m) r.breakers) [
  | some b ↦ (r, b)
  | none ↦
      let b = new_breaker p m r.cfg in (record r { breakers = insert (key p m) b r.breakers }, b)
]

-- The breaker at the pointer that `Get` returned becomes `b`.
unfoldable pub put : Text → Text → Breaker → Registry → Registry
put p m b r = record r { breakers = insert (key p m) b r.breakers }

unfoldable pub snapshot : Registry → List Breaker
snapshot r = map (λ e. e.1) r.breakers

pub get-breaker_for : (p m : Text) (r : Registry) → (get p m r).1 ≡ breaker_for p m r
unfolding get breaker_for
get-breaker_for p m r = ground arith

-- A name with no NUL in it, as a configured provider name is in practice.
abbrev pub NulFree : Text → Type 0
NulFree = All (λ c. c ≢ 0)

-- Distinct pairs have distinct keys, as long as no provider name holds a NUL.
pub key-injective :
    (p p' m m' : Text) → NulFree p → NulFree p' → key p m ≡ key p' m' → (p ≡ p') × (m ≡ m')
unfolding key
key-injective [] [] m m' f f' e = ground arith
key-injective [] (c ∷ p') m m' f f' e = absurd (f'.0 (ground arith))
key-injective (c ∷ p) [] m m' f f' e = absurd (f.0 (ground arith))
key-injective (c ∷ p) (c' ∷ p') m m' f f' e = ground (arith, key-injective p p' m m' f.1 f'.1)

-- Getting the breaker of any pair changes no breaker that a later `Get` returns, as long as no
-- provider name holds a NUL.
pub get_stable :
    (p m q n : Text) (r : Registry)
    → NulFree p
    → NulFree q
    → breaker_for q n (get p m r).0 ≡ breaker_for q n r
unfolding get breaker_for
get_stable p m q n r f g = elim (Option-cases (lookup (key p m) r.breakers)) [
  | inl absent ↦ ground (
    arith,
    absent,
    lookup-insert (key p m) (key q n) (new_breaker p m r.cfg) r.breakers,
    text_beq_iff (key p m) (key q n),
    key-injective p q m n f g,
  )
  | inr (b, present) ↦ ground (arith, present)
]

-- After a method call on the breaker of one pair, `Get` returns the changed breaker for that pair,
-- and what it returned before for every other pair, as long as no provider name holds a NUL.
pub breaker_for-put :
    (p m q n : Text) (b : Breaker) (r : Registry)
    → NulFree p
    → NulFree q
    → breaker_for q n (put p m b r) ≡ (if p == q && m == n then b else breaker_for q n r)
unfolding put breaker_for
breaker_for-put p m q n b r f g = ground (
  arith,
  lookup-insert (key p m) (key q n) b r.breakers,
  text_beq_iff (key p m) (key q n),
  text_beq_iff p q,
  text_beq_iff m n,
  key-injective p q m n f g,
)
