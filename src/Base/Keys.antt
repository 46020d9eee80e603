-- ===== src/Base/Keys.antt =====
-- Lists of keys without repetition, beside the association lists whose keys they are.
use Prim.Native.Nat.{ℕ, zero, suc, ◌-◌, ◌≤◌}
use mathlib.Core.Path.{◌≡◌, refl, ap}
use mathlib.Core.Bool.{Bool, true, false, ◌||◌}
use mathlib.Core.Option.{Option, none, some}
use mathlib.Core.List.{List, [], ◌∷◌, ◌++◌}
use native.Mathlib.Omega.{arith}
use llm_inference_gateway.Base.Tests.{if◌then◌else◌}
use llm_inference_gateway.Base.Lists.{length}
use llm_inference_gateway.Base.Equality.{Comparable, ◌==◌}
use llm_inference_gateway.Base.Dict.{lookup, insert, remove, lookup-insert, lookup-remove}

abbrev pub is_some {ℓ} : {A : Type ℓ} → Option A → Bool
is_some none = false
is_some (some a) = true

abbrev pub skip {ℓ} : {A : Type ℓ} → ℕ → List A → List A
skip zero xs = xs
skip (suc n) [] = []
skip (suc n) (x ∷ xs) = skip n xs

abbrev pub keep {ℓ} : {A : Type ℓ} → ℕ → List A → List A
keep zero xs = []
keep (suc n) [] = []
keep (suc n) (x ∷ xs) = x ∷ keep n xs

module _ {ℓ} {K : Type ℓ} ⦃e : Comparable K⦄ where
  abbrev pub has : K → List K → Bool
  has k [] = false
  has k (j ∷ ks) = j == k || has k ks

  abbrev pub Distinct : List K → Type 0
  Distinct [] = Unit
  Distinct (k ∷ ks) = (has k ks ≡ false) × Distinct ks

  -- The list without `k`.
  abbrev pub without : K → List K → List K
  without k [] = []
  without k (j ∷ ks) = let rest = without k ks in if j == k then rest else j ∷ rest

  pub has-append : (k : K) (ks : List K) (j : K) → has k (ks ++ j ∷ []) ≡ (has k ks || j == k)
  has-append k [] j = ground arith
  has-append k (i ∷ ks) j = ground (arith, has-append k ks j)

  pub has-without :
      (k j : K) (ks : List K) → has j (without k ks) ≡ (if k == j then false else has j ks)
  has-without k j [] = ground arith
  has-without k j (i ∷ ks) =
      ground (arith, e.same_iff k j, e.same_iff i k, e.same_iff i j, has-without k j ks)

  pub Distinct-append :
      (ks : List K) (j : K) → Distinct ks → has j ks ≡ false → Distinct (ks ++ j ∷ [])
  Distinct-append [] j d h = ground arith
  Distinct-append (i ∷ ks) j d h =
      ground (arith, e.same_iff i j, e.same_iff j i, has-append i ks j, Distinct-append ks j d.1)

  pub Distinct-without : (k : K) (ks : List K) → Distinct ks → Distinct (without k ks)
  Distinct-without k [] d = tt
  Distinct-without k (i ∷ ks) d = ground (arith, has-without k i ks, Distinct-without k ks d.1)

  pub length-without_missing :
      (k : K) (ks : List K) → has k ks ≡ false → length (without k ks) ≡ length ks
  length-without_missing k [] h = refl
  length-without_missing k (i ∷ ks) h = ground (arith, length-without_missing k ks)

  pub length-without :
      (k : K) (ks : List K)
      → Distinct ks
      → has k ks ≡ true
      → suc (length (without k ks)) ≡ length ks
  length-without k [] d h = ground arith
  length-without k (i ∷ ks) d h =
      ground (arith, e.same_iff i k, length-without_missing k ks, length-without k ks d.1)

  pub has-skip_last :
      (n : ℕ) (k : K) (ks : List K) → n ≤ length ks → has k (skip n (ks ++ k ∷ [])) ≡ true
  has-skip_last zero k ks h = ground (arith, has-append k ks k, e.same_iff k k)
  has-skip_last (suc n) k [] h = absurd (omega arith)
  has-skip_last (suc n) k (i ∷ ks) h = has-skip_last n k ks (omega arith)

  pub has-skip : (n : ℕ) (k : K) (ks : List K) → has k (skip n ks) ≡ true → has k ks ≡ true
  has-skip zero k ks h = h
  has-skip (suc n) k [] h = h
  has-skip (suc n) k (i ∷ ks) h = ground (arith, has-skip n k ks h)

module _ {ℓ κ} {K : Type ℓ} {V : Type κ} ⦃e : Comparable K⦄ where
  abbrev pub DistinctKeys : List (K × V) → Type κ
  DistinctKeys [] = Unit
  DistinctKeys ((k, v) ∷ m) = (lookup k m ≡ none) × DistinctKeys m

  pub DistinctKeys-insert :
      (k : K) (v : V) (m : List (K × V)) → DistinctKeys m → DistinctKeys (insert k v m)
  DistinctKeys-insert k v [] d = (refl, tt)
  DistinctKeys-insert k v ((j, w) ∷ m) d =
      ground (
        arith,
        e.same_iff k j,
        e.same_iff j k,
        lookup-insert k j v m,
        DistinctKeys-insert k v m d.1,
      )

  pub DistinctKeys-remove : (k : K) (m : List (K × V)) → DistinctKeys m → DistinctKeys (remove k m)
  DistinctKeys-remove k [] d = tt
  DistinctKeys-remove k ((j, w) ∷ m) d =
      ground (arith, e.same_iff k j, lookup-remove k j m, DistinctKeys-remove k m d.1)

  pub length-insert :
      (k : K) (v : V) (m : List (K × V))
      → lookup k m ≡ none
      → length (insert k v m) ≡ suc (length m)
  length-insert k v [] h = refl
  length-insert k v ((j, w) ∷ m) h = ground (arith, length-insert k v m)

  pub length-remove_missing :
      (k : K) (m : List (K × V)) → lookup k m ≡ none → length (remove k m) ≡ length m
  length-remove_missing k [] h = refl
  length-remove_missing k ((j, w) ∷ m) h = ground (arith, length-remove_missing k m)

  pub length-remove :
      (k : K) (m : List (K × V))
      → DistinctKeys m
      → is_some (lookup k m) ≡ true
      → suc (length (remove k m)) ≡ length m
  length-remove k [] d h = ground arith
  length-remove k ((j, w) ∷ m) d h =
      ground (arith, e.same_iff j k, length-remove_missing k m, length-remove k m d.1)

pub length-skip {ℓ} : {A : Type ℓ} (n : ℕ) (xs : List A) → length (skip n xs) ≡ length xs - n
length-skip zero xs = omega arith
length-skip (suc n) [] = omega arith
length-skip (suc n) (x ∷ xs) = omega (arith, length-skip n xs)

pub keep-skip {ℓ} : {A : Type ℓ} (n : ℕ) (xs : List A) → keep n xs ++ skip n xs ≡ xs
keep-skip zero xs = refl
keep-skip (suc n) [] = refl
keep-skip (suc n) (x ∷ xs) = ap (λ ys. x ∷ ys) (keep-skip n xs)

pub length-keep {ℓ} : {A : Type ℓ} (n : ℕ) (xs : List A) → n ≤ length xs → length (keep n xs) ≡ n
length-keep zero xs h = refl
length-keep (suc n) [] h = absurd (omega arith)
length-keep (suc n) (x ∷ xs) h = ap suc (length-keep n xs (omega arith))

pub keep-append {ℓ} :
    {A : Type ℓ} (n : ℕ) (xs ys : List A) → n ≤ length xs → keep n (xs ++ ys) ≡ keep n xs
keep-append zero xs ys h = refl
keep-append (suc n) [] ys h = absurd (omega arith)
keep-append (suc n) (x ∷ xs) ys h = ap (λ zs. x ∷ zs) (keep-append n xs ys (omega arith))

pub keep-all {ℓ} : {A : Type ℓ} (n : ℕ) (xs : List A) → length xs ≤ n → keep n xs ≡ xs
keep-all zero [] h = refl
keep-all zero (x ∷ xs) h = absurd (omega arith)
keep-all (suc n) [] h = refl
keep-all (suc n) (x ∷ xs) h = ap (λ zs. x ∷ zs) (keep-all n xs (omega arith))

pub keep-at_most {ℓ} : {A : Type ℓ} (n : ℕ) (xs : List A) → length (keep n xs) ≤ n
keep-at_most zero xs = omega arith
keep-at_most (suc n) [] = omega arith
keep-at_most (suc n) (x ∷ xs) = omega (arith, keep-at_most n xs)
