-- ===== src/Router/Order.antt =====
-- internal/router/router.go: the orders of `New` and `Aliases`.
use mathlib.Core.List.{Perm}
use mathlib.Core.List.Perm
use llm_inference_gateway.Base.{
  ℕ, ◌≤◌, ◌≡◌, refl, true, false, List, [], ◌∷◌, arith, leb, nat_beq, if◌then◌else◌, Text, map, All,
  Bool-cases, inl, inr, ◌∙◌,
}
use llm_inference_gateway.Router.{
  ProviderConfig, Router, insert_by_priority, sort_by_priority, text_leb, insert_text, sort_texts,
  aliases,
}

-- No entry is followed by one of a smaller priority.
abbrev pub Ascending : List ProviderConfig → Type 0
Ascending [] = Unit {0}
Ascending (p ∷ ps) = All (λ q. p.priority ≤ q.priority) ps × Ascending ps

-- The entries of one priority, in their order.
pub at_priority : ℕ → List ProviderConfig → List ProviderConfig
at_priority k [] = []
at_priority k (p ∷ ps) =
    let rest = at_priority k ps in if nat_beq p.priority k then p ∷ rest else rest

All-insert :
    (n : ℕ) (p : ProviderConfig) (qs : List ProviderConfig)
    → n ≤ p.priority
    → All (λ q. n ≤ q.priority) qs
    → All (λ q. n ≤ q.priority) (insert_by_priority p qs)
unfolding insert_by_priority
All-insert n p [] h a = (h, tt)
All-insert n p (q ∷ qs) h a = ground (arith, All-insert n p qs)

All-mono :
    (m n : ℕ) (qs : List ProviderConfig)
    → m ≤ n
    → All (λ q. n ≤ q.priority) qs
    → All (λ q. m ≤ q.priority) qs
All-mono m n [] h a = tt
All-mono m n (q ∷ qs) h a = (omega arith, All-mono m n qs h a.1)

insert-Ascending :
    (p : ProviderConfig) (qs : List ProviderConfig)
    → Ascending qs
    → Ascending (insert_by_priority p qs)
unfolding insert_by_priority
insert-Ascending p [] a = (tt, tt)
insert-Ascending p (q ∷ qs) a = elim (Bool-cases (leb p.priority q.priority)) [
  | inl le ↦ rw le (((ground arith), All-mono p.priority q.priority qs (ground arith) a.0), a)
  | inr gt ↦ rw gt (All-insert q.priority p qs (ground arith) a.0, insert-Ascending p qs a.1)
]

at_priority-insert :
    (k : ℕ) (p : ProviderConfig) (qs : List ProviderConfig)
    → at_priority k (insert_by_priority p qs) ≡ at_priority k (p ∷ qs)
unfolding at_priority insert_by_priority
at_priority-insert k p [] = refl
at_priority-insert k p (q ∷ qs) = ground (arith, at_priority-insert k p qs)

sort-Ascending : (ps : List ProviderConfig) → Ascending (sort_by_priority ps)
unfolding sort_by_priority
sort-Ascending [] = tt
sort-Ascending (p ∷ ps) = insert-Ascending p (sort_by_priority ps) (sort-Ascending ps)

at_priority-sort :
    (k : ℕ) (ps : List ProviderConfig) → at_priority k (sort_by_priority ps) ≡ at_priority k ps
unfolding sort_by_priority at_priority
at_priority-sort k [] = refl
at_priority-sort k (p ∷ ps) =
    at_priority-insert k p (sort_by_priority ps) ∙ ground (arith, at_priority-sort k ps)

-- The default order is ascending by priority, and the providers of each priority stand in it
-- exactly as they are declared: none is lost, repeated, or moved past one of its own priority.
pub sort-stable :
    (ps : List ProviderConfig)
    → Ascending (sort_by_priority ps)
      × ((k : ℕ) → at_priority k (sort_by_priority ps) ≡ at_priority k ps)
sort-stable ps = (sort-Ascending ps, λ k. at_priority-sort k ps)

abbrev pub Sorted : List Text → Type 0
Sorted [] = Unit {0}
Sorted (t ∷ ts) = All (λ u. text_leb t u ≡ true) ts × Sorted ts

text_leb-total : (t u : Text) → text_leb t u ≡ false → text_leb u t ≡ true
unfolding text_leb
text_leb-total [] u h = cc
text_leb-total (x ∷ xs) [] h = refl
text_leb-total (x ∷ xs) (y ∷ ys) h = ground (arith, text_leb-total xs ys)

text_leb_trans : (t u v : Text) → text_leb t u ≡ true → text_leb u v ≡ true → text_leb t v ≡ true
unfolding text_leb
text_leb_trans [] u v h k = refl
text_leb_trans (x ∷ xs) [] v h k = cc
text_leb_trans (x ∷ xs) (y ∷ ys) [] h k = cc
text_leb_trans (x ∷ xs) (y ∷ ys) (z ∷ zs) h k = ground (arith, text_leb_trans xs ys zs)

All-text_mono :
    (t u : Text) (vs : List Text)
    → text_leb t u ≡ true
    → All (λ v. text_leb u v ≡ true) vs
    → All (λ v. text_leb t v ≡ true) vs
All-text_mono t u [] h a = tt
All-text_mono t u (v ∷ vs) h a = (text_leb_trans t u v h a.0, All-text_mono t u vs h a.1)

All-insert_text :
    (t u : Text) (vs : List Text)
    → text_leb t u ≡ true
    → All (λ v. text_leb t v ≡ true) vs
    → All (λ v. text_leb t v ≡ true) (insert_text u vs)
unfolding insert_text
All-insert_text t u [] h a = (h, tt)
All-insert_text t u (v ∷ vs) h a = ground (arith, All-insert_text t u vs)

insert_text-Sorted : (t : Text) (us : List Text) → Sorted us → Sorted (insert_text t us)
unfolding insert_text
insert_text-Sorted t [] s = (tt, tt)
insert_text-Sorted t (u ∷ us) s = elim (Bool-cases (text_leb t u)) [
  | inl le ↦ rw le ((le, All-text_mono t u us le s.0), s)
  | inr gt ↦ rw gt (All-insert_text u t us (text_leb-total t u gt) s.0, insert_text-Sorted t us s.1)
]

insert_text-perm : (t : Text) (us : List Text) → Perm (insert_text t us) (t ∷ us)
unfolding insert_text
insert_text-perm t [] = Perm.refl (t ∷ [])
insert_text-perm t (u ∷ us) = elim (Bool-cases (text_leb t u)) [
  | inl le ↦ rw le (Perm.refl (t ∷ u ∷ us))
  | inr gt ↦ rw gt (Perm.trans (Perm.cons u (insert_text-perm t us)) (Perm.swap t u us))
]

sort_texts-Sorted : (ts : List Text) → Sorted (sort_texts ts)
unfolding sort_texts
sort_texts-Sorted [] = tt
sort_texts-Sorted (t ∷ ts) = insert_text-Sorted t (sort_texts ts) (sort_texts-Sorted ts)

sort_texts-perm : (ts : List Text) → Perm (sort_texts ts) ts
unfolding sort_texts
sort_texts-perm [] = Perm.refl []
sort_texts-perm (t ∷ ts) =
    Perm.trans (insert_text-perm t (sort_texts ts)) (Perm.cons t (sort_texts-perm ts))

-- `/v1/models` lists exactly the configured aliases, sorted bytewise.
pub aliases_listing :
    (r : Router) → Sorted (aliases r) × Perm (aliases r) (map (λ e. e.0) r.model_aliases)
unfolding aliases
aliases_listing r = (sort_texts-Sorted _, sort_texts-perm _)
