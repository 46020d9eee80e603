-- ===== src/Semantic/Life.antt =====
-- internal/cache/semantic/semantic.go: the stores that a process can have.
use llm_inference_gateway.Base.{
  ℕ, ◌≡◌, refl, map, List, [], ◌∷◌, Option, none, length, Text, text_eq, text_beq_iff, arith, ltb,
  Bool-cases, inl, inr, ◌⊎◌, nat_beq, some,
}
use llm_inference_gateway.Base.Dict.{lookup, lookup-insert}
use llm_inference_gateway.Base.Keys.{DistinctKeys}
use llm_inference_gateway.Semantic.{
  Library, Store, Entry, Query, Gob, persisted, restored, get, set, new_store, holds, save_to_disk,
  load_from_disk, restore, put, hit, scan, search_k,
}
use llm_inference_gateway.Semantic.Order.{Tracked, new_store-Tracked, set-Keeps}
use llm_inference_gateway.Semantic.Bounds.{SizeLaws, FewOrphans, put-FewOrphans, set-FewOrphans}
use llm_inference_gateway.Semantic.Hits.{get-Tracked}
use llm_inference_gateway.Semantic.Disk.{DiskLaws, load-save}

module _ {l : Library} where
  -- A store begins empty or with what an earlier one saved, and answers calls; every key is new.
  pub data Reachable : Store l → Type 0 where
    fresh :
        (m ef_search max_vectors ttl : ℕ) (threshold : l.Score)
        → Reachable (new_store l m ef_search max_vectors threshold ttl)
    loaded :
        (gob : Gob l) (order : List (Text × Entry l) → List (Text × Entry l)) (raw : Text)
        (s : Store l) (now m ef_search max_vectors ttl : ℕ) (threshold : l.Score)
        → DiskLaws gob order
        → save_to_disk l gob order s ≡ some raw
        → Reachable s
        → Reachable
            (load_from_disk l gob now
              (holds raw)
              (new_store l m ef_search max_vectors threshold ttl)).0
    after_get : (s : Store l) (q : Query l) (now : ℕ) → Reachable s → Reachable (get l q now s).0
    after_set :
        (s : Store l) (key : Text) (q : Query l) (r : l.Response) (o : Option ℕ) (now : ℕ)
        → lookup key s.entries ≡ none
        → Reachable s
        → Reachable (set l key q r o now s)

  restore-FewOrphans :
      (laws : SizeLaws l) (now : ℕ) (es : List (Text × Entry l)) (s : Store l)
      → DistinctKeys es
      → ((j : Text) → (lookup j es ≡ none) ⊎ (lookup j s.entries ≡ none))
      → FewOrphans laws s
      → FewOrphans laws (restore l now (map (persisted l) es) s)
  unfolding restore restored persisted
  restore-FewOrphans laws now [] s d apart h = h
  restore-FewOrphans laws now ((k, e) ∷ es) s d apart h =
      let new : lookup k s.entries ≡ none = ground (arith, apart k, text_beq_iff k k) in
      elim (Bool-cases (ltb e.expires_at now)) [
        | inl gone ↦
            rw (gone, restore)
              (restore-FewOrphans laws now es s d.1
                (λ j. ground (arith, apart j, text_beq_iff k j, d.0)) h)
        | inr live ↦
            rw (live, restore)
              (restore-FewOrphans laws now es (put l k e s) d.1
                (λ j. ground (arith, apart j, text_beq_iff k j, d.0, lookup-insert k j e s.entries))
                (put-FewOrphans laws k e s new h))
      ]

  get-FewOrphans :
      (laws : SizeLaws l) (q : Query l) (now : ℕ) (s : Store l)
      → FewOrphans laws s
      → FewOrphans laws (get l q now s).0
  unfolding get
  get-FewOrphans laws q now s h = elim (Bool-cases (nat_beq (length s.entries) 0)) [
    | inl empty ↦ rw empty h
    | inr some_entry ↦ rw some_entry (hit_of (scan l s q now (l.search s.graph q.vector search_k)))
  ]
    where
      hit_of : (o : Option (Text × Entry l × l.Score)) → FewOrphans laws (hit l s o).0
      hit_of none = h
      hit_of (some x) = h

  -- In every store that a process can have, the order of use holds each key of the entries once, and
  -- at most `max_vectors` nodes of the index are orphans.
  pub Reachable-invariant :
      (laws : SizeLaws l) (s : Store l) → Reachable s → Tracked s × FewOrphans laws s
  unfolding new_store load_from_disk save_to_disk
  Reachable-invariant laws s (fresh m ef max ttl th) =
      (new_store-Tracked m ef max ttl th, omega (arith, laws.empty m ef))
  Reachable-invariant laws u (loaded gob order raw s now m ef max ttl th disk saved r) =
      let before = Reachable-invariant laws s r in
      (
        (load-save gob order raw now m ef max ttl th s disk before.0 saved).1,
        rw (disk.decodes (map (persisted l) (order s.entries)) raw saved, load_from_disk)
            (restore-FewOrphans laws now (order s.entries) (new_store l m ef max th ttl)
              (disk.visits_once s.entries before.0.keys) (λ j. inr refl)
              (omega (arith, laws.empty m ef))),
      )
  Reachable-invariant laws u (after_get s q now r) =
      let before = Reachable-invariant laws s r in
      (get-Tracked q now s before.0, get-FewOrphans laws q now s before.1)
  Reachable-invariant laws u (after_set s key q a o now new r) =
      let before = Reachable-invariant laws s r in
      ((set-Keeps key q a o now s new before.0).0, set-FewOrphans laws key q a o now s new before.1)
