-- ===== src/Semantic/Disk.antt =====
-- internal/cache/semantic/semantic.go: saving the entries and restoring them.
use llm_inference_gateway.Base.{
  ℕ, ◌≡◌, refl, ◌⊎◌, true, List, [], ◌∷◌, map, Option, none, some, if◌then◌else◌, Text, text_eq,
  text_beq_iff, arith, ltb, Bool-cases, inl, inr,
}
use llm_inference_gateway.Base.Dict.{lookup, lookup-insert}
use llm_inference_gateway.Base.Keys.{DistinctKeys}
use llm_inference_gateway.Semantic.{
  Library, Store, Entry, Gob, PersistedEntry, persisted, restored, holds, save_to_disk, restore,
  load_from_disk, new_store, put,
}
use llm_inference_gateway.Semantic.Order.{put-Tracked, Tracked, new_store-Tracked}

module _ {l : Library} where
  abbrev pub alive : ℕ → Option (Entry l) → Option (Entry l)
  alive now none = none
  alive now (some e) = if ltb e.expires_at now then none else some e

  pub restored-persisted : (k : Text) (e : Entry l) → restored l (persisted l (k, e)) ≡ e
  unfolding restored persisted
  restored-persisted k e = refl

  -- What the code relies on of `encoding/gob`, and of Go's iteration over a map: what was encoded is
  -- decoded again, and each entry of the map is visited once.
  pub record DiskLaws (gob : Gob l) (order : List (Text × Entry l) → List (Text × Entry l))
      : Type 0 where
    pub decodes :
        (ps : List (PersistedEntry l)) (raw : Text)
        → gob.encode ps ≡ some raw
        → gob.decode raw ≡ some ps
    pub visits_once : (es : List (Text × Entry l)) → DistinctKeys es → DistinctKeys (order es)
    pub visits_all :
        (es : List (Text × Entry l)) (j : Text)
        → DistinctKeys es
        → lookup j (order es) ≡ lookup j es

  abbrev or_else : Option (Entry l) → Option (Entry l) → Option (Entry l)
  or_else none o = o
  or_else (some e) o = some e

  restore-lookup :
      (now : ℕ) (es : List (Text × Entry l)) (s : Store l) (j : Text)
      → DistinctKeys es
      → lookup j (restore l now (map (persisted l) es) s).entries
        ≡ or_else (alive now (lookup j es)) (lookup j s.entries)
  unfolding restore restored persisted
  restore-lookup now [] s j d = refl
  restore-lookup now ((k, e) ∷ es) s j d = elim (Bool-cases (ltb e.expires_at now)) [
    | inl gone ↦
        rw (gone, restore) (ground (arith, restore-lookup now es s j d.1, d.0, text_beq_iff k j))
    | inr live ↦
        rw (live, restore)
          (ground (
            arith,
            restore-lookup now es (put l k e s) j d.1,
            d.0,
            text_beq_iff k j,
            lookup-insert k j e s.entries,
          ))
  ]

  restore-Tracked :
      (now : ℕ) (es : List (Text × Entry l)) (s : Store l)
      → DistinctKeys es
      → ((j : Text) → (lookup j es ≡ none) ⊎ (lookup j s.entries ≡ none))
      → Tracked s
      → Tracked (restore l now (map (persisted l) es) s)
  unfolding restore restored persisted
  restore-Tracked now [] s d apart t = t
  restore-Tracked now ((k, e) ∷ es) s d apart t =
      let new : lookup k s.entries ≡ none = ground (arith, apart k, text_beq_iff k k) in
      elim (Bool-cases (ltb e.expires_at now)) [
        | inl gone ↦
            rw (gone, restore)
              (restore-Tracked now es s d.1 (λ j. ground (arith, apart j, text_beq_iff k j, d.0)) t)
        | inr live ↦
            rw (live, restore)
              (restore-Tracked now es (put l k e s) d.1
                (λ j. ground (arith, apart j, text_beq_iff k j, d.0, lookup-insert k j e s.entries))
                (put-Tracked k e s new t))
      ]

  -- What was saved can be loaded into a fresh store without an error, and each key then has the entry it
  -- had with all its fields, unless that is expired: the store is well formed again. The bytes are
  -- those that the encoder gave, and entries may have been written in any order.
  pub load-save :
      (gob : Gob l) (order : List (Text × Entry l) → List (Text × Entry l)) (raw : Text)
      (now m ef_search max_vectors ttl : ℕ) (threshold : l.Score) (s : Store l)
      → DiskLaws gob order
      → Tracked s
      → save_to_disk l gob order s ≡ some raw
      → let loaded =
          load_from_disk l gob now
            (holds raw)
            (new_store l m ef_search max_vectors threshold ttl) in
        (loaded.1 ≡ true)
        × Tracked loaded.0
        × ((j : Text) → lookup j loaded.0.entries ≡ alive now (lookup j s.entries))
  unfolding load_from_disk save_to_disk new_store
  load-save gob order raw now m ef_search max_vectors ttl threshold s laws t saved =
      let fresh = new_store l m ef_search max_vectors threshold ttl in
      let es = order s.entries in
      let distinct = laws.visits_once s.entries t.keys in
      rw (laws.decodes (map (persisted l) es) raw saved, load_from_disk)
        (
          refl,
          restore-Tracked now es fresh distinct (λ j. inr refl)
              (new_store-Tracked m ef_search max_vectors ttl threshold),
          λ j.
              ground
                (arith, restore-lookup now es fresh j distinct, laws.visits_all s.entries j t.keys),
        )
