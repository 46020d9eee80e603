-- ===== src/Semantic/Bounds.antt =====
-- internal/cache/semantic/semantic.go: the number of entries and the size of the index.
use llm_inference_gateway.Base.{
  ℕ, zero, suc, ◌+◌, ◌-◌, ◌≤◌, ◌≡◌, ap, List, [], ◌∷◌, Option, none, length, Text, text_eq, arith,
  leb, Bool-cases, inl, inr,
}
use llm_inference_gateway.Base.Dict.{lookup, remove}
use llm_inference_gateway.Base.Keys.{length-skip, length-insert}
use llm_inference_gateway.Semantic.{
  Library, Store, Query, Entry, new_entry, rebuild_graph_if_needed, evict_from, evict_oldest,
  evict_excess, store_entry, put, set, add_all,
}
use llm_inference_gateway.Semantic.Order.{Tracked, set-Keeps}

-- What the code relies on of the index: a new one is empty, and adding a node adds at most one.
pub record SizeLaws (l : Library) : Type 0 where
  pub empty : (m ef_search : ℕ) → l.size (l.new_graph m ef_search) ≡ 0
  pub grows : (k : Text) (v : l.Vector) (g : l.Graph) → l.size (l.add k v g) ≤ suc (l.size g)

module _ {l : Library} (laws : SizeLaws l) where
  -- At most `max_vectors` nodes of the index have lost their entry.
  abbrev pub FewOrphans : Store l → Type 0
  FewOrphans s = l.size s.graph ≤ length s.entries + s.max_vectors

  add_all-size :
      (es : List (Text × Entry l)) (g : l.Graph) → l.size (add_all l es g) ≤ length es + l.size g
  unfolding add_all
  add_all-size [] g = omega arith
  add_all-size ((k, e) ∷ es) g =
      omega (arith, add_all-size es (l.add k e.vector g), laws.grows k e.vector g)

  pub rebuild-FewOrphans : (s : Store l) → FewOrphans (rebuild_graph_if_needed l s)
  unfolding rebuild_graph_if_needed
  rebuild-FewOrphans s =
      elim (Bool-cases (leb (l.size s.graph) (length s.entries + s.max_vectors))) [
        | inl few ↦ rw few (ground arith)
        | inr many ↦ rw many (
            omega (
              arith,
              add_all-size s.entries (l.new_graph s.m s.ef_search),
              laws.empty s.m s.ef_search,
            ))
      ]

  pub evict_from-FewOrphans :
      (ks : List Text) (s : Store l) → FewOrphans s → FewOrphans (evict_from l ks s)
  unfolding evict_from
  evict_from-FewOrphans [] s h = h
  evict_from-FewOrphans (k ∷ ks) s h =
      rebuild-FewOrphans (record s { lru = ks; entries = remove k s.entries })

  pub evict_excess-FewOrphans :
      (fuel : ℕ) (s : Store l) → FewOrphans s → FewOrphans (evict_excess l fuel s)
  unfolding evict_excess evict_oldest
  evict_excess-FewOrphans zero s h = h
  evict_excess-FewOrphans (suc fuel) s h =
      elim (Bool-cases (leb (length s.entries) s.max_vectors)) [
        | inl few ↦ rw (few, evict_excess) h
        | inr more ↦
            rw (more, evict_excess)
              (evict_excess-FewOrphans fuel (evict_from l s.lru s)
                (evict_from-FewOrphans s.lru s h))
      ]

  pub put-FewOrphans :
      (k : Text) (e : Entry l) (s : Store l)
      → lookup k s.entries ≡ none
      → FewOrphans s
      → FewOrphans (put l k e s)
  put-FewOrphans k e s fresh h =
      omega (arith, laws.grows k e.vector s.graph, length-insert k e s.entries fresh)

  -- After `set` with a new key the store holds at most `max_vectors` entries, and the index at most
  -- twice as many nodes.
  pub set-bounded :
      (key : Text) (q : Query l) (r : l.Response) (o : Option ℕ) (now : ℕ) (s : Store l)
      → lookup key s.entries ≡ none
      → Tracked s
      → FewOrphans s
      → (length (set l key q r o now s).entries ≤ s.max_vectors)
        × (l.size (set l key q r o now s).graph ≤ s.max_vectors + s.max_vectors)
  unfolding set store_entry
  set-bounded key q r o now s fresh t h =
      let u = store_entry l key q r o now s in
      let few =
        evict_excess-FewOrphans (length u.lru) u
          (put-FewOrphans key (new_entry l q r o now s.ttl) s fresh h) in
      let kept = set-Keeps key q r o now s fresh t in
      let order = ap length kept.1.order in
      let entries : length (set l key q r o now s).entries ≤ s.max_vectors =
        omega (arith, kept.0.count, order, length-skip (length u.lru - s.max_vectors) u.lru) in
      (entries, omega (arith, few, entries, kept.1.max))

  pub set-FewOrphans :
      (key : Text) (q : Query l) (r : l.Response) (o : Option ℕ) (now : ℕ) (s : Store l)
      → lookup key s.entries ≡ none
      → FewOrphans s
      → FewOrphans (set l key q r o now s)
  unfolding set store_entry
  set-FewOrphans key q r o now s fresh h =
      let u = store_entry l key q r o now s in
      evict_excess-FewOrphans (length u.lru) u
        (put-FewOrphans key (new_entry l q r o now s.ttl) s fresh h)
