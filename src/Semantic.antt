-- ===== src/Semantic.antt =====
-- internal/cache/semantic/semantic.go: the Tier-2 cache, a map of entries with an order of use and an
-- index over their vectors. The index is a third-party graph, and similarity is computed in floats:
-- both are fields of `Library`. Times and lifetimes are nanoseconds.
use llm_inference_gateway.Base.{
  ℕ, zero, suc, ◌+◌, Bool, true, false, not, ◌&&◌, ◌||◌, List, [], ◌∷◌, ◌++◌, Option, none, some,
  map, ltb, leb, nat_beq, if◌then◌else◌, length, Text, text_eq, ◌==◌,
}
use llm_inference_gateway.Base.Dict.{lookup, insert, remove}
use llm_inference_gateway.Base.Keys.{without}
pub mod Order
pub mod Bounds
pub mod Hits
pub mod Disk
pub mod Life

-- `hnsw.Graph` with its `Add`, `Len` and `Search`, `CosineSimilarity` and the order of its results,
-- and the cached responses, which are only passed on.
pub record Library : Type 1 where
  pub Vector : Type 0
  pub Score : Type 0
  pub Graph : Type 0
  pub Response : Type 0
  pub new_graph : (m ef_search : ℕ) → Graph
  pub add : Text → Vector → Graph → Graph
  pub size : Graph → ℕ
  pub search : Graph → Vector → ℕ → List (Text × Vector)
  pub similarity : Vector → Vector → Score
  pub less : Score → Score → Bool

abbrev pub search_k : ℕ
search_k = 20

pub record Guard : Type 0 where
  pub tenant_id : Text
  pub model : Text
  pub tools_canonical : Text
  pub response_format_canonical : Text

-- The guard rail of `Get`.
abbrev pub same_guard : Guard → Guard → Bool
same_guard a b =
    a.tenant_id == b.tenant_id
    && a.model == b.model
    && a.tools_canonical == b.tools_canonical
    && a.response_format_canonical == b.response_format_canonical

module _ (l : Library) where
  -- The entry's place in the order of use is found by its key.
  pub record Entry : Type 0 where
    pub response : l.Response
    pub guard : Guard
    pub vector : l.Vector
    pub expires_at : ℕ

  pub record Query : Type 0 where
    pub guard : Guard
    pub vector : l.Vector

  -- `lru` is the list of keys, the least recently used one first: the back of the Go list.
  pub record Store : Type 0 where
    pub graph : l.Graph
    pub m : ℕ
    pub ef_search : ℕ
    pub entries : List (Text × Entry)
    pub lru : List Text
    pub max_vectors : ℕ
    pub ttl : ℕ
    pub threshold : l.Score

  unfoldable pub new_store : ℕ → ℕ → ℕ → l.Score → ℕ → Store
  new_store m ef_search max_vectors threshold ttl = record {
    graph = l.new_graph m ef_search;
    m = m;
    ef_search = ef_search;
    entries = [];
    lru = [];
    max_vectors = max_vectors;
    ttl = ttl;
    threshold = threshold;
  }

  -- The loop of `Get` over the nodes found: the key and the entry of the hit, and its similarity.
  unfoldable pub scan : Store → Query → ℕ → List (Text × l.Vector) → Option (Text × Entry × l.Score)
  scan s q now [] = none
  scan s q now ((key, vector) ∷ nodes) =
      let further = scan s q now nodes in
      elim (lookup key s.entries) [
        | none ↦ further
        | some e ↦
            let sim = l.similarity q.vector vector in
            if l.less sim s.threshold
            then none
            else if ltb e.expires_at now
            then further
            else if not (same_guard e.guard q.guard)
            then further
            else some (key, e, sim)
      ]

  -- `lru.MoveToFront`
  abbrev pub move_to_front : Text → List Text → List Text
  move_to_front k ks = without k ks ++ k ∷ []

  -- The hit, if there is one, becomes the most recently used entry.
  abbrev pub hit : Store → Option (Text × Entry × l.Score) → Store × Option (l.Response × l.Score)
  hit s none = (s, none)
  hit s (some (key, e, sim)) = (record s { lru = move_to_front key s.lru }, some (e.response, sim))

  unfoldable pub get : Query → ℕ → Store → Store × Option (l.Response × l.Score)
  unfolding scan
  get q now s =
      if nat_beq (length s.entries) 0
      then (s, none)
      else hit s (scan s q now (l.search s.graph q.vector search_k))

  -- The loop that adds all entries to a fresh graph.
  unfoldable pub add_all : List (Text × Entry) → l.Graph → l.Graph
  add_all [] g = g
  add_all ((key, e) ∷ es) g = add_all es (l.add key e.vector g)

  unfoldable pub rebuild_graph_if_needed : Store → Store
  unfolding add_all
  rebuild_graph_if_needed s =
      if leb (l.size s.graph) (length s.entries + s.max_vectors)
      then s
      else record s { graph = add_all s.entries (l.new_graph s.m s.ef_search) }

  -- `evictOldest`, on the order of use.
  unfoldable pub evict_from : List Text → Store → Store
  unfolding rebuild_graph_if_needed
  evict_from [] s = s
  evict_from (key ∷ keys) s =
      rebuild_graph_if_needed (record s { lru = keys; entries = remove key s.entries })

  unfoldable pub evict_oldest : Store → Store
  unfolding evict_from
  evict_oldest s = evict_from s.lru s

  -- The eviction loop of `Set`; each round shortens the order of use, whose length is the fuel.
  unfoldable pub evict_excess : ℕ → Store → Store
  evict_excess zero s = s
  evict_excess (suc fuel) s = elim (leb (length s.entries) s.max_vectors) [
    | true ↦ s
    | false ↦ evict_excess fuel (evict_oldest s)
  ]

  abbrev pub lifetime : ℕ → Option ℕ → ℕ
  lifetime ttl none = ttl
  lifetime ttl (some override) = override

  abbrev pub new_entry : Query → l.Response → Option ℕ → ℕ → ℕ → Entry
  new_entry q response override now ttl = record {
    response = response;
    guard = q.guard;
    vector = q.vector;
    expires_at = now + lifetime ttl override;
  }

  -- What `Set` and `LoadFromDisk` both do with an entry.
  abbrev pub put : Text → Entry → Store → Store
  put key e s = record s {
    lru = s.lru ++ key ∷ [];
    entries = insert key e s.entries;
    graph = l.add key e.vector s.graph;
  }

  -- `Set` up to its loop; `key` is the fresh UUID.
  unfoldable pub store_entry : Text → Query → l.Response → Option ℕ → ℕ → Store → Store
  store_entry key q response override now s = put key (new_entry q response override now s.ttl) s

  unfoldable pub set : Text → Query → l.Response → Option ℕ → ℕ → Store → Store
  unfolding store_entry evict_excess
  set key q response override now s =
      let s' = store_entry key q response override now s in evict_excess (length s'.lru) s'

  abbrev pub count_entries : Store → ℕ
  count_entries s = length s.entries

  -- `persistedEntry`
  pub record PersistedEntry : Type 0 where
    pub key : Text
    pub response : l.Response
    pub tenant_id : Text
    pub model : Text
    pub tools_canonical : Text
    pub response_format_canonical : Text
    pub vector : l.Vector
    pub expires_at : ℕ

  -- `encoding/gob` on a list of entries; `none` is an error.
  pub record Gob : Type 0 where
    pub encode : List PersistedEntry → Option Text
    pub decode : Text → Option (List PersistedEntry)

  unfoldable pub persisted : Text × Entry → PersistedEntry
  persisted (key, e) = record {
    key = key;
    response = e.response;
    tenant_id = e.guard.tenant_id;
    model = e.guard.model;
    tools_canonical = e.guard.tools_canonical;
    response_format_canonical = e.guard.response_format_canonical;
    vector = e.vector;
    expires_at = e.expires_at;
  }

  -- The bytes written, once the file has been created, or the encoder's error; `order` is the order of Go's iteration over the map.
  unfoldable pub save_to_disk :
      Gob → (List (Text × Entry) → List (Text × Entry)) → Store → Option Text
  unfolding persisted
  save_to_disk gob order s = gob.encode (map persisted (order s.entries))

  unfoldable pub restored : PersistedEntry → Entry
  restored p = record {
    response = p.response;
    guard = record {
      tenant_id = p.tenant_id;
      model = p.model;
      tools_canonical = p.tools_canonical;
      response_format_canonical = p.response_format_canonical;
    };
    vector = p.vector;
    expires_at = p.expires_at;
  }

  -- The loop of `LoadFromDisk`.
  unfoldable pub restore : ℕ → List PersistedEntry → Store → Store
  unfolding restored
  restore now [] s = s
  restore now (p ∷ ps) s =
      restore now ps (if ltb p.expires_at now then s else put p.key (restored p) s)

  -- What opening the file gives.
  pub data Saved : Type 0 where
    missing unreadable : Saved
    holds : Text → Saved

  -- `false` is an error.
  unfoldable pub load_from_disk : Gob → ℕ → Saved → Store → Store × Bool
  unfolding restore
  load_from_disk gob now missing s = (s, true)
  load_from_disk gob now unreadable s = (s, false)
  load_from_disk gob now (holds raw) s = elim (gob.decode raw) [
    | none ↦ (s, false)
    | some ps ↦ (restore now ps s, true)
  ]
