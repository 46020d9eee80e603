-- ===== src/Semantic/Hits.antt =====
-- internal/cache/semantic/semantic.go: what `Get` returns.
use llm_inference_gateway.Base.{
  ℕ, suc, ◌+◌, ◌-◌, ◌<◌, ◌≤◌, ◌≡◌, refl, ap, subst, ◌∙◌, true, false, List, [], ◌∷◌, Option, none,
  some, Text, text_eq, text_beq_iff, arith, ltb, nat_beq, length, Bool-cases, Option-cases, inl,
  inr,
}
use llm_inference_gateway.Base.Dict.{lookup, lookup-insert}
use llm_inference_gateway.Base.Keys.{is_some, has, has-skip_last}
use mathlib.Core.List.{Memᴰ}
use mathlib.Core.Option.{some-injective}
use llm_inference_gateway.Semantic.{
  Library, Store, Query, Entry, Guard, scan, hit, get, move_to_front, set, new_entry, lifetime,
  same_guard, search_k,
}
use llm_inference_gateway.Semantic.Order.{set-keeps_latest, Tracked, move_to_front-Tracked}

same_guard_refl : (g : Guard) → same_guard g g ≡ true
same_guard_refl g = ground (
  arith,
  text_beq_iff g.tenant_id g.tenant_id,
  text_beq_iff g.model g.model,
  text_beq_iff g.tools_canonical g.tools_canonical,
  text_beq_iff g.response_format_canonical g.response_format_canonical,
)

module _ {l : Library} where
  -- An entry of the store that may answer the query, by its guard rails, its lifetime and its
  -- nearness, and that the search of the index found.
  pub record Answers (s : Store l) (q : Query l) (now : ℕ) (nodes : List (Text × l.Vector))
      (k : Text) (e : Entry l) (sim : l.Score) : Type 0 where
    pub stored : lookup k s.entries ≡ some e
    pub found : (v : l.Vector) × Memᴰ (k, v) nodes × (sim ≡ l.similarity q.vector v)
    pub near : l.less sim s.threshold ≡ false
    pub live : now ≤ e.expires_at
    pub tenant : e.guard.tenant_id ≡ q.guard.tenant_id
    pub model : e.guard.model ≡ q.guard.model
    pub tools : e.guard.tools_canonical ≡ q.guard.tools_canonical
    pub format : e.guard.response_format_canonical ≡ q.guard.response_format_canonical

  further :
      {s : Store l} {q : Query l} {now : ℕ} {nodes : List (Text × l.Vector)} {n : Text × l.Vector}
      {k : Text} {e : Entry l} {sim : l.Score}
      → Answers s q now nodes k e sim
      → Answers s q now (n ∷ nodes) k e sim
  further a = record {
    stored = a.stored;
    found = (a.found.0, Memᴰ.tail a.found.1, a.found.2);
    near = a.near;
    live = a.live;
    tenant = a.tenant;
    model = a.model;
    tools = a.tools;
    format = a.format;
  }

  here :
      (s : Store l) (q : Query l) (now : ℕ) (nodes : List (Text × l.Vector)) (key : Text)
      (v : l.Vector) (f : Entry l)
      → lookup key s.entries ≡ some f
      → l.less (l.similarity q.vector v) s.threshold ≡ false
      → ltb f.expires_at now ≡ false
      → same_guard f.guard q.guard ≡ true
      → Answers s q now ((key, v) ∷ nodes) key f (l.similarity q.vector v)
  here s q now nodes key v f present close live same = record {
    stored = present;
    found = (v, Memᴰ.head refl, refl);
    near = close;
    live = ground arith;
    tenant = ground (arith, text_beq_iff f.guard.tenant_id q.guard.tenant_id);
    model = ground (arith, text_beq_iff f.guard.model q.guard.model);
    tools = ground (arith, text_beq_iff f.guard.tools_canonical q.guard.tools_canonical);
    format =
        ground
          (arith, text_beq_iff f.guard.response_format_canonical q.guard.response_format_canonical);
  }

  scan-Answers :
      (s : Store l) (q : Query l) (now : ℕ) (nodes : List (Text × l.Vector)) (k : Text)
      (e : Entry l) (sim : l.Score)
      → scan l s q now nodes ≡ some (k, e, sim)
      → Answers s q now nodes k e sim
  unfolding scan
  scan-Answers s q now [] k e sim = λ h. absurd (ground arith)
  scan-Answers s q now ((key, v) ∷ nodes) k e sim = elim (Option-cases (lookup key s.entries)) [
    | inl absent ↦ rw (absent, scan) (λ h. further (scan-Answers s q now nodes k e sim h))
    | inr (f, present) ↦
        rw (present, scan)
          (let near = l.less (l.similarity q.vector v) s.threshold in
            elim (Bool-cases near) [
              | inl far ↦ rw far (λ h. absurd (ground arith))
              | inr close ↦ elim (Bool-cases (ltb f.expires_at now)) [
                | inl gone ↦ rw (close, gone) (λ h. further (scan-Answers s q now nodes k e sim h))
                | inr live ↦ elim (Bool-cases (same_guard f.guard q.guard)) [
                  | inl same ↦
                      rw (close, live, same)
                        (λ h.
                          subst (λ x. Answers s q now ((key, v) ∷ nodes) x.0 x.1 x.2)
                            (some-injective (key, f, l.similarity q.vector v) (k, e, sim) h)
                            (here s q now nodes key v f present close live same))
                  | inr other ↦
                      rw (close, live, other) (λ h. further (scan-Answers s q now nodes k e sim h))
                ]
              ]
            ])
  ]

  non_empty :
      (k : Text) (e : Entry l) (m : List (Text × Entry l))
      → lookup k m ≡ some e
      → nat_beq (length m) 0 ≡ false
  non_empty k e [] h = absurd (ground arith)
  non_empty k e (x ∷ m) h = ground arith

  -- What `get` returned comes from an entry that answers the query, and only the order of use
  -- changes: that entry becomes the most recently used one.
  pub get-hit :
      (q : Query l) (now : ℕ) (s : Store l) (r : l.Response) (sim : l.Score)
      → (get l q now s).1 ≡ some (r, sim)
      → (k : Text) × (e : Entry l) × Answers s q now (l.search s.graph q.vector search_k) k e sim
        × (e.response ≡ r)
        × ((get l q now s).0 ≡ record s { lru = move_to_front l k s.lru })
  unfolding get
  get-hit q now s r sim = elim (Bool-cases (nat_beq (length s.entries) 0)) [
    | inl empty ↦ rw empty (λ h. absurd (ground arith))
    | inr some_entry ↦
        rw some_entry (hit_of (scan l s q now (l.search s.graph q.vector search_k)) refl)
  ]
    where
      hit_of :
          (o : Option (Text × Entry l × l.Score))
          → scan l s q now (l.search s.graph q.vector search_k) ≡ o
          → (hit l s o).1 ≡ some (r, sim)
          → (k : Text) × (e : Entry l) × Answers s q now
              (l.search s.graph q.vector search_k)
              k
              e
              sim
            × (e.response ≡ r)
            × ((hit l s o).0 ≡ record s { lru = move_to_front l k s.lru })
      hit_of none eq h = absurd (ground arith)
      hit_of (some (k, e, near)) eq h =
          let same = some-injective (e.response, near) (r, sim) h in
          (
            k,
            e,
            subst (Answers s q now _ k e) (ap (λ p. p.1) same) (scan-Answers s q now _ k e near eq),
            ap (λ p. p.0) same,
            refl,
          )

  pub get-Tracked : (q : Query l) (now : ℕ) (s : Store l) → Tracked s → Tracked (get l q now s).0
  unfolding get
  get-Tracked q now s t = elim (Bool-cases (nat_beq (length s.entries) 0)) [
    | inl empty ↦ rw empty t
    | inr some_entry ↦
        rw some_entry (hit_of (scan l s q now (l.search s.graph q.vector search_k)) refl)
  ]
    where
      hit_of :
          (o : Option (Text × Entry l × l.Score))
          → scan l s q now (l.search s.graph q.vector search_k) ≡ o
          → Tracked (hit l s o).0
      hit_of none eq = t
      hit_of (some (k, e, near)) eq =
          let stored = (scan-Answers s q now _ k e near eq).stored in
          move_to_front-Tracked k s (t.same k ∙ ap is_some stored) t

  -- Right after `set` with a new key, before the entry expires, `get` with the same query returns the
  -- response, when the search of the index ranks that entry first and it is near enough.
  pub get-set :
      (key : Text) (q : Query l) (r : l.Response) (o : Option ℕ) (now later : ℕ) (s : Store l)
      (v : l.Vector) (nodes : List (Text × l.Vector))
      → lookup key s.entries ≡ none
      → Tracked s
      → 0 < s.max_vectors
      → later ≤ now + lifetime l s.ttl o
      → l.search (set l key q r o now s).graph q.vector search_k ≡ (key, v) ∷ nodes
      → l.less (l.similarity q.vector v) (set l key q r o now s).threshold ≡ false
      → (get l q later (set l key q r o now s)).1 ≡ some (r, l.similarity q.vector v)
  unfolding get scan
  get-set key q r o now later s v nodes fresh t room live first near =
      let u = set l key q r o now s in
      let kept = set-keeps_latest key q r o now s fresh t in
      let last : has key u.lru ≡ true =
        ap (has key) kept.1
        ∙ has-skip_last (suc (length s.lru) - s.max_vectors) key s.lru (omega arith) in
      let e = new_entry l q r o now s.ttl in
      let stored : lookup key u.entries ≡ some e =
        kept.2 key
        ∙ ground (arith, last, lookup-insert key key e s.entries, text_beq_iff key key) in
      let some_entry : nat_beq (length u.entries) 0 ≡ false = non_empty key e u.entries stored in
      let alive : ltb e.expires_at later ≡ false = ground arith in
      let same : same_guard q.guard q.guard ≡ true = same_guard_refl q.guard in
      rw (some_entry, first, scan, stored, near, alive, same) refl
