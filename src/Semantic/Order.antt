-- ===== src/Semantic/Order.antt =====
-- internal/cache/semantic/semantic.go: the order of use and the entries it keeps.
use llm_inference_gateway.Base.{
  ℕ, zero, suc, ◌-◌, ◌≤◌, ◌<◌, ◌≡◌, refl, sym, ap, subst, ◌∙◌, true, List, [], ◌∷◌, ◌++◌, Option,
  none, if◌then◌else◌, length, length-append, Text, text_eq, text_beq_iff, arith, leb, Bool-cases,
  inl, inr,
}
use llm_inference_gateway.Base.Dict.{lookup, insert, remove, lookup-insert, lookup-remove}
use llm_inference_gateway.Base.Keys.{
  is_some, skip, has, Distinct, without, has-append, has-without, Distinct-append, Distinct-without,
  length-without, has-skip, DistinctKeys, DistinctKeys-insert, DistinctKeys-remove, length-insert,
  length-remove,
}
use llm_inference_gateway.Semantic.{
  Library, Store, Query, Entry, new_store, move_to_front, rebuild_graph_if_needed, evict_from,
  evict_oldest, evict_excess, store_entry, new_entry, put, set,
}

module _ {l : Library} where
  -- The order of use holds each key of the entries once.
  pub record Tracked (s : Store l) : Type 0 where
    pub once : Distinct s.lru
    pub keys : DistinctKeys s.entries
    pub same : (k : Text) → has k s.lru ≡ is_some (lookup k s.entries)
    pub count : length s.entries ≡ length s.lru

  pub new_store-Tracked :
      (m ef_search max_vectors ttl : ℕ) (threshold : l.Score)
      → Tracked (new_store l m ef_search max_vectors threshold ttl)
  unfolding new_store
  new_store-Tracked m ef_search max_vectors ttl threshold = record {
    once = tt;
    keys = tt;
    same = λ k. refl;
    count = refl;
  }

  -- Rebuilding the index leaves the order and the entries alone.
  pub rebuild-lru : (s : Store l) → (rebuild_graph_if_needed l s).lru ≡ s.lru
  unfolding rebuild_graph_if_needed
  rebuild-lru s = ground arith

  pub rebuild-entries : (s : Store l) → (rebuild_graph_if_needed l s).entries ≡ s.entries
  unfolding rebuild_graph_if_needed
  rebuild-entries s = ground arith

  pub rebuild-max : (s : Store l) → (rebuild_graph_if_needed l s).max_vectors ≡ s.max_vectors
  unfolding rebuild_graph_if_needed
  rebuild-max s = ground arith

  pub move_to_front-Tracked :
      (k : Text) (s : Store l)
      → has k s.lru ≡ true
      → Tracked s
      → Tracked (record s { lru = move_to_front l k s.lru })
  move_to_front-Tracked k s h t = record {
    once =
        Distinct-append (without k s.lru) k (Distinct-without k s.lru t.once)
          (ground (arith, has-without k k s.lru, text_beq_iff k k));
    keys = t.keys;
    same = λ j. ground (
      arith,
      t.same j,
      has-append j (without k s.lru) k,
      has-without k j s.lru,
      text_beq_iff k j,
    );
    count =
        ground (
          arith,
          t.count,
          length-append (without k s.lru) (k ∷ []),
          length-without k s.lru t.once h,
        );
  }

  pub put-Tracked :
      (k : Text) (e : Entry l) (s : Store l)
      → lookup k s.entries ≡ none
      → Tracked s
      → Tracked (put l k e s)
  put-Tracked k e s fresh t = record {
    once = Distinct-append s.lru k t.once (t.same k ∙ ap is_some fresh);
    keys = DistinctKeys-insert k _ s.entries t.keys;
    same = λ j. ground (arith, t.same j, has-append j s.lru k, lookup-insert k j e s.entries);
    count =
        ground (arith, t.count, length-append s.lru (k ∷ []), length-insert k e s.entries fresh);
  }

  -- What `t` keeps of `s` when the least recently used entries go.
  pub record Keeps (s t : Store l) : Type 0 where
    pub max : t.max_vectors ≡ s.max_vectors
    pub order : t.lru ≡ skip (length s.lru - s.max_vectors) s.lru
    pub held : (j : Text) → lookup j t.entries ≡ (if has j t.lru then lookup j s.entries else none)

  -- One eviction.
  evict_from-Tracked :
      (k : Text) (ks : List Text) (s : Store l)
      → s.lru ≡ k ∷ ks
      → Tracked s
      → Tracked (evict_from l (k ∷ ks) s)
  unfolding evict_from
  evict_from-Tracked k ks s eq t =
      let s' : Store l = record s { lru = ks; entries = remove k s.entries } in
      let once = subst Distinct eq t.once in
      let lru = rebuild-lru s' in
      let entries = rebuild-entries s' in
      let same : (j : Text) → has j (k ∷ ks) ≡ is_some (lookup j s.entries) =
        λ j. subst (λ ks. has j ks ≡ is_some (lookup j s.entries)) eq (t.same j) in
      record {
        once = subst Distinct (sym lru) once.1;
        keys = subst DistinctKeys (sym entries) (DistinctKeys-remove k s.entries t.keys);
        same = λ j.
            ap (has j) lru
            ∙ ground (arith, same j, once.0, lookup-remove k j s.entries, text_beq_iff k j)
            ∙ sym (ap (λ es. is_some (lookup j es)) entries);
        count =
            ap length entries
            ∙ ground (
              arith,
              subst (λ ks. length s.entries ≡ length ks) eq t.count,
              length-remove k s.entries t.keys,
              same k,
              text_beq_iff k k,
            )
            ∙ sym (ap length lru);
      }

  keep_all : (s : Store l) → Tracked s → length s.entries ≤ s.max_vectors → Keeps s s
  keep_all s t h =
      let none_over : length s.lru - s.max_vectors ≡ 0 = omega (arith, t.count) in
      record {
        max = refl;
        order = sym (ap (λ n. skip n s.lru) none_over);
        held = λ j. ground (arith, t.same j);
      }

  keep_step :
      (k : Text) (ks : List Text) (s u : Store l)
      → s.lru ≡ k ∷ ks
      → Tracked s
      → s.max_vectors < length s.entries
      → Keeps (evict_from l (k ∷ ks) s) u
      → Keeps s u
  unfolding evict_from
  keep_step k ks s u eq t h kept =
      let s' : Store l = record s { lru = ks; entries = remove k s.entries } in
      let rest : u.lru ≡ skip (length ks - s.max_vectors) ks =
        kept.order
        ∙ ap (λ xs. skip (length xs - (evict_from l (k ∷ ks) s).max_vectors) xs) (rebuild-lru s')
        ∙ ap (λ n. skip (length ks - n) ks) (rebuild-max s') in
      let once = subst Distinct eq t.once in
      let size : length s.entries ≡ suc (length ks) = t.count ∙ ap length eq in
      let over : suc (length ks) - s.max_vectors ≡ suc (length ks - s.max_vectors) = omega arith in
      let suffix : has k u.lru ≡ true → has k ks ≡ true =
        λ i. has-skip (length ks - s.max_vectors) k ks (sym (ap (has k) rest) ∙ i) in
      record {
        max = kept.max ∙ rebuild-max s';
        order =
            rest
            ∙ sym (ap (λ n. skip n (k ∷ ks)) over)
            ∙ ap (λ xs. skip (length xs - s.max_vectors) xs) (sym eq);
        held = λ j.
            kept.held j
            ∙ ap (λ es. if has j u.lru then lookup j es else none) (rebuild-entries s')
            ∙ ground (arith, suffix, once.0, lookup-remove k j s.entries, text_beq_iff k j);
      }

  pub evict_excess-Keeps :
      (fuel : ℕ) (ks : List Text) (s : Store l)
      → s.lru ≡ ks
      → Tracked s
      → length ks ≤ fuel
      → Tracked (evict_excess l fuel s) × Keeps s (evict_excess l fuel s)
  unfolding evict_excess evict_oldest evict_from
  evict_excess-Keeps zero [] s eq t h = (t, keep_all s t (omega (arith, t.count, ap length eq)))
  evict_excess-Keeps zero (k ∷ ks) s eq t h = absurd (omega arith)
  evict_excess-Keeps (suc fuel) [] s eq t h =
      let few : leb (length s.entries) s.max_vectors ≡ true =
        ground (arith, t.count, ap length eq) in
      rw (few, evict_excess) (t, keep_all s t (omega (arith, t.count, ap length eq)))
  evict_excess-Keeps (suc fuel) (k ∷ ks) s eq t h =
      elim (Bool-cases (leb (length s.entries) s.max_vectors)) [
        | inl few ↦ rw (few, evict_excess) (t, keep_all s t (ground arith))
        | inr more ↦
            let u = evict_from l (k ∷ ks) s in
            let step =
              evict_excess-Keeps fuel ks u
                (rebuild-lru (record s { lru = ks; entries = remove k s.entries }))
                (evict_from-Tracked k ks s eq t) (omega arith) in
            rw (more, evict_excess)
              (subst
                (λ xs.
                  Tracked (evict_excess l fuel (evict_from l xs s))
                  × Keeps s (evict_excess l fuel (evict_from l xs s)))
                (sym eq)
                (step.0, keep_step k ks s (evict_excess l fuel u) eq t (ground arith) step.1))
      ]

  pub set-Keeps :
      (key : Text) (q : Query l) (r : l.Response) (o : Option ℕ) (now : ℕ) (s : Store l)
      → lookup key s.entries ≡ none
      → Tracked s
      → Tracked (set l key q r o now s)
        × Keeps (store_entry l key q r o now s) (set l key q r o now s)
  unfolding set store_entry
  set-Keeps key q r o now s fresh t =
      let u = store_entry l key q r o now s in
      evict_excess-Keeps (length u.lru) u.lru u refl
        (put-Tracked key (new_entry l q r o now s.ttl) s fresh t) (omega arith)

  -- `set`, for a key that is new: it keeps the store tracked, and what is left is the
  -- `max_vectors` last used entries of those before and the new one, each unchanged.
  pub set-keeps_latest :
      (key : Text) (q : Query l) (r : l.Response) (o : Option ℕ) (now : ℕ) (s : Store l)
      → lookup key s.entries ≡ none
      → Tracked s
      → Tracked (set l key q r o now s)
        × ((set l key q r o now s).lru
            ≡ skip (suc (length s.lru) - s.max_vectors) (s.lru ++ key ∷ []))
        × ((j : Text)
            → lookup j (set l key q r o now s).entries ≡ (
                if has j (set l key q r o now s).lru
                then lookup j (insert key (new_entry l q r o now s.ttl) s.entries)
                else none))
  unfolding store_entry
  set-keeps_latest key q r o now s fresh t =
      let kept = set-Keeps key q r o now s fresh t in
      let longer : length (s.lru ++ key ∷ []) ≡ suc (length s.lru) =
        omega (arith, length-append s.lru (key ∷ [])) in
      (
        kept.0,
        kept.1.order ∙ ap (λ n. skip (n - s.max_vectors) (s.lru ++ key ∷ [])) longer,
        kept.1.held,
      )
