-- ===== src/Tests/Caches.antt =====
-- The theorems on the semantic cache at concrete inputs.
use llm_inference_gateway.Base.{
  ℕ, ◌+◌, ◌-◌, zero, suc, Option, sym, ap, ◌∙◌, ◌≤◌, ◌≡◌, refl, true, List, [], ◌∷◌, ◌++◌, none,
  some, if◌then◌else◌, Text, codes, length, ltb, nat_beq, text_eq, arith,
}
use mathlib.Core.Option.{some-injective}
use llm_inference_gateway.Base.Dict.{lookup, insert}
use llm_inference_gateway.Base.Keys.{has, skip}
use llm_inference_gateway.Semantic.{
  Library, Guard, Store, Query, new_store, get, set, new_entry, search_k, load_from_disk,
  save_to_disk, Gob, PersistedEntry, persisted, holds, evict_oldest, move_to_front, Entry,
}
use llm_inference_gateway.Semantic.Order.{Tracked, set-keeps_latest}
use llm_inference_gateway.Semantic.Bounds.{SizeLaws, FewOrphans, set-bounded}
use llm_inference_gateway.Semantic.Hits.{Answers, get-hit, get-set}
use llm_inference_gateway.Semantic.Disk.{alive, DiskLaws, load-save}
use llm_inference_gateway.Semantic.Life.{Reachable, fresh, after_set, Reachable-invariant}

-- An index that searches all its nodes, over vectors that are equal or far apart.
abbrev library : Library
library = record {
  Vector = ℕ;
  Score = ℕ;
  Graph = List (Text × ℕ);
  Response = Text;
  new_graph = λ m ef. [];
  add = λ k v g. (k, v) ∷ g;
  size = λ g. length g;
  search = λ g v k. g;
  similarity = λ a b. if nat_beq a b then 100 else 0;
  less = λ a b. ltb a b;
}

laws : SizeLaws library
laws = record { empty = λ m ef. refl; grows = λ k v g. omega arith }

abbrev guard : Guard
guard = record {
  tenant_id = codes "org";
  model = codes "gpt";
  tools_canonical = [];
  response_format_canonical = [];
}

abbrev query : ℕ → Query library
query v = record { guard = guard; vector = v }

abbrev empty_store : Store library
empty_store = new_store library 16 20 1 90 1000

-- Room for one entry, with one in it.
abbrev one : Store library
one = set library (codes "a") (query 1) (codes "hello") none 5 empty_store

one-Reachable : Reachable one
unfolding new_store
one-Reachable =
    after_set empty_store (codes "a") (query 1) (codes "hello") none 5 refl (fresh 16 20 1 1000 90)

invariant_example : Tracked one × FewOrphans laws one
invariant_example = Reachable-invariant laws one one-Reachable

one-Tracked : Tracked one
one-Tracked = (Reachable-invariant laws one one-Reachable).0

one-FewOrphans : FewOrphans laws one
one-FewOrphans = (Reachable-invariant laws one one-Reachable).1

-- A second entry takes the place of the first.
abbrev two : Store library
two = set library (codes "b") (query 2) (codes "bye") (some 50) 6 one

room_example :
    (length two.entries ≤ one.max_vectors) × (length two.graph ≤ one.max_vectors + one.max_vectors)
unfolding set new_store
room_example =
    set-bounded laws (codes "b") (query 2) (codes "bye") (some 50) 6 one refl one-Tracked
      one-FewOrphans

latest_example :
    Tracked two
    × (two.lru ≡ skip (suc (length one.lru) - one.max_vectors) (one.lru ++ codes "b" ∷ []))
    × ((j : Text)
        → lookup j two.entries ≡ (
            if has j two.lru
            then lookup j (
                insert
                  (codes "b")
                  (new_entry library (query 2) (codes "bye") (some 50) 6 one.ttl)
                  one.entries)
            else none))
unfolding set new_store
latest_example =
    set-keeps_latest (codes "b") (query 2) (codes "bye") (some 50) 6 one refl one-Tracked

get_example : (get library (query 2) 20 two).1 ≡ some (codes "bye", 100)
unfolding set new_store evict_oldest
get_example =
    get-set (codes "b") (query 2) (codes "bye") (some 50) 6 20 one 2 ((codes "a", 1) ∷ []) refl
      one-Tracked (omega arith) (omega arith) refl refl

hit_example :
    (k : Text) × (e : Entry library) × Answers two
      (query 2)
      20
      (library.search two.graph 2 search_k)
      k
      e
      100
    × (e.response ≡ codes "bye")
    × ((get library (query 2) 20 two).0 ≡ record two { lru = move_to_front library k two.lru })
unfolding set new_store evict_oldest get
hit_example = get-hit (query 2) 20 two (codes "bye") 100 refl

-- An encoder for at most one entry; each text is its units after a 1, and a 0.
abbrev put_text : Text → Text → Text
put_text [] rest = 0 ∷ rest
put_text (c ∷ t) rest = 1 ∷ c ∷ put_text t rest

abbrev take_text : Text → Text × Text
take_text [] = ([], [])
take_text (zero ∷ t) = ([], t)
take_text (suc k ∷ []) = ([], [])
take_text (suc k ∷ c ∷ t) = let rest = take_text t in (c ∷ rest.0, rest.1)

take_text-put_text : (t rest : Text) → take_text (put_text t rest) ≡ (t, rest)
take_text-put_text [] rest = refl
take_text-put_text (c ∷ t) rest = ap (λ p. (c ∷ p.0, p.1)) (take_text-put_text t rest)

abbrev encode_entry : PersistedEntry library → Text
encode_entry p = put_text p.key (
    put_text p.response (
      put_text p.tenant_id (
        put_text p.model (
          put_text p.tools_canonical
            (put_text p.response_format_canonical (p.vector ∷ p.expires_at ∷ []))))))

abbrev encode_all : List (PersistedEntry library) → Option Text
encode_all [] = none
encode_all (p ∷ []) = some (encode_entry p)
encode_all (p ∷ q ∷ ps) = none

abbrev number_at : ℕ → Text → ℕ
number_at n [] = 0
number_at zero (c ∷ t) = c
number_at (suc n) (c ∷ t) = number_at n t

abbrev decode_entry : Text → PersistedEntry library
decode_entry raw =
    let key = take_text raw in
    let response = take_text key.1 in
    let tenant = take_text response.1 in
    let model = take_text tenant.1 in
    let tools = take_text model.1 in
    let format = take_text tools.1 in
    record {
      key = key.0;
      response = response.0;
      tenant_id = tenant.0;
      model = model.0;
      tools_canonical = tools.0;
      response_format_canonical = format.0;
      vector = number_at 0 format.1;
      expires_at = number_at 1 format.1;
    }

abbrev gob : Gob library
gob = record { encode = encode_all; decode = λ raw. some (decode_entry raw ∷ []) }

decode-encode_entry : (p : PersistedEntry library) → decode_entry (encode_entry p) ≡ p
decode-encode_entry p = simp (take_text-put_text)

gob-laws : DiskLaws gob (λ es. es)
gob-laws = record {
  decodes = λ ps raw. decodes_all ps raw;
  visits_once = λ es d. d;
  visits_all = λ es j d. refl;
}
  where
    decodes_all :
        (ps : List (PersistedEntry library)) (raw : Text)
        → encode_all ps ≡ some raw
        → some (decode_entry raw ∷ []) ≡ some ps
    decodes_all [] raw e = absurd (ground arith)
    decodes_all (p ∷ []) raw e =
        ap (λ t. some (decode_entry t ∷ [])) (sym (some-injective (encode_entry p) raw e))
        ∙ ap (λ x. some (x ∷ [])) (decode-encode_entry p)
    decodes_all (p ∷ q ∷ ps) raw e = absurd (ground arith)

abbrev saved_bytes : Text
saved_bytes =
    encode_entry
      (persisted library (codes "b", new_entry library (query 2) (codes "bye") (some 50) 6 1000))

saved_example :
    let loaded =
      load_from_disk library gob 30 (holds saved_bytes) (new_store library 16 20 1 90 1000) in
    (loaded.1 ≡ true)
    × Tracked loaded.0
    × ((j : Text) → lookup j loaded.0.entries ≡ alive 30 (lookup j two.entries))
unfolding save_to_disk set new_store evict_oldest
saved_example =
    load-save gob (λ es. es) saved_bytes 30 16 20 1 1000 90 two gob-laws latest_example.0 refl
