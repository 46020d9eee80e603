-- ===== src/Auth/Coherence.antt =====
-- internal/auth/resolver.go: the cache against the store behind it.
use llm_inference_gateway.Base.{
  ◌≡◌, ◌≢◌, refl, Bool, true, false, none, some, if◌then◌else◌, Text, text_eq, text_beq_iff, arith,
  Bool-cases, Option-cases, inl, inr, ◌⊎◌, sym, ap, ◌∙◌, ◌==◌,
}
use llm_inference_gateway.Base.Dict.{lookup, insert, lookup-insert, lookup-remove}
use llm_inference_gateway.Auth.{
  Identity, CachedEntry, Codec, Answer, known, absent, failing, Cache, cache_key, cached, remember,
  answered, resolve_from_store, resolve, invalidate,
}

-- What the code relies on: hexadecimal digits tell hashes apart, and JSON reads back what it wrote.
pub record IsCodec (k : Codec) : Type 0 where
  pub hex_injective : (h h' : Text) → k.hex h ≡ k.hex h' → h ≡ h'
  pub round_trip :
      (entry : CachedEntry) (raw : Text) → k.marshal entry ≡ some raw → k.unmarshal raw ≡ some entry

-- Every entry that can be read says what the store says.
unfoldable pub Coherent : Codec → (Text → Answer) → Cache → Type 0
Coherent k store cache =
    (h raw : Text) (entry : CachedEntry)
    → lookup (cache_key k h) cache ≡ some raw
    → k.unmarshal raw ≡ some entry
    → store h ≡ known entry.identity entry.revoked

cache_key-injective :
    (k : Codec) → IsCodec k → (h h' : Text) → cache_key k h ≡ cache_key k h' → h ≡ h'
unfolding cache_key
cache_key-injective k c h h' e = c.hex_injective h h' (ground arith)

coh_at :
    (k : Codec) (store : Text → Answer) (cache : Cache)
    → Coherent k store cache
    → (h raw : Text) (entry : CachedEntry) → lookup (cache_key k h) cache ≡ some raw
    → k.unmarshal raw ≡ some entry
    → store h ≡ known entry.identity entry.revoked
unfolding Coherent
coh_at k store cache coh = coh

cached-lookup :
    (k : Codec) (is_up : Bool) (h : Text) (cache : Cache) (entry : CachedEntry)
    → cached k is_up h cache ≡ some entry
    → (raw : Text) × (lookup (cache_key k h) cache ≡ some raw) × (k.unmarshal raw ≡ some entry)
unfolding cached
cached-lookup k false h cache entry e = ground arith
cached-lookup k true h cache entry e = elim (Option-cases (lookup (cache_key k h) cache)) [
  | inl miss ↦ absurd (ground arith)
  | inr (raw, found) ↦ (raw, found, ground arith)
]

some-injective {ℓ} : {A : Type ℓ} {a b : A} → some a ≡ some b → a ≡ b
some-injective e = ground arith

if_true {ℓ} : {A : Type ℓ} {b : Bool} (x y : A) → b ≡ true → (if b then x else y) ≡ x
if_true x y e = rw e refl

if_false {ℓ} : {A : Type ℓ} {b : Bool} (x y : A) → b ≡ false → (if b then x else y) ≡ y
if_false x y e = rw e refl

-- A coherent cache stays so when the entry of `h` becomes one that says what the store says.
insert-Coherent :
    (k : Codec) (store : Text → Answer) (h payload : Text) (entry : CachedEntry) (cache : Cache)
    → IsCodec k
    → store h ≡ known entry.identity entry.revoked
    → k.unmarshal payload ≡ some entry
    → Coherent k store cache
    → Coherent k store (insert (cache_key k h) payload cache)
unfolding Coherent
insert-Coherent k store h payload entry cache c says reads coh = λ h' raw entry' found read.
    let kept = lookup-insert (cache_key k h) (cache_key k h') payload cache in
    elim (Bool-cases (cache_key k h == cache_key k h')) [
      | inl eq ↦
          let p = cache_key-injective k c h h' ((text_beq_iff _ _).0 eq) in
          let q =
            some-injective (
              sym (if_true (some payload) (lookup (cache_key k h') cache) eq) ∙ sym kept ∙ found) in
          let same = some-injective (sym reads ∙ ap (λ t. k.unmarshal t) q ∙ read) in
          sym (ap store p) ∙ says ∙ ap (λ (x : CachedEntry). known x.identity x.revoked) same
      | inr ne ↦
          coh h' raw entry'
            (sym (if_false (some payload) (lookup (cache_key k h') cache) ne) ∙ sym kept ∙ found)
            read
    ]

remember-Coherent :
    (k : Codec) (store : Text → Answer) (is_up : Bool) (h : Text) (entry : CachedEntry)
    (cache : Cache)
    → IsCodec k
    → store h ≡ known entry.identity entry.revoked
    → Coherent k store cache
    → Coherent k store (remember k is_up h entry cache)
unfolding remember
remember-Coherent k store is_up h entry cache c says coh = elim (Option-cases (k.marshal entry)) [
  | inl unwritten ↦ rw (unwritten, remember) coh
  | inr (payload, written) ↦ elim (Bool-cases is_up) [
    | inl up ↦
        rw (written, up, remember)
          (insert-Coherent k store h payload entry cache c says (c.round_trip entry payload written)
            coh)
    | inr down ↦ rw (written, down, remember) coh
  ]
]

Answer-cases :
    (a : Answer)
    → ((id : Identity) × (revoked : Bool) × (a ≡ known id revoked)) ⊎ ((a ≡ absent) ⊎ (a ≡ failing))
Answer-cases (known id revoked) = inl (id, revoked, refl)
Answer-cases absent = inr (inl refl)
Answer-cases failing = inr (inr refl)

-- The answer through the cache is the store's own, whether the cache is up or not, and the cache
-- stays coherent. The cache is coherent before, and the codec behaves as its libraries document.
pub resolve-store :
    (k : Codec) (store : Text → Answer) (get_up set_up : Bool) (plaintext : Text) (cache : Cache)
    → IsCodec k
    → Coherent k store cache
    → let r = resolve k store get_up set_up plaintext cache in
      (r.1 ≡ answered (store (k.hash plaintext))) × Coherent k store r.0
unfolding resolve resolve_from_store
resolve-store k store get_up set_up plaintext cache c coh =
    let h = k.hash plaintext in
    elim (Option-cases (cached k get_up h cache)) [
      | inl miss ↦ elim (Answer-cases (store h)) [
        | inl (id, revoked, says) ↦
            rw (miss, resolve)
              (rw (says, resolve_from_store)
                (
                  refl,
                  remember-Coherent k store set_up h (record { identity = id; revoked = revoked })
                      cache c says coh,
                ))
        | inr (inl says) ↦ rw (miss, resolve) (rw (says, resolve_from_store) (refl, coh))
        | inr (inr says) ↦ rw (miss, resolve) (rw (says, resolve_from_store) (refl, coh))
      ]
      | inr (entry, hit) ↦
          let (raw, found, read) = cached-lookup k get_up h cache entry hit in
          rw (hit, resolve)
            (sym (ap answered (coh_at k store cache coh h raw entry found read)), coh)
    ]

-- A revocation takes effect at once: when the store's answer for one hash changes and its cache
-- entry is deleted, a cache that was coherent with the old answers is coherent with the new ones.
-- The other answers are the same, and the codec behaves as its libraries document.
pub invalidate-Coherent :
    (k : Codec) (store store' : Text → Answer) (h : Text) (cache : Cache)
    → IsCodec k
    → ((h' : Text) → h' ≢ h → store' h' ≡ store h')
    → Coherent k store cache
    → Coherent k store' (invalidate k true h cache).0
unfolding invalidate Coherent
invalidate-Coherent k store store' h cache c same coh = λ h' raw entry' found read.
    let kept = lookup-remove (cache_key k h) (cache_key k h') cache in
    elim (Bool-cases (cache_key k h == cache_key k h')) [
      | inl eq ↦
          let gone = sym (if_true none (lookup (cache_key k h') cache) eq) ∙ sym kept ∙ found in
          absurd (ground (arith, gone))
      | inr ne ↦
          let other = if_false none (lookup (cache_key k h') cache) ne in
          same h' (λ e. absurd (
            ground (
              arith,
              (text_beq_iff (cache_key k h) (cache_key k h')).1 (ap (cache_key k) (sym e)),
            )))
          ∙ coh h' raw entry' (sym other ∙ sym kept ∙ found) read
    ]
