-- ===== src/Auth/Revoked.antt =====
-- internal/server/admin.go, internal/auth/store.go and internal/auth/resolver.go: a revoked key.
use llm_inference_gateway.Base.{
  ℕ, ◌≡◌, ◌≢◌, refl, sym, ap, ◌∙◌, Bool, true, false, ◌&&◌, List, [], ◌∷◌, Option, some, Text,
  text_eq, text_beq_iff, ◌==◌, arith, Bool-cases, inl, inr,
}
use llm_inference_gateway.Base.Keys.{has, Distinct}
use mathlib.Core.Option.{some-injective}
use llm_inference_gateway.Auth.{Identity, Codec, Cache, resolved, answered, resolve, invalidate}
use llm_inference_gateway.Auth.Coherence.{IsCodec, Coherent, resolve-store, invalidate-Coherent}
use llm_inference_gateway.Auth.Keys.{
  KeyRow, TeamRow, Database, is_active, revoke_in, revoke_key, find_key, answer_of, resolve_key,
}
use llm_inference_gateway.Auth.Admin.{after_revocation, handle_revoke_key}

abbrev pub hashes : List KeyRow → List Text
hashes [] = []
hashes (row ∷ rows) = row.key_hash ∷ hashes rows

-- The UPDATE changes the answer for the hash that it returns and for no other.
revoke_in-others :
    (id : Text) (now : ℕ) (rows : List KeyRow) (h h' : Text)
    → (revoke_in id now rows).1 ≡ some h
    → h' ≢ h
    → find_key h' (revoke_in id now rows).0 ≡ find_key h' rows
unfolding revoke_in find_key
revoke_in-others id now [] h h' = λ e n. refl
revoke_in-others id now (row ∷ rows) h h' =
    elim (Bool-cases (row.id == id && is_active row.revoked_at)) [
      | inl hit ↦
          rw (hit, revoke_in)
            (λ e n.
              let same = some-injective row.key_hash h e in
              ground (arith, text_beq_iff row.key_hash h', same, n))
      | inr pass ↦
          rw (pass, revoke_in) (λ e n. ground (arith, revoke_in-others id now rows h h' e n))
    ]

revoke_in-found :
    (id : Text) (now : ℕ) (rows : List KeyRow) (h : Text)
    → (revoke_in id now rows).1 ≡ some h
    → has h (hashes rows) ≡ true
unfolding revoke_in
revoke_in-found id now [] h = λ e. absurd (ground arith)
revoke_in-found id now (row ∷ rows) h =
    elim (Bool-cases (row.id == id && is_active row.revoked_at)) [
      | inl hit ↦
          rw (hit, revoke_in)
            (λ e. ground (arith, text_beq_iff row.key_hash h, some-injective row.key_hash h e))
      | inr pass ↦ rw (pass, revoke_in) (λ e. ground (arith, revoke_in-found id now rows h e))
    ]

revoke_in-revoked :
    (id : Text) (now : ℕ) (rows : List KeyRow) (h : Text)
    → Distinct (hashes rows)
    → (revoke_in id now rows).1 ≡ some h
    → (row : KeyRow) × (find_key h (revoke_in id now rows).0 ≡ some row)
      × (row.revoked_at ≡ some now)
unfolding revoke_in find_key
revoke_in-revoked id now [] h d = λ e. absurd (ground arith)
revoke_in-revoked id now (row ∷ rows) h d =
    elim (Bool-cases (row.id == id && is_active row.revoked_at)) [
      | inl hit ↦
          rw (hit, revoke_in)
            (λ e.
              let same : (row.key_hash == h) ≡ true =
                (text_beq_iff row.key_hash h).1 (some-injective row.key_hash h e) in
              rw (same, find_key) (record row { revoked_at = some now }, refl, refl))
      | inr pass ↦
          rw (pass, revoke_in)
            (λ e.
              let rest = revoke_in-revoked id now rows h d.1 e in
              let other : (row.key_hash == h) ≡ false =
                ground (arith, text_beq_iff row.key_hash h, revoke_in-found id now rows h e, d.0) in
              rw (other, find_key) rest)
    ]

answer_of-revoked :
    (teams : List (Text × TeamRow)) (row : KeyRow) (now : ℕ) (who : Identity)
    → row.revoked_at ≡ some now
    → answered (answer_of teams (some row)) ≢ resolved who
answer_of-revoked teams row now who gone = λ e. ground (arith, gone, e)

-- After an answer of 204, with the cache within reach, the cache still agrees with the store, and no
-- presented key with the hash of the revoked one resolves to an identity.
pub handle_revoke_key-stops :
    (parse_uuid : Text → Option Text) (k : Codec) (path id h : Text) (now : ℕ) (db : Database)
    (cache : Cache)
    → IsCodec k
    → Distinct (hashes db.keys)
    → Coherent k (resolve_key true db) cache
    → parse_uuid path ≡ some id
    → (revoke_in id now db.keys).1 ≡ some h
    → let after = handle_revoke_key parse_uuid k true true path now db cache in
      (after.2 ≡ 204)
      × Coherent k (resolve_key true after.0) after.1
      × ((plaintext : Text) (who : Identity) (get_up set_up : Bool)
          → k.hash plaintext ≡ h
          → (resolve k (resolve_key true after.0) get_up set_up plaintext after.1).1 ≢ resolved who)
unfolding handle_revoke_key revoke_key after_revocation resolve_key
handle_revoke_key-stops parse_uuid k path id h now db cache codec distinct coherent parsed hit =
    let db' : Database = record db { keys = (revoke_in id now db.keys).0 } in
    let cache' = (invalidate k true h cache).0 in
    let kept : Coherent k (resolve_key true db') cache' =
      invalidate-Coherent k (resolve_key true db) (resolve_key true db') h cache codec
        (λ h' n. ap (answer_of db.teams) (revoke_in-others id now db.keys h h' hit n)) coherent in
    let gone = revoke_in-revoked id now db.keys h distinct hit in
    rw (parsed, handle_revoke_key)
      (rw (hit, revoke_key)
        (
          refl,
          kept,
          λ plaintext who get_up set_up same r. answer_of-revoked db.teams gone.0 now who gone.2 (
              sym (ap (λ o. answered (answer_of db.teams o)) gone.1)
              ∙ sym (ap (λ x. answered (resolve_key true db' x)) same)
              ∙ sym
                  (resolve-store k (resolve_key true db') get_up set_up plaintext cache' codec
                    kept).0
              ∙ r),
        ))
