-- ===== src/Auth.antt =====
-- internal/auth: from a presented key to an identity, through a cache in front of the store, and
-- internal/server/auth.go, which reads the key from a request and answers one that is refused.
use llm_inference_gateway.Base.{
  ℕ, ◌≡◌, Bool, true, false, List, [], ◌∷◌, ◌++◌, Option, none, some, if◌then◌else◌, Text, codes,
  text_eq, nat_beq,
}
use llm_inference_gateway.Base.Dict.{lookup, insert, remove}
use llm_inference_gateway.Base.Int.{ℤ}
pub mod Coherence
pub mod Keys
pub mod Admin
pub mod Revoked

-- Ids are opaque; a UUID is known by its text.
pub record Identity : Type 0 where
  pub org_id : Text
  pub team_id : Text
  pub key_id : Text
  pub allowed_models : List Text
  pub org_tpm_limit : ℤ
  pub team_tpm_limit : ℤ
  pub key_tpm_limit : Option ℤ

pub record CachedEntry : Type 0 where
  pub identity : Identity
  pub revoked : Bool

-- Library calls: SHA-256, hexadecimal digits, and JSON of a cached entry both ways.
pub record Codec : Type 0 where
  pub hash : Text → Text
  pub hex : Text → Text
  pub marshal : CachedEntry → Option Text
  pub unmarshal : Text → Option CachedEntry

-- What the store answers for a hash: the identity and whether the key is revoked, `ErrNotFound`, or
-- a failure of its own.
pub data Answer : Type 0 where
  known : Identity → Bool → Answer
  absent failing : Answer

-- `Identity` and nil, or the error.
pub data Resolution : Type 0 where
  resolved : Identity → Resolution
  not_found revoked_key store_error : Resolution

-- The live entries of the cache.
abbrev pub Cache : Type 0
Cache = List (Text × Text)

unfoldable pub cache_key : Codec → Text → Text
cache_key k hash = codes "vk:" ++ k.hex hash

-- `c.cache.Get`: without `is_up`, or for a missing key, it is an error.
unfoldable pub cached : Codec → Bool → Text → Cache → Option CachedEntry
unfolding cache_key
cached k is_up hash cache =
    if is_up
    then (elim (lookup (cache_key k hash) cache) [ none ↦ none | some raw ↦ k.unmarshal raw ])
    else none

-- The best-effort write.
unfoldable pub remember : Codec → Bool → Text → CachedEntry → Cache → Cache
unfolding cache_key
remember k is_up hash entry cache = elim (k.marshal entry) [
  | none ↦ cache
  | some payload ↦ if is_up then insert (cache_key k hash) payload cache else cache
]

abbrev pub verdict : Identity → Bool → Resolution
verdict id revoked = if revoked then revoked_key else resolved id

-- What the resolver makes of the store's answer.
abbrev pub answered : Answer → Resolution
answered (known id revoked) = verdict id revoked
answered absent = not_found
answered failing = store_error

-- After a miss.
unfoldable pub resolve_from_store :
    Codec → (Text → Answer) → Bool → Text → Cache → Cache × Resolution
unfolding remember
resolve_from_store k store set_up hash cache = elim (store hash) [
  | known id revoked ↦ (
    remember k set_up hash (record { identity = id; revoked = revoked }) cache,
    verdict id revoked,
  )
  | absent ↦ (cache, not_found)
  | failing ↦ (cache, store_error)
]

-- `CachingResolver.Resolve`; the two flags are whether its read and its write reach the cache.
unfoldable pub resolve :
    Codec → (Text → Answer) → (get_up set_up : Bool) → Text → Cache → Cache × Resolution
unfolding cached resolve_from_store
resolve k store get_up set_up plaintext cache =
    let hash = k.hash plaintext in
    elim (cached k get_up hash cache) [
      | some entry ↦ (cache, verdict entry.identity entry.revoked)
      | none ↦ resolve_from_store k store set_up hash cache
    ]

-- `CachingResolver.Invalidate`, where it reaches the cache; `false` is an error.
unfoldable pub invalidate : Codec → Bool → Text → Cache → Cache × Bool
unfolding cache_key
invalidate k is_up hash cache =
    if is_up then (remove (cache_key k hash) cache, true) else (cache, false)

-- `strings.HasPrefix` and what follows it.
abbrev after_prefix : Text → Text → Option Text
after_prefix [] h = some h
after_prefix (p ∷ ps) [] = none
after_prefix (p ∷ ps) (c ∷ h) = if nat_beq p c then after_prefix ps h else none

-- `bearerToken`, on the Authorization header; an empty token is none.
unfoldable pub bearer_token : Text → Option Text
bearer_token header = elim (after_prefix (codes "Bearer ") header) [
  | none ↦ none
  | some [] ↦ none
  | some (c ∷ token) ↦ some (c ∷ token)
]

-- `withBearerAuth`: the next handler runs with an identity, or the request is answered with a status.
pub data Gate : Type 0 where
  pass : Identity → Gate
  refuse : ℕ → Gate

unfoldable pub gate_of : Resolution → Gate
gate_of (resolved id) = pass id
gate_of not_found = refuse 401
gate_of revoked_key = refuse 401
gate_of store_error = refuse 500

unfoldable pub with_bearer_auth :
    Codec → (Text → Answer) → (get_up set_up : Bool) → Text → Cache → Cache × Gate
unfolding bearer_token gate_of
with_bearer_auth k store get_up set_up header cache = elim (bearer_token header) [
  | none ↦ (cache, refuse 401)
  | some token ↦ let (cache', r) = resolve k store get_up set_up token cache in (cache', gate_of r)
]
