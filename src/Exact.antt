-- ===== src/Exact.antt =====
-- internal/cache/exact/exact.go: the Tier-1 cache. JSON, SHA-256, hexadecimal digits and Redis are
-- fields of parameters.
use llm_inference_gateway.Base.{
  ℕ, Bool, true, false, List, [], ◌∷◌, ◌++◌, Option, none, some, suc, Text, codes,
}
use llm_inference_gateway.Base.Int.{ℤ}
use llm_inference_gateway.Exchange.{Message}
use llm_inference_gateway.Adapter.{CanonicalRequest}
pub mod Tenants

pub record CanonicalFields (F : Type 0) : Type 0 where
  pub model : Text
  pub messages : List Message
  pub temperature : Option F
  pub top_p : Option F
  pub max_tokens : Option ℤ
  pub stop : List Text
  pub seed : Option ℤ
  pub response_format : Text
  pub tools : Text

-- `sort_keys` is `json.Unmarshal` and `json.Marshal` of a value.
pub record Json (F R : Type 0) : Type 0 where
  pub sort_keys : Text → Option Text
  pub encode_fields : CanonicalFields F → Option Text
  pub encode_response : R → Option Text
  pub decode_response : Text → Option R
  pub sha256 : Text → Text
  pub hex : Text → Text

-- `get` is `none` where it fails and `some none` for a key that is missing; `false` is an error. `scan`
-- gives the keys of the iteration over a pattern, and whether it ended well.
pub record Redis : Type 1 where
  pub State : Type 0
  pub get : Text → State → Option (Option Text)
  pub set : Text → Text → ℕ → State → State × Bool
  pub del : Text → State → State × Bool
  pub scan : Text → State → List Text × Bool

-- The results of `Store.Get`.
pub data Reading (R : Type 0) : Type 0 where
  found : R → Reading R
  missing broken : Reading R

abbrev pub key_prefix : Text → Text
key_prefix tenant = codes "cache:exact:" ++ tenant ++ codes ":"

-- The pattern of a tenant's keys.
abbrev pub key_pattern : Text → Text
key_pattern tenant = codes "cache:exact:" ++ tenant ++ codes ":*"

abbrev pub cached_for : ℕ → Option ℕ → ℕ
cached_for ttl none = ttl
cached_for ttl (some override) = override

module _ {F R : Type 0} where
  abbrev pub canonicalize_json : Json F R → Text → Option Text
  canonicalize_json j [] = some []
  canonicalize_json j (c ∷ raw) = j.sort_keys (c ∷ raw)

  unfoldable pub canonicalize : Json F R → CanonicalRequest F → Option Text
  canonicalize j q = elim (canonicalize_json j q.response_format) [
    | none ↦ none
    | some response_format ↦ elim (canonicalize_json j q.tools) [
      | none ↦ none
      | some tools ↦ j.encode_fields (record {
        model = q.model;
        messages = q.messages;
        temperature = q.temperature;
        top_p = q.top_p;
        max_tokens = q.max_tokens;
        stop = q.stop;
        seed = q.seed;
        response_format = response_format;
        tools = tools;
      })
    ]
  ]

  unfoldable pub cache_key_of : Json F R → Text → Text → Text
  cache_key_of j tenant canonical = key_prefix tenant ++ j.hex (j.sha256 canonical)

  abbrev pub reading_of : Json F R → Option (Option Text) → Reading R
  reading_of j none = broken
  reading_of j (some none) = missing
  reading_of j (some (some raw)) = elim (j.decode_response raw) [ none ↦ broken | some r ↦ found r ]

  module _ (redis : Redis) where
    unfoldable pub get_cached : Json F R → Text → redis.State → Reading R
    get_cached j key s = reading_of j (redis.get key s)

    unfoldable pub set_cached :
        Json F R → ℕ → Text → R → Option ℕ → redis.State → redis.State × Bool
    set_cached j ttl key r override s = elim (j.encode_response r) [
      | none ↦ (s, false)
      | some payload ↦ redis.set key payload (cached_for ttl override) s
    ]

-- The loop of `PurgeTenant`, with the number deleted so far and the end of the iteration.
module _ (redis : Redis) where
  unfoldable pub delete_all : List Text → Bool → ℕ → redis.State → redis.State × ℕ × Bool
  delete_all [] ended deleted s = (s, deleted, ended)
  delete_all (key ∷ keys) ended deleted s =
      let (s', done) = redis.del key s in
      elim done [ false ↦ (s', deleted, false) | true ↦ delete_all keys ended (suc deleted) s' ]

  unfoldable pub purge_tenant : Text → redis.State → redis.State × ℕ × Bool
  unfolding delete_all
  purge_tenant tenant s =
      let (keys, ended) = redis.scan (key_pattern tenant) s in delete_all keys ended 0 s
