-- ===== src/Tests/Operator.antt =====
-- The theorems on revoked keys and on the exact cache at concrete inputs.
use llm_inference_gateway.Base.{
  ℕ, Bool, ◌≡◌, ◌≢◌, refl, true, false, List, [], ◌∷◌, none, some, Text, codes, text_eq, arith,
}
use llm_inference_gateway.Base.Int.{pos}
use llm_inference_gateway.Adapter.{CanonicalRequest, cut_prefix}
use llm_inference_gateway.Base.Dict.{insert, remove, lookup}
use llm_inference_gateway.Auth.{resolve, resolved, Identity}
use llm_inference_gateway.Auth.Coherence.{Coherent}
use llm_inference_gateway.Auth.Keys.{Database, resolve_key, revoke_in}
use llm_inference_gateway.Auth.Admin.{handle_revoke_key}
use llm_inference_gateway.Auth.Revoked.{handle_revoke_key-stops}
use llm_inference_gateway.Exact.{Redis, Json, cache_key_of, set_cached}
use llm_inference_gateway.Tests.Requests.{codec, codec-IsCodec}

abbrev database : Database
database = record {
  keys =
      record {
        id = codes "k1";
        team_id = codes "t";
        key_hash = codes "h1";
        key_prefix = codes "sk-vk-ab";
        label = [];
        allowed_models = [];
        tpm_limit = none;
        revoked_at = none;
      }
      ∷ [];
  teams =
      (codes "t", record { org_id = codes "o"; org_tpm_limit = pos 100; team_tpm_limit = pos 50 })
      ∷ [];
}

empty-Coherent : Coherent codec (resolve_key true database) []
unfolding Coherent
empty-Coherent = λ h raw entry found_it read. absurd (ground (arith, found_it))

revoke_example :
    let after = handle_revoke_key (λ t. some t) codec true true (codes "k1") 7 database [] in
    (after.2 ≡ 204)
    × Coherent codec (resolve_key true after.0) after.1
    × ((plaintext : Text) (who : Identity) (get_up set_up : Bool)
        → codec.hash plaintext ≡ codes "h1"
        → (resolve codec (resolve_key true after.0) get_up set_up plaintext after.1).1
          ≢ resolved who)
unfolding revoke_in
revoke_example =
    handle_revoke_key-stops (λ t. some t) codec (codes "k1") (codes "k1") (codes "h1") 7 database []
      codec-IsCodec (refl, tt) empty-Coherent refl refl

-- A Redis that never fails and keeps entries for good; its patterns end in `*`.
abbrev keys_from : Text → List (Text × Text) → List Text
keys_from p [] = []
keys_from p ((k, v) ∷ s) =
    let rest = keys_from p s in elim (cut_prefix p k) [ none ↦ rest | some t ↦ k ∷ rest ]

abbrev without_last : Text → Text
without_last [] = []
without_last (c ∷ []) = []
without_last (c ∷ d ∷ t) = c ∷ without_last (d ∷ t)

abbrev dictionary : Redis
dictionary = record {
  State = List (Text × Text);
  get = λ key s. some (lookup key s);
  set = λ key payload ttl s. (insert key payload s, true);
  del = λ key s. (remove key s, true);
  scan = λ pattern s. (keys_from (without_last pattern) s, true);
}

abbrev json : Json ℕ Text
json = record {
  sort_keys = λ t. some t;
  encode_fields = λ q. some q.model;
  encode_response = λ r. some r;
  decode_response = λ t. some t;
  sha256 = λ t. t;
  hex = λ t. t;
}

-- One entry of the tenant o.
abbrev entries : List (Text × Text)
entries =
    (set_cached dictionary json 60 (cache_key_of json (codes "o") (codes "q")) (codes "a") none
      []).0

abbrev question : CanonicalRequest ℕ
question = record {
  model = codes "q";
  messages = [];
  temperature = some 0;
  top_p = none;
  max_tokens = none;
  stop = [];
  seed = none;
  response_format = [];
  tools = [];
  stream = false;
  user = [];
}
