-- ===== src/Exact/Tenants.antt =====
-- internal/cache/exact/exact.go: what one tenant's calls do to the entries of others.
use llm_inference_gateway.Base.{
  ℕ, ◌≡◌, Bool, true, false, ◌||◌, [], ◌∷◌, ◌++◌, none, some, Text, if◌then◌else◌, text_eq, ◌==◌,
  nat_beq, All, ◌⊎◌,
}
use llm_inference_gateway.Base.Keys.{has}
use llm_inference_gateway.Adapter.{CanonicalRequest}
use llm_inference_gateway.Exact.{Json, Redis, canonicalize_json}

-- A name without a colon and without the signs of Redis patterns, as a UUID is.
abbrev pub is_special : ℕ → Bool
is_special c = nat_beq c 58 || nat_beq c 42 || nat_beq c 63 || nat_beq c 91 || nat_beq c 92

abbrev pub IsPlain : Text → Type 0
IsPlain t = All (λ c. is_special c ≡ false) t

-- A text without the signs of Redis patterns.
abbrev pub IsLiteral : Text → Type 0
IsLiteral t = All (λ c. (nat_beq c 42 || nat_beq c 63 || nat_beq c 91 || nat_beq c 92) ≡ false) t

-- What the code relies on of Redis: a SET that succeeds is read back, and whether it succeeds or not it
-- changes no other key; a DEL that succeeds removes its key and no other; and a SCAN whose pattern is a literal
-- text and a final `*` gives the keys that begin with the text: all of them if it ends well.
pub record RedisLaws (redis : Redis) : Type 0 where
  pub get_set :
      (key payload : Text) (ttl : ℕ) (s : redis.State)
      → (redis.set key payload ttl s).1 ≡ true
      → redis.get key (redis.set key payload ttl s).0 ≡ some (some payload)
  pub set_elsewhere :
      (key payload : Text) (ttl : ℕ) (j : Text) (s : redis.State)
      → (key == j) ≡ false
      → redis.get j (redis.set key payload ttl s).0 ≡ redis.get j s
  pub get_del :
      (key j : Text) (s : redis.State)
      → (redis.del key s).1 ≡ true
      → redis.get j (redis.del key s).0 ≡ (if key == j then some none else redis.get j s)
  pub scan_all :
      (prefix : Text) (s : redis.State) (rest : Text)
      → IsLiteral prefix
      → (redis.scan (prefix ++ 42 ∷ []) s).1 ≡ true
      → (redis.get (prefix ++ rest) s ≡ some none)
        ⊎ (has (prefix ++ rest) (redis.scan (prefix ++ 42 ∷ []) s).0 ≡ true)
  pub scan_only :
      (prefix : Text) (s : redis.State)
      → IsLiteral prefix
      → All (λ k. (rest : Text) × (k ≡ prefix ++ rest)) (redis.scan (prefix ++ 42 ∷ []) s).0

module _ {F R : Type 0} (j : Json F R) where
  -- Two requests that differ at most in their stream and user, and in the order of the keys of their
  -- JSON parts.
  pub record SameRequest (q q' : CanonicalRequest F) : Type 0 where
    pub same_model : q.model ≡ q'.model
    pub same_messages : q.messages ≡ q'.messages
    pub same_temperature : q.temperature ≡ q'.temperature
    pub same_top_p : q.top_p ≡ q'.top_p
    pub same_max_tokens : q.max_tokens ≡ q'.max_tokens
    pub same_stop : q.stop ≡ q'.stop
    pub same_seed : q.seed ≡ q'.seed
    pub same_format : canonicalize_json j q.response_format ≡ canonicalize_json j q'.response_format
    pub same_tools : canonicalize_json j q.tools ≡ canonicalize_json j q'.tools
