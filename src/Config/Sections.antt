-- ===== src/Config/Sections.antt =====
-- internal/config/config.go: the constraints on each section, for its `validate` method.
use llm_inference_gateway.Base.{
  ℕ, ◌≡◌, refl, ◌↔◌, ◌≢◌, ◌⊎◌, Bool, true, false, List, [], ◌∷◌, ◌++◌, arith, All, Text, codes,
  text_beq_iff,
}
use llm_inference_gateway.Base.Int.{ℤ, pos, ◌≤ℤ◌}
use llm_inference_gateway.Config.{
  Float, Message, reports, is_empty, is_log_level, ServerConfig, RedisConfig, PostgresConfig,
  ProviderConfig, BreakerConfig, RetryConfig, CacheConfig, RateLimitConfig, LedgerConfig,
  ObservabilityConfig, Config, validate_provider, validate_exact, validate_semantic,
  validate_server, validate_redis, validate_postgres, validate_breaker, validate_retry,
  validate_cache, validate_rate_limit, validate_ledger, validate_observability,
}

abbrev pub Passes : Bool × Message → Type 0
Passes (failed, m) = failed ≡ false

pub reports-nil : (ts : List (Bool × Message)) → (reports ts ≡ []) ↔ All Passes ts
unfolding reports
reports-nil [] = ((λ _. tt), (λ _. refl))
reports-nil ((failed, m) ∷ ts) = ground (arith, reports-nil ts)

pub split-All :
    (xs ys : List (Bool × Message)) → All Passes (xs ++ ys) → All Passes xs × All Passes ys
split-All [] ys a = (tt, a)
split-All (x ∷ xs) ys a = let (p, q) = split-All xs ys a.1 in ((a.0, p), q)

abbrev pub Positive : ℤ → Type 0
Positive x = pos 1 ≤ℤ x

abbrev pub NonNegative : ℤ → Type 0
NonNegative x = pos 0 ≤ℤ x

-- In (0, 1], and in [0, 1], or not a number: every comparison of the code is false of a NaN.
abbrev pub InUnit : Float → Type 0
InUnit f = (f.is_negative ≡ false) × (f.is_zero ≡ false) × (f.exceeds_one ≡ false)

abbrev pub IsRate : Float → Type 0
IsRate f = (f.is_negative ≡ false) × (f.exceeds_one ≡ false)

pub record IsServer (c : ServerConfig) : Type 0 where
  pub addr_given : c.addr ≢ []
  pub read_positive : Positive c.read_timeout
  pub request_positive : Positive c.request_timeout
  pub body_positive : Positive c.max_body_bytes
  pub shutdown_positive : Positive c.shutdown_timeout

pub record IsProvider (c : ProviderConfig) : Type 0 where
  pub name_given : c.name ≢ []
  pub type_known :
      (c.type ≡ codes "openai") ⊎ ((c.type ≡ codes "anthropic") ⊎ (c.type ≡ codes "mock"))
  pub priority_nonneg : NonNegative c.priority
  pub weight_nonneg : NonNegative c.weight
  pub timeout_positive : Positive c.timeout
  pub rate_bounded : IsRate c.failure_rate
  pub url_given : (c.type ≡ codes "mock") ⊎ (c.base_url ≢ [])
  pub key_given : (c.type ≡ codes "mock") ⊎ (c.api_key_env ≢ [])

pub record IsBreaker (c : BreakerConfig) : Type 0 where
  pub threshold_bounded : InUnit c.error_rate_threshold
  pub requests_positive : Positive c.min_requests
  pub window_positive : Positive c.window
  pub cooldown_positive : Positive c.cooldown
  pub cooldown_ordered : c.cooldown ≤ℤ c.cooldown_max
  pub probes_positive : Positive c.half_open_probes
  pub interval_positive : Positive c.prober_interval

pub record IsRetry (c : RetryConfig) : Type 0 where
  pub attempts_positive : Positive c.max_attempts_per_provider
  pub backoff_positive : Positive c.base_backoff
  pub backoff_ordered : c.base_backoff ≤ℤ c.max_backoff

pub record IsCache (c : CacheConfig) : Type 0 where
  pub max_ttl_nonneg : NonNegative c.max_client_ttl
  pub exact_valid : (c.exact.enabled ≡ false) ⊎ Positive c.exact.ttl
  pub semantic_valid :
      (c.semantic.enabled ≡ false)
      ⊎ (InUnit c.semantic.threshold
          × Positive c.semantic.max_vectors
          × Positive c.semantic.ttl
          × Positive c.semantic.hnsw_m
          × Positive c.semantic.hnsw_ef_search)

pub record IsLedger (c : LedgerConfig) : Type 0 where
  pub buffer_positive : Positive c.buffer_size
  pub batch_positive : Positive c.batch_size
  pub interval_positive : Positive c.flush_interval

-- Every constraint on every section.
pub record IsConfig (c : Config) : Type 0 where
  pub server_valid : IsServer c.server
  pub redis_valid : (c.redis.addr ≢ []) × Positive c.redis.dial_timeout
  pub postgres_valid : (c.postgres.dsn_env ≢ []) × Positive c.postgres.ping_timeout
  pub providers_valid : All IsProvider c.providers
  pub breaker_valid : IsBreaker c.breaker
  pub retry_valid : IsRetry c.retry
  pub cache_valid : IsCache c.cache
  pub rate_limit_valid :
      Positive c.rate_limit.default_tpm × NonNegative c.rate_limit.estimate_completion_tokens
  pub ledger_valid : IsLedger c.ledger
  pub level_valid : is_log_level c.observability.log_level ≡ true

empty_iff : (t : Text) → (is_empty t ≡ false) ↔ (t ≢ [])
empty_iff [] = ground arith
empty_iff (x ∷ t) = ground arith

pub IsServer-iff : (c : ServerConfig) → All Passes (validate_server c) ↔ IsServer c
unfolding validate_server
IsServer-iff c = ground (arith, empty_iff c.addr)

pub redis_iff :
    (c : RedisConfig) → All Passes (validate_redis c) ↔ ((c.addr ≢ []) × Positive c.dial_timeout)
unfolding validate_redis
redis_iff c = ground (arith, empty_iff c.addr)

pub postgres_iff :
    (c : PostgresConfig)
    → All Passes (validate_postgres c) ↔ ((c.dsn_env ≢ []) × Positive c.ping_timeout)
unfolding validate_postgres
postgres_iff c = ground (arith, empty_iff c.dsn_env)

pub IsProvider-iff :
    (i : ℕ) (c : ProviderConfig) → All Passes (validate_provider i c) ↔ IsProvider c
unfolding validate_provider
IsProvider-iff i c = ground (
  arith,
  empty_iff c.name,
  empty_iff c.base_url,
  empty_iff c.api_key_env,
  text_beq_iff c.type (codes "openai"),
  text_beq_iff c.type (codes "anthropic"),
  text_beq_iff c.type (codes "mock"),
)

pub IsBreaker-iff : (c : BreakerConfig) → All Passes (validate_breaker c) ↔ IsBreaker c
unfolding validate_breaker
IsBreaker-iff c = ground arith

pub IsRetry-iff : (c : RetryConfig) → All Passes (validate_retry c) ↔ IsRetry c
unfolding validate_retry
IsRetry-iff c = ground arith

pub IsCache-iff : (c : CacheConfig) → All Passes (validate_cache c) ↔ IsCache c
unfolding validate_cache validate_exact validate_semantic
IsCache-iff c = ground arith

pub rate_limit_iff :
    (c : RateLimitConfig)
    → All Passes (validate_rate_limit c)
      ↔ (Positive c.default_tpm × NonNegative c.estimate_completion_tokens)
unfolding validate_rate_limit
rate_limit_iff c = ground arith

pub IsLedger-iff : (c : LedgerConfig) → All Passes (validate_ledger c) ↔ IsLedger c
unfolding validate_ledger
IsLedger-iff c = ground arith

pub observability_iff :
    (c : ObservabilityConfig)
    → All Passes (validate_observability c) ↔ (is_log_level c.log_level ≡ true)
unfolding validate_observability
observability_iff c = ground arith
