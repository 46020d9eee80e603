-- ===== src/Config.antt =====
-- internal/config/config.go: the sections of the configuration and their validation.
-- Integers and durations are exact. Of a floating-point setting only its comparisons with 0 and 1
-- are read. `reports` collects the messages of the tests that hold, as the chain of `if`s does.
use Prim.Native.String.{String}
use llm_inference_gateway.Base.{
  ℕ, suc, ◌+◌, Bool, true, false, not, ◌&&◌, ◌||◌, List, [], ◌∷◌, ◌++◌, Option, none, some,
  if◌then◌else◌, Text, codes, ◌==◌, text_eq,
}
use llm_inference_gateway.Base.Int.{ℤ, pos, ltb_ℤ}
pub mod Sections
pub mod Valid

-- Its comparisons `< 0`, `== 0` and `> 1`; none holds of a NaN, which therefore passes the tests.
pub record Float : Type 0 where
  pub is_negative : Bool
  pub is_zero : Bool
  pub exceeds_one : Bool

-- A message; those of a provider carry its index, that of the log level the level given.
pub data Message : Type 0 where
  plain : String → Message
  of_provider : ℕ → String → Message
  bad_level : Text → Message

abbrev pub is_empty : Text → Bool
is_empty [] = true
is_empty (_ ∷ _) = false

-- `x < k` and `x <= 0`
abbrev pub below : ℤ → ℕ → Bool
below x k = ltb_ℤ x (pos k)

abbrev pub not_positive : ℤ → Bool
not_positive x = below x 1

abbrev pub outside_unit : Float → Bool
outside_unit f = f.is_negative || f.is_zero || f.exceeds_one

unfoldable pub reports : List (Bool × Message) → List Message
reports [] = []
reports ((failed, m) ∷ rest) = let errs = reports rest in if failed then m ∷ errs else errs

pub record ServerConfig : Type 0 where
  pub addr : Text
  pub read_timeout : ℤ
  pub request_timeout : ℤ
  pub max_body_bytes : ℤ
  pub shutdown_timeout : ℤ

unfoldable pub validate_server : ServerConfig → List (Bool × Message)
validate_server c =
    (is_empty c.addr, plain "server.addr: must not be empty")
    ∷ (not_positive c.read_timeout, plain "server.read_timeout: must be > 0")
    ∷ (not_positive c.request_timeout, plain "server.request_timeout: must be > 0")
    ∷ (not_positive c.max_body_bytes, plain "server.max_body_bytes: must be > 0")
    ∷ (not_positive c.shutdown_timeout, plain "server.shutdown_timeout: must be > 0")
    ∷ []

pub record RedisConfig : Type 0 where
  pub addr : Text
  pub dial_timeout : ℤ

unfoldable pub validate_redis : RedisConfig → List (Bool × Message)
validate_redis c =
    (is_empty c.addr, plain "redis.addr: must not be empty")
    ∷ (not_positive c.dial_timeout, plain "redis.dial_timeout: must be > 0")
    ∷ []

pub record PostgresConfig : Type 0 where
  pub dsn_env : Text
  pub ping_timeout : ℤ

unfoldable pub validate_postgres : PostgresConfig → List (Bool × Message)
validate_postgres c =
    (is_empty c.dsn_env, plain "postgres.dsn_env: must not be empty")
    ∷ (not_positive c.ping_timeout, plain "postgres.ping_timeout: must be > 0")
    ∷ []

pub record ProviderConfig : Type 0 where
  pub name : Text
  pub type : Text
  pub base_url : Text
  pub api_key_env : Text
  pub priority : ℤ
  pub weight : ℤ
  pub timeout : ℤ
  pub failure_rate : Float

-- The keys of `validProviderTypes`.
abbrev pub is_remote : Text → Bool
is_remote t = t == codes "openai" || t == codes "anthropic"

abbrev pub is_provider_type : Text → Bool
is_provider_type t = is_remote t || t == codes "mock"

unfoldable pub validate_provider : ℕ → ProviderConfig → List (Bool × Message)
validate_provider index c =
    (is_empty c.name, of_provider index "name: must not be empty")
    ∷ (
      not (is_provider_type c.type),
      of_provider index "type: is not one of openai, anthropic, mock",
    )
    ∷ (below c.priority 0, of_provider index "priority: must be >= 0")
    ∷ (below c.weight 0, of_provider index "weight: must be >= 0")
    ∷ (not_positive c.timeout, of_provider index "timeout: must be > 0")
    ∷ (
      c.failure_rate.is_negative || c.failure_rate.exceeds_one,
      of_provider index "failure_rate: must be between 0 and 1",
    )
    ∷ (is_remote c.type && is_empty c.base_url, of_provider index "base_url: must not be empty")
    ∷ (
      is_remote c.type && is_empty c.api_key_env,
      of_provider index "api_key_env: must not be empty",
    )
    ∷ []

unfoldable pub validate_providers : ℕ → List ProviderConfig → List (Bool × Message)
validate_providers index [] = []
validate_providers index (p ∷ ps) = validate_provider index p ++ validate_providers (index + 1) ps

pub record BreakerConfig : Type 0 where
  pub error_rate_threshold : Float
  pub min_requests : ℤ
  pub window : ℤ
  pub cooldown : ℤ
  pub cooldown_max : ℤ
  pub half_open_probes : ℤ
  pub prober_interval : ℤ

unfoldable pub validate_breaker : BreakerConfig → List (Bool × Message)
validate_breaker c =
    (outside_unit c.error_rate_threshold, plain "breaker.error_rate_threshold: must be in (0, 1]")
    ∷ (below c.min_requests 1, plain "breaker.min_requests: must be >= 1")
    ∷ (not_positive c.window, plain "breaker.window: must be > 0")
    ∷ (not_positive c.cooldown, plain "breaker.cooldown: must be > 0")
    ∷ (ltb_ℤ c.cooldown_max c.cooldown, plain "breaker.cooldown_max: must be >= breaker.cooldown")
    ∷ (below c.half_open_probes 1, plain "breaker.half_open_probes: must be >= 1")
    ∷ (not_positive c.prober_interval, plain "breaker.prober_interval: must be > 0")
    ∷ []

pub record RetryConfig : Type 0 where
  pub max_attempts_per_provider : ℤ
  pub base_backoff : ℤ
  pub max_backoff : ℤ

unfoldable pub validate_retry : RetryConfig → List (Bool × Message)
validate_retry c =
    (below c.max_attempts_per_provider 1, plain "retry.max_attempts_per_provider: must be >= 1")
    ∷ (not_positive c.base_backoff, plain "retry.base_backoff: must be > 0")
    ∷ (ltb_ℤ c.max_backoff c.base_backoff, plain "retry.max_backoff: must be >= retry.base_backoff")
    ∷ []

pub record ExactCacheConfig : Type 0 where
  pub enabled : Bool
  pub ttl : ℤ

unfoldable pub validate_exact : ExactCacheConfig → List (Bool × Message)
validate_exact c =
    (
      c.enabled && not_positive c.ttl,
      plain "cache.exact.ttl: must be > 0 when cache.exact.enabled is true",
    )
    ∷ []

pub record SemanticCacheConfig : Type 0 where
  pub enabled : Bool
  pub threshold : Float
  pub max_vectors : ℤ
  pub ttl : ℤ
  pub hnsw_m : ℤ
  pub hnsw_ef_search : ℤ

unfoldable pub validate_semantic : SemanticCacheConfig → List (Bool × Message)
validate_semantic c =
    if not c.enabled
    then []
    else ((outside_unit c.threshold, plain "cache.semantic.threshold: must be in (0, 1]")
        ∷ (
          not_positive c.max_vectors,
          plain "cache.semantic.max_vectors: must be > 0 when cache.semantic.enabled is true",
        )
        ∷ (
          not_positive c.ttl,
          plain "cache.semantic.ttl: must be > 0 when cache.semantic.enabled is true",
        )
        ∷ (
          not_positive c.hnsw_m,
          plain "cache.semantic.hnsw.m: must be > 0 when cache.semantic.enabled is true",
        )
        ∷ (
          not_positive c.hnsw_ef_search,
          plain "cache.semantic.hnsw.ef_search: must be > 0 when cache.semantic.enabled is true",
        )
        ∷ [])

pub record CacheConfig : Type 0 where
  pub exact : ExactCacheConfig
  pub semantic : SemanticCacheConfig
  pub max_client_ttl : ℤ

unfoldable pub validate_cache : CacheConfig → List (Bool × Message)
validate_cache c =
    (below c.max_client_ttl 0, plain "cache.max_client_ttl: must be >= 0")
    ∷ (validate_exact c.exact ++ validate_semantic c.semantic)

pub record RateLimitConfig : Type 0 where
  pub default_tpm : ℤ
  pub estimate_completion_tokens : ℤ

unfoldable pub validate_rate_limit : RateLimitConfig → List (Bool × Message)
validate_rate_limit c =
    (not_positive c.default_tpm, plain "rate_limit.default_tpm: must be > 0")
    ∷ (
      below c.estimate_completion_tokens 0,
      plain "rate_limit.estimate_completion_tokens: must be >= 0",
    )
    ∷ []

pub record LedgerConfig : Type 0 where
  pub buffer_size : ℤ
  pub batch_size : ℤ
  pub flush_interval : ℤ

unfoldable pub validate_ledger : LedgerConfig → List (Bool × Message)
validate_ledger c =
    (not_positive c.buffer_size, plain "ledger.buffer_size: must be > 0")
    ∷ (not_positive c.batch_size, plain "ledger.batch_size: must be > 0")
    ∷ (not_positive c.flush_interval, plain "ledger.flush_interval: must be > 0")
    ∷ []

pub record ObservabilityConfig : Type 0 where
  pub log_level : Text

-- The keys of `validLogLevels`.
abbrev pub is_log_level : Text → Bool
is_log_level l = l == codes "debug" || l == codes "info" || l == codes "warn" || l == codes "error"

unfoldable pub validate_observability : ObservabilityConfig → List (Bool × Message)
validate_observability c = (not (is_log_level c.log_level), bad_level c.log_level) ∷ []

pub record Config : Type 0 where
  pub server : ServerConfig
  pub redis : RedisConfig
  pub postgres : PostgresConfig
  pub providers : List ProviderConfig
  pub breaker : BreakerConfig
  pub retry : RetryConfig
  pub cache : CacheConfig
  pub rate_limit : RateLimitConfig
  pub ledger : LedgerConfig
  pub observability : ObservabilityConfig

-- The tests of all sections, in the order in which `Validate` appends their errors.
unfoldable pub validation : Config → List (Bool × Message)
validation c =
    validate_server c.server
    ++ (validate_redis c.redis
        ++ (validate_postgres c.postgres
            ++ (validate_providers 0 c.providers
                ++ (validate_breaker c.breaker
                    ++ (validate_retry c.retry
                        ++ (validate_cache c.cache
                            ++ (validate_rate_limit c.rate_limit
                                ++ (validate_ledger c.ledger
                                    ++ validate_observability c.observability))))))))

-- `errors.Join`, or nil where nothing failed.
unfoldable pub validate : Config → Option (List Message)
validate c = elim (reports (validation c)) [ [] ↦ none | m ∷ ms ↦ some (m ∷ ms) ]
