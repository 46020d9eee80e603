-- ===== src/Retry.antt =====
-- internal/retry: the retry and fallback engine.
-- What the engine calls outside this repository's code (providers over the network, clocks, random
-- numbers, the request's context) and what other goroutines do to the breakers enters as an oracle:
-- a record of functions of the number of oracle queries made so far.
pub mod Backoff
pub mod Calls
pub mod Leak
pub mod Trail
pub mod Attempts
pub mod Chosen
pub mod Pick
pub mod Execute
pub mod Round
pub mod Walk
pub mod Used
pub mod Paid
pub mod Report
pub mod Stream
pub mod Heard
pub mod Delivery
use llm_inference_gateway.Base.{ℕ, Option, List, Text, Bool}
use llm_inference_gateway.Providers.{ApiError}
use llm_inference_gateway.Breaker.{Readings}
use llm_inference_gateway.Breaker.Registry.{Registry}

-- What a provider's call returns in place of a response: an `APIError`, or any other error, such as
-- a timeout or a broken connection.
pub data ProviderError : Type 0 where
  api : ApiError → ProviderError
  transport : Text → ProviderError

-- An error inside the engine: its two sentinels, `ctx.Err()`, or a provider's error.
pub data Err : Type 0 where
  no_healthy_provider breaker_rejected context_done : Err
  provider : ProviderError → Err

pub record Attempt : Type 0 where
  pub provider : Text
  pub status : ℕ

pub record Config : Type 0 where
  pub max_attempts_per_provider : ℕ
  pub base_backoff : ℕ
  pub max_backoff : ℕ

-- The registry of breakers is part of the state below. `is_configured` tells the keys of
-- `e.providers`, which hold every candidate that the engine calls.
pub record Engine : Type 0 where
  pub is_configured : Text → Bool
  pub provider_timeout : Text → ℕ
  pub cfg : Config

-- A provider call ends with a value or an error.
pub data Completion (R : Type 0) : Type 0 where
  answered : R → Completion R
  failed : ProviderError → Completion R

-- Query number `n`: what `provider.Complete(ctx with this timeout, model)` returns and how long it
-- takes, the clocks, `rand.Intn`, `time.Until(deadline)` as an int64 pattern, whether a backoff
-- timer fires before the context ends, whether `ctx.Err()` is set, and what other goroutines have
-- done to the breakers.
pub record Oracle (R : Type 0) : Type 0 where
  pub complete : ℕ → Text → Text → ℕ → Completion R
  pub duration : ℕ → ℕ
  pub monotonic : ℕ → ℕ
  pub unix : ℕ → ℕ
  pub failure_readings : ℕ → Readings
  pub rand : ℕ → ℕ → ℕ
  pub remaining : ℕ → Option ℕ
  pub timer_first : ℕ → Bool
  pub is_done : ℕ → Bool
  pub others : ℕ → Registry → Registry

-- The state of one call of `Execute`; `queries` counts the oracle queries.
pub record World : Type 0 where
  pub registry : Registry
  pub queries : ℕ
  pub attempts : List Attempt
  pub provider_duration : ℕ
