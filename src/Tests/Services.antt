-- ===== src/Tests/Services.antt =====
-- The theorems on the configuration, the limiter and the ledger at concrete inputs.
use mathlib.Core.List.{Memᴰ}
use llm_inference_gateway.Base.{
  ℕ, ◌+◌, ◌*◌, ◌≡◌, ◌↔◌, refl, true, false, List, [], ◌∷◌, ◌++◌, none, some, arith, All, replicate,
  codes,
}
use llm_inference_gateway.Base.Int.{pos, negsuc, ◌+ℤ◌, ◌-ℤ◌, ◌≤ℤ◌}
use llm_inference_gateway.Tests.{openai}
use llm_inference_gateway.Config.{Float, Config, Message, validation, validate}
use llm_inference_gateway.Config.Sections.{IsConfig}
use llm_inference_gateway.Config.Valid.{errors_of, validate-IsConfig}
use llm_inference_gateway.RateLimit.{
  Bucket, Buckets, Capacities, live, balance, store, retry_after_ms, adjust_bucket, bucket_ttl,
  reserve_script,
}
use llm_inference_gateway.RateLimit.Atomic.{Settled, reserve_script-Settled}
use llm_inference_gateway.RateLimit.Refill.{expired-full, retry_after-covers, adjust-reconciles}
use llm_inference_gateway.Ledger.{
  Writer, Event, records, receives, ticks, drains, new_writer, run, draining,
}
use llm_inference_gateway.Ledger.Trace.{contents, accepted, run-contents}
use llm_inference_gateway.Ledger.Bounds.{Bounded, IsOpen, run-Bounded}
use llm_inference_gateway.Ledger.Shutdown.{closed, drain-closed}

abbrev ratio : Float
ratio = record { is_negative = false; is_zero = false; exceeds_one = false }

abbrev config : Config
config = record {
  server = record {
    addr = codes ":8080";
    read_timeout = pos 5;
    request_timeout = pos 60;
    max_body_bytes = pos 1000000;
    shutdown_timeout = pos 30;
  };
  redis = record { addr = codes "redis:6379"; dial_timeout = pos 1 };
  postgres = record { dsn_env = codes "DSN"; ping_timeout = pos 1 };
  providers =
      record {
        name = openai;
        type = openai;
        base_url = codes "https://api";
        api_key_env = codes "KEY";
        priority = pos 0;
        weight = pos 1;
        timeout = pos 30;
        failure_rate = record ratio { is_zero = true };
      }
      ∷ [];
  breaker = record {
    error_rate_threshold = ratio;
    min_requests = pos 4;
    window = pos 10;
    cooldown = pos 5;
    cooldown_max = pos 60;
    half_open_probes = pos 2;
    prober_interval = pos 5;
  };
  retry = record { max_attempts_per_provider = pos 2; base_backoff = pos 1; max_backoff = pos 10 };
  cache = record {
    exact = record { enabled = true; ttl = pos 60 };
    semantic = record {
      enabled = false;
      threshold = ratio;
      max_vectors = pos 0;
      ttl = pos 0;
      hnsw_m = pos 0;
      hnsw_ef_search = pos 0;
    };
    max_client_ttl = pos 0;
  };
  rate_limit = record { default_tpm = pos 1000; estimate_completion_tokens = pos 0 };
  ledger = record { buffer_size = pos 100; batch_size = pos 10; flush_interval = pos 1 };
  observability = record { log_level = codes "info" };
}

validate_example :
    ((validate config ≡ none) ↔ IsConfig config)
    × ((m : Message) → Memᴰ (true, m) (validation config) ↔ Memᴰ m (errors_of (validate config)))
validate_example = validate-IsConfig config

-- A team bucket with 40 tokens left, next to two untouched ones.
abbrev drawn_on : Bucket
drawn_on = record { tokens = pos (40 * 60000000); last_refill = 0; expires_at = 120000000 }

abbrev buckets : Buckets
buckets = record { org_bucket = none; team_bucket = some drawn_on; key_bucket = none }

abbrev capacities : Capacities
capacities = record { org_capacity = 1000; team_capacity = 60; key_capacity = 100 }

reserve_example :
    Settled 3000000 bucket_ttl capacities
      (pos (50 * 60000000))
      buckets
      (reserve_script 3000000 bucket_ttl capacities (pos (50 * 60000000)) buckets)
reserve_example = reserve_script-Settled 3000000 bucket_ttl capacities (pos (50 * 60000000)) buckets

expired_example :
    balance 130000000 60 (live 130000000 (store 0 bucket_ttl (negsuc 59999999)))
    ≡ balance 130000000 60 (store 0 bucket_ttl (negsuc 59999999))
unfolding ◌+ℤ◌
expired_example = expired-full 0 130000000 60 (negsuc 59999999) (omega arith)

delay_example : pos (50 * 60000000) ≤ℤ balance (3000000 + 7000 * 1000) 60 (some drawn_on)
unfolding retry_after_ms balance ◌+ℤ◌ ◌-ℤ◌
delay_example =
    retry_after-covers 3000000 60 7000 (pos (50 * 60000000)) drawn_on (omega arith) (omega arith)
      refl

adjust_example :
    adjust_bucket 3000000 bucket_ttl 60
      (pos 5 -ℤ pos 8)
      (store 3000000 bucket_ttl (balance 3000000 60 (some drawn_on) -ℤ pos 5))
    ≡ store 3000000 bucket_ttl (balance 3000000 60 (some drawn_on) -ℤ pos 8)
adjust_example = adjust-reconciles 3000000 bucket_ttl 60 8 5 (some drawn_on) (omega arith)

abbrev day : List (Event ℕ)
day =
    records 1 ∷ records 2 ∷ receives true ∷ records 3 ∷ records 4 ∷ receives true ∷ ticks false ∷ []

contents_example :
    contents (run day (new_writer 2 2)) ≡ contents (new_writer 2 2) ++ accepted day (new_writer 2 2)
contents_example = run-contents day (new_writer 2 2)

day-IsOpen : All IsOpen day
unfolding IsOpen
day-IsOpen = (tt, (tt, (tt, (tt, (tt, (tt, (tt, tt)))))))

size_example : Bounded (run day (new_writer 2 2))
size_example = run-Bounded day 2 2 (omega arith) day-IsOpen

abbrev closing : Writer ℕ
closing = record {
  buffer_size = 4;
  batch_size = 2;
  channel = 2 ∷ 3 ∷ [];
  batch = 1 ∷ [];
  inserts = [];
  dropped = [];
  phase = draining;
}

drain_example : run (replicate 3 (drains true)) closing ≡ closed true (1 ∷ 2 ∷ 3 ∷ []) closing
drain_example = drain-closed true (2 ∷ 3 ∷ []) closing refl refl
