-- ===== src/Lib.antt =====
-- A model of the LLM inference gateway: an HTTP service that routes chat completions to several
-- providers, with retries, circuit breakers, rate limits and a usage ledger.
--
-- A request's alias is resolved to tiers of candidates (router); the retry engine walks the tiers,
-- picks a ready candidate by weight, asks its circuit breaker and calls the provider through its
-- adapter, and reports each outcome to the breaker; two caches are asked before and filled after; the
-- rate limiter reserves tokens before and reconciles them after; the ledger records the usage. The
-- files and the code:
-- - Base, Base/: numbers, int64 patterns, signed integers, lists, texts and maps. No program code.
-- - Config, Config/: internal/config/config.go. A section is a record, its `validate` method the
--   function `validate_<section>`, and `Validate` is `validate`.
-- - Breaker, Breaker/: internal/breaker. `Breaker` is the struct, `new_breaker`, `ready`, `allow`,
--   `record_success` and `record_failure` are newBreaker, Ready, Allow, RecordSuccess and
--   RecordFailure; Breaker/Registry is registry.go, and `probe` of Breaker/Prober the loop body of
--   probeOnce.
-- - Providers: the failure classes and errors of internal/providers/provider.go.
-- - Router, Router/: internal/router/router.go; `new_router`, `aliases` and `resolve` are New,
--   Aliases and Resolve.
-- - Retry, Retry/: internal/retry. Retry/Backoff is backoff.go; of engine.go, Retry/Pick is
--   pickFromTier, Retry/Calls tryCandidate, Retry/Execute Execute, and Retry/Stream the streaming
--   half: relayStream, tryCandidateStream and ExecuteStream. Retry/Leak is about probe slots that
--   tryCandidate takes and never reports.
-- - RateLimit, RateLimit/: internal/ratelimit; `reserve_script` and `adjust_script` are the two Lua
--   scripts, `reserve` and `adjust` the methods of Limiter.
-- - Ledger, Ledger/: internal/ledger/ledger.go; `record_entry` is Record, and the branches of the
--   selects in run are `receive`, `flush` and `drain`, taken in any order by `step`.
-- - Auth, Auth/: internal/auth/resolver.go and internal/server/auth.go; `resolve` and `invalidate` are
--   Resolve and Invalidate of CachingResolver, `with_bearer_auth` is withBearerAuth. Auth/Keys is key.go and
--   store.go of internal/auth (`issue_key`, `revoke_key`, `resolve_key` on the tables), Auth/Admin the handlers
--   of internal/server/admin.go.
-- - Exact, Exact/: internal/cache/exact/exact.go; `canonicalize`, `cache_key_of`, `get_cached`,
--   `set_cached` and `purge_tenant` are Canonicalize, Key, Get, Set and PurgeTenant.
-- - Exchange, Exchange/: what internal/server/chat.go and stream.go share: requests, effects, the cache
--   lookups (`check_caches`, `store_in_caches`), the TTL override and the rows of the ledger.
-- - Chat, Chat/: internal/server/chat.go; `handle_chat_completions` is handleChatCompletions, as the
--   list of its effects.
-- - ChatStream, ChatStream/: internal/server/stream.go; `handle_streaming` is
--   handleStreamingChatCompletion, its closure is `on_delta`, and the variables that the closure
--   changes are a `StreamState`, replayed from the engine's log of calls.
-- - Semantic, Semantic/: internal/cache/semantic/semantic.go; `get`, `set`, `evict_oldest`,
--   `rebuild_graph_if_needed`, `save_to_disk` and `load_from_disk` are the methods of Store.
-- - WordPiece, WordPiece/: internal/embedding/wordpiece.go; `encode`, `wordpiece` and `basic_tokenize`
--   are the methods of WordPieceTokenizer.
-- - Adapter, Adapter/: internal/providers/openai and internal/providers/anthropic; `complete`,
--   `health_check` and `stream` of Adapter/OpenAi and Adapter/Anthropic on one HTTP exchange.
-- - Tests, Tests/: concrete data, and the theorems applied to it.
--
-- Mutexes make each method of a breaker one step. Clock readings are arguments, natural numbers of
-- nanoseconds or Unix seconds. Providers, clocks, random draws, the request's context and the effect
-- of other goroutines on the breakers are an oracle that the engine queries (Retry). Integers that
-- may overflow are int64 patterns with wrap-around (Base/Word). Token balances are exact where the
-- scripts use doubles.
--
-- Bounds and fuel: the loops over the candidates of a tier run on fuel, one round more than the tier
-- has candidates. That is enough, because each round marks one more provider as tried; the end without
-- fuel is an outcome of its own, which the types of the results of `execute` and `execute_stream`
-- exclude. The eviction loop of the semantic cache has the length of the order of use as fuel, since
-- each round shortens it, and the loop of `wordpiece` the length of the word, since each piece takes a
-- rune. All other loops are structural.
--
-- Not modelled: the rest of the HTTP layer, the embedding model and the tokenizer for billing, which
-- mostly call libraries and remote services; the vector index, JSON (but for the values of stream
-- chunks), gob and the HTTP client, which are parameters; the hash, base64 and UUID
-- functions, likewise; SQL and Redis clients; the loading of the configuration; prices,
-- logs, and metrics except for the breaker's gauge.
pub mod Base
pub mod Config
pub mod Breaker
pub mod Providers
pub mod Router
pub mod Retry
pub mod RateLimit
pub mod Ledger
pub mod Adapter
pub mod Auth
pub mod Chat
pub mod ChatStream
pub mod Exact
pub mod Exchange
pub mod Semantic
pub mod WordPiece
mod Tests
