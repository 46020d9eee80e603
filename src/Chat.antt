-- ===== src/Chat.antt =====
-- internal/server/chat.go: the handler of chat completions, from the decoded body on.
use llm_inference_gateway.Base.{
  ℕ, ◌+◌, Bool, true, false, not, ◌&&◌, List, [], ◌∷◌, ◌++◌, Option, none, some, if◌then◌else◌,
  Text, length,
}
use llm_inference_gateway.Base.Int.{ℤ, pos, ◌+ℤ◌, ◌-ℤ◌}
use llm_inference_gateway.Router.{Tier, resolve}
use llm_inference_gateway.Auth.{Identity}
use llm_inference_gateway.Exchange.{
  Message, Request, Response, Deps, Limits, Effect, reserves, adjusts, refuses, serves,
  serves_cached, records, done, failed, cache_ttl_override, check_caches, store_in_caches, used_by,
  success_row, cache_hit_row, engine_status,
}
use llm_inference_gateway.ChatStream.{handle_streaming}
pub mod Cases
pub mod Settlement

-- From the cache lookups on.
unfoldable pub complete : Deps → Request → Option ℤ → List Tier → ℤ → Identity → List Effect
unfolding check_caches store_in_caches
complete d q ttl tiers cost id =
    let (hit, lookup) = check_caches d q id in
    elim hit [
      | some (tier, r) ↦ adjusts cost ∷ serves_cached tier r ∷ records (cache_hit_row tier r) ∷ []
      | none ↦ elim (d.execute tiers) [
        | failed err attempts ↦ adjusts cost ∷ refuses (engine_status err) ∷ []
        | done name model attempts response ↦
            let r : Response = record response { model = q.model } in
            serves r ∷ store_in_caches lookup r ttl
            ++ adjusts (cost -ℤ used_by r)
              ∷ records (success_row name model r.usage (length attempts))
              ∷ []
      ]
    ]

abbrev pub given : Option ℤ → ℤ → ℤ
given none default = default
given (some n) default = n

-- The rate limit and what it lets through.
unfoldable pub admit : Deps → Request → Option ℤ → List Tier → Identity → List Effect
unfolding complete
admit d q ttl tiers id =
    let prompt_tokens = d.count_messages q.messages in
    let cost = pos prompt_tokens +ℤ given q.max_tokens d.estimate_completion_tokens in
    let limits : Limits = record {
      org_limit = id.org_tpm_limit;
      team_limit = id.team_tpm_limit;
      key_limit = given id.key_tpm_limit d.default_tpm;
    } in
    elim (d.reserve limits cost) [
      | none ↦ refuses 500 ∷ []
      | some decision ↦
          if not decision.allowed
          then refuses 429 ∷ []
          else (reserves cost
              ∷ (if q.stream
                  then handle_streaming d q ttl tiers cost prompt_tokens id
                  else complete d q ttl tiers cost id))
    ]

-- The routing, on the result of `Resolve`, and the identity that the middleware left.
unfoldable pub with_tiers :
    Deps → Request → Option ℤ → Option (List Tier) → Option Identity → List Effect
unfolding admit
with_tiers d q ttl none _ = refuses 400 ∷ []
with_tiers d q ttl (some []) _ = refuses 400 ∷ []
with_tiers d q ttl (some (t ∷ ts)) none = refuses 500 ∷ []
with_tiers d q ttl (some (t ∷ ts)) (some id) = admit d q ttl (t ∷ ts) id

-- On the result of `resolveCacheTTLOverride`.
unfoldable pub with_ttl : Deps → Request → Option (Option ℤ) → List Effect
unfolding with_tiers
with_ttl d q none = refuses 400 ∷ []
with_ttl d q (some ttl) = with_tiers d q ttl (resolve d.router q.model) d.identity

-- The first two tests, on the model and the messages of `q`.
unfoldable pub with_body : Deps → Request → Text → List Message → List Effect
unfolding with_ttl cache_ttl_override
with_body d q [] _ = refuses 400 ∷ []
with_body d q (_ ∷ _) [] = refuses 400 ∷ []
with_body d q (_ ∷ _) (_ ∷ _) =
    with_ttl d q (cache_ttl_override d.parse_duration q.cache_ttl d.max_client_ttl)

-- The handler, after the body has been decoded.
unfoldable pub handle_request : Deps → Request → List Effect
unfolding with_body
handle_request d q = with_body d q q.model q.messages

-- `handleChatCompletions`; `none` is a body that does not decode.
unfoldable pub handle_chat_completions : Deps → Option Request → List Effect
unfolding handle_request
handle_chat_completions d none = refuses 400 ∷ []
handle_chat_completions d (some q) = handle_request d q
