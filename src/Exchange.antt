-- ===== src/Exchange.antt =====
-- internal/server/chat.go: what the streaming and the other handler share. A handler is the list of its
-- effects in order. Libraries, caches, the limiter and the rest of the HTTP stack are fields of `Deps`:
-- what they answer to this request. Logs and metrics are left out.
use llm_inference_gateway.Base.{
  ℕ, ◌+◌, Bool, true, false, not, ◌&&◌, List, [], ◌∷◌, ◌++◌, Option, none, some, if◌then◌else◌,
  Text, codes, text_eq, ◌==◌, length,
}
use llm_inference_gateway.Base.Int.{ℤ, pos, ◌+ℤ◌, ◌-ℤ◌, ltb_ℤ}
use llm_inference_gateway.Router.{Tier, Router}
use llm_inference_gateway.Retry.{
  Attempt, Err, Engine, Oracle, World, no_healthy_provider, provider, api,
}
use llm_inference_gateway.Retry.Stream.{Usage, Streamed}
use llm_inference_gateway.RateLimit.{Decision}
use llm_inference_gateway.Auth.{Identity}
use llm_inference_gateway.Semantic.{Guard}
pub mod Json
pub mod Account

pub record Message : Type 0 where
  pub role : Text
  pub content : Text

-- The fields of a request that the handler reads itself.
pub record Request : Type 0 where
  pub model : Text
  pub messages : List Message
  pub max_tokens : Option ℤ
  pub stream : Bool
  pub cache_ttl : Text
  pub temperature_is_zero : Bool

-- `semantic.Query`; a vector is only passed on.
pub record SemanticQuery : Type 0 where
  pub guard : Guard
  pub vector : Text

pub record Choice : Type 0 where
  pub content : Text
  pub finish_reason : Text

pub record Response : Type 0 where
  pub model : Text
  pub choices : List Choice
  pub usage : Usage

pub data CacheTier : Type 0 where
  exact semantic : CacheTier

-- `Execute`'s result as the handler uses it, or `*retry.Error`.
pub data Completed : Type 0 where
  done : (provider model : Text) → List Attempt → Response → Completed
  failed : Err → List Attempt → Completed

pub record Limits : Type 0 where
  pub org_limit : ℤ
  pub team_limit : ℤ
  pub key_limit : ℤ

-- A cache that is not configured is `none`; a reading that fails, `none` inside. The last six fields
-- are for streams: `write_succeeds n` tells whether write number `n` of an event succeeds.
pub record Deps : Type 0 where
  pub router : Router
  pub identity : Option Identity
  pub count_messages : List Message → ℕ
  pub estimate_completion_tokens : ℤ
  pub default_tpm : ℤ
  pub reserve : Limits → ℤ → Option Decision
  pub cache_nonzero_temperature : Bool
  pub max_client_ttl : ℤ
  pub parse_duration : Text → Option ℤ
  pub exact_key : Text → Request → Option Text
  pub exact_get : Option (Text → Option (Option Response))
  pub tools_canonical : Request → Text
  pub format_canonical : Request → Text
  pub embed : Option (Text → Option Text)
  pub semantic_get : Option (SemanticQuery → Option Response)
  pub execute : List Tier → Completed
  pub count_text : Text → ℕ
  pub can_flush : Bool
  pub write_succeeds : ℕ → Bool
  pub oracle : Oracle Streamed
  pub engine : Engine
  pub world : World

-- A row of the usage ledger, less ids, cost and latency. `served_from` is the cache tier.
pub record Row : Type 0 where
  pub provider : Text
  pub model : Text
  pub prompt_tokens : ℕ
  pub completion_tokens : ℕ
  pub tokens_saved : ℕ
  pub served_from : Option CacheTier
  pub attempts : ℕ
  pub status_code : ℕ

-- What the handler does, in order. `records` is the end of the functions that record a request, with
-- the row that is given to the ledger if there is one: `ledger_rows`. `adjusts` ignores the error of the call, as the code does. The last
-- four are for streams: the headers with the provider's name and the cache tier, an event with a piece of content and a
-- reason to finish, end marker, and the terminal error event.
pub data Effect : Type 0 where
  reserves : ℤ → Effect
  adjusts : ℤ → Effect
  refuses : ℕ → Effect
  serves : Response → Effect
  serves_cached : CacheTier → Response → Effect
  stores_exact : Text → Response → Option ℤ → Effect
  stores_semantic : SemanticQuery → Response → Option ℤ → Effect
  records : Row → Effect
  starts_stream : Text → Option CacheTier → Effect
  sends_chunk : Text → Text → Effect
  sends_done : Effect
  sends_error : Effect

-- The rows that reach the ledger; `false` is a handler whose ledger is nil.
unfoldable pub ledger_rows : Bool → List Effect → List Row
ledger_rows has_ledger [] = []
ledger_rows has_ledger (records row ∷ es) =
    let rest = ledger_rows has_ledger es in if has_ledger then row ∷ rest else rest
ledger_rows has_ledger (_ ∷ es) = ledger_rows has_ledger es

-- `resolveCacheTTLOverride`: `none` is an error, `some none` no override.
unfoldable pub cache_ttl_override : (Text → Option ℤ) → Text → ℤ → Option (Option ℤ)
cache_ttl_override parse [] max_client_ttl = some none
cache_ttl_override parse (c ∷ raw) max_client_ttl =
    if ltb_ℤ max_client_ttl (pos 1) then some none else (elim (parse (c ∷ raw)) [
      | none ↦ none
      | some d ↦ some (some (if ltb_ℤ max_client_ttl d then max_client_ttl else d))
    ])

-- `exact.Eligible`
abbrev pub eligible : Bool → Request → Bool
eligible cache_nonzero_temperature q =
    if cache_nonzero_temperature then true else q.temperature_is_zero

-- `concatUserTurns`: a turn after the text so far, and the loop.
abbrev pub add_turn : Text → Text → Text
add_turn [] content = content
add_turn (c ∷ text) content = (c ∷ text) ++ 10 ∷ content

abbrev pub add_turns : Text → List Message → Text
add_turns text [] = text
add_turns text (m ∷ ms) =
    add_turns (if not (m.role == codes "user") then text else add_turn text m.content) ms

abbrev pub concat_user_turns : List Message → Text
concat_user_turns ms = add_turns [] ms

pub record CacheLookup : Type 0 where
  pub exact_cache_key : Option Text
  pub semantic_query : Option SemanticQuery

-- The Tier-1 half of `checkCaches`: the key, and a hit.
unfoldable pub check_exact : Deps → Request → Identity → Option Text × Option Response
check_exact d q id = elim d.exact_get [
  | none ↦ (none, none)
  | some get ↦
      if not (eligible d.cache_nonzero_temperature q)
      then (none, none)
      else (elim (d.exact_key id.org_id q) [
        | none ↦ (none, none)
        | some key ↦ (some key, elim (get key) [ none ↦ none | some hit ↦ hit ])
      ])
]

-- The Tier-2 half: the query, unless the embedding failed, and a hit.
unfoldable pub check_semantic : Deps → Request → Identity → Option SemanticQuery × Option Response
check_semantic d q id = elim d.embed [
  | none ↦ (none, none)
  | some embed ↦ elim d.semantic_get [
    | none ↦ (none, none)
    | some get ↦
        if not (eligible d.cache_nonzero_temperature q)
        then (none, none)
        else (elim (embed (concat_user_turns q.messages)) [
          | none ↦ (none, none)
          | some vector ↦
              let query : SemanticQuery = record {
                guard = record {
                  tenant_id = id.org_id;
                  model = q.model;
                  tools_canonical = d.tools_canonical q;
                  response_format_canonical = d.format_canonical q;
                };
                vector = vector;
              } in
              (some query, get query)
        ])
  ]
]

-- `checkCaches`: Tier-2 is consulted on a Tier-1 miss.
unfoldable pub check_caches :
    Deps → Request → Identity → Option (CacheTier × Response) × CacheLookup
unfolding check_exact check_semantic
check_caches d q id =
    let (key, hit) = check_exact d q id in
    elim hit [
      | some r ↦ (some (exact, r), record { exact_cache_key = key; semantic_query = none })
      | none ↦
          let (query, near) = check_semantic d q id in
          let lookup : CacheLookup = record { exact_cache_key = key; semantic_query = query } in
          elim near [ some r ↦ (some (semantic, r), lookup) | none ↦ (none, lookup) ]
    ]

-- `storeInCaches`
unfoldable pub store_in_caches : CacheLookup → Response → Option ℤ → List Effect
store_in_caches l r ttl =
    let exact_part : List Effect = elim l.exact_cache_key [
      | none ↦ []
      | some key ↦ stores_exact key r ttl ∷ []
    ] in
    let semantic_part : List Effect = elim l.semantic_query [
      | none ↦ []
      | some query ↦ stores_semantic query r ttl ∷ []
    ] in
    let unwanted : Bool = elim ttl [ none ↦ false | some d ↦ ltb_ℤ d (pos 1) ] in
    if unwanted then [] else exact_part ++ semantic_part

-- The tokens that a response reports as used.
abbrev pub used_by : Response → ℤ
used_by r = pos (r.usage.prompt_tokens + r.usage.completion_tokens)

-- The row of `recordSuccessObservability`.
abbrev pub success_row : Text → Text → Usage → ℕ → Row
success_row name model usage attempts = record {
  provider = name;
  model = model;
  prompt_tokens = usage.prompt_tokens;
  completion_tokens = usage.completion_tokens;
  tokens_saved = 0;
  served_from = none;
  attempts = attempts;
  status_code = 200;
}

-- The row of `recordCacheHitObservability`.
abbrev pub cache_hit_row : CacheTier → Response → Row
cache_hit_row tier cached = record {
  provider = [];
  model = cached.model;
  prompt_tokens = 0;
  completion_tokens = 0;
  tokens_saved = cached.usage.prompt_tokens + cached.usage.completion_tokens;
  served_from = some tier;
  attempts = 0;
  status_code = 200;
}

-- The status that `writeEngineError` chooses.
abbrev pub engine_status : Err → ℕ
engine_status no_healthy_provider = 503
engine_status (provider (api e)) = e.status_code
engine_status _ = 502
