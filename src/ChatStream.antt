-- ===== src/ChatStream.antt =====
-- internal/server/stream.go: the handler of streaming requests. The closure `onDelta` changes the
-- variables of the handler; they are the fields of `StreamState`, computed from the calls of `onDelta`
-- that the engine's log holds.
use llm_inference_gateway.Base.{
  ℕ, suc, ◌+◌, Bool, true, false, not, ◌&&◌, List, [], ◌∷◌, ◌++◌, Option, none, some, if◌then◌else◌,
  Text, codes, length,
}
use llm_inference_gateway.Base.Int.{ℤ, pos, ◌+ℤ◌, ◌-ℤ◌}
use llm_inference_gateway.Router.{Tier}
use llm_inference_gateway.Auth.{Identity}
use llm_inference_gateway.Retry.{Err, ProviderError, transport}
use llm_inference_gateway.Retry.Stream.{
  Usage, Delta, Sent, Streaming, StreamOutcome, StreamResult, stream_ok, stream_error,
  stream_unfinished, execute_stream,
}
use llm_inference_gateway.Exchange.{
  Request, Response, Deps, Row, CacheTier, Effect, adjusts, refuses, records, serves_cached,
  starts_stream, sends_chunk, sends_done, sends_error, CacheLookup, check_caches, store_in_caches,
  success_row, cache_hit_row, engine_status,
}
pub mod Chunk
pub mod Log
pub mod Wire
pub mod Billing
pub mod Delivered

-- The variables that `onDelta` captures, the number of events that it tried to write, and what has been
-- written.
pub record StreamState : Type 0 where
  pub full_content : Text
  pub completion_tokens : ℕ
  pub finish_reason : Text
  pub headers_sent : Bool
  pub current_provider : Text
  pub current_model : Text
  pub writes : ℕ
  pub written : List Effect

abbrev pub initial : StreamState
initial = record {
  full_content = [];
  completion_tokens = 0;
  finish_reason = [];
  headers_sent = false;
  current_provider = [];
  current_model = [];
  writes = 0;
  written = [];
}

-- `s` if it is not empty, else `t`.
abbrev pub or_else : Text → Text → Text
or_else [] t = t
or_else (c ∷ s) t = c ∷ s

-- The first half of `onDelta`: what it notes of a delta.
unfoldable pub note_delta : Deps → Text → Text → Delta → StreamState → StreamState
note_delta d name model delta st = record st {
  current_provider = name;
  current_model = model;
  full_content = st.full_content ++ delta.content;
  completion_tokens = elim delta.content [
    | [] ↦ st.completion_tokens
    | _ ∷ _ ↦ st.completion_tokens + d.count_text delta.content
  ];
  finish_reason = or_else delta.finish_reason st.finish_reason;
}

-- The headers, unless they are sent.
unfoldable pub send_headers : (headers_sent : Bool) → Text → StreamState → StreamState
send_headers true name st = st
send_headers false name st = record st {
  headers_sent = true;
  written = st.written ++ starts_stream name none ∷ [];
}

-- `writeSSEEvent` and `Flush`, and the error of a write that fails.
unfoldable pub send_event :
    (succeeds : Bool) → Delta → StreamState → StreamState × Option ProviderError
send_event true delta st = (
  record st {
    writes = suc st.writes;
    written = st.written ++ sends_chunk delta.content delta.finish_reason ∷ [];
  },
  none,
)
send_event false delta st = (record st { writes = suc st.writes }, some (transport (codes "write")))

-- The second half of `onDelta`, on whether the headers cannot be sent.
unfoldable pub send_delta :
    (unsupported : Bool) → Deps → Text → Delta → StreamState → StreamState × Option ProviderError
unfolding send_event send_headers
send_delta true d name delta st = (st, some (transport (codes "streaming unsupported")))
send_delta false d name delta st =
    let st' = send_headers st.headers_sent name st in
    send_event (d.write_succeeds st'.writes) delta st'

unfoldable pub on_delta :
    Deps → Text → Text → Delta → StreamState → StreamState × Option ProviderError
unfolding note_delta send_delta
on_delta d name model delta st =
    send_delta (not st.headers_sent && not d.can_flush) d name delta
      (note_delta d name model delta st)

-- The variables after the calls of a log.
unfoldable pub replay : Deps → List Sent → StreamState → StreamState
unfolding on_delta
replay d [] st = st
replay d (x ∷ xs) st = replay d xs (on_delta d x.provider_name x.model x.delta st).0

abbrev pub streaming_of : Deps → Streaming
streaming_of d = record {
  oracle = d.oracle;
  on_delta = λ sent name model delta. (on_delta d name model delta (replay d sent initial)).1;
}

-- The usage that is billed: the provider's, or what was counted on the way.
abbrev pub billed_usage : Option Usage → ℕ → ℕ → Usage
billed_usage (some u) prompt_tokens completion_tokens = u
billed_usage none prompt_tokens completion_tokens = record {
  prompt_tokens = prompt_tokens;
  completion_tokens = completion_tokens;
  total_tokens = prompt_tokens + completion_tokens;
}

-- The row of `recordPartialStreamObservability`.
abbrev pub partial_row : StreamState → ℕ → Row
partial_row st prompt_tokens = record {
  provider = st.current_provider;
  model = st.current_model;
  prompt_tokens = prompt_tokens;
  completion_tokens = st.completion_tokens;
  tokens_saved = 0;
  served_from = none;
  attempts = 1;
  status_code = 200;
}

-- `handleStreamError`, for a `*retry.StreamError`.
unfoldable pub handle_stream_error : StreamState → ℤ → ℕ → Err → Bool → List Effect
handle_stream_error st cost prompt_tokens err flushed =
    if not flushed
    then adjusts cost ∷ refuses (engine_status err) ∷ []
    else (adjusts (cost -ℤ pos (prompt_tokens + st.completion_tokens))
        ∷ sends_error
        ∷ records (partial_row st prompt_tokens)
        ∷ [])

-- The response that a complete stream is cached as.
abbrev pub streamed_response : Request → StreamState → Usage → Response
streamed_response q st usage = record {
  model = q.model;
  choices =
      record { content = st.full_content; finish_reason = or_else st.finish_reason (codes "stop") }
      ∷ [];
  usage = usage;
}

-- What follows `ExecuteStream`, on its outcome.
unfoldable pub finish_stream :
    Request → Option ℤ → ℤ → ℕ → CacheLookup → StreamState → StreamOutcome → List Effect
unfolding handle_stream_error store_in_caches
finish_stream q ttl cost prompt_tokens lookup st (stream_ok res) =
    let usage = billed_usage res.usage prompt_tokens st.completion_tokens in
    sends_done
    ∷ adjusts (cost -ℤ pos (usage.prompt_tokens + usage.completion_tokens))
    ∷ records (success_row res.provider res.model usage (length res.attempts))
    ∷ store_in_caches lookup (streamed_response q st usage) ttl
finish_stream q ttl cost prompt_tokens lookup st (stream_error err attempts flushed) =
    handle_stream_error st cost prompt_tokens err flushed
finish_stream q ttl cost prompt_tokens lookup st stream_unfinished = []

-- The first choice of a cached response, as the synthesized stream sends it.
abbrev pub first_choice : Response → Text × Text
first_choice r = elim r.choices [
  | [] ↦ ([], codes "stop")
  | c ∷ _ ↦ (c.content, or_else c.finish_reason (codes "stop"))
]

-- `writeCachedStream`
unfoldable pub write_cached_stream : Bool → CacheTier → Response → List Effect
write_cached_stream can_flush tier r =
    let (content, finish) = first_choice r in
    if not can_flush
    then serves_cached tier r ∷ []
    else (starts_stream [] (some tier)
        ∷ sends_chunk content []
        ∷ sends_chunk [] finish
        ∷ sends_done
        ∷ [])

unfoldable pub handle_streaming :
    Deps → Request → Option ℤ → List Tier → ℤ → ℕ → Identity → List Effect
unfolding finish_stream check_caches write_cached_stream replay execute_stream
handle_streaming d q ttl tiers cost prompt_tokens id =
    let (hit, lookup) = check_caches d q id in
    elim hit [
      | some (tier, r) ↦
          adjusts cost ∷ write_cached_stream d.can_flush tier r
          ++ records (cache_hit_row tier r) ∷ []
      | none ↦
          let (w, sent, outcome) = execute_stream (streaming_of d) d.engine tiers d.world in
          let st = replay d sent initial in
          st.written ++ finish_stream q ttl cost prompt_tokens lookup st outcome
    ]

-- The JSON of a chunk with this content and reason to finish, and of the error event.
pub record Payloads : Type 0 where
  pub of_chunk : Text → Text → Text
  pub of_error : Text

-- `writeSSEEvent` without an event's name and with one, and `writeSSEDone`, as the lines that a reader
-- sees.
abbrev pub sse_event : Text → Text → List Text
sse_event [] payload = (codes "data: " ++ payload) ∷ [] ∷ []
sse_event (c ∷ event) payload =
    (codes "event: " ++ c ∷ event) ∷ (codes "data: " ++ payload) ∷ [] ∷ []

unfoldable pub sse_lines : Payloads → List Effect → List Text
sse_lines p [] = []
sse_lines p (sends_chunk content finish ∷ es) =
    sse_event [] (p.of_chunk content finish) ++ sse_lines p es
sse_lines p (sends_error ∷ es) = sse_event (codes "error") p.of_error ++ sse_lines p es
sse_lines p (sends_done ∷ es) = codes "data: [DONE]" ∷ [] ∷ sse_lines p es
sse_lines p (_ ∷ es) = sse_lines p es
