-- ===== src/Adapter/Anthropic.antt =====
-- internal/providers/anthropic/anthropic.go.
use llm_inference_gateway.Base.{
  ℕ, ◌+◌, Bool, true, false, ◌||◌, List, [], ◌∷◌, ◌++◌, Option, none, some, if◌then◌else◌, Text,
  codes, text_eq, ◌==◌,
}
use llm_inference_gateway.Base.Int.{ℤ, pos}
use llm_inference_gateway.Retry.{api, transport, Completion}
use llm_inference_gateway.Retry.Stream.{Streamed}
use llm_inference_gateway.Exchange.{Message, add_turn}
use llm_inference_gateway.Adapter.{
  CanonicalRequest, CanonicalResponse, HttpRequest, Http, Step, skips, emits, stops,
  perform_request, read_reply, read_stream, health_of,
}
use llm_inference_gateway.Adapter.OpenAi.{Provider}

abbrev pub default_max_tokens : ℤ
default_max_tokens = pos 1024

pub record WireRequest (F : Type 0) : Type 0 where
  pub model : Text
  pub max_tokens : ℤ
  pub system : Text
  pub messages : List Message
  pub temperature : Option F
  pub top_p : Option F
  pub stop_sequences : List Text
  pub stream : Bool

-- A block of content is its type and its text.
pub record WireResponse : Type 0 where
  pub id : Text
  pub model : Text
  pub content : List (Text × Text)
  pub stop_reason : Text
  pub input_tokens : ℕ
  pub output_tokens : ℕ

pub record StreamEvent : Type 0 where
  pub event_type : Text
  pub input_tokens : ℕ
  pub delta_type : Text
  pub text : Text
  pub stop_reason : Text
  pub output_tokens : ℕ

pub record WireCodec (F : Type 0) : Type 0 where
  pub encode : WireRequest F → Option Text
  pub decode_response : Text → Option WireResponse
  pub decode_event : Text → Option StreamEvent
  pub decode_error : Text → Option Text

-- The loop of `translateRequest`, with the system text and the messages so far.
abbrev pub add_message : Message → Text × List Message → Text × List Message
add_message m (system, messages) =
    if m.role == codes "system"
    then (add_turn system m.content, messages)
    else (system, messages ++ record { role = m.role; content = m.content } ∷ [])

unfoldable pub split_messages : List Message → Text × List Message → Text × List Message
split_messages [] state = state
split_messages (m ∷ ms) state = split_messages ms (add_message m state)

abbrev pub or_default : Option ℤ → ℤ
or_default none = default_max_tokens
or_default (some n) = n

-- `mapStopReason`
unfoldable pub map_stop_reason : Text → Text
map_stop_reason [] = []
map_stop_reason (c ∷ reason) =
    if c ∷ reason == codes "end_turn" || c ∷ reason == codes "stop_sequence"
    then codes "stop"
    else (if c ∷ reason == codes "max_tokens" then codes "length" else c ∷ reason)

-- The text blocks, joined.
abbrev pub text_of : List (Text × Text) → Text
text_of [] = []
text_of ((kind, text) ∷ blocks) =
    let rest = text_of blocks in if kind == codes "text" then text ++ rest else rest

-- `now` is the clock's reading, since the reply has no time.
abbrev pub canonical_response : ℕ → WireResponse → CanonicalResponse
canonical_response now r = record {
  id = r.id;
  object = codes "chat.completion";
  created = now;
  model = r.model;
  choices =
      record {
        index = 0;
        message = record { role = codes "assistant"; content = text_of r.content };
        finish_reason = map_stop_reason r.stop_reason;
      }
      ∷ [];
  usage = record {
    prompt_tokens = r.input_tokens;
    completion_tokens = r.output_tokens;
    total_tokens = r.input_tokens + r.output_tokens;
  };
}

abbrev pub messages_http_request : Provider → List (Text × Text) → Text → HttpRequest
messages_http_request p more body = record {
  method = codes "POST";
  url = p.base_url ++ codes "/messages";
  headers =
      (codes "Content-Type", codes "application/json")
      ∷ (codes "x-api-key", p.api_key)
      ∷ (codes "anthropic-version", codes "2023-06-01")
      ∷ more;
  body = body;
}

-- The switch of `Stream`, with the payload for the message of an error.
unfoldable pub on_event : ℕ → Text → StreamEvent → Step ℕ
unfolding map_stop_reason
on_event input_tokens payload ev =
    if ev.event_type == codes "message_start"
    then skips ev.input_tokens
    else if ev.event_type == codes "content_block_delta"
    then (if ev.delta_type == codes "text_delta"
        then emits (record { content = ev.text; finish_reason = []; usage = none }) input_tokens
        else skips input_tokens)
    else if ev.event_type == codes "message_delta"
    then emits
        (record {
          content = [];
          finish_reason = map_stop_reason ev.stop_reason;
          usage = some (record {
            prompt_tokens = input_tokens;
            completion_tokens = ev.output_tokens;
            total_tokens = input_tokens + ev.output_tokens;
          });
        })
        input_tokens
    else if ev.event_type == codes "message_stop"
    then stops none
    else if ev.event_type == codes "error"
    then stops (some (api (record { status_code = 502; message = payload; retry_after = 0 })))
    else skips input_tokens

module _ {F : Type 0} where
  unfoldable pub translate_request : CanonicalRequest F → WireRequest F
  unfolding split_messages
  translate_request q =
      let (system, messages) = split_messages q.messages ([], []) in
      record {
        model = q.model;
        max_tokens = or_default q.max_tokens;
        system = system;
        messages = messages;
        temperature = q.temperature;
        top_p = q.top_p;
        stop_sequences = q.stop;
        stream = false;
      }

  unfoldable pub translate_response : WireCodec F → ℕ → Text → Option CanonicalResponse
  unfolding map_stop_reason
  translate_response c now body = elim (c.decode_response body) [
    | none ↦ none
    | some r ↦ some (canonical_response now r)
  ]

  unfoldable pub complete :
      WireCodec F → Http → ℕ → Provider → CanonicalRequest F → Completion CanonicalResponse
  unfolding perform_request read_reply translate_request translate_response
  complete c h now p q =
      perform_request h (c.encode (translate_request q)) (messages_http_request p [])
        (read_reply h c.decode_error (translate_response c now))

  unfoldable pub health_check : WireCodec F → Http → Provider → Completion Unit
  unfolding perform_request
  health_check c h p =
      perform_request h (some [])
        (λ body. record (messages_http_request p [] body) {
          method = codes "GET";
          url = p.base_url ++ codes "/models";
        })
        (health_of h c.decode_error)

  -- The body of the loop of `Stream`; the state is the number of input tokens.
  unfoldable pub event_step : WireCodec F → ℕ → Text → Step ℕ
  unfolding on_event
  event_step c input_tokens payload = elim (c.decode_event payload) [
    | none ↦ stops (some (transport (codes "decode stream event")))
    | some ev ↦ on_event input_tokens payload ev
  ]

  unfoldable pub stream : WireCodec F → Http → Provider → CanonicalRequest F → Completion Streamed
  unfolding perform_request read_stream translate_request event_step
  stream c h p q =
      perform_request h (c.encode (record (translate_request q) { stream = true }))
        (messages_http_request p ((codes "Accept", codes "text/event-stream") ∷ []))
        (read_stream h c.decode_error (event_step c) 0)
