-- ===== src/Adapter/OpenAi.antt =====
-- internal/providers/openai/openai.go.
use llm_inference_gateway.Base.{
  ℕ, Bool, true, false, List, [], ◌∷◌, ◌++◌, Option, none, some, map, if◌then◌else◌, Text, codes,
  text_eq, ◌==◌,
}
use llm_inference_gateway.Base.Int.{ℤ}
use llm_inference_gateway.Retry.{transport, Completion}
use llm_inference_gateway.Retry.Stream.{Usage, Streamed}
use llm_inference_gateway.Exchange.{Message}
use llm_inference_gateway.Exchange.Json.{
  JsonValue, Items, Fields, no_items, item, field_of, text_in, fields_in, items_in,
}
use llm_inference_gateway.Adapter.{
  CanonicalRequest, CanonicalResponse, CanonicalChoice, HttpRequest, Http, Step, skips, emits,
  stops, perform_request, read_reply, read_stream, health_of,
}

pub record ChatRequest (F : Type 0) : Type 0 where
  pub model : Text
  pub messages : List Message
  pub temperature : Option F
  pub top_p : Option F
  pub max_tokens : Option ℤ
  pub stop : List Text
  pub seed : Option ℤ
  pub response_format : Text
  pub tools : Text
  pub stream : Bool
  pub user : Text

pub record ChatResponse : Type 0 where
  pub id : Text
  pub object : Text
  pub created : ℕ
  pub model : Text
  pub choices : List CanonicalChoice
  pub usage : Usage

-- The content of the delta of a choice, and its reason to finish.
pub record StreamChunk : Type 0 where
  pub choices : List (Text × Text)

pub record Codec (F : Type 0) : Type 0 where
  pub encode : ChatRequest F → Option Text
  pub decode_response : Text → Option ChatResponse
  pub parse_chunk : Text → Option JsonValue
  pub decode_error : Text → Option Text

pub record Provider : Type 0 where
  pub base_url : Text
  pub api_key : Text

abbrev pub wire_message : Message → Message
wire_message m = record { role = m.role; content = m.content }

abbrev pub wire_choice : CanonicalChoice → CanonicalChoice
wire_choice c = record {
  index = c.index;
  message = wire_message c.message;
  finish_reason = c.finish_reason;
}

abbrev pub chat_http_request : Provider → List (Text × Text) → Text → HttpRequest
chat_http_request p more body = record {
  method = codes "POST";
  url = p.base_url ++ codes "/chat/completions";
  headers =
      (codes "Content-Type", codes "application/json")
      ∷ (codes "Authorization", codes "Bearer " ++ p.api_key)
      ∷ more;
  body = body;
}

-- The reading of a chunk: `json.Unmarshal` into a `streamChunk`, from the value on.
abbrev pub choice_in : Option Fields → Option Fields → Option (Text × Text)
choice_in none _ = none
choice_in (some choice) none = none
choice_in (some choice) (some delta) = elim (text_in (field_of (codes "content") delta)) [
  | none ↦ none
  | some content ↦ elim (text_in (field_of (codes "finish_reason") choice)) [
    | none ↦ none
    | some finish ↦ some (content, finish)
  ]
]

abbrev pub delta_in : Option Fields → Option Fields
delta_in none = none
delta_in (some choice) = fields_in (field_of (codes "delta") choice)

abbrev pub choice_of : JsonValue → Option (Text × Text)
choice_of v = let choice = fields_in (some v) in choice_in choice (delta_in choice)

abbrev pub choices_of : Items → Option (List (Text × Text))
choices_of no_items = some []
choices_of (item v vs) =
    let rest = choices_of vs in
    elim (choice_of v) [
      | none ↦ none
      | some c ↦ elim rest [ none ↦ none | some cs ↦ some (c ∷ cs) ]
    ]

unfoldable pub stream_chunk_of : JsonValue → Option StreamChunk
stream_chunk_of v = elim (fields_in (some v)) [
  | none ↦ none
  | some fs ↦ elim (items_in (field_of (codes "choices") fs)) [
    | none ↦ none
    | some items ↦ elim (choices_of items) [
      | none ↦ none
      | some cs ↦ some (record { choices = cs })
    ]
  ]
]

abbrev pub first_delta : StreamChunk → Step (Unit {0})
first_delta chunk = elim chunk.choices [
  | [] ↦ skips tt
  | (content, finish) ∷ _ ↦
      emits (record { content = content; finish_reason = finish; usage = none }) tt
]

abbrev pub on_chunk : Option StreamChunk → Step (Unit {0})
on_chunk none = stops (some (transport (codes "decode stream chunk")))
on_chunk (some chunk) = first_delta chunk

-- A payload that is no JSON is an error too.
unfoldable pub decode_chunk : Option JsonValue → Option StreamChunk
unfolding stream_chunk_of
decode_chunk none = none
decode_chunk (some v) = stream_chunk_of v

module _ {F : Type 0} where
  unfoldable pub translate_request : CanonicalRequest F → ChatRequest F
  translate_request q = record {
    model = q.model;
    messages = map wire_message q.messages;
    temperature = q.temperature;
    top_p = q.top_p;
    max_tokens = q.max_tokens;
    stop = q.stop;
    seed = q.seed;
    response_format = q.response_format;
    tools = q.tools;
    stream = false;
    user = q.user;
  }

  unfoldable pub translate_response : Codec F → Text → Option CanonicalResponse
  translate_response c body = elim (c.decode_response body) [
    | none ↦ none
    | some r ↦ some (record {
      id = r.id;
      object = r.object;
      created = r.created;
      model = r.model;
      choices = map wire_choice r.choices;
      usage = r.usage;
    })
  ]

  unfoldable pub complete :
      Codec F → Http → Provider → CanonicalRequest F → Completion CanonicalResponse
  unfolding perform_request read_reply translate_request translate_response
  complete c h p q =
      perform_request h (c.encode (translate_request q)) (chat_http_request p [])
        (read_reply h c.decode_error (translate_response c))

  unfoldable pub health_check : Codec F → Http → Provider → Completion Unit
  unfolding perform_request
  health_check c h p =
      perform_request h (some [])
        (λ body. record {
          method = codes "GET";
          url = p.base_url ++ codes "/models";
          headers = (codes "Authorization", codes "Bearer " ++ p.api_key) ∷ [];
          body = body;
        })
        (health_of h c.decode_error)

  -- The body of the loop of `Stream`.
  unfoldable pub chunk_step : Codec F → Unit {0} → Text → Step Unit
  unfolding decode_chunk
  chunk_step c state payload =
      if payload == codes "[DONE]"
      then stops none
      else on_chunk (decode_chunk (c.parse_chunk payload))

  unfoldable pub stream : Codec F → Http → Provider → CanonicalRequest F → Completion Streamed
  unfolding perform_request read_stream translate_request chunk_step
  stream c h p q =
      perform_request h (c.encode (record (translate_request q) { stream = true }))
        (chat_http_request p ((codes "Accept", codes "text/event-stream") ∷ []))
        (read_stream h c.decode_error (chunk_step c) tt)
