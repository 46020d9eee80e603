-- ===== src/Tests/Vendors.antt =====
-- The theorems on the provider adapters at concrete inputs.
use llm_inference_gateway.Base.{
  ℕ, zero, suc, ◌≡◌, refl, ap, sym, ◌∙◌, true, false, List, [], ◌∷◌, ◌++◌, Option, none, some, Text,
  codes,
}
use llm_inference_gateway.Retry.Stream.{Sent}
use llm_inference_gateway.Exchange.{sends_done}
use llm_inference_gateway.ChatStream.{
  Payloads, replay, initial, sse_lines, on_delta, note_delta, send_delta, send_headers, send_event,
}
use llm_inference_gateway.Exchange.Json.{JsonValue}
use llm_inference_gateway.ChatStream.Chunk.{chunk_value}
use llm_inference_gateway.ChatStream.Wire.{chunks}
use llm_inference_gateway.Adapter.{CanonicalRequest, Http, HttpReply, read_lines}
use llm_inference_gateway.Adapter.OpenAi.{
  Codec, Provider, StreamChunk, stream_chunk_of, chunk_step, translate_request as chat_request,
  chat_http_request, translate_response, complete,
}
use llm_inference_gateway.Adapter.Anthropic.{
  WireCodec, translate_request, messages_http_request, translate_response as translate_anthropic,
  complete as complete_anthropic,
}
use llm_inference_gateway.Adapter.Failure.{Outcome, complete-Outcome}
use llm_inference_gateway.Adapter.Relay.{
  JsonLaws, stream_chunk_of-chunk_value, contents_of, stream-relayed,
}
use llm_inference_gateway.Adapter.Dialect.{
  conversation, system_contents, join_lines, translate_request-parts,
}
use llm_inference_gateway.Tests.Requests.{deps}

abbrev request : CanonicalRequest ℕ
request = record {
  model = codes "m";
  messages =
      record { role = codes "system"; content = codes "be brief" }
      ∷ record { role = codes "user"; content = codes "hi" }
      ∷ [];
  temperature = none;
  top_p = none;
  max_tokens = none;
  stop = [];
  seed = none;
  response_format = [];
  tools = [];
  stream = false;
  user = [];
}

parts_example :
    ((translate_request request).messages ≡ conversation request.messages)
    × ((translate_request request).system ≡ join_lines (system_contents request.messages))
parts_example = translate_request-parts request

-- A chunk is a brace, each unit of its content after a 1, a 0 and its reason to finish.
abbrev encode_pair : Text → Text → Text
encode_pair [] finish = 0 ∷ finish
encode_pair (c ∷ content) finish = 1 ∷ c ∷ encode_pair content finish

abbrev decode_pair : Text → Text × Text
decode_pair [] = ([], [])
decode_pair (zero ∷ t) = ([], t)
decode_pair (suc k ∷ []) = ([], [])
decode_pair (suc k ∷ c ∷ t) = let rest = decode_pair t in (c ∷ rest.0, rest.1)

abbrev parse : Text → Option JsonValue
parse [] = none
parse (c ∷ t) = let pair = decode_pair t in some (chunk_value [] 0 [] pair.0 pair.1)

abbrev render_chunk : Option StreamChunk → Text
render_chunk none = []
render_chunk (some chunk) = elim chunk.choices [
  | [] ↦ 123 ∷ []
  | (content, finish) ∷ _ ↦ 123 ∷ encode_pair content finish
]

abbrev payloads : Payloads
payloads = record {
  of_chunk = λ content finish. 123 ∷ encode_pair content finish;
  of_error = codes "{}";
}

abbrev codec : Codec ℕ
codec = record {
  encode = λ q. some q.model;
  decode_response = λ t. none;
  parse_chunk = parse;
  decode_error = λ t. none;
}

decode-encode :
    (content finish : Text) → decode_pair (encode_pair content finish) ≡ (content, finish)
decode-encode [] finish = refl
decode-encode (c ∷ content) finish = ap (λ p. (c ∷ p.0, p.1)) (decode-encode content finish)

rendered :
    (content finish : Text)
    → render_chunk (stream_chunk_of (chunk_value [] 0 [] content finish))
      ≡ 123 ∷ encode_pair content finish
rendered content finish = ap render_chunk (stream_chunk_of-chunk_value [] 0 [] content finish)

json_laws : JsonLaws codec payloads
json_laws = record {
  render = λ v. render_chunk (stream_chunk_of v);
  id = [];
  created = 0;
  model = [];
  marshals = λ content finish. sym (rendered content finish);
  braces = λ content finish. (encode_pair content finish, rendered content finish);
  parses = λ content finish.
      ap parse (rendered content finish)
      ∙ ap (λ q. some (chunk_value [] 0 [] q.0 q.1)) (decode-encode content finish);
}

abbrev overloaded : HttpReply
overloaded = record {
  status = 503;
  retry_after = [];
  body = some (codes "busy");
  lines = [];
  scan_error = none;
}

abbrev http : Http
http = record {
  accepts = λ q. true;
  perform = λ q. some overloaded;
  atoi = λ t. none;
  until = λ t. none;
  is_done = λ n. false;
}

abbrev vendor : Provider
vendor = record { base_url = codes "http://v"; api_key = codes "k" }

abbrev wire_codec : WireCodec ℕ
wire_codec = record {
  encode = λ q. some q.system;
  decode_response = λ t. none;
  decode_event = λ t. none;
  decode_error = λ t. some t;
}

outcome_example :
    Outcome http
      (codec.encode (chat_request request))
      (chat_http_request vendor [])
      (translate_response codec)
      (complete codec http vendor request)
    × Outcome http
        (wire_codec.encode (translate_request request))
        (messages_http_request vendor [])
        (translate_anthropic wire_codec 7)
        (complete_anthropic wire_codec http 7 vendor request)
outcome_example = complete-Outcome http codec vendor request wire_codec 7 vendor request

abbrev sent : List Sent
sent =
    record {
      call_number = 1;
      provider_name = codes "v";
      model = codes "m";
      delta = record { content = codes "hello"; finish_reason = []; usage = none };
      accepted = true;
    }
    ∷ []

relayed_example :
    let es = (replay deps sent initial).written in
    let r =
      read_lines http (chunk_step codec) none tt 0 (sse_lines payloads (es ++ sends_done ∷ [])) in
    (r.final ≡ none) × (contents_of r.deltas ≡ chunks es)
unfolding replay sse_lines on_delta note_delta send_delta send_headers send_event
relayed_example =
    stream-relayed codec payloads json_laws http deps sent [] (λ n. refl)
      (refl, (refl, (refl, (refl, tt))))
