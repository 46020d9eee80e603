-- ===== src/Adapter.antt =====
-- internal/providers/provider.go, and what internal/providers/openai and internal/providers/anthropic
-- share: one HTTP exchange, and the reading of an event stream. The HTTP client and the JSON codec are
-- fields of parameters.
use llm_inference_gateway.Base.{
  ℕ, suc, ◌+◌, Bool, true, false, List, [], ◌∷◌, Option, none, some, leb, ltb, length,
  if◌then◌else◌, Text, codes, nat_beq,
}
use llm_inference_gateway.Base.Int.{ℤ}
use llm_inference_gateway.Providers.{parse_retry_after}
use llm_inference_gateway.Retry.{ProviderError, api, transport, Completion, answered, failed}
use llm_inference_gateway.Retry.Stream.{Usage, Delta, Streamed}
use llm_inference_gateway.Exchange.{Message}
pub mod OpenAi
pub mod Anthropic
pub mod Failure
pub mod Relay
pub mod Dialect

-- A float, a JSON value and a list of stop words are only passed on.
pub record CanonicalRequest (F : Type 0) : Type 0 where
  pub model : Text
  pub messages : List Message
  pub temperature : Option F
  pub top_p : Option F
  pub max_tokens : Option ℤ
  pub stop : List Text
  pub seed : Option ℤ
  pub response_format : Text
  pub tools : Text
  pub stream : Bool
  pub user : Text

pub record CanonicalChoice : Type 0 where
  pub index : ℕ
  pub message : Message
  pub finish_reason : Text

pub record CanonicalResponse : Type 0 where
  pub id : Text
  pub object : Text
  pub created : ℕ
  pub model : Text
  pub choices : List CanonicalChoice
  pub usage : Usage

pub record HttpRequest : Type 0 where
  pub method : Text
  pub url : Text
  pub headers : List (Text × Text)
  pub body : Text

-- `body` is `none` where `ReadAll` fails; `lines` and `scan_error` are what the scanner gives.
pub record HttpReply : Type 0 where
  pub status : ℕ
  pub retry_after : Text
  pub body : Option Text
  pub lines : List Text
  pub scan_error : Option Text

-- `http.NewRequest` accepts a request or not, `client.Do` gives a reply or an error. `is_done n` tells
-- whether the context ends before delta number `n` is taken from the channel.
pub record Http : Type 0 where
  pub accepts : HttpRequest → Bool
  pub perform : HttpRequest → Option HttpReply
  pub atoi : Text → Option ℤ
  pub until : Text → Option ℤ
  pub is_done : ℕ → Bool

abbrev or_empty : Option Text → Text
or_empty none = []
or_empty (some t) = t

-- `errorMessage`, with the message that the body decodes to.
abbrev pub error_message : (Text → Option Text) → Text → Text
error_message decode_error body = elim (decode_error body) [
  | none ↦ body
  | some [] ↦ body
  | some (c ∷ m) ↦ c ∷ m
]

-- The `APIError` of a reply, with the text that was read of its body.
abbrev pub api_error : Http → (Text → Option Text) → HttpReply → Text → ProviderError
api_error h decode_error r body = api (record {
  status_code = r.status;
  message = error_message decode_error body;
  retry_after = parse_retry_after h.atoi h.until r.retry_after;
})

-- A request from its encoding to the reply; then `on_reply`.
unfoldable pub perform_request :
    {R : Type 0}
    → Http
    → Option Text
    → (Text → HttpRequest)
    → (HttpReply → Completion R)
    → Completion R
perform_request h none build on_reply = failed (transport (codes "encode request"))
perform_request h (some body) build on_reply =
    if h.accepts (build body)
    then (elim (h.perform (build body)) [
      | none ↦ failed (transport (codes "do"))
      | some r ↦ on_reply r
    ])
    else failed (transport (codes "build request"))

-- The end of `Complete`.
unfoldable pub read_reply :
    {R : Type 0} → Http → (Text → Option Text) → (Text → Option R) → HttpReply → Completion R
read_reply h decode_error decode r = elim r.body [
  | none ↦ failed (transport (codes "read response"))
  | some body ↦
      if leb 400 r.status then failed (api_error h decode_error r body) else (elim (decode body) [
        | none ↦ failed (transport (codes "decode response"))
        | some response ↦ answered response
      ])
]

-- `strings.CutPrefix`
abbrev pub cut_prefix : Text → Text → Option Text
cut_prefix [] t = some t
cut_prefix (c ∷ p) [] = none
cut_prefix (c ∷ p) (d ∷ t) = let rest = cut_prefix p t in if nat_beq c d then rest else none

-- What a line does to a stream, with the reader's state.
pub data Step (S : Type 0) : Type 0 where
  skips : S → Step S
  emits : Delta → S → Step S
  stops : Option ProviderError → Step S

abbrev pub add_delta : Delta → Streamed → Streamed
add_delta d r = record { deltas = d ∷ r.deltas; final = r.final }

-- The payload of a line, if it is a data line that is not empty.
abbrev pub payload_of : Text → Option Text
payload_of line = elim (cut_prefix (codes "data: ") line) [
  | none ↦ none
  | some [] ↦ none
  | some (c ∷ t) ↦ some (c ∷ t)
]

-- A line that is no payload is skipped.
abbrev pub line_step : {S : Type 0} → (S → Text → Step S) → S → Option Text → Step S
line_step step state none = skips state
line_step step state (some payload) = step state payload

-- A delta is sent, or the context ends first; the rest is what the loop does then.
abbrev pub send_delta : Bool → Delta → Streamed → Streamed
send_delta true d rest = record { deltas = []; final = some (transport (codes "context")) }
send_delta false d rest = add_delta d rest

-- What follows a step: the loop without a delta, or after one.
abbrev pub on_step : {S : Type 0} → Bool → (S → Streamed) → (S → Streamed) → Step S → Streamed
on_step is_done skipped sent (skips state) = skipped state
on_step is_done skipped sent (emits d state) = send_delta is_done d (sent state)
on_step is_done skipped sent (stops e) = record { deltas = []; final = e }

-- The scanner's buffer: a line and its end must fit.
abbrev pub max_line : ℕ
max_line = 1048576

-- The loop over the lines; `n` deltas are sent. A line that is too long ends the scan with an error.
unfoldable pub read_lines :
    {S : Type 0} → Http → (S → Text → Step S) → Option Text → S → ℕ → List Text → Streamed
read_lines h step scan_error state n [] = record {
  deltas = [];
  final = elim scan_error [ none ↦ none | some e ↦ some (transport e) ];
}
read_lines h step scan_error state n (line ∷ lines) =
    let read =
      on_step (h.is_done n) (λ state'. read_lines h step scan_error state' n lines)
        (λ state'. read_lines h step scan_error state' (suc n) lines)
        (line_step step state (payload_of line)) in
    if ltb (length line) max_line
    then read
    else record { deltas = []; final = some (transport (codes "token too long")) }

-- The end of `Stream`.
unfoldable pub read_stream :
    {S : Type 0}
    → Http
    → (Text → Option Text)
    → (S → Text → Step S)
    → S
    → HttpReply
    → Completion Streamed
unfolding read_lines
read_stream h decode_error step start r =
    if leb 400 r.status
    then failed (api_error h decode_error r (or_empty r.body))
    else answered (read_lines h step r.scan_error start 0 r.lines)

-- The end of `HealthCheck`.
abbrev pub health_of : Http → (Text → Option Text) → HttpReply → Completion Unit
health_of h decode_error r =
    if leb 400 r.status
    then failed (
        api (record {
          status_code = r.status;
          message = error_message decode_error (or_empty r.body);
          retry_after = 0;
        }))
    else answered tt
