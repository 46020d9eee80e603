-- ===== src/Adapter/Relay.antt =====
-- internal/server/stream.go against internal/providers/openai/openai.go: a gateway as the provider of
-- another one.
use llm_inference_gateway.Base.{
  ℕ, suc, ◌≡◌, refl, ap, sym, ◌∙◌, true, false, length, ltb, List, [], ◌∷◌, ◌++◌, none, some, All,
  Text, codes, text_eq,
}
use llm_inference_gateway.Retry.Stream.{Delta, Sent}
use llm_inference_gateway.Exchange.{Deps, Effect, sends_chunk, sends_done, starts_stream}
use llm_inference_gateway.Exchange.Json.{JsonValue}
use llm_inference_gateway.Exchange.Account.{IsWire}
use llm_inference_gateway.ChatStream.{Payloads, sse_lines, replay, initial}
use llm_inference_gateway.ChatStream.Chunk.{chunk_value}
use llm_inference_gateway.ChatStream.Wire.{chunks}
use llm_inference_gateway.ChatStream.Billing.{replay-IsWire}
use llm_inference_gateway.Adapter.{
  Http, max_line, on_step, send_delta, read_lines, payload_of, add_delta, line_step, emits,
}
use llm_inference_gateway.Adapter.OpenAi.{
  Codec, chunk_step, on_chunk, decode_chunk, stream_chunk_of,
}

-- `encoding/json` on the chunks of one stream: the payload is the chunk's JSON, an object begins with a
-- brace, and what was written is parsed again.
pub record JsonLaws {F : Type 0} (c : Codec F) (p : Payloads) : Type 0 where
  pub render : JsonValue → Text
  pub id : Text
  pub created : ℕ
  pub model : Text
  pub marshals :
      (content finish : Text)
      → p.of_chunk content finish ≡ render (chunk_value id created model content finish)
  pub braces :
      (content finish : Text)
      → (rest : Text) × (render (chunk_value id created model content finish) ≡ 123 ∷ rest)
  pub parses :
      (content finish : Text)
      → c.parse_chunk (render (chunk_value id created model content finish))
        ≡ some (chunk_value id created model content finish)

-- A provider's chunk gives back the content and the reason that the gateway's chunk was made of.
pub stream_chunk_of-chunk_value :
    (id : Text) (created : ℕ) (model content finish : Text)
    → stream_chunk_of (chunk_value id created model content finish)
      ≡ some (record { choices = (content, finish) ∷ [] })
unfolding stream_chunk_of chunk_value
stream_chunk_of-chunk_value id created model [] [] = refl
stream_chunk_of-chunk_value id created model [] (f ∷ fs) = refl
stream_chunk_of-chunk_value id created model (x ∷ xs) [] = refl
stream_chunk_of-chunk_value id created model (x ∷ xs) (f ∷ fs) = refl

-- The deltas that stand for the events.
unfoldable pub deltas_of : List Effect → List Delta
deltas_of [] = []
deltas_of (sends_chunk content finish ∷ es) =
    record { content = content; finish_reason = finish; usage = none } ∷ deltas_of es
deltas_of (_ ∷ es) = deltas_of es

unfoldable pub contents_of : List Delta → Text
contents_of [] = []
contents_of (d ∷ ds) = d.content ++ contents_of ds

-- A line that fits the reader's buffer.
abbrev pub Fits : Text → Type 0
Fits line = ltb (length line) max_line ≡ true

module _ {F : Type 0} (c : Codec F) (p : Payloads) (json : JsonLaws c p) where
  chunk_line-step :
      (content finish : Text)
      → line_step (chunk_step c) tt (payload_of (codes "data: " ++ p.of_chunk content finish))
        ≡ emits (record { content = content; finish_reason = finish; usage = none }) tt
  unfolding chunk_step decode_chunk
  chunk_line-step content finish =
      let v = chunk_value json.id json.created json.model content finish in
      let brace = json.braces content finish in
      let raw = json.marshals content finish ∙ brace.1 in
      let parsed : c.parse_chunk (123 ∷ brace.0) ≡ some v =
        ap c.parse_chunk (sym brace.1) ∙ json.parses content finish in
      let read : chunk_step c tt (123 ∷ brace.0)
          ≡ emits (record { content = content; finish_reason = finish; usage = none }) tt =
        ap (λ o. on_chunk (decode_chunk o)) parsed
        ∙ ap on_chunk
            (stream_chunk_of-chunk_value json.id json.created json.model content finish) in
      ap (λ t. line_step (chunk_step c) tt (payload_of (codes "data: " ++ t))) raw ∙ read

  -- An event that gives a delta, and the blank line after it.
  read_lines-emits :
      (h : Http) (n : ℕ) (line : Text) (lines : List Text) (d : Delta)
      → h.is_done n ≡ false
      → Fits line
      → line_step (chunk_step c) tt (payload_of line) ≡ emits d tt
      → read_lines h (chunk_step c) none tt n (line ∷ [] ∷ lines)
        ≡ add_delta d (read_lines h (chunk_step c) none tt (suc n) lines)
  unfolding read_lines
  read_lines-emits h n line lines d alive fits e =
      let rest = read_lines h (chunk_step c) none tt (suc n) lines in
      rw (fits, read_lines)
        (ap (on_step (h.is_done n) _ (λ state. rest)) e ∙ ap (λ b. send_delta b d rest) alive)

  read_lines-events :
      (h : Http) (n : ℕ) (es fs : List Effect)
      → ((k : ℕ) → h.is_done k ≡ false)
      → All IsWire es
      → All Fits (sse_lines p (es ++ sends_done ∷ fs))
      → read_lines h (chunk_step c) none tt n (sse_lines p (es ++ sends_done ∷ fs))
        ≡ record { deltas = deltas_of es; final = none }
  unfolding read_lines sse_lines deltas_of chunk_step
  read_lines-events h n [] fs alive w fits = refl
  read_lines-events h n (starts_stream name tier ∷ es) fs alive w fits =
      read_lines-events h n es fs alive w.1 fits
  read_lines-events h n (sends_chunk content finish ∷ es) fs alive w fits =
      read_lines-emits h n (codes "data: " ++ p.of_chunk content finish)
        (sse_lines p (es ++ sends_done ∷ fs))
        (record { content = content; finish_reason = finish; usage = none }) (alive n) fits.0
        (chunk_line-step content finish)
      ∙ ap (add_delta (record { content = content; finish_reason = finish; usage = none }))
          (read_lines-events h (suc n) es fs alive w.1 fits.1.1)
  read_lines-events h n (_ ∷ es) fs alive w fits = absurd w.0

  deltas_of-content : (es : List Effect) → contents_of (deltas_of es) ≡ chunks es
  unfolding deltas_of contents_of chunks
  deltas_of-content [] = refl
  deltas_of-content (sends_chunk content finish ∷ es) =
      ap (λ t. content ++ t) (deltas_of-content es)
  deltas_of-content (_ ∷ es) = deltas_of-content es

  -- An OpenAI-shaped client that reads the lines which a streaming request wrote before its end marker
  -- ends without an error, with exactly the content that was sent; provided that the client's context
  -- does not end meanwhile, every line fits its buffer of 1 MiB, and `encoding/json` parses the chunks
  -- that it wrote.
  pub stream-relayed :
      (h : Http) (d : Deps) (sent : List Sent) (fs : List Effect)
      → ((k : ℕ) → h.is_done k ≡ false)
      → All Fits (sse_lines p ((replay d sent initial).written ++ sends_done ∷ fs))
      → let es = (replay d sent initial).written in
        let r = read_lines h (chunk_step c) none tt 0 (sse_lines p (es ++ sends_done ∷ fs)) in
        (r.final ≡ none) × (contents_of r.deltas ≡ chunks es)
  stream-relayed h d sent fs alive fits =
      let es = (replay d sent initial).written in
      let read = read_lines-events h 0 es fs alive (replay-IsWire d sent initial tt) fits in
      (ap (λ r. r.final) read, ap (λ r. contents_of r.deltas) read ∙ deltas_of-content es)
