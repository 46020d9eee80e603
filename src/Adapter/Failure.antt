-- ===== src/Adapter/Failure.antt =====
-- internal/providers/openai/openai.go and internal/providers/anthropic/anthropic.go: the errors of a call.
use llm_inference_gateway.Base.{
  ℕ, ◌≤◌, ◌<◌, ◌≡◌, refl, true, false, Option, none, some, arith, leb, Bool-cases, Option-cases,
  inl, inr, ◌⊎◌, [], Text, leb→le,
}
use llm_inference_gateway.Retry.{ProviderError, Completion, answered, failed}
use llm_inference_gateway.Retry.Calls.{status_of}
use llm_inference_gateway.Adapter.{
  CanonicalRequest, HttpRequest, HttpReply, Http, perform_request, read_reply,
}
use llm_inference_gateway.Adapter.OpenAi.{
  Codec, Provider, translate_request as chat_request, chat_http_request, translate_response,
  complete,
}
use llm_inference_gateway.Adapter.Anthropic.{
  WireCodec, complete as complete_anthropic, translate_request as wire_request,
  translate_response as translate_anthropic, messages_http_request,
}

-- The client accepts the request, and the service replies.
abbrev pub Replies : Http → HttpRequest → HttpReply → Type 0
Replies h request r = (h.accepts request ≡ true) × (h.perform request ≡ some r)

-- How a call ends whose request is `build body` for the encoded `body`: with the response that the
-- body of a reply below 400 decodes to, with the status of a reply from 400 on, or with an error
-- without a status for one of the reasons that are listed.
pub data Outcome {R : Type 0} (h : Http) (encoded : Option Text) (build : Text → HttpRequest)
    (decode : Text → Option R) : Completion R → Type 0 where
  good :
      (sent : Text) (r : HttpReply) (body : Text) (response : R)
      → encoded ≡ some sent
      → Replies h (build sent) r
      → r.status < 400
      → r.body ≡ some body
      → decode body ≡ some response
      → Outcome h encoded build decode (answered response)
  refused :
      (sent : Text) (r : HttpReply) (f : ProviderError)
      → encoded ≡ some sent
      → Replies h (build sent) r
      → 400 ≤ r.status
      → status_of f ≡ r.status
      → Outcome h encoded build decode (failed f)
  unencoded :
      (f : ProviderError)
      → encoded ≡ none
      → status_of f ≡ 0
      → Outcome h encoded build decode (failed f)
  unsent :
      (sent : Text) (f : ProviderError)
      → encoded ≡ some sent
      → (h.accepts (build sent) ≡ false) ⊎ (h.perform (build sent) ≡ none)
      → status_of f ≡ 0
      → Outcome h encoded build decode (failed f)
  unread :
      (sent : Text) (r : HttpReply) (f : ProviderError)
      → encoded ≡ some sent
      → Replies h (build sent) r
      → r.body ≡ none
      → status_of f ≡ 0
      → Outcome h encoded build decode (failed f)
  undecoded :
      (sent : Text) (r : HttpReply) (body : Text) (f : ProviderError)
      → encoded ≡ some sent
      → Replies h (build sent) r
      → r.status < 400
      → r.body ≡ some body
      → decode body ≡ none
      → status_of f ≡ 0
      → Outcome h encoded build decode (failed f)

module _ {R : Type 0} (h : Http) (decode_error : Text → Option Text) (encoded : Option Text)
    (build : Text → HttpRequest) (decode : Text → Option R) where
  read_reply-Outcome :
      (sent : Text) (r : HttpReply)
      → encoded ≡ some sent
      → Replies h (build sent) r
      → Outcome h encoded build decode (read_reply h decode_error decode r)
  unfolding read_reply status_of
  read_reply-Outcome sent r e replied = elim (Option-cases r.body) [
    | inl lost ↦ rw (lost, read_reply) (unread sent r _ e replied lost refl)
    | inr (body, whole) ↦ elim (Bool-cases (leb 400 r.status)) [
      | inl bad ↦
          rw (whole, bad, read_reply) (refused sent r _ e replied (leb→le 400 r.status bad) refl)
      | inr fine ↦
          let low : r.status < 400 = ground arith in
          elim (Option-cases (decode body)) [
            | inl garbage ↦
                rw (whole, fine, garbage, read_reply)
                  (undecoded sent r body _ e replied low whole garbage refl)
            | inr (response, decoded) ↦
                rw (whole, fine, decoded, read_reply)
                  (good sent r body response e replied low whole decoded)
          ]
    ]
  ]

perform_request-Outcome :
    {R : Type 0} (h : Http) (decode_error : Text → Option Text) (encoded : Option Text)
    (build : Text → HttpRequest) (decode : Text → Option R)
    → Outcome h encoded build decode
        (perform_request h encoded build (read_reply h decode_error decode))
unfolding perform_request status_of
perform_request-Outcome h decode_error none build decode = unencoded _ refl refl
perform_request-Outcome h decode_error (some body) build decode =
    elim (Bool-cases (h.accepts (build body))) [
      | inr rejected ↦ rw (rejected, perform_request) (unsent body _ refl (inl rejected) refl)
      | inl accepted ↦ elim (Option-cases (h.perform (build body))) [
        | inl down ↦ rw (accepted, down, perform_request) (unsent body _ refl (inr down) refl)
        | inr (r, sent) ↦
            rw (accepted, sent, perform_request)
              (read_reply-Outcome h decode_error (some body) build decode body r refl
                (accepted, sent))
      ]
    ]

-- A call of an OpenAI-shaped or of an Anthropic-shaped provider ends in the decoded response of a reply
-- with a status below 400, in an error that carries the status of a reply from 400 on, or in an error
-- without a status, and that only if the request cannot be encoded or built, no reply comes, its body
-- cannot be read, or the body of a reply below 400 does not decode.
pub complete-Outcome :
    {F G : Type 0} (h : Http) (c : Codec F) (p : Provider) (q : CanonicalRequest F)
    (k : WireCodec G) (now : ℕ) (v : Provider) (q' : CanonicalRequest G)
    → Outcome h
        (c.encode (chat_request q))
        (chat_http_request p [])
        (translate_response c)
        (complete c h p q)
      × Outcome h
          (k.encode (wire_request q'))
          (messages_http_request v [])
          (translate_anthropic k now)
          (complete_anthropic k h now v q')
unfolding complete complete_anthropic
complete-Outcome h c p q k now v q' = (
  perform_request-Outcome h c.decode_error _ _ (translate_response c),
  perform_request-Outcome h k.decode_error _ _ (translate_anthropic k now),
)
