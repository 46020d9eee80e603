-- ===== src/Chat/Cases.antt =====
-- internal/server/chat.go: the branches of the handler.
use llm_inference_gateway.Base.{
  ℕ, ◌≡◌, refl, List, [], ◌∷◌, Option, none, some, if◌then◌else◌, Bool-cases, Option-cases, inl,
  inr, Text,
}
use llm_inference_gateway.Base.Int.{ℤ, pos, ◌+ℤ◌}
use llm_inference_gateway.Router.{Tier, resolve}
use llm_inference_gateway.Auth.{Identity}
use llm_inference_gateway.Exchange.{
  Message, Request, Deps, Limits, Effect, reserves, refuses, cache_ttl_override,
}
use llm_inference_gateway.ChatStream.{handle_streaming}
use llm_inference_gateway.Chat.{
  complete, given, admit, with_tiers, with_ttl, with_body, handle_request,
}

-- A predicate of the effects holds of every request when it holds of each refusal and of each request
-- that the limiter lets in.
module _ (d : Deps) (q : Request) (P : List Effect → Type 0)
    (refusal : (status : ℕ) → P (refuses status ∷ []))
    (let_in : (ttl : Option ℤ) (tiers : List Tier) (id : Identity)
      → resolve d.router q.model ≡ some tiers
      → d.identity ≡ some id
      → let prompt_tokens = d.count_messages q.messages in
        let cost = pos prompt_tokens +ℤ given q.max_tokens d.estimate_completion_tokens in
        P (
          reserves cost
          ∷ (if q.stream
              then handle_streaming d q ttl tiers cost prompt_tokens id
              else complete d q ttl tiers cost id))) where
  admit-cases :
      (ttl : Option ℤ) (tiers : List Tier) (id : Identity)
      → resolve d.router q.model ≡ some tiers
      → d.identity ≡ some id
      → P (admit d q ttl tiers id)
  unfolding admit
  admit-cases ttl tiers id routed who =
      let cost =
        pos (d.count_messages q.messages) +ℤ given q.max_tokens d.estimate_completion_tokens in
      let limits : Limits = record {
        org_limit = id.org_tpm_limit;
        team_limit = id.team_tpm_limit;
        key_limit = given id.key_tpm_limit d.default_tpm;
      } in
      elim (Option-cases (d.reserve limits cost)) [
        | inl down ↦ rw (down, admit) (refusal 500)
        | inr (decision, asked) ↦ elim (Bool-cases decision.allowed) [
          | inr rejected ↦ rw (asked, rejected, admit) (refusal 429)
          | inl allowed ↦ rw (asked, allowed, admit) (let_in ttl tiers id routed who)
        ]
      ]

  with_tiers-cases :
      (ttl : Option ℤ) (tiers : Option (List Tier)) (id : Option Identity)
      → resolve d.router q.model ≡ tiers
      → d.identity ≡ id
      → P (with_tiers d q ttl tiers id)
  unfolding with_tiers
  with_tiers-cases ttl none id routed who = refusal 400
  with_tiers-cases ttl (some []) id routed who = refusal 400
  with_tiers-cases ttl (some (t ∷ ts)) none routed who = refusal 500
  with_tiers-cases ttl (some (t ∷ ts)) (some id) routed who = admit-cases ttl (t ∷ ts) id routed who

  with_ttl-cases : (ttl : Option (Option ℤ)) → P (with_ttl d q ttl)
  unfolding with_ttl
  with_ttl-cases none = refusal 400
  with_ttl-cases (some ttl) = with_tiers-cases ttl (resolve d.router q.model) d.identity refl refl

  with_body-cases : (model : Text) (messages : List Message) → P (with_body d q model messages)
  unfolding with_body
  with_body-cases [] messages = refusal 400
  with_body-cases (c ∷ model) [] = refusal 400
  with_body-cases (c ∷ model) (m ∷ messages) =
      with_ttl-cases (cache_ttl_override d.parse_duration q.cache_ttl d.max_client_ttl)

  pub handle_request-cases : P (handle_request d q)
  unfolding handle_request
  handle_request-cases = with_body-cases q.model q.messages
