-- ===== src/ChatStream/Wire.antt =====
-- internal/server/stream.go: what a streaming client receives.
use llm_inference_gateway.Base.{
  ℕ, ◌≡◌, refl, sym, ap, ◌∙◌, Bool, true, false, List, [], ◌∷◌, ◌++◌, none, some, arith,
  if◌then◌else◌, All, All-append, Bool-cases, inl, inr, Text, append_assoc, append-nil,
}
use llm_inference_gateway.Router.{Tier}
use llm_inference_gateway.Retry.{ProviderError}
use llm_inference_gateway.Retry.Stream.{Delta, Sent, offer, execute_stream}
use llm_inference_gateway.Exchange.{Deps, Effect, starts_stream, sends_chunk}
use llm_inference_gateway.ChatStream.{
  StreamState, initial, note_delta, send_headers, send_event, send_delta, on_delta, replay,
  streaming_of,
}
use llm_inference_gateway.ChatStream.Log.{execute_stream-keeps}

-- The content of the events.
unfoldable pub chunks : List Effect → Text
chunks [] = []
chunks (sends_chunk content finish ∷ es) = content ++ chunks es
chunks (_ ∷ es) = chunks es

pub chunks-append : (es fs : List Effect) → chunks (es ++ fs) ≡ chunks es ++ chunks fs
unfolding chunks
chunks-append [] fs = refl
chunks-append (sends_chunk content finish ∷ es) fs =
    ap (λ t. content ++ t) (chunks-append es fs)
    ∙ sym (append_assoc content (chunks es) (chunks fs))
chunks-append (starts_stream name tier ∷ es) fs = chunks-append es fs
chunks-append (_ ∷ es) fs = chunks-append es fs

-- The content that a log says the client took.
unfoldable pub heard_content : List Sent → Text
heard_content [] = []
heard_content (x ∷ xs) =
    let rest = heard_content xs in if x.accepted then x.delta.content ++ rest else rest

heard_content-append :
    (xs ys : List Sent) → heard_content (xs ++ ys) ≡ heard_content xs ++ heard_content ys
unfolding heard_content
heard_content-append [] ys = refl
heard_content-append (x ∷ xs) ys = elim (Bool-cases x.accepted) [
  | inl on ↦
      rw (on, heard_content)
        (ap (λ t. x.delta.content ++ t) (heard_content-append xs ys)
          ∙ sym (append_assoc x.delta.content (heard_content xs) (heard_content ys)))
  | inr off ↦ rw (off, heard_content) (heard_content-append xs ys)
]

replay-append :
    (d : Deps) (xs ys : List Sent) (st : StreamState)
    → replay d (xs ++ ys) st ≡ replay d ys (replay d xs st)
unfolding replay
replay-append d [] ys st = refl
replay-append d (x ∷ xs) ys st =
    replay-append d xs ys (on_delta d x.provider_name x.model x.delta st).0

-- What a call of `onDelta` adds to the events and to the content, stage by stage.
send_headers-chunks :
    (b : Bool) (name : Text) (st : StreamState)
    → (chunks (send_headers b name st).written ≡ chunks st.written)
      × ((send_headers b name st).full_content ≡ st.full_content)
unfolding send_headers chunks
send_headers-chunks true name st = (refl, refl)
send_headers-chunks false name st =
    (chunks-append st.written _ ∙ append-nil (chunks st.written), refl)

send_event-taken :
    (b : Bool) (delta : Delta) (st : StreamState)
    → (send_event b delta st).1 ≡ none
    → (chunks (send_event b delta st).0.written ≡ chunks st.written ++ delta.content)
      × ((send_event b delta st).0.full_content ≡ st.full_content)
unfolding send_event chunks
send_event-taken true delta st h =
    (chunks-append st.written _ ∙ ap (λ t. chunks st.written ++ t) (append-nil delta.content), refl)
send_event-taken false delta st h = absurd (ground arith)

send_event-refused :
    (b : Bool) (delta : Delta) (st : StreamState) (f : ProviderError)
    → (send_event b delta st).1 ≡ some f
    → chunks (send_event b delta st).0.written ≡ chunks st.written
unfolding send_event
send_event-refused true delta st f h = absurd (ground arith)
send_event-refused false delta st f h = refl

send_delta-taken :
    (b : Bool) (d : Deps) (name : Text) (delta : Delta) (st : StreamState)
    → (send_delta b d name delta st).1 ≡ none
    → (chunks (send_delta b d name delta st).0.written ≡ chunks st.written ++ delta.content)
      × ((send_delta b d name delta st).0.full_content ≡ st.full_content)
unfolding send_delta
send_delta-taken true d name delta st h = absurd (ground arith)
send_delta-taken false d name delta st h =
    let opened = send_headers-chunks st.headers_sent name st in
    let sent = send_event-taken _ delta (send_headers st.headers_sent name st) h in
    (sent.0 ∙ ap (λ t. t ++ delta.content) opened.0, sent.1 ∙ opened.1)

send_delta-refused :
    (b : Bool) (d : Deps) (name : Text) (delta : Delta) (st : StreamState) (f : ProviderError)
    → (send_delta b d name delta st).1 ≡ some f
    → chunks (send_delta b d name delta st).0.written ≡ chunks st.written
unfolding send_delta
send_delta-refused true d name delta st f h = refl
send_delta-refused false d name delta st f h =
    send_event-refused _ delta (send_headers st.headers_sent name st) f h
    ∙ (send_headers-chunks st.headers_sent name st).0

on_delta-taken :
    (d : Deps) (name model : Text) (delta : Delta) (st : StreamState)
    → (on_delta d name model delta st).1 ≡ none
    → (chunks (on_delta d name model delta st).0.written ≡ chunks st.written ++ delta.content)
      × ((on_delta d name model delta st).0.full_content ≡ st.full_content ++ delta.content)
unfolding on_delta note_delta
on_delta-taken d name model delta st h =
    send_delta-taken _ d name delta (note_delta d name model delta st) h

on_delta-refused :
    (d : Deps) (name model : Text) (delta : Delta) (st : StreamState) (f : ProviderError)
    → (on_delta d name model delta st).1 ≡ some f
    → chunks (on_delta d name model delta st).0.written ≡ chunks st.written
unfolding on_delta note_delta
on_delta-refused d name model delta st f h =
    send_delta-refused _ d name delta (note_delta d name model delta st) f h

-- The log tells what was sent, and what was noted while nothing was refused.
abbrev pub Faithful : Deps → List Sent → Type 0
Faithful d sent =
    (chunks (replay d sent initial).written ≡ heard_content sent)
    × (All (λ x. x.accepted ≡ true) sent
        → (replay d sent initial).full_content ≡ heard_content sent)

All-front :
    (xs ys : List Sent) → All (λ x. x.accepted ≡ true) (xs ++ ys) → All (λ x. x.accepted ≡ true) xs
All-front [] ys a = tt
All-front (x ∷ xs) ys a = (a.0, All-front xs ys a.1)

All-back :
    (xs ys : List Sent) → All (λ x. x.accepted ≡ true) (xs ++ ys) → All (λ x. x.accepted ≡ true) ys
All-back [] ys a = a
All-back (x ∷ xs) ys a = All-back xs ys a.1

pub log-Faithful :
    (d : Deps) (tiers : List Tier)
    → Faithful d (execute_stream (streaming_of d) d.engine tiers d.world).1
unfolding replay heard_content chunks
log-Faithful d tiers =
    execute_stream-keeps (streaming_of d) (Faithful d)
      (λ sent c n delta fine p.
        let st = replay d sent initial in
        let step = on_delta-taken d c.provider_name c.model delta st fine in
        let after = replay-append d sent (offer c n delta true ∷ []) initial in
        let more = heard_content-append sent (offer c n delta true ∷ []) in
        let total = sym (more ∙ ap (λ t. heard_content sent ++ t) (append-nil delta.content)) in
        (
          ap (λ s. chunks s.written) after ∙ step.0 ∙ ap (λ t. t ++ delta.content) p.0 ∙ total,
          λ a.
              ap (λ s. s.full_content) after
              ∙ step.1
              ∙ ap (λ t. t ++ delta.content) (p.1 (All-front sent _ a))
              ∙ total,
        ))
      (λ sent c n delta f bad p.
        let st = replay d sent initial in
        let step = on_delta-refused d c.provider_name c.model delta st f bad in
        let after = replay-append d sent (offer c n delta false ∷ []) initial in
        let more = heard_content-append sent (offer c n delta false ∷ []) in
        (
          ap (λ s. chunks s.written) after
              ∙ step
              ∙ p.0
              ∙ sym (more ∙ append-nil (heard_content sent)),
          λ a. absurd (ground (arith, (All-back sent _ a).0)),
        ))
      d.engine tiers d.world (refl, λ a. refl)

-- No call of `onDelta` fails when events can be flushed and written.
send_event-fine :
    (b : Bool) (delta : Delta) (st : StreamState) → b ≡ true → (send_event b delta st).1 ≡ none
unfolding send_event
send_event-fine true delta st h = refl
send_event-fine false delta st h = absurd (ground arith)

send_delta-fine :
    (b : Bool) (d : Deps) (name : Text) (delta : Delta) (st : StreamState)
    → b ≡ false
    → ((n : ℕ) → d.write_succeeds n ≡ true)
    → (send_delta b d name delta st).1 ≡ none
unfolding send_delta
send_delta-fine true d name delta st h w = absurd (ground arith)
send_delta-fine false d name delta st h w =
    let st' = send_headers st.headers_sent name st in
    send_event-fine (d.write_succeeds st'.writes) delta st' (w st'.writes)

on_delta-fine :
    (d : Deps) (name model : Text) (delta : Delta) (st : StreamState)
    → d.can_flush ≡ true
    → ((n : ℕ) → d.write_succeeds n ≡ true)
    → (on_delta d name model delta st).1 ≡ none
unfolding on_delta
on_delta-fine d name model delta st f w = send_delta-fine _ d name delta _ (ground arith) w

pub log-accepted :
    (d : Deps) (tiers : List Tier)
    → d.can_flush ≡ true
    → ((n : ℕ) → d.write_succeeds n ≡ true)
    → All (λ x. x.accepted ≡ true) (execute_stream (streaming_of d) d.engine tiers d.world).1
log-accepted d tiers f w =
    execute_stream-keeps (streaming_of d) (λ sent. All (λ x. x.accepted ≡ true) sent)
      (λ sent c n delta fine a. All-append _ sent _ a (refl, tt))
      (λ sent c n delta g bad a. absurd (
        ground
          (arith, on_delta-fine d c.provider_name c.model delta (replay d sent initial) f w, bad)))
      d.engine tiers d.world tt
