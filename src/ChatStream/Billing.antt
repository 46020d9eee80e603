-- ===== src/ChatStream/Billing.antt =====
-- internal/server/stream.go: what a streaming request is charged and what the ledger has of it.
use llm_inference_gateway.Base.{
  ℕ, ◌+◌, ◌≡◌, refl, some, none, sym, ap, ◌∙◌, Bool, true, false, List, [], ◌∷◌, ◌++◌, Option, All,
  All-append, All-map, Option-cases, inl, inr, Text,
}
use llm_inference_gateway.Base.Int.{ℤ, pos, ◌+ℤ◌, ◌-ℤ◌}
use llm_inference_gateway.Router.{Tier}
use llm_inference_gateway.Auth.{Identity}
use llm_inference_gateway.Retry.Stream.{
  Delta, Sent, StreamOutcome, stream_ok, stream_error, stream_unfinished, execute_stream,
}
use llm_inference_gateway.Retry.Delivery.{Delivery, whole, torn, unsent, execute_stream-Delivery}
use llm_inference_gateway.Exchange.{
  Request, Response, Deps, CacheLookup, CacheTier, check_caches, store_in_caches, cache_hit_row,
  records, adjusts,
}
use llm_inference_gateway.Exchange.Account.{
  charged, recorded, IsWire, IsFree, IsWire-IsFree, charged_free_alone, recorded_free_alone,
  charged-free, recorded-free, store_in_caches-IsFree, settle_all, settle_rest, plus_zero,
}
use llm_inference_gateway.ChatStream.{
  StreamState, initial, note_delta, send_headers, send_event, send_delta, on_delta, replay,
  streaming_of, finish_stream, handle_stream_error, write_cached_stream, handle_streaming,
  billed_usage, streamed_response,
}

send_headers-IsWire :
    (b : Bool) (name : Text) (st : StreamState)
    → All IsWire st.written
    → All IsWire (send_headers b name st).written
unfolding send_headers
send_headers-IsWire true name st a = a
send_headers-IsWire false name st a = All-append IsWire st.written _ a (tt, tt)

send_event-IsWire :
    (b : Bool) (delta : Delta) (st : StreamState)
    → All IsWire st.written
    → All IsWire (send_event b delta st).0.written
unfolding send_event
send_event-IsWire true delta st a = All-append IsWire st.written _ a (tt, tt)
send_event-IsWire false delta st a = a

send_delta-IsWire :
    (b : Bool) (d : Deps) (name : Text) (delta : Delta) (st : StreamState)
    → All IsWire st.written
    → All IsWire (send_delta b d name delta st).0.written
unfolding send_delta
send_delta-IsWire true d name delta st a = a
send_delta-IsWire false d name delta st a =
    send_event-IsWire _ delta _ (send_headers-IsWire st.headers_sent name st a)

on_delta-IsWire :
    (d : Deps) (name model : Text) (delta : Delta) (st : StreamState)
    → All IsWire st.written
    → All IsWire (on_delta d name model delta st).0.written
unfolding on_delta note_delta
on_delta-IsWire d name model delta st a =
    send_delta-IsWire _ d name delta (note_delta d name model delta st) a

pub replay-IsWire :
    (d : Deps) (sent : List Sent) (st : StreamState)
    → All IsWire st.written
    → All IsWire (replay d sent st).written
unfolding replay
replay-IsWire d [] st a = a
replay-IsWire d (x ∷ xs) st a =
    replay-IsWire d xs _ (on_delta-IsWire d x.provider_name x.model x.delta st a)

pub replay-IsFree : (d : Deps) (sent : List Sent) → All IsFree (replay d sent initial).written
replay-IsFree d sent = All-map _ IsWire-IsFree (replay-IsWire d sent initial tt)

finish_stream-settles :
    (q : Request) (ttl : Option ℤ) (cost : ℤ) (prompt_tokens : ℕ) (l : CacheLookup)
    (st : StreamState) (sent : List Sent) (outcome : StreamOutcome)
    → Delivery sent outcome
    → cost +ℤ charged (finish_stream q ttl cost prompt_tokens l st outcome)
      ≡ recorded (finish_stream q ttl cost prompt_tokens l st outcome)
unfolding finish_stream handle_stream_error charged recorded ◌+ℤ◌ ◌-ℤ◌
finish_stream-settles q ttl cost prompt_tokens l st sent outcome (whole n res fc) =
    let usage = billed_usage res.usage prompt_tokens st.completion_tokens in
    let stores = store_in_caches l (streamed_response q st usage) ttl in
    let free = store_in_caches-IsFree l (streamed_response q st usage) ttl in
    let none_charged : charged stores ≡ pos 0 = charged_free_alone stores free in
    let none_recorded : recorded stores ≡ pos 0 = recorded_free_alone stores free in
    let total = pos (usage.prompt_tokens + usage.completion_tokens) in
    ap (λ x. cost +ℤ (x -ℤ (cost -ℤ total))) none_charged
    ∙ settle_rest cost (usage.prompt_tokens + usage.completion_tokens)
    ∙ ap (λ x. total +ℤ x) (sym none_recorded)
finish_stream-settles q ttl cost prompt_tokens l st sent outcome (torn n err attempts fc h) =
    settle_rest cost (prompt_tokens + st.completion_tokens)
finish_stream-settles q ttl cost prompt_tokens l st sent outcome (unsent err attempts h) =
    settle_all cost

-- What the ledger is to have of a stream: the usage of a complete one, as reported or else as counted;
-- the prompt and what was counted of one that broke off after content; nothing of any other.
pub due : StreamOutcome → ℕ → ℕ → ℤ
due (stream_ok res) prompt_tokens counted =
    let usage = billed_usage res.usage prompt_tokens counted in
    pos (usage.prompt_tokens + usage.completion_tokens)
due (stream_error err attempts true) prompt_tokens counted = pos (prompt_tokens + counted)
due (stream_error err attempts false) prompt_tokens counted = pos 0
due stream_unfinished prompt_tokens counted = pos 0

finish_stream-due :
    (q : Request) (ttl : Option ℤ) (cost : ℤ) (prompt_tokens : ℕ) (l : CacheLookup)
    (st : StreamState) (sent : List Sent) (outcome : StreamOutcome)
    → Delivery sent outcome
    → recorded (finish_stream q ttl cost prompt_tokens l st outcome)
      ≡ due outcome prompt_tokens st.completion_tokens
unfolding finish_stream handle_stream_error recorded due ◌+ℤ◌
finish_stream-due q ttl cost prompt_tokens l st sent outcome (whole n res fc) =
    let usage = billed_usage res.usage prompt_tokens st.completion_tokens in
    let stores = store_in_caches l (streamed_response q st usage) ttl in
    let free = store_in_caches-IsFree l (streamed_response q st usage) ttl in
    let total = usage.prompt_tokens + usage.completion_tokens in
    ap (λ x. pos total +ℤ x) (recorded_free_alone stores free) ∙ plus_zero total
finish_stream-due q ttl cost prompt_tokens l st sent outcome (torn n err attempts fc h) =
    plus_zero (prompt_tokens + st.completion_tokens)
finish_stream-due q ttl cost prompt_tokens l st sent outcome (unsent err attempts h) = refl

-- The outcome of the engine, and the variables after its calls of `onDelta`.
abbrev pub outcome_of_stream : Deps → List Tier → StreamOutcome
outcome_of_stream d tiers = (execute_stream (streaming_of d) d.engine tiers d.world).2

abbrev pub counted_of_stream : Deps → List Tier → ℕ
counted_of_stream d tiers =
    (replay d (execute_stream (streaming_of d) d.engine tiers d.world).1 initial).completion_tokens

pub handle_streaming-due :
    (d : Deps) (q : Request) (ttl : Option ℤ) (tiers : List Tier) (cost : ℤ) (prompt_tokens : ℕ)
    (id : Identity)
    → (check_caches d q id).0 ≡ none
    → recorded (handle_streaming d q ttl tiers cost prompt_tokens id)
      ≡ due (outcome_of_stream d tiers) prompt_tokens (counted_of_stream d tiers)
unfolding handle_streaming
handle_streaming-due d q ttl tiers cost prompt_tokens id miss =
    let lookup = (check_caches d q id).1 in
    let r = execute_stream (streaming_of d) d.engine tiers d.world in
    let st = replay d r.1 initial in
    rw (miss, handle_streaming)
      (recorded-free st.written (finish_stream q ttl cost prompt_tokens lookup st r.2)
          (replay-IsFree d r.1)
        ∙ finish_stream-due q ttl cost prompt_tokens lookup st r.1 r.2
            (execute_stream-Delivery (streaming_of d) d.engine tiers d.world))

recorded-cached :
    (can_flush : Bool) (tier : CacheTier) (r : Response) (cost : ℤ)
    → recorded
        (adjusts cost ∷ write_cached_stream can_flush tier r ++ records (cache_hit_row tier r) ∷ [])
      ≡ pos 0
unfolding write_cached_stream recorded ◌+ℤ◌
recorded-cached false tier r cost = refl
recorded-cached true tier r cost = refl

pub handle_streaming-hit :
    (d : Deps) (q : Request) (ttl : Option ℤ) (tiers : List Tier) (cost : ℤ) (prompt_tokens : ℕ)
    (id : Identity) (tier : CacheTier) (r : Response)
    → (check_caches d q id).0 ≡ some (tier, r)
    → recorded (handle_streaming d q ttl tiers cost prompt_tokens id) ≡ pos 0
unfolding handle_streaming
handle_streaming-hit d q ttl tiers cost prompt_tokens id tier r found =
    rw (found, handle_streaming) (recorded-cached d.can_flush tier r cost)

cached_stream-settles :
    (can_flush : Bool) (tier : CacheTier) (r : Response) (cost : ℤ)
    → let es =
        adjusts cost ∷ write_cached_stream can_flush tier r
        ++ records (cache_hit_row tier r) ∷ [] in
      cost +ℤ charged es ≡ recorded es
unfolding write_cached_stream charged recorded ◌+ℤ◌ ◌-ℤ◌
cached_stream-settles false tier r cost = settle_all cost
cached_stream-settles true tier r cost = settle_all cost

-- The cost less all adjustments of a streaming request is what the ledger has of it.
pub handle_streaming-settles :
    (d : Deps) (q : Request) (ttl : Option ℤ) (tiers : List Tier) (cost : ℤ) (prompt_tokens : ℕ)
    (id : Identity)
    → cost +ℤ charged (handle_streaming d q ttl tiers cost prompt_tokens id)
      ≡ recorded (handle_streaming d q ttl tiers cost prompt_tokens id)
unfolding handle_streaming
handle_streaming-settles d q ttl tiers cost prompt_tokens id =
    let lookup = (check_caches d q id).1 in
    let r = execute_stream (streaming_of d) d.engine tiers d.world in
    let st = replay d r.1 initial in
    let rest = finish_stream q ttl cost prompt_tokens lookup st r.2 in
    let free = replay-IsFree d r.1 in
    elim (Option-cases (check_caches d q id).0) [
      | inr (hit, found) ↦
          rw (found, handle_streaming) (cached_stream-settles d.can_flush hit.0 hit.1 cost)
      | inl miss ↦
          rw (miss, handle_streaming)
            (ap (λ x. cost +ℤ x) (charged-free st.written rest free)
              ∙ finish_stream-settles q ttl cost prompt_tokens lookup st r.1 r.2
                  (execute_stream-Delivery (streaming_of d) d.engine tiers d.world)
              ∙ sym (recorded-free st.written rest free))
    ]
