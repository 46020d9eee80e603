-- ===== src/ChatStream/Delivered.antt =====
-- internal/server/stream.go: the content that a streaming client receives, and what is cached of it.
use llm_inference_gateway.Base.{
  ℕ, ◌≡◌, refl, sym, ap, ◌∙◌, Bool, true, false, ◌&&◌, List, [], ◌∷◌, ◌++◌, Option, none, arith,
  if◌then◌else◌, All, All-map, Option-cases, inl, inr, Text, append-nil, nat_eq, nat_beq,
  nat_beq_iff,
}
use llm_inference_gateway.Base.Int.{ℤ}
use llm_inference_gateway.Router.{Tier}
use llm_inference_gateway.Auth.{Identity}
use llm_inference_gateway.Retry.Stream.{
  Delta, Sent, has_content, StreamOutcome, stream_ok, stream_error, stream_unfinished,
  execute_stream,
}
use llm_inference_gateway.Retry.Heard.{Silent, FromCall, Silent-FromCall}
use llm_inference_gateway.Retry.Delivery.{Delivery, whole, torn, unsent, execute_stream-Delivery}
use llm_inference_gateway.Exchange.{
  Request, Response, Deps, CacheLookup, CacheTier, Effect, check_caches, store_in_caches,
  cache_hit_row, records, adjusts, refuses, stores_exact, stores_semantic, starts_stream,
  sends_chunk,
}
use llm_inference_gateway.Exchange.Account.{IsWire, IsFree, store_in_caches-IsFree}
use llm_inference_gateway.ChatStream.{
  StreamState, initial, replay, streaming_of, finish_stream, handle_stream_error,
  write_cached_stream, handle_streaming, billed_usage, streamed_response, first_choice,
}
use llm_inference_gateway.ChatStream.Wire.{
  chunks, chunks-append, heard_content, log-Faithful, log-accepted,
}
use llm_inference_gateway.ChatStream.Billing.{replay-IsWire, replay-IsFree}

-- Whether an error status is sent.
unfoldable pub any_refusal : List Effect → Bool
any_refusal [] = false
any_refusal (refuses status ∷ es) = true
any_refusal (_ ∷ es) = any_refusal es

-- The contents of the responses that are cached.
unfoldable pub stored_contents : List Effect → List Text
stored_contents [] = []
stored_contents (stores_exact key r ttl ∷ es) = (first_choice r).0 ∷ stored_contents es
stored_contents (stores_semantic query r ttl ∷ es) = (first_choice r).0 ∷ stored_contents es
stored_contents (_ ∷ es) = stored_contents es

-- The content of one provider call that the client took.
unfoldable pub call_content : ℕ → List Sent → Text
call_content n [] = []
call_content n (x ∷ xs) =
    let rest = call_content n xs in
    if x.accepted && nat_beq x.call_number n then x.delta.content ++ rest else rest

silent_content : (d : Delta) → has_content d ≡ false → d.content ≡ []
silent_content d = of_content d.content
  where
    of_content : (t : Text) → (elim t [ [] ↦ false | _ ∷ _ ↦ true ]) ≡ false → t ≡ []
    of_content [] h = refl
    of_content (c ∷ t) h = absurd (ground arith)

Silent-heard_content : (sent : List Sent) → Silent sent → heard_content sent ≡ []
unfolding heard_content
Silent-heard_content [] q = refl
Silent-heard_content (x ∷ xs) q =
    ground (arith, Silent-heard_content xs q.1, q.0, silent_content x.delta)

FromCall-heard_content :
    (n : ℕ) (sent : List Sent) → FromCall n sent → heard_content sent ≡ call_content n sent
unfolding heard_content call_content
FromCall-heard_content n [] f = refl
FromCall-heard_content n (x ∷ xs) f = ground (
  arith,
  FromCall-heard_content n xs f.1,
  f.0,
  silent_content x.delta,
  nat_beq_iff x.call_number n,
)

free-any_refusal : (es fs : List Effect) → All IsFree es → any_refusal (es ++ fs) ≡ any_refusal fs
unfolding any_refusal
free-any_refusal [] fs a = refl
free-any_refusal (starts_stream name tier ∷ es) fs a = free-any_refusal es fs a.1
free-any_refusal (sends_chunk content finish ∷ es) fs a = free-any_refusal es fs a.1
free-any_refusal (stores_exact key r ttl ∷ es) fs a = free-any_refusal es fs a.1
free-any_refusal (stores_semantic query r ttl ∷ es) fs a = free-any_refusal es fs a.1
free-any_refusal (_ ∷ es) fs a = absurd a.0

store_in_caches-chunks :
    (l : CacheLookup) (r : Response) (ttl : Option ℤ) → chunks (store_in_caches l r ttl) ≡ []
unfolding store_in_caches chunks
store_in_caches-chunks l r ttl = ground arith

store_in_caches-stored :
    (l : CacheLookup) (r : Response) (ttl : Option ℤ)
    → All (λ t. t ≡ (first_choice r).0) (stored_contents (store_in_caches l r ttl))
unfolding store_in_caches stored_contents
store_in_caches-stored l r ttl = ground arith

finish_stream-chunks :
    (q : Request) (ttl : Option ℤ) (cost : ℤ) (prompt_tokens : ℕ) (l : CacheLookup)
    (st : StreamState) (outcome : StreamOutcome)
    → chunks (finish_stream q ttl cost prompt_tokens l st outcome) ≡ []
unfolding finish_stream handle_stream_error chunks
finish_stream-chunks q ttl cost prompt_tokens l st (stream_ok res) = store_in_caches-chunks l _ ttl
finish_stream-chunks q ttl cost prompt_tokens l st (stream_error err attempts true) = refl
finish_stream-chunks q ttl cost prompt_tokens l st (stream_error err attempts false) = refl
finish_stream-chunks q ttl cost prompt_tokens l st stream_unfinished = refl

cached-refusal :
    (can_flush : Bool) (tier : CacheTier) (r : Response) (cost : ℤ)
    → let es =
        adjusts cost ∷ write_cached_stream can_flush tier r
        ++ records (cache_hit_row tier r) ∷ [] in
      any_refusal es ≡ true → chunks es ≡ []
unfolding write_cached_stream any_refusal
cached-refusal false tier r cost h = absurd (ground arith)
cached-refusal true tier r cost h = absurd (ground arith)

cached-stored :
    (can_flush : Bool) (tier : CacheTier) (r : Response) (cost : ℤ) (P : Text → Type 0)
    → All P (
        stored_contents (
          adjusts cost ∷ write_cached_stream can_flush tier r
          ++ records (cache_hit_row tier r) ∷ []))
unfolding write_cached_stream stored_contents
cached-stored false tier r cost P = tt
cached-stored true tier r cost P = tt

wire-stores_nothing : (es : List Effect) → All IsWire es → stored_contents es ≡ []
unfolding stored_contents
wire-stores_nothing [] a = refl
wire-stores_nothing (starts_stream name tier ∷ es) a = wire-stores_nothing es a.1
wire-stores_nothing (sends_chunk content finish ∷ es) a = wire-stores_nothing es a.1
wire-stores_nothing (_ ∷ es) a = absurd a.0

-- Effects that only write events store nothing.
stored-free :
    (es fs : List Effect) (P : Text → Type 0)
    → stored_contents es ≡ []
    → All P (stored_contents fs)
    → All P (stored_contents (es ++ fs))
unfolding stored_contents
stored-free [] fs P e a = a
stored-free (stores_exact key r ttl ∷ es) fs P e a = absurd (ground arith)
stored-free (stores_semantic query r ttl ∷ es) fs P e a = absurd (ground arith)
stored-free (_ ∷ es) fs P e a = stored-free es fs P e a

module _ (d : Deps) (q : Request) (ttl : Option ℤ) (tiers : List Tier) (cost : ℤ)
    (prompt_tokens : ℕ) (id : Identity) where
  abbrev log : List Sent
  log = (execute_stream (streaming_of d) d.engine tiers d.world).1

  abbrev last_state : StreamState
  last_state = replay d log initial

  abbrev ending : List Effect
  ending =
      finish_stream q ttl cost prompt_tokens (check_caches d q id).1 last_state
        (execute_stream (streaming_of d) d.engine tiers d.world).2

  miss-chunks : chunks (last_state.written ++ ending) ≡ heard_content log
  miss-chunks =
      chunks-append last_state.written ending
      ∙ ap (λ t. chunks last_state.written ++ t)
          (finish_stream-chunks q ttl cost prompt_tokens _ last_state _)
      ∙ append-nil (chunks last_state.written)
      ∙ (log-Faithful d tiers).0

  one_call : (o : StreamOutcome) → Delivery log o → (n : ℕ) × FromCall n log
  one_call o (whole n res fc) = (n, fc)
  one_call o (torn n err attempts fc h) = (n, fc)
  one_call o (unsent err attempts q) = (0, Silent-FromCall 0 log q)

  -- When the caches have no answer, the content that the client receives is that of one single provider
  -- call, however many candidates were tried.
  pub handle_streaming-one_call :
      (check_caches d q id).0 ≡ none
      → (n : ℕ) × (chunks (handle_streaming d q ttl tiers cost prompt_tokens id)
          ≡ call_content n (execute_stream (streaming_of d) d.engine tiers d.world).1)
  unfolding handle_streaming
  handle_streaming-one_call miss =
      let found = one_call _ (execute_stream-Delivery (streaming_of d) d.engine tiers d.world) in
      (
        found.0,
        rw (miss, handle_streaming) (miss-chunks ∙ FromCall-heard_content found.0 log found.1),
      )

  ending-refusal :
      (l : CacheLookup) (o : StreamOutcome)
      → Delivery log o
      → any_refusal (finish_stream q ttl cost prompt_tokens l last_state o) ≡ true
      → heard_content log ≡ []
  unfolding finish_stream handle_stream_error any_refusal
  ending-refusal l o (whole n res fc) h = absurd (
      ground (
        arith,
        h,
        free-any_refusal _ [] (
            store_in_caches-IsFree l
              (streamed_response q last_state
                (billed_usage res.usage prompt_tokens last_state.completion_tokens))
              ttl),
      ))
  ending-refusal l o (torn n err attempts fc s) h = absurd (ground arith)
  ending-refusal l o (unsent err attempts s) h = Silent-heard_content log s

  -- A streaming request that is answered with an error status has received no content.
  pub handle_streaming-refusal :
      any_refusal (handle_streaming d q ttl tiers cost prompt_tokens id) ≡ true
      → chunks (handle_streaming d q ttl tiers cost prompt_tokens id) ≡ []
  unfolding handle_streaming
  handle_streaming-refusal = elim (Option-cases (check_caches d q id).0) [
    | inr (hit, found) ↦ rw (found, handle_streaming) (cached-refusal d.can_flush hit.0 hit.1 cost)
    | inl miss ↦
        rw (miss, handle_streaming)
          (λ h.
            miss-chunks
            ∙ ending-refusal _ _ (execute_stream-Delivery (streaming_of d) d.engine tiers d.world)
                (sym (free-any_refusal last_state.written ending (replay-IsFree d log)) ∙ h))
  ]

  stored-ending :
      (l : CacheLookup) (o : StreamOutcome)
      → All
          (λ t. t ≡ last_state.full_content)
          (stored_contents (finish_stream q ttl cost prompt_tokens l last_state o))
  unfolding finish_stream handle_stream_error stored_contents
  stored-ending l (stream_ok res) = store_in_caches-stored l _ ttl
  stored-ending l (stream_error err attempts true) = tt
  stored-ending l (stream_error err attempts false) = tt
  stored-ending l stream_unfinished = tt

  -- When events can be flushed and written, every response that a streaming request puts into a cache
  -- has exactly the content that the client received.
  pub handle_streaming-cached :
      d.can_flush ≡ true
      → ((n : ℕ) → d.write_succeeds n ≡ true)
      → let es = handle_streaming d q ttl tiers cost prompt_tokens id in
        All (λ t. t ≡ chunks es) (stored_contents es)
  unfolding handle_streaming
  handle_streaming-cached flushes writes = elim (Option-cases (check_caches d q id).0) [
    | inr (hit, found) ↦
        rw (found, handle_streaming) (cached-stored d.can_flush hit.0 hit.1 cost (λ t. t ≡ _))
    | inl miss ↦
        let full =
          (log-Faithful d tiers).1 (log-accepted d tiers flushes writes) ∙ sym miss-chunks in
        rw (miss, handle_streaming)
          (stored-free last_state.written ending (λ t. t ≡ chunks (last_state.written ++ ending))
            (wire-stores_nothing last_state.written (replay-IsWire d log initial tt))
            (All-map _ (λ t e. e ∙ full) (stored-ending _ _)))
  ]
