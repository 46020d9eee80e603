-- ===== src/Retry/Stream/Relay.antt =====
-- internal/retry/engine.go: `relayStream`, with the log of the calls of onDelta.
use llm_inference_gateway.Base.{
  ℕ, Bool, true, false, ◌&&◌, ◌||◌, List, [], ◌∷◌, ◌++◌, Option, none, some, Text,
}
use llm_inference_gateway.Router.{Candidate}
use llm_inference_gateway.Retry.{Oracle, Completion, answered, failed, ProviderError}

pub record Usage : Type 0 where
  pub prompt_tokens : ℕ
  pub completion_tokens : ℕ
  pub total_tokens : ℕ

-- Of a `Delta`, without the field `Err`, which the engine does not read.
pub record Delta : Type 0 where
  pub content : Text
  pub finish_reason : Text
  pub usage : Option Usage

-- What one call of `Provider.Stream` sends on its channel, and the error that it returns.
pub record Streamed : Type 0 where
  pub deltas : List Delta
  pub final : Option ProviderError

-- A delta that `onDelta` was called with, the number of the oracle query that was its provider call,
-- the names that came with it, and whether `onDelta` took it.
pub record Sent : Type 0 where
  pub call_number : ℕ
  pub provider_name : Text
  pub model : Text
  pub delta : Delta
  pub accepted : Bool

-- The oracle of the engine, and `onDelta`: its error for these names and this delta, after the calls
-- that came before.
pub record Streaming : Type 0 where
  pub oracle : Oracle Streamed
  pub on_delta : List Sent → Text → Text → Delta → Option ProviderError

pub record Relayed : Type 0 where
  pub sent : List Sent
  pub usage : Option Usage
  pub flushed : Bool
  pub err : Option ProviderError

abbrev pub has_content : Delta → Bool
has_content d = elim d.content [ [] ↦ false | _ ∷ _ ↦ true ]

-- Content that reached the client.
abbrev pub is_heard : Sent → Bool
is_heard x = x.accepted && has_content x.delta

abbrev pub offer : Candidate → ℕ → Delta → Bool → Sent
offer c n d accepted = record {
  call_number = n;
  provider_name = c.provider_name;
  model = c.model;
  delta = d;
  accepted = accepted;
}

abbrev latest : Option Usage → Option Usage → Option Usage
latest none old = old
latest (some u) old = some u

-- The loop of `relayStream`; the deltas that it drains after an error of `onDelta` are lost.
unfoldable pub relay :
    Streaming
    → Candidate
    → ℕ
    → List Delta
    → Option ProviderError
    → Option Usage
    → Bool
    → List Sent
    → Relayed
relay s c n [] final usage flushed sent = record {
  sent = sent;
  usage = usage;
  flushed = flushed;
  err = final;
}
relay s c n (d ∷ ds) final usage flushed sent = elim (s.on_delta sent c.provider_name c.model d) [
  | some f ↦ record {
    sent = sent ++ offer c n d false ∷ [];
    usage = latest d.usage usage;
    flushed = flushed;
    err = some f;
  }
  | none ↦
      relay s c n ds final (latest d.usage usage) (flushed || has_content d)
        (sent ++ offer c n d true ∷ [])
]

-- A call that fails before the first delta sends none.
abbrev pub streamed : Completion Streamed → Streamed
streamed (answered r) = r
streamed (failed f) = record { deltas = []; final = some f }

unfoldable pub relay_stream : Streaming → Candidate → ℕ → Completion Streamed → List Sent → Relayed
unfolding relay
relay_stream s c n completion sent =
    let r = streamed completion in relay s c n r.deltas r.final none false sent
