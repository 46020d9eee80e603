-- ===== src/Exchange/Account.antt =====
-- internal/server/chat.go and internal/server/stream.go: what the effects of a handler charge and record.
use llm_inference_gateway.Base.{
  ℕ, ◌+◌, ◌≡◌, refl, sym, ap, ◌∙◌, append-nil, List, [], ◌∷◌, ◌++◌, Option, arith, All, true, false,
}
use llm_inference_gateway.Base.Int.{ℤ, pos, ◌+ℤ◌, ◌-ℤ◌}
use llm_inference_gateway.Exchange.{
  Response, Row, ledger_rows, Effect, reserves, adjusts, serves, records, CacheLookup,
  store_in_caches, used_by, starts_stream, sends_chunk, stores_exact, stores_semantic,
}

-- The reservation less all adjustments.
unfoldable pub charged : List Effect → ℤ
charged [] = pos 0
charged (reserves n ∷ es) = n +ℤ charged es
charged (adjusts n ∷ es) = charged es -ℤ n
charged (_ ∷ es) = charged es

-- The tokens that a provider used for this request; a cached response uses none.
unfoldable pub spent : List Effect → ℤ
spent [] = pos 0
spent (serves r ∷ es) = used_by r +ℤ spent es
spent (_ ∷ es) = spent es

-- The tokens in the rows of the ledger.
unfoldable pub recorded : List Effect → ℤ
recorded [] = pos 0
recorded (records row ∷ es) = pos (row.prompt_tokens + row.completion_tokens) +ℤ recorded es
recorded (_ ∷ es) = recorded es

-- The tokens in these rows.
unfoldable pub tokens_in : List Row → ℤ
tokens_in [] = pos 0
tokens_in (row ∷ rows) = pos (row.prompt_tokens + row.completion_tokens) +ℤ tokens_in rows

pub tokens_in-ledger_rows : (es : List Effect) → tokens_in (ledger_rows true es) ≡ recorded es
unfolding tokens_in ledger_rows recorded
tokens_in-ledger_rows [] = refl
tokens_in-ledger_rows (records row ∷ es) =
    ap (λ n. pos (row.prompt_tokens + row.completion_tokens) +ℤ n) (tokens_in-ledger_rows es)
tokens_in-ledger_rows (_ ∷ es) = tokens_in-ledger_rows es

pub no_ledger_rows : (es : List Effect) → ledger_rows false es ≡ []
unfolding ledger_rows
no_ledger_rows [] = refl
no_ledger_rows (records row ∷ es) = no_ledger_rows es
no_ledger_rows (_ ∷ es) = no_ledger_rows es

pub plus_zero : (n : ℕ) → pos n +ℤ pos 0 ≡ pos n
unfolding ◌+ℤ◌
plus_zero n = ground arith

-- The effects of `onDelta`.
abbrev pub IsWire : Effect → Type 0
IsWire (starts_stream name tier) = Unit
IsWire (sends_chunk content finish) = Unit
IsWire _ = ⊥

-- Effects that are no matter of tokens.
abbrev pub IsFree : Effect → Type 0
IsFree (starts_stream name tier) = Unit
IsFree (sends_chunk content finish) = Unit
IsFree (stores_exact key r ttl) = Unit
IsFree (stores_semantic query r ttl) = Unit
IsFree _ = ⊥

pub IsWire-IsFree : (e : Effect) → IsWire e → IsFree e
IsWire-IsFree (starts_stream name tier) w = tt
IsWire-IsFree (sends_chunk content finish) w = tt
IsWire-IsFree _ w = absurd w

pub charged-free : (es fs : List Effect) → All IsFree es → charged (es ++ fs) ≡ charged fs
unfolding charged
charged-free [] fs a = refl
charged-free (starts_stream name tier ∷ es) fs a = charged-free es fs a.1
charged-free (sends_chunk content finish ∷ es) fs a = charged-free es fs a.1
charged-free (stores_exact key r ttl ∷ es) fs a = charged-free es fs a.1
charged-free (stores_semantic query r ttl ∷ es) fs a = charged-free es fs a.1
charged-free (_ ∷ es) fs a = absurd a.0

pub recorded-free : (es fs : List Effect) → All IsFree es → recorded (es ++ fs) ≡ recorded fs
unfolding recorded
recorded-free [] fs a = refl
recorded-free (starts_stream name tier ∷ es) fs a = recorded-free es fs a.1
recorded-free (sends_chunk content finish ∷ es) fs a = recorded-free es fs a.1
recorded-free (stores_exact key r ttl ∷ es) fs a = recorded-free es fs a.1
recorded-free (stores_semantic query r ttl ∷ es) fs a = recorded-free es fs a.1
recorded-free (_ ∷ es) fs a = absurd a.0

pub charged_free_alone : (es : List Effect) → All IsFree es → charged es ≡ pos 0
unfolding charged
charged_free_alone es a = ap charged (sym (append-nil es)) ∙ charged-free es [] a

pub recorded_free_alone : (es : List Effect) → All IsFree es → recorded es ≡ pos 0
unfolding recorded
recorded_free_alone es a = ap recorded (sym (append-nil es)) ∙ recorded-free es [] a

pub store_in_caches-IsFree :
    (l : CacheLookup) (r : Response) (ttl : Option ℤ) → All IsFree (store_in_caches l r ttl)
unfolding store_in_caches
store_in_caches-IsFree l r ttl = ground arith

pub settle_all : (cost : ℤ) → cost +ℤ (pos 0 -ℤ cost) ≡ pos 0
unfolding ◌+ℤ◌ ◌-ℤ◌
settle_all cost = ground arith

pub settle_rest : (cost : ℤ) (n : ℕ) → cost +ℤ (pos 0 -ℤ (cost -ℤ pos n)) ≡ pos n +ℤ pos 0
unfolding ◌+ℤ◌ ◌-ℤ◌
settle_rest cost n = ground arith
