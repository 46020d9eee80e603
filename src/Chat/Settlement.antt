-- ===== src/Chat/Settlement.antt =====
-- internal/server/chat.go: the tokens that a request is charged against those that it used.
use llm_inference_gateway.Base.{
  ◌+◌, ◌≡◌, refl, Bool, true, false, List, [], ◌∷◌, ◌++◌, Option, some, none, arith, ℕ, Bool-cases,
  if◌then◌else◌, Option-cases, inl, inr, ◌⊎◌, sym, ap, subst, ◌∙◌, Text, length,
}
use llm_inference_gateway.Base.Int.{ℤ, pos, ◌+ℤ◌, ◌-ℤ◌, ◌≤ℤ◌}
use llm_inference_gateway.Router.{Tier, resolve}
use llm_inference_gateway.Auth.{Identity}
use llm_inference_gateway.Retry.{Attempt, Err}
use llm_inference_gateway.Exchange.{
  Request, Response, Deps, Effect, CacheTier, reserves, refuses, ledger_rows, adjusts, records,
  Completed, done, failed, cache_ttl_override, check_caches, CacheLookup, store_in_caches, used_by,
  success_row,
}
use llm_inference_gateway.Exchange.Account.{
  charged, spent, recorded, recorded-free, store_in_caches-IsFree, settle_all, settle_rest,
  tokens_in, tokens_in-ledger_rows, no_ledger_rows, plus_zero,
}
use llm_inference_gateway.ChatStream.{handle_streaming}
use llm_inference_gateway.ChatStream.Billing.{
  due, outcome_of_stream, counted_of_stream, handle_streaming-settles, handle_streaming-due,
  handle_streaming-hit,
}
use llm_inference_gateway.Chat.{complete, given, handle_request}
use llm_inference_gateway.Chat.Cases.{handle_request-cases}

charged-stores :
    (l : CacheLookup) (r : Response) (ttl : Option ℤ) (es : List Effect)
    → (charged (store_in_caches l r ttl ++ es) ≡ charged es)
      × (spent (store_in_caches l r ttl ++ es) ≡ spent es)
unfolding store_in_caches charged spent
charged-stores l r ttl es = ground arith

Completed-cases :
    (c : Completed)
    → ((name model : Text) × (attempts : List Attempt) × (r : Response) × (c
          ≡ done name model attempts r))
      ⊎ ((err : Err) × (attempts : List Attempt) × (c ≡ failed err attempts))
Completed-cases (done name model attempts r) = inl (name, model, attempts, r, refl)
Completed-cases (failed err attempts) = inr (err, attempts, refl)

-- After the cost is settled, a request is charged what it spent and what is recorded of it.
abbrev Settled : ℤ → List Effect → Type 0
Settled cost es = (cost +ℤ charged es ≡ spent es) × (cost +ℤ charged es ≡ recorded es)

complete-Settled :
    (d : Deps) (q : Request) (ttl : Option ℤ) (tiers : List Tier) (cost : ℤ) (id : Identity)
    → Settled cost (complete d q ttl tiers cost id)
unfolding complete charged spent recorded ◌+ℤ◌ ◌-ℤ◌
complete-Settled d q ttl tiers cost id = elim (Option-cases (check_caches d q id).0) [
  | inr (hit, found) ↦ rw (found, complete) (settle_all cost, settle_all cost)
  | inl miss ↦ elim (Completed-cases (d.execute tiers)) [
    | inr (err, attempts, e) ↦ rw (miss, e, complete) (settle_all cost, settle_all cost)
    | inl (name, model, attempts, r, e) ↦
        let r' : Response = record r { model = q.model } in
        let rest : List Effect =
          adjusts (cost -ℤ used_by r')
          ∷ records (success_row name model r'.usage (length attempts))
          ∷ [] in
        let l = (check_caches d q id).1 in
        let tail = charged-stores l r' ttl rest in
        let used = r.usage.prompt_tokens + r.usage.completion_tokens in
        let paid = ap (λ x. cost +ℤ x) tail.0 ∙ settle_rest cost used in
        rw (miss, e, complete)
          (
            paid ∙ ap (λ x. used_by r +ℤ x) (sym tail.1),
            paid
                ∙ sym (
                    recorded-free (store_in_caches l r' ttl) rest
                      (store_in_caches-IsFree l r' ttl)),
          )
  ]
]

-- A request that does not stream is charged, in the end, exactly the tokens that a provider used for
-- it: after every refusal, failure and cache hit the reservation is refunded in full, and after a
-- completion the charge is the usage reported.
pub handle_request-settles :
    (d : Deps) (q : Request)
    → q.stream ≡ false
    → charged (handle_request d q) ≡ spent (handle_request d q)
unfolding charged spent
handle_request-settles d q whole =
    handle_request-cases d q (λ es. charged es ≡ spent es) (λ status. refl)
      (λ ttl tiers id routed who.
        let cost =
          pos (d.count_messages q.messages) +ℤ given q.max_tokens d.estimate_completion_tokens in
        subst
          (λ b.
            let es =
              if b
              then handle_streaming d q ttl tiers cost (d.count_messages q.messages) id
              else complete d q ttl tiers cost id in
            cost +ℤ charged es ≡ spent es)
          (sym whole) (complete-Settled d q ttl tiers cost id).0)

-- What a completion that does not stream is to be charged.
pub due_of : Completed → ℤ
due_of (done name model attempts r) = used_by r
due_of (failed err attempts) = pos 0

complete-hit :
    (d : Deps) (q : Request) (ttl : Option ℤ) (tiers : List Tier) (cost : ℤ) (id : Identity)
    (tier : CacheTier) (r : Response)
    → (check_caches d q id).0 ≡ some (tier, r)
    → recorded (complete d q ttl tiers cost id) ≡ pos 0
unfolding complete recorded ◌+ℤ◌
complete-hit d q ttl tiers cost id tier r found = rw (found, complete) refl

complete-due :
    (d : Deps) (q : Request) (ttl : Option ℤ) (tiers : List Tier) (cost : ℤ) (id : Identity)
    → (check_caches d q id).0 ≡ none
    → recorded (complete d q ttl tiers cost id) ≡ due_of (d.execute tiers)
unfolding complete recorded due_of
complete-due d q ttl tiers cost id miss = elim (Completed-cases (d.execute tiers)) [
  | inr (err, attempts, e) ↦ rw (miss, e, complete) refl
  | inl (name, model, attempts, r, e) ↦
      let r' : Response = record r { model = q.model } in
      rw (miss, e, complete)
        (recorded-free (store_in_caches (check_caches d q id).1 r' ttl) _
            (store_in_caches-IsFree (check_caches d q id).1 r' ttl)
          ∙ plus_zero (r.usage.prompt_tokens + r.usage.completion_tokens))
]

-- The tokens that a request is to be charged, by what happens to it.
pub data Billed (d : Deps) (q : Request) (es : List Effect) : ℤ → Type 0 where
  refused : (status : ℕ) → es ≡ refuses status ∷ [] → Billed d q es (pos 0)
  cached :
      (id : Identity) (tier : CacheTier) (r : Response)
      → d.identity ≡ some id
      → (check_caches d q id).0 ≡ some (tier, r)
      → Billed d q es (pos 0)
  completed :
      (id : Identity) (tiers : List Tier)
      → q.stream ≡ false
      → d.identity ≡ some id
      → resolve d.router q.model ≡ some tiers
      → (check_caches d q id).0 ≡ none
      → Billed d q es (due_of (d.execute tiers))
  streamed :
      (id : Identity) (tiers : List Tier)
      → q.stream ≡ true
      → d.identity ≡ some id
      → resolve d.router q.model ≡ some tiers
      → (check_caches d q id).0 ≡ none
      → Billed d q es (
          due (outcome_of_stream d tiers) (d.count_messages q.messages) (counted_of_stream d tiers))

-- The charge and the rows of the ledger come to the amount that is due.
pub record Balanced (d : Deps) (q : Request) (es : List Effect) : Type 0 where
  pub amount : ℤ
  pub billed : Billed d q es amount
  pub charge : charged es ≡ amount
  pub rows : tokens_in (ledger_rows true es) ≡ amount
  pub no_rows : ledger_rows false es ≡ []

balance :
    (d : Deps) (q : Request) (es : List Effect) (amount : ℤ)
    → Billed d q es amount
    → charged es ≡ recorded es
    → recorded es ≡ amount
    → Balanced d q es
balance d q es amount b c r = record {
  amount = amount;
  billed = b;
  charge = c ∙ r;
  rows = tokens_in-ledger_rows es ∙ r;
  no_rows = no_ledger_rows es;
}

module _ (d : Deps) (q : Request) (ttl : Option ℤ) (tiers : List Tier) (id : Identity)
    (routed : resolve d.router q.model ≡ some tiers) (who : d.identity ≡ some id) where
  abbrev cost : ℤ
  cost = pos (d.count_messages q.messages) +ℤ given q.max_tokens d.estimate_completion_tokens

  abbrev handled : Bool → List Effect
  handled b =
      reserves cost
      ∷ (if b
          then handle_streaming d q ttl tiers cost (d.count_messages q.messages) id
          else complete d q ttl tiers cost id)

  completed-Balanced : q.stream ≡ false → Balanced d q (handled false)
  unfolding charged recorded
  completed-Balanced whole =
      let paid = (complete-Settled d q ttl tiers cost id).1 in
      elim (Option-cases (check_caches d q id).0) [
        | inr (hit, found) ↦
            balance d q (handled false) (pos 0) (cached id hit.0 hit.1 who found) paid
              (complete-hit d q ttl tiers cost id hit.0 hit.1 found)
        | inl miss ↦
            balance d q (handled false) (due_of (d.execute tiers))
              (completed id tiers whole who routed miss) paid
              (complete-due d q ttl tiers cost id miss)
      ]

  streamed-Balanced : q.stream ≡ true → Balanced d q (handled true)
  unfolding charged recorded
  streamed-Balanced streams =
      let prompt = d.count_messages q.messages in
      let paid = handle_streaming-settles d q ttl tiers cost prompt id in
      elim (Option-cases (check_caches d q id).0) [
        | inr (hit, found) ↦
            balance d q (handled true) (pos 0) (cached id hit.0 hit.1 who found) paid
              (handle_streaming-hit d q ttl tiers cost prompt id hit.0 hit.1 found)
        | inl miss ↦
            balance d q (handled true)
              (due (outcome_of_stream d tiers) prompt (counted_of_stream d tiers))
              (streamed id tiers streams who routed miss) paid
              (handle_streaming-due d q ttl tiers cost prompt id miss)
      ]

  let_in-Balanced : Balanced d q (handled q.stream)
  let_in-Balanced = elim (Bool-cases q.stream) [
    | inl streams ↦ subst (λ b. Balanced d q (handled b)) (sym streams) (streamed-Balanced streams)
    | inr whole ↦ subst (λ b. Balanced d q (handled b)) (sym whole) (completed-Balanced whole)
  ]

-- Every request, streaming or not, is charged in the end exactly what is due, and with a ledger its rows
-- have exactly these tokens, while without one nothing is recorded. Due is nothing if the request was
-- refused or served from a cache; the usage of the engine's response, or nothing if the engine failed,
-- for one that does not stream; and for a stream the usage reported, or else the prompt and what was
-- counted, or nothing if it failed before any content.
pub handle_request-recorded : (d : Deps) (q : Request) → Balanced d q (handle_request d q)
unfolding charged recorded
handle_request-recorded d q =
    handle_request-cases d q (Balanced d q)
      (λ status. balance d q (refuses status ∷ []) (pos 0) (refused status refl) refl refl)
      (λ ttl tiers id routed who. let_in-Balanced d q ttl tiers id routed who)

-- An override that the handler applies is never above the operator's ceiling, which is then
-- positive.
pub cache_ttl_override-capped :
    (parse : Text → Option ℤ) (raw : Text) (ceiling d : ℤ)
    → cache_ttl_override parse raw ceiling ≡ some (some d)
    → (d ≤ℤ ceiling) × (pos 1 ≤ℤ ceiling)
unfolding cache_ttl_override
cache_ttl_override-capped parse [] ceiling d e = ground arith
cache_ttl_override-capped parse (c ∷ raw) ceiling d e = ground arith
