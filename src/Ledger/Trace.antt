-- ===== src/Ledger/Trace.antt =====
-- internal/ledger/ledger.go: the entries in the writer over sequences of events.
use llm_inference_gateway.Base.{
  ◌≡◌, refl, Bool, List, [], ◌∷◌, ◌++◌, ltb, leb, if◌then◌else◌, length, append_assoc, append-nil,
  ◌∙◌, ap, sym, Bool-cases, inl, inr,
}
use llm_inference_gateway.Ledger.{
  Phase, running, draining, returned, Writer, Event, records, receives, ticks, closes, drains,
  record_entry, flush, flush_batch, receive, drain, step_in, step, run,
}

module _ {E : Type 0} where
  -- The entries handed to `InsertBatch`, in order.
  pub handed : List (Bool × List E) → List E
  handed [] = []
  handed ((ok, es) ∷ rest) = es ++ handed rest

  -- All accepted entries that the writer has not forgotten, oldest first.
  pub contents : Writer E → List E
  contents w = handed w.inserts ++ (w.batch ++ w.channel)

  -- What an event of `Record` adds to the contents.
  pub enters : Event E → Writer E → List E
  enters (records e) w = if ltb (length w.channel) w.buffer_size then e ∷ [] else []
  enters _ w = []

  -- The entries of the calls of `Record` that found room, in order.
  pub accepted : List (Event E) → Writer E → List E
  unfolding enters step
  accepted [] w = []
  accepted (v ∷ vs) w = enters v w ++ accepted vs (step v w)

  handed-snoc :
      (xs : List (Bool × List E)) (ok : Bool) (es : List E)
      → handed (xs ++ (ok, es) ∷ []) ≡ handed xs ++ es
  unfolding handed
  handed-snoc [] ok es = append-nil es
  handed-snoc ((b, fs) ∷ xs) ok es =
      ap (◌++◌ fs) (handed-snoc xs ok es) ∙ sym (append_assoc fs (handed xs) es)

  contents-flush_batch :
      (ok : Bool) (es : List E) (w : Writer E)
      → w.batch ≡ es
      → contents (flush_batch ok es w) ≡ contents w
  unfolding contents flush_batch
  contents-flush_batch ok [] w e = refl
  contents-flush_batch ok (x ∷ es) w e =
      rw (handed-snoc w.inserts ok (x ∷ es), e) (append_assoc (handed w.inserts) (x ∷ es) w.channel)

  contents-flush : (ok : Bool) (w : Writer E) → contents (flush ok w) ≡ contents w
  unfolding flush
  contents-flush ok w = contents-flush_batch ok w.batch w refl

  -- An entry moves from the channel to the batch.
  contents-move :
      (e : E) (es : List E) (w : Writer E)
      → w.channel ≡ e ∷ es
      → contents (record w { channel = es; batch = w.batch ++ e ∷ [] }) ≡ contents w
  unfolding contents
  contents-move e es w h = rw h (ap (◌++◌ (handed w.inserts)) (append_assoc w.batch (e ∷ []) es))

  contents-receive :
      (ok : Bool) (es : List E) (w : Writer E)
      → w.channel ≡ es
      → contents (receive ok es w) ≡ contents w
  unfolding receive
  contents-receive ok [] w h = refl
  contents-receive ok (e ∷ es) w h =
      elim (Bool-cases (leb w.batch_size (length (w.batch ++ e ∷ [])))) [
        | inl full ↦ rw full (contents-flush ok _ ∙ contents-move e es w h)
        | inr room ↦ rw room (contents-move e es w h)
      ]

  contents-drain :
      (ok : Bool) (es : List E) (w : Writer E)
      → w.channel ≡ es
      → contents (drain ok es w) ≡ contents w
  unfolding drain contents
  contents-drain ok [] w h = contents-flush ok w
  contents-drain ok (e ∷ es) w h = contents-move e es w h

  contents-record_entry :
      (e : E) (w : Writer E)
      → contents (record_entry e w)
        ≡ contents w ++ (if ltb (length w.channel) w.buffer_size then e ∷ [] else [])
  unfolding record_entry contents
  contents-record_entry e w = elim (Bool-cases (ltb (length w.channel) w.buffer_size)) [
    | inl room ↦ rw room (
        ap (◌++◌ (handed w.inserts)) (sym (append_assoc w.batch w.channel (e ∷ [])))
        ∙ sym (append_assoc (handed w.inserts) (w.batch ++ w.channel) (e ∷ [])))
    | inr full ↦ rw full (sym (append-nil _))
  ]

  contents-step_in :
      (p : Phase) (v : Event E) (w : Writer E) → contents (step_in p v w) ≡ contents w ++ enters v w
  unfolding step_in enters contents
  contents-step_in p (records e) w = contents-record_entry e w
  contents-step_in running (receives ok) w =
      contents-receive ok w.channel w refl ∙ sym (append-nil _)
  contents-step_in draining (receives ok) w = sym (append-nil _)
  contents-step_in returned (receives ok) w = sym (append-nil _)
  contents-step_in running (ticks ok) w = contents-flush ok w ∙ sym (append-nil _)
  contents-step_in draining (ticks ok) w = sym (append-nil _)
  contents-step_in returned (ticks ok) w = sym (append-nil _)
  contents-step_in running closes w = sym (append-nil _)
  contents-step_in draining closes w = sym (append-nil _)
  contents-step_in returned closes w = sym (append-nil _)
  contents-step_in running (drains ok) w = sym (append-nil _)
  contents-step_in draining (drains ok) w = contents-drain ok w.channel w refl ∙ sym (append-nil _)
  contents-step_in returned (drains ok) w = sym (append-nil _)

  -- Whatever the order of events, the entries handed to `InsertBatch`, then those in the batch, then
  -- those in the channel, are the earlier ones followed by exactly the entries of the calls of
  -- `Record` that found room, in the order of the calls: none is lost, duplicated or reordered.
  pub run-contents :
      (vs : List (Event E)) (w : Writer E) → contents (run vs w) ≡ contents w ++ accepted vs w
  unfolding run accepted step
  run-contents [] w = sym (append-nil _)
  run-contents (v ∷ vs) w =
      run-contents vs (step v w)
      ∙ ap (λ xs. xs ++ accepted vs (step v w)) (contents-step_in w.phase v w)
      ∙ append_assoc (contents w) (enters v w) (accepted vs (step v w))
