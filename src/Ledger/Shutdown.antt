-- ===== src/Ledger/Shutdown.antt =====
-- internal/ledger/ledger.go: what `run` does after `Close`.
use llm_inference_gateway.Base.{
  suc, ◌≡◌, refl, Bool, List, [], ◌∷◌, ◌++◌, length, append_assoc, append-nil, ◌∙◌, ap, sym, subst,
  replicate,
}
use llm_inference_gateway.Ledger.{
  draining, returned, Writer, drains, flush, flush_batch, drain, step_in, step, run,
}

module _ {E : Type 0} where
  -- The writer after all of `rows` went into one insert, if there are any.
  unfoldable pub closed : Bool → List E → Writer E → Writer E
  closed ok [] w = record w { channel = []; batch = []; phase = returned }
  closed ok (e ∷ es) w = record w {
    inserts = w.inserts ++ (ok, e ∷ es) ∷ [];
    channel = [];
    batch = [];
    phase = returned;
  }

  flush-closed :
      (ok : Bool) (rows : List E) (w : Writer E)
      → w.batch ≡ rows
      → w.channel ≡ []
      → record (flush_batch ok rows w) { phase = returned } ≡ closed ok rows w
  unfolding closed flush_batch
  flush-closed ok [] w eb ec = rw (eb, ec) refl
  flush-closed ok (e ∷ es) w eb ec = rw ec refl

  closed-move :
      (ok : Bool) (rows es : List E) (batch : List E) (w : Writer E)
      → closed ok rows (record w { channel = es; batch = batch }) ≡ closed ok rows w
  unfolding closed
  closed-move ok [] es batch w = refl
  closed-move ok (r ∷ rows) es batch w = refl

  step-drains :
      (ok : Bool) (es : List E) (w : Writer E)
      → w.channel ≡ es
      → w.phase ≡ draining
      → step (drains ok) w ≡ drain ok es w
  unfolding step step_in
  step-drains ok es w ec ep =
      subst (λ p. step_in p (drains ok) w ≡ drain ok es w) (sym ep) (ap (λ xs. drain ok xs w) ec)

  -- The drain loop ends: after one round for each entry in the channel and one more, `run` has
  -- returned, both buffers are empty, and everything that was in the batch and then in the channel
  -- went, in this order, into a single insert, or into none if both were empty.
  pub drain-closed :
      (ok : Bool) (es : List E) (w : Writer E)
      → w.channel ≡ es
      → w.phase ≡ draining
      → run (replicate (suc (length es)) (drains ok)) w ≡ closed ok (w.batch ++ es) w
  unfolding run drain flush
  drain-closed ok [] w ec ep =
      step-drains ok [] w ec ep
      ∙ flush-closed ok w.batch w refl ec
      ∙ ap (λ rows. closed ok rows w) (sym (append-nil w.batch))
  drain-closed ok (e ∷ es) w ec ep =
      let w' = record w { channel = es; batch = w.batch ++ e ∷ [] } in
      ap (run (replicate (suc (length es)) (drains ok))) (step-drains ok (e ∷ es) w ec ep)
      ∙ drain-closed ok es w' refl ep
      ∙ ap (λ rows. closed ok rows w') (append_assoc w.batch (e ∷ []) es)
      ∙ closed-move ok (w.batch ++ e ∷ es) es (w.batch ++ e ∷ []) w
