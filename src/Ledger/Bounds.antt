-- ===== src/Ledger/Bounds.antt =====
-- internal/ledger/ledger.go: the sizes of the channel and of the batches.
use llm_inference_gateway.Base.{
  ℕ, ◌≤◌, ◌<◌, ◌≡◌, refl, Bool, List, [], ◌∷◌, ◌++◌, arith, ltb, leb, length, length-append, All,
  All-append, Bool-cases, subst, sym, inl, inr, ◌∙◌,
}
use llm_inference_gateway.Ledger.{
  running, Writer, Event, records, receives, ticks, closes, drains, record_entry, flush,
  flush_batch, receive, step_in, step, run, new_writer,
}

module _ {E : Type 0} where
  -- While `run` serves requests, the channel holds at most `buffer_size` entries, the batch fewer
  -- than `batch_size`, and no insert had more than `batch_size` rows.
  pub record Bounded (w : Writer E) : Type 0 where
    pub room : length w.channel ≤ w.buffer_size
    pub partial : length w.batch < w.batch_size
    pub rows : All (λ i. length i.1 ≤ w.batch_size) w.inserts

  unfoldable pub IsOpen : Event E → Type 0
  IsOpen closes = ⊥
  IsOpen _ = Unit

  new_writer-Bounded : (n b : ℕ) → 0 < b → Bounded (new_writer n b)
  unfolding new_writer
  new_writer-Bounded n b h = record { room = omega arith; partial = h; rows = tt }

  flush-Bounded :
      (ok : Bool) (es : List E) (w : Writer E)
      → w.batch ≡ es
      → length w.channel ≤ w.buffer_size
      → length es ≤ w.batch_size
      → 0 < w.batch_size
      → All (λ i. length i.1 ≤ w.batch_size) w.inserts
      → Bounded (flush_batch ok es w)
  unfolding flush_batch
  flush-Bounded ok [] w e room fits full rows = record {
    room = room;
    partial = rw e full;
    rows = rows;
  }
  flush-Bounded ok (x ∷ es) w e room fits full rows = record {
    room = room;
    partial = full;
    rows = All-append (λ i. length i.1 ≤ w.batch_size) w.inserts _ rows (fits, tt);
  }

  receive-Bounded :
      (ok : Bool) (es : List E) (w : Writer E)
      → w.channel ≡ es
      → Bounded w
      → Bounded (receive ok es w)
  unfolding receive flush
  receive-Bounded ok [] w e b = b
  receive-Bounded ok (x ∷ es) w e b =
      let snoc = length-append w.batch (x ∷ []) in
      let shorter = subst (λ xs. length xs ≤ w.buffer_size) e b.room in
      elim (Bool-cases (leb w.batch_size (length (w.batch ++ x ∷ [])))) [
        | inl full ↦ rw full (
            flush-Bounded ok (w.batch ++ x ∷ [])
              (record w { channel = es; batch = w.batch ++ x ∷ [] }) refl (omega arith)
              (omega (arith, b.partial)) (omega (arith, b.partial)) b.rows)
        | inr more ↦ rw more (record { room = omega arith; partial = ground arith; rows = b.rows })
      ]

  flush-running : (ok : Bool) (es : List E) (w : Writer E) → (flush_batch ok es w).phase ≡ w.phase
  unfolding flush_batch
  flush-running ok [] w = refl
  flush-running ok (x ∷ es) w = refl

  receive-running : (ok : Bool) (es : List E) (w : Writer E) → (receive ok es w).phase ≡ w.phase
  unfolding receive flush
  receive-running ok [] w = refl
  receive-running ok (x ∷ es) w =
      elim (Bool-cases (leb w.batch_size (length (w.batch ++ x ∷ [])))) [
        | inl full ↦ rw (full, receive) (flush-running ok _ _)
        | inr more ↦ rw (more, receive) refl
      ]

  record_entry-Bounded :
      (e : E) (w : Writer E)
      → Bounded w
      → Bounded (record_entry e w) × (record_entry e w).phase ≡ w.phase
  unfolding record_entry
  record_entry-Bounded e w b =
      let snoc = length-append w.channel (e ∷ []) in
      elim (Bool-cases (ltb (length w.channel) w.buffer_size)) [
        | inl room ↦
            rw (room, record_entry)
              (record { room = ground arith; partial = b.partial; rows = b.rows }, refl)
        | inr full ↦
            rw (full, record_entry)
              (record { room = b.room; partial = b.partial; rows = b.rows }, refl)
      ]

  running-Bounded :
      (v : Event E) (w : Writer E)
      → IsOpen v
      → Bounded w
      → Bounded (step_in running v w) × (step_in running v w).phase ≡ w.phase
  unfolding step_in IsOpen flush
  running-Bounded (records e) w o b = record_entry-Bounded e w b
  running-Bounded (receives ok) w o b =
      (receive-Bounded ok w.channel w refl b, receive-running ok w.channel w)
  running-Bounded (ticks ok) w o b = (
    flush-Bounded ok w.batch w refl b.room (omega (arith, b.partial)) (omega (arith, b.partial))
        b.rows,
    flush-running ok w.batch w,
  )
  running-Bounded closes w o b = absurd o
  running-Bounded (drains ok) w o b = (b, refl)

  run_from-Bounded :
      (vs : List (Event E)) (w : Writer E)
      → w.phase ≡ running
      → Bounded w
      → All IsOpen vs
      → Bounded (run vs w)
  unfolding run step
  run_from-Bounded [] w e b o = b
  run_from-Bounded (v ∷ vs) w e b o =
      let next = running-Bounded v w o.0 b in
      run_from-Bounded vs (step v w)
        (subst (λ p. (step_in p v w).phase ≡ running) (sym e) (next.1 ∙ e))
        (subst (λ p. Bounded (step_in p v w)) (sym e) next.0) o.1

  -- A writer with a positive `batch_size`, until `Close`: whatever the calls, receives and ticks, the
  -- channel stays within `buffer_size`, the batch below `batch_size`, and no insert has more than
  -- `batch_size` rows.
  pub run-Bounded :
      (vs : List (Event E)) (n b : ℕ) → 0 < b → All IsOpen vs → Bounded (run vs (new_writer n b))
  unfolding new_writer
  run-Bounded vs n b h o = run_from-Bounded vs (new_writer n b) refl (new_writer-Bounded n b h) o
