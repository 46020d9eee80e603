-- ===== src/Ledger.antt =====
-- internal/ledger/ledger.go: the buffered writer of usage entries. `Record` sends on a buffered
-- channel without blocking; one goroutine, `run`, receives, batches and inserts. Its `select`s are
-- the events below, in any order that the scheduler chooses; entries are of any type. A channel
-- without a buffer, whose send waits for a receiver, is not modelled.
use llm_inference_gateway.Base.{
  ℕ, suc, ◌+◌, ◌≡◌, Bool, true, false, List, [], ◌∷◌, ◌++◌, ltb, leb, if◌then◌else◌, length,
}
pub mod Trace
pub mod Bounds
pub mod Shutdown

-- Where `run` is: in the outer loop, in the drain loop after `ctx.Done()`, or returned.
pub data Phase : Type 0 where
  running draining returned : Phase

-- `channel` is the buffered channel, oldest first; `inserts` are the batches handed to
-- `InsertBatch`, oldest first, with its answer; `dropped` are the entries that found the channel full.
pub record Writer (E : Type 0) : Type 0 where
  pub buffer_size : ℕ
  pub batch_size : ℕ
  pub channel : List E
  pub batch : List E
  pub inserts : List (Bool × List E)
  pub dropped : List E
  pub phase : Phase

unfoldable pub new_writer : {E : Type 0} → ℕ → ℕ → Writer E
new_writer buffer_size batch_size = record {
  buffer_size = buffer_size;
  batch_size = batch_size;
  channel = [];
  batch = [];
  inserts = [];
  dropped = [];
  phase = running;
}

-- `select` with a default: the send succeeds exactly when the buffer has room.
unfoldable pub record_entry : {E : Type 0} → E → Writer E → Writer E
record_entry e w =
    if ltb (length w.channel) w.buffer_size
    then record w { channel = w.channel ++ e ∷ [] }
    else record w { dropped = w.dropped ++ e ∷ [] }

-- The closure `flush`; `ok` is whether the insert succeeds, and the batch is emptied either way.
unfoldable pub flush_batch : {E : Type 0} → Bool → List E → Writer E → Writer E
flush_batch ok [] w = w
flush_batch ok (e ∷ es) w = record w { inserts = w.inserts ++ (ok, e ∷ es) ∷ []; batch = [] }

unfoldable pub flush : {E : Type 0} → Bool → Writer E → Writer E
unfolding flush_batch
flush ok w = flush_batch ok w.batch w

-- `case e := <-w.entries` of the outer loop.
unfoldable pub receive : {E : Type 0} → Bool → List E → Writer E → Writer E
unfolding flush
receive ok [] w = w
receive ok (e ∷ es) w =
    let w' = record w { channel = es; batch = w.batch ++ e ∷ [] } in
    if leb w'.batch_size (length w'.batch) then flush ok w' else w'

-- One round of the drain loop: an entry, or the default, which flushes and returns.
unfoldable pub drain : {E : Type 0} → Bool → List E → Writer E → Writer E
unfolding flush
drain ok [] w = let w' = flush ok w in record w' { phase = returned }
drain ok (e ∷ es) w = record w { channel = es; batch = w.batch ++ e ∷ [] }

-- What may happen next: a call of `Record`, a receive, a tick, `Close`, or a round of the drain
-- loop; `ok` answers the insert that the event may make.
pub data Event (E : Type 0) : Type 0 where
  records : E → Event E
  receives : Bool → Event E
  ticks : Bool → Event E
  closes : Event E
  drains : Bool → Event E

-- An event of `run` does nothing in a phase where `run` does not wait for it.
unfoldable pub step_in : {E : Type 0} → Phase → Event E → Writer E → Writer E
unfolding record_entry receive drain flush
step_in p (records e) w = record_entry e w
step_in running (receives ok) w = receive ok w.channel w
step_in running (ticks ok) w = flush ok w
step_in running closes w = record w { phase = draining }
step_in draining (drains ok) w = drain ok w.channel w
step_in _ _ w = w

unfoldable pub step : {E : Type 0} → Event E → Writer E → Writer E
unfolding step_in
step v w = step_in w.phase v w

unfoldable pub run : {E : Type 0} → List (Event E) → Writer E → Writer E
run [] w = w
run (v ∷ vs) w = run vs (step v w)
