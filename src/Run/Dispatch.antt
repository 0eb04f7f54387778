-- ===== src/Run/Dispatch.antt =====
-- Sending the outbox: RunStore.dispatch_outbox of app/service/runs.py. The rows of
-- chat_event_outbox are listed by their primary key, the run and the sequence, and no other
-- transaction holds one.
use learning_qa_assistant.Base.{
  ℕ, zero, suc, ◌&&◌, Option, none, some, List, [], ◌∷◌, ◌++◌, map, leb, length, if◌then◌else◌,
}
use learning_qa_assistant.Transaction.{Result, ok, err, value_error}
use learning_qa_assistant.Run.State.{Run, OutboxRow, Environment}
use learning_qa_assistant.Run.Calls.{Call}
use learning_qa_assistant.Run.Calls

-- A row of chat_event_outbox.
pub record Entry : Type 0 where
  pub run_id : ℕ
  pub sequence : ℕ
  pub dispatched_at : Option ℕ

-- What `pg_notify` is given.
pub record Notice : Type 0 where
  pub run_id : ℕ
  pub sequence : ℕ

abbrev pub notice_of : Entry → Notice
notice_of row = record { run_id = row.run_id; sequence = row.sequence }

-- The first `limit` rows that are not dispatched are sent and marked, each at its own reading
-- of the clock.
unfoldable pub dispatch_rows : (limit : ℕ) → List Entry → (ℕ → ℕ) → List Entry × List Notice
dispatch_rows zero rows clock = (rows, [])
dispatch_rows (suc limit) [] clock = ([], [])
dispatch_rows (suc limit) (row ∷ rows) clock = elim row.dispatched_at [
  | none ↦
      let (rest, sent) = dispatch_rows limit rows (λ n. clock (suc n)) in
      (record row { dispatched_at = some (clock 0) } ∷ rest, notice_of row ∷ sent)
  | some t ↦ let (rest, sent) = dispatch_rows (suc limit) rows clock in (row ∷ rest, sent)
]

-- On a database that supports notifications; it returns how many rows it has sent.
unfoldable pub dispatch_outbox :
    (limit : ℕ) → (ℕ → ℕ) → List Entry → Result ℕ × List Entry × List Notice
dispatch_outbox limit clock rows =
    if leb 1 limit && leb limit 100
    then (let (after, sent) = dispatch_rows limit rows clock in (ok (length sent), after, sent))
    else (err value_error, rows, [])

-- Dispatches one after the other, and all that they send.
unfoldable pub dispatch_history : List (ℕ × (ℕ → ℕ)) → List Entry → List Entry × List Notice
dispatch_history [] rows = (rows, [])
dispatch_history ((limit, clock) ∷ rest) rows =
    let (_, after, sent) = dispatch_outbox limit clock rows in
    let (last, others) = dispatch_history rest after in (last, sent ++ others)

-- The notices that are still to be sent.
unfoldable pub pending : List Entry → List Notice
pending [] = []
pending (row ∷ rows) = elim row.dispatched_at [
  | none ↦ notice_of row ∷ pending rows
  | some t ↦ pending rows
]

abbrev pub entry_of : (run_id : ℕ) → OutboxRow → Entry
entry_of run_id row = record {
  run_id = run_id;
  sequence = row.sequence;
  dispatched_at = row.dispatched_at;
}

abbrev pub outbox_row : Entry → OutboxRow
outbox_row entry = record { sequence = entry.sequence; dispatched_at = entry.dispatched_at }

-- What a dispatch does to one run: `limit` is what the rows of the runs before it have left of the
-- limit, and `clock` what they have left of the readings.
unfoldable pub dispatch_run : (limit : ℕ) → (ℕ → ℕ) → Run → Run
dispatch_run limit clock run = record run {
  outbox = map outbox_row (dispatch_rows limit (map (entry_of run.id) run.outbox) clock).0;
}

-- What happens to the rows of one run: a call on it, or its part in a dispatch.
pub data Change : Type 0 where
  called : Call → (clock : ℕ → ℕ) → Change
  dispatched : (limit : ℕ) → (clock : ℕ → ℕ) → Change

module _ (env : Environment) where
  abbrev pub change : Change → Run → Run
  change (called call clock) run = (Calls.perform env call clock run).1
  change (dispatched limit clock) run = dispatch_run limit clock run

  unfoldable pub changes : List Change → Run → Run
  changes [] run = run
  changes (c ∷ rest) run = changes rest (change c run)
