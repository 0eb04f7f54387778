-- ===== src/Run/Stable.antt =====
-- What the calls of the store do to the parts of a run that record its history: its journal, its
-- checkpoint, its operations and its generation.
pub mod Keeping
pub mod Answers
pub mod Writing
pub mod Preserved
use learning_qa_assistant.Base.{
  ℕ, ◌+◌, ◌≤◌, ◌<◌, Bool, true, false, ◌≡◌, Option, none, some, List, ◌∷◌, [], ◌++◌, length,
}
use learning_qa_assistant.Base.Text.{Text}
use learning_qa_assistant.Run.State.{
  Run, Kind, Environment, Event, OutboxRow, Checkpoint, Operation, OperationState, started,
  succeeded, uncertain, Outcome,
}
use learning_qa_assistant.Run.Journal.{sequence_limit, bytes_limit}
use learning_qa_assistant.Run.Operation.{find, store, is_started, is_succeeded}
use learning_qa_assistant.Run.Checkpoint.{next_revision}

pub record History : Type 0 where
  pub id : ℕ
  pub user_id : ℕ
  pub session_id : ℕ
  pub client_key : ℕ
  pub fingerprint : ℕ
  pub kind : Kind
  pub generation : ℕ
  pub sequence : ℕ
  pub event_bytes : ℕ
  pub events : List Event
  pub outbox : List OutboxRow
  pub checkpoint : Option Checkpoint
  pub operations : List Operation

abbrev pub history_of : Run → History
history_of run = record {
  id = run.id;
  user_id = run.user_id;
  session_id = run.session_id;
  client_key = run.client_key;
  fingerprint = run.fingerprint;
  kind = run.kind;
  generation = run.generation;
  sequence = run.sequence;
  event_bytes = run.event_bytes;
  events = run.events;
  outbox = run.outbox;
  checkpoint = run.checkpoint;
  operations = run.operations;
}

abbrev pub appended : ℕ → Event → History → History
appended size event h = record h {
  sequence = event.sequence;
  event_bytes = h.event_bytes + size;
  events = h.events ++ event ∷ [];
  outbox = h.outbox ++ record { sequence = event.sequence; dispatched_at = none } ∷ [];
}

-- How a row of the operations is written again.
pub data Rewrites (old row : Operation) : Type 0 where
  retried :
      (generation : ℕ)
      → old.readonly ≡ true
      → is_succeeded old.state ≡ false
      → old.attempts < 3
      → row
        ≡ record old { state = started; owner_generation = generation; attempts = old.attempts + 1 }
      → Rewrites old row
  doubted :
      old.readonly ≡ false
      → is_succeeded old.state ≡ false
      → row ≡ record old { state = uncertain }
      → Rewrites old row
  finished :
      (outcome : Outcome)
      → is_started old.state ≡ true
      → row ≡ record old { state = succeeded; result = some outcome }
      → Rewrites old row

-- A row is written that is new, or that was found under its key.
pub data Writes (rows : List Operation) (row : Operation) : Type 0 where
  opened :
      find row.key rows ≡ none
      → length rows < 128
      → row.state ≡ started
      → row.attempts ≡ 1
      → Writes rows row
  rewritten :
      (key : Text) (old : Operation) → find key rows ≡ some old → Rewrites old row → Writes rows row

-- A predicate that no call can break.
pub record Stable (env : Environment) (P : History → Type 0) : Type 0 where
  pub event :
      (h : History) (e : Event) (terminal : Bool)
      → P h
      → e.sequence ≡ h.sequence + 1
      → h.sequence < sequence_limit terminal
      → h.event_bytes + env.event_size h.id e ≤ bytes_limit terminal
      → P (appended (env.event_size h.id e) e h)
  pub claimed : (h : History) → P h → P (record h { generation = h.generation + 1 })
  pub saved :
      (h : History) (c : Checkpoint)
      → P h
      → c.revision ≡ next_revision h.checkpoint
      → P (record h { checkpoint = some c })
  pub written :
      (h : History) (row : Operation)
      → P h
      → Writes h.operations row
      → P (record h { operations = store row h.operations })
