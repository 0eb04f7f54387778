-- ===== src/Run/State.antt =====
-- The rows of one run: ChatRun of app/entity/do/models.py with the rows that name it (events,
-- outbox, checkpoint, operations, artifacts, its assistant message), and what the store is
-- given. Identifiers, tokens, digests and hashes are only compared, so they are numbers; a time
-- is a number of microseconds.
use learning_qa_assistant.Base.{ℕ, Bool, true, false, Option, List}
use learning_qa_assistant.Base.Text.{Text}
use learning_qa_assistant.Transaction.{Code, Result}

pub data RunState : Type 0 where
  queued running waiting cancelling cancelled succeeded failed interrupted : RunState

abbrev pub is_active : RunState → Bool
is_active queued = true
is_active running = true
is_active waiting = true
is_active cancelling = true
is_active _ = false

abbrev pub is_terminal : RunState → Bool
is_terminal cancelled = true
is_terminal succeeded = true
is_terminal failed = true
is_terminal interrupted = true
is_terminal _ = false

abbrev pub is_running : RunState → Bool
is_running running = true
is_running _ = false

abbrev pub is_waiting : RunState → Bool
is_waiting waiting = true
is_waiting _ = false

abbrev pub is_cancelling : RunState → Bool
is_cancelling cancelling = true
is_cancelling _ = false

abbrev pub is_queued : RunState → Bool
is_queued queued = true
is_queued _ = false

pub data Kind : Type 0 where
  chat evaluation : Kind

abbrev pub same_kind : Kind → Kind → Bool
same_kind chat chat = true
same_kind evaluation evaluation = true
same_kind _ _ = false

-- The events that the store writes, with the fields of their payloads. `detail` stands for
-- values that come from the workflow and are passed on unread.
pub data EventData : Type 0 where
  run_started : (request_id search_mode : ℕ) → EventData
  tool_approval_granted : (detail : ℕ) → EventData
  answer_delta answer_start agent_event : (detail : ℕ) → EventData
  context_usage usage done : (detail : ℕ) → EventData
  error : Code → EventData
  run_claimed : (generation : ℕ) → EventData
  run_waiting :
      (question : Text) (revision resume_token expires_at : ℕ) (public_input : Bool) → EventData
  run_resumed : (revision : ℕ) → EventData
  run_cancelled cancel_requested : EventData
  tool_started : (key : Text) (generation : ℕ) (readonly : Bool) → EventData
  tool_failed : (key : Text) (uncertain : Bool) (detail : ℕ) → EventData
  tool_finished : (key : Text) (detail : ℕ) → EventData
  artifacts_ready : (names : List ℕ) → EventData

pub record Event : Type 0 where
  pub sequence : ℕ
  pub body : EventData

pub record OutboxRow : Type 0 where
  pub sequence : ℕ
  pub dispatched_at : Option ℕ

pub record Receipt : Type 0 where
  pub key : ℕ
  pub input_hash : ℕ
  pub revision : ℕ

-- The keys of a checkpoint payload that the store reads or writes; `rest` is all others.
pub record Payload : Type 0 where
  pub human_inputs : List Text
  pub public_inputs : Option (List (Option Text))
  pub resume_receipt : Option Receipt
  pub rest : ℕ

pub record Checkpoint : Type 0 where
  pub revision : ℕ
  pub payload : Payload

pub data OperationState : Type 0 where
  started succeeded uncertain : OperationState

-- The JSON outcome of a checkpointed call: `{"ok": true, "value": …}` or
-- `{"ok": false, "code": …}`. Of the value the store reads only whether it reports a failure.
pub data Outcome : Type 0 where
  returned : (value : ℕ) (reports_failure : Bool) → Outcome
  raised : Code → Outcome

pub record Operation : Type 0 where
  pub key : Text
  pub input_hash : ℕ
  pub state : OperationState
  pub readonly : Bool
  pub owner_generation : ℕ
  pub attempts : ℕ
  pub result : Option Outcome

pub record Artifact : Type 0 where
  pub key : Text
  pub name : ℕ

pub record Message : Type 0 where
  pub id : ℕ
  pub user_id : ℕ
  pub session_id : ℕ
  pub is_assistant : Bool
  pub run_state : Option RunState

-- What `execution_snapshot["context"]` freezes: the capability snapshot and the approval grant.
pub record Snapshot : Type 0 where
  pub capability : Option ℕ
  pub approval : Option ℕ

pub record Run : Type 0 where
  pub id : ℕ
  pub user_id : ℕ
  pub session_id : ℕ
  pub client_key : ℕ
  pub fingerprint : ℕ
  pub kind : Kind
  pub state : RunState
  pub sequence : ℕ
  pub event_bytes : ℕ
  pub request_id : ℕ
  pub expires_at : ℕ
  pub message_id : Option ℕ
  pub execution_snapshot : Option Snapshot
  pub owner_token : Option ℕ
  pub generation : ℕ
  pub lease_expires_at : Option ℕ
  pub remaining : Option ℕ
  pub active_since : Option ℕ
  pub resume_key : Option ℕ
  pub created_at : ℕ
  pub events : List Event
  pub outbox : List OutboxRow
  pub checkpoint : Option Checkpoint
  pub operations : List Operation
  pub artifacts : List Artifact
  pub message : Option Message

pub record RunClaim : Type 0 where
  pub run_id : ℕ
  pub user_id : ℕ
  pub token : ℕ
  pub generation : ℕ

-- Settings, and what other components and packages answer.
pub record Environment : Type 0 where
  pub kind : Kind
  -- `agent_timeout`, `chat_run_lease_seconds`, `chat_run_wait_seconds`, in microseconds
  pub agent_timeout : ℕ
  pub lease : ℕ
  pub wait : ℕ
  pub queue_limit : ℕ
  pub sandbox_enabled : Bool
  -- bytes of the UTF-8 JSON of an event, a checkpoint payload, an outcome, a call's inputs
  pub event_size : (run_id : ℕ) → Event → ℕ
  pub payload_size : Payload → ℕ
  pub outcome_size : Outcome → ℕ
  pub inputs_size : ℕ → ℕ
  -- SHA-256 of a call's inputs, and of a supplement with its public query
  pub inputs_hash : ℕ → ℕ
  pub supplement_hash : Text → Option Text → ℕ
  -- whether `Repository.chat_session` lets a user at a session
  pub authorize : (user_id session_id : ℕ) → Bool
  -- `prepare_public_query`, `validate_execution` and `validate_approval`, and whether a frozen
  -- capability snapshot parses and allows an HTTP tool
  pub prepare_public_query : Text → Result Text
  pub validate_execution : (user_id : ℕ) → Option ℕ → Option Code
  pub validate_approval : (user_id session_id run_id approval : ℕ) → Option Code
  pub allows_public_tool : ℕ → Bool
