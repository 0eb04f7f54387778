-- ===== src/Ingestion/State.antt =====
-- The rows of the ingestion queue: IngestionJob and DocumentTask of app/entity/do/models.py, and
-- what the queue reads and writes of a document.
use learning_qa_assistant.Base.{ℕ, Bool, true, false, Option, List, ◌==◌}
use learning_qa_assistant.Transaction.{Code}

-- `delete_series` is a kind of tasks only.
pub data JobKind : Type 0 where
  ingest hierarchy delete delete_series : JobKind

abbrev pub same_kind : JobKind → JobKind → Bool
same_kind ingest ingest = true
same_kind hierarchy hierarchy = true
same_kind delete delete = true
same_kind delete_series delete_series = true
same_kind _ _ = false

pub data JobState : Type 0 where
  queued running succeeded failed cancelled : JobState

abbrev pub is_queued : JobState → Bool
is_queued queued = true
is_queued _ = false

abbrev pub is_running : JobState → Bool
is_running running = true
is_running _ = false

abbrev pub is_succeeded : JobState → Bool
is_succeeded succeeded = true
is_succeeded _ = false

abbrev pub is_failed : JobState → Bool
is_failed failed = true
is_failed _ = false

abbrev pub is_cancelled : JobState → Bool
is_cancelled cancelled = true
is_cancelled _ = false

-- `other` is any phase that the pipeline reports by `progress`.
pub data Phase : Type 0 where
  queued running waiting_runs done failed retry_wait cancelled cleaning_versions : Phase
  validating uploading : Phase
  other : ℕ → Phase

abbrev pub is_waiting_runs : Phase → Bool
is_waiting_runs waiting_runs = true
is_waiting_runs _ = false

pub data DocumentStatus : Type 0 where
  processing ready deleting retired failed : DocumentStatus

abbrev pub is_ready : DocumentStatus → Bool
is_ready ready = true
is_ready _ = false

abbrev pub is_deleting : DocumentStatus → Bool
is_deleting deleting = true
is_deleting _ = false

abbrev pub is_retired : DocumentStatus → Bool
is_retired retired = true
is_retired _ = false

abbrev pub is_processing : DocumentStatus → Bool
is_processing processing = true
is_processing _ = false

pub record Job : Type 0 where
  pub document_id : ℕ
  pub task_id : Option ℕ
  pub user_id : ℕ
  pub kind : JobKind
  pub state : JobState
  pub attempts : ℕ
  pub max_attempts : ℕ
  pub available_at : ℕ
  pub lease_expires_at : Option ℕ
  pub claim_token : Option ℕ
  pub last_error_code : Option Code

-- `already_retired` is the one key of `details` that the queue reads, 0 where it is missing.
pub record Task : Type 0 where
  pub id : ℕ
  pub document_id : Option ℕ
  pub parent_task_id : Option ℕ
  pub user_id : ℕ
  pub organization_id : Option ℕ
  pub kind : JobKind
  pub state : JobState
  pub phase : Phase
  pub processed_units : ℕ
  pub total_units : Option ℕ
  pub attempts : ℕ
  pub max_attempts : ℕ
  pub error_code : Option Code
  pub already_retired : ℕ
  pub updated_at : ℕ

-- `parser_metadata["hierarchy"]`
pub record Manifest : Type 0 where
  pub fingerprint : ℕ
  pub source_hash : ℕ
  pub leaf_count : ℕ
  pub generation : ℕ

-- The keys of `parser_metadata` that the queue reads or writes; a missing `generation` is 0.
pub record Metadata : Type 0 where
  pub is_mineru : Bool
  pub phase : Option Phase
  pub failed_phase : Option Phase
  pub error_code : Option Code
  pub generation : ℕ
  pub attempt_id : Option ℕ
  pub batch_id : Option ℕ
  pub retryable : Option Bool
  pub hierarchy : Option Manifest

pub record Document : Type 0 where
  pub id : ℕ
  pub user_id : ℕ
  pub organization_id : Option ℕ
  pub status : DocumentStatus
  pub content_hash : ℕ
  pub chunk_count : ℕ
  pub created_at : ℕ
  pub metadata : Metadata

pub record Queue : Type 0 where
  pub jobs : List Job
  pub tasks : List Task
  pub documents : List Document

pub record Claim : Type 0 where
  pub document_id : ℕ
  pub user_id : ℕ
  pub token : ℕ
  pub exhausted : Bool
  pub kind : JobKind

-- Settings, in microseconds, and the fingerprint of the hierarchy builder that is configured.
pub record Settings : Type 0 where
  pub ingestion_max_attempts : ℕ
  pub ingestion_lease : ℕ
  pub ingestion_poll : ℕ
  pub hierarchy_fingerprint : ℕ

-- What a worker's attempt ended with, if not well.
pub data IngestError : Type 0 where
  app_error : Code → IngestError
  upstream_error : Code → (retryable : Bool) → IngestError
  crash : IngestError

abbrev pub job_of : ℕ → Job → Bool
job_of document_id job = job.document_id == document_id

abbrev pub task_of : ℕ → Task → Bool
task_of id task = task.id == id

abbrev pub document_of : ℕ → Document → Bool
document_of id document = document.id == id
