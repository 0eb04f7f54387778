-- ===== src/Ingestion/Finish.antt =====
-- IngestionQueue.finish, retryable and status of app/service/ingestion_jobs.py: what an attempt's
-- end makes of the job, its document and its task.
use Prim.Native.Nat.{◌^◌}
use learning_qa_assistant.Base.{
  ℕ, zero, suc, ◌+◌, ◌-◌, ◌*◌, Bool, true, false, ◌&&◌, ◌||◌, Option, none, some, leb, ltb, ◌==◌,
  if◌then◌else◌,
}
use learning_qa_assistant.Base.Table.{find_row, store_row}
use learning_qa_assistant.Transaction.{
  Code, Tx, ◌>>=◌, ◌>>◌, pure, raise, get, put, now, commit, not_found, ingestion_failed,
  ingestion_attempts_exhausted, document_index_pinned, milvus_unavailable, mineru_rate_limited,
  mineru_upstream_unavailable, mineru_parse_timeout, mineru_download_timeout,
  mineru_download_failed,
}
use learning_qa_assistant.Ingestion.State.{
  Queue, Job, JobKind, delete, hierarchy, JobState, Phase, Document, DocumentStatus, is_ready,
  is_deleting, is_retired, Manifest, Claim, Settings, IngestError, app_error, upstream_error, crash,
  document_of,
}
use learning_qa_assistant.Ingestion.Metadata.{prepare_retry_metadata}
use learning_qa_assistant.Ingestion.Queue.{save_job, sync_task, at_phase}
use learning_qa_assistant.Ingestion.Worker.{owned, check_still}

abbrev pub is_transient : Code → Bool
is_transient mineru_rate_limited = true
is_transient mineru_upstream_unavailable = true
is_transient mineru_parse_timeout = true
is_transient mineru_download_timeout = true
is_transient mineru_download_failed = true
is_transient milvus_unavailable = true
is_transient _ = false

unfoldable pub retryable : IngestError → Bool
retryable (app_error code) = is_transient code
retryable (upstream_error code again) = again || is_transient code
retryable crash = false

abbrev pub code_of : Option IngestError → Code
code_of (some (app_error code)) = code
code_of (some (upstream_error code again)) = code
code_of _ = ingestion_failed

abbrev pub is_document_index_pinned : Code → Bool
is_document_index_pinned document_index_pinned = true
is_document_index_pinned _ = false

abbrev pub is_pinned : Option IngestError → Bool
is_pinned error = is_document_index_pinned (code_of error)

-- `min(300, 5 * 2 ** (attempts - 1))` seconds, in microseconds
unfoldable pub retry_delay : (attempts : ℕ) → ℕ
retry_delay zero = 2500000
retry_delay (suc n) =
    let delay = 5000000 * 2 ^ n in if leb 300000000 delay then 300000000 else delay

abbrev pub may_retry : Option IngestError → Job → Bool
may_retry none job = false
may_retry (some error) job = retryable error && ltb job.attempts job.max_attempts

abbrev pub failed_code : Claim → Option IngestError → Code
failed_code claim error = if claim.exhausted then ingestion_attempts_exhausted else code_of error

abbrev pub succeeded : Job → Job
succeeded job = record job { state = JobState.succeeded; last_error_code = none }

abbrev pub cancelled : Job → Job
cancelled job = record job { state = JobState.cancelled }

abbrev pub failed : Claim → Option IngestError → Job → Job
failed claim error job = record job {
  state = JobState.failed;
  last_error_code = some (failed_code claim error);
}

abbrev pub retried : Code → (time : ℕ) → Job → Job
retried code time job = record job {
  state = JobState.queued;
  last_error_code = some code;
  available_at = time + retry_delay job.attempts;
}

abbrev pub waiting : (time : ℕ) → Job → Job
waiting time job = record job {
  state = JobState.queued;
  last_error_code = none;
  attempts = job.attempts - 1;
  available_at = time + 5000000;
}

-- The job as a branch leaves it, with the phase of its task.
pub record Ending : Type 0 where
  pub job : Job
  pub phase : Phase

unfoldable pub end_retried : Option IngestError → Job → Tx Queue Ending
end_retried error job = do
  time ← now
  pure (record { job = retried (code_of error) time job; phase = Phase.retry_wait })

unfoldable pub end_waiting : Job → Tx Queue Ending
end_waiting job = do
  time ← now
  pure (record { job = waiting time job; phase = Phase.waiting_runs })

unfoldable pub end_delete : Claim → Option IngestError → Document → Job → Tx Queue Ending
end_delete claim error document job =
    if is_retired document.status
    then pure (record { job = succeeded job; phase = Phase.done })
    else if is_pinned error
    then end_waiting job
    else if may_retry error job
    then end_retried error job
    else pure (record { job = failed claim error job; phase = Phase.failed })

-- A manifest that is not there has none of the values that it is compared with.
unfoldable pub is_valid_manifest : Settings → Document → Option Manifest → Bool
is_valid_manifest settings document none = false
is_valid_manifest settings document (some manifest) =
    manifest.fingerprint == settings.hierarchy_fingerprint
    && manifest.source_hash == document.content_hash
    && manifest.leaf_count == document.chunk_count
    && manifest.generation == document.metadata.generation

unfoldable pub end_hierarchy :
    Settings → Claim → Option IngestError → Document → Job → Tx Queue Ending
end_hierarchy settings claim error document job =
    if is_deleting document.status
    then pure (record { job = cancelled job; phase = Phase.cancelled })
    else if is_ready document.status
        && is_valid_manifest settings document document.metadata.hierarchy
    then pure (record { job = succeeded job; phase = Phase.done })
    else if may_retry error job
    then end_retried error job
    else pure (record { job = failed claim error job; phase = Phase.failed })

unfoldable pub save_document : Document → Tx Queue (Unit {0})
save_document document = do
  queue ← get
  put (record queue { documents = store_row (document_of document.id) document queue.documents })

abbrev pub retried_document : (attempt_id : ℕ) → Code → Document → Document
retried_document attempt_id code document = record document {
  status = DocumentStatus.processing;
  metadata = record (prepare_retry_metadata attempt_id document.metadata) {
    phase = some Phase.retry_wait;
    error_code = some code;
  };
  chunk_count = 0;
}

abbrev pub failed_document : Code → Document → Document
failed_document code document = record document {
  status = DocumentStatus.failed;
  chunk_count = 0;
  metadata = record document.metadata { phase = some Phase.failed; error_code = some code };
}

unfoldable pub end_ingest :
    (attempt_id : ℕ) → Claim → Option IngestError → Document → Job → Tx Queue Ending
end_ingest attempt_id claim error document job =
    if is_ready document.status
    then pure (record { job = succeeded job; phase = Phase.done })
    else if is_deleting document.status
    then pure (record { job = cancelled job; phase = Phase.cancelled })
    else if may_retry error job
    then end_retried error job >>= (λ ending.
      save_document (retried_document attempt_id (code_of error) document) >> pure ending)
    else save_document (failed_document (failed_code claim error) document)
      >> pure (record { job = failed claim error job; phase = Phase.failed })

unfoldable pub end_job :
    JobKind
    → Settings
    → (attempt_id : ℕ) → Claim
    → Option IngestError
    → Document
    → Job
    → Tx Queue Ending
end_job delete settings attempt_id claim error document job = end_delete claim error document job
end_job hierarchy settings attempt_id claim error document job =
    end_hierarchy settings claim error document job
end_job _ settings attempt_id claim error document job =
    end_ingest attempt_id claim error document job

-- `Repository.document`
abbrev pub owned_document : (user_id document_id : ℕ) → Document → Bool
owned_document user_id document_id document =
    document.id == document_id && document.user_id == user_id

unfoldable pub the_document : Option Document → Tx Queue Document
the_document none = raise not_found
the_document (some document) = pure document

unfoldable pub document_row : (user_id document_id : ℕ) → Tx Queue Document
document_row user_id document_id = do
  queue ← get
  the_document (find_row (owned_document user_id document_id) queue.documents)

abbrev pub let_go : Job → Job
let_go job = record job { claim_token = none; lease_expires_at = none }

unfoldable pub save_ending : Ending → Tx Queue (Unit {0})
save_ending ending = do
  check_still ending.job
  save_job (let_go ending.job)
  sync_task (let_go ending.job) (at_phase ending.phase)
  commit

-- `attempt_id` is the fresh `uuid4()` of `prepare_retry_metadata`.
unfoldable pub finish :
    Settings → (attempt_id : ℕ) → Claim → Option IngestError → Tx Queue (Unit {0})
finish settings attempt_id claim error = do
  document ← document_row claim.user_id claim.document_id
  job ← owned claim
  ending ← end_job claim.kind settings attempt_id claim error document job
  save_ending ending

pub record Status : Type 0 where
  pub kind : JobKind
  pub state : JobState
  pub attempts : ℕ
  pub max_attempts : ℕ
  pub available_at : ℕ
  pub last_error_code : Option Code

abbrev pub status_of : Job → Status
status_of job = record {
  kind = job.kind;
  state = job.state;
  attempts = job.attempts;
  max_attempts = job.max_attempts;
  available_at = job.available_at;
  last_error_code = job.last_error_code;
}

abbrev pub owned_job : (user_id document_id : ℕ) → Job → Bool
owned_job user_id document_id job = job.document_id == document_id && job.user_id == user_id

abbrev pub status_found : Option Job → Option Status
status_found none = none
status_found (some job) = some (status_of job)

unfoldable pub status : (user_id document_id : ℕ) → Tx Queue (Option Status)
status user_id document_id = do
  document ← document_row user_id document_id
  queue ← get
  pure (status_found (find_row (owned_job user_id document_id) queue.jobs))
