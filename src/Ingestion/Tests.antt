-- ===== src/Ingestion/Tests.antt =====
-- Runs of the ingestion queue on a sample, and the theorems at concrete inputs.
use learning_qa_assistant.Base.{ℕ, ◌+◌, ◌≤◌, true, false, ◌≡◌, refl, none, some, List, [], ◌∷◌}
use learning_qa_assistant.Base.Table.{find_row}
use learning_qa_assistant.Transaction.{err, Failure}
use learning_qa_assistant.Ingestion.State.{
  Queue, Job, ingest, hierarchy, JobState, Document, DocumentStatus, Metadata, Claim, Settings,
  crash,
}
use learning_qa_assistant.Ingestion.Calls.{
  WorkerCall, heartbeat, finish, Call, worker, perform, queue_history,
}
use learning_qa_assistant.Ingestion.Calls
use learning_qa_assistant.Ingestion.Fencing.{unheld_job_refused}
use learning_qa_assistant.Ingestion.Sound.{HasSoundJobs}
use learning_qa_assistant.Ingestion.Attempts.{queue_history-HasSoundJobs}
use learning_qa_assistant.Ingestion.Backfill.{finish-documents}
use learning_qa_assistant.Ingestion.Delay.{retry_delay_bounds}
use learning_qa_assistant.Ingestion.Finish.{retry_delay}

abbrev sample_settings : Settings
sample_settings = record {
  ingestion_max_attempts = 3;
  ingestion_lease = 60;
  ingestion_poll = 2;
  hierarchy_fingerprint = 5;
}

abbrev sample_metadata : Metadata
sample_metadata = record {
  is_mineru = true;
  phase = none;
  failed_phase = none;
  error_code = none;
  generation = 0;
  attempt_id = none;
  batch_id = none;
  retryable = none;
  hierarchy = none;
}

abbrev sample_document : Document
sample_document = record {
  id = 1;
  user_id = 2;
  organization_id = none;
  status = DocumentStatus.processing;
  content_hash = 9;
  chunk_count = 4;
  created_at = 0;
  metadata = sample_metadata;
}

abbrev empty_queue : Queue
empty_queue = record { jobs = []; tasks = []; documents = sample_document ∷ [] }

abbrev at_10 : ℕ → ℕ
at_10 _ = 10

abbrev at_20 : ℕ → ℕ
at_20 _ = 20

abbrev sample_calls : List (Call × (ℕ → ℕ))
sample_calls = (Calls.reconcile (λ n. 70 + n) 9 100, at_10) ∷ (Calls.claim 77, at_10) ∷ []

abbrev sample_claim : Claim
sample_claim = record { document_id = 1; user_id = 2; token = 77; exhausted = false; kind = ingest }

abbrev held_job : Job
held_job = record {
  document_id = 1;
  task_id = none;
  user_id = 2;
  kind = hierarchy;
  state = JobState.running;
  attempts = 1;
  max_attempts = 3;
  available_at = 10;
  lease_expires_at = some 70;
  claim_token = some 77;
  last_error_code = none;
}

abbrev held_queue : Queue
held_queue = record { jobs = held_job ∷ []; tasks = []; documents = sample_document ∷ [] }

-- A crash leaves the job failed, and the document as it was.
finish-documents_example :
    (perform sample_settings
      (worker (record sample_claim { kind = hierarchy }) (finish 8 (some crash)))
      at_20
      held_queue).1.documents
    ≡ sample_document ∷ []
finish-documents_example =
    finish-documents sample_settings 8 (record sample_claim { kind = hierarchy }) (some crash) at_20
      held_queue refl

-- Another worker's token is refused.
unheld_job_refused_example :
    ((f : Failure) × ((perform sample_settings
          (worker (record sample_claim { token = 78 }) heartbeat)
          at_20
          held_queue).0
        ≡ err f))
    × ((perform sample_settings
          (worker (record sample_claim { token = 78 }) heartbeat)
          at_20
          held_queue).1
        ≡ held_queue)
unfolding find_row
unheld_job_refused_example =
    unheld_job_refused sample_settings (record sample_claim { token = 78 }) heartbeat at_20
      held_queue refl

queue_history-HasSoundJobs_example :
    HasSoundJobs (queue_history sample_settings sample_calls empty_queue)
queue_history-HasSoundJobs_example =
    queue_history-HasSoundJobs sample_settings sample_calls empty_queue tt

retry_delay_bounds_example :
    (2500000 ≤ retry_delay 7) × (retry_delay 7 ≤ 300000000) × (retry_delay 7 ≤ retry_delay 8)
retry_delay_bounds_example = retry_delay_bounds 7
