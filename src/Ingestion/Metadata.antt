-- ===== src/Ingestion/Metadata.antt =====
-- Parser metadata that is kept across retries: app/entity/ingestion.py.
use learning_qa_assistant.Base.{
  ℕ, ◌+◌, Bool, true, false, ◌&&◌, ◌||◌, Option, none, some, if◌then◌else◌,
}
use learning_qa_assistant.Transaction.{
  Code, mineru_submission_unknown, mineru_submission_failed, mineru_upload_failed,
  mineru_upload_auth_failed, mineru_upload_timeout, mineru_rate_limited,
  mineru_upstream_unavailable, mineru_parse_failed, mineru_output_unsupported,
}
use learning_qa_assistant.Ingestion.State.{Phase, validating, uploading, Metadata}

unfoldable pub restarts : Code → Bool
restarts mineru_submission_unknown = true
restarts mineru_submission_failed = true
restarts mineru_upload_failed = true
restarts mineru_upload_auth_failed = true
restarts mineru_upload_timeout = true
restarts mineru_rate_limited = true
restarts mineru_upstream_unavailable = true
restarts mineru_parse_failed = true
restarts mineru_output_unsupported = true
restarts _ = false

unfoldable pub code_restarts : Option Code → Bool
unfolding restarts
code_restarts none = false
code_restarts (some code) = restarts code

unfoldable pub was_uploading : Option Phase → Bool
was_uploading (some uploading) = true
was_uploading _ = false

abbrev pub needs_restart : Metadata → Bool
needs_restart metadata =
    metadata.is_mineru && (code_restarts metadata.error_code || was_uploading metadata.phase)

-- `attempt_id` is the fresh `uuid4()`.
unfoldable pub prepare_retry_metadata : (attempt_id : ℕ) → Metadata → Metadata
prepare_retry_metadata attempt_id metadata =
    record (if needs_restart metadata
      then record metadata {
        generation = metadata.generation + 1;
        attempt_id = some attempt_id;
        batch_id = none;
      }
      else metadata) {
        phase = some validating;
        failed_phase = none;
        error_code = none;
        retryable = none;
      }
