-- ===== src/Transaction.antt =====
-- Transactions of app/manager/transactions.py, and the errors of app/core/errors.py.
-- A service opens a session, changes rows, and commits; what is not committed when the scope
-- is left is lost. Each reading of the database clock is a value of its own.
pub mod Rules
pub mod Refusal
pub mod Outcome
pub mod Triple
use learning_qa_assistant.Base.{
  ℕ, zero, suc, ◌+◌, Bool, true, false, Option, none, some, if◌then◌else◌,
}

-- The codes of `AppError` that this model raises or tests; `other` is any further code.
pub data Code : Type 0 where
  not_found forbidden resource_busy idempotency_conflict : Code
  run_interrupted run_event_limit run_event_invalid run_lease_lost run_cancel_requested : Code
  run_capacity_exceeded run_checkpoint_diverged run_checkpoint_limit run_recovery_limit : Code
  run_execution_failed internal_error agent_timeout hitl_expired invalid_event_cursor : Code
  invalid_clarification invalid_resume_input invalid_public_input public_input_not_allowed : Code
  resume_conflict operation_already_running tool_outcome_uncertain : Code
  evaluation_lease_lost evaluation_cancel_requested evaluation_recovery_limit : Code
  document_scope_changed capability_scope_changed sandbox_cleanup_failed : Code
  ingestion_lease_lost ingestion_task_diverged ingestion_failed ingestion_attempts_exhausted : Code
  document_index_pinned superseded_by_retirement superseded_by_retry : Code
  document_series_cleanup_incomplete milvus_unavailable : Code
  mineru_submission_unknown mineru_submission_failed mineru_upload_failed : Code
  mineru_upload_auth_failed mineru_upload_timeout mineru_rate_limited : Code
  mineru_upstream_unavailable mineru_parse_failed mineru_output_unsupported : Code
  mineru_parse_timeout mineru_download_timeout mineru_download_failed : Code
  invalid_citation vector_scope_mismatch hierarchy_scope_mismatch : Code
  hierarchy_timeout hierarchy_unavailable parent_context_timeout rag_rewrite_invalid : Code
  rerank_timeout rerank_unavailable rerank_auth_error rerank_rate_limited : Code
  rerank_invalid_response parent_context_budget_exceeded hierarchy_stale : Code
  auth_rate_limited unauthorized refresh_replayed invalid_credentials username_taken : Code
  invalid_username invalid_password invalid_admin_code registration_disabled csrf_rejected : Code
  sharing_disabled invalid_role invalid_workspace_scope document_not_ready : Code
  document_index_unpublished knowledge_version_conflict knowledge_version_diverged : Code
  embedding_model_mismatch evaluation_disabled evaluation_configuration_required : Code
  evaluation_capacity_exceeded : Code
  other : ℕ → Code

-- What a Python call raises: an `AppError`, a `ValueError`, or anything else.
pub data Failure : Type 0 where
  app_error : Code → Failure
  value_error : Failure
  crash : Failure

pub data Result {ℓ} (A : Type ℓ) : Type ℓ where
  ok : A → Result A
  err : Failure → Result A

-- `clock n` is the n-th coming reading of `clock_timestamp()`.
pub record Session (S : Type 0) : Type 0 where
  pub work : S
  pub saved : S
  pub clock : ℕ → ℕ

abbrev pub Tx : Type 0 → Type 0 → Type 0
Tx S A = Session S → Result A × Session S

module _ {S A : Type 0} where
  unfoldable pub pure : A → Tx S A
  pure a s = (ok a, s)

  unfoldable pub raise : Code → Tx S A
  raise code s = (err (app_error code), s)

  unfoldable pub lift : Result A → Tx S A
  lift r s = (r, s)

module _ {S : Type 0} where
  unfoldable pub raise_if : Bool → Code → Tx S (Unit {0})
  raise_if test code s = (if test then err (app_error code) else ok tt, s)

  -- `if test: body`
  unfoldable pub when : Bool → Tx S (Unit {0}) → Tx S (Unit {0})
  when test body s = if test then body s else (ok tt, s)

  unfoldable pub get : Tx S S
  get s = (ok s.work, s)

  unfoldable pub put : S → Tx S (Unit {0})
  put w s = (ok tt, record s { work = w })

  -- `session.commit()`
  unfoldable pub commit : Tx S (Unit {0})
  commit s = (ok tt, record s { saved = s.work })

  -- `self.now(session)`
  unfoldable pub now : Tx S ℕ
  now s = (ok (s.clock 0), record s { clock = λ n. s.clock (suc n) })

module _ {S A B : Type 0} where
  abbrev pub continue : Result A → (A → Tx S B) → Tx S B
  continue (ok a) f s = f a s
  continue (err e) f s = (err e, s)

  infixl 5 ◌>>=◌ ◌>>◌
  -- To unfold this unfolds the steps above too.
  unfoldable pub ◌>>=◌ : Tx S A → (A → Tx S B) → Tx S B
  unfolding pure raise lift raise_if when get put commit now
  ◌>>=◌ m f s = let (r, t) = m s in continue r f t

  abbrev pub ◌>>◌ : Tx S A → Tx S B → Tx S B
  m >> k = m >>= λ _. k

-- `with transaction_scope(database) as session: body`
unfoldable pub transaction : {S A : Type 0} → Tx S A → (ℕ → ℕ) → S → Result A × S
unfolding ◌>>=◌
transaction body clock s =
    let (r, t) = body (record { work = s; saved = s; clock = clock }) in (r, t.saved)
