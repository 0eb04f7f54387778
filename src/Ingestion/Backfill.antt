-- ===== src/Ingestion/Backfill.antt =====
-- Backfilling the hierarchy of a document ends without touching the document.
use learning_qa_assistant.Base.{
  ℕ, Bool, true, false, ◌&&◌, ◌≡◌, refl, Option, none, some, List, if◌then◌else◌,
}
use learning_qa_assistant.Transaction.{Tx}
use learning_qa_assistant.Transaction.Rules.{
  Post, Post-pure, Post-raise, Post-raise_if, Post-put, Post-commit, Post-bind, Post-weaken,
  then_get, then_raise_if, then_now, then_do, transaction-Post,
}
use learning_qa_assistant.Ingestion.State.{
  Queue, Job, JobKind, Document, Claim, Settings, IngestError, hierarchy, delete, ingest,
  delete_series, is_deleting, is_ready,
}
use learning_qa_assistant.Ingestion.Queue.{save_job}
use learning_qa_assistant.Ingestion.Worker.{check_lease, owned, check_still}
use learning_qa_assistant.Ingestion.Finish.{
  Ending, end_retried, end_waiting, end_delete, end_hierarchy, end_job, the_document, document_row,
  save_ending, may_retry, is_pinned, is_valid_manifest,
}
use learning_qa_assistant.Ingestion.Finish
use learning_qa_assistant.Ingestion.Calls.{worker_tx, call_tx, perform, worker, finish}
use learning_qa_assistant.Ingestion.Tasks.{sync_task-Stays}

abbrev pub is_backfill : JobKind → Bool
is_backfill hierarchy = true
is_backfill _ = false

module _ (documents : List Document) where
  abbrev Same : Queue → Type 0
  Same queue = queue.documents ≡ documents

  abbrev Leaves : {A : Type 0} → Tx Queue A → Type 0
  Leaves m = Post Same (λ _. Unit {0}) m

  save_job-Leaves : (job : Job) → Leaves (save_job job)
  unfolding save_job
  save_job-Leaves job = then_get (λ queue h. Post-put _ h)

  check_still-Leaves : (job : Job) → Leaves (check_still job)
  unfolding check_still
  check_still-Leaves job = then_now (λ time. Post-weaken _ (Post-raise_if _ _))

  save_ending-Leaves : (ending : Ending) → Leaves (save_ending ending)
  unfolding save_ending
  save_ending-Leaves ending = then_do _ (check_still-Leaves _) (
      then_do _ (save_job-Leaves _) (then_do _ (sync_task-Stays Same (λ _ _ h. h) _ _) Post-commit))

  owned-Leaves : (claim : Claim) → Leaves (owned claim)
  unfolding owned check_lease
  owned-Leaves claim = then_get (λ queue h. checked _)
    where
      checked : (found : Option Job) → Leaves (check_lease claim found)
      checked none = Post-raise _
      checked (some job) =
          then_raise_if _ _ (λ mine. then_now (λ time. then_raise_if _ _ (λ _. Post-pure job tt)))

  document_row-Leaves : (user_id document_id : ℕ) → Leaves (document_row user_id document_id)
  unfolding document_row the_document
  document_row-Leaves user_id document_id = then_get (λ queue h. found _)
    where
      found : (document : Option Document) → Leaves (the_document document)
      found none = Post-raise _
      found (some document) = Post-pure document tt

  if-Leaves :
      (test : Bool) (m n : Tx Queue Ending) → Leaves m → Leaves n → Leaves (if test then m else n)
  if-Leaves true m n p q = p
  if-Leaves false m n p q = q

  end_retried-Leaves : (error : Option IngestError) (job : Job) → Leaves (end_retried error job)
  unfolding end_retried
  end_retried-Leaves error job = then_now (λ time. Post-pure _ tt)

  end_hierarchy-Leaves :
      (settings : Settings) (claim : Claim) (error : Option IngestError) (document : Document)
      (job : Job)
      → Leaves (end_hierarchy settings claim error document job)
  unfolding end_hierarchy
  end_hierarchy-Leaves settings claim error document job =
      if-Leaves (is_deleting document.status) _ _ (Post-pure _ tt) (
        if-Leaves
          (is_ready document.status
            && is_valid_manifest settings document document.metadata.hierarchy)
          _ _ (Post-pure _ tt)
          (if-Leaves (may_retry error job) _ _ (end_retried-Leaves error job) (Post-pure _ tt)))

  end_job-Leaves :
      (kind : JobKind) (settings : Settings) (attempt_id : ℕ) (claim : Claim)
      (error : Option IngestError) (document : Document) (job : Job)
      → is_backfill kind ≡ true
      → Leaves (end_job kind settings attempt_id claim error document job)
  unfolding end_job
  end_job-Leaves hierarchy settings attempt_id claim error document job h =
      end_hierarchy-Leaves settings claim error document job
  end_job-Leaves delete settings attempt_id claim error document job h = absurd (cc h)
  end_job-Leaves ingest settings attempt_id claim error document job h = absurd (cc h)
  end_job-Leaves delete_series settings attempt_id claim error document job h = absurd (cc h)

-- However the attempt of a job that backfills a hierarchy ended, well, with whatever error, or with
-- its lease lost, `finish` leaves every document as it was.
pub finish-documents :
    (settings : Settings) (attempt_id : ℕ) (claim : Claim) (error : Option IngestError)
    (clock : ℕ → ℕ) (queue : Queue)
    → is_backfill claim.kind ≡ true
    → (perform settings (worker claim (finish attempt_id error)) clock queue).1.documents
      ≡ queue.documents
unfolding perform call_tx worker_tx Finish.finish
finish-documents settings attempt_id claim error clock queue h =
    let documents = queue.documents in
    transaction-Post (Finish.finish settings attempt_id claim error) clock queue
      (Post-bind _ _ (document_row-Leaves documents _ _) (λ document _.
        Post-bind _ _ (owned-Leaves documents claim) (λ job _.
          Post-bind _ _
            (end_job-Leaves documents claim.kind settings attempt_id claim error document job h)
            (λ ending _. save_ending-Leaves documents ending))))
      refl
