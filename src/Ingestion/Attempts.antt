-- ===== src/Ingestion/Attempts.antt =====
-- Every job of the ingestion queue stays within its attempts, and it has a token and a lease
-- exactly while it runs.
use learning_qa_assistant.Base.{
  ℕ, ◌≤◌, Bool, true, false, ◌&&◌, ◌≡◌, refl, sym, Option, none, some, List, [], ◌∷◌, if◌then◌else◌,
  arith,
}
use learning_qa_assistant.Transaction.{Tx, pure}
use learning_qa_assistant.Transaction.Rules.{
  Post, Post-pure, Post-raise, Post-commit, Post-bind, then_get, then_now, then_do,
  transaction-Post,
}
use learning_qa_assistant.Ingestion.State.{
  Queue, Job, JobKind, is_running, is_retired, is_deleting, is_ready, Document, Claim, Settings,
  IngestError, delete, hierarchy, ingest, delete_series,
}
use learning_qa_assistant.Ingestion.Worker.{
  next_job, sooner, is_due, is_before, enqueue_each, reconcile, taken, claim_job, holds_token,
  check_lease, owned, check_still,
}
use learning_qa_assistant.Ingestion.Worker
use learning_qa_assistant.Ingestion.Finish.{
  Ending, end_retried, end_waiting, end_delete, end_hierarchy, end_ingest, end_job, save_document,
  the_document, document_row, save_ending, may_retry, is_pinned, is_valid_manifest,
}
use learning_qa_assistant.Ingestion.Finish
use learning_qa_assistant.Ingestion.Calls.{
  Call, WorkerCall, heartbeat, release_busy, assert_owned, finish, worker, worker_tx, call_tx,
  perform, queue_history,
}
use learning_qa_assistant.Ingestion.Calls
use learning_qa_assistant.Ingestion.Tasks.{sync_task-Stays, progress-Stays}
use learning_qa_assistant.Ingestion.Sound.{
  any_tasks, HasSoundJobs, Keeps, save_job-Keeps, save_document-Keeps, enqueue-Keeps,
  reconcile-Keeps,
}
use learning_qa_assistant.Ingestion.Holding.{
  claim-Keeps, IsHeld, owned-Post, check_still-Keeps, IsSettled, heartbeat-Keeps,
  release_busy-Keeps,
}

Ends : Tx Queue Ending → Type 0
Ends m = Post HasSoundJobs IsSettled m

settled :
    (ending : Ending)
    → ending.job.attempts ≤ ending.job.max_attempts
    → is_running ending.job.state ≡ false
    → Ends (pure ending)
unfolding Ends
settled ending within stopped = Post-pure ending (record { within = within; stopped = stopped })

end_retried-Ends :
    (error : Option IngestError) (job : Job) → IsHeld job → Ends (end_retried error job)
unfolding end_retried Ends
end_retried-Ends error job held = then_now (λ time. settled _ held.0.within refl)

end_waiting-Ends : (job : Job) → IsHeld job → Ends (end_waiting job)
unfolding end_waiting Ends
end_waiting-Ends job held =
    then_now (λ time. let within = held.0.within in settled _ (ground arith) refl)

if-Ends : (test : Bool) (m n : Tx Queue Ending) → Ends m → Ends n → Ends (if test then m else n)
if-Ends true m n p q = p
if-Ends false m n p q = q

end_delete-Ends :
    (claim : Claim) (error : Option IngestError) (document : Document) (job : Job)
    → IsHeld job
    → Ends (end_delete claim error document job)
unfolding end_delete
end_delete-Ends claim error document job held =
    if-Ends (is_retired document.status) _ _ (settled _ held.0.within refl) (
      if-Ends (is_pinned error) _ _ (end_waiting-Ends job held) (
        if-Ends (may_retry error job) _ _ (end_retried-Ends error job held)
          (settled _ held.0.within refl)))

end_hierarchy-Ends :
    (settings : Settings) (claim : Claim) (error : Option IngestError) (document : Document)
    (job : Job)
    → IsHeld job
    → Ends (end_hierarchy settings claim error document job)
unfolding end_hierarchy
end_hierarchy-Ends settings claim error document job held =
    if-Ends (is_deleting document.status) _ _ (settled _ held.0.within refl) (
      if-Ends
        (is_ready document.status
          && is_valid_manifest settings document document.metadata.hierarchy)
        _ _ (settled _ held.0.within refl)
        (if-Ends (may_retry error job) _ _ (end_retried-Ends error job held)
          (settled _ held.0.within refl)))

end_ingest-Ends :
    (attempt_id : ℕ) (claim : Claim) (error : Option IngestError) (document : Document) (job : Job)
    → IsHeld job
    → Ends (end_ingest attempt_id claim error document job)
unfolding end_ingest Ends
end_ingest-Ends attempt_id claim error document job held =
    if-Ends (is_ready document.status) _ _ (settled _ held.0.within refl) (
      if-Ends (is_deleting document.status) _ _ (settled _ held.0.within refl) (
        if-Ends (may_retry error job) _ _
          (Post-bind _ _ (end_retried-Ends error job held)
            (λ ending e. then_do _ (save_document-Keeps _) (Post-pure ending e)))
          (then_do _ (save_document-Keeps _) (settled _ held.0.within refl))))

end_job-Ends :
    (kind : JobKind) (settings : Settings) (attempt_id : ℕ) (claim : Claim)
    (error : Option IngestError) (document : Document) (job : Job)
    → IsHeld job
    → Ends (end_job kind settings attempt_id claim error document job)
unfolding end_job
end_job-Ends ingest settings attempt_id claim error document job held =
    end_ingest-Ends attempt_id claim error document job held
end_job-Ends hierarchy settings attempt_id claim error document job held =
    end_hierarchy-Ends settings claim error document job held
end_job-Ends delete settings attempt_id claim error document job held =
    end_delete-Ends claim error document job held
end_job-Ends delete_series settings attempt_id claim error document job held =
    end_ingest-Ends attempt_id claim error document job held

document_row-Post :
    (user_id document_id : ℕ) → Post HasSoundJobs (λ _. Unit {0}) (document_row user_id document_id)
unfolding document_row the_document
document_row-Post user_id document_id = then_get (λ queue h. found _)
  where
    found : (document : Option Document) → Post HasSoundJobs (λ _. Unit {0}) (the_document document)
    found none = Post-raise _
    found (some document) = Post-pure document tt

save_ending-Keeps : (ending : Ending) → IsSettled ending → Keeps (save_ending ending)
unfolding save_ending
save_ending-Keeps ending e = then_do _ (check_still-Keeps _) (
    then_do _
      (save_job-Keeps _
        (record { within = e.within; token = sym e.stopped; lease = sym e.stopped }))
      (then_do _ (sync_task-Stays HasSoundJobs any_tasks _ _) Post-commit))

module _ (settings : Settings) where
  finish-Keeps :
      (attempt_id : ℕ) (claim : Claim) (error : Option IngestError)
      → Keeps (Finish.finish settings attempt_id claim error)
  unfolding Finish.finish Ends
  finish-Keeps attempt_id claim error = Post-bind _ _ (document_row-Post _ _) (λ document _.
      Post-bind _ _ (owned-Post claim) (λ job held.
        Post-bind _ _ (end_job-Ends claim.kind settings attempt_id claim error document job held)
          save_ending-Keeps))

  worker-Keeps : (c : Claim) (call : WorkerCall) → Keeps (worker_tx settings c call)
  unfolding worker_tx Worker.assert_owned
  worker-Keeps c heartbeat = heartbeat-Keeps settings c
  worker-Keeps c release_busy = release_busy-Keeps settings c
  worker-Keeps c assert_owned = Post-bind _ _ (owned-Post c) (λ _ _. Post-pure tt tt)
  worker-Keeps c (finish attempt_id error) = finish-Keeps attempt_id c error

  call-Keeps : (call : Call) → Keeps (call_tx settings call)
  unfolding call_tx
  call-Keeps (worker c call) = worker-Keeps c call
  call-Keeps (Calls.claim token) =
      Post-bind _ _ (claim-Keeps settings token) (λ _ _. Post-pure tt tt)
  call-Keeps (Calls.reconcile ids created limit) =
      Post-bind _ _ (reconcile-Keeps settings ids created limit) (λ _ _. Post-pure tt tt)
  call-Keeps (Calls.enqueue task_id created document reset kind already_retired parent) =
      then_do _ (enqueue-Keeps settings task_id created document reset kind already_retired parent)
        Post-commit
  call-Keeps (Calls.progress document_id report) =
      then_do _ (progress-Stays HasSoundJobs any_tasks document_id report) Post-commit

-- Whatever is enqueued, claimed, reconciled, reported, released and finished, in whatever order
-- and at whatever times, every job that was within its attempts and had a token and a lease
-- exactly while running leaves jobs of which the same holds.
pub queue_history-HasSoundJobs :
    (settings : Settings) (calls : List (Call × (ℕ → ℕ))) (queue : Queue)
    → HasSoundJobs queue
    → HasSoundJobs (queue_history settings calls queue)
unfolding queue_history perform
queue_history-HasSoundJobs settings [] queue h = h
queue_history-HasSoundJobs settings ((call, clock) ∷ calls) queue h =
    queue_history-HasSoundJobs settings calls _
      (transaction-Post (call_tx settings call) clock queue (call-Keeps settings call) h)
