-- ===== src/Ingestion/Fencing.antt =====
-- A worker that does not hold a job of the ingestion queue cannot change anything through it.
use learning_qa_assistant.Base.{
  ℕ, Bool, true, not, ◌||◌, ◌≡◌, refl, inl, inr, Option, none, some, Bool-cases, has_passed,
}
use learning_qa_assistant.Base.Table.{find_row}
use learning_qa_assistant.Transaction.{
  Session, err, Failure, app_error, ingestion_lease_lost, Tx, raise_if, now, pure, ◌>>=◌, ◌>>◌,
}
use learning_qa_assistant.Transaction.Refusal.{
  Refuses, Refuses-then_get, Refuses-get, Refuses-at, Refuses-bind, Refuses-raise, Refuses-raise_if,
  Refuses-then_raise_if, transaction-Refuses,
}
use learning_qa_assistant.Ingestion.State.{Queue, Job, Document, Claim, Settings, job_of}
use learning_qa_assistant.Ingestion.Worker.{holds_token, check_lease, owned}
use learning_qa_assistant.Ingestion.Worker
use learning_qa_assistant.Ingestion.Finish.{owned_document, the_document, document_row}
use learning_qa_assistant.Ingestion.Finish
use learning_qa_assistant.Ingestion.Calls.{
  WorkerCall, heartbeat, release_busy, assert_owned, finish, worker, worker_tx, call_tx, perform,
}

-- No job, another's or nobody's token, not running, or the lease over.
abbrev pub not_held : Option Job → Claim → ℕ → Bool
not_held none claim time = true
not_held (some job) claim time = not (holds_token claim job) || has_passed job.lease_expires_at time

module _ (claim : Claim) where
  lapsed-Refuses :
      (job : Job) (s : Session Queue)
      → has_passed job.lease_expires_at (s.clock 0) ≡ true
      → Refuses
          (now >>= λ time.
            raise_if (has_passed job.lease_expires_at time) ingestion_lease_lost >> pure job)
          s
  unfolding ◌>>=◌
  lapsed-Refuses job s h = record {
    failure = app_error ingestion_lease_lost;
    raises = rw h refl;
    unsaved = rw h refl;
  }

  held_job-Refuses :
      (job : Job) (s : Session Queue)
      → not_held (some job) claim (s.clock 0) ≡ true
      → Refuses (check_lease claim (some job)) s
  unfolding check_lease
  held_job-Refuses job s h = elim (Bool-cases (holds_token claim job)) [
    | inl mine ↦ Refuses-then_raise_if _ _ _ s (lapsed-Refuses job s (rw mine at h))
    | inr other ↦ Refuses-bind _ _ s (Refuses-raise_if _ _ s (rw other refl))
  ]

  check_lease-Refuses :
      (found : Option Job) (s : Session Queue)
      → not_held found claim (s.clock 0) ≡ true
      → Refuses (check_lease claim found) s
  unfolding check_lease
  check_lease-Refuses none s h = Refuses-raise _ s
  check_lease-Refuses (some job) s h = held_job-Refuses job s h

  owned-Refuses :
      (s : Session Queue)
      → not_held (find_row (job_of claim.document_id) s.work.jobs) claim (s.clock 0) ≡ true
      → Refuses (owned claim) s
  unfolding owned
  owned-Refuses s h = Refuses-then_get _ s (check_lease-Refuses _ s h)

  found_document-Refuses :
      {B : Type 0} (found : Option Document) (k : Document → Tx Queue B) (s : Session Queue)
      → ((document : Document) → Refuses (k document) s)
      → Refuses (the_document found >>= k) s
  unfolding the_document
  found_document-Refuses none k s r = Refuses-bind _ _ s (Refuses-raise _ s)
  found_document-Refuses (some document) k s r = Refuses-at k document s (r document)

  document_row-Refuses :
      {B : Type 0} (user_id document_id : ℕ) (k : Document → Tx Queue B) (s : Session Queue)
      → ((document : Document) → Refuses (k document) s)
      → Refuses (document_row user_id document_id >>= k) s
  unfolding document_row
  document_row-Refuses user_id document_id k s r =
      Refuses-get _ k s (found_document-Refuses _ k s r)

  worker-Refuses :
      (settings : Settings) (call : WorkerCall) (s : Session Queue)
      → not_held (find_row (job_of claim.document_id) s.work.jobs) claim (s.clock 0) ≡ true
      → Refuses (worker_tx settings claim call) s
  unfolding worker_tx Worker.heartbeat Worker.release_busy Worker.assert_owned Finish.finish
  worker-Refuses settings heartbeat s h = Refuses-bind _ _ s (owned-Refuses s h)
  worker-Refuses settings release_busy s h = Refuses-bind _ _ s (owned-Refuses s h)
  worker-Refuses settings assert_owned s h = Refuses-bind _ _ s (owned-Refuses s h)
  worker-Refuses settings (finish attempt_id error) s h =
      document_row-Refuses _ _ _ s (λ _. Refuses-bind _ _ s (owned-Refuses s h))

-- A heartbeat, a release, a check or an ending by a worker whose claim does not hold its job when
-- the queue reads the clock (the job is gone, not running, held by another's token, or its lease
-- is over) ends in an error, and no row of jobs, tasks or documents changes.
pub unheld_job_refused :
    (settings : Settings) (claim : Claim) (call : WorkerCall) (clock : ℕ → ℕ) (queue : Queue)
    → not_held (find_row (job_of claim.document_id) queue.jobs) claim (clock 0) ≡ true
    → ((f : Failure) × ((perform settings (worker claim call) clock queue).0 ≡ err f))
      × ((perform settings (worker claim call) clock queue).1 ≡ queue)
unfolding perform call_tx
unheld_job_refused settings claim call clock queue h =
    transaction-Refuses (worker_tx settings claim call) clock queue
      (worker-Refuses claim settings call _ h)
