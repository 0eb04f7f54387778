-- ===== src/Ingestion/Worker.antt =====
-- What workers do with the ingestion queue: IngestionQueue.reconcile, claim, owned, assert_owned,
-- heartbeat and release_busy of app/service/ingestion_jobs.py.
use learning_qa_assistant.Base.{
  ℕ, suc, ◌+◌, ◌-◌, Bool, true, false, not, ◌&&◌, ◌||◌, Option, none, some, List, [], ◌∷◌, leb, ltb,
  ◌==◌, if◌then◌else◌, holds, is_some, has_passed, any, keep, take, length,
}
use learning_qa_assistant.Base.Table.{find_row}
use learning_qa_assistant.Transaction.{
  Tx, ◌>>=◌, ◌>>◌, pure, raise, raise_if, get, now, commit, ingestion_lease_lost,
}
use learning_qa_assistant.Ingestion.State.{
  Queue, Job, JobKind, delete, ingest, is_queued, is_running, JobState, Task, Phase,
  is_waiting_runs, Document, is_processing, Claim, Settings, job_of, task_of,
}
use learning_qa_assistant.Ingestion.Queue.{save_job, sync_task, enqueue, at_phase}

-- `queries.lock_unqueued_documents`
abbrev pub is_unqueued : List Job → Document → Bool
is_unqueued jobs document =
    is_processing document.status && not (any (λ job. job.document_id == document.id) jobs)

unfoldable pub insert_created : Document → List Document → List Document
insert_created document [] = document ∷ []
insert_created document (d ∷ rest) =
    if leb document.created_at d.created_at
    then document ∷ d ∷ rest
    else d ∷ insert_created document rest

unfoldable pub by_created : List Document → List Document
by_created [] = []
by_created (d ∷ rest) = insert_created d (by_created rest)

unfoldable pub unqueued_documents : (limit : ℕ) → Queue → List Document
unqueued_documents limit queue =
    take limit (by_created (keep (is_unqueued queue.jobs) queue.documents))

-- `queries.lock_next_job`
abbrev pub is_due : ℕ → Job → Bool
is_due time job =
    (is_queued job.state && leb job.available_at time)
    || (is_running job.state && has_passed job.lease_expires_at time)

abbrev pub is_before : Job → Job → Bool
is_before a b =
    ltb a.available_at b.available_at
    || (a.available_at == b.available_at && leb a.document_id b.document_id)

abbrev pub sooner : Job → Option Job → Option Job
sooner job none = some job
sooner job (some other) = if is_before job other then some job else some other

unfoldable pub next_job : ℕ → List Job → Option Job
next_job time [] = none
next_job time (job ∷ jobs) =
    let rest = next_job time jobs in if is_due time job then sooner job rest else rest

module _ (settings : Settings) where
  -- `ids` are the fresh identities of the tasks, and `created` the default of their `updated_at`.
  unfoldable pub enqueue_each : (ids : ℕ → ℕ) (created : ℕ) → List Document → Tx Queue (Unit {0})
  enqueue_each ids created [] = pure tt
  enqueue_each ids created (d ∷ rest) = do
    enqueue settings (ids 0) created d false ingest 0 none
    enqueue_each (λ n. ids (suc n)) created rest

  unfoldable pub reconcile : (ids : ℕ → ℕ) (created limit : ℕ) → Tx Queue ℕ
  reconcile ids created limit = do
    queue ← get
    let documents = unqueued_documents limit queue
    enqueue_each ids created documents
    commit
    pure (length documents)

  abbrev pub is_exhausted : Job → Bool
  is_exhausted job = leb job.max_attempts job.attempts

  abbrev pub taken : (token time : ℕ) → Job → Job
  taken token time job = record job {
    attempts = (if is_exhausted job then job.attempts else job.attempts + 1);
    state = JobState.running;
    claim_token = some token;
    lease_expires_at = some (time + settings.ingestion_lease);
  }

  abbrev pub claim_of : (token : ℕ) → Job → Claim
  claim_of token job = record {
    document_id = job.document_id;
    user_id = job.user_id;
    token = token;
    exhausted = is_exhausted job;
    kind = job.kind;
  }

  abbrev pub load_task : Option ℕ → Queue → Option Task
  load_task none queue = none
  load_task (some task_id) queue = find_row (task_of task_id) queue.tasks

  abbrev pub is_delete : JobKind → Bool
  is_delete delete = true
  is_delete _ = false

  abbrev pub claimed_phase : JobKind → Option Task → Phase
  claimed_phase kind none = Phase.running
  claimed_phase kind (some task) =
      if is_delete kind && is_waiting_runs task.phase then Phase.waiting_runs else Phase.running

  unfoldable pub claim_job : (token time : ℕ) → Option Job → Tx Queue (Option Claim)
  claim_job token time none = pure none
  claim_job token time (some job) = do
    save_job (taken token time job)
    queue ← get
    sync_task (taken token time job)
        (at_phase (claimed_phase job.kind (load_task job.task_id queue)))
    commit
    pure (some (claim_of token job))

  -- `token` is the fresh `uuid4()`.
  unfoldable pub claim : (token : ℕ) → Tx Queue (Option Claim)
  claim token = do time ← now; queue ← get; claim_job token time (next_job time queue.jobs)

abbrev pub holds_token : Claim → Job → Bool
holds_token claim job =
    is_running job.state && holds job.claim_token claim.token && is_some job.lease_expires_at

-- The clock is read only when the other tests have passed.
unfoldable pub check_lease : Claim → Option Job → Tx Queue Job
check_lease claim none = raise ingestion_lease_lost
check_lease claim (some job) = do
  raise_if (not (holds_token claim job)) ingestion_lease_lost
  time ← now
  raise_if (has_passed job.lease_expires_at time) ingestion_lease_lost
  pure job

unfoldable pub owned : Claim → Tx Queue Job
owned claim = do queue ← get; check_lease claim (find_row (job_of claim.document_id) queue.jobs)

unfoldable pub assert_owned : Claim → Tx Queue (Unit {0})
assert_owned claim = do owned claim; pure tt

-- The lease is tested again after the job has been worked on.
unfoldable pub check_still : Job → Tx Queue (Unit {0})
check_still job = do
  time ← now
  raise_if (has_passed job.lease_expires_at time) ingestion_lease_lost

module _ (settings : Settings) where
  unfoldable pub heartbeat : Claim → Tx Queue (Unit {0})
  heartbeat claim = do
    job ← owned claim
    time ← now
    save_job (record job { lease_expires_at = some (time + settings.ingestion_lease) })
    commit

  abbrev pub released : (exhausted : Bool) → ℕ → Job → Job
  released exhausted time job = record job {
    attempts = (if exhausted then job.attempts else job.attempts - 1);
    state = JobState.queued;
    available_at = time + settings.ingestion_poll;
    claim_token = none;
    lease_expires_at = none;
  }

  unfoldable pub release_busy : Claim → Tx Queue (Unit {0})
  release_busy claim = do
    job ← owned claim
    time ← now
    check_still job
    save_job (released claim.exhausted time job)
    sync_task (released claim.exhausted time job) (at_phase Phase.queued)
    commit
