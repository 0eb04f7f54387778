-- ===== src/Ingestion/Queue.antt =====
-- IngestionQueue of app/service/ingestion_jobs.py but for `finish`: enqueue, the tasks that mirror
-- the jobs, reconcile, claim, ownership, heartbeat and release.
use learning_qa_assistant.Base.{
  ℕ, ◌+◌, Bool, true, false, not, ◌&&◌, ◌||◌, Option, none, some, List, ◌==◌, holds, any, keep,
  length,
}
use learning_qa_assistant.Base.Table.{find_row, store_row}
use learning_qa_assistant.Transaction.{
  Code, Tx, ◌>>=◌, ◌>>◌, pure, raise, raise_if, when, get, put, now, ingestion_task_diverged,
  superseded_by_retirement, superseded_by_retry, document_series_cleanup_incomplete,
}
use learning_qa_assistant.Ingestion.State.{
  Queue, Job, JobKind, delete, delete_series, ingest, same_kind, JobState, is_queued, is_running,
  is_succeeded, is_failed, is_cancelled, Task, Phase, is_waiting_runs, Document, Settings, job_of,
  task_of,
}

unfoldable pub save_job : Job → Tx Queue (Unit {0})
save_job job = do
  queue ← get
  put (record queue { jobs = store_row (job_of job.document_id) job queue.jobs })

unfoldable pub save_task : Task → Tx Queue (Unit {0})
save_task task = do
  queue ← get
  put (record queue { tasks = store_row (task_of task.id) task queue.tasks })

abbrev pub of_parent : ℕ → Task → Bool
of_parent parent_id task = holds task.parent_task_id parent_id

abbrev pub is_current : List Job → Task → Bool
is_current jobs task = any (λ job. holds job.task_id task.id) jobs

-- `queries.child_tasks`: the current task of each version
unfoldable pub child_tasks : ℕ → Queue → List Task
child_tasks parent_id queue =
    keep (λ task. of_parent parent_id task && is_current queue.jobs task) queue.tasks

abbrev pub progress_state :
    (all_done any_failed any_waiting : Bool) → JobState × Phase × Option Code
progress_state true any_failed any_waiting = (JobState.succeeded, Phase.done, none)
progress_state false true any_waiting =
    (JobState.failed, Phase.failed, some document_series_cleanup_incomplete)
progress_state false false true = (JobState.queued, Phase.waiting_runs, none)
progress_state false false false = (JobState.running, Phase.cleaning_versions, none)

-- The parent as its children make it.
unfoldable pub summed : (time : ℕ) → List Task → Task → Task
summed time children parent =
    let units =
      parent.already_retired + length (keep (λ child. is_succeeded child.state) children) in
    let (state, phase, code) =
      progress_state (holds parent.total_units units)
        (any (λ child. is_failed child.state || is_cancelled child.state) children)
        (any (λ child. is_waiting_runs child.phase) children) in
    record parent {
      processed_units = units;
      updated_at = time;
      state = state;
      phase = phase;
      error_code = code;
    }

unfoldable pub sync_found_parent : ℕ → Option Task → Tx Queue (Unit {0})
sync_found_parent parent_id none = raise ingestion_task_diverged
sync_found_parent parent_id (some parent) = do
  raise_if (not (same_kind parent.kind delete_series)) ingestion_task_diverged
  queue ← get
  time ← now
  save_task (summed time (child_tasks parent_id queue) parent)

unfoldable pub sync_parent : Option ℕ → Tx Queue (Unit {0})
sync_parent none = pure tt
sync_parent (some parent_id) = do
  queue ← get
  sync_found_parent parent_id (find_row (task_of parent_id) queue.tasks)

abbrev pub or_else {ℓ} : {A : Type ℓ} → Option A → A → A
or_else none default = default
or_else (some a) default = a

abbrev pub or_kept {ℓ} : {A : Type ℓ} → Option A → Option A → Option A
or_kept none kept = kept
or_kept (some a) kept = some a

-- What a job reports of itself besides its columns.
pub record Report : Type 0 where
  pub phase : Option Phase
  pub processed_units : Option ℕ
  pub total_units : Option ℕ

abbrev pub at_phase : Phase → Report
at_phase phase = record { phase = some phase; processed_units = none; total_units = none }

abbrev pub belongs : Task → Job → Bool
belongs task job =
    holds task.document_id job.document_id
    && task.user_id == job.user_id
    && same_kind task.kind job.kind

unfoldable pub sync_found_task : Job → Report → Option Task → Tx Queue (Unit {0})
sync_found_task job report none = raise ingestion_task_diverged
sync_found_task job report (some task) = do
  raise_if (not (belongs task job)) ingestion_task_diverged
  time ← now
  save_task (record task {
    state = job.state;
    attempts = job.attempts;
    max_attempts = job.max_attempts;
    error_code = job.last_error_code;
    updated_at = time;
    phase = or_else report.phase task.phase;
    processed_units = or_else report.processed_units task.processed_units;
    total_units = or_kept report.total_units task.total_units;
  })
  sync_parent task.parent_task_id

unfoldable pub sync_at : Job → Report → Option ℕ → Tx Queue (Unit {0})
sync_at job report none = pure tt
sync_at job report (some task_id) = do
  queue ← get
  sync_found_task job report (find_row (task_of task_id) queue.tasks)

-- `job` has been written before.
unfoldable pub sync_task : Job → Report → Tx Queue (Unit {0})
sync_task job report = sync_at job report job.task_id

unfoldable pub progress_found : Report → Option Job → Tx Queue (Unit {0})
progress_found report none = pure tt
progress_found report (some job) = sync_task job report

unfoldable pub progress : ℕ → Report → Tx Queue (Unit {0})
progress document_id report = do
  queue ← get
  progress_found report (find_row (job_of document_id) queue.jobs)

abbrev pub is_open : Task → Bool
is_open task = is_queued task.state || is_running task.state

abbrev pub superseding : JobKind → Code
superseding delete = superseded_by_retirement
superseding _ = superseded_by_retry

-- The task of a job that is enqueued again is closed.
unfoldable pub close_task : JobKind → Option Task → Tx Queue (Unit {0})
close_task kind none = pure tt
close_task kind (some previous) = when (is_open previous) (do
  time ← now
  save_task (record previous {
    state = JobState.cancelled;
    phase = Phase.cancelled;
    error_code = some (superseding kind);
    updated_at = time;
  }))

unfoldable pub close_previous : JobKind → Option ℕ → Tx Queue (Unit {0})
close_previous kind none = pure tt
close_previous kind (some task_id) = do
  queue ← get
  close_task kind (find_row (task_of task_id) queue.tasks)

module _ (settings : Settings) where
  abbrev pub new_job : Document → Job
  new_job document = record {
    document_id = document.id;
    task_id = none;
    user_id = document.user_id;
    kind = ingest;
    state = JobState.queued;
    attempts = 0;
    max_attempts = settings.ingestion_max_attempts;
    available_at = 0;
    lease_expires_at = none;
    claim_token = none;
    last_error_code = none;
  }

  -- A column without a default reads `now` when the row is saved.
  abbrev pub new_task : (id time : ℕ) → Document → JobKind → (already_retired : ℕ) → Option ℕ → Task
  new_task id time document kind already_retired parent_task_id = record {
    id = id;
    document_id = some document.id;
    parent_task_id = parent_task_id;
    user_id = document.user_id;
    organization_id = document.organization_id;
    kind = kind;
    state = JobState.queued;
    phase = Phase.queued;
    processed_units = 0;
    total_units = none;
    attempts = 0;
    max_attempts = settings.ingestion_max_attempts;
    error_code = none;
    already_retired = already_retired;
    updated_at = time;
  }

  -- `task_id` is the fresh `uuid4()`, and `created` the default of `updated_at`.
  unfoldable pub enqueue_job :
      (task_id created : ℕ)
      → Document
      → JobKind
      → (already_retired : ℕ) → Option ℕ
      → Job
      → Tx Queue (Unit {0})
  enqueue_job task_id created document kind already_retired parent_task_id job = do
    close_previous kind job.task_id
    save_task (new_task task_id created document kind already_retired parent_task_id)
    time ← now
    save_job (record job {
      task_id = some task_id;
      state = JobState.queued;
      kind = kind;
      attempts = 0;
      max_attempts = settings.ingestion_max_attempts;
      available_at = time;
      claim_token = none;
      lease_expires_at = none;
      last_error_code = none;
    })
    sync_parent parent_task_id

  -- A job that is there stays as it is unless it is to be reset.
  unfoldable pub enqueue_found :
      (task_id created : ℕ)
      → Document
      → (reset : Bool) → JobKind
      → (already_retired : ℕ) → Option ℕ
      → Option Job
      → Tx Queue (Unit {0})
  enqueue_found task_id created document reset kind already_retired parent_task_id none =
      enqueue_job task_id created document kind already_retired parent_task_id (new_job document)
  enqueue_found task_id created document reset kind already_retired parent_task_id (some job) =
      when reset (enqueue_job task_id created document kind already_retired parent_task_id job)

  unfoldable pub enqueue :
      (task_id created : ℕ)
      → Document
      → (reset : Bool) → JobKind
      → (already_retired : ℕ) → Option ℕ
      → Tx Queue (Unit {0})
  enqueue task_id created document reset kind already_retired parent_task_id = do
    queue ← get
    enqueue_found task_id created document reset kind already_retired parent_task_id
        (find_row (job_of document.id) queue.jobs)
