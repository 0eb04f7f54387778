-- ===== src/Ingestion/Sound.antt =====
-- The rules for bodies that keep every job of the ingestion queue sound, and the bodies that the
-- queue is built of.
use learning_qa_assistant.Base.{
  ℕ, suc, ◌≤◌, Bool, ◌≡◌, refl, Option, none, some, List, [], ◌∷◌, is_some, arith,
}
use learning_qa_assistant.Base.Table.{All, store_row-All}
use learning_qa_assistant.Transaction.{Tx}
use learning_qa_assistant.Transaction.Rules.{
  Post, Post-pure, Post-when, Post-put, then_get, then_now, then_commit, then_do,
}
use learning_qa_assistant.Ingestion.State.{
  Queue, Job, JobKind, is_running, Task, Document, Settings,
}
use learning_qa_assistant.Ingestion.Queue.{save_job, enqueue_job, enqueue_found, enqueue}
use learning_qa_assistant.Ingestion.Worker.{enqueue_each, reconcile}
use learning_qa_assistant.Ingestion.Finish.{save_document}
use learning_qa_assistant.Ingestion.Tasks.{save_task-Stays, sync_parent-Stays, close_previous-Stays}

pub record IsSound (job : Job) : Type 0 where
  pub within : job.attempts ≤ job.max_attempts
  pub token : is_some job.claim_token ≡ is_running job.state
  pub lease : is_some job.lease_expires_at ≡ is_running job.state

abbrev pub HasSoundJobs : Queue → Type 0
HasSoundJobs queue = All IsSound queue.jobs

-- A body that keeps the jobs sound, and what it returns.
abbrev pub Keeps : Tx Queue (Unit {0}) → Type 0
Keeps m = Post HasSoundJobs (λ _. Unit {0}) m

pub save_job-Keeps : (job : Job) → IsSound job → Keeps (save_job job)
unfolding save_job
save_job-Keeps job sound =
    then_get (λ queue h. Post-put _ (store_row-All IsSound _ job queue.jobs sound h))

abbrev pub any_tasks :
    (queue : Queue) (tasks : List Task)
    → HasSoundJobs queue
    → HasSoundJobs (record queue { tasks = tasks })
any_tasks queue tasks h = h

pub save_document-Keeps : (document : Document) → Keeps (save_document document)
unfolding save_document
save_document-Keeps document = then_get (λ queue h. Post-put _ h)

module _ (settings : Settings) where
  enqueue_job-Keeps :
      (task_id created : ℕ) (document : Document) (kind : JobKind) (already_retired : ℕ)
      (parent : Option ℕ) (job : Job)
      → Keeps (enqueue_job settings task_id created document kind already_retired parent job)
  unfolding enqueue_job
  enqueue_job-Keeps task_id created document kind already_retired parent job =
      then_do _ (close_previous-Stays HasSoundJobs any_tasks kind job.task_id) (
        then_do _ (save_task-Stays HasSoundJobs any_tasks _) (
          then_now (λ time.
            then_do _
              (save_job-Keeps _ (record { within = ground arith; token = refl; lease = refl }))
              (sync_parent-Stays HasSoundJobs any_tasks parent))))

  pub enqueue-Keeps :
      (task_id created : ℕ) (document : Document) (reset : Bool) (kind : JobKind)
      (already_retired : ℕ) (parent : Option ℕ)
      → Keeps (enqueue settings task_id created document reset kind already_retired parent)
  unfolding enqueue enqueue_found
  enqueue-Keeps task_id created document reset kind already_retired parent =
      then_get (λ queue h. found _)
    where
      found :
          (job : Option Job)
          → Keeps (
              enqueue_found settings task_id created document reset kind already_retired parent job)
      found none = enqueue_job-Keeps task_id created document kind already_retired parent _
      found (some job) =
          Post-when _ _
            (λ _. enqueue_job-Keeps task_id created document kind already_retired parent job)

  enqueue_each-Keeps :
      (ids : ℕ → ℕ) (created : ℕ) (documents : List Document)
      → Keeps (enqueue_each settings ids created documents)
  unfolding enqueue_each
  enqueue_each-Keeps ids created [] = Post-pure tt tt
  enqueue_each-Keeps ids created (d ∷ rest) =
      then_do _ (enqueue-Keeps _ _ _ _ _ _ _) (enqueue_each-Keeps (λ n. ids (suc n)) created rest)

  pub reconcile-Keeps :
      (ids : ℕ → ℕ) (created limit : ℕ)
      → Post HasSoundJobs (λ _. Unit {0}) (reconcile settings ids created limit)
  unfolding reconcile
  reconcile-Keeps ids created limit =
      then_get
        (λ queue h. then_do _ (enqueue_each-Keeps ids created _) (then_commit (Post-pure _ tt)))
