-- ===== src/Ingestion/Tasks.antt =====
-- What the ingestion queue writes to its task rows leaves alone whatever does not speak of tasks.
use learning_qa_assistant.Base.{ℕ, Option, none, some, List}
use learning_qa_assistant.Transaction.{Tx}
use learning_qa_assistant.Transaction.Rules.{
  Post, Post-pure, Post-raise, Post-when, Post-put, then_get, then_raise_if, then_now, then_do,
}
use learning_qa_assistant.Ingestion.State.{Queue, Job, JobKind, Task}
use learning_qa_assistant.Ingestion.Queue.{
  save_task, sync_found_parent, sync_parent, sync_found_task, sync_at, sync_task, progress_found,
  progress, close_task, close_previous, Report,
}

module _ (P : Queue → Type 0)
    (any_tasks : (queue : Queue) (tasks : List Task)
      → P queue
      → P (record queue { tasks = tasks })) where
  abbrev Stays : Tx Queue (Unit {0}) → Type 0
  Stays m = Post P (λ _. Unit {0}) m

  pub save_task-Stays : (task : Task) → Stays (save_task task)
  unfolding save_task
  save_task-Stays task = then_get (λ queue h. Post-put _ (any_tasks queue _ h))

  pub sync_parent-Stays : (parent : Option ℕ) → Stays (sync_parent parent)
  unfolding sync_parent sync_found_parent
  sync_parent-Stays none = Post-pure tt tt
  sync_parent-Stays (some id) = then_get (λ queue h. found _)
    where
      found : (parent : Option Task) → Stays (sync_found_parent id parent)
      found none = Post-raise _
      found (some parent) =
          then_raise_if _ _ (λ _. then_get (λ queue h. then_now (λ time. save_task-Stays _)))

  pub sync_task-Stays : (job : Job) (report : Report) → Stays (sync_task job report)
  unfolding sync_task sync_at sync_found_task
  sync_task-Stays job report = at job.task_id
    where
      found : (task : Option Task) → Stays (sync_found_task job report task)
      found none = Post-raise _
      found (some task) = then_raise_if _ _ (λ _.
          then_now (λ time. then_do _ (save_task-Stays _) (sync_parent-Stays task.parent_task_id)))

      at : (task_id : Option ℕ) → Stays (sync_at job report task_id)
      at none = Post-pure tt tt
      at (some task_id) = then_get (λ queue h. found _)

  pub close_previous-Stays :
      (kind : JobKind) (previous : Option ℕ) → Stays (close_previous kind previous)
  unfolding close_previous close_task
  close_previous-Stays kind none = Post-pure tt tt
  close_previous-Stays kind (some task_id) = then_get (λ queue h. close _)
    where
      close : (task : Option Task) → Stays (close_task kind task)
      close none = Post-pure tt tt
      close (some task) = Post-when _ _ (λ _. then_now (λ time. save_task-Stays _))

  pub progress-Stays : (document_id : ℕ) (report : Report) → Stays (progress document_id report)
  unfolding progress progress_found
  progress-Stays document_id report = then_get (λ queue h. found _)
    where
      found : (job : Option Job) → Stays (progress_found report job)
      found none = Post-pure tt tt
      found (some job) = sync_task-Stays job report
