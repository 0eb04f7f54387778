-- ===== src/Ingestion/Calls.antt =====
-- Any call of the ingestion queue, by anyone, and any history of calls, each in its transaction.
use learning_qa_assistant.Base.{ℕ, Bool, Option, List, [], ◌∷◌}
use learning_qa_assistant.Transaction.{Result, Tx, ◌>>◌, pure, commit, transaction}
use learning_qa_assistant.Ingestion.State.{Queue, JobKind, Document, Claim, Settings, IngestError}
use learning_qa_assistant.Ingestion.Queue.{Report}
use learning_qa_assistant.Ingestion.Queue
use learning_qa_assistant.Ingestion.Worker
use learning_qa_assistant.Ingestion.Finish

-- What a worker asks of the job that it has claimed.
pub data WorkerCall : Type 0 where
  heartbeat release_busy assert_owned : WorkerCall
  finish : (attempt_id : ℕ) → Option IngestError → WorkerCall

unfoldable pub worker_tx : Settings → Claim → WorkerCall → Tx Queue (Unit {0})
worker_tx settings claim heartbeat = Worker.heartbeat settings claim
worker_tx settings claim release_busy = Worker.release_busy settings claim
worker_tx settings claim assert_owned = Worker.assert_owned claim
worker_tx settings claim (finish attempt_id error) = Finish.finish settings attempt_id claim error

-- `enqueue` and `progress` are called in a transaction that their caller commits.
pub data Call : Type 0 where
  worker : Claim → WorkerCall → Call
  claim : (token : ℕ) → Call
  reconcile : (ids : ℕ → ℕ) → (created limit : ℕ) → Call
  enqueue :
      (task_id created : ℕ)
      → Document
      → (reset : Bool) → JobKind
      → (already_retired : ℕ) → Option ℕ
      → Call
  progress : (document_id : ℕ) → Report → Call

unfoldable pub call_tx : Settings → Call → Tx Queue (Unit {0})
call_tx settings (worker c call) = worker_tx settings c call
call_tx settings (claim token) = Worker.claim settings token >> pure tt
call_tx settings (reconcile ids created limit) =
    Worker.reconcile settings ids created limit >> pure tt
call_tx settings (enqueue task_id created document reset kind already_retired parent_task_id) =
    Queue.enqueue settings task_id created document reset kind already_retired parent_task_id
    >> commit
call_tx settings (progress document_id report) = Queue.progress document_id report >> commit

unfoldable pub perform : Settings → Call → (ℕ → ℕ) → Queue → Result (Unit {0}) × Queue
perform settings call clock queue = transaction (call_tx settings call) clock queue

-- The rows after a list of calls, each with the clock that its transaction reads.
unfoldable pub queue_history : Settings → List (Call × (ℕ → ℕ)) → Queue → Queue
queue_history settings [] queue = queue
queue_history settings ((call, clock) ∷ calls) queue =
    queue_history settings calls (perform settings call clock queue).1
