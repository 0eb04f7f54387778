-- ===== src/Run/Stable/Preserved.antt =====
-- No call, and no history of calls, breaks a stable predicate.
use learning_qa_assistant.Base.{ℕ, List, [], ◌∷◌}
use learning_qa_assistant.Transaction.Rules.{
  Post-bind, Post-pure, Post-when, Post-commit, then_get, then_do, transaction-Post,
}
use learning_qa_assistant.Run.State.{Run, RunClaim, Environment}
use learning_qa_assistant.Run.Calls.{
  WorkerCall, release_busy, heartbeat, check_owned, load_checkpoint, finish_failure, append,
  complete_answer, save, pause, begin, finish, Call, worker, expire_waiting, settle, claim, read,
  request_cancel, resume, append_direct, complete_direct, fail, worker_tx, call_tx, perform,
  run_history,
}
use learning_qa_assistant.Run.Stable.{History, history_of, Stable}
use learning_qa_assistant.Run.Stable.Keeping.{
  Keeps, expire-Keeps, heartbeat-Keeps, release_busy-Keeps, check_owned-Keeps, finish_failure-Keeps,
}
use learning_qa_assistant.Run.Stable.Answers.{
  append-Keeps, complete-Keeps, fail-Keeps, read-Keeps, checkpoint-Keeps, load_checkpoint-Keeps,
  request_cancel-Keeps, pause-Keeps, resume-Keeps,
}
use learning_qa_assistant.Run.Stable.Writing.{
  begin-Keeps, complete_operation-Keeps, settle_cancelled-Keeps, claim-Keeps,
}

module _ {env : Environment} {P : History → Type 0} (stable : Stable env P) where
  worker-Keeps : (c : RunClaim) (call : WorkerCall) → Keeps stable (worker_tx env c call)
  unfolding worker_tx
  worker-Keeps c release_busy = release_busy-Keeps stable c
  worker-Keeps c heartbeat = heartbeat-Keeps stable c
  worker-Keeps c check_owned = check_owned-Keeps stable c
  worker-Keeps c load_checkpoint =
      Post-bind _ _ (load_checkpoint-Keeps stable c) λ _ _. Post-pure tt tt
  worker-Keeps c (finish_failure failure) = finish_failure-Keeps stable c failure
  worker-Keeps c (append event) = append-Keeps stable event _ _ _
  worker-Keeps c (complete_answer answer) =
      then_do _ (complete-Keeps stable _ _ _ answer) Post-commit
  worker-Keeps c (save payload) =
      Post-bind _ _ (checkpoint-Keeps stable c payload) λ _ _. Post-pure tt tt
  worker-Keeps c (pause token payload question) = pause-Keeps stable token c payload question
  worker-Keeps c (begin key inputs readonly) =
      Post-bind _ _ (begin-Keeps stable c key inputs readonly) λ _ _. Post-pure tt tt
  worker-Keeps c (finish key outcome payload) =
      complete_operation-Keeps stable c key outcome payload

  call-Keeps : (call : Call) → Keeps stable (call_tx env call)
  unfolding call_tx
  call-Keeps (worker c call) = worker-Keeps c call
  call-Keeps (expire_waiting time) =
      then_get λ run h. Post-when _ _ λ _. then_do _ (expire-Keeps stable) Post-commit
  call-Keeps (settle time) =
      then_get λ run h. Post-when _ _ λ _. then_do _ (settle_cancelled-Keeps stable) Post-commit
  call-Keeps (claim token time) = then_get λ run h.
      Post-when _ _ λ _. Post-bind _ _ (claim-Keeps stable token time) λ _ _. Post-pure tt tt
  call-Keeps (read user run_id after) =
      Post-bind _ _ (read-Keeps stable user run_id after) λ _ _. Post-pure tt tt
  call-Keeps (request_cancel user run_id) =
      Post-bind _ _ (request_cancel-Keeps stable user run_id) λ _ _. Post-pure tt tt
  call-Keeps (resume user run_id revision key supplement query) =
      resume-Keeps stable user run_id revision key supplement query
  call-Keeps (append_direct user run_id event) = append-Keeps stable event _ user run_id
  call-Keeps (complete_direct user run_id answer) =
      then_do _ (complete-Keeps stable _ user run_id answer) Post-commit
  call-Keeps (fail user run_id failure) = fail-Keeps stable user run_id failure

  pub perform-stable :
      (call : Call) (clock : ℕ → ℕ) (run : Run)
      → P (history_of run)
      → P (history_of (perform env call clock run).1)
  unfolding perform
  perform-stable call clock run h =
      transaction-Post (call_tx env call) clock run (call-Keeps call) h

  pub run_history-stable :
      (calls : List (Call × (ℕ → ℕ))) (run : Run)
      → P (history_of run)
      → P (history_of (run_history env calls run))
  unfolding run_history
  run_history-stable [] run h = h
  run_history-stable ((call, clock) ∷ rest) run h =
      run_history-stable rest _ (perform-stable call clock run h)
