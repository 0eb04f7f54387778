-- ===== src/Run/Calls.antt =====
-- Every call of the store that changes a run, as one transaction on the run's rows; what a
-- history of such calls, by any workers and users in any order, makes of a run.
use learning_qa_assistant.Base.{ℕ, Bool, Option, none, some, List, [], ◌∷◌}
use learning_qa_assistant.Base.Text.{Text}
use learning_qa_assistant.Transaction.{
  Failure, Result, Tx, ◌>>=◌, ◌>>◌, pure, when, get, commit, transaction,
}
use learning_qa_assistant.Run.State.{Run, RunClaim, Environment, Payload, Outcome}
use learning_qa_assistant.Run.Journal.{expire}
use learning_qa_assistant.Run.Owner.{
  release_busy_body, heartbeat_body, check_owned_body, finish_failure_body,
}
use learning_qa_assistant.Run.Answer.{
  StreamEvent, Answer, append_body, complete, fail_body, read_body,
}
use learning_qa_assistant.Run.Checkpoint.{
  checkpoint_body, load_checkpoint_body, pause_body, request_cancel_body,
}
use learning_qa_assistant.Run.Resume.{resume_body}
use learning_qa_assistant.Run.Operation.{begin_body, complete_operation_body}
use learning_qa_assistant.Run.Claim.{
  is_abandoned, is_claimable, is_expired_waiting, settle_cancelled, claim_body,
}

-- What a worker asks of the run that its claim names.
pub data WorkerCall : Type 0 where
  release_busy heartbeat check_owned load_checkpoint : WorkerCall
  finish_failure : Failure → WorkerCall
  append : StreamEvent → WorkerCall
  complete_answer : Answer → WorkerCall
  save : Payload → WorkerCall
  pause : (token : ℕ) → Payload → (question : Text) → WorkerCall
  begin : (key : Text) (inputs : ℕ) (readonly : Bool) → WorkerCall
  finish : (key : Text) → Outcome → Option Payload → WorkerCall

pub data Call : Type 0 where
  worker : RunClaim → WorkerCall → Call
  -- the parts of `claim_next`: expiry, settling, and the claim itself
  expire_waiting settle : (time : ℕ) → Call
  claim : (token time : ℕ) → Call
  read : (user_id run_id after : ℕ) → Call
  request_cancel : (user_id run_id : ℕ) → Call
  resume : (user_id run_id revision key : ℕ) → Text → Option Text → Call
  -- the calls of an execution without a claim, in the request that created the run
  append_direct : (user_id run_id : ℕ) → StreamEvent → Call
  complete_direct : (user_id run_id : ℕ) → Answer → Call
  fail : (user_id run_id : ℕ) → Failure → Call

module _ (env : Environment) where
  unfoldable pub worker_tx : RunClaim → WorkerCall → Tx Run (Unit {0})
  worker_tx c release_busy = release_busy_body env c
  worker_tx c heartbeat = heartbeat_body env c
  worker_tx c check_owned = check_owned_body env c
  worker_tx c load_checkpoint = do load_checkpoint_body env c; pure tt
  worker_tx c (finish_failure failure) = finish_failure_body env c failure
  worker_tx c (append event) = append_body env event (some c) c.user_id c.run_id
  worker_tx c (complete_answer answer) = do complete env (some c) c.user_id c.run_id answer; commit
  worker_tx c (save payload) = do checkpoint_body env c payload; pure tt
  worker_tx c (pause token payload question) = pause_body env token c payload question
  worker_tx c (begin key inputs readonly) = do begin_body env c key inputs readonly; pure tt
  worker_tx c (finish key outcome payload) = complete_operation_body env c key outcome payload

  unfoldable pub call_tx : Call → Tx Run (Unit {0})
  call_tx (worker c call) = worker_tx c call
  call_tx (expire_waiting time) = do
    run ← get
    when (is_expired_waiting env.kind time run) (do expire env; commit)
  call_tx (settle time) = do
    run ← get
    when (is_abandoned env.kind time run) (do settle_cancelled env; commit)
  call_tx (claim token time) = do
    run ← get
    when (is_claimable env.kind time none run) (do claim_body env token time; pure tt)
  call_tx (read user_id run_id after) = do read_body env user_id run_id after; pure tt
  call_tx (request_cancel user_id run_id) = do request_cancel_body env user_id run_id; pure tt
  call_tx (resume user_id run_id revision key supplement public_query) =
      resume_body env user_id run_id revision key supplement public_query
  call_tx (append_direct user_id run_id event) = append_body env event none user_id run_id
  call_tx (complete_direct user_id run_id answer) = do
    complete env none user_id run_id answer
    commit
  call_tx (fail user_id run_id failure) = fail_body env user_id run_id failure

  unfoldable pub perform : Call → (clock : ℕ → ℕ) → Run → Result (Unit {0}) × Run
  perform call clock run = transaction (call_tx call) clock run

  -- A history: each call with the clock readings that it meets.
  unfoldable pub run_history : List (Call × (ℕ → ℕ)) → Run → Run
  run_history [] run = run
  run_history ((call, clock) ∷ rest) run = run_history rest (perform call clock run).1
