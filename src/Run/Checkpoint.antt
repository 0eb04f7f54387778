-- ===== src/Run/Checkpoint.antt =====
-- Checkpoints, waiting for a human, and cancelling: RunStore.save_checkpoint, checkpoint,
-- load_checkpoint, pause, public_input_allowed and request_cancel of app/service/runs.py.
use learning_qa_assistant.Base.{
  ℕ, ◌+◌, Bool, true, false, not, ◌&&◌, ◌||◌, Option, none, some, [], leb, ltb, if◌then◌else◌,
  is_some, has_passed,
}
use learning_qa_assistant.Base.Text.{Text, strip, stripped_within}
use learning_qa_assistant.Transaction.{
  Tx, ◌>>=◌, ◌>>◌, pure, raise_if, when, get, put, now, commit, run_checkpoint_limit, agent_timeout,
  invalid_clarification,
}
use learning_qa_assistant.Run.State.{
  Run, RunClaim, waiting, cancelling, cancelled, is_terminal, is_waiting, is_queued, is_cancelling,
  Environment, Payload, Checkpoint, run_waiting, run_cancelled, cancel_requested,
}
use learning_qa_assistant.Run.Journal.{get_row, save_event, message_state}
use learning_qa_assistant.Run.Owner.{owned, disowned, elapsed, spend}

abbrev pub next_revision : Option Checkpoint → ℕ
next_revision none = 1
next_revision (some row) = row.revision + 1

-- `{}`, what a run without a checkpoint loads
abbrev pub empty_payload : Payload
empty_payload = record { human_inputs = []; public_inputs = none; resume_receipt = none; rest = 0 }

abbrev pub loaded : Option Checkpoint → ℕ × Payload
loaded none = (0, empty_payload)
loaded (some row) = (row.revision, row.payload)

abbrev pub payload_of : Option Checkpoint → Payload
payload_of none = empty_payload
payload_of (some row) = row.payload

abbrev pub is_spent : Option ℕ → Bool
is_spent none = false
is_spent (some left) = leb left 0

module _ (env : Environment) where
  unfoldable pub save_checkpoint : Payload → Tx Run ℕ
  save_checkpoint payload = do
    raise_if (ltb 4000000 (env.payload_size payload)) run_checkpoint_limit
    run ← get
    let revision = next_revision run.checkpoint
    put (record run { checkpoint = some (record { revision = revision; payload = payload }) })
    pure revision

  unfoldable pub checkpoint_body : RunClaim → Payload → Tx Run ℕ
  checkpoint_body claim payload = do
    owned env claim false true
    revision ← save_checkpoint payload
    commit
    pure revision

  unfoldable pub load_checkpoint_body : RunClaim → Tx Run (ℕ × Payload)
  load_checkpoint_body claim = do
    owned env claim false true
    run ← get
    pure (loaded run.checkpoint)

  -- `queued` of `request_cancel`: nobody holds the run, or the holder's lease has ended.
  unfoldable pub idle : Run → ℕ → Bool
  idle run time =
      is_queued run.state
      || is_waiting run.state
      || not (is_some run.owner_token)
      || has_passed run.lease_expires_at time

  unfoldable pub request_cancel_body : (user_id run_id : ℕ) → Tx Run Run
  request_cancel_body user_id run_id = do
    run ← get_row env user_id run_id true
    when (not (is_terminal run.state) && not (is_cancelling run.state)) (do
      time ← now
      put (record run {
        state = (if idle run time then cancelled else cancelling);
        resume_key = none;
      })
      message_state
      save_event env (if idle run time then run_cancelled else cancel_requested) (idle run time))
    commit
    get

  unfoldable pub allows_public_input : Run → Bool
  allows_public_input run = elim run.execution_snapshot [
    | none ↦ false
    | some snapshot ↦ elim snapshot.capability [
      | none ↦ false
      | some frozen ↦ env.allows_public_tool frozen
    ]
  ]

  -- `token` is the fresh `uuid4()` of the resume key.
  unfoldable pub pause_body :
      (token : ℕ) → RunClaim → Payload → (question : Text) → Tx Run (Unit {0})
  pause_body token claim payload question = do
    raise_if (not (stripped_within 4000 question)) invalid_clarification
    owned env claim false true
    revision ← save_checkpoint payload
    time ← now
    run ← get
    let left = spend run.remaining (elapsed run.active_since time)
    raise_if (is_spent left) agent_timeout
    put (
        disowned (record run {
          state = waiting;
          remaining = left;
          resume_key = some token;
          expires_at = time + env.wait;
        }))
    message_state
    paused ← get
    save_event env
        (run_waiting (strip question) revision token paused.expires_at (allows_public_input run))
        false
    commit
