-- ===== src/Run/Invoke.antt =====
-- The call boundary of app/manager/run_checkpoint.py: CONTROL_ERRORS, RunCheckpoint.check and
-- RunCheckpoint.invoke. Its transactions are separate, so other calls may reach the run between them.
use learning_qa_assistant.Base.{ℕ, Bool, true, false, none, some, List, if◌then◌else◌, ltb}
use learning_qa_assistant.Base.Text.{Text}
use learning_qa_assistant.Transaction.{
  Code, app_error, value_error, crash, Result, ok, err, transaction, run_lease_lost,
  run_cancel_requested, agent_timeout, run_checkpoint_diverged, run_checkpoint_limit,
  tool_outcome_uncertain, run_recovery_limit, evaluation_lease_lost, evaluation_cancel_requested,
  document_scope_changed, capability_scope_changed, sandbox_cleanup_failed,
}
use learning_qa_assistant.Run.State.{Run, RunClaim, Environment, Outcome, returned, raised}
use learning_qa_assistant.Run.Operation.{Leave, replay, perform, begin_body}
use learning_qa_assistant.Run.Calls.{Call, worker, check_owned, finish, run_history}
use learning_qa_assistant.Run.Calls

-- `CONTROL_ERRORS`
unfoldable pub is_control : Code → Bool
is_control run_lease_lost = true
is_control run_cancel_requested = true
is_control agent_timeout = true
is_control run_checkpoint_diverged = true
is_control run_checkpoint_limit = true
is_control tool_outcome_uncertain = true
is_control run_recovery_limit = true
is_control evaluation_lease_lost = true
is_control evaluation_cancel_requested = true
is_control document_scope_changed = true
is_control capability_scope_changed = true
is_control sandbox_cleanup_failed = true
is_control _ = false

-- How `invoke` ended, what it left of the run, and whether it made the call.
pub record Attempt : Type 0 where
  pub result : Result ℕ
  pub run : Run
  pub called : Bool

-- One use of `invoke`: its `validate` hook at each check, what the call does, and what happens around it:
-- the clock readings of its transactions and the calls of others before each of them.
pub record Circumstances : Type 0 where
  pub validate : (step : ℕ) → Result (Unit {0})
  pub call : Result (ℕ × Bool)
  pub clocks : ℕ → ℕ → ℕ
  pub others : ℕ → List (Call × (ℕ → ℕ))

abbrev pub follow : {A : Type 0} → Result (Unit {0}) → Result A → Result A
follow (ok _) next = next
follow (err f) next = err f

abbrev pub conclude : Outcome → Result ℕ
conclude (returned value reports_failure) = ok value
conclude (raised code) = err (app_error code)

-- The outcome to record: control errors and unexpected exceptions leave none.
unfoldable pub settle_call : Result (ℕ × Bool) → Result Outcome
unfolding is_control
settle_call (ok (value, reports_failure)) = ok (returned value reports_failure)
settle_call (err (app_error code)) =
    if is_control code then err (app_error code) else ok (raised code)
settle_call (err value_error) = err value_error
settle_call (err crash) = err crash

module _ (env : Environment) (claim : RunClaim) (key : Text) (inputs : ℕ) (readonly : Bool)
    (around : Circumstances) where
  -- `self.check()`
  unfoldable pub check : (step : ℕ) → Run → Result (Unit {0}) × Run
  check step run =
      let (r, checked) =
        Calls.perform env (worker claim check_owned) (around.clocks step)
          (run_history env (around.others step) run) in
      (follow r (around.validate step), checked)

  unfoldable pub completed : Outcome → Run → Attempt
  completed outcome run =
      let (r, finished) =
        Calls.perform env (worker claim (finish key outcome none)) (around.clocks 3)
          (run_history env (around.others 3) run) in
      record { result = follow r (conclude outcome); run = finished; called = true }

  unfoldable pub recorded : Result Outcome → Run → Attempt
  recorded (err failure) run = record { result = err failure; run = run; called = true }
  recorded (ok outcome) run =
      if ltb 2000000 (env.outcome_size outcome)
      then record { result = err (app_error run_checkpoint_limit); run = run; called = true }
      else completed outcome run

  unfoldable pub call_checked : Result (Unit {0}) → Run → Attempt
  call_checked (err failure) run = record { result = err failure; run = run; called = false }
  call_checked (ok _) run = recorded (settle_call around.call) run

  -- A receipt without a result cannot be read: `outcome["ok"]` of `None`.
  unfoldable pub begun : Result Leave → Run → Attempt
  begun (err failure) run = record { result = err failure; run = run; called = false }
  begun (ok (replay (some outcome))) run = record {
    result = conclude outcome;
    run = run;
    called = false;
  }
  begun (ok (replay none)) run = record { result = err crash; run = run; called = false }
  begun (ok perform) run = let (r, checked) = check 2 run in call_checked r checked

  unfoldable pub begin_checked : Result (Unit {0}) → Run → Attempt
  begin_checked (err failure) run = record { result = err failure; run = run; called = false }
  begin_checked (ok _) run =
      let (r, after) =
        transaction (begin_body env claim key inputs readonly) (around.clocks 1)
          (run_history env (around.others 1) run) in
      begun r after

  unfoldable pub invoke : Run → Attempt
  invoke run = let (r, checked) = check 0 run in begin_checked r checked
