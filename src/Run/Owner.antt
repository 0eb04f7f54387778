-- ===== src/Run/Owner.antt =====
-- What a worker does with the run that it holds: RunStore.owned, release_busy, heartbeat,
-- check_owned, finish_failure, append, complete and fail of app/service/runs.py.
use learning_qa_assistant.Base.{
  ℕ, ◌+◌, ◌-◌, Bool, true, false, not, ◌&&◌, ◌||◌, Option, none, some, leb, ◌==◌, holds,
}
use learning_qa_assistant.Transaction.{
  Code, Failure, app_error, Tx, ◌>>=◌, ◌>>◌, pure, raise_if, when, get, put, now, commit,
  run_lease_lost, run_cancel_requested, agent_timeout, run_execution_failed, sandbox_cleanup_failed,
}
use learning_qa_assistant.Run.State.{
  Run, RunClaim, queued, cancelled, failed, is_running, is_cancelling, Environment, error,
  run_cancelled,
}
use learning_qa_assistant.Run.Journal.{get_row, save_event, message_state}

-- `run.lease_expires_at is None or run.lease_expires_at <= now`
abbrev pub lease_over : Option ℕ → ℕ → Bool
lease_over none time = true
lease_over (some t) time = leb t time

-- `max(0, now - active_since)`; the row of a claimed run has an `active_since`.
abbrev pub elapsed : Option ℕ → ℕ → ℕ
elapsed none time = 0
elapsed (some since) time = time - since

-- The remaining time may be spent below zero; it is only compared with zero, so zero stands
-- for all that is spent.
abbrev pub spend : Option ℕ → ℕ → Option ℕ
spend none time = none
spend (some left) time = some (left - time)

abbrev pub not_held : Run → RunClaim → ℕ → Bool
not_held run claim time =
    not (holds run.owner_token claim.token)
    || not (run.generation == claim.generation)
    || lease_over run.lease_expires_at time
    || not (is_running run.state || is_cancelling run.state)

-- `run.owner_token = run.lease_expires_at = run.active_since = None`
abbrev pub disowned : Run → Run
disowned run = record run { owner_token = none; lease_expires_at = none; active_since = none }

module _ (env : Environment) where
  unfoldable pub check_deadline : Bool → Run → Tx Run (Unit {0})
  check_deadline check run =
      when check (do time ← now; raise_if (leb run.expires_at time) agent_timeout)

  unfoldable pub owned : RunClaim → (allow_cancelling check : Bool) → Tx Run Run
  owned claim allow_cancelling check = do
    run ← get_row env claim.user_id claim.run_id false
    time ← now
    raise_if (not_held run claim time) run_lease_lost
    raise_if (is_cancelling run.state && not allow_cancelling) run_cancel_requested
    check_deadline check run
    pure run

  unfoldable pub release_busy_body : RunClaim → Tx Run (Unit {0})
  release_busy_body claim = do
    run ← owned claim false true
    time ← now
    put (record run {
      remaining = spend run.remaining (elapsed run.active_since time);
      state = queued;
      owner_token = none;
      active_since = none;
    })
    message_state
    shown ← get
    put (record shown { lease_expires_at = some (time + 1000000) })
    commit

  unfoldable pub heartbeat_body : RunClaim → Tx Run (Unit {0})
  heartbeat_body claim = do
    run ← owned claim false true
    time ← now
    put (record run { lease_expires_at = some (time + env.lease) })
    commit

  unfoldable pub check_owned_body : RunClaim → Tx Run (Unit {0})
  check_owned_body claim = do owned claim false true; pure tt

abbrev pub cleanup_failed : Failure → Bool
cleanup_failed (app_error sandbox_cleanup_failed) = true
cleanup_failed _ = false

abbrev pub failure_code : Code → Failure → Code
failure_code default (app_error code) = code
failure_code default _ = default

module _ (env : Environment) where
  -- The state that a failed attempt ends in, with its event.
  unfoldable pub settle_failure : (cancels : Bool) → Failure → Run → Tx Run (Unit {0})
  settle_failure true failure run = do
    put (record run { state = cancelled })
    save_event env run_cancelled true
  settle_failure false failure run = do
    put (record run { state = failed })
    save_event env (error (failure_code run_execution_failed failure)) true

  unfoldable pub finish_failure_body : RunClaim → Failure → Tx Run (Unit {0})
  finish_failure_body claim failure = do
    run ← owned env claim true false
    settle_failure (is_cancelling run.state && not (cleanup_failed failure)) failure run
    settled ← get
    put (disowned settled)
    message_state
    commit
