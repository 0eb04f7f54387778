-- ===== src/Run/Claim.antt =====
-- Taking a run: the part of RunStore.claim_next and settle_cancellations of
-- app/service/runs.py that concerns one run, with the conditions of app/dao/queries/runs.py.
use Prim.Native.Nat.{min}
use learning_qa_assistant.Base.{
  ℕ, ◌+◌, ◌-◌, Bool, true, false, not, ◌&&◌, ◌||◌, Option, none, some, leb, ltb, ◌==◌, is_some,
  has_passed,
}
use learning_qa_assistant.Transaction.{Tx, ◌>>=◌, ◌>>◌, pure, get, put, commit, agent_timeout}
use learning_qa_assistant.Run.State.{
  Run, RunClaim, running, failed, cancelled, is_waiting, is_queued, is_running, is_cancelling,
  same_kind, Kind, Environment, error, run_claimed, run_cancelled,
}
use learning_qa_assistant.Run.Journal.{save_event, message_state}
use learning_qa_assistant.Run.Owner.{disowned, lease_over}

-- `queries.lock_expired_waiting_runs`
abbrev pub is_expired_waiting : Kind → ℕ → Run → Bool
is_expired_waiting kind time run =
    same_kind run.kind kind && is_waiting run.state && leb run.expires_at time

-- `queries.lock_expired_cancellations`
abbrev pub is_abandoned : Kind → ℕ → Run → Bool
is_abandoned kind time run =
    same_kind run.kind kind
    && is_cancelling run.state
    && (has_passed run.lease_expires_at time || not (is_some run.owner_token))

abbrev pub id_is : Option ℕ → Run → Bool
id_is none run = true
id_is (some id) run = run.id == id

-- `queries.lock_next_run`, without its order
abbrev pub is_claimable : Kind → ℕ → Option ℕ → Run → Bool
is_claimable kind time id run =
    same_kind run.kind kind
    && id_is id run
    && ((is_queued run.state && lease_over run.lease_expires_at time)
        || (is_running run.state && ltb 0 run.generation && has_passed run.lease_expires_at time))

abbrev pub remaining_or : Option ℕ → ℕ → ℕ
remaining_or none default = default
remaining_or (some left) default = left

-- `max(0, min(now, lease_expires_at) - active_since)`: a lost worker is charged up to the end of
-- its lease.
abbrev pub charged : Option ℕ → Option ℕ → ℕ → ℕ
charged none lease time = 0
charged (some since) none time = time - since
charged (some since) (some lease) time = min time lease - since

abbrev pub budget_left : ℕ → Run → ℕ → ℕ
budget_left default run time =
    remaining_or run.remaining default - charged run.active_since run.lease_expires_at time

module _ (env : Environment) where
  unfoldable pub settle_cancelled : Tx Run (Unit {0})
  settle_cancelled = do
    run ← get
    put (record run { state = cancelled })
    message_state
    shown ← get
    put (disowned shown)
    save_event env run_cancelled true

  unfoldable pub fail_spent : Tx Run (Option RunClaim)
  fail_spent = do
    run ← get
    put (record run { state = failed })
    message_state
    save_event env (error agent_timeout) true
    commit
    pure none

  unfoldable pub take_run : (token time left : ℕ) → Tx Run (Option RunClaim)
  take_run token time left = do
    run ← get
    put (record run {
      state = running;
      owner_token = some token;
      generation = run.generation + 1;
      remaining = some left;
      active_since = some time;
      expires_at = time + left;
      lease_expires_at = some (time + env.lease);
    })
    message_state
    save_event env (run_claimed (run.generation + 1)) false
    commit
    pure (
        some (record {
          run_id = run.id;
          user_id = run.user_id;
          token = token;
          generation = run.generation + 1;
        }))

  unfoldable pub claim_with : (spent : Bool) → (token time left : ℕ) → Tx Run (Option RunClaim)
  claim_with true token time left = fail_spent
  claim_with false token time left = take_run token time left

  -- `token` is the fresh `uuid4()`, and `time` the reading that the queries were given.
  unfoldable pub claim_body : (token time : ℕ) → Tx Run (Option RunClaim)
  claim_body token time = do
    run ← get
    let left = budget_left env.agent_timeout run time
    claim_with (leb left 0) token time left
