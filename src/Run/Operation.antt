-- ===== src/Run/Operation.antt =====
-- Checkpointed calls: RunStore.begin_operation and complete_operation of app/service/runs.py,
-- and RunCheckpoint.check and invoke of app/manager/run_checkpoint.py.
use learning_qa_assistant.Base.{
  ℕ, ◌+◌, Bool, true, false, not, ◌&&◌, Option, none, some, List, [], ◌∷◌, leb, ltb, ◌==◌,
  if◌then◌else◌, keep, map, length,
}
use learning_qa_assistant.Base.Text.{Text, codes, text_eq, starts_with, is_operation_key}
use learning_qa_assistant.Transaction.{
  value_error, ok, err, Tx, ◌>>=◌, ◌>>◌, pure, raise, lift, raise_if, when, put, commit,
  run_checkpoint_diverged, run_checkpoint_limit, tool_outcome_uncertain, run_recovery_limit,
  operation_already_running,
}
use learning_qa_assistant.Run.State.{
  Run, RunClaim, Environment, Payload, Operation, OperationState, started, succeeded, uncertain,
  Outcome, returned, raised, Artifact, tool_started, tool_failed, tool_finished, artifacts_ready,
}
use learning_qa_assistant.Run.Journal.{save_event}
use learning_qa_assistant.Run.Owner.{owned}
use learning_qa_assistant.Run.Checkpoint.{save_checkpoint}

abbrev pub is_started : OperationState → Bool
is_started started = true
is_started _ = false

abbrev pub is_succeeded : OperationState → Bool
is_succeeded succeeded = true
is_succeeded _ = false

abbrev pub same_flag : Bool → Bool → Bool
same_flag true b = b
same_flag false b = not b

-- `load(ChatRunOperation, (run_id, key))`
unfoldable pub find : Text → List Operation → Option Operation
find key [] = none
find key (row ∷ rows) = if text_eq row.key key then some row else find key rows

-- The row of this key is replaced; a row that is not there is added.
unfoldable pub store : Operation → List Operation → List Operation
store new [] = new ∷ []
store new (row ∷ rows) = if text_eq row.key new.key then new ∷ rows else row ∷ store new rows

-- `key.startswith('tool/')`
unfoldable pub is_tool : Text → Bool
is_tool key = starts_with key (codes "tool/")

-- The rows of `run`, as they were loaded, with this one written.
abbrev pub with_operation : Run → Operation → Run
with_operation run row = record run { operations = store row run.operations }

-- What `begin_operation` returns: the saved result, or leave to make the call.
pub data Leave : Type 0 where
  replay : Option Outcome → Leave
  perform : Leave

module _ (env : Environment) (claim : RunClaim) (key : Text) where
  unfoldable pub start_event : Bool → Tx Run Leave
  start_event readonly = do
    when (is_tool key) (save_event env (tool_started key claim.generation readonly) false)
    commit
    pure perform

  -- An unconfirmed side effect is marked, and the mark is committed before the error is raised.
  unfoldable pub mark_uncertain : Run → Operation → Tx Run (Unit {0})
  mark_uncertain run row = do
    put (with_operation run (record row { state = uncertain }))
    when (is_tool key) (save_event env (tool_failed key true 0) false)
    commit
    raise tool_outcome_uncertain

  unfoldable pub retry_operation : Run → Operation → (readonly : Bool) → Tx Run Leave
  retry_operation run row readonly = do
    raise_if (row.owner_generation == claim.generation && is_started row.state)
        operation_already_running
    when (not readonly) (mark_uncertain run row)
    raise_if (leb 3 row.attempts) run_recovery_limit
    put (
        with_operation run (record row {
          state = started;
          owner_generation = claim.generation;
          attempts = row.attempts + 1;
        }))
    start_event readonly

  unfoldable pub begin_again :
      (confirmed : Bool) → Run → Operation → (readonly : Bool) → Tx Run Leave
  begin_again true run row readonly = pure (replay row.result)
  begin_again false run row readonly = retry_operation run row readonly

  unfoldable pub begin_found : Run → (inputs : ℕ) (readonly : Bool) → Operation → Tx Run Leave
  begin_found run inputs readonly row = do
    raise_if (not (row.input_hash == env.inputs_hash inputs && same_flag row.readonly readonly))
        run_checkpoint_diverged
    begin_again (is_succeeded row.state) run row readonly

  unfoldable pub new_operation : (inputs : ℕ) (readonly : Bool) → Operation
  new_operation inputs readonly = record {
    key = key;
    input_hash = env.inputs_hash inputs;
    state = started;
    readonly = readonly;
    owner_generation = claim.generation;
    attempts = 1;
    result = none;
  }

  unfoldable pub begin_row : Run → Option Operation → (inputs : ℕ) (readonly : Bool) → Tx Run Leave
  begin_row run (some row) inputs readonly = begin_found run inputs readonly row
  begin_row run none inputs readonly = do
    raise_if (leb 128 (length run.operations)) run_checkpoint_limit
    put (with_operation run (new_operation inputs readonly))
    start_event readonly

  unfoldable pub begin_body : (inputs : ℕ) (readonly : Bool) → Tx Run Leave
  begin_body inputs readonly = do
    lift (if is_operation_key key then ok tt else err value_error)
    raise_if (ltb 2000000 (env.inputs_size inputs)) run_checkpoint_limit
    run ← owned env claim false true
    begin_row run (find key run.operations) inputs readonly

abbrev pub outcome_failed : Outcome → Bool
outcome_failed (returned value reports_failure) = reports_failure
outcome_failed (raised code) = true

abbrev pub outcome_value : Outcome → ℕ
outcome_value (returned value reports_failure) = value
outcome_value (raised code) = 0

abbrev pub is_open : Option Operation → ℕ → Bool
is_open none generation = false
is_open (some row) generation = is_started row.state && row.owner_generation == generation

-- `queries.operation_artifacts`
abbrev pub artifacts_of : Text → List Artifact → List Artifact
artifacts_of key = keep (λ artifact. text_eq artifact.key key)

module _ (env : Environment) (claim : RunClaim) (key : Text) where
  unfoldable pub tool_event : (reports_failure : Bool) → Outcome → Tx Run (Unit {0})
  tool_event true outcome = save_event env (tool_failed key false (outcome_value outcome)) false
  tool_event false outcome = save_event env (tool_finished key (outcome_value outcome)) false

  unfoldable pub artifacts_event : List Artifact → Tx Run (Unit {0})
  artifacts_event [] = pure tt
  artifacts_event (a ∷ as') =
      save_event env (artifacts_ready (map (λ artifact. artifact.name) (a ∷ as'))) false

  unfoldable pub save_optional : Option Payload → Tx Run (Unit {0})
  save_optional none = pure tt
  save_optional (some payload) = do save_checkpoint env payload; pure tt

  unfoldable pub complete_row :
      Run → Option Operation → Outcome → Option Payload → Tx Run (Unit {0})
  complete_row run none outcome payload = raise run_checkpoint_diverged
  complete_row run (some row) outcome payload = do
    raise_if (not (is_started row.state && row.owner_generation == claim.generation))
        run_checkpoint_diverged
    put (with_operation run (record row { state = succeeded; result = some outcome }))
    when (is_tool key) (tool_event (outcome_failed outcome) outcome)
    when (env.sandbox_enabled && not row.readonly)
        (artifacts_event (artifacts_of key run.artifacts))
    save_optional payload
    commit

  unfoldable pub complete_operation_body : Outcome → Option Payload → Tx Run (Unit {0})
  complete_operation_body outcome payload = do
    raise_if (ltb 2000000 (env.outcome_size outcome)) run_checkpoint_limit
    run ← owned env claim false true
    complete_row run (find key run.operations) outcome payload
