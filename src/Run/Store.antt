-- ===== src/Run/Store.antt =====
-- All runs: RunStore.create of app/service/runs.py, with the queries that it makes. The
-- preparation callback, which fills the row with its snapshot and its messages, is an argument.
use learning_qa_assistant.Base.{
  ℕ, ◌+◌, Bool, true, false, not, ◌&&◌, Option, none, some, List, [], ◌∷◌, ◌++◌, leb, ◌==◌,
  if◌then◌else◌, is_some,
}
use learning_qa_assistant.Transaction.{
  Result, ok, err, value_error, Tx, ◌>>=◌, ◌>>◌, pure, lift, raise_if, when, get, now, commit,
  transaction, forbidden, idempotency_conflict, resource_busy, not_found, run_capacity_exceeded,
  run_checkpoint_limit,
}
use learning_qa_assistant.Run.State.{
  Run, queued, running, is_active, same_kind, Kind, Environment, Snapshot, Message, run_started,
  tool_approval_granted,
}
use learning_qa_assistant.Run.Journal.{save_event, expire}
use learning_qa_assistant.Run.Calls.{Call}
use learning_qa_assistant.Run.Calls

-- What `prepare` writes on the new row, and whether its snapshot is over 4,000,000 bytes.
pub record Prepared : Type 0 where
  pub execution_snapshot : Option Snapshot
  pub message_id : Option ℕ
  pub message : Option Message
  pub too_large : Bool

-- One call of `create`: its arguments, with what is read of them (the digest of the session and
-- the input, whether the input is over 100,000 bytes, and whether the user's row is there and
-- active), and what is drawn anew in each call: `run_id` by `uuid4()`, and `created_at` by the
-- database.
pub record Creation : Type 0 where
  pub run_id : ℕ
  pub user_id : ℕ
  pub session_id : ℕ
  pub client_key : ℕ
  pub fingerprint : ℕ
  pub request_id : ℕ
  pub search_mode : ℕ
  pub created_at : ℕ
  pub is_queued : Bool
  pub user_active : Bool
  pub too_large : Bool
  pub prepare : Option (Run → Result Prepared)

unfoldable pub first : (Run → Bool) → List Run → Option Run
first test [] = none
first test (run ∷ runs) = if test run then some run else first test runs

unfoldable pub change_first : (Run → Bool) → Run → List Run → List Run
change_first test new [] = []
change_first test new (run ∷ runs) =
    if test run then new ∷ runs else run ∷ change_first test new runs

abbrev pub one : Bool → ℕ
one true = 1
one false = 0

unfoldable pub count : (Run → Bool) → List Run → ℕ
count test [] = 0
count test (run ∷ runs) = one (test run) + count test runs

-- `queries.find_idempotent_run`
unfoldable pub is_retry : Creation → Run → Bool
is_retry creation run = run.user_id == creation.user_id && run.client_key == creation.client_key

-- `queries.active_session_run`
unfoldable pub in_session : ℕ → Run → Bool
in_session session_id run = is_active run.state && run.session_id == session_id

-- `queries.count_active_runs`
unfoldable pub is_counted : Kind → ℕ → Run → Bool
is_counted kind user_id run =
    run.user_id == user_id && same_kind run.kind kind && is_active run.state

abbrev pub settled : Result (Unit {0}) → Run → Result Run
settled (ok _) run = ok run
settled (err failure) run = err failure

-- `body` on one loaded row, the first that satisfies the test.
unfoldable pub on_first : (Run → Bool) → Run → Tx Run (Unit {0}) → Tx (List Run) Run
on_first test run body s =
    let (r, t) = body (record { work = run; saved = run; clock = s.clock }) in
    (settled r t.work, record s { work = change_first test t.work s.work; clock = t.clock })

-- `body` on a row that is added.
unfoldable pub on_new : Run → Tx Run (Unit {0}) → Tx (List Run) Run
on_new run body s =
    let (r, t) = body (record { work = run; saved = run; clock = s.clock }) in
    (settled r t.work, record s { work = s.work ++ t.work ∷ []; clock = t.clock })

abbrev pub approval_of : Option Snapshot → Option ℕ
approval_of none = none
approval_of (some snapshot) = snapshot.approval

module _ (env : Environment) (creation : Creation) where
  unfoldable pub new_row : ℕ → Run
  new_row time = record {
    id = creation.run_id;
    user_id = creation.user_id;
    session_id = creation.session_id;
    client_key = creation.client_key;
    fingerprint = creation.fingerprint;
    kind = env.kind;
    state = (if creation.is_queued then queued else running);
    sequence = 0;
    event_bytes = 0;
    request_id = creation.request_id;
    expires_at = time + env.agent_timeout + 30000000;
    message_id = none;
    execution_snapshot = none;
    owner_token = none;
    generation = 0;
    lease_expires_at = none;
    remaining = (if creation.is_queued then some env.agent_timeout else none);
    active_since = none;
    resume_key = none;
    created_at = creation.created_at;
    events = [];
    outbox = [];
    checkpoint = none;
    operations = [];
    artifacts = [];
    message = none;
  }

  unfoldable pub existing_run : Run → Tx (List Run) (Run × Bool)
  existing_run found = do
    raise_if (not (found.fingerprint == creation.fingerprint && same_kind found.kind env.kind))
        idempotency_conflict
    run ← on_first (is_retry creation) found (expire env)
    commit
    pure (run, false)

  unfoldable pub clear_session : Option Run → Tx (List Run) (Unit {0})
  clear_session none = pure tt
  clear_session (some active) = do
    run ← on_first (in_session creation.session_id) active (expire env)
    raise_if (is_active run.state) resource_busy

  unfoldable pub check_capacity : Tx (List Run) (Unit {0})
  check_capacity = do
    runs ← get
    raise_if (leb env.queue_limit (count (is_counted env.kind creation.user_id) runs))
        run_capacity_exceeded

  unfoldable pub prepare_row : Option (Run → Result Prepared) → Run → Tx (List Run) Run
  prepare_row none row = pure row
  prepare_row (some prepare) row = do
    prepared ← lift (prepare row)
    raise_if prepared.too_large run_checkpoint_limit
    pure (record row {
      execution_snapshot = prepared.execution_snapshot;
      message_id = prepared.message_id;
      message = prepared.message;
    })

  unfoldable pub approval_event : Option ℕ → Tx Run (Unit {0})
  approval_event none = pure tt
  approval_event (some approval) = save_event env (tool_approval_granted approval) false

  unfoldable pub announce : Run → Tx Run (Unit {0})
  announce row = do
    save_event env (run_started creation.request_id creation.search_mode) false
    approval_event (approval_of row.execution_snapshot)

  unfoldable pub create_row : Tx (List Run) (Run × Bool)
  create_row = do
    raise_if creation.too_large run_checkpoint_limit
    time ← now
    row ← prepare_row creation.prepare (new_row time)
    run ← on_new row (announce row)
    commit
    pure (run, true)

  unfoldable pub create_new : Tx (List Run) (Run × Bool)
  create_new = do
    raise_if (not (env.authorize creation.user_id creation.session_id)) not_found
    runs ← get
    clear_session (first (in_session creation.session_id) runs)
    when creation.is_queued check_capacity
    create_row

  unfoldable pub create_found : Option Run → Tx (List Run) (Run × Bool)
  create_found none = create_new
  create_found (some found) = existing_run found

  unfoldable pub create_body : Tx (List Run) (Run × Bool)
  create_body = do
    lift (if creation.is_queued && not (is_some creation.prepare) then err value_error else ok tt)
    raise_if (creation.is_queued && not creation.user_active) forbidden
    runs ← get
    create_found (first (is_retry creation) runs)

-- What happens to the runs: a creation, or a call on one of them.
pub data Step : Type 0 where
  create : Creation → (clock : ℕ → ℕ) → Step
  call_run : (run_id : ℕ) → Call → (clock : ℕ → ℕ) → Step

abbrev pub has_id : ℕ → Run → Bool
has_id run_id run = run.id == run_id

module _ (env : Environment) where
  unfoldable pub call_first : (Run → Bool) → Call → (ℕ → ℕ) → Option Run → List Run → List Run
  call_first test call clock none runs = runs
  call_first test call clock (some run) runs =
      change_first test (Calls.perform env call clock run).1 runs

  unfoldable pub step : Step → List Run → List Run
  step (create creation clock) runs = (transaction (create_body env creation) clock runs).1
  step (call_run run_id call clock) runs =
      call_first (has_id run_id) call clock (first (has_id run_id) runs) runs

  unfoldable pub store_history : List Step → List Run → List Run
  store_history [] runs = runs
  store_history (s ∷ rest) runs = store_history rest (step s runs)
