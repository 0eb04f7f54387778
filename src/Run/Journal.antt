-- ===== src/Run/Journal.antt =====
-- RunStore.get_row, guard, message_state, _event and expire of app/service/runs.py.
use learning_qa_assistant.Base.{
  ℕ, ◌+◌, Bool, true, false, not, ◌&&◌, ◌||◌, Option, none, some, [], ◌∷◌, ◌++◌, leb, ltb, ◌==◌,
  if◌then◌else◌, is_some,
}
use learning_qa_assistant.Transaction.{
  Tx, ◌>>=◌, ◌>>◌, pure, raise_if, when, get, put, now, not_found, run_interrupted, run_event_limit,
  hitl_expired,
}
use learning_qa_assistant.Run.State.{
  Run, interrupted, is_waiting, is_running, same_kind, Environment, Event, EventData, Message,
  error,
}

module _ (env : Environment) where
  -- The selected row is `get`; it is found by its id, its owner and the store's kind.
  unfoldable pub get_row : (user_id run_id : ℕ) (authorize : Bool) → Tx Run Run
  get_row user_id run_id authorize = do
    run ← get
    raise_if (not (run.id == run_id && run.user_id == user_id && same_kind run.kind env.kind))
        not_found
    raise_if (authorize && not (env.authorize user_id run.session_id)) not_found
    pure run

  unfoldable pub guard : (user_id run_id : ℕ) → Tx Run Run
  guard user_id run_id = do
    run ← get_row user_id run_id true
    time ← now
    raise_if (not (is_running run.state) || leb run.expires_at time) run_interrupted
    pure run

-- The assistant message that the run names shows the state of the run.
unfoldable pub mirrored : Run → Message → Message
mirrored run m =
    if m.user_id == run.user_id && m.session_id == run.session_id && m.is_assistant
    then record m { run_state = some run.state }
    else m

unfoldable pub with_message : Run → Option Message → Option ℕ → Option Message
with_message run (some m) (some id) = if m.id == id then some (mirrored run m) else some m
with_message run message id = message

unfoldable pub shown : Run → Run
shown run =
    if is_some run.execution_snapshot
    then record run { message = with_message run run.message run.message_id }
    else run

unfoldable pub message_state : Tx Run (Unit {0})
message_state = do run ← get; put (shown run)

abbrev pub sequence_limit : Bool → ℕ
sequence_limit true = 8200
sequence_limit false = 8192

abbrev pub bytes_limit : Bool → ℕ
bytes_limit true = 8000000
bytes_limit false = 6000000

-- The row with one more event, and its notification receipt.
unfoldable pub journaled : ℕ → Event → Run → Run
journaled size event run = record run {
  sequence = event.sequence;
  event_bytes = run.event_bytes + size;
  events = run.events ++ event ∷ [];
  outbox = run.outbox ++ record { sequence = event.sequence; dispatched_at = none } ∷ [];
}

-- `body` where the run's time is over.
unfoldable pub expire_past : Tx Run (Unit {0}) → Tx Run (Unit {0})
expire_past body = do run ← get; time ← now; when (leb run.expires_at time) body

module _ (env : Environment) where
  unfoldable pub save_event : EventData → (terminal : Bool) → Tx Run (Unit {0})
  save_event body terminal = do
    run ← get
    let event : Event = record { sequence = run.sequence + 1; body = body }
    let size = env.event_size run.id event
    raise_if
        (ltb 2000000 size
          || leb (sequence_limit terminal) run.sequence
          || ltb (bytes_limit terminal) (run.event_bytes + size))
        run_event_limit
    put (journaled size event run)

  unfoldable pub expire_waiting : Tx Run (Unit {0})
  expire_waiting = do
    save_event (error hitl_expired) true
    run ← get
    put (record run { state = interrupted; resume_key = none })
    message_state

  unfoldable pub expire_running : Tx Run (Unit {0})
  expire_running = do
    save_event (error run_interrupted) true
    run ← get
    put (record run { state = interrupted })

  -- The clock is read by the test that reaches it.
  unfoldable pub expire : Tx Run (Unit {0})
  expire = do
    run ← get
    when (is_waiting run.state) (expire_past expire_waiting)
    when (is_running run.state && run.generation == 0) (expire_past expire_running)
