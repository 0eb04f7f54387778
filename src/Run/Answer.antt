-- ===== src/Run/Answer.antt =====
-- The answer's events and the end of a run: RunStore.append, complete, fail and read of
-- app/service/runs.py.
use learning_qa_assistant.Base.{
  ℕ, Bool, true, false, not, ◌&&◌, Option, none, some, List, [], ◌∷◌, ltb, ◌==◌, if◌then◌else◌,
  keep, take, holds,
}
use learning_qa_assistant.Transaction.{
  Failure, Tx, ◌>>=◌, ◌>>◌, pure, raise, raise_if, when, get, put, commit, run_lease_lost,
  run_event_invalid, run_checkpoint_diverged, internal_error, invalid_event_cursor,
}
use learning_qa_assistant.Run.State.{
  Run, RunClaim, succeeded, failed, is_running, Environment, Event, EventData, answer_delta,
  answer_start, agent_event, context_usage, usage, done, error, Message, is_waiting, run_waiting,
}
use learning_qa_assistant.Run.Journal.{get_row, guard, save_event, expire}
use learning_qa_assistant.Run.Owner.{owned, disowned, failure_code}

-- The event names that `append` is called with; `other` is any other name.
pub data StreamEvent : Type 0 where
  delta agent start : (detail : ℕ) → StreamEvent
  other : StreamEvent

abbrev pub stream_data : StreamEvent → Option EventData
stream_data (delta value) = some (answer_delta value)
stream_data (agent value) = some (agent_event value)
stream_data (start value) = some (answer_start value)
stream_data other = none

-- What the finished message carries for the events of `complete`.
pub record Answer : Type 0 where
  pub message : Message
  pub context : Option ℕ
  pub usage_detail : ℕ
  pub done_detail : ℕ

-- `queries.list_events_after`
unfoldable pub events_after : ℕ → Run → List Event
events_after after run = take 100 (keep (λ event. ltb after event.sequence) run.events)

unfoldable pub event_at : ℕ → List Event → Option EventData
event_at sequence [] = none
event_at sequence (event ∷ events) =
    if event.sequence == sequence then some event.body else event_at sequence events

unfoldable pub only_waiting : Option EventData → Option EventData
only_waiting (some (run_waiting question revision token expires_at public_input)) =
    some (run_waiting question revision token expires_at public_input)
only_waiting _ = none

-- `run.waiting`: the question of a run that waits, from the last event of its journal.
unfoldable pub waiting_event : Run → Option EventData
waiting_event run =
    if is_waiting run.state then only_waiting (event_at run.sequence run.events) else none

module _ (env : Environment) where
  -- `self.owned(session, claim) if claim else self.guard(session, user_id, run_id)`
  unfoldable pub held : Option RunClaim → (user_id run_id : ℕ) → Tx Run Run
  held (some claim) user_id run_id = owned env claim false true
  held none user_id run_id = guard env user_id run_id

  unfoldable pub append_data :
      Option EventData → Option RunClaim → (user_id run_id : ℕ) → Tx Run (Unit {0})
  append_data none claim user_id run_id = raise run_event_invalid
  append_data (some body) claim user_id run_id = do
    run ← held claim user_id run_id
    raise_if (not (run.id == run_id && run.user_id == user_id)) run_lease_lost
    save_event env body false
    commit

  unfoldable pub append_body :
      StreamEvent → Option RunClaim → (user_id run_id : ℕ) → Tx Run (Unit {0})
  append_body event claim user_id run_id = append_data (stream_data event) claim user_id run_id

  unfoldable pub fits_claim : Option RunClaim → Run → Message → Bool
  fits_claim none run message = true
  fits_claim (some claim) run message = holds run.message_id message.id

  unfoldable pub context_event : Option ℕ → Tx Run (Unit {0})
  context_event none = pure tt
  context_event (some detail) = save_event env (context_usage detail) true

  -- The caller's transaction commits it together with the message.
  unfoldable pub complete : Option RunClaim → (user_id run_id : ℕ) → Answer → Tx Run (Unit {0})
  complete claim user_id run_id answer = do
    run ← held claim user_id run_id
    let message = answer.message
    raise_if
        (not (
          run.id == run_id
          && run.user_id == user_id
          && message.user_id == user_id
          && message.session_id == run.session_id
          && message.is_assistant
          && fits_claim claim run message))
        run_checkpoint_diverged
    context_event answer.context
    save_event env (usage answer.usage_detail) true
    save_event env (done answer.done_detail) true
    saved ← get
    put (disowned (record saved { state = succeeded; message_id = some message.id }))

  -- The error event of a run that is still running after `expire`.
  unfoldable pub fail_running : Failure → Tx Run (Unit {0})
  fail_running failure = do
    run ← get
    when (is_running run.state) (do
      save_event env (error (failure_code internal_error failure)) true
      failing ← get
      put (record failing { state = failed }))

  unfoldable pub fail_body : (user_id run_id : ℕ) → Failure → Tx Run (Unit {0})
  fail_body user_id run_id failure = do
    run ← get_row env user_id run_id true
    when (is_running run.state) (do expire env; fail_running failure; commit)

  unfoldable pub read_body : (user_id run_id after : ℕ) → Tx Run (Option EventData × List Event)
  read_body user_id run_id after = do
    get_row env user_id run_id true
    expire env
    run ← get
    raise_if (ltb run.sequence after) invalid_event_cursor
    commit
    pure (waiting_event run, events_after after run)
