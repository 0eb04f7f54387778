-- ===== src/Run/Tests.antt =====
-- Runs of the model on a sample run, and the theorems at concrete inputs.
use learning_qa_assistant.Base.{
  ℕ, ◌<◌, true, false, ◌≡◌, ◌≢◌, refl, Option, none, some, List, [], ◌∷◌, length, arith,
}
use learning_qa_assistant.Base.Text.{
  Text, codes, text_eq, starts_with, strip, stripped_within, is_operation_key,
}
use learning_qa_assistant.Transaction.{ok, err, Failure, transaction}
use learning_qa_assistant.Run.State.{
  Run, RunClaim, Environment, chat, running, queued, waiting, cancelled, Operation, started,
  Outcome, returned, Kind,
}
use learning_qa_assistant.Run.Journal.{get_row, message_state, shown, save_event, journaled}
use learning_qa_assistant.Run.Owner.{not_held, owned, check_deadline, check_owned_body}
use learning_qa_assistant.Run.Checkpoint.{save_checkpoint}
use learning_qa_assistant.Run.Resume.{
  check_approval, check_public, context_approval, store_resumed, resume_new, resume_retry,
  resume_seen, resume_checked, resume_public, resume_body,
}
use learning_qa_assistant.Run.Operation.{
  find, store, is_tool, start_event, begin_again, begin_found, new_operation, begin_row, begin_body,
  tool_event, artifacts_event, save_optional, complete_row, complete_operation_body, perform,
  replay,
}
use learning_qa_assistant.Run.Invoke.{
  Circumstances, settle_call, check, completed, recorded, call_checked, begun, begin_checked,
  invoke,
}
use learning_qa_assistant.Run.Claim.{is_claimable, take_run, claim_with, claim_body}
use learning_qa_assistant.Run.Calls.{
  Call, worker, WorkerCall, heartbeat, append, save, read, resume, worker_tx, call_tx, run_history,
}
use learning_qa_assistant.Run.Calls
use learning_qa_assistant.Run.Answer.{delta}
use learning_qa_assistant.Run.Stable.{history_of}
use learning_qa_assistant.Run.JournalInvariant.{IsJournal, run_history-IsJournal}
use learning_qa_assistant.Run.OperationInvariant.{IsLedger, run_history-IsLedger}
use learning_qa_assistant.Run.ExactlyOnce.{begin_once}
use learning_qa_assistant.Run.Replay.{confirmed_replays}
use learning_qa_assistant.Run.Fencing.{unheld_refused}
use learning_qa_assistant.Run.Taking.{ownership_of, taken, claim_of, claim_holds}
use learning_qa_assistant.Run.Superseded.{superseded_refused}
use learning_qa_assistant.Run.Dispatch.{
  dispatch_rows, dispatch_run, Change, called, dispatched, changes,
}
use learning_qa_assistant.Run.Ended.{IsAsEnded, ended_stays}
use learning_qa_assistant.Run.Resuming.{resume_twice}
use learning_qa_assistant.Run.CalledOnce.{called_once}

abbrev pub sample_env : Environment
sample_env = record {
  kind = chat;
  agent_timeout = 600;
  lease = 30;
  wait = 900;
  queue_limit = 3;
  sandbox_enabled = true;
  event_size = λ _ _. 100;
  payload_size = λ p. length p.human_inputs;
  outcome_size = λ _. 10;
  inputs_size = λ n. n;
  inputs_hash = λ n. n;
  supplement_hash = λ text _. length text;
  authorize = λ user session. true;
  prepare_public_query = λ q. ok q;
  validate_execution = λ _ _. none;
  validate_approval = λ _ _ _ _. none;
  allows_public_tool = λ _. true;
}

-- A run as it is created: queued, with nothing written yet.
abbrev pub new_run : Run
new_run = record {
  id = 1;
  user_id = 2;
  session_id = 3;
  client_key = 4;
  fingerprint = 5;
  kind = chat;
  state = queued;
  sequence = 0;
  event_bytes = 0;
  request_id = 6;
  expires_at = 630;
  message_id = none;
  execution_snapshot = none;
  owner_token = none;
  generation = 0;
  lease_expires_at = none;
  remaining = some 600;
  active_since = none;
  resume_key = none;
  created_at = 0;
  events = [];
  outbox = [];
  checkpoint = none;
  operations = [];
  artifacts = [];
  message = none;
}

-- The same run, claimed at 10.
abbrev held_run : Run
held_run = record new_run {
  state = running;
  owner_token = some 77;
  generation = 1;
  lease_expires_at = some 40;
  active_since = some 10;
  expires_at = 610;
}

abbrev pub first_claim : RunClaim
first_claim = record { run_id = 1; user_id = 2; token = 77; generation = 1 }

abbrev at_20 : ℕ → ℕ
at_20 _ = 20

abbrev tool_key : Text
tool_key = codes "tool/x"

abbrev begun_row : Operation
begun_row = record {
  key = tool_key;
  input_hash = 9;
  state = started;
  readonly = false;
  owner_generation = 1;
  attempts = 1;
  result = none;
}

abbrev busy_run : Run
busy_run = record held_run { operations = begun_row ∷ [] }

abbrev waiting_run : Run
waiting_run = record new_run {
  state = waiting;
  generation = 1;
  expires_at = 900;
  resume_key = some 55;
  checkpoint = some (record {
    revision = 1;
    payload = record { human_inputs = []; public_inputs = none; resume_receipt = none; rest = 0 };
  });
}

abbrev some_calls : List (Call × (ℕ → ℕ))
some_calls =
    (Call.claim 77 10, at_20)
    ∷ (worker first_claim (append (delta 8)), at_20)
    ∷ (worker first_claim heartbeat, at_20)
    ∷ []

new_run-IsJournal : IsJournal sample_env (history_of new_run)
new_run-IsJournal = record {
  numbered = tt;
  counted = refl;
  receipted = refl;
  measured = refl;
  few = omega arith;
  small = omega arith;
}

run_history-IsJournal_example :
    IsJournal sample_env (history_of (run_history sample_env some_calls new_run))
run_history-IsJournal_example =
    run_history-IsJournal sample_env some_calls new_run new_run-IsJournal

new_run-IsLedger : IsLedger (history_of new_run)
new_run-IsLedger = record { few = omega arith; rows = tt }

run_history-IsLedger_example : IsLedger (history_of (run_history sample_env some_calls new_run))
run_history-IsLedger_example = run_history-IsLedger sample_env some_calls new_run new_run-IsLedger

abbrev after_begin : Run
after_begin = (transaction (begin_body sample_env first_claim tool_key 9 false) at_20 held_run).1

begin_test :
    (transaction (begin_body sample_env first_claim tool_key 9 false) at_20 held_run).0 ≡ ok perform
unfolding begin_body begin_row find store is_tool start_event new_operation owned check_deadline
    get_row save_event journaled transaction is_operation_key starts_with text_eq
begin_test = refl

-- The worker is lost, and another takes the run over after the lease has ended.
abbrev takeover : List (Call × (ℕ → ℕ))
takeover = (Call.claim 88 50, λ _. 50) ∷ []

begin_once_example :
    (transaction
      (begin_body sample_env (record first_claim { token = 88; generation = 2 }) tool_key 9 false)
      (λ _. 51)
      (run_history sample_env takeover after_begin)).0
    ≢ ok perform
begin_once_example =
    begin_once sample_env first_claim (record first_claim { token = 88; generation = 2 }) tool_key 9
      9 false at_20 (λ _. 51) takeover held_run begin_test

abbrev sample_outcome : Outcome
sample_outcome = returned 42 false

complete_test :
    (transaction
      (complete_operation_body sample_env first_claim tool_key sample_outcome none)
      at_20
      busy_run).0
    ≡ ok tt
unfolding complete_operation_body complete_row find store is_tool tool_event artifacts_event
    save_optional owned check_deadline get_row save_event journaled transaction starts_with text_eq
complete_test = refl

abbrev after_complete : Run
after_complete =
    (transaction (complete_operation_body sample_env first_claim tool_key sample_outcome none) at_20
      busy_run).1

replay_test :
    (transaction
      (begin_body sample_env first_claim tool_key 9 false)
      at_20
      (run_history sample_env [] after_complete)).0
    ≡ ok (replay (some sample_outcome))
unfolding begin_body begin_row begin_found begin_again find store is_tool owned check_deadline
    get_row save_event journaled transaction is_operation_key starts_with text_eq
    complete_operation_body complete_row tool_event artifacts_event save_optional run_history
replay_test = refl

confirmed_replays_example : replay (some sample_outcome) ≡ replay (some sample_outcome)
confirmed_replays_example =
    confirmed_replays sample_env first_claim first_claim tool_key sample_outcome none 9 false at_20
      at_20 [] busy_run (replay (some sample_outcome)) complete_test replay_test

unheld_refused_example :
    ((f : Failure) × ((Calls.perform sample_env (worker first_claim heartbeat) (λ _. 40) held_run).0
        ≡ err f))
    × ((Calls.perform sample_env (worker first_claim heartbeat) (λ _. 40) held_run).1 ≡ held_run)
unheld_refused_example = unheld_refused sample_env first_claim heartbeat (λ _. 40) held_run refl

claim_test :
    (transaction (claim_body sample_env 88 50) (λ _. 50) held_run).0
    ≡ ok (some (record { run_id = 1; user_id = 2; token = 88; generation = 2 }))
unfolding claim_body claim_with take_run message_state shown save_event journaled transaction
claim_test = refl

abbrev second_claim : RunClaim
second_claim = record { run_id = 1; user_id = 2; token = 88; generation = 2 }

-- The lost worker was active from 10 to the end of its lease at 40.
claim_holds_example :
    let after = (transaction (claim_body sample_env 88 50) (λ _. 50) held_run).1 in
    (0 < 570)
    × (second_claim ≡ claim_of sample_env 88 held_run)
    × (ownership_of after ≡ taken sample_env 88 50 570 held_run)
    × ((t : ℕ)
        → t < 80
        → (not_held after second_claim t ≡ false)
          × ((kind : Kind) (id : Option ℕ) → is_claimable kind t id after ≡ false))
claim_holds_example = claim_holds sample_env 88 50 (λ _. 50) held_run second_claim claim_test

superseded_refused_example :
    let after =
      run_history sample_env some_calls
        (transaction (claim_body sample_env 88 50) (λ _. 50) held_run).1 in
    ((f : Failure) × ((Calls.perform sample_env (worker first_claim heartbeat) at_20 after).0
        ≡ err f))
    × ((Calls.perform sample_env (worker first_claim heartbeat) at_20 after).1 ≡ after)
superseded_refused_example =
    superseded_refused sample_env 88 50 (λ _. 50) held_run second_claim first_claim some_calls
      heartbeat at_20 claim_test (omega arith)

abbrev ended_run : Run
ended_run = record new_run {
  state = cancelled;
  outbox =
      record { sequence = 1; dispatched_at = some 4 }
      ∷ record { sequence = 2; dispatched_at = none }
      ∷ [];
}

abbrev some_changes : List Change
some_changes =
    called (Call.claim 99 30) at_20
    ∷ dispatched 100 at_20
    ∷ called (Call.request_cancel 2 1) at_20
    ∷ dispatched 1 at_20
    ∷ []

-- The first dispatch marks the row that was not, the second nothing.
dispatch_run_test :
    (dispatch_run 1 at_20 (dispatch_run 100 at_20 ended_run)).outbox
    ≡ record { sequence = 1; dispatched_at = some 4 }
      ∷ record { sequence = 2; dispatched_at = some 20 }
      ∷ []
unfolding dispatch_run dispatch_rows
dispatch_run_test = refl

ended_stays_example : IsAsEnded ended_run (changes sample_env some_changes ended_run)
ended_stays_example = ended_stays sample_env some_changes ended_run refl

abbrev sample_resume : Call
sample_resume = resume 2 1 1 55 (codes "yes") none

resume_test : (Calls.perform sample_env sample_resume at_20 waiting_run).0 ≡ ok tt
unfolding Calls.perform call_tx resume_body resume_public resume_checked resume_seen resume_retry
    resume_new check_approval check_public context_approval store_resumed save_checkpoint get_row
    message_state shown save_event journaled transaction strip stripped_within
resume_test = refl

resume_twice_example :
    let after = (Calls.perform sample_env sample_resume at_20 waiting_run).1 in
    Calls.perform sample_env sample_resume (λ _. 30) after ≡ (ok tt, after)
resume_twice_example =
    resume_twice sample_env 2 1 1 55 (codes "yes") none at_20 (λ _. 30) waiting_run resume_test

abbrev sample_circumstances : Circumstances
sample_circumstances = record {
  validate = λ _. ok tt;
  call = ok (42, false);
  clocks = λ _ _. 20;
  others = λ _. [];
}

invoke_test :
    (invoke sample_env first_claim tool_key 9 false sample_circumstances held_run).called ≡ true
unfolding invoke check begin_checked begun call_checked recorded completed settle_call Calls.perform
    call_tx worker_tx check_owned_body begin_body begin_row find store is_tool start_event
    new_operation owned check_deadline get_row save_event journaled transaction is_operation_key
    starts_with text_eq run_history
invoke_test = refl

called_once_example :
    (invoke sample_env second_claim tool_key 9 false sample_circumstances (
      run_history sample_env takeover
        (invoke sample_env first_claim tool_key 9 false sample_circumstances held_run).run)).called
    ≡ false
called_once_example =
    called_once sample_env first_claim second_claim tool_key 9 9 false sample_circumstances
      sample_circumstances takeover held_run invoke_test
