-- ===== src/Run/StoreTests.antt =====
-- Runs of the store of all runs, and the theorems about it at concrete inputs.
use Prim.Native.Nat.{min}
use learning_qa_assistant.Base.{
  ℕ, Bool, true, false, ◌≡◌, refl, Option, none, some, List, [], ◌∷◌, length, arith, ◌++◌,
}
use learning_qa_assistant.Transaction.{
  Result, ok, err, app_error, idempotency_conflict, ◌>>=◌, transaction,
}
use learning_qa_assistant.Run.State.{
  Run, run_started, run_cancelled, waiting, cancelling, cancelled,
}
use learning_qa_assistant.Run.Journal.{
  message_state, shown, save_event, journaled, expire, expire_past, expire_waiting,
}
use learning_qa_assistant.Run.Calls.{Call}
use learning_qa_assistant.Run.Store.{
  Creation, Step, create, call_run, first, change_first, count, on_new, new_row, clear_session,
  check_capacity, prepare_row, approval_event, announce, create_row, create_new, create_found,
  create_body, store_history,
}
use learning_qa_assistant.Run.Capacity.{IsWithin}
use learning_qa_assistant.Run.Exclusive.{IsExclusive}
use learning_qa_assistant.Run.StoreHistory.{store_history-IsExclusive, store_history-IsWithin}
use learning_qa_assistant.Run.CreateAgain.{InTime, create_again, create_conflict}
use learning_qa_assistant.Run.Claim.{
  is_abandoned, settle_cancelled, is_claimable, take_run, claim_with, claim_body,
}
use learning_qa_assistant.Run.Taking.{offered}
use learning_qa_assistant.Run.Queue.{
  on_each, on_row, is_before, oldest, settle_cancellations, claim_found, claim_ready,
  claim_next_body,
}
use learning_qa_assistant.Run.Oldest.{IsOldest}
use learning_qa_assistant.Run.Chosen.{claim_next-IsOldest}
use learning_qa_assistant.Run.Dispatch.{
  Entry, notice_of, dispatch_rows, dispatch_outbox, dispatch_history, pending,
}
use learning_qa_assistant.Run.Dispatched.{dispatch_history-pending, dispatch_outbox-length}
use learning_qa_assistant.Run.Tests.{sample_env, new_run, first_claim}

abbrev sample_creation : Creation
sample_creation = record {
  run_id = 1;
  user_id = 2;
  session_id = 3;
  client_key = 4;
  fingerprint = 5;
  request_id = 6;
  search_mode = 0;
  created_at = 0;
  is_queued = true;
  user_active = true;
  too_large = false;
  prepare = some (λ run. ok (record {
    execution_snapshot = none;
    message_id = some 9;
    message = none;
    too_large = false;
  }));
}

abbrev at_5 : ℕ → ℕ
at_5 _ = 5

abbrev at_10 : ℕ → ℕ
at_10 _ = 10

abbrev made : Result (Run × Bool) × List Run
made = transaction (create_body sample_env sample_creation) at_5 []

abbrev made_run : Run
made_run = record (new_row sample_env sample_creation 5) {
  message_id = some 9;
  sequence = 1;
  event_bytes = 100;
  events = record { sequence = 1; body = run_started 6 0 } ∷ [];
  outbox = record { sequence = 1; dispatched_at = none } ∷ [];
}

create_test : made.0 ≡ ok (made_run, true)
unfolding create_body create_found create_new create_row clear_session check_capacity prepare_row
    announce approval_event new_row on_new first count save_event journaled transaction
create_test = refl

-- The question is sent again: the new call has drawn another run id.
abbrev sample_again : Creation
sample_again = record sample_creation { run_id = 99; request_id = 16; created_at = 8 }

made_run-InTime : InTime made_run at_5
unfolding new_row
made_run-InTime h = absurd (cc h)

create_again_example :
    transaction (create_body sample_env sample_again) at_5 made.1 ≡ (ok (made_run, false), made.1)
create_again_example =
    create_again sample_env sample_creation sample_again at_5 at_5 [] made_run true refl refl refl
      refl create_test refl made_run-InTime

create_conflict_example :
    transaction (create_body sample_env (record sample_again { fingerprint = 55 })) at_5 made.1
    ≡ (err (app_error idempotency_conflict), made.1)
create_conflict_example =
    create_conflict sample_env sample_creation (record sample_again { fingerprint = 55 }) at_5 at_5
      [] made_run true refl refl refl refl create_test refl

no_runs-IsExclusive : IsExclusive []
unfolding count
no_runs-IsExclusive sid = omega arith

-- Two questions in one session, the first claimed in between.
abbrev sample_steps : List Step
sample_steps =
    create sample_creation at_5
    ∷ call_run 1 (Call.claim 77 10) at_5
    ∷ create (record sample_creation { run_id = 11; client_key = 14 }) at_5
    ∷ []

store_history-IsExclusive_example : IsExclusive (store_history sample_env sample_steps [])
store_history-IsExclusive_example =
    store_history-IsExclusive sample_env sample_steps [] no_runs-IsExclusive

no_runs-IsWithin : IsWithin sample_env []
unfolding count
no_runs-IsWithin user = omega arith

store_history-IsWithin_example : IsWithin sample_env (store_history sample_env sample_steps [])
store_history-IsWithin_example =
    store_history-IsWithin sample_env sample_steps [] (refl, (refl, tt)) no_runs-IsWithin

abbrev younger_run : Run
younger_run = record new_run { id = 21; session_id = 23; created_at = 3 }

-- A run that is abandoned, one that waits too long, and two that can be claimed
abbrev overdue_run : Run
overdue_run = record new_run { id = 31; session_id = 33; state = waiting; expires_at = 4 }

abbrev waiting_runs : List Run
waiting_runs =
    record new_run { id = 41; session_id = 43; state = cancelling }
    ∷ younger_run
    ∷ overdue_run
    ∷ new_run
    ∷ []

claim_next_test :
    (transaction (claim_next_body sample_env 77 none) at_10 waiting_runs).0 ≡ ok (some first_claim)
unfolding claim_next_body settle_cancellations settle_cancelled on_each claim_ready claim_found
    oldest is_before on_row change_first claim_body claim_with take_run message_state shown
    save_event journaled transaction expire expire_past expire_waiting
claim_next_test = refl

claim_next-IsOldest_example :
    (found : Option Run) × IsOldest (is_claimable sample_env.kind 10 none) waiting_runs found
    × (some first_claim ≡ offered sample_env 77 10 found)
claim_next-IsOldest_example =
    claim_next-IsOldest sample_env 77 none at_10 waiting_runs (some first_claim) claim_next_test

abbrev entry : ℕ → ℕ → Entry
entry run_id sequence = record { run_id = run_id; sequence = sequence; dispatched_at = none }

abbrev sample_rows : List Entry
sample_rows = record (entry 1 1) { dispatched_at = some 2 } ∷ entry 1 2 ∷ entry 1 3 ∷ entry 4 1 ∷ []

dispatch_test :
    (dispatch_outbox 2 at_5 sample_rows).2 ≡ notice_of (entry 1 2) ∷ notice_of (entry 1 3) ∷ []
unfolding dispatch_outbox dispatch_rows
dispatch_test = refl

abbrev sample_dispatches : List (ℕ × (ℕ → ℕ))
sample_dispatches = (2, at_5) ∷ (0, at_5) ∷ (100, at_5) ∷ []

dispatch_history-pending_example :
    (dispatch_history sample_dispatches sample_rows).1
      ++ pending (dispatch_history sample_dispatches sample_rows).0
    ≡ pending sample_rows
dispatch_history-pending_example = dispatch_history-pending sample_dispatches sample_rows

dispatch_outbox-length_example :
    let (r, _, sent) = dispatch_outbox 2 at_5 sample_rows in
    (r ≡ ok (length sent)) × (length sent ≡ min 2 (length (pending sample_rows)))
dispatch_outbox-length_example =
    dispatch_outbox-length 2 at_5 sample_rows (omega arith) (omega arith)

-- Both rows that are overdue are settled, and the row between them is left.
abbrev stale_run : Run
stale_run = record new_run { state = cancelling }

abbrev settled_run : Run
settled_run = record stale_run {
  state = cancelled;
  sequence = 1;
  event_bytes = 100;
  events = record { sequence = 1; body = run_cancelled } ∷ [];
  outbox = record { sequence = 1; dispatched_at = none } ∷ [];
}

on_each_test :
    (on_each 10
      (is_abandoned sample_env.kind 7)
      (settle_cancelled sample_env)
      (stale_run ∷ new_run ∷ stale_run ∷ [])
      (record { work = []; saved = []; clock = at_5 })).0
    ≡ ok (settled_run ∷ new_run ∷ settled_run ∷ [])
unfolding on_each on_row settle_cancelled message_state shown save_event journaled ◌>>=◌
on_each_test = refl
