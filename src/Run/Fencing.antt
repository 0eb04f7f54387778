-- ===== src/Run/Fencing.antt =====
-- A worker that does not hold a run, by token, generation, lease or state, cannot change it.
use learning_qa_assistant.Base.{ℕ, Bool, true, false, ◌≡◌, refl, some}
use learning_qa_assistant.Transaction.{
  Session, err, Failure, app_error, run_lease_lost, Tx, raise_if, now, ◌>>◌, ◌>>=◌,
}
use learning_qa_assistant.Transaction.Refusal.{
  Refuses, Refuses-raise_if_bind, Refuses-at, Refuses-get, Refuses-bind, Refuses-raise,
  Refuses-then_raise_if, Refuses-then_lift, transaction-Refuses,
}
use learning_qa_assistant.Run.State.{Run, RunClaim, Environment}
use learning_qa_assistant.Run.Journal.{get_row}
use learning_qa_assistant.Run.Owner.{
  not_held, owned, heartbeat_body, release_busy_body, check_owned_body, finish_failure_body,
}
use learning_qa_assistant.Run.Answer.{
  append_body, append_data, complete, StreamEvent, held, delta, agent, start, other,
}
use learning_qa_assistant.Run.Checkpoint.{checkpoint_body, load_checkpoint_body, pause_body}
use learning_qa_assistant.Run.Operation.{begin_body, complete_operation_body}
use learning_qa_assistant.Run.Calls.{
  WorkerCall, release_busy, heartbeat, check_owned, load_checkpoint, finish_failure, append,
  complete_answer, save, pause, begin, finish, worker, worker_tx, call_tx, perform,
}

get_row-Refuses :
    {B : Type 0} (env : Environment) (user run_id : ℕ) (authorize : Bool) (k : Run → Tx Run B)
    (s : Session Run)
    → Refuses (k s.work) s
    → Refuses (get_row env user run_id authorize >>= k) s
unfolding get_row
get_row-Refuses env user run_id authorize k s r =
    let again =
      Refuses-raise_if_bind _ _ _ k s (Refuses-raise_if_bind _ _ _ k s (Refuses-at k s.work s r)) in
    Refuses-get _ k s again

module _ (env : Environment) (c : RunClaim) where
  not_held-Refuses :
      {B : Type 0} (k : ℕ → Tx Run B) (s : Session Run)
      → not_held s.work c (s.clock 0) ≡ true
      → Refuses (now >>= λ time. raise_if (not_held s.work c time) run_lease_lost >> k time) s
  unfolding ◌>>=◌
  not_held-Refuses k s h = record {
    failure = app_error run_lease_lost;
    raises = rw h refl;
    unsaved = rw h refl;
  }

  owned-Refuses :
      (allow check : Bool) (s : Session Run)
      → not_held s.work c (s.clock 0) ≡ true
      → Refuses (owned env c allow check) s
  unfolding owned
  owned-Refuses allow check s h =
      get_row-Refuses env c.user_id c.run_id false _ s (not_held-Refuses _ s h)

  append-Refuses :
      (event : StreamEvent) (s : Session Run)
      → not_held s.work c (s.clock 0) ≡ true
      → Refuses (append_body env event (some c) c.user_id c.run_id) s
  unfolding append_body append_data held
  append-Refuses (delta v) s h = Refuses-bind _ _ s (owned-Refuses _ _ s h)
  append-Refuses (agent v) s h = Refuses-bind _ _ s (owned-Refuses _ _ s h)
  append-Refuses (start v) s h = Refuses-bind _ _ s (owned-Refuses _ _ s h)
  append-Refuses other s h = Refuses-raise _ s

  worker-Refuses :
      (call : WorkerCall) (s : Session Run)
      → not_held s.work c (s.clock 0) ≡ true
      → Refuses (worker_tx env c call) s
  unfolding worker_tx heartbeat_body release_busy_body check_owned_body finish_failure_body complete
      held checkpoint_body load_checkpoint_body pause_body begin_body complete_operation_body
  worker-Refuses release_busy s h = Refuses-bind _ _ s (owned-Refuses _ _ s h)
  worker-Refuses heartbeat s h = Refuses-bind _ _ s (owned-Refuses _ _ s h)
  worker-Refuses check_owned s h = Refuses-bind _ _ s (owned-Refuses _ _ s h)
  worker-Refuses load_checkpoint s h =
      Refuses-bind _ _ s (Refuses-bind _ _ s (owned-Refuses _ _ s h))
  worker-Refuses (finish_failure failure) s h = Refuses-bind _ _ s (owned-Refuses _ _ s h)
  worker-Refuses (append event) s h = append-Refuses event s h
  worker-Refuses (complete_answer answer) s h =
      Refuses-bind _ _ s (Refuses-bind _ _ s (owned-Refuses _ _ s h))
  worker-Refuses (save payload) s h =
      Refuses-bind _ _ s (Refuses-bind _ _ s (owned-Refuses _ _ s h))
  worker-Refuses (pause token payload question) s h =
      Refuses-then_raise_if _ _ _ s (Refuses-bind _ _ s (owned-Refuses _ _ s h))
  worker-Refuses (begin key inputs readonly) s h = Refuses-bind _ _ s (
      Refuses-then_lift _ _ s
        (Refuses-then_raise_if _ _ _ s (Refuses-bind _ _ s (owned-Refuses _ _ s h))))
  worker-Refuses (finish key outcome payload) s h =
      Refuses-then_raise_if _ _ _ s (Refuses-bind _ _ s (owned-Refuses _ _ s h))

-- Whatever a worker asks of a run that it does not hold when the store reads the clock, because
-- the token or the generation is another's, the lease is over, or the run is neither running nor
-- cancelling, it is refused with an error and no row of the run changes.
pub unheld_refused :
    (env : Environment) (c : RunClaim) (call : WorkerCall) (clock : ℕ → ℕ) (run : Run)
    → not_held run c (clock 0) ≡ true
    → ((f : Failure) × ((perform env (worker c call) clock run).0 ≡ err f))
      × ((perform env (worker c call) clock run).1 ≡ run)
unfolding perform call_tx
unheld_refused env c call clock run h =
    transaction-Refuses (worker_tx env c call) clock run (worker-Refuses env c call _ h)
