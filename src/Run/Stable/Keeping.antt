-- ===== src/Run/Stable/Keeping.antt =====
-- Each part of the store's calls keeps a stable predicate of the history.
use learning_qa_assistant.Base.{
  ℕ, ◌+◌, ◌≤◌, ◌<◌, Bool, true, false, ◌||◌, ◌≡◌, refl, subst, sym, leb, ltb, arith,
}
use learning_qa_assistant.Transaction.{Tx, Failure}
use learning_qa_assistant.Transaction.Rules.{
  Post, Post-bind, Post-put, Post-raise_if, Post-weaken, Post-pure, Post-when, Post-commit,
  then_get, then_raise_if, then_put, then_now, then_do,
}
use learning_qa_assistant.Run.State.{Run, RunClaim, Environment, EventData}
use learning_qa_assistant.Run.Journal.{
  get_row, guard, save_event, journaled, message_state, shown, expire, expire_past, expire_waiting,
  expire_running, sequence_limit, bytes_limit,
}
use learning_qa_assistant.Run.Owner.{
  owned, check_deadline, heartbeat_body, release_busy_body, check_owned_body, finish_failure_body,
  settle_failure,
}
use learning_qa_assistant.Run.Stable.{History, history_of, Stable}

pub history-shown : (run : Run) → history_of (shown run) ≡ history_of run
unfolding shown
history-shown run = ground arith

-- What the guard of `_event` lets through.
room :
    (terminal : Bool) (size sequence bytes : ℕ)
    → (ltb 2000000 size
        || leb (sequence_limit terminal) sequence
        || ltb (bytes_limit terminal) (bytes + size))
      ≡ false
    → (sequence < sequence_limit terminal) × (bytes + size ≤ bytes_limit terminal)
room true size sequence bytes h = ground arith
room false size sequence bytes h = ground arith

module _ {env : Environment} {P : History → Type 0} (stable : Stable env P) where
  abbrev pub Kept : Run → Type 0
  Kept run = P (history_of run)

  abbrev pub Keeps : {A : Type 0} → Tx Run A → Type 0
  Keeps m = Post Kept (λ _. Unit {0}) m

  shown-Kept : (run : Run) → Kept run → Kept (shown run)
  shown-Kept run h = subst P (sym (history-shown run)) h

  pub message_state-Keeps : Keeps message_state
  unfolding message_state
  message_state-Keeps = then_get λ run h. Post-put _ (shown-Kept run h)

  pub save_event-Keeps : (body : EventData) (terminal : Bool) → Keeps (save_event env body terminal)
  unfolding save_event journaled
  save_event-Keeps body terminal = then_get λ run h. then_raise_if _ _ λ fits.
      let (lt, le) = room terminal _ _ _ fits in
      Post-put _ (stable.event (history_of run) _ terminal h refl lt le)

  pub get_row-Post :
      (user run_id : ℕ) (authorize : Bool) → Post Kept Kept (get_row env user run_id authorize)
  unfolding get_row
  get_row-Post user run_id authorize =
      then_get λ run h. then_raise_if _ _ λ _. then_raise_if _ _ λ _. Post-pure run h

  pub guard-Post : (user run_id : ℕ) → Post Kept Kept (guard env user run_id)
  unfolding guard
  guard-Post user run_id =
      Post-bind _ _ (get_row-Post user run_id true)
        λ run h. then_now λ time. then_raise_if _ _ λ _. Post-pure run h

  expire_waiting-Keeps : Keeps (expire_waiting env)
  unfolding expire_waiting
  expire_waiting-Keeps =
      then_do _ (save_event-Keeps _ _) (then_get λ run h. then_put _ h message_state-Keeps)

  expire_running-Keeps : Keeps (expire_running env)
  unfolding expire_running
  expire_running-Keeps = then_do _ (save_event-Keeps _ _) (then_get λ run h. Post-put _ h)

  expire_past-Keeps : (m : Tx Run (Unit {0})) → Keeps m → Keeps (expire_past m)
  unfolding expire_past
  expire_past-Keeps m km = then_get λ run h. then_now λ time. Post-when _ m (λ _. km)

  pub expire-Keeps : Keeps (expire env)
  unfolding expire
  expire-Keeps = then_get λ run h.
      Post-bind _ _ (Post-when _ _ (λ _. expire_past-Keeps _ expire_waiting-Keeps))
        λ _ _. Post-when _ _ (λ _. expire_past-Keeps _ expire_running-Keeps)

  pub owned-Post : (c : RunClaim) (allow check : Bool) → Post Kept Kept (owned env c allow check)
  unfolding owned check_deadline
  owned-Post c allow check = Post-bind _ _ (get_row-Post _ _ _) λ run h. then_now λ time.
      then_raise_if _ _ λ _. then_raise_if _ _ λ _.
        then_do _ (Post-when _ _ (λ _. then_now λ later. Post-weaken _ (Post-raise_if _ _)))
          (Post-pure run h)

  pub heartbeat-Keeps : (c : RunClaim) → Keeps (heartbeat_body env c)
  unfolding heartbeat_body
  heartbeat-Keeps c =
      Post-bind _ _ (owned-Post c _ _) λ run h. then_now λ time. then_put _ h Post-commit

  pub release_busy-Keeps : (c : RunClaim) → Keeps (release_busy_body env c)
  unfolding release_busy_body
  release_busy-Keeps c = Post-bind _ _ (owned-Post c _ _) λ run h. then_now λ time.
      then_put _ h
        (Post-bind _ _ message_state-Keeps λ _ _. then_get λ shown k. then_put _ k Post-commit)

  pub check_owned-Keeps : (c : RunClaim) → Keeps (check_owned_body env c)
  unfolding check_owned_body
  check_owned-Keeps c = Post-bind _ _ (owned-Post c _ _) λ run h. Post-pure tt tt

  settle_failure-Keeps :
      (cancels : Bool) (failure : Failure) (run : Run)
      → Kept run
      → Keeps (settle_failure env cancels failure run)
  unfolding settle_failure
  settle_failure-Keeps true failure run h = then_put _ h (save_event-Keeps _ _)
  settle_failure-Keeps false failure run h = then_put _ h (save_event-Keeps _ _)

  pub finish_failure-Keeps :
      (c : RunClaim) (failure : Failure) → Keeps (finish_failure_body env c failure)
  unfolding finish_failure_body
  finish_failure-Keeps c failure = Post-bind _ _ (owned-Post c _ _) λ run h.
      Post-bind _ _ (settle_failure-Keeps _ failure run h) λ _ _.
        then_get λ settled k. then_put _ k (Post-bind _ _ message_state-Keeps λ _ _. Post-commit)
