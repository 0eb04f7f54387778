-- ===== src/Run/Terminal.antt =====
-- No call changes a run that has ended.
use learning_qa_assistant.Base.{
  ℕ, Bool, true, false, not, ◌&&◌, ◌||◌, ◌≡◌, refl, Option, none, some, arith, leb, ◌==◌,
}
use learning_qa_assistant.Base.Text.{Text}
use learning_qa_assistant.Transaction.{Tx, Failure}
use learning_qa_assistant.Transaction.Rules.{
  Post, Post-bind, Post-raise, Post-raise_if, Post-weaken, Post-lift, Post-pure, Post-when,
  Post-commit, Post-get, any-OnOk, then_get, then_raise_if, then_now, then_do, transaction-Post,
}
use learning_qa_assistant.Run.State.{
  Run, RunClaim, Environment, Receipt, EventData, is_terminal, is_running, is_waiting,
}
use learning_qa_assistant.Run.Journal.{get_row, guard, expire}
use learning_qa_assistant.Run.Owner.{not_held}
use learning_qa_assistant.Run.Answer.{
  StreamEvent, append_body, append_data, stream_data, Answer, complete, held, fail_body, read_body,
}
use learning_qa_assistant.Run.Checkpoint.{request_cancel_body}
use learning_qa_assistant.Run.Resume.{
  resume_body, resume_public, resume_checked, resume_seen, resume_retry, resume_new,
}
use learning_qa_assistant.Base.{inl, inr, ◌⊎◌, ◌≢◌}
use learning_qa_assistant.Run.Claim.{is_abandoned, is_claimable, is_expired_waiting}
use learning_qa_assistant.Run.Calls.{
  WorkerCall, Call, worker, expire_waiting, settle, claim, read, request_cancel, resume,
  append_direct, complete_direct, fail, call_tx, perform,
}
use learning_qa_assistant.Run.Fencing.{unheld_refused}

not_held-ended :
    (run : Run) (c : RunClaim) (time : ℕ)
    → is_terminal run.state ≡ true
    → not_held run c time ≡ true
not_held-ended run c time h = ground arith

module _ (env : Environment) (ended : Run) (over : is_terminal ended.state ≡ true) where
  -- The run is as it ended.
  abbrev Same : Run → Type 0
  Same run = run ≡ ended

  abbrev Frozen : {A : Type 0} → Tx Run A → Type 0
  Frozen m = Post Same (λ _. Unit {0}) m

  still_over : (run : Run) → Same run → is_terminal run.state ≡ true
  still_over run e = rw e over

  not_running : (run : Run) → Same run → is_running run.state ≡ false
  not_running run e = ground (arith, still_over run e)

  not_waiting : (run : Run) → Same run → is_waiting run.state ≡ false
  not_waiting run e = ground (arith, still_over run e)

  get_row-Same :
      (user run_id : ℕ) (authorize : Bool) → Post Same Same (get_row env user run_id authorize)
  unfolding get_row
  get_row-Same user run_id authorize =
      then_get λ run h. then_raise_if _ _ λ _. then_raise_if _ _ λ _. Post-pure run h

  guard-refuses : (user run_id : ℕ) → Post Same (λ _. ⊥) (guard env user run_id)
  unfolding guard
  guard-refuses user run_id =
      Post-bind _ _ (get_row-Same user run_id true)
        λ run h. then_now λ time. then_raise_if _ _ λ live. absurd (ended_live run h time live)
    where
      ended_live :
          (run : Run)
          → Same run
          → (time : ℕ) → (not (is_running run.state) || leb run.expires_at time) ≡ false
          → ⊥
      ended_live run h time live = ground (arith, still_over run h)

  append_data-Frozen :
      (o : Option EventData) (user run_id : ℕ) → Frozen (append_data env o none user run_id)
  unfolding append_data held
  append_data-Frozen none user run_id = Post-raise _
  append_data-Frozen (some body) user run_id =
      Post-bind _ _ (guard-refuses user run_id) λ run h. absurd h

  append-Frozen :
      (event : StreamEvent) (user run_id : ℕ) → Frozen (append_body env event none user run_id)
  unfolding append_body
  append-Frozen event user run_id = append_data-Frozen (stream_data event) user run_id

  complete-Frozen :
      (user run_id : ℕ) (answer : Answer) → Frozen (complete env none user run_id answer)
  unfolding complete held
  complete-Frozen user run_id answer = Post-bind _ _ (guard-refuses user run_id) λ run h. absurd h

  expire-Frozen : Frozen (expire env)
  unfolding expire
  expire-Frozen = then_get λ run h.
      then_do _ (Post-when _ _ λ waits. absurd (cc (not_waiting run h, waits)))
        (Post-when _ _ λ runs. absurd (never run h runs))
    where
      never : (run : Run) → Same run → (is_running run.state && run.generation == 0) ≡ true → ⊥
      never run h runs = ground (arith, not_running run h)

  resume_new-Frozen :
      (user : ℕ) (receipt : Receipt) (supplement : Text) (query : Option Text)
      → Frozen (resume_new env user receipt supplement query)
  unfolding resume_new
  resume_new-Frozen user receipt supplement query =
      then_get λ run h. then_raise_if _ _ λ fits. absurd (never run h _ _ fits)
    where
      never :
          (run : Run) → Same run → (a b : Bool) → not (is_waiting run.state && a && b) ≡ false → ⊥
      never run h a b fits = ground (arith, not_waiting run h)

  resume_retry-Frozen :
      (same : Bool) (seen : Receipt) (user : ℕ) (receipt : Receipt) (supplement : Text)
      (query : Option Text)
      → Frozen (resume_retry env same seen user receipt supplement query)
  unfolding resume_retry
  resume_retry-Frozen true seen user receipt supplement query = Post-weaken _ (Post-raise_if _ _)
  resume_retry-Frozen false seen user receipt supplement query =
      resume_new-Frozen user receipt supplement query

  resume_seen-Frozen :
      (o : Option Receipt) (user : ℕ) (receipt : Receipt) (supplement : Text) (query : Option Text)
      → Frozen (resume_seen env o user receipt supplement query)
  unfolding resume_seen
  resume_seen-Frozen none user receipt supplement query =
      resume_new-Frozen user receipt supplement query
  resume_seen-Frozen (some seen) user receipt supplement query =
      resume_retry-Frozen _ seen user receipt supplement query

  resume_checked-Frozen :
      (user run_id revision key : ℕ) (supplement : Text) (query : Option Text)
      → Frozen (resume_checked env user run_id revision key supplement query)
  unfolding resume_checked
  resume_checked-Frozen user run_id revision key supplement query =
      Post-bind _ _ (get_row-Same _ _ _) λ run h. resume_seen-Frozen _ user _ supplement query

  resume-Frozen :
      (user run_id revision key : ℕ) (supplement : Text) (query : Option Text)
      → Frozen (resume_body env user run_id revision key supplement query)
  unfolding resume_body resume_public
  resume-Frozen user run_id revision key supplement none =
      then_raise_if _ _ λ _. resume_checked-Frozen user run_id revision key _ none
  resume-Frozen user run_id revision key supplement (some query) = then_raise_if _ _ λ _.
      then_raise_if _ _ λ _.
        Post-bind _ _ (Post-lift _ (any-OnOk _))
          λ prepared _. resume_checked-Frozen user run_id revision key _ (some prepared)

  read-Frozen : (user run_id after : ℕ) → Frozen (read_body env user run_id after)
  unfolding read_body
  read-Frozen user run_id after = Post-bind _ _ (get_row-Same _ _ _) λ run h.
      then_do _ expire-Frozen
        (then_get λ current k. then_raise_if _ _ λ _. then_do _ Post-commit (Post-pure _ tt))

  request_cancel-Frozen : (user run_id : ℕ) → Frozen (request_cancel_body env user run_id)
  unfolding request_cancel_body
  request_cancel-Frozen user run_id = Post-bind _ _ (get_row-Same _ _ _) λ run h.
      then_do _ (Post-when _ _ λ open_run. absurd (ended_open run h _ open_run))
        (then_do _ Post-commit (Post-weaken _ Post-get))
    where
      ended_open :
          (run : Run) → Same run → (b : Bool) → (not (is_terminal run.state) && b) ≡ true → ⊥
      ended_open run h b open_run = ground (arith, still_over run h)

  fail-Frozen : (user run_id : ℕ) (failure : Failure) → Frozen (fail_body env user run_id failure)
  unfolding fail_body
  fail-Frozen user run_id failure =
      Post-bind _ _ (get_row-Same _ _ _)
        λ run h. Post-when _ _ λ runs. absurd (cc (not_running run h, runs))

  call-Frozen :
      (call : Call)
      → ((c : RunClaim) (w : WorkerCall) → call ≢ worker c w)
      → Frozen (call_tx env call)
  unfolding call_tx
  call-Frozen (worker c w) other = absurd (other c w refl)
  call-Frozen (expire_waiting time) other =
      then_get λ run h. Post-when _ _ λ due. absurd (never run h due)
    where
      never : (run : Run) → Same run → is_expired_waiting env.kind time run ≡ true → ⊥
      never run h due = ground (arith, not_waiting run h)
  call-Frozen (settle time) other = then_get λ run h. Post-when _ _ λ due. absurd (never run h due)
    where
      never : (run : Run) → Same run → is_abandoned env.kind time run ≡ true → ⊥
      never run h due = ground (arith, still_over run h)
  call-Frozen (claim token time) other =
      then_get λ run h. Post-when _ _ λ due. absurd (never run h due)
    where
      never : (run : Run) → Same run → is_claimable env.kind time none run ≡ true → ⊥
      never run h due = ground (arith, still_over run h)
  call-Frozen (read user run_id after) other =
      Post-bind _ _ (read-Frozen user run_id after) λ _ _. Post-pure tt tt
  call-Frozen (request_cancel user run_id) other =
      Post-bind _ _ (request_cancel-Frozen user run_id) λ _ _. Post-pure tt tt
  call-Frozen (resume user run_id revision key supplement query) other =
      resume-Frozen user run_id revision key supplement query
  call-Frozen (append_direct user run_id event) other = append-Frozen event user run_id
  call-Frozen (complete_direct user run_id answer) other =
      then_do _ (complete-Frozen user run_id answer) Post-commit
  call-Frozen (fail user run_id failure) other = fail-Frozen user run_id failure

is_worker :
    (call : Call)
    → ((c : RunClaim) × (w : WorkerCall) × (call ≡ worker c w))
      ⊎ ((c : RunClaim) (w : WorkerCall) → call ≢ worker c w)
is_worker (worker c w) = inl (c, w, refl)
is_worker (expire_waiting t) = inr λ c w e. cc
is_worker (settle t) = inr λ c w e. cc
is_worker (claim k t) = inr λ c w e. cc
is_worker (read u r a) = inr λ c w e. cc
is_worker (request_cancel u r) = inr λ c w e. cc
is_worker (resume u r v k s q) = inr λ c w e. cc
is_worker (append_direct u r e) = inr λ c w e'. cc
is_worker (complete_direct u r a) = inr λ c w e. cc
is_worker (fail u r f) = inr λ c w e. cc

pub perform-ended :
    (env : Environment) (call : Call) (clock : ℕ → ℕ) (run : Run)
    → is_terminal run.state ≡ true
    → (perform env call clock run).1 ≡ run
unfolding perform
perform-ended env call clock run over = elim (is_worker call) [
  | inl (c, w, e) ↦
      rw e ((unheld_refused env c w clock run (not_held-ended run c (clock 0) over)).1)
  | inr other ↦
      transaction-Post (call_tx env call) clock run (call-Frozen env run over call other) refl
]
