-- ===== src/Run/Stable/Answers.antt =====
-- The answer's calls, the checkpoints, pausing and resuming keep a stable predicate of the history.
use learning_qa_assistant.Base.{ℕ, Bool, true, false, refl, Option, none, some, List}
use learning_qa_assistant.Base.Text.{Text}
use learning_qa_assistant.Transaction.{Tx, Failure, Code}
use learning_qa_assistant.Transaction.Rules.{
  Post, Post-bind, Post-get, Post-put, Post-raise_if, Post-weaken, Post-pure, Post-when,
  Post-commit, Post-raise, Post-lift, then_get, then_raise_if, then_put, then_now, then_commit,
  then_do, any-OnOk,
}
use learning_qa_assistant.Run.State.{Run, RunClaim, Environment, EventData, Payload, Receipt}
use learning_qa_assistant.Run.Answer.{
  held, append_data, append_body, StreamEvent, stream_data, context_event, complete, Answer,
  fail_running, fail_body, read_body,
}
use learning_qa_assistant.Run.Checkpoint.{
  save_checkpoint, checkpoint_body, load_checkpoint_body, request_cancel_body, pause_body,
}
use learning_qa_assistant.Run.Resume.{
  raise_some, check_approval, check_public, expire_resume, store_resumed, resume_new, resume_seen,
  resume_retry, resume_checked, resume_public, resume_body,
}
use learning_qa_assistant.Run.Stable.{History, history_of, Stable}
use learning_qa_assistant.Run.Stable.Keeping.{
  Kept, Keeps, message_state-Keeps, save_event-Keeps, get_row-Post, guard-Post, expire-Keeps,
  owned-Post,
}

module _ {env : Environment} {P : History → Type 0} (stable : Stable env P) where
  held-Post :
      (c : Option RunClaim) (user run_id : ℕ)
      → Post (Kept stable) (Kept stable) (held env c user run_id)
  unfolding held
  held-Post (some c) user run_id = owned-Post stable c false true
  held-Post none user run_id = guard-Post stable user run_id

  append_data-Keeps :
      (body : Option EventData) (c : Option RunClaim) (user run_id : ℕ)
      → Keeps stable (append_data env body c user run_id)
  unfolding append_data
  append_data-Keeps none c user run_id = Post-raise _
  append_data-Keeps (some body) c user run_id =
      Post-bind _ _ (held-Post c user run_id)
        λ run h. then_raise_if _ _ λ _. then_do _ (save_event-Keeps stable body false) Post-commit

  pub append-Keeps :
      (event : StreamEvent) (c : Option RunClaim) (user run_id : ℕ)
      → Keeps stable (append_body env event c user run_id)
  unfolding append_body
  append-Keeps event c user run_id = append_data-Keeps (stream_data event) c user run_id

  context_event-Keeps : (detail : Option ℕ) → Keeps stable (context_event env detail)
  unfolding context_event
  context_event-Keeps none = Post-pure tt tt
  context_event-Keeps (some detail) = save_event-Keeps stable _ true

  pub complete-Keeps :
      (c : Option RunClaim) (user run_id : ℕ) (answer : Answer)
      → Keeps stable (complete env c user run_id answer)
  unfolding complete
  complete-Keeps c user run_id answer = Post-bind _ _ (held-Post c user run_id) λ run h.
      then_raise_if _ _ λ _. then_do _ (context_event-Keeps answer.context) (
        then_do _ (save_event-Keeps stable _ true)
          (then_do _ (save_event-Keeps stable _ true) (then_get λ saved k. Post-put _ k)))

  fail_running-Keeps : (failure : Failure) → Keeps stable (fail_running env failure)
  unfolding fail_running
  fail_running-Keeps failure = then_get λ run h.
      Post-when _ _
        λ _. then_do _ (save_event-Keeps stable _ true) (then_get λ failing k. Post-put _ k)

  pub fail-Keeps :
      (user run_id : ℕ) (failure : Failure) → Keeps stable (fail_body env user run_id failure)
  unfolding fail_body
  fail-Keeps user run_id failure = Post-bind _ _ (get_row-Post stable user run_id true) λ run h.
      Post-when _ _
        λ _. then_do _ (expire-Keeps stable) (then_do _ (fail_running-Keeps failure) Post-commit)

  pub read-Keeps : (user run_id after : ℕ) → Keeps stable (read_body env user run_id after)
  unfolding read_body
  read-Keeps user run_id after = Post-bind _ _ (get_row-Post stable user run_id true) λ _ _.
      then_do _ (expire-Keeps stable)
        (then_get λ run h. then_raise_if _ _ λ _. then_commit (Post-pure _ tt))

  pub save_checkpoint-Keeps : (payload : Payload) → Keeps stable (save_checkpoint env payload)
  unfolding save_checkpoint
  save_checkpoint-Keeps payload =
      then_raise_if _ _
        λ _. then_get λ run h. then_put _ (stable.saved (history_of run) _ h refl) (Post-pure _ tt)

  pub checkpoint-Keeps :
      (c : RunClaim) (payload : Payload) → Keeps stable (checkpoint_body env c payload)
  unfolding checkpoint_body
  checkpoint-Keeps c payload = Post-bind _ _ (owned-Post stable c false true) λ _ _.
      Post-bind _ _ (save_checkpoint-Keeps payload) λ revision _. then_commit (Post-pure _ tt)

  pub load_checkpoint-Keeps : (c : RunClaim) → Keeps stable (load_checkpoint_body env c)
  unfolding load_checkpoint_body
  load_checkpoint-Keeps c =
      Post-bind _ _ (owned-Post stable c false true) λ _ _. then_get λ run h. Post-pure _ tt

  pub request_cancel-Keeps : (user run_id : ℕ) → Keeps stable (request_cancel_body env user run_id)
  unfolding request_cancel_body
  request_cancel-Keeps user run_id = Post-bind _ _ (get_row-Post stable user run_id true) λ run h.
      then_do _
        (Post-when _ _ λ _. then_now λ time.
          then_put _ h (then_do _ (message_state-Keeps stable) (save_event-Keeps stable _ _)))
        (then_commit (Post-weaken _ Post-get))

  pub pause-Keeps :
      (token : ℕ) (c : RunClaim) (payload : Payload) (question : Text)
      → Keeps stable (pause_body env token c payload question)
  unfolding pause_body
  pause-Keeps token c payload question = then_raise_if _ _ λ _.
      Post-bind _ _ (owned-Post stable c false true) λ _ _.
        Post-bind _ _ (save_checkpoint-Keeps payload) λ revision _. then_now λ time.
          then_get λ run h. then_raise_if _ _ λ _. then_put _ h (
            then_do _ (message_state-Keeps stable)
              (then_get λ paused k. then_do _ (save_event-Keeps stable _ false) Post-commit))

  raise_some-Keeps : (code : Option Code) → Keeps stable (raise_some env code)
  unfolding raise_some
  raise_some-Keeps none = Post-pure tt tt
  raise_some-Keeps (some code) = Post-raise code

  check_approval-Keeps :
      (user : ℕ) (run : Run) (approval : Option ℕ)
      → Keeps stable (check_approval env user run approval)
  unfolding check_approval
  check_approval-Keeps user run none = Post-pure tt tt
  check_approval-Keeps user run (some approval) =
      then_do _ (raise_some-Keeps _) (then_raise_if _ _ λ _. raise_some-Keeps _)

  check_public-Keeps :
      (user : ℕ) (run : Run) (query : Option Text) → Keeps stable (check_public env user run query)
  unfolding check_public
  check_public-Keeps user run none = Post-pure tt tt
  check_public-Keeps user run (some query) = then_raise_if _ _ λ _. raise_some-Keeps _

  expire_resume-Keeps : Keeps stable (expire_resume env)
  unfolding expire_resume
  expire_resume-Keeps = then_get λ run h. then_put _ h (
      then_do _ (message_state-Keeps stable)
        (then_do _ (save_event-Keeps stable _ true) (then_commit (Post-raise _))))

  store_resumed-Keeps :
      (public_inputs : Option (Option (List (Option Text)))) (payload : Payload) (receipt : Receipt)
      (supplement : Text)
      → Keeps stable (store_resumed env public_inputs payload receipt supplement)
  unfolding store_resumed
  store_resumed-Keeps none payload receipt supplement = Post-raise _
  store_resumed-Keeps (some public_inputs) payload receipt supplement =
      Post-bind _ _ (save_checkpoint-Keeps _) λ _ _. Post-pure tt tt

  resume_new-Keeps :
      (user : ℕ) (receipt : Receipt) (supplement : Text) (query : Option Text)
      → Keeps stable (resume_new env user receipt supplement query)
  unfolding resume_new
  resume_new-Keeps user receipt supplement query = then_get λ run h. then_raise_if _ _ λ _.
      then_do _ (check_approval-Keeps user run _) (
        then_do _ (check_public-Keeps user run query) (
          then_now λ time. then_do _ (Post-when _ _ λ _. expire_resume-Keeps) (
            then_do _ (store_resumed-Keeps _ _ _ _) (
              then_get λ stored k. then_put _ k (
                then_do _ (message_state-Keeps stable)
                  (then_do _ (save_event-Keeps stable _ false) Post-commit))))))

  resume_retry-Keeps :
      (same_key : Bool) (seen : Receipt) (user : ℕ) (receipt : Receipt) (supplement : Text)
      (query : Option Text)
      → Keeps stable (resume_retry env same_key seen user receipt supplement query)
  unfolding resume_retry
  resume_retry-Keeps true seen user receipt supplement query = Post-weaken _ (Post-raise_if _ _)
  resume_retry-Keeps false seen user receipt supplement query =
      resume_new-Keeps user receipt supplement query

  resume_seen-Keeps :
      (seen : Option Receipt) (user : ℕ) (receipt : Receipt) (supplement : Text)
      (query : Option Text)
      → Keeps stable (resume_seen env seen user receipt supplement query)
  unfolding resume_seen
  resume_seen-Keeps none user receipt supplement query =
      resume_new-Keeps user receipt supplement query
  resume_seen-Keeps (some seen) user receipt supplement query =
      resume_retry-Keeps _ seen user receipt supplement query

  resume_checked-Keeps :
      (user run_id revision key : ℕ) (supplement : Text) (query : Option Text)
      → Keeps stable (resume_checked env user run_id revision key supplement query)
  unfolding resume_checked
  resume_checked-Keeps user run_id revision key supplement query =
      Post-bind _ _ (get_row-Post stable user run_id true)
        λ run h. resume_seen-Keeps _ user _ supplement query

  resume_public-Keeps :
      (query : Option Text) (body : Option Text → Tx Run (Unit {0}))
      → ((prepared : Option Text) → Keeps stable (body prepared))
      → Keeps stable (resume_public env query body)
  unfolding resume_public
  resume_public-Keeps none body kept = kept none
  resume_public-Keeps (some query) body kept =
      then_raise_if _ _ λ _.
        Post-bind _ _ (Post-lift (env.prepare_public_query _) (any-OnOk _)) λ prepared _. kept _

  pub resume-Keeps :
      (user run_id revision key : ℕ) (supplement : Text) (query : Option Text)
      → Keeps stable (resume_body env user run_id revision key supplement query)
  unfolding resume_body
  resume-Keeps user run_id revision key supplement query =
      then_raise_if _ _
        λ _. resume_public-Keeps query _ (resume_checked-Keeps user run_id revision key _)
