-- ===== src/Run/Stable/Writing.antt =====
-- The checkpointed calls and the claim keep a stable predicate of the history.
use learning_qa_assistant.Base.{
  ℕ, Bool, true, false, not, ◌&&◌, ◌≡◌, refl, Option, none, some, List, [], ◌∷◌, leb, ◌<◌, arith,
}
use learning_qa_assistant.Base.Text.{Text}
use learning_qa_assistant.Transaction.Rules.{
  Post, Post-bind, Post-pure, Post-when, Post-when_raises, Post-commit, Post-raise, Post-lift,
  then_get, then_raise_if, then_put, then_commit, then_do, any-OnOk,
}
use learning_qa_assistant.Run.State.{
  Run, RunClaim, Environment, Payload, Operation, Outcome, Artifact,
}
use learning_qa_assistant.Run.Operation.{
  find, same_flag, is_succeeded, start_event, mark_uncertain, retry_operation, begin_again,
  begin_found, new_operation, begin_row, begin_body, tool_event, artifacts_event, save_optional,
  complete_row, complete_operation_body,
}
use learning_qa_assistant.Run.Claim.{settle_cancelled, fail_spent, take_run, claim_with, claim_body}
use learning_qa_assistant.Run.Stable.{
  History, history_of, Stable, opened, rewritten, retried, doubted, finished,
}
use learning_qa_assistant.Run.Stable.Keeping.{
  Kept, Keeps, message_state-Keeps, save_event-Keeps, owned-Post,
}
use learning_qa_assistant.Run.Stable.Answers.{save_checkpoint-Keeps}

not_readonly : (readonly flag : Bool) → flag ≡ readonly → not readonly ≡ true → flag ≡ false
not_readonly true flag e h = cc
not_readonly false flag e h = e

is_readonly : (readonly flag : Bool) → flag ≡ readonly → not readonly ≡ false → flag ≡ true
is_readonly true flag e h = e
is_readonly false flag e h = cc

attempts_left : (n : ℕ) → leb 3 n ≡ false → n < 3
attempts_left n h = ground arith

operations_left : (n : ℕ) → leb 128 n ≡ false → n < 128
operations_left n h = ground arith

started_row : (is_open same : Bool) → not (is_open && same) ≡ false → is_open ≡ true
started_row is_open same h = ground arith

same_call :
    (same : Bool) (row_flag flag : Bool)
    → not (same && same_flag row_flag flag) ≡ false
    → row_flag ≡ flag
same_call same row_flag flag h = ground arith

module _ {env : Environment} {P : History → Type 0} (stable : Stable env P) where
  module _ (claim : RunClaim) (key : Text) where
    start_event-Keeps : (readonly : Bool) → Keeps stable (start_event env claim key readonly)
    unfolding start_event
    start_event-Keeps readonly =
        then_do _ (Post-when _ _ λ _. save_event-Keeps stable _ false)
          (then_commit (Post-pure _ tt))

    mark_uncertain-Post :
        (run : Run) (row : Operation)
        → Kept stable run
        → find key run.operations ≡ some row
        → row.readonly ≡ false
        → is_succeeded row.state ≡ false
        → Post (Kept stable) (λ _. ⊥) (mark_uncertain env claim key run row)
    unfolding mark_uncertain
    mark_uncertain-Post run row h found reads fresh =
        then_put _
          (stable.written (history_of run) _ h (rewritten key row found (doubted reads fresh refl)))
          (then_do _ (Post-when _ _ λ _. save_event-Keeps stable _ false)
            (then_commit (Post-raise _)))

    retry_operation-Keeps :
        (run : Run) (row : Operation) (readonly : Bool)
        → Kept stable run
        → find key run.operations ≡ some row
        → row.readonly ≡ readonly
        → is_succeeded row.state ≡ false
        → Keeps stable (retry_operation env claim key run row readonly)
    unfolding retry_operation
    retry_operation-Keeps run row readonly h found reads fresh = then_raise_if _ _ λ _.
        Post-bind _ _
          (Post-when_raises _ _ λ e.
            mark_uncertain-Post run row h found (not_readonly readonly row.readonly reads e) fresh)
          λ _ is_read. then_raise_if _ _ λ few.
            then_put _
              (stable.written (history_of run) _ h (
                rewritten key row found (
                  retried claim.generation (is_readonly readonly row.readonly reads is_read) fresh
                    (attempts_left _ few) refl)))
              (start_event-Keeps readonly)

    begin_again-Keeps :
        (confirmed : Bool) (run : Run) (row : Operation) (readonly : Bool)
        → is_succeeded row.state ≡ confirmed
        → Kept stable run
        → find key run.operations ≡ some row
        → row.readonly ≡ readonly
        → Keeps stable (begin_again env claim key confirmed run row readonly)
    unfolding begin_again
    begin_again-Keeps true run row readonly c h found reads = Post-pure _ tt
    begin_again-Keeps false run row readonly c h found reads =
        retry_operation-Keeps run row readonly h found reads c

    pub begin_row-Keeps :
        (run : Run) (o : Option Operation) (inputs : ℕ) (readonly : Bool)
        → find key run.operations ≡ o
        → Kept stable run
        → Keeps stable (begin_row env claim key run o inputs readonly)
    unfolding begin_row begin_found new_operation
    begin_row-Keeps run (some row) inputs readonly found h = then_raise_if _ _ λ same.
        begin_again-Keeps _ run row readonly refl h found (same_call _ row.readonly readonly same)
    begin_row-Keeps run none inputs readonly found h = then_raise_if _ _ λ few.
        then_put _
          (stable.written (history_of run) _ h (opened found (operations_left _ few) refl refl))
          (start_event-Keeps readonly)

    pub begin-Keeps :
        (inputs : ℕ) (readonly : Bool) → Keeps stable (begin_body env claim key inputs readonly)
    unfolding begin_body
    begin-Keeps inputs readonly = then_do _ (Post-lift _ (any-OnOk _)) (
        then_raise_if _ _ λ _.
          Post-bind _ _ (owned-Post stable claim false true)
            λ run h. begin_row-Keeps run _ inputs readonly refl h)

    tool_event-Keeps :
        (failed : Bool) (outcome : Outcome) → Keeps stable (tool_event env claim key failed outcome)
    unfolding tool_event
    tool_event-Keeps true outcome = save_event-Keeps stable _ false
    tool_event-Keeps false outcome = save_event-Keeps stable _ false

    artifacts_event-Keeps :
        (artifacts : List Artifact) → Keeps stable (artifacts_event env claim key artifacts)
    unfolding artifacts_event
    artifacts_event-Keeps [] = Post-pure tt tt
    artifacts_event-Keeps (a ∷ rest) = save_event-Keeps stable _ false

    save_optional-Keeps :
        (payload : Option Payload) → Keeps stable (save_optional env claim key payload)
    unfolding save_optional
    save_optional-Keeps none = Post-pure tt tt
    save_optional-Keeps (some payload) =
        Post-bind _ _ (save_checkpoint-Keeps stable payload) λ _ _. Post-pure tt tt

    complete_row-Keeps :
        (run : Run) (o : Option Operation) (outcome : Outcome) (payload : Option Payload)
        → find key run.operations ≡ o
        → Kept stable run
        → Keeps stable (complete_row env claim key run o outcome payload)
    unfolding complete_row
    complete_row-Keeps run none outcome payload found h = Post-raise _
    complete_row-Keeps run (some row) outcome payload found h = then_raise_if _ _ λ open_row.
        then_put _
          (stable.written (history_of run) _ h
            (rewritten key row found (finished outcome (started_row _ _ open_row) refl)))
          (then_do _ (Post-when _ _ λ _. tool_event-Keeps _ outcome) (
            then_do _ (Post-when _ _ λ _. artifacts_event-Keeps _)
              (then_do _ (save_optional-Keeps payload) Post-commit)))

    pub complete_operation-Keeps :
        (outcome : Outcome) (payload : Option Payload)
        → Keeps stable (complete_operation_body env claim key outcome payload)
    unfolding complete_operation_body
    complete_operation-Keeps outcome payload = then_raise_if _ _ λ _.
        Post-bind _ _ (owned-Post stable claim false true)
          λ run h. complete_row-Keeps run _ outcome payload refl h

  pub settle_cancelled-Keeps : Keeps stable (settle_cancelled env)
  unfolding settle_cancelled
  settle_cancelled-Keeps = then_get λ run h. then_put _ h (
      then_do _ (message_state-Keeps stable)
        (then_get λ shown k. then_put _ k (save_event-Keeps stable _ true)))

  claim_with-Keeps :
      (spent : Bool) (token time left : ℕ) → Keeps stable (claim_with env spent token time left)
  unfolding claim_with fail_spent take_run
  claim_with-Keeps true token time left = then_get λ run h. then_put _ h (
      then_do _ (message_state-Keeps stable)
        (then_do _ (save_event-Keeps stable _ true) (then_commit (Post-pure _ tt))))
  claim_with-Keeps false token time left = then_get λ run h.
      then_put _ (stable.claimed (history_of run) h) (
        then_do _ (message_state-Keeps stable)
          (then_do _ (save_event-Keeps stable _ false) (then_commit (Post-pure _ tt))))

  pub claim-Keeps : (token time : ℕ) → Keeps stable (claim_body env token time)
  unfolding claim_body
  claim-Keeps token time = then_get λ run h. claim_with-Keeps _ token time _
