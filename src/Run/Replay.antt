-- ===== src/Run/Replay.antt =====
-- A confirmed call is replayed: its saved outcome is returned, and the call is not made again.
use learning_qa_assistant.Base.{
  ℕ, Bool, true, false, ◌≡◌, refl, Option, none, some, List, [], ◌∷◌, arith, inl, inr, ◌∙◌, ap, sym,
  ◌⊎◌,
}
use learning_qa_assistant.Base.Text.{Text, text_eq_refl}
use learning_qa_assistant.Transaction.{
  Session, Result, ok, err, Tx, transaction, continue, pure, put, commit, raise, when, ◌>>=◌,
}
use learning_qa_assistant.Transaction.Rules.{
  >>=-eq-ok, transaction-eq-ok, transaction-OnOk, Post, Post-and, Post-bind, Post-lift, OnOk,
  OnOk-at, any-OnOk, then_do, then_raise_if,
}
use learning_qa_assistant.Run.State.{
  Run, RunClaim, Environment, Operation, Outcome, Artifact, Payload, EventData, succeeded,
}
use learning_qa_assistant.Run.Journal.{save_event, journaled}
use learning_qa_assistant.Run.Checkpoint.{save_checkpoint}
use learning_qa_assistant.Run.Operation.{
  find, store, is_succeeded, Leave, replay, begin_row, begin_found, begin_again, begin_body,
  tool_event, artifacts_event, save_optional, complete_row, complete_operation_body,
}
use learning_qa_assistant.Run.Calls.{Call, run_history}
use learning_qa_assistant.Run.Stable.{History, history_of, Stable, Rewrites}
use learning_qa_assistant.Run.Operations.{Writes-find, Rewrites-fresh, find-store, find-key}
use learning_qa_assistant.Run.Stable.Keeping.{Kept, owned-Post}
use learning_qa_assistant.Run.Stable.Writing.{begin_row-Keeps}
use learning_qa_assistant.Run.Stable.Preserved.{run_history-stable}

-- The key has this confirmed row.
abbrev pub IsConfirmed : Text → Operation → History → Type 0
IsConfirmed key row h = (find key h.operations ≡ some row) × (is_succeeded row.state ≡ true)

IsConfirmed-Stable :
    (env : Environment) (key : Text) (row : Operation) → Stable env (IsConfirmed key row)
IsConfirmed-Stable env key row = record {
  event = λ h e b p _ _ _. p;
  claimed = λ h p. p;
  saved = λ h c p _. p;
  written =
      λ h new p w. (kept h.operations new p.1 (Writes-find key h.operations new row w p.0), p.1);
}
  where
    kept :
        (rows : List Operation) (new : Operation)
        → is_succeeded row.state ≡ true
        → (find key (store new rows) ≡ some row)
          ⊎ ((find key (store new rows) ≡ some new) × Rewrites row new)
        → find key (store new rows) ≡ some row
    kept rows new done (inl e) = e
    kept rows new done (inr (e, change)) = absurd (cc (Rewrites-fresh change, done))

-- A body that returns with the operations as they were.
abbrev Untouching : {A : Type 0} → Tx Run A → Type 0
Untouching {A} m =
    (s t : Session Run) (a : A) → m s ≡ (ok a, t) → t.work.operations ≡ s.work.operations

module _ (env : Environment) where
  save_event-Untouching :
      (body : EventData) (terminal : Bool) → Untouching (save_event env body terminal)
  unfolding save_event journaled ◌>>=◌
  save_event-Untouching body terminal s t a h = ground arith

  save_checkpoint-Untouching : (payload : Payload) → Untouching (save_checkpoint env payload)
  unfolding save_checkpoint ◌>>=◌
  save_checkpoint-Untouching payload s t a h = ground arith

when-Untouching : (b : Bool) (m : Tx Run (Unit {0})) → Untouching m → Untouching (when b m)
unfolding when
when-Untouching true m k s t a h = k s t a h
when-Untouching false m k s t a h = ap (λ p. p.1.work.operations) (sym h)

module _ (env : Environment) (c : RunClaim) (key : Text) where
  tool_event-Untouching :
      (failed : Bool) (outcome : Outcome) → Untouching (tool_event env c key failed outcome)
  unfolding tool_event
  tool_event-Untouching true outcome = save_event-Untouching env _ false
  tool_event-Untouching false outcome = save_event-Untouching env _ false

  artifacts_event-Untouching :
      (artifacts : List Artifact) → Untouching (artifacts_event env c key artifacts)
  unfolding artifacts_event ◌>>=◌
  artifacts_event-Untouching [] s t a h = ap (λ p. p.1.work.operations) (sym h)
  artifacts_event-Untouching (x ∷ rest) s t a h = save_event-Untouching env _ false s t a h

  save_optional-Untouching :
      (payload : Option Payload) → Untouching (save_optional env c key payload)
  unfolding save_optional pure
  save_optional-Untouching none s t a h = ap (λ p. p.1.work.operations) (sym h)
  save_optional-Untouching (some payload) s t a h =
      let (_, u, e, k) = >>=-eq-ok _ _ s t a h in
      ap (λ p. p.1.work.operations) (sym k) ∙ save_checkpoint-Untouching env payload s u _ e

  complete_row-saved :
      (run : Run) (o : Option Operation) (outcome : Outcome) (payload : Option Payload)
      (s t : Session Run)
      → find key run.operations ≡ o
      → complete_row env c key run o outcome payload s ≡ (ok tt, t)
      → (row : Operation) × (find key t.saved.operations ≡ some row)
        × (row.state ≡ succeeded)
        × (row.result ≡ some outcome)
  unfolding complete_row put commit raise
  complete_row-saved run none outcome payload s t found h = absurd (cc (ap (λ p. p.0) h))
  complete_row-saved run (some row) outcome payload s t found h =
      let (_, s1, _, h1) = >>=-eq-ok _ _ s t tt h in
      let (_, s2, e2, h2) = >>=-eq-ok _ _ s1 t tt h1 in
      let (_, s3, e3, h3) = >>=-eq-ok _ _ s2 t tt h2 in
      let (_, s4, e4, h4) = >>=-eq-ok _ _ s3 t tt h3 in
      let (_, s5, e5, h5) = >>=-eq-ok _ _ s4 t tt h4 in
      let new : Operation = record row { state = succeeded; result = some outcome } in
      let rows : t.saved.operations ≡ store new run.operations =
        ap (λ p. p.1.saved.operations) (sym h5)
        ∙ save_optional-Untouching payload s4 s5 _ e5
        ∙ when-Untouching _ _ (artifacts_event-Untouching _) s3 s4 _ e4
        ∙ when-Untouching _ _ (tool_event-Untouching _ outcome) s2 s3 _ e3
        ∙ ap (λ p. p.1.work.operations) (sym e2) in
      let same = find-key key run.operations found in
      (new, cc (rows, find-store key new run.operations, same, text_eq_refl key), refl, refl)

  complete-saved :
      (outcome : Outcome) (payload : Option Payload) (clock : ℕ → ℕ) (run : Run)
      → (transaction (complete_operation_body env c key outcome payload) clock run).0 ≡ ok tt
      → let after = (transaction (complete_operation_body env c key outcome payload) clock run).1 in
        (row : Operation) × IsConfirmed key row (history_of after) × (row.result ≡ some outcome)
  unfolding complete_operation_body
  complete-saved outcome payload clock run h =
      let (t, e, saved) =
        transaction-eq-ok (complete_operation_body env c key outcome payload) clock run tt h in
      let (_, u, _, k) = >>=-eq-ok _ _ _ t tt e in
      let (held, v, _, k') = >>=-eq-ok _ _ u t tt k in
      let (row, found, done, result) = complete_row-saved held _ outcome payload v t refl k' in
      (row, (cc (found, ap (λ r. r.operations) saved), cc done), result)

  OnOk-continue :
      (r : Result (Unit {0})) (l : Leave) (s : Session Run)
      → OnOk (λ x. x ≡ l) (continue r (λ _. pure l) s).0
  unfolding pure
  OnOk-continue (ok a) l s = refl
  OnOk-continue (err e) l s = tt

  -- Beginning a confirmed call returns its row's result, or raises.
  begin_row-confirmed :
      (run : Run) (row : Operation) (inputs : ℕ) (readonly : Bool) (s : Session Run)
      → is_succeeded row.state ≡ true
      → OnOk (λ l. l ≡ replay row.result) (begin_row env c key run (some row) inputs readonly s).0
  unfolding begin_row begin_found begin_again ◌>>=◌
  begin_row-confirmed run row inputs readonly s done = rw done (OnOk-continue _ _ s)

  begin-replays :
      (row : Operation) (inputs : ℕ) (readonly : Bool)
      → Post
          (Kept (IsConfirmed-Stable env key row))
          (λ l. l ≡ replay row.result)
          (begin_body env c key inputs readonly)
  unfolding begin_body
  begin-replays row inputs readonly =
      let stable = IsConfirmed-Stable env key row in
      then_do _ (Post-lift _ (any-OnOk _)) (
        then_raise_if _ _ λ _. Post-bind _ _ (owned-Post stable c false true) λ run h. rw (h.0) (
          Post-and _ (begin_row-Keeps stable c key run (some row) inputs readonly h.0 h)
            (λ s. begin_row-confirmed run row inputs readonly s h.1)))

-- Once a worker has confirmed a call, whoever begins it again, after any history of other calls
-- on the run, is given exactly the confirmed outcome, or an error; it is never let through.
pub confirmed_replays :
    (env : Environment) (c c' : RunClaim) (key : Text) (outcome : Outcome)
    (payload : Option Payload) (inputs : ℕ) (readonly : Bool) (clock clock' : ℕ → ℕ)
    (calls : List (Call × (ℕ → ℕ))) (run : Run) (l : Leave)
    → (transaction (complete_operation_body env c key outcome payload) clock run).0 ≡ ok tt
    → let after =
        run_history env calls
          (transaction (complete_operation_body env c key outcome payload) clock run).1 in
      (transaction (begin_body env c' key inputs readonly) clock' after).0 ≡ ok l
      → l ≡ replay (some outcome)
confirmed_replays env c c' key outcome payload inputs readonly clock clock' calls run l h k =
    let (row, confirmed, result) = complete-saved env c key outcome payload clock run h in
    let stays = run_history-stable (IsConfirmed-Stable env key row) calls _ confirmed in
    OnOk-at _ _ l (transaction-OnOk _ clock' _ (begin-replays env c' key row inputs readonly) stays)
      k
    ∙ ap replay result
