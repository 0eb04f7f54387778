-- ===== src/Run/ExactlyOnce.antt =====
-- A call with side effects is let through at most once, and a confirmed call is replayed.
use learning_qa_assistant.Base.{
  ℕ, Bool, true, false, ◌≡◌, ◌≢◌, refl, Option, none, some, List, arith, ◌⊎◌, inl, inr, ◌∙◌, ap,
  sym, Bool-cases,
}
use learning_qa_assistant.Base.Text.{Text, text_eq_refl}
use learning_qa_assistant.Transaction.{Session, Result, ok, err, transaction, put, ◌>>=◌}
use learning_qa_assistant.Transaction.Rules.{
  >>=-eq-ok, transaction-eq-ok, transaction-OnOk, Post, Post-and, Post-bind, Post-lift, OnOk,
  OnOk-at, any-OnOk, then_do, then_raise_if,
}
use learning_qa_assistant.Run.State.{Run, RunClaim, Environment, Operation}
use learning_qa_assistant.Run.Journal.{save_event, journaled}
use learning_qa_assistant.Run.Operation.{
  find, store, Leave, perform, begin_row, begin_found, begin_again, retry_operation, mark_uncertain,
  start_event, begin_body, new_operation,
}
use learning_qa_assistant.Run.Calls.{Call, run_history}
use learning_qa_assistant.Run.Stable.{History, history_of, Stable, Rewrites}
use learning_qa_assistant.Run.Operations.{Writes-find, Rewrites-readonly, find-store}
use learning_qa_assistant.Run.Stable.Keeping.{Kept, owned-Post}
use learning_qa_assistant.Run.Stable.Writing.{begin_row-Keeps}
use learning_qa_assistant.Run.Stable.Preserved.{run_history-stable}

-- The key has a row of a call with side effects.
abbrev pub IsTaken : Text → History → Type 0
IsTaken key h = (row : Operation) × (find key h.operations ≡ some row) × (row.readonly ≡ false)

IsTaken-store :
    (key : Text) (rows : List Operation) (row found : Operation)
    → found.readonly ≡ false
    → (find key (store row rows) ≡ some found)
      ⊎ ((find key (store row rows) ≡ some row) × Rewrites found row)
    → (r : Operation) × (find key (store row rows) ≡ some r) × (r.readonly ≡ false)
IsTaken-store key rows row found effects (inl e) = (found, e, effects)
IsTaken-store key rows row found effects (inr (e, change)) =
    (row, e, cc (Rewrites-readonly change, effects))

module _ (env : Environment) (c : RunClaim) (key : Text) where
  start_event-saved :
      (readonly : Bool) (s t : Session Run) (l : Leave)
      → start_event env c key readonly s ≡ (ok l, t)
      → t.saved.operations ≡ s.work.operations
  unfolding start_event save_event journaled ◌>>=◌
  start_event-saved readonly s t l h = ground arith

  begin_row-taken :
      (run : Run) (row : Operation) (inputs : ℕ) (readonly : Bool) (s : Session Run)
      → row.readonly ≡ false
      → (begin_row env c key run (some row) inputs readonly s).0 ≢ ok perform
  unfolding begin_row begin_found begin_again retry_operation mark_uncertain ◌>>=◌
  begin_row-taken run row inputs readonly s h e = ground arith

  -- A row of a call that only reads is no row of this call.
  begin_row-reads :
      (run : Run) (row : Operation) (inputs : ℕ) (s : Session Run)
      → row.readonly ≡ true
      → (begin_row env c key run (some row) inputs false s).0 ≢ ok perform
  unfolding begin_row begin_found ◌>>=◌
  begin_row-reads run row inputs s h e = ground arith

  begin_row-saved :
      (run : Run) (o : Option Operation) (inputs : ℕ) (s t : Session Run)
      → begin_row env c key run o inputs false s ≡ (ok perform, t)
      → t.saved.operations ≡ store (new_operation env c key inputs false) run.operations
  unfolding begin_row put
  begin_row-saved run (some row) inputs s t h = elim (Bool-cases row.readonly) [
    | inl reads ↦ absurd (begin_row-reads run row inputs s reads (ap (λ p. p.0) h))
    | inr effects ↦ absurd (begin_row-taken run row inputs false s effects (ap (λ p. p.0) h))
  ]
  begin_row-saved run none inputs s t h =
      let (_, u, e, k) = >>=-eq-ok _ _ s t perform h in
      let (_, v, e', k') = >>=-eq-ok _ _ u t perform k in
      start_event-saved false v t perform k' ∙ ap (λ p. p.1.work.operations) (sym e')

  begin-saved :
      (inputs : ℕ) (clock : ℕ → ℕ) (run : Run)
      → (transaction (begin_body env c key inputs false) clock run).0 ≡ ok perform
      → IsTaken key (history_of (transaction (begin_body env c key inputs false) clock run).1)
  unfolding begin_body new_operation
  begin-saved inputs clock run h =
      let (t, e, saved) =
        transaction-eq-ok (begin_body env c key inputs false) clock run perform h in
      let (_, u, _, k) = >>=-eq-ok _ _ _ t perform e in
      let (_, v, _, k') = >>=-eq-ok _ _ u t perform k in
      let (held, w, _, k'') = >>=-eq-ok _ _ v t perform k' in
      let rows = begin_row-saved held _ inputs w t k'' in
      let row = new_operation env c key inputs false in
      (
        row,
        cc (
          find-store key row held.operations,
          text_eq_refl key,
          ap (λ r. r.operations) saved,
          rows,
        ),
        refl,
      )

IsTaken-Stable : (env : Environment) (key : Text) → Stable env (IsTaken key)
IsTaken-Stable env key = record {
  event = λ h e b p _ _ _. p;
  claimed = λ h p. p;
  saved = λ h c p _. p;
  written = λ h row p w.
      let (found, e, effects) = p in
      IsTaken-store key h.operations row found effects (Writes-find key h.operations row found w e);
}

OnOk-ne : (r : Result Leave) → r ≢ ok perform → OnOk (λ l. l ≢ perform) r
OnOk-ne (ok l) h = λ e. h (ap ok e)
OnOk-ne (err e) h = tt

module _ (env : Environment) (c : RunClaim) (key : Text) where
  begin-Post :
      (inputs : ℕ) (readonly : Bool)
      → Post
          (Kept (IsTaken-Stable env key))
          (λ l. l ≢ perform)
          (begin_body env c key inputs readonly)
  unfolding begin_body
  begin-Post inputs readonly =
      let stable = IsTaken-Stable env key in
      then_do _ (Post-lift _ (any-OnOk _)) (
        then_raise_if _ _ λ _. Post-bind _ _ (owned-Post stable c false true) λ run h.
          let (row, found, effects) = h in
          rw found (
            Post-and _ (begin_row-Keeps stable c key run (some row) inputs readonly found h)
              (λ s. OnOk-ne _ (begin_row-taken env c key run row inputs readonly s effects))))

  begin-refused :
      (inputs : ℕ) (readonly : Bool) (clock : ℕ → ℕ) (run : Run)
      → IsTaken key (history_of run)
      → (transaction (begin_body env c key inputs readonly) clock run).0 ≢ ok perform
  begin-refused inputs readonly clock run h e =
      OnOk-at _ _ perform (transaction-OnOk _ clock run (begin-Post inputs readonly) h) e refl

-- Once a worker has been let through to make a call with side effects, no worker is ever let
-- through for that key again: not by the same claim nor by a later one, with whatever inputs
-- and flag, after any history of other calls on the run.
pub begin_once :
    (env : Environment) (c c' : RunClaim) (key : Text) (inputs inputs' : ℕ) (readonly' : Bool)
    (clock clock' : ℕ → ℕ) (calls : List (Call × (ℕ → ℕ))) (run : Run)
    → (transaction (begin_body env c key inputs false) clock run).0 ≡ ok perform
    → let after =
        run_history env calls (transaction (begin_body env c key inputs false) clock run).1 in
      (transaction (begin_body env c' key inputs' readonly') clock' after).0 ≢ ok perform
begin_once env c c' key inputs inputs' readonly' clock clock' calls run h =
    begin-refused env c' key inputs' readonly' clock' _ (
      run_history-stable (IsTaken-Stable env key) calls _
        (begin-saved env c key inputs clock run h))
