-- ===== src/Run/StoreHistory.antt =====
-- What holds of all runs after any history of creations and calls.
use learning_qa_assistant.Base.{
  ℕ, Bool, true, false, ◌≡◌, refl, Option, none, some, List, [], ◌∷◌, arith, Bool-cases, inl, inr,
  ◌⊎◌,
}
use learning_qa_assistant.Transaction.{Result, ok, err, Session, transaction}
use learning_qa_assistant.Transaction.Triple.{Settles}
use learning_qa_assistant.Run.State.{Run, Environment, is_active, is_terminal}
use learning_qa_assistant.Run.Store.{
  Creation, Step, create, call_run, first, has_id, call_first, create_body, step, store_history,
}
use learning_qa_assistant.Run.Calls.{Call}
use learning_qa_assistant.Run.Calls
use learning_qa_assistant.Run.Stable.{history_of}
use learning_qa_assistant.Run.Stable.Preserved.{perform-stable}
use learning_qa_assistant.Run.Receipts.{identity_of, identity-Stable}
use learning_qa_assistant.Run.Terminal.{perform-ended}
use learning_qa_assistant.Run.Rows.{Succeeds}
use learning_qa_assistant.Run.Capacity.{IsWithin, change_first-IsWithin, create-Fine}
use learning_qa_assistant.Run.Exclusive.{IsExclusive, change_first-IsExclusive}
use learning_qa_assistant.Run.Creating.{create-Triple}

either_way :
    {A : Type 0} (E : Session (List Run) → Type 0) (r : Result A) (t : Session (List Run))
    → Settles (λ _ s. E s) E r t
    → E t
either_way E (ok a) t e = e
either_way E (err f) t e = e

create-IsExclusive :
    (env : Environment) (creation : Creation) (clock : ℕ → ℕ) (runs : List Run)
    → IsExclusive runs
    → IsExclusive (transaction (create_body env creation) clock runs).1
unfolding transaction
create-IsExclusive env creation clock runs h =
    let start : Session (List Run) = record { work = runs; saved = runs; clock = clock } in
    either_way (λ s. IsExclusive s.saved) (create_body env creation start).0
      (create_body env creation start).1 ((create-Triple env creation).at start (h, h))

inactive-ended : (run : Run) → is_active run.state ≡ false → is_terminal run.state ≡ true
inactive-ended run h = ground arith

perform-Succeeds :
    (env : Environment) (call : Call) (clock : ℕ → ℕ) (run : Run)
    → Succeeds run (Calls.perform env call clock run).1
perform-Succeeds env call clock run = record {
  same = perform-stable (identity-Stable env (identity_of (history_of run))) call clock run refl;
  alive = alive (Bool-cases (is_active run.state));
}
  where
    alive :
        (is_active run.state ≡ true) ⊎ (is_active run.state ≡ false)
        → is_active (Calls.perform env call clock run).1.state ≡ true
        → is_active run.state ≡ true
    alive (inl active) h = active
    alive (inr ended) h =
        absurd (cc (perform-ended env call clock run (inactive-ended run ended), ended, h))

call_first-IsExclusive :
    (env : Environment) (test : Run → Bool) (call : Call) (clock : ℕ → ℕ) (o : Option Run)
    (runs : List Run)
    → first test runs ≡ o
    → IsExclusive runs
    → IsExclusive (call_first env test call clock o runs)
unfolding call_first
call_first-IsExclusive env test call clock none runs found h = h
call_first-IsExclusive env test call clock (some run) runs found h =
    change_first-IsExclusive test run _ runs found (perform-Succeeds env call clock run) h

step-IsExclusive :
    (env : Environment) (s : Step) (runs : List Run)
    → IsExclusive runs
    → IsExclusive (step env s runs)
unfolding step
step-IsExclusive env (create creation clock) runs h = create-IsExclusive env creation clock runs h
step-IsExclusive env (call_run run_id call clock) runs h =
    call_first-IsExclusive env (has_id run_id) call clock _ runs refl h

-- From runs of which no session has two active ones, whatever runs users create and whatever
-- calls are made on the runs, by anyone, in any order, no session ever has two active runs.
pub store_history-IsExclusive :
    (env : Environment) (steps : List Step) (runs : List Run)
    → IsExclusive runs
    → IsExclusive (store_history env steps runs)
unfolding store_history
store_history-IsExclusive env [] runs h = h
store_history-IsExclusive env (s ∷ rest) runs h =
    store_history-IsExclusive env rest (step env s runs) (step-IsExclusive env s runs h)

create-IsWithin :
    (env : Environment) (creation : Creation) (clock : ℕ → ℕ) (runs : List Run)
    → creation.is_queued ≡ true
    → IsWithin env runs
    → IsWithin env (transaction (create_body env creation) clock runs).1
unfolding transaction
create-IsWithin env creation clock runs queued h =
    let start : Session (List Run) = record { work = runs; saved = runs; clock = clock } in
    either_way (λ s. IsWithin env s.saved) (create_body env creation start).0
      (create_body env creation start).1 ((create-Fine env creation queued).at start (h, h))

call_first-IsWithin :
    (env : Environment) (test : Run → Bool) (call : Call) (clock : ℕ → ℕ) (o : Option Run)
    (runs : List Run)
    → first test runs ≡ o
    → IsWithin env runs
    → IsWithin env (call_first env test call clock o runs)
unfolding call_first
call_first-IsWithin env test call clock none runs found h = h
call_first-IsWithin env test call clock (some run) runs found h =
    change_first-IsWithin env test run _ runs found (perform-Succeeds env call clock run) h

-- Every creation of the history is of a queued run.
abbrev pub AllQueued : List Step → Type 0
AllQueued [] = Unit
AllQueued (create creation clock ∷ rest) = (creation.is_queued ≡ true) × AllQueued rest
AllQueued (call_run run_id call clock ∷ rest) = AllQueued rest

-- From runs of which no user has more active ones of the store's kind than the queue limit,
-- whatever queued runs users create and whatever calls are made on the runs, by anyone, in any
-- order, no user ever has more.
pub store_history-IsWithin :
    (env : Environment) (steps : List Step) (runs : List Run)
    → AllQueued steps
    → IsWithin env runs
    → IsWithin env (store_history env steps runs)
unfolding store_history step
store_history-IsWithin env [] runs all h = h
store_history-IsWithin env (create creation clock ∷ rest) runs all h =
    store_history-IsWithin env rest _ all.1 (create-IsWithin env creation clock runs all.0 h)
store_history-IsWithin env (call_run run_id call clock ∷ rest) runs all h =
    store_history-IsWithin env rest _ all
      (call_first-IsWithin env (has_id run_id) call clock _ runs refl h)
