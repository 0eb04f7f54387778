-- ===== src/Run/CalledOnce.antt =====
-- The call boundary makes a call with side effects at most once.
use learning_qa_assistant.Base.{
  ℕ, Bool, true, false, ◌≡◌, refl, ◌∙◌, ap, sym, none, some, List, [], ◌∷◌, ◌++◌, ltb, Bool-cases,
  inl, inr,
}
use learning_qa_assistant.Base.Text.{Text}
use learning_qa_assistant.Transaction.{Result, ok, err, transaction}
use learning_qa_assistant.Run.State.{Run, RunClaim, Environment, Outcome}
use learning_qa_assistant.Run.Operation.{Leave, replay, perform, begin_body}
use learning_qa_assistant.Run.Calls.{Call, worker, check_owned, finish, run_history}
use learning_qa_assistant.Run.Calls
use learning_qa_assistant.Run.Invoke.{
  Circumstances, settle_call, check, completed, recorded, call_checked, begun, begin_checked,
  invoke,
}
use learning_qa_assistant.Run.ExactlyOnce.{begin_once}

run_history-append :
    (env : Environment) (xs ys : List (Call × (ℕ → ℕ))) (run : Run)
    → run_history env (xs ++ ys) run ≡ run_history env ys (run_history env xs run)
unfolding run_history
run_history-append env [] ys run = refl
run_history-append env ((call, clock) ∷ xs) ys run = run_history-append env xs ys _

-- `later` is what a history of calls makes of `run`.
abbrev pub Follows : Environment → Run → Run → Type 0
Follows env run later = (calls : List (Call × (ℕ → ℕ))) × (later ≡ run_history env calls run)

Follows-refl : (env : Environment) (run : Run) → Follows env run run
unfolding run_history
Follows-refl env run = ([], refl)

Follows-trans :
    (env : Environment) (a b c : Run) → Follows env a b → Follows env b c → Follows env a c
Follows-trans env a b c (xs, e) (ys, k) =
    (xs ++ ys, k ∙ ap (run_history env ys) e ∙ sym (run_history-append env xs ys a))

Follows-perform :
    (env : Environment) (call : Call) (clock : ℕ → ℕ) (run : Run)
    → Follows env run (Calls.perform env call clock run).1
unfolding run_history
Follows-perform env call clock run = ((call, clock) ∷ [], refl)

Follows-step :
    (env : Environment) (calls : List (Call × (ℕ → ℕ))) (call : Call) (clock : ℕ → ℕ) (run : Run)
    → Follows env run (Calls.perform env call clock (run_history env calls run)).1
Follows-step env calls call clock run =
    Follows-trans env run _ _ (calls, refl)
      (Follows-perform env call clock (run_history env calls run))

module _ (env : Environment) (c : RunClaim) (key : Text) (inputs : ℕ) (readonly : Bool)
    (around : Circumstances) where
  -- The call was made: it was let through on what the calls before made of the run, and what is
  -- left follows from there.
  abbrev pub IsLetThrough : Run → Run → Type 0
  IsLetThrough run later =
      (start : Run) × (clock : ℕ → ℕ) × Follows env run start
      × ((transaction (begin_body env c key inputs readonly) clock start).0 ≡ ok perform)
      × Follows env (transaction (begin_body env c key inputs readonly) clock start).1 later

  recorded-Follows :
      (o : Result Outcome) (run : Run)
      → Follows env run (recorded env c key inputs readonly around o run).run
  unfolding recorded completed
  recorded-Follows (err f) run = Follows-refl env run
  recorded-Follows (ok o) run = elim (Bool-cases (ltb 2000000 (env.outcome_size o))) [
    | inl big ↦ rw big (Follows-refl env run)
    | inr fits ↦
        rw fits
          (Follows-step env (around.others 3) (worker c (finish key o none)) (around.clocks 3) run)
  ]

  call_checked-Follows :
      (r : Result (Unit {0})) (run : Run)
      → Follows env run (call_checked env c key inputs readonly around r run).run
  unfolding call_checked
  call_checked-Follows (err f) run = Follows-refl env run
  call_checked-Follows (ok _) run = recorded-Follows (settle_call around.call) run

  begun-perform :
      (r : Result Leave) (run : Run)
      → (begun env c key inputs readonly around r run).called ≡ true
      → (r ≡ ok perform) × Follows env run (begun env c key inputs readonly around r run).run
  unfolding begun check
  begun-perform (err f) run h = absurd (cc h)
  begun-perform (ok (replay (some o))) run h = absurd (cc h)
  begun-perform (ok (replay none)) run h = absurd (cc h)
  begun-perform (ok perform) run h = (
    refl,
    Follows-trans env run _ _
        (Follows-step env (around.others 2) (worker c check_owned) (around.clocks 2) run)
        (call_checked-Follows _ _),
  )

  begin_checked-IsLetThrough :
      (r : Result (Unit {0})) (run : Run)
      → (begin_checked env c key inputs readonly around r run).called ≡ true
      → IsLetThrough run (begin_checked env c key inputs readonly around r run).run
  unfolding begin_checked
  begin_checked-IsLetThrough (err f) run h = absurd (cc h)
  begin_checked-IsLetThrough (ok _) run h =
      let (through, after) = begun-perform _ _ h in
      (
        run_history env (around.others 1) run,
        around.clocks 1,
        (around.others 1, refl),
        through,
        after,
      )

  invoke-IsLetThrough :
      (run : Run)
      → (invoke env c key inputs readonly around run).called ≡ true
      → IsLetThrough run (invoke env c key inputs readonly around run).run
  unfolding invoke check
  invoke-IsLetThrough run h =
      let checked =
        Follows-step env (around.others 0) (worker c check_owned) (around.clocks 0) run in
      let (start, clock, before, through, after) = begin_checked-IsLetThrough _ _ h in
      (start, clock, Follows-trans env run _ start checked before, through, after)

-- A call with side effects is made at most once for its key. If `invoke` has made it, then no
-- later use of `invoke` for the key makes it again, whatever claim, inputs, flag and hook it has,
-- whatever its call would do, and whatever calls anyone makes on the run before, between and
-- after the transactions of both.
pub called_once :
    (env : Environment) (c c' : RunClaim) (key : Text) (inputs inputs' : ℕ) (readonly' : Bool)
    (around around' : Circumstances) (calls : List (Call × (ℕ → ℕ))) (run : Run)
    → (invoke env c key inputs false around run).called ≡ true
    → (invoke env c' key inputs' readonly' around'
        (run_history env calls (invoke env c key inputs false around run).run)).called
      ≡ false
called_once env c c' key inputs inputs' readonly' around around' calls run h = elim (Bool-cases _) [
  | inr other ↦ other
  | inl again ↦
      let (start, clock, _, through, after) =
        invoke-IsLetThrough env c key inputs false around run h in
      let (start', clock', before', through', _) =
        invoke-IsLetThrough env c' key inputs' readonly' around' _ again in
      let (between, e) =
        Follows-trans env _ _ start' after (Follows-trans env _ _ start' (calls, refl) before') in
      absurd (
        begin_once env c c' key inputs inputs' readonly' clock clock' between start through (
          ap (λ r. (transaction (begin_body env c' key inputs' readonly') clock' r).0) (sym e)
          ∙ through'))
]
