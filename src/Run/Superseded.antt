-- ===== src/Run/Superseded.antt =====
-- A claim of an earlier generation never regains the run.
use learning_qa_assistant.Base.{ℕ, ◌≤◌, ◌<◌, true, ◌≡◌, ap, some, List, arith}
use learning_qa_assistant.Transaction.{ok, err, Failure, transaction}
use learning_qa_assistant.Run.State.{Run, RunClaim, Environment}
use learning_qa_assistant.Run.Owner.{not_held}
use learning_qa_assistant.Run.Claim.{claim_body}
use learning_qa_assistant.Run.Calls.{WorkerCall, worker, Call, perform, run_history}
use learning_qa_assistant.Run.Stable.{History, Stable}
use learning_qa_assistant.Run.Stable.Preserved.{run_history-stable}
use learning_qa_assistant.Run.Fencing.{unheld_refused}
use learning_qa_assistant.Run.Taking.{claim-saved}

abbrev pub IsPast : ℕ → History → Type 0
IsPast g h = g < h.generation

IsPast-Stable : (env : Environment) (g : ℕ) → Stable env (IsPast g)
IsPast-Stable env g = record {
  event = λ h e b p _ _ _. p;
  claimed = λ h p. omega arith;
  saved = λ h c p _. p;
  written = λ h row p _. p;
}

not_held-IsPast :
    (c : RunClaim) (run : Run) (time : ℕ)
    → c.generation < run.generation
    → not_held run c time ≡ true
not_held-IsPast c run time h = ground arith

-- Once another claim has been given on a run, an earlier claim is refused for ever: after any
-- history of calls, at any clock reading, whatever its worker asks raises an error and changes
-- nothing.
pub superseded_refused :
    (env : Environment) (token time : ℕ) (clock : ℕ → ℕ) (run : Run) (newer old : RunClaim)
    (calls : List (Call × (ℕ → ℕ))) (call : WorkerCall) (clock' : ℕ → ℕ)
    → (transaction (claim_body env token time) clock run).0 ≡ ok (some newer)
    → old.generation ≤ run.generation
    → let after = run_history env calls (transaction (claim_body env token time) clock run).1 in
      ((f : Failure) × ((perform env (worker old call) clock' after).0 ≡ err f))
      × ((perform env (worker old call) clock' after).1 ≡ after)
superseded_refused env token time clock run newer old calls call clock' h le =
    let (_, _, owned_by) = claim-saved env token time clock run newer h in
    let next = ap (λ o. o.generation) owned_by in
    let claimed = (transaction (claim_body env token time) clock run).1 in
    let past =
      run_history-stable (IsPast-Stable env old.generation) calls claimed (omega (arith, next)) in
    unheld_refused env old call clock' _
      (not_held-IsPast old (run_history env calls claimed) (clock' 0) past)
