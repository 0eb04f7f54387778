-- ===== src/Evaluation/Calls.antt =====
-- Any call of the evaluation queue, and any history of calls, each in its transaction.
use learning_qa_assistant.Base.{ℕ, List, [], ◌∷◌}
use learning_qa_assistant.Transaction.{Tx, ◌>>◌, pure, transaction}
use learning_qa_assistant.Evaluation.State.{Workbench, EvaluationClaim, Settings}
use learning_qa_assistant.Evaluation.Jobs

pub data Call : Type 0 where
  heartbeat : EvaluationClaim → Call
  claim_next : (token : ℕ) → Call
  cancel : (user_id job_id : ℕ) → Call

unfoldable pub call_tx : Settings → Call → Tx Workbench (Unit {0})
call_tx settings (heartbeat claim) = Jobs.heartbeat settings claim
call_tx settings (claim_next token) = Jobs.claim_next settings token >> pure tt
call_tx settings (cancel user_id job_id) = Jobs.cancel settings user_id job_id >> pure tt

unfoldable pub workbench_history : Settings → List (Call × (ℕ → ℕ)) → Workbench → Workbench
workbench_history settings [] workbench = workbench
workbench_history settings ((call, clock) ∷ calls) workbench =
    workbench_history settings calls (transaction (call_tx settings call) clock workbench).1
