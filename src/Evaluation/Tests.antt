-- ===== src/Evaluation/Tests.antt =====
-- The evaluation queue on a sample, and the theorems at concrete inputs.
use learning_qa_assistant.Base.{ℕ, ◌+◌, true, ◌≡◌, refl, none, some, List, [], ◌∷◌, arith}
use learning_qa_assistant.Base.Table.{find_row}
use learning_qa_assistant.Transaction.{err, Failure, transaction}
use learning_qa_assistant.Evaluation.State.{
  JobState, CaseState, Job, Case, Workbench, EvaluationClaim, Settings,
}
use learning_qa_assistant.Evaluation.Jobs.{heartbeat}
use learning_qa_assistant.Evaluation.Calls.{Call, claim_next, cancel, workbench_history}
use learning_qa_assistant.Evaluation.Fencing.{unheld_heartbeat_refused}
use learning_qa_assistant.Evaluation.Settled.{HasSoundJobs}
use learning_qa_assistant.Evaluation.Progress.{workbench_history-HasSoundJobs}

abbrev sample_settings : Settings
sample_settings = record {
  evaluation_enabled = true;
  chat_runs_enabled = true;
  model_center_enabled = true;
  evaluation_lease = 60;
}

abbrev sample_job : Job
sample_job = record {
  id = 1;
  created_by = 2;
  state = JobState.queued;
  completed_cases = 0;
  total_cases = 1;
  owner_token = none;
  generation = 0;
  attempts = 0;
  max_attempts = 3;
  available_at = 5;
  lease_expires_at = none;
  error_code = none;
  started_at = none;
  finished_at = none;
  created_at = 4;
}

abbrev sample_case : Case
sample_case = record {
  job_id = 1;
  case_id = 7;
  run_id = some 8;
  state = CaseState.queued;
  error_code = none;
  finished_at = none;
}

abbrev sample_workbench : Workbench
sample_workbench = record {
  users = record { id = 2; is_active = true; is_admin = true } ∷ [];
  jobs = sample_job ∷ [];
  cases = sample_case ∷ [];
}

abbrev at_10 : ℕ → ℕ
at_10 n = 10 + n

abbrev at_90 : ℕ → ℕ
at_90 n = 90 + n

-- The job is claimed, its cancellation is asked for, and the next claim ends it.
abbrev sample_calls : List (Call × (ℕ → ℕ))
sample_calls = (claim_next 77, at_10) ∷ (cancel 2 1, at_10) ∷ (claim_next 78, at_90) ∷ []

workbench_history-HasSoundJobs_example :
    HasSoundJobs (workbench_history sample_settings sample_calls sample_workbench)
workbench_history-HasSoundJobs_example =
    workbench_history-HasSoundJobs sample_settings sample_calls sample_workbench (
      record {
        within = omega arith;
        progress = omega arith;
        token = refl;
        lease = refl;
        closed = λ over. absurd (cc over);
      },
      tt,
    )

abbrev stale_claim : EvaluationClaim
stale_claim = record { job_id = 1; user_id = 2; token = 77; generation = 1 }

unheld_heartbeat_refused_example :
    ((f : Failure) × ((transaction (heartbeat sample_settings stale_claim) at_10 sample_workbench).0
        ≡ err f))
    × ((transaction (heartbeat sample_settings stale_claim) at_10 sample_workbench).1
        ≡ sample_workbench)
unfolding find_row
unheld_heartbeat_refused_example =
    unheld_heartbeat_refused sample_settings stale_claim at_10 sample_workbench refl
