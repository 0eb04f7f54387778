-- ===== src/Evaluation/State.antt =====
-- The rows of the evaluation queue: EvaluationJob and EvaluationCaseResult of
-- app/entity/do/models.py, with the users whose role it asks for.
use learning_qa_assistant.Base.{ℕ, Bool, true, false, ◌&&◌, Option, List, ◌==◌}
use learning_qa_assistant.Transaction.{Code}

pub data JobState : Type 0 where
  queued running cancelling cancelled succeeded failed : JobState

abbrev pub is_queued : JobState → Bool
is_queued queued = true
is_queued _ = false

abbrev pub is_cancelling : JobState → Bool
is_cancelling cancelling = true
is_cancelling _ = false

-- `state in {"running", "cancelling"}`
abbrev pub is_working : JobState → Bool
is_working running = true
is_working cancelling = true
is_working _ = false

abbrev pub is_terminal : JobState → Bool
is_terminal cancelled = true
is_terminal succeeded = true
is_terminal failed = true
is_terminal _ = false

pub data CaseState : Type 0 where
  queued running succeeded failed cancelled : CaseState

abbrev pub is_unfinished : CaseState → Bool
is_unfinished queued = true
is_unfinished running = true
is_unfinished _ = false

pub record Job : Type 0 where
  pub id : ℕ
  pub created_by : ℕ
  pub state : JobState
  pub completed_cases : ℕ
  pub total_cases : ℕ
  pub owner_token : Option ℕ
  pub generation : ℕ
  pub attempts : ℕ
  pub max_attempts : ℕ
  pub available_at : ℕ
  pub lease_expires_at : Option ℕ
  pub error_code : Option Code
  pub started_at : Option ℕ
  pub finished_at : Option ℕ
  pub created_at : ℕ

pub record Case : Type 0 where
  pub job_id : ℕ
  pub case_id : ℕ
  pub run_id : Option ℕ
  pub state : CaseState
  pub error_code : Option Code
  pub finished_at : Option ℕ

pub record User : Type 0 where
  pub id : ℕ
  pub is_active : Bool
  pub is_admin : Bool

pub record Workbench : Type 0 where
  pub users : List User
  pub jobs : List Job
  pub cases : List Case

pub record EvaluationClaim : Type 0 where
  pub job_id : ℕ
  pub user_id : ℕ
  pub token : ℕ
  pub generation : ℕ

pub record Settings : Type 0 where
  pub evaluation_enabled : Bool
  pub chat_runs_enabled : Bool
  pub model_center_enabled : Bool
  pub evaluation_lease : ℕ

abbrev pub user_of : ℕ → User → Bool
user_of id row = row.id == id

abbrev pub job_row : ℕ → Job → Bool
job_row id job = job.id == id

abbrev pub job_of : (user_id job_id : ℕ) → Job → Bool
job_of user_id job_id job = job.id == job_id && job.created_by == user_id
