-- ===== src/Evaluation/Settled.antt =====
-- Every job of the evaluation queue stays within its attempts, is held exactly while it works, and
-- leaves no case open when it has ended.
use learning_qa_assistant.Base.{
  ℕ, ◌≤◌, true, false, ◌&&◌, ◌==◌, ◌≡◌, sym, inl, inr, Option, none, some, List, [], ◌∷◌, map,
  Bool-cases, is_some, arith,
}
use learning_qa_assistant.Base.Table.{All, OnSome, find_row-OnSome, store_row-All}
use learning_qa_assistant.Transaction.{Code, Tx, ◌>>=◌}
use learning_qa_assistant.Transaction.Rules.{
  Post, Post-pure, Post-raise, Post-raise_if, Post-put, Post-weaken, then_get, then_raise_if,
  then_do,
}
use learning_qa_assistant.Evaluation.State.{
  JobState, is_working, is_terminal, is_unfinished, Job, Case, Workbench, Settings,
}
use learning_qa_assistant.Evaluation.Jobs.{
  save_job, require, check_admin, the_job, job, case_state, finish_case, finished, finish_job,
}

-- No case of this job waits or runs.
abbrev pub IsClosed : ℕ → List Case → Type 0
IsClosed id cases = All (λ case. case.job_id ≡ id → is_unfinished case.state ≡ false) cases

pub record IsSound (cases : List Case) (job : Job) : Type 0 where
  pub within : job.attempts ≤ job.max_attempts
  pub progress : job.completed_cases ≤ job.total_cases
  pub token : is_some job.owner_token ≡ is_working job.state
  pub lease : is_some job.lease_expires_at ≡ is_working job.state
  pub closed : is_terminal job.state ≡ true → IsClosed job.id cases

abbrev pub HasSoundJobs : Workbench → Type 0
HasSoundJobs workbench = All (IsSound workbench.cases) workbench.jobs

abbrev pub Keeps : {A : Type 0} → Tx Workbench A → Type 0
Keeps m = Post HasSoundJobs (λ _. Unit {0}) m

finish_case-closes :
    (row : Job) (case : Case)
    → is_unfinished (case_state row.state) ≡ false
    → (finish_case row case).job_id ≡ row.id
    → is_unfinished (finish_case row case).state ≡ false
finish_case-closes row case ended =
    elim (Bool-cases (case.job_id == row.id && is_unfinished case.state)) [
      | inl mine ↦ rw mine (λ same. ended)
      | inr shut ↦ rw shut (λ same. ground arith)
    ]

finish_case-IsClosed :
    (row : Job) (cases : List Case)
    → is_unfinished (case_state row.state) ≡ false
    → IsClosed row.id (map (finish_case row) cases)
finish_case-IsClosed row [] ended = tt
finish_case-IsClosed row (case ∷ cases) ended =
    (finish_case-closes row case ended, finish_case-IsClosed row cases ended)

-- What is closed stays closed.
finish_case-stays :
    (row : Job) (id : ℕ) (case : Case)
    → is_unfinished (case_state row.state) ≡ false
    → (case.job_id ≡ id → is_unfinished case.state ≡ false)
    → (finish_case row case).job_id ≡ id
    → is_unfinished (finish_case row case).state ≡ false
finish_case-stays row id case ended h =
    elim (Bool-cases (case.job_id == row.id && is_unfinished case.state)) [
      | inl mine ↦ rw mine (λ same. ended)
      | inr shut ↦ rw shut h
    ]

finish_case-IsClosed_still :
    (row : Job) (id : ℕ) (cases : List Case)
    → is_unfinished (case_state row.state) ≡ false
    → IsClosed id cases
    → IsClosed id (map (finish_case row) cases)
finish_case-IsClosed_still row id [] ended h = tt
finish_case-IsClosed_still row id (case ∷ cases) ended h =
    (finish_case-stays row id case ended h.0, finish_case-IsClosed_still row id cases ended h.1)

jobs-still :
    (row : Job) (cases : List Case) (jobs : List Job)
    → is_unfinished (case_state row.state) ≡ false
    → All (IsSound cases) jobs
    → All (IsSound (map (finish_case row) cases)) jobs
jobs-still row cases [] ended h = tt
jobs-still row cases (other ∷ jobs) ended h = (
  record {
    within = h.0.within;
    progress = h.0.progress;
    token = h.0.token;
    lease = h.0.lease;
    closed = λ over. finish_case-IsClosed_still row other.id cases ended (h.0.closed over);
  },
  jobs-still row cases jobs ended h.1,
)

pub finish_job-Keeps :
    (row : Job) (state : JobState) (code : Code)
    → row.attempts ≤ row.max_attempts
    → is_working state ≡ false
    → is_unfinished (case_state state) ≡ false
    → Keeps (finish_job row state code)
unfolding finish_job save_job ◌>>=◌
finish_job-Keeps row state code within ended closing = record {
  at = λ s w k.
      let last = finished state code (s.clock 0) row in
      (
        store_row-All (IsSound (map (finish_case last) s.work.cases)) _ last s.work.jobs
            (record {
              within = within;
              progress = omega arith;
              token = sym ended;
              lease = sym ended;
              closed = λ over. finish_case-IsClosed last s.work.cases closing;
            })
            (jobs-still last s.work.cases s.work.jobs closing w),
        k,
        tt,
      );
}

pub save_job-Keeps : (row : Job) → ((cases : List Case) → IsSound cases row) → Keeps (save_job row)
unfolding save_job
save_job-Keeps row sound = then_get (λ workbench h.
    Post-put _
      (store_row-All (IsSound workbench.cases) _ row workbench.jobs (sound workbench.cases) h))

-- A row that was read, as long as it works or waits.
pub record IsRead (row : Job) : Type 0 where
  pub within : row.attempts ≤ row.max_attempts
  pub progress : row.completed_cases ≤ row.total_cases
  pub token : is_some row.owner_token ≡ is_working row.state
  pub lease : is_some row.lease_expires_at ≡ is_working row.state

pub IsSound-IsRead : (cases : List Case) (row : Job) → IsSound cases row → IsRead row
IsSound-IsRead cases row h = record {
  within = h.within;
  progress = h.progress;
  token = h.token;
  lease = h.lease;
}

pub require-Keeps : (settings : Settings) → Keeps (require settings)
unfolding require
require-Keeps settings = then_raise_if _ _ (λ _. Post-weaken _ (Post-raise_if _ _))

pub check_admin-Keeps : (settings : Settings) (user_id : ℕ) → Keeps (check_admin settings user_id)
unfolding check_admin
check_admin-Keeps settings user_id =
    then_do _ (require-Keeps settings) (then_get (λ _ _. Post-weaken _ (Post-raise_if _ _)))

pub job-Post : (user_id job_id : ℕ) → Post HasSoundJobs IsRead (job user_id job_id)
unfolding job the_job
job-Post user_id job_id =
    then_get (λ workbench h. at workbench.cases _ (find_row-OnSome (IsSound workbench.cases) _ _ h))
  where
    at :
        (cases : List Case) (found : Option Job)
        → OnSome (IsSound cases) found
        → Post HasSoundJobs IsRead (the_job found)
    at cases none h = Post-raise _
    at cases (some row) h = Post-pure row (IsSound-IsRead cases row h)
