-- ===== src/Evaluation/Jobs.antt =====
-- EvaluationService of app/service/evaluation_jobs.py: require, admin, job, owned, heartbeat,
-- _finish, claim_next and cancel. The runs of the cases are rows of their own: their cancellation
-- is asked of the runs, before a claim and after a job has been cancelled.
use learning_qa_assistant.Base.{
  ℕ, ◌+◌, Bool, true, false, not, ◌&&◌, ◌||◌, Option, none, some, List, [], ◌∷◌, leb, ltb, ◌==◌,
  if◌then◌else◌, is_some, holds, has_passed, keep, take, map,
}
use learning_qa_assistant.Base.Table.{find_row, store_row}
use learning_qa_assistant.Transaction.{
  Code, Tx, ◌>>=◌, ◌>>◌, pure, raise, raise_if, when, get, put, now, commit, not_found, forbidden,
  evaluation_disabled, evaluation_configuration_required, evaluation_lease_lost,
  evaluation_cancel_requested, evaluation_recovery_limit,
}
use learning_qa_assistant.Evaluation.State.{
  JobState, running, cancelling, is_queued, is_cancelling, is_working, CaseState, is_unfinished,
  Job, Case, User, Workbench, EvaluationClaim, Settings, user_of, job_row, job_of,
}

unfoldable pub save_job : Job → Tx Workbench (Unit {0})
save_job job = do
  workbench ← get
  put (record workbench { jobs = store_row (job_row job.id) job workbench.jobs })

module _ (settings : Settings) where
  unfoldable pub require : Tx Workbench (Unit {0})
  require = do
    raise_if (not settings.evaluation_enabled) evaluation_disabled
    raise_if (not settings.chat_runs_enabled || not settings.model_center_enabled)
        evaluation_configuration_required

  abbrev pub is_admin : Option User → Bool
  is_admin none = false
  is_admin (some user) = user.is_active && user.is_admin

  unfoldable pub check_admin : (user_id : ℕ) → Tx Workbench (Unit {0})
  check_admin user_id = do
    require
    workbench ← get
    raise_if (not (is_admin (find_row (user_of user_id) workbench.users))) forbidden

unfoldable pub the_job : Option Job → Tx Workbench Job
the_job none = raise not_found
the_job (some job) = pure job

unfoldable pub job : (user_id job_id : ℕ) → Tx Workbench Job
job user_id job_id = do workbench ← get; the_job (find_row (job_of user_id job_id) workbench.jobs)

abbrev pub is_claimed : EvaluationClaim → Job → Bool
is_claimed claim row =
    holds row.owner_token claim.token
    && row.generation == claim.generation
    && is_some row.lease_expires_at

-- The clock is read only when the other tests have passed.
unfoldable pub check_held : EvaluationClaim → Job → Tx Workbench (Unit {0})
check_held claim row = do
  raise_if (not (is_claimed claim row)) evaluation_lease_lost
  time ← now
  raise_if (has_passed row.lease_expires_at time || not (is_working row.state))
      evaluation_lease_lost

module _ (settings : Settings) where
  unfoldable pub owned : EvaluationClaim → (allow_cancelling : Bool) → Tx Workbench Job
  owned claim allow_cancelling = do
    row ← job claim.user_id claim.job_id
    check_held claim row
    raise_if (is_cancelling row.state && not allow_cancelling) evaluation_cancel_requested
    check_admin settings claim.user_id
    pure row

  unfoldable pub heartbeat : EvaluationClaim → Tx Workbench (Unit {0})
  heartbeat claim = do
    row ← owned claim true
    time ← now
    save_job (record row { lease_expires_at = some (time + settings.evaluation_lease) })
    commit

-- The state of the unfinished cases of a job that ends in this state.
abbrev pub case_state : JobState → CaseState
case_state JobState.cancelled = CaseState.cancelled
case_state _ = CaseState.failed

abbrev pub finish_case : Job → Case → Case
finish_case row case =
    if case.job_id == row.id && is_unfinished case.state
    then record case {
      state = case_state row.state;
      error_code = row.error_code;
      finished_at = row.finished_at;
    }
    else case

abbrev pub finished : (state : JobState) → Code → (time : ℕ) → Job → Job
finished state code time row = record row {
  state = state;
  error_code = some code;
  finished_at = some time;
  owner_token = none;
  lease_expires_at = none;
  completed_cases = row.total_cases;
}

-- `_finish`, with a code
unfoldable pub finish_job : Job → (state : JobState) → Code → Tx Workbench (Unit {0})
finish_job row state code = do
  time ← now
  save_job (finished state code time row)
  workbench ← get
  put (record workbench {
    cases = map (finish_case (finished state code time row)) workbench.cases;
  })

-- `queries.lock_claimable_jobs`
abbrev pub is_claimable : ℕ → Job → Bool
is_claimable time row =
    (is_queued row.state && leb row.available_at time)
    || (is_working row.state && has_passed row.lease_expires_at time)

abbrev pub comes_first : Job → Job → Bool
comes_first a b = ltb a.created_at b.created_at || (a.created_at == b.created_at && leb a.id b.id)

unfoldable pub insert_job : Job → List Job → List Job
insert_job row [] = row ∷ []
insert_job row (other ∷ rest) =
    if comes_first row other then row ∷ other ∷ rest else other ∷ insert_job row rest

unfoldable pub in_order : List Job → List Job
in_order [] = []
in_order (row ∷ rows) = insert_job row (in_order rows)

unfoldable pub claimable_jobs : ℕ → List Job → List Job
claimable_jobs time rows = take 10 (in_order (keep (is_claimable time) rows))

abbrev pub or_now : Option ℕ → ℕ → Option ℕ
or_now none time = some time
or_now (some started) time = some started

module _ (settings : Settings) where
  abbrev pub started : (token time : ℕ) → Job → Job
  started token time row = record row {
    state = running;
    owner_token = some token;
    generation = row.generation + 1;
    attempts = row.attempts + 1;
    started_at = or_now row.started_at time;
    lease_expires_at = some (time + settings.evaluation_lease);
  }

  abbrev pub claim_of : (token : ℕ) → Job → EvaluationClaim
  claim_of token row = record {
    job_id = row.id;
    user_id = row.created_by;
    token = token;
    generation = row.generation + 1;
  }

  unfoldable pub start_job : (token time : ℕ) → Job → Tx Workbench (Option EvaluationClaim)
  start_job token time row = do
    save_job (started token time row)
    commit
    pure (some (claim_of token row))

  -- The rows that cannot go on are finished on the way to the first that can.
  unfoldable pub claim_first : (token time : ℕ) → List Job → Tx Workbench (Option EvaluationClaim)
  claim_first token time [] = commit >> pure none
  claim_first token time (row ∷ rows) =
      let rest = claim_first token time rows in
      if is_cancelling row.state
      then finish_job row JobState.cancelled evaluation_cancel_requested >> rest
      else if leb row.max_attempts row.attempts
      then finish_job row JobState.failed evaluation_recovery_limit >> rest
      else start_job token time row

  -- `token` is the fresh `uuid4()`.
  unfoldable pub claim_next : (token : ℕ) → Tx Workbench (Option EvaluationClaim)
  claim_next token = do
    require settings
    time ← now
    workbench ← get
    claim_first token time (claimable_jobs time workbench.jobs)

abbrev pub is_running : JobState → Bool
is_running running = true
is_running _ = false

unfoldable pub cancel_row : Job → Tx Workbench (Unit {0})
cancel_row row =
    if is_queued row.state
    then finish_job row JobState.cancelled evaluation_cancel_requested
    else when (is_running row.state) (save_job (record row { state = cancelling }))

abbrev pub put_some : Option ℕ → List ℕ → List ℕ
put_some none ids = ids
put_some (some id) ids = id ∷ ids

-- `queries.case_run_ids`
unfoldable pub run_ids : (job_id : ℕ) → List Case → List ℕ
run_ids job_id [] = []
run_ids job_id (case ∷ cases) =
    let rest = run_ids job_id cases in
    if case.job_id == job_id then put_some case.run_id rest else rest

module _ (settings : Settings) where
  -- The runs whose cancellation is asked for
  unfoldable pub cancel : (user_id job_id : ℕ) → Tx Workbench (List ℕ)
  cancel user_id job_id = do
    check_admin settings user_id
    row ← job user_id job_id
    cancel_row row
    workbench ← get
    commit
    pure (run_ids row.id workbench.cases)
