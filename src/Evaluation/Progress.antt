-- ===== src/Evaluation/Progress.antt =====
-- The jobs of the evaluation queue after any history of calls.
use learning_qa_assistant.Base.{
  ℕ, zero, suc, Bool, true, false, not, ◌||◌, ◌≡◌, refl, sym, ◌∙◌, inl, inr, none, List, [], ◌∷◌,
  Bool-cases, leb, keep, take, arith,
}
use learning_qa_assistant.Base.Table.{All}
use learning_qa_assistant.Transaction.Rules.{
  Post, Post-pure, Post-raise_if, Post-when, Post-commit, Post-bind, Post-imply, then_get,
  then_raise_if, then_now, then_commit, then_do, transaction-Post,
}
use learning_qa_assistant.Evaluation.State.{
  JobState, queued, running, cancelling, cancelled, succeeded, failed, is_terminal, is_working,
  is_queued, is_cancelling, Job, Case, Workbench, EvaluationClaim, Settings,
}
use learning_qa_assistant.Evaluation.Jobs.{
  check_held, owned, is_claimable, comes_first, insert_job, in_order, claimable_jobs, started,
  start_job, claim_first, cancel_row, is_running, finish_job,
}
use learning_qa_assistant.Evaluation.Jobs
use learning_qa_assistant.Evaluation.Calls.{
  Call, heartbeat, claim_next, cancel, call_tx, workbench_history,
}
use learning_qa_assistant.Evaluation.Settled.{
  HasSoundJobs, IsSound, IsRead, Keeps, IsSound-IsRead, finish_job-Keeps, save_job-Keeps,
  require-Keeps, check_admin-Keeps, job-Post,
}

keep-All :
    (P : Job → Type 0) (test : Job → Bool) (rows : List Job) → All P rows → All P (keep test rows)
keep-All P test [] h = tt
keep-All P test (row ∷ rows) h = elim (Bool-cases (test row)) [
  | inl hit ↦ rw hit (h.0, keep-All P test rows h.1)
  | inr miss ↦ rw miss (keep-All P test rows h.1)
]

take-All : (P : Job → Type 0) (n : ℕ) (rows : List Job) → All P rows → All P (take n rows)
take-All P zero rows h = tt
take-All P (suc n) [] h = tt
take-All P (suc n) (row ∷ rows) h = (h.0, take-All P n rows h.1)

insert_job-All :
    (P : Job → Type 0) (row : Job) (rows : List Job)
    → P row
    → All P rows
    → All P (insert_job row rows)
unfolding insert_job
insert_job-All P row [] p h = (p, tt)
insert_job-All P row (other ∷ rows) p h = elim (Bool-cases (comes_first row other)) [
  | inl first ↦ rw first (p, h)
  | inr later ↦ rw later (h.0, insert_job-All P row rows p h.1)
]

in_order-All : (P : Job → Type 0) (rows : List Job) → All P rows → All P (in_order rows)
unfolding in_order
in_order-All P [] h = tt
in_order-All P (row ∷ rows) h = insert_job-All P row _ h.0 (in_order-All P rows h.1)

IsRead-All : (cases : List Case) (rows : List Job) → All (IsSound cases) rows → All IsRead rows
IsRead-All cases [] h = tt
IsRead-All cases (row ∷ rows) h = (IsSound-IsRead cases row h.0, IsRead-All cases rows h.1)

claimable-All :
    (cases : List Case) (time : ℕ) (rows : List Job)
    → All (IsSound cases) rows
    → All IsRead (claimable_jobs time rows)
unfolding claimable_jobs
claimable-All cases time rows h =
    take-All IsRead 10 _ (in_order-All IsRead _ (keep-All IsRead _ rows (IsRead-All cases rows h)))

-- A job that its claim holds works.
IsHeld : Job → Type 0
IsHeld row = IsRead row × (is_working row.state ≡ true)

check_held-Post :
    (claim : EvaluationClaim) (row : Job)
    → Post HasSoundJobs (λ _. is_working row.state ≡ true) (check_held claim row)
unfolding check_held
check_held-Post claim row =
    then_raise_if _ _
      (λ _. then_now (λ time. Post-imply _ (Post-raise_if _ _) (λ _ e. working _ _ e)))
  where
    working : (late works : Bool) → (late || not works) ≡ false → works ≡ true
    working true works e = cc e
    working false true e = refl
    working false false e = sym e

is_working-ends : (state : JobState) → is_working state ≡ true → is_terminal state ≡ true → ⊥
is_working-ends queued works over = cc works
is_working-ends running works over = cc over
is_working-ends cancelling works over = cc over
is_working-ends cancelled works over = cc works
is_working-ends succeeded works over = cc works
is_working-ends failed works over = cc works

is_running-works : (state : JobState) → is_running state ≡ true → is_working state ≡ true
is_running-works queued runs = cc runs
is_running-works running runs = refl
is_running-works cancelling runs = refl
is_running-works cancelled runs = cc runs
is_running-works succeeded runs = cc runs
is_running-works failed runs = cc runs

module _ (settings : Settings) where
  owned-Post :
      (claim : EvaluationClaim) (allow_cancelling : Bool)
      → Post HasSoundJobs IsHeld (owned settings claim allow_cancelling)
  unfolding owned IsHeld
  owned-Post claim allow_cancelling = Post-bind _ _ (job-Post _ _) (λ row read.
      Post-bind _ _ (check_held-Post claim row) (λ _ works.
        then_raise_if _ _
          (λ _. then_do _ (check_admin-Keeps settings _) (Post-pure row (read, works)))))

  heartbeat-Keeps : (claim : EvaluationClaim) → Keeps (Jobs.heartbeat settings claim)
  unfolding Jobs.heartbeat IsHeld
  heartbeat-Keeps claim = Post-bind _ _ (owned-Post claim true) (λ row held. then_now (λ time.
      then_do _
        (save_job-Keeps _ (λ cases. record {
          within = held.0.within;
          progress = held.0.progress;
          token = held.0.token;
          lease = sym held.1;
          closed = λ over. absurd (is_working-ends row.state held.1 over);
        }))
        Post-commit))

  start_job-Keeps :
      (token time : ℕ) (row : Job)
      → IsRead row
      → leb row.max_attempts row.attempts ≡ false
      → Keeps (start_job settings token time row)
  unfolding start_job
  start_job-Keeps token time row read room =
      then_do _
        (save_job-Keeps _ (λ cases. record {
          within = ground arith;
          progress = read.progress;
          token = refl;
          lease = refl;
          closed = λ over. absurd (cc over);
        }))
        (then_commit (Post-pure _ tt))

  claim_first-Keeps :
      (token time : ℕ) (rows : List Job)
      → All IsRead rows
      → Keeps (claim_first settings token time rows)
  unfolding claim_first
  claim_first-Keeps token time [] h = then_commit (Post-pure none tt)
  claim_first-Keeps token time (row ∷ rows) h = elim (Bool-cases (is_cancelling row.state)) [
    | inl asked ↦ rw asked (
        then_do _ (finish_job-Keeps row _ _ h.0.within refl refl)
          (claim_first-Keeps token time rows h.1))
    | inr wanted ↦ rw wanted (elim (Bool-cases (leb row.max_attempts row.attempts)) [
      | inl spent ↦ rw spent (
          then_do _ (finish_job-Keeps row _ _ h.0.within refl refl)
            (claim_first-Keeps token time rows h.1))
      | inr room ↦ rw room (start_job-Keeps token time row h.0 room)
    ])
  ]

  claim_next-Keeps : (token : ℕ) → Keeps (Jobs.claim_next settings token)
  unfolding Jobs.claim_next
  claim_next-Keeps token = then_do _ (require-Keeps settings) (
      then_now (λ time. then_get (λ workbench h.
        claim_first-Keeps token time _ (claimable-All workbench.cases time workbench.jobs h))))

  cancel_row-Keeps : (row : Job) → IsRead row → Keeps (cancel_row row)
  unfolding cancel_row
  cancel_row-Keeps row read = elim (Bool-cases (is_queued row.state)) [
    | inl waits ↦ rw waits (finish_job-Keeps row _ _ read.within refl refl)
    | inr other ↦ rw other (
        Post-when _ _ (λ runs. save_job-Keeps _ (λ cases. record {
          within = read.within;
          progress = read.progress;
          token = (read.token ∙ is_running-works row.state runs);
          lease = (read.lease ∙ is_running-works row.state runs);
          closed = λ over. absurd (cc over);
        })))
  ]

  cancel-Keeps : (user_id job_id : ℕ) → Keeps (Jobs.cancel settings user_id job_id)
  unfolding Jobs.cancel
  cancel-Keeps user_id job_id = then_do _ (check_admin-Keeps settings user_id) (
      Post-bind _ _ (job-Post user_id job_id) (λ row read.
        then_do _ (cancel_row-Keeps row read)
          (then_get (λ workbench h. then_commit (Post-pure _ tt)))))

  call-Keeps : (call : Call) → Keeps (call_tx settings call)
  unfolding call_tx
  call-Keeps (heartbeat claim) = heartbeat-Keeps claim
  call-Keeps (claim_next token) = Post-bind _ _ (claim_next-Keeps token) (λ _ _. Post-pure tt tt)
  call-Keeps (cancel user_id job_id) =
      Post-bind _ _ (cancel-Keeps user_id job_id) (λ _ _. Post-pure tt tt)

-- Whatever is claimed, kept alive and cancelled, in whatever order and at whatever times, if every
-- job was within its attempts and its cases, had a token and a lease exactly while running or
-- cancelling, and no waiting or running case once it had ended, the same holds of all jobs after.
pub workbench_history-HasSoundJobs :
    (settings : Settings) (calls : List (Call × (ℕ → ℕ))) (workbench : Workbench)
    → HasSoundJobs workbench
    → HasSoundJobs (workbench_history settings calls workbench)
unfolding workbench_history
workbench_history-HasSoundJobs settings [] workbench h = h
workbench_history-HasSoundJobs settings ((call, clock) ∷ calls) workbench h =
    workbench_history-HasSoundJobs settings calls _
      (transaction-Post (call_tx settings call) clock workbench (call-Keeps settings call) h)
