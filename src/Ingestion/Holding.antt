-- ===== src/Ingestion/Holding.antt =====
-- What claims, heartbeats and releases keep of the jobs of the ingestion queue, and what is known of
-- a job that is held.
use learning_qa_assistant.Base.{
  ℕ, ◌≤◌, true, false, ◌≡◌, refl, sym, inl, inr, Option, none, some, List, [], ◌∷◌, Bool-cases,
  arith,
}
use learning_qa_assistant.Base.Table.{All, OnSome, find_row-OnSome}
use learning_qa_assistant.Transaction.Rules.{
  Post, Post-pure, Post-raise, Post-raise_if, Post-commit, Post-bind, Post-weaken, then_get,
  then_raise_if, then_now, then_commit, then_do,
}
use learning_qa_assistant.Ingestion.State.{Job, is_running, Claim, Settings}
use learning_qa_assistant.Ingestion.Worker.{
  next_job, sooner, is_due, is_before, enqueue_each, reconcile, taken, claim_job, holds_token,
  check_lease, owned, check_still,
}
use learning_qa_assistant.Ingestion.Worker
use learning_qa_assistant.Ingestion.Finish.{Ending}
use learning_qa_assistant.Ingestion.Tasks.{sync_task-Stays}
use learning_qa_assistant.Ingestion.Sound.{any_tasks, IsSound, HasSoundJobs, Keeps, save_job-Keeps}

sooner-OnSome :
    (P : Job → Type 0) (job : Job) (other : Option Job)
    → P job
    → OnSome P other
    → OnSome P (sooner job other)
sooner-OnSome P job none p q = p
sooner-OnSome P job (some other) p q = elim (Bool-cases (is_before job other)) [
  | inl first ↦ rw first p
  | inr later ↦ rw later q
]

next_job-OnSome :
    (P : Job → Type 0) (time : ℕ) (jobs : List Job) → All P jobs → OnSome P (next_job time jobs)
unfolding next_job
next_job-OnSome P time [] h = tt
next_job-OnSome P time (job ∷ jobs) h = elim (Bool-cases (is_due time job)) [
  | inl due ↦ rw due (sooner-OnSome P job _ h.0 (next_job-OnSome P time jobs h.1))
  | inr early ↦ rw early (next_job-OnSome P time jobs h.1)
]

module _ (settings : Settings) where
  taken-IsSound :
      (token time : ℕ) (job : Job) → IsSound job → IsSound (taken settings token time job)
  taken-IsSound token time job sound =
      let within = sound.within in record { within = ground arith; token = refl; lease = refl }

  pub claim-Keeps : (token : ℕ) → Post HasSoundJobs (λ _. Unit {0}) (Worker.claim settings token)
  unfolding Worker.claim claim_job
  claim-Keeps token =
      then_now (λ time. then_get (λ queue h. claimed time _ (next_job-OnSome IsSound time _ h)))
    where
      claimed :
          (time : ℕ) (found : Option Job)
          → OnSome IsSound found
          → Post HasSoundJobs (λ _. Unit {0}) (claim_job settings token time found)
      claimed time none p = Post-pure none tt
      claimed time (some job) p = then_do _ (save_job-Keeps _ (taken-IsSound token time job p)) (
          then_get (λ queue h.
            then_do _ (sync_task-Stays HasSoundJobs any_tasks _ _) (then_commit (Post-pure _ tt))))

-- What is known of a job that its claim holds.
abbrev pub IsHeld : Job → Type 0
IsHeld job = IsSound job × (is_running job.state ≡ true)

pub owned-Post : (claim : Claim) → Post HasSoundJobs IsHeld (owned claim)
unfolding owned check_lease
owned-Post claim = then_get (λ queue h. checked _ (find_row-OnSome IsSound _ _ h))
  where
    checked :
        (found : Option Job)
        → OnSome IsSound found
        → Post HasSoundJobs IsHeld (check_lease claim found)
    checked none p = Post-raise _
    checked (some job) p =
        then_raise_if _ _
          (λ mine. then_now (λ time. then_raise_if _ _ (λ _. Post-pure job (p, ground arith))))

pub check_still-Keeps : (job : Job) → Keeps (check_still job)
unfolding check_still
check_still-Keeps job = then_now (λ time. Post-weaken _ (Post-raise_if _ _))

-- The job of an ending, once its token is dropped, waits or is over, within its attempts.
pub record IsSettled (ending : Ending) : Type 0 where
  pub within : ending.job.attempts ≤ ending.job.max_attempts
  pub stopped : is_running ending.job.state ≡ false

module _ (settings : Settings) where
  pub heartbeat-Keeps : (claim : Claim) → Keeps (Worker.heartbeat settings claim)
  unfolding Worker.heartbeat
  heartbeat-Keeps claim = Post-bind _ _ (owned-Post claim) (λ job held. then_now (λ time.
      then_do _
        (save_job-Keeps _
          (record { within = held.0.within; token = held.0.token; lease = sym held.1 }))
        Post-commit))

  pub release_busy-Keeps : (claim : Claim) → Keeps (Worker.release_busy settings claim)
  unfolding Worker.release_busy
  release_busy-Keeps claim = Post-bind _ _ (owned-Post claim) (λ job held. then_now (λ time.
      let within = held.0.within in
      then_do _ (check_still-Keeps job) (
        then_do _ (save_job-Keeps _ (record { within = ground arith; token = refl; lease = refl }))
          (then_do _ (sync_task-Stays HasSoundJobs any_tasks _ _) Post-commit))))
