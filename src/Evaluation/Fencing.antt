-- ===== src/Evaluation/Fencing.antt =====
-- A worker that does not hold an evaluation job cannot keep it alive.
use learning_qa_assistant.Base.{
  ℕ, Bool, true, not, ◌||◌, ◌≡◌, refl, inl, inr, Option, none, some, Bool-cases, has_passed,
}
use learning_qa_assistant.Base.Table.{find_row}
use learning_qa_assistant.Transaction.{
  Session, err, Failure, app_error, evaluation_lease_lost, Tx, raise_if, now, ◌>>=◌, transaction,
}
use learning_qa_assistant.Transaction.Refusal.{
  Refuses, Refuses-get, Refuses-at, Refuses-bind, Refuses-raise, Refuses-raise_if,
  Refuses-then_raise_if, transaction-Refuses,
}
use learning_qa_assistant.Evaluation.State.{
  Job, Workbench, EvaluationClaim, Settings, is_working, job_of,
}
use learning_qa_assistant.Evaluation.Jobs.{is_claimed, check_held, the_job, job, owned, heartbeat}

-- No job of the user, another token or generation, no lease or one that is over, or no work.
abbrev pub not_held : Option Job → EvaluationClaim → ℕ → Bool
not_held none claim time = true
not_held (some row) claim time =
    not (is_claimed claim row)
    || (has_passed row.lease_expires_at time || not (is_working row.state))

module _ (claim : EvaluationClaim) where
  lapsed-Refuses :
      (row : Job) (s : Session Workbench)
      → (has_passed row.lease_expires_at (s.clock 0) || not (is_working row.state)) ≡ true
      → Refuses
          (now >>= λ time.
            raise_if
              (has_passed row.lease_expires_at time || not (is_working row.state))
              evaluation_lease_lost)
          s
  unfolding ◌>>=◌
  lapsed-Refuses row s h = record {
    failure = app_error evaluation_lease_lost;
    raises = rw h refl;
    unsaved = refl;
  }

  check_held-Refuses :
      (row : Job) (s : Session Workbench)
      → not_held (some row) claim (s.clock 0) ≡ true
      → Refuses (check_held claim row) s
  unfolding check_held
  check_held-Refuses row s h = elim (Bool-cases (is_claimed claim row)) [
    | inl mine ↦ Refuses-then_raise_if _ _ _ s (lapsed-Refuses row s (rw mine at h))
    | inr other ↦ Refuses-bind _ _ s (Refuses-raise_if _ _ s (rw other refl))
  ]

  found-Refuses :
      {B : Type 0} (found : Option Job) (k : Job → Tx Workbench B) (s : Session Workbench)
      → ((row : Job) → found ≡ some row → Refuses (k row) s)
      → Refuses (the_job found >>= k) s
  unfolding the_job
  found-Refuses none k s r = Refuses-bind _ _ s (Refuses-raise _ s)
  found-Refuses (some row) k s r = Refuses-at k row s (r row refl)

  owned-Refuses :
      (settings : Settings) (allow_cancelling : Bool) (s : Session Workbench)
      → not_held (find_row (job_of claim.user_id claim.job_id) s.work.jobs) claim (s.clock 0) ≡ true
      → Refuses (owned settings claim allow_cancelling) s
  unfolding owned job
  owned-Refuses settings allow_cancelling s h =
      Refuses-get _ _ s
        (found-Refuses _ _ s (λ row e. Refuses-bind _ _ s (check_held-Refuses row s (rw e at h))))

-- A heartbeat for an evaluation job that the claim does not hold when the queue reads the clock
-- ends in an error, and no row changes.
pub unheld_heartbeat_refused :
    (settings : Settings) (claim : EvaluationClaim) (clock : ℕ → ℕ) (workbench : Workbench)
    → not_held (find_row (job_of claim.user_id claim.job_id) workbench.jobs) claim (clock 0) ≡ true
    → ((f : Failure) × ((transaction (heartbeat settings claim) clock workbench).0 ≡ err f))
      × ((transaction (heartbeat settings claim) clock workbench).1 ≡ workbench)
unfolding heartbeat
unheld_heartbeat_refused settings claim clock workbench h =
    transaction-Refuses _ clock workbench
      (Refuses-bind _ _ _ (owned-Refuses claim settings true _ h))
