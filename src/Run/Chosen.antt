-- ===== src/Run/Chosen.antt =====
-- The run that claim_next takes, among all runs.
use learning_qa_assistant.Base.{ℕ, Bool, ◌≡◌, ◌∙◌, sym, ap, Option, List, true, arith}
use learning_qa_assistant.Transaction.{ok, Session, now, put, transaction}
use learning_qa_assistant.Transaction.Rules.{>>=-eq-ok, transaction-eq-ok}
use learning_qa_assistant.Run.State.{Run, RunClaim, Environment}
use learning_qa_assistant.Run.Journal.{expire}
use learning_qa_assistant.Run.Firsts.{got, get-work}
use learning_qa_assistant.Run.Claim.{
  is_expired_waiting, is_abandoned, is_claimable, settle_cancelled,
}
use learning_qa_assistant.Run.Queue.{oldest, settle_cancellations, claim_ready, claim_next_body}
use learning_qa_assistant.Run.Taking.{offered}
use learning_qa_assistant.Run.Idle.{
  IsIdle, idle_not_claimable, expire-Idle, settle_cancelled-Idle, on_each-oldest,
}
use learning_qa_assistant.Run.Oldest.{IsOldest, oldest-IsOldest, claim_found-offered}

now-eq-ok :
    (s t : Session (List Run)) (time : ℕ)
    → now s ≡ (ok time, t)
    → (time ≡ s.clock 0) × (t.work ≡ s.work)
unfolding now
now-eq-ok s t time h = (cc (ap (λ p. p.0) h), ap (λ p. p.1.work) (sym h))

put-work :
    (rows : List Run) (s t : Session (List Run)) (a : Unit {0})
    → put rows s ≡ (ok a, t)
    → t.work ≡ rows
unfolding put
put-work rows s t a h = ap (λ p. p.1.work) (sym h)

module _ (env : Environment) where
  waiting-IsIdle : (time : ℕ) (run : Run) → is_expired_waiting env.kind time run ≡ true → IsIdle run
  waiting-IsIdle time run h = ground arith

  abandoned-IsIdle : (time : ℕ) (run : Run) → is_abandoned env.kind time run ≡ true → IsIdle run
  abandoned-IsIdle time run h = ground arith

  module _ (at : ℕ) (run_id : Option ℕ) where
    abbrev pick : Run → Bool
    pick = is_claimable env.kind at run_id

    settle-oldest :
        (s t : Session (List Run)) (a : Unit {0})
        → settle_cancellations env s ≡ (ok a, t)
        → oldest pick t.work ≡ oldest pick s.work
    unfolding settle_cancellations
    settle-oldest s t a h =
        let (time, s1, e1, h1) = >>=-eq-ok _ _ s t a h in
        let (read, s2, e2, h2) = >>=-eq-ok _ _ s1 t a h1 in
        let (rows, s3, e3, h3) = >>=-eq-ok _ _ s2 t a h2 in
        let (same, _) =
          on_each-oldest (settle_cancelled env) (settle_cancelled-Idle env)
            (is_abandoned env.kind time) pick (abandoned-IsIdle time)
            (idle_not_claimable env at run_id) 10 read rows s2 s3 e3 in
        let start : read ≡ s.work =
          got read s1 s2 e2 ∙ get-work read s1 s2 e2 ∙ (now-eq-ok s s1 time e1).1 in
        ap (oldest pick) (put-work rows s3 t a h3) ∙ same ∙ ap (oldest pick) start

    claim_ready-offered :
        (token : ℕ) (o : Option RunClaim) (s t : Session (List Run))
        → claim_ready env token at run_id s ≡ (ok o, t)
        → o ≡ offered env token at (oldest pick s.work)
    unfolding claim_ready
    claim_ready-offered token o s t h =
        let (ready, s1, e1, h1) = >>=-eq-ok _ _ s t o h in
        let start : ready ≡ s.work = got ready s s1 e1 ∙ get-work ready s s1 e1 in
        claim_found-offered env token at (oldest pick ready) o s1 t h1
        ∙ ap (λ r. offered env token at (oldest pick r)) start

  claim_next-offered :
      (token : ℕ) (run_id : Option ℕ) (o : Option RunClaim) (s t : Session (List Run))
      → claim_next_body env token run_id s ≡ (ok o, t)
      → o ≡ offered env token (s.clock 0) (oldest (pick (s.clock 0) run_id) s.work)
  unfolding claim_next_body
  claim_next-offered token run_id o s t h =
      let (time, s1, e1, h1) = >>=-eq-ok _ _ s t o h in
      let (read, s2, e2, h2) = >>=-eq-ok _ _ s1 t o h1 in
      let (rows, s3, e3, h3) = >>=-eq-ok _ _ s2 t o h2 in
      let (_, s4, e4, h4) = >>=-eq-ok _ _ s3 t o h3 in
      let (_, s5, e5, h5) = >>=-eq-ok _ _ s4 t o h4 in
      let (first_time, work1) = now-eq-ok s s1 time e1 in
      let (same, _) =
        on_each-oldest (expire env) (expire-Idle env) (is_expired_waiting env.kind time)
          (pick time run_id) (waiting-IsIdle time) (idle_not_claimable env time run_id) 10 read rows
          s2 s3 e3 in
      let start : read ≡ s.work = got read s1 s2 e2 ∙ get-work read s1 s2 e2 ∙ work1 in
      let settled : oldest (pick time run_id) s5.work ≡ oldest (pick time run_id) s.work =
        settle-oldest time run_id s4 s5 _ e5
        ∙ ap (oldest (pick time run_id)) (put-work rows s3 s4 _ e4)
        ∙ same
        ∙ ap (oldest (pick time run_id)) start in
      claim_ready-offered time run_id token o s5 t h5
      ∙ ap (offered env token time) settled
      ∙ ap (λ u. offered env token u (oldest (pick u run_id) s.work)) first_time

-- When claim_next returns, it has found the oldest run, by the time of creation and then by id, of
-- those that could be claimed when the call began, at its first reading of the clock, among all
-- runs or of the one that it is asked for; or there was none. It gives the claim of the run that it
-- has found, in the next generation, if some of that run's budget was left, and nothing if not.
pub claim_next-IsOldest :
    (env : Environment) (token : ℕ) (run_id : Option ℕ) (clock : ℕ → ℕ) (runs : List Run)
    (o : Option RunClaim)
    → (transaction (claim_next_body env token run_id) clock runs).0 ≡ ok o
    → (found : Option Run) × IsOldest (is_claimable env.kind (clock 0) run_id) runs found
      × (o ≡ offered env token (clock 0) found)
claim_next-IsOldest env token run_id clock runs o h =
    let (t, e, _) = transaction-eq-ok (claim_next_body env token run_id) clock runs o h in
    let start : Session (List Run) = record { work = runs; saved = runs; clock = clock } in
    let test = is_claimable env.kind (clock 0) run_id in
    (oldest test runs, oldest-IsOldest test runs, claim_next-offered env token run_id o start t e)
