-- ===== src/Run/Resuming.antt =====
-- A resume call may be sent again: what it does, it does once.
use learning_qa_assistant.Base.{
  ℕ, Bool, true, ◌&&◌, ◌≡◌, refl, ◌∙◌, ap, sym, Option, none, some, arith, ◌==◌,
}
use learning_qa_assistant.Base.Text.{Text, strip}
use learning_qa_assistant.Transaction.{Session, ok, Tx, transaction, ◌>>=◌}
use learning_qa_assistant.Transaction.Rules.{
  >>=-eq-ok, raise_if-eq-ok, lift-eq-ok, transaction-eq-ok,
}
use learning_qa_assistant.Run.State.{Run, Environment, same_kind}
use learning_qa_assistant.Run.Journal.{get_row}
use learning_qa_assistant.Run.Resume.{
  resume_body, resume_public, resume_checked, resume_seen, resume_retry, receipt_of,
}
use learning_qa_assistant.Run.Calls.{resume, call_tx, perform}
use learning_qa_assistant.Run.Stable.{history_of}
use learning_qa_assistant.Run.Stable.Preserved.{perform-stable}
use learning_qa_assistant.Run.Receipts.{
  identity_of, identity-Stable, IsAnswered, then_same, then_lifted, resume_seen-answers,
}

module _ (env : Environment) where
  -- The session of a transaction that begins.
  abbrev opened : (ℕ → ℕ) → Run → Session Run
  opened clock run = record { work = run; saved = run; clock = clock }

  abbrev fits_row : (user_id run_id : ℕ) → Run → Bool
  fits_row user_id run_id run =
      run.id == run_id && run.user_id == user_id && same_kind run.kind env.kind

  get_row-found :
      (user_id run_id : ℕ) (s t : Session Run) (row : Run)
      → get_row env user_id run_id true s ≡ (ok row, t)
      → (fits_row user_id run_id s.work ≡ true)
        × (env.authorize user_id s.work.session_id ≡ true)
        × (row ≡ s.work)
        × (t ≡ s)
  unfolding get_row ◌>>=◌
  get_row-found user_id run_id s t row h = ground arith

  -- The checks of a resume call that passed, and the receipt that it left.
  resume_checked-answers :
      (user_id run_id revision key : ℕ) (supplement : Text) (query : Option Text) (clock : ℕ → ℕ)
      (run : Run) (t : Session Run)
      → resume_checked env user_id run_id revision key supplement query (opened clock run)
        ≡ (ok tt, t)
      → (fits_row user_id run_id run ≡ true)
        × (env.authorize user_id run.session_id ≡ true)
        × IsAnswered
            (record {
              key = key;
              input_hash = env.supplement_hash supplement query;
              revision = revision;
            })
            t.saved
  unfolding resume_checked
  resume_checked-answers user_id run_id revision key supplement query clock run t h =
      let (row, s1, e, k) = >>=-eq-ok _ _ _ t tt h in
      let (fits, allowed, same, still) = get_row-found user_id run_id _ s1 row e in
      (
        fits,
        allowed,
        (resume_seen-answers env) _ user_id _ supplement query s1 t
            (ap (λ x. receipt_of x.saved.checkpoint) still
              ∙ ap (λ r. receipt_of r.checkpoint) (sym same))
            k,
      )

  resume_checked-again :
      (user_id run_id revision key : ℕ) (supplement : Text) (query : Option Text) (clock : ℕ → ℕ)
      (run : Run)
      → fits_row user_id run_id run ≡ true
      → env.authorize user_id run.session_id ≡ true
      → IsAnswered
          (record {
            key = key;
            input_hash = env.supplement_hash supplement query;
            revision = revision;
          })
          run
      → resume_checked env user_id run_id revision key supplement query (opened clock run)
        ≡ (ok tt, opened clock run)
  unfolding resume_checked get_row resume_seen resume_retry ◌>>=◌
  resume_checked-again user_id run_id revision key supplement query clock run fits allowed
        (seen, found, same_key, same) =
      rw fits (rw allowed (rw found (rw same_key (rw same refl))))

  resume_checked-twice :
      (user_id run_id revision key : ℕ) (supplement : Text) (query : Option Text)
      (clock clock' : ℕ → ℕ) (run : Run) (t : Session Run)
      → resume_checked env user_id run_id revision key supplement query (opened clock run)
        ≡ (ok tt, t)
      → identity_of (history_of t.saved) ≡ identity_of (history_of run)
      → resume_checked env user_id run_id revision key supplement query (opened clock' t.saved)
        ≡ (ok tt, opened clock' t.saved)
  resume_checked-twice user_id run_id revision key supplement query clock clock' run t h same =
      let (fits, allowed, answered) =
        resume_checked-answers user_id run_id revision key supplement query clock run t h in
      resume_checked-again user_id run_id revision key supplement query clock' t.saved
        (ap (λ i. i.id == run_id && i.user_id == user_id && same_kind i.kind env.kind) same ∙ fits)
        (ap (λ i. env.authorize user_id i.session_id) same ∙ allowed) answered

  resume_public-twice :
      (user_id run_id revision key : ℕ) (supplement : Text) (query : Option Text)
      (clock clock' : ℕ → ℕ) (run : Run) (t : Session Run)
      → resume_public env query
          (resume_checked env user_id run_id revision key supplement)
          (opened clock run)
        ≡ (ok tt, t)
      → identity_of (history_of t.saved) ≡ identity_of (history_of run)
      → resume_public env query
          (resume_checked env user_id run_id revision key supplement)
          (opened clock' t.saved)
        ≡ (ok tt, opened clock' t.saved)
  unfolding resume_public
  resume_public-twice user_id run_id revision key supplement none clock clock' run t h same =
      resume_checked-twice user_id run_id revision key supplement none clock clock' run t h same
  resume_public-twice user_id run_id revision key supplement (some query) clock clock' run t h
        same =
      let (_, s1, e1, h1) = >>=-eq-ok _ _ _ t tt h in
      let (fits, same1) = raise_if-eq-ok _ _ _ s1 _ e1 in
      let (prepared, s2, e2, h2) = >>=-eq-ok _ _ s1 t tt h1 in
      let (found, same2) = lift-eq-ok _ s1 s2 prepared e2 in
      let again =
        resume_checked-twice user_id run_id revision key supplement (some prepared) clock clock' run
          t
          (ap (resume_checked env user_id run_id revision key supplement (some prepared))
              (sym (same2 ∙ same1))
            ∙ h2)
          same in
      then_same _ _ _ _ fits (then_lifted _ _ prepared _ found again)

  resume-twice :
      (user_id run_id revision key : ℕ) (supplement : Text) (query : Option Text)
      (clock clock' : ℕ → ℕ) (run : Run) (t : Session Run)
      → resume_body env user_id run_id revision key supplement query (opened clock run) ≡ (ok tt, t)
      → identity_of (history_of t.saved) ≡ identity_of (history_of run)
      → resume_body env user_id run_id revision key supplement query (opened clock' t.saved)
        ≡ (ok tt, opened clock' t.saved)
  unfolding resume_body
  resume-twice user_id run_id revision key supplement query clock clock' run t h same =
      let (_, s1, e1, h1) = >>=-eq-ok _ _ _ t tt h in
      let (fits, same1) = raise_if-eq-ok _ _ _ s1 _ e1 in
      then_same _ _ _ _ fits (
        resume_public-twice user_id run_id revision key (strip supplement) query clock clock' run t
          (ap
              (resume_public env query
                (resume_checked env user_id run_id revision key (strip supplement)))
              (sym same1)
            ∙ h1)
          same)

transaction-still :
    (m : Tx Run (Unit {0})) (clock : ℕ → ℕ) {after saved : Run}
    → after ≡ saved
    → m (record { work = saved; saved = saved; clock = clock })
      ≡ (ok tt, record { work = saved; saved = saved; clock = clock })
    → transaction m clock after ≡ (ok tt, after)
unfolding transaction
transaction-still m clock same again = rw same (ap (λ p. (p.0, p.1.saved)) again)

-- A resume call that was accepted may be sent again, at any later clock reading: it is accepted,
-- and the run is left exactly as the first call left it, so that the supplement is added once.
pub resume_twice :
    (env : Environment) (user_id run_id revision key : ℕ) (supplement : Text) (query : Option Text)
    (clock clock' : ℕ → ℕ) (run : Run)
    → (perform env (resume user_id run_id revision key supplement query) clock run).0 ≡ ok tt
    → let after = (perform env (resume user_id run_id revision key supplement query) clock run).1 in
      perform env (resume user_id run_id revision key supplement query) clock' after
      ≡ (ok tt, after)
unfolding perform call_tx
resume_twice env user_id run_id revision key supplement query clock clock' run h =
    let call = resume user_id run_id revision key supplement query in
    let same =
      perform-stable (identity-Stable env (identity_of (history_of run))) call clock run refl in
    let (t, e, saved) =
      transaction-eq-ok (resume_body env user_id run_id revision key supplement query) clock run tt
        h in
    let again =
      resume-twice env user_id run_id revision key supplement query clock clock' run t e
        (ap (λ r. identity_of (history_of r)) (sym saved) ∙ same) in
    transaction-still (resume_body env user_id run_id revision key supplement query) clock' saved
      again
