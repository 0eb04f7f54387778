-- ===== src/Run/Idle.antt =====
-- What claim_next settles first: it leaves the runs that can be claimed, and makes no others.
use learning_qa_assistant.Base.{
  ℕ, zero, suc, Bool, true, false, ◌||◌, ◌≡◌, refl, ◌∙◌, sym, ap, subst, inl, inr, Option, List, [],
  ◌∷◌, arith, Bool-cases, if◌then◌else◌,
}
use learning_qa_assistant.Transaction.{Result, ok, err, Session, Tx, pure, ◌>>=◌}
use learning_qa_assistant.Transaction.Rules.{
  Post, Post-put, Post-when, then_get, then_raise_if, then_put, then_now, then_do, >>=-eq-ok,
}
use learning_qa_assistant.Run.State.{Run, Environment, EventData, is_queued, is_running}
use learning_qa_assistant.Run.Journal.{
  save_event, journaled, message_state, shown, expire, expire_past, expire_waiting, expire_running,
}
use learning_qa_assistant.Run.Claim.{is_claimable, settle_cancelled}
use learning_qa_assistant.Run.Queue.{paired, on_row, on_each, earlier, oldest}

-- No worker may come to hold it.
abbrev pub IsIdle : Run → Type 0
IsIdle run = (is_queued run.state || is_running run.state) ≡ false

pub idle_not_claimable :
    (env : Environment) (time : ℕ) (run_id : Option ℕ) (run : Run)
    → IsIdle run
    → is_claimable env.kind time run_id run ≡ false
idle_not_claimable env time run_id run h = ground arith

shown-IsIdle : (run : Run) → IsIdle run → IsIdle (shown run)
unfolding shown
shown-IsIdle run h = ground arith

module _ (env : Environment) where
  abbrev Idle : Tx Run (Unit {0}) → Type 0
  Idle m = Post IsIdle (λ _. Unit {0}) m

  save_event-Idle : (body : EventData) (terminal : Bool) → Idle (save_event env body terminal)
  unfolding save_event journaled
  save_event-Idle body terminal = then_get λ run h. then_raise_if _ _ λ _. Post-put _ h

  message_state-Idle : Idle message_state
  unfolding message_state
  message_state-Idle = then_get λ run h. Post-put _ (shown-IsIdle run h)

  expire_waiting-Idle : Idle (expire_waiting env)
  unfolding expire_waiting
  expire_waiting-Idle =
      then_do _ (save_event-Idle _ _) (then_get λ run h. then_put _ refl message_state-Idle)

  expire_running-Idle : Idle (expire_running env)
  unfolding expire_running
  expire_running-Idle = then_do _ (save_event-Idle _ _) (then_get λ run h. Post-put _ refl)

  expire_past-Idle : (m : Tx Run (Unit {0})) → Idle m → Idle (expire_past m)
  unfolding expire_past
  expire_past-Idle m keeps = then_get λ run h. then_now λ time. Post-when _ m (λ _. keeps)

  pub expire-Idle : Idle (expire env)
  unfolding expire
  expire-Idle = then_get λ run h.
      then_do _ (Post-when _ _ (λ _. expire_past-Idle _ expire_waiting-Idle))
        (Post-when _ _ (λ _. expire_past-Idle _ expire_running-Idle))

  pub settle_cancelled-Idle : Idle (settle_cancelled env)
  unfolding settle_cancelled
  settle_cancelled-Idle = then_get λ run h.
      then_put _ refl
        (then_do _ message_state-Idle (then_get λ later k. then_put _ k (save_event-Idle _ _)))

paired-row :
    (r : Result (Unit {0})) (w row : Run) (a : Unit {0}) → paired r w ≡ ok (a, row) → w ≡ row
paired-row (ok b) w row a h = cc h
paired-row (err f) w row a h = absurd (cc h)

module _ (n : ℕ) (due : Run → Bool) (m : Tx Run (Unit {0})) (run : Run) (runs : List Run) where
  on_each_due :
      due run ≡ true
      → on_each (suc n) due m (run ∷ runs)
        ≡ (do changed ← on_row run m; rest ← on_each n due m runs; pure (changed.1 ∷ rest))
  unfolding on_each
  on_each_due hit = rw (on_each, hit) refl

  on_each_other :
      due run ≡ false
      → on_each (suc n) due m (run ∷ runs)
        ≡ (do rest ← on_each (suc n) due m runs; pure (run ∷ rest))
  unfolding on_each
  on_each_other miss = rw (on_each, miss) refl

module _ (m : Tx Run (Unit {0})) (keeps : Post IsIdle (λ _. Unit {0}) m) where
  on_row-IsIdle :
      (run : Run) (s t : Session (List Run)) (a : Unit {0}) (row : Run)
      → IsIdle run
      → on_row run m s ≡ (ok (a, row), t)
      → IsIdle row × (t.work ≡ s.work)
  unfolding on_row
  on_row-IsIdle run s t a row idle h =
      let inner : Session Run = record { work = run; saved = run; clock = s.clock } in
      let (later, _, _) = keeps.at inner idle idle in
      let e = paired-row (m inner).0 (m inner).1.work row a (ap (λ p. p.0) h) in
      (subst IsIdle e later, ap (λ p. p.1.work) (sym h))

  module _ (due pick : Run → Bool) (due_idle : (run : Run) → due run ≡ true → IsIdle run)
      (idle_unpicked : (run : Run) → IsIdle run → pick run ≡ false) where
    -- Rows that are changed pass the test neither before nor after.
    pub on_each-oldest :
        (n : ℕ) (runs rows : List Run) (s t : Session (List Run))
        → on_each n due m runs s ≡ (ok rows, t)
        → (oldest pick rows ≡ oldest pick runs) × (t.work ≡ s.work)
    unfolding on_each oldest pure
    on_each-oldest zero runs rows s t h =
        let here : rows ≡ runs = cc (ap (λ p. p.0) h) in
        (ap (oldest pick) here, ap (λ p. p.1.work) (sym h))
    on_each-oldest (suc n) [] rows s t h =
        let here : rows ≡ [] = cc (ap (λ p. p.0) h) in
        (ap (oldest pick) here, ap (λ p. p.1.work) (sym h))
    on_each-oldest (suc n) (run ∷ runs) rows s t h = elim (Bool-cases (due run)) [
      | inl hit ↦
          let ((a, row), s1, e1, h1) =
            >>=-eq-ok _ _ s t rows (ap (λ x. x s) (sym (on_each_due n due m run runs hit)) ∙ h) in
          let (rest, s2, e2, h2) = >>=-eq-ok _ _ s1 t rows h1 in
          let (idle, work1) = on_row-IsIdle run s s1 a row (due_idle run hit) e1 in
          let (same, work2) = on_each-oldest n runs rest s1 s2 e2 in
          let here : rows ≡ row ∷ rest = cc (ap (λ p. p.0) h2) in
          (
            ap (oldest pick) here
                ∙ rw (idle_unpicked row idle) (rw (idle_unpicked run (due_idle run hit)) same),
            ap (λ p. p.1.work) (sym h2) ∙ work2 ∙ work1,
          )
      | inr miss ↦
          let (rest, s2, e2, h2) =
            >>=-eq-ok _ _ s t rows
              (ap (λ x. x s) (sym (on_each_other n due m run runs miss)) ∙ h) in
          let (same, work) = on_each-oldest (suc n) runs rest s s2 e2 in
          let here : rows ≡ run ∷ rest = cc (ap (λ p. p.0) h2) in
          (
            ap (oldest pick) here ∙ ap (λ o. if pick run then earlier run o else o) same,
            ap (λ p. p.1.work) (sym h2) ∙ work,
          )
    ]
