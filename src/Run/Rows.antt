-- ===== src/Run/Rows.antt =====
-- Counting the rows that satisfy a test, and what one row of a table can become.
use learning_qa_assistant.Base.{
  ℕ, ◌+◌, ◌≤◌, Bool, true, ◌≡◌, refl, ◌∙◌, ap, none, some, List, [], ◌∷◌, ◌++◌, arith, Bool-cases,
  inl, inr,
}
use learning_qa_assistant.Transaction.{Tx}
use learning_qa_assistant.Transaction.Rules.{
  Post, Post-bind, Post-put, Post-when, then_get, then_raise_if, then_put, then_now, then_do,
}
use learning_qa_assistant.Run.State.{Run, Environment, EventData, is_active}
use learning_qa_assistant.Run.Journal.{
  save_event, journaled, message_state, shown, expire, expire_past, expire_waiting, expire_running,
}
use learning_qa_assistant.Run.Stable.{history_of}
use learning_qa_assistant.Run.Stable.Keeping.{history-shown}
use learning_qa_assistant.Run.Receipts.{identity_of}
use learning_qa_assistant.Run.Store.{first, change_first, one, count, in_session}

pub count-append :
    (test : Run → Bool) (runs : List Run) (new : Run)
    → count test (runs ++ new ∷ []) ≡ count test runs + one (test new)
unfolding count
count-append test [] new = omega arith
count-append test (run ∷ runs) new = omega (arith, count-append test runs new)

pub count-first-none :
    (test : Run → Bool) (runs : List Run) → first test runs ≡ none → count test runs ≡ 0
unfolding first count
count-first-none test [] h = refl
count-first-none test (run ∷ runs) h = ground (arith, count-first-none test runs)

-- Changing the first row that passes one test changes the count for another by that row alone.
pub count-change_first :
    (test other : Run → Bool) (new : Run) (runs : List Run) (found : Run)
    → first test runs ≡ some found
    → count other (change_first test new runs) + one (other found)
      ≡ count other runs + one (other new)
unfolding first change_first count
count-change_first test other new [] found h = cc
count-change_first test other new (run ∷ runs) found h = elim (Bool-cases (test run)) [
  | inl hit ↦ rw hit (omega (arith, same hit))
  | inr miss ↦ rw miss (omega (arith, count-change_first test other new runs found (rw miss at h)))
]
  where
    same : test run ≡ true → one (other found) ≡ one (other run)
    same hit = cc (hit, h)

pub first-passes :
    (test : Run → Bool) (runs : List Run) (found : Run)
    → first test runs ≡ some found
    → test found ≡ true
unfolding first
first-passes test [] found h = cc
first-passes test (run ∷ runs) found h = ground (arith, first-passes test runs found)

-- `run` is a later state of the row `old`: what it is is the same, and no run comes to life.
pub record Succeeds (old run : Run) : Type 0 where
  pub same : identity_of (history_of run) ≡ identity_of (history_of old)
  pub alive : is_active run.state ≡ true → is_active old.state ≡ true

pub Succeeds-one :
    (old run : Run) (sid : ℕ)
    → Succeeds old run
    → one (in_session sid run) ≤ one (in_session sid old)
unfolding in_session
Succeeds-one old run sid h = ground (arith, ap (λ i. i.session_id) h.same, h.alive)

shown-Succeeds : (old run : Run) → Succeeds old run → Succeeds old (shown run)
unfolding shown
shown-Succeeds old run h = record {
  same = ap identity_of (history-shown run) ∙ h.same;
  alive = λ k. h.alive (ground arith);
}

module _ (env : Environment) (old : Run) where
  abbrev Later : Tx Run (Unit {0}) → Type 0
  Later m = Post (Succeeds old) (λ _. Unit {0}) m

  pub save_event-Succeeds :
      (body : EventData) (terminal : Bool) → Later (save_event env body terminal)
  unfolding save_event journaled
  save_event-Succeeds body terminal =
      then_get
        λ run h. then_raise_if _ _ λ _. Post-put _ (record { same = h.same; alive = h.alive })

  message_state-Succeeds : Later message_state
  unfolding message_state
  message_state-Succeeds = then_get λ run h. Post-put _ (shown-Succeeds old run h)

  expire_waiting-Succeeds : Later (expire_waiting env)
  unfolding expire_waiting
  expire_waiting-Succeeds = then_do _ (save_event-Succeeds _ _) (
      then_get λ run h.
        then_put _ (record { same = h.same; alive = λ k. absurd (cc k) }) message_state-Succeeds)

  expire_running-Succeeds : Later (expire_running env)
  unfolding expire_running
  expire_running-Succeeds =
      then_do _ (save_event-Succeeds _ _)
        (then_get λ run h. Post-put _ (record { same = h.same; alive = λ k. absurd (cc k) }))

  expire_past-Succeeds : (m : Tx Run (Unit {0})) → Later m → Later (expire_past m)
  unfolding expire_past
  expire_past-Succeeds m lm = then_get λ run h. then_now λ time. Post-when _ m (λ _. lm)

  pub expire-Succeeds : Later (expire env)
  unfolding expire
  expire-Succeeds = then_get λ run h.
      Post-bind _ _ (Post-when _ _ (λ _. expire_past-Succeeds _ expire_waiting-Succeeds))
        λ _ _. Post-when _ _ (λ _. expire_past-Succeeds _ expire_running-Succeeds)
