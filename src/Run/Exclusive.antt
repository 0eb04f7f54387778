-- ===== src/Run/Exclusive.antt =====
-- At most one run of a session is active.
use learning_qa_assistant.Base.{
  ℕ, ◌≤◌, Bool, true, false, ◌≡◌, refl, ap, subst, Option, none, some, List, [], ◌∷◌, ◌++◌, ◌==◌,
  arith, Bool-cases, inl, inr,
}
use learning_qa_assistant.Transaction.{Result, ok, err, Session, Tx, ◌>>=◌, ◌>>◌, commit, pure, now}
use learning_qa_assistant.Transaction.Rules.{Post, Post-pure}
use learning_qa_assistant.Transaction.Triple.{Triple, Settles}
use learning_qa_assistant.Run.State.{Run, Environment, is_active}
use learning_qa_assistant.Run.Store.{
  Creation, first, change_first, one, count, in_session, settled, on_first, approval_event,
}
use learning_qa_assistant.Run.Rows.{
  count-append, count-change_first, first-passes, Succeeds, Succeeds-one, save_event-Succeeds,
}

abbrev pub IsExclusive : List Run → Type 0
IsExclusive runs = (sid : ℕ) → count (in_session sid) runs ≤ 1

-- Both what is worked on and what is saved are exclusive.
abbrev pub Good : Session (List Run) → Type 0
Good s = IsExclusive s.work × IsExclusive s.saved

abbrev pub Safe : Session (List Run) → Type 0
Safe s = IsExclusive s.saved

pub change_first-IsExclusive :
    (test : Run → Bool) (old new : Run) (runs : List Run)
    → first test runs ≡ some old
    → Succeeds old new
    → IsExclusive runs
    → IsExclusive (change_first test new runs)
change_first-IsExclusive test old new runs found later h sid = omega (
  arith,
  count-change_first test (in_session sid) new runs old found,
  Succeeds-one old new sid later,
  h sid,
)

-- The row `old` that the test finds first has become `run`.
pub record Changed (test : Run → Bool) (old run : Run) (t : Session (List Run)) : Type 0 where
  pub good : Good t
  pub later : Succeeds old run
  pub before : List Run
  pub exclusive : IsExclusive before
  pub found : first test before ≡ some old
  pub changed : t.work ≡ change_first test run before

pub settled-Settles :
    (E : Session (List Run) → Type 0) (Q : Run → Session (List Run) → Type 0)
    (r : Result (Unit {0})) (run : Run) (t : Session (List Run))
    → Q run t
    → E t
    → Settles Q E (settled r run) t
settled-Settles E Q (ok _) run t q safe = q
settled-Settles E Q (err f) run t q safe = safe

pub on_first-Triple :
    (test : Run → Bool) (old : Run) (body : Tx Run (Unit {0}))
    → Post (Succeeds old) (λ _. Unit {0}) body
    → Triple
        (λ s. Good s × (first test s.work ≡ some old))
        (Changed test old)
        Safe
        (on_first test old body)
unfolding on_first
on_first-Triple test old body keeps = record {
  at = λ s p.
      let inner : Session Run = record { work = old; saved = old; clock = s.clock } in
      let same : Succeeds old old = record { same = refl; alive = λ k. k } in
      let (later, _, _) = keeps.at inner same same in
      let run = (body inner).1.work in
      settled-Settles Safe (Changed test old) (body inner).0 run _
        (record {
          good = (change_first-IsExclusive test old run s.work p.1 later p.0.0, p.0.1);
          later = later;
          before = s.work;
          exclusive = p.0.0;
          found = p.1;
          changed = refl;
        })
        p.0.1;
}

-- No run of the session is active.
abbrev pub IsClear : ℕ → Session (List Run) → Type 0
IsClear sid s = Good s × (count (in_session sid) s.work ≡ 0)

ended-out : (sid : ℕ) (run : Run) → is_active run.state ≡ false → in_session sid run ≡ false
unfolding in_session
ended-out sid run ended = rw ended refl

pub Changed-IsClear :
    (sid : ℕ) (old run : Run) (t : Session (List Run))
    → Changed (in_session sid) old run t
    → is_active run.state ≡ false
    → IsClear sid t
Changed-IsClear sid old run t c ended =
    let passes = first-passes (in_session sid) c.before old c.found in
    let counted = count-change_first (in_session sid) (in_session sid) run c.before old c.found in
    let gone = ended-out sid run ended in
    (
      c.good,
      omega (
        arith,
        counted,
        ap one passes,
        ap one gone,
        c.exclusive sid,
        ap (count (in_session sid)) c.changed,
      ),
    )

pub now-Triple :
    (sid : ℕ) (b : Bool) → Triple (λ s. IsClear sid s × (b ≡ false)) (λ _ s. IsClear sid s) Safe now
unfolding now
now-Triple sid b = record { at = λ s c. c.0 }

pub saving-Triple : (out : Run × Bool) → Triple Good (λ _ s. Safe s) Safe (commit >> pure out)
unfolding ◌>>=◌
saving-Triple out = record { at = λ s c. c.0 }

pub one-le : (b : Bool) → one b ≤ 1
one-le true = omega arith
one-le false = omega arith

pub eq_sound : (a b : ℕ) → (a == b) ≡ true → a ≡ b
eq_sound a b h = ground arith

elsewhere : (sid : ℕ) (run : Run) → (run.session_id == sid) ≡ false → in_session sid run ≡ false
unfolding in_session
elsewhere sid run h = ground (arith, h)

pub new-IsExclusive :
    (sid : ℕ) (run : Run) (runs : List Run)
    → IsExclusive runs
    → count (in_session sid) runs ≡ 0
    → run.session_id ≡ sid
    → IsExclusive (runs ++ run ∷ [])
new-IsExclusive sid run runs h clear here other = elim (Bool-cases (sid == other)) [
  | inl same ↦ omega (
    arith,
    count-append (in_session other) runs run,
    one-le (in_session other run),
    subst (λ n. count (in_session n) runs ≡ 0) (eq_sound sid other same) clear,
  )
  | inr differs ↦ omega (
    arith,
    count-append (in_session other) runs run,
    h other,
    ap one (elsewhere other run (here_differs differs)),
  )
]
  where
    here_differs : (sid == other) ≡ false → (run.session_id == other) ≡ false
    here_differs d = rw here d

pub approval_event-Succeeds :
    (env : Environment) (creation : Creation) (row : Run) (o : Option ℕ)
    → Post (Succeeds row) (λ _. Unit {0}) (approval_event env creation o)
unfolding approval_event
approval_event-Succeeds env creation row none = Post-pure tt tt
approval_event-Succeeds env creation row (some approval) = save_event-Succeeds env row _ _
