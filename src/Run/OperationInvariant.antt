-- ===== src/Run/OperationInvariant.antt =====
-- What holds of all checkpointed calls of a run.
use learning_qa_assistant.Base.{
  ℕ, ◌≤◌, true, false, ◌≡◌, refl, some, List, [], ◌∷◌, length, arith, is_some, sym, subst,
  Bool-cases, inl, inr,
}
use learning_qa_assistant.Base.Text.{Text, text_eq}
use learning_qa_assistant.Run.State.{Run, Environment, Operation}
use learning_qa_assistant.Run.Operation.{find, store, is_succeeded}
use learning_qa_assistant.Run.Calls.{Call, run_history}
use learning_qa_assistant.Run.Stable.{
  History, history_of, Stable, Writes, Rewrites, opened, rewritten, retried, doubted, finished,
}
use learning_qa_assistant.Run.Operations.{length-Writes}
use learning_qa_assistant.Run.Stable.Preserved.{run_history-stable}

-- A row was attempted once, or up to three times where it only reads; a confirmed row has its result.
pub record IsBounded (row : Operation) : Type 0 where
  pub attempted : 1 ≤ row.attempts
  pub bounded : row.attempts ≤ 3
  pub once : row.readonly ≡ false → row.attempts ≡ 1
  pub confirmed : is_succeeded row.state ≡ true → is_some row.result ≡ true

abbrev pub AllBounded : List Operation → Type 0
AllBounded [] = Unit
AllBounded (row ∷ rows) = IsBounded row × AllBounded rows

pub record IsLedger (h : History) : Type 0 where
  pub few : length h.operations ≤ 128
  pub rows : AllBounded h.operations

find-IsBounded :
    (key : Text) (rows : List Operation) (row : Operation)
    → AllBounded rows
    → find key rows ≡ some row
    → IsBounded row
unfolding find
find-IsBounded key [] row h e = cc
find-IsBounded key (r ∷ rows) row h e = elim (Bool-cases (text_eq r.key key)) [
  | inl same ↦ subst IsBounded (cc (same, e)) h.0
  | inr other ↦ find-IsBounded key rows row h.1 (rw other at e)
]

store-AllBounded :
    (row : Operation) (rows : List Operation)
    → IsBounded row
    → AllBounded rows
    → AllBounded (store row rows)
unfolding store
store-AllBounded row [] b h = (b, tt)
store-AllBounded row (r ∷ rows) b h = elim (Bool-cases (text_eq r.key row.key)) [
  | inl same ↦ rw same (b, h.1)
  | inr other ↦ rw other (h.0, store-AllBounded row rows b h.1)
]

Rewrites-IsBounded : (old row : Operation) → Rewrites old row → IsBounded old → IsBounded row
Rewrites-IsBounded old row (retried g reads fresh few e) b =
    subst IsBounded (sym e) (record {
      attempted = omega arith;
      bounded = omega arith;
      once = λ h. cc;
      confirmed = λ h. cc;
    })
Rewrites-IsBounded old row (doubted reads fresh e) b =
    subst IsBounded (sym e)
      (record { attempted = b.attempted; bounded = b.bounded; once = b.once; confirmed = λ h. cc })
Rewrites-IsBounded old row (finished outcome open_row e) b =
    subst IsBounded (sym e) (record {
      attempted = b.attempted;
      bounded = b.bounded;
      once = b.once;
      confirmed = λ h. refl;
    })

Writes-IsBounded :
    (rows : List Operation) (row : Operation) → AllBounded rows → Writes rows row → IsBounded row
Writes-IsBounded rows row h (opened absent few start once) = record {
  attempted = omega arith;
  bounded = omega arith;
  once = λ _. once;
  confirmed = λ done. absurd (cc (start, done));
}
Writes-IsBounded rows row h (rewritten key old found change) =
    Rewrites-IsBounded old row change (find-IsBounded key rows old h found)

module _ (env : Environment) where
  IsLedger-Stable : Stable env IsLedger
  IsLedger-Stable = record {
    event = λ h e b l _ _ _. record { few = l.few; rows = l.rows };
    claimed = λ h l. record { few = l.few; rows = l.rows };
    saved = λ h c l _. record { few = l.few; rows = l.rows };
    written = λ h row l w. record {
      few = length-Writes h.operations row w l.few;
      rows = store-AllBounded row h.operations (Writes-IsBounded h.operations row l.rows w) l.rows;
    };
  }

  -- From a run whose operation rows are in order, any history of calls leaves at most 128 rows;
  -- each was attempted between one and three times, once only if it has side effects, and each
  -- confirmed row has its result.
  pub run_history-IsLedger :
      (calls : List (Call × (ℕ → ℕ))) (run : Run)
      → IsLedger (history_of run)
      → IsLedger (history_of (run_history env calls run))
  run_history-IsLedger calls run h = run_history-stable IsLedger-Stable calls run h
