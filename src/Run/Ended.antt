-- ===== src/Run/Ended.antt =====
-- What remains of a run that has ended, under calls and dispatches.
use learning_qa_assistant.Base.{
  ℕ, zero, suc, true, ◌≡◌, refl, ◌∙◌, ap, inl, inr, some, List, [], ◌∷◌, map, Option-cases,
}
use learning_qa_assistant.Run.State.{Run, OutboxRow, Environment, is_terminal}
use learning_qa_assistant.Run.Dispatch.{
  dispatch_rows, entry_of, outbox_row, dispatch_run, Change, called, dispatched, change, changes,
}
use learning_qa_assistant.Run.Terminal.{perform-ended}

-- The same rows in the same order, of which some may have been marked as dispatched, none of them
-- twice.
abbrev pub AreMarked : (before after : List OutboxRow) → Type 0
AreMarked [] [] = Unit
AreMarked (old ∷ before) (new ∷ after) =
    (new.sequence ≡ old.sequence)
    × ((t : ℕ) → old.dispatched_at ≡ some t → new.dispatched_at ≡ some t)
    × AreMarked before after
AreMarked _ _ = ⊥

-- The run is as it ended, but for marks in its outbox.
abbrev pub IsAsEnded : (ended run : Run) → Type 0
IsAsEnded ended run =
    (record run { outbox = ended.outbox } ≡ ended) × AreMarked ended.outbox run.outbox

AreMarked-refl : (rows : List OutboxRow) → AreMarked rows rows
AreMarked-refl [] = tt
AreMarked-refl (row ∷ rows) = (refl, (λ t e. e), AreMarked-refl rows)

AreMarked-trans : (a b c : List OutboxRow) → AreMarked a b → AreMarked b c → AreMarked a c
AreMarked-trans [] [] [] h k = tt
AreMarked-trans [] [] (z ∷ c) h k = absurd k
AreMarked-trans [] (y ∷ b) c h k = absurd h
AreMarked-trans (x ∷ a) [] c h k = absurd h
AreMarked-trans (x ∷ a) (y ∷ b) [] h k = absurd k
AreMarked-trans (x ∷ a) (y ∷ b) (z ∷ c) h k =
    (k.0 ∙ h.0, (λ t e. k.1 t (h.1 t e)), AreMarked-trans a b c h.2 k.2)

same_rows :
    (id : ℕ) (rows : List OutboxRow) → AreMarked rows (map outbox_row (map (entry_of id) rows))
same_rows id [] = tt
same_rows id (row ∷ rows) = (refl, (λ t e. e), same_rows id rows)

dispatch-AreMarked :
    (id limit : ℕ) (clock : ℕ → ℕ) (rows : List OutboxRow)
    → AreMarked rows (map outbox_row (dispatch_rows limit (map (entry_of id) rows) clock).0)
unfolding dispatch_rows
dispatch-AreMarked id zero clock rows = same_rows id rows
dispatch-AreMarked id (suc limit) clock [] = tt
dispatch-AreMarked id (suc limit) clock (row ∷ rows) = elim (Option-cases row.dispatched_at) [
  | inl waiting ↦ rw waiting (
    refl,
    (λ t e. absurd (cc (waiting, e))),
    dispatch-AreMarked id limit (λ n. clock (suc n)) rows,
  )
  | inr (t, done) ↦ rw done (refl, (λ u e. e), dispatch-AreMarked id (suc limit) clock rows)
]

module _ (env : Environment) (ended : Run) (over : is_terminal ended.state ≡ true) where
  change-IsAsEnded :
      (c : Change) (run : Run) → IsAsEnded ended run → IsAsEnded ended (change env c run)
  unfolding dispatch_run
  change-IsAsEnded (called call clock) run h =
      let state : is_terminal run.state ≡ true = ap (λ r. is_terminal r.state) h.0 ∙ over in
      let same = perform-ended env call clock run state in rw same h
  change-IsAsEnded (dispatched limit clock) run h = (
    h.0,
    AreMarked-trans ended.outbox run.outbox _ h.1
        (dispatch-AreMarked run.id limit clock run.outbox),
  )

  changes-IsAsEnded :
      (cs : List Change) (run : Run) → IsAsEnded ended run → IsAsEnded ended (changes env cs run)
  unfolding changes
  changes-IsAsEnded [] run h = h
  changes-IsAsEnded (c ∷ rest) run h =
      changes-IsAsEnded rest (change env c run) (change-IsAsEnded c run h)

-- A run that is cancelled, succeeded, failed or interrupted stays as it is, whatever calls are made
-- on it, by workers, users or the store itself, and whatever is dispatched of its outbox in
-- between: every row is as it was, but that rows of its outbox are marked as dispatched, and one
-- that was marked keeps its time.
pub ended_stays :
    (env : Environment) (cs : List Change) (run : Run)
    → is_terminal run.state ≡ true
    → IsAsEnded run (changes env cs run)
ended_stays env cs run over =
    changes-IsAsEnded env run over cs run (refl, AreMarked-refl run.outbox)
