-- ===== src/Run/JournalInvariant.antt =====
-- The event journal of a run: what every reader of the stream relies on.
use learning_qa_assistant.Base.{
  ℕ, suc, ◌+◌, ◌≤◌, ◌<◌, Bool, true, false, ◌≡◌, refl, none, List, [], ◌∷◌, ◌++◌, map, length,
  length-append, arith,
}
use learning_qa_assistant.Run.State.{Run, Environment, Event, OutboxRow}
use learning_qa_assistant.Run.Journal.{sequence_limit, bytes_limit}
use learning_qa_assistant.Run.Calls.{Call, run_history}
use learning_qa_assistant.Run.Stable.{History, history_of, Stable}
use learning_qa_assistant.Run.Stable.Preserved.{run_history-stable}

-- The events are numbered one by one from `n + 1`.
abbrev pub IsNumbered : ℕ → List Event → Type 0
IsNumbered n [] = Unit
IsNumbered n (e ∷ es) = (e.sequence ≡ suc n) × IsNumbered (suc n) es

abbrev pub numbers : List Event → List ℕ
numbers = map (λ e. e.sequence)

abbrev pub receipts : List OutboxRow → List ℕ
receipts = map (λ row. row.sequence)

module _ (env : Environment) where
  abbrev pub total_size : ℕ → List Event → ℕ
  total_size id [] = 0
  total_size id (e ∷ es) = env.event_size id e + total_size id es

  -- No gap and no repetition, one outbox receipt for each event in order, and the two counters of
  -- the row count the events and their bytes, within the limits.
  pub record IsJournal (h : History) : Type 0 where
    pub numbered : IsNumbered 0 h.events
    pub counted : h.sequence ≡ length h.events
    pub receipted : receipts h.outbox ≡ numbers h.events
    pub measured : h.event_bytes ≡ total_size h.id h.events
    pub few : h.sequence ≤ 8200
    pub small : h.event_bytes ≤ 8000000

IsNumbered-append :
    (n : ℕ) (es : List Event) (e : Event)
    → IsNumbered n es
    → e.sequence ≡ n + length es + 1
    → IsNumbered n (es ++ e ∷ [])
IsNumbered-append n [] e h k = (omega arith, tt)
IsNumbered-append n (x ∷ es) e h k = (h.0, IsNumbered-append (suc n) es e h.1 (omega arith))

numbers-append :
    (es : List Event) (e : Event) → numbers (es ++ e ∷ []) ≡ numbers es ++ e.sequence ∷ []
numbers-append [] e = refl
numbers-append (x ∷ es) e = cc (numbers-append es e)

receipts-append :
    (rows : List OutboxRow) (row : OutboxRow)
    → receipts (rows ++ row ∷ []) ≡ receipts rows ++ row.sequence ∷ []
receipts-append [] row = refl
receipts-append (x ∷ rows) row = cc (receipts-append rows row)

limit-le :
    (b : Bool) (s n : ℕ) → s < sequence_limit b → n ≤ bytes_limit b → (s + 1 ≤ 8200) × (n ≤ 8000000)
limit-le true s n h k = omega arith
limit-le false s n h k = omega arith

module _ (env : Environment) where
  total_size-append :
      (id : ℕ) (es : List Event) (e : Event)
      → total_size env id (es ++ e ∷ []) ≡ total_size env id es + env.event_size id e
  total_size-append id [] e = omega arith
  total_size-append id (x ∷ es) e = omega (arith, total_size-append id es e)

  IsJournal-Stable : Stable env (IsJournal env)
  IsJournal-Stable = record {
    event = λ h e b j next lt le. record {
      numbered = IsNumbered-append 0 h.events e j.numbered (omega (arith, j.counted));
      counted = omega (arith, j.counted, length-append h.events (e ∷ []));
      receipted = cc (
        numbers-append h.events e,
        receipts-append h.outbox (record { sequence = e.sequence; dispatched_at = none }),
        j.receipted,
      );
      measured = omega (arith, j.measured, total_size-append h.id h.events e);
      few = omega (arith, limit-le b h.sequence _ lt le);
      small = (limit-le b h.sequence _ lt le).1;
    };
    claimed = λ h j. record {
      numbered = j.numbered;
      counted = j.counted;
      receipted = j.receipted;
      measured = j.measured;
      few = j.few;
      small = j.small;
    };
    saved = λ h c j _. record {
      numbered = j.numbered;
      counted = j.counted;
      receipted = j.receipted;
      measured = j.measured;
      few = j.few;
      small = j.small;
    };
    written = λ h row j _. record {
      numbered = j.numbered;
      counted = j.counted;
      receipted = j.receipted;
      measured = j.measured;
      few = j.few;
      small = j.small;
    };
  }

  -- From a run whose journal is in order, whatever calls are made on it by anyone, in any order
  -- and at any clock readings, the journal stays in order: the events are numbered from one with
  -- no gap and no repetition, `sequence` is their number and at most 8200, each has its outbox
  -- receipt in the same order, and `event_bytes` is the sum of their sizes and at most 8,000,000.
  pub run_history-IsJournal :
      (calls : List (Call × (ℕ → ℕ))) (run : Run)
      → IsJournal env (history_of run)
      → IsJournal env (history_of (run_history env calls run))
  run_history-IsJournal calls run h = run_history-stable IsJournal-Stable calls run h
