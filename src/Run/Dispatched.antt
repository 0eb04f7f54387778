-- ===== src/Run/Dispatched.antt =====
-- Every notice is sent once and in order.
use Prim.Native.Nat.{min}
use learning_qa_assistant.Base.{
  ℕ, zero, suc, ◌+◌, ◌≤◌, true, ◌&&◌, ◌≡◌, refl, ◌∙◌, sym, ap, List, [], ◌∷◌, ◌++◌, leb, length,
  arith, Bool-cases, Option-cases, some, inl, inr,
}
use learning_qa_assistant.Transaction.{ok}
use learning_qa_assistant.Run.Dispatch.{
  Entry, Notice, notice_of, dispatch_rows, dispatch_outbox, dispatch_history, pending,
}

append_assoc : (xs ys zs : List Notice) → (xs ++ ys) ++ zs ≡ xs ++ (ys ++ zs)
append_assoc [] ys zs = refl
append_assoc (x ∷ xs) ys zs = ap (λ r. x ∷ r) (append_assoc xs ys zs)

dispatch_rows-pending :
    (limit : ℕ) (rows : List Entry) (clock : ℕ → ℕ)
    → (dispatch_rows limit rows clock).1 ++ pending (dispatch_rows limit rows clock).0
      ≡ pending rows
unfolding dispatch_rows pending
dispatch_rows-pending zero rows clock = refl
dispatch_rows-pending (suc limit) [] clock = refl
dispatch_rows-pending (suc limit) (row ∷ rows) clock = elim (Option-cases row.dispatched_at) [
  | inl waiting ↦
      rw waiting
        (ap (λ r. notice_of row ∷ r) (dispatch_rows-pending limit rows (λ n. clock (suc n))))
  | inr (t, done) ↦ rw done (dispatch_rows-pending (suc limit) rows clock)
]

dispatch_rows-length :
    (limit : ℕ) (rows : List Entry) (clock : ℕ → ℕ)
    → length (dispatch_rows limit rows clock).1 ≡ min limit (length (pending rows))
unfolding dispatch_rows pending
dispatch_rows-length zero rows clock = ground arith
dispatch_rows-length (suc limit) [] clock = ground arith
dispatch_rows-length (suc limit) (row ∷ rows) clock = elim (Option-cases row.dispatched_at) [
  | inl waiting ↦ rw waiting (ground (arith, dispatch_rows-length limit rows (λ n. clock (suc n))))
  | inr (t, done) ↦ rw done (dispatch_rows-length (suc limit) rows clock)
]

dispatch_outbox-pending :
    (limit : ℕ) (clock : ℕ → ℕ) (rows : List Entry)
    → (dispatch_outbox limit clock rows).2 ++ pending (dispatch_outbox limit clock rows).1
      ≡ pending rows
unfolding dispatch_outbox
dispatch_outbox-pending limit clock rows = elim (Bool-cases (leb 1 limit && leb limit 100)) [
  | inl fits ↦ rw fits (dispatch_rows-pending limit rows clock)
  | inr bad ↦ rw bad refl
]

dispatch_rows-done :
    (limit : ℕ) (row : Entry) (rows : List Entry) (clock : ℕ → ℕ) (t : ℕ)
    → row.dispatched_at ≡ some t
    → (dispatch_rows (suc limit) (row ∷ rows) clock).0
      ≡ row ∷ (dispatch_rows (suc limit) rows clock).0
unfolding dispatch_rows
dispatch_rows-done limit row rows clock t done =
    let same : row ≡ record row { dispatched_at = some t } =
      λ i. record row { dispatched_at = done i } in
    ap (λ r. (dispatch_rows (suc limit) (r ∷ rows) clock).0) same
    ∙ ap (λ r. r ∷ (dispatch_rows (suc limit) rows clock).0) (sym same)

-- A dispatch of rows that stand one after the other, as those of several runs do, is one of the
-- first with one of the others, at what the first leave of the limit and at later readings.
dispatch_rows-append :
    (limit : ℕ) (rows others : List Entry) (clock : ℕ → ℕ)
    → (left : ℕ) × (later : ℕ → ℕ) × (left + length (dispatch_rows limit rows clock).1 ≡ limit)
      × ((dispatch_rows limit (rows ++ others) clock).0
          ≡ (dispatch_rows limit rows clock).0 ++ (dispatch_rows left others later).0)
unfolding dispatch_rows
dispatch_rows-append zero rows others clock = (0, clock, omega arith, refl)
dispatch_rows-append (suc limit) [] others clock = (suc limit, clock, omega arith, refl)
dispatch_rows-append (suc limit) (row ∷ rows) others clock = elim (Option-cases row.dispatched_at) [
  | inl waiting ↦
      let (left, later, count, same) =
        dispatch_rows-append limit rows others (λ n. clock (suc n)) in
      (
        left,
        later,
        rw waiting (omega (arith, count)),
        rw waiting (ap (λ r. record row { dispatched_at = some (clock 0) } ∷ r) same),
      )
  | inr (t, done) ↦
      let (left, later, count, same) = dispatch_rows-append (suc limit) rows others clock in
      (
        left,
        later,
        rw done count,
        dispatch_rows-done limit row (rows ++ others) clock t done
            ∙ ap (λ r. row ∷ r) same
            ∙ ap (λ r. r ++ (dispatch_rows left others later).0)
                (sym (dispatch_rows-done limit row rows clock t done)),
      )
]

-- Whatever dispatches are made, the notices that they send, in order, with those that are still
-- to be sent behind them, are the notices that were to be sent before: none is lost, none is sent
-- twice, and the order of each run's events is kept.
pub dispatch_history-pending :
    (calls : List (ℕ × (ℕ → ℕ))) (rows : List Entry)
    → (dispatch_history calls rows).1 ++ pending (dispatch_history calls rows).0 ≡ pending rows
unfolding dispatch_history
dispatch_history-pending [] rows = refl
dispatch_history-pending ((limit, clock) ∷ rest) rows =
    append_assoc (dispatch_outbox limit clock rows).2 _ _
    ∙ ap (λ r. (dispatch_outbox limit clock rows).2 ++ r)
        (dispatch_history-pending rest (dispatch_outbox limit clock rows).1)
    ∙ dispatch_outbox-pending limit clock rows

-- A dispatch with a limit from 1 to 100 returns how many notices it has sent, and that is the
-- limit, or all that were to be sent if they are fewer.
pub dispatch_outbox-length :
    (limit : ℕ) (clock : ℕ → ℕ) (rows : List Entry)
    → 1 ≤ limit
    → limit ≤ 100
    → let (r, _, sent) = dispatch_outbox limit clock rows in
      (r ≡ ok (length sent)) × (length sent ≡ min limit (length (pending rows)))
unfolding dispatch_outbox
dispatch_outbox-length limit clock rows low high =
    let fits : (leb 1 limit && leb limit 100) ≡ true = ground arith in
    rw fits (refl, dispatch_rows-length limit rows clock)
