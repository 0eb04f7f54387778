-- ===== src/Run/Operations.antt =====
-- The rows of a run's operations: lookups, and what writing a row keeps.
use learning_qa_assistant.Base.{
  ◌+◌, ◌≤◌, false, ◌≡◌, ◌⊎◌, inl, inr, refl, subst, ◌∙◌, some, List, [], ◌∷◌, length, arith,
  Bool-cases, if◌then◌else◌,
}
use learning_qa_assistant.Base.Text.{Text, text_eq, text_eq_refl, text_eq_sound}
use learning_qa_assistant.Run.State.{Operation}
use learning_qa_assistant.Run.Operation.{find, store, is_succeeded}
use learning_qa_assistant.Run.Stable.{
  Writes, Rewrites, opened, rewritten, retried, doubted, finished,
}

pub find-store :
    (key : Text) (row : Operation) (rows : List Operation)
    → find key (store row rows) ≡ (if text_eq row.key key then some row else find key rows)
unfolding find store
find-store key row [] = refl
find-store key row (r ∷ rows) = ground (
  arith,
  text_eq_sound r.key row.key,
  text_eq_sound r.key key,
  text_eq_sound row.key key,
  text_eq_refl key,
  find-store key row rows,
)

pub find-key :
    (key : Text) (rows : List Operation) {row : Operation}
    → find key rows ≡ some row
    → row.key ≡ key
unfolding find
find-key key [] h = cc
find-key key (r ∷ rows) {row} h =
    ground (arith, text_eq_sound r.key key, find-key key rows {row = row})

length-store_found :
    (row : Operation) (rows : List Operation) {old : Operation}
    → find row.key rows ≡ some old
    → length (store row rows) ≡ length rows
unfolding find store
length-store_found row [] h = cc
length-store_found row (r ∷ rows) {old} h = ground (arith, length-store_found row rows {old = old})

length-store-le :
    (row : Operation) (rows : List Operation) → length (store row rows) ≤ length rows + 1
unfolding store
length-store-le row [] = ground arith
length-store-le row (r ∷ rows) = ground (arith, length-store-le row rows)

-- A rewritten row keeps its key, its inputs and whether it only reads.
Rewrites-key : {old row : Operation} → Rewrites old row → row.key ≡ old.key
Rewrites-key (retried g reads fresh few e) = cc
Rewrites-key (doubted reads fresh e) = cc
Rewrites-key (finished outcome open_row e) = cc

pub Rewrites-readonly : {old row : Operation} → Rewrites old row → row.readonly ≡ old.readonly
Rewrites-readonly (retried g reads fresh few e) = cc
Rewrites-readonly (doubted reads fresh e) = cc
Rewrites-readonly (finished outcome open_row e) = cc

pub Rewrites-fresh : {old row : Operation} → Rewrites old row → is_succeeded old.state ≡ false
Rewrites-fresh (retried g reads fresh few e) = fresh
Rewrites-fresh (doubted reads fresh e) = fresh
Rewrites-fresh {old} (finished outcome open_row e) = ground arith

-- A row that is found is still found after a write, as it was or rewritten.
pub Writes-find :
    (key : Text) (rows : List Operation) (row found : Operation)
    → Writes rows row
    → find key rows ≡ some found
    → (find key (store row rows) ≡ some found)
      ⊎ ((find key (store row rows) ≡ some row) × Rewrites found row)
Writes-find key rows row found (opened absent few start once) h =
    elim (Bool-cases (text_eq row.key key)) [
      | inl same ↦ absurd (cc (text_eq_sound row.key key same, absent, h))
      | inr other ↦ inl (cc (find-store key row rows, other, h))
    ]
Writes-find key rows row found (rewritten k old at change) h =
    elim (Bool-cases (text_eq row.key key)) [
      | inl same ↦
          let e : old ≡ found =
            cc (text_eq_sound row.key key same, Rewrites-key change, find-key k rows at, at, h) in
          inr (cc (find-store key row rows, same), subst (λ o. Rewrites o row) e change)
      | inr other ↦ inl (cc (find-store key row rows, other, h))
    ]

pub length-Writes :
    (rows : List Operation) (row : Operation)
    → Writes rows row
    → length rows ≤ 128
    → length (store row rows) ≤ 128
length-Writes rows row (opened absent few start once) h = omega (arith, length-store-le row rows)
length-Writes rows row (rewritten key old found change) h = omega (
  arith,
  length-store_found row rows {old = old}
      (rw (Rewrites-key change ∙ find-key key rows found) found),
)
