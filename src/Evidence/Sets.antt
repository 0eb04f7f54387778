-- ===== src/Evidence/Sets.antt =====
-- Sets of numbers as ascending lists.
use learning_qa_assistant.Base.{
  ℕ, ◌<◌, Bool, true, ◌≡◌, refl, ap, ◌∙◌, inl, inr, List, [], ◌∷◌, Bool-cases, ltb, ◌==◌, keep,
  arith,
}
use learning_qa_assistant.Evidence.State.{insert_number, insert_numbers}

abbrev Above : ℕ → List ℕ → Type 0
Above n [] = Unit
Above n (m ∷ rest) = n < m

abbrev pub IsAscending : List ℕ → Type 0
IsAscending [] = Unit
IsAscending (n ∷ rest) = Above n rest × IsAscending rest

insert_number-Above : (a n : ℕ) (set : List ℕ) → a < n → Above a set → Above a (insert_number n set)
unfolding insert_number
insert_number-Above a n [] less h = less
insert_number-Above a n (m ∷ rest) less h = ground arith

pub insert_number-IsAscending :
    (n : ℕ) (set : List ℕ) → IsAscending set → IsAscending (insert_number n set)
unfolding insert_number
insert_number-IsAscending n [] h = (tt, tt)
insert_number-IsAscending n (m ∷ rest) h = elim (Bool-cases (ltb n m)) [
  | inl less ↦ rw less (ground arith, h)
  | inr more ↦ rw more (elim (Bool-cases (n == m)) [
    | inl same ↦ rw same h
    | inr other ↦
        rw other
          (insert_number-Above m n rest (ground arith) h.0, insert_number-IsAscending n rest h.1)
  ])
]

pub insert_numbers-IsAscending :
    (new set : List ℕ) → IsAscending set → IsAscending (insert_numbers new set)
unfolding insert_numbers
insert_numbers-IsAscending [] set h = h
insert_numbers-IsAscending (n ∷ new) set h =
    insert_number-IsAscending n _ (insert_numbers-IsAscending new set h)

-- A number below all others is put in front.
insert_number-front : (n : ℕ) (set : List ℕ) → Above n set → insert_number n set ≡ n ∷ set
unfolding insert_number
insert_number-front n [] h = refl
insert_number-front n (m ∷ rest) h = let less : ltb n m ≡ true = ground arith in rw less refl

-- The set of an ascending list is that list.
pub insert_numbers-ascending : (set : List ℕ) → IsAscending set → insert_numbers set [] ≡ set
unfolding insert_numbers
insert_numbers-ascending [] h = refl
insert_numbers-ascending (n ∷ rest) h =
    ap (λ r. insert_number n r) (insert_numbers-ascending rest h.1) ∙ insert_number-front n rest h.0

keep-Above :
    (test : ℕ → Bool) (a : ℕ) (set : List ℕ)
    → IsAscending set
    → Above a set
    → Above a (keep test set)
keep-Above test a [] h k = tt
keep-Above test a (m ∷ rest) h k = elim (Bool-cases (test m)) [
  | inl hit ↦ rw hit k
  | inr miss ↦ rw miss (keep-Above test a rest h.1 (weaker rest h.0))
]
  where
    weaker : (xs : List ℕ) → Above m xs → Above a xs
    weaker [] _ = tt
    weaker (x ∷ xs) less = ground arith

pub keep-IsAscending :
    (test : ℕ → Bool) (set : List ℕ) → IsAscending set → IsAscending (keep test set)
keep-IsAscending test [] h = tt
keep-IsAscending test (m ∷ rest) h = elim (Bool-cases (test m)) [
  | inl hit ↦ rw hit (keep-Above test m rest h.1 h.0, keep-IsAscending test rest h.1)
  | inr miss ↦ rw miss (keep-IsAscending test rest h.1)
]
