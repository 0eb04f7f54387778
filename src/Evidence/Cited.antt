-- ===== src/Evidence/Cited.antt =====
-- What is true of the citations that an answer is accepted with.
use mathlib.Core.Option.{some-injective}
use learning_qa_assistant.Base.{
  ℕ, Bool, true, false, not, ◌&&◌, ◌≡◌, ◌≢◌, refl, sym, subst, ◌⊎◌, inl, inr, Option, none, some,
  List, [], ◌∷◌, map, Bool-cases, any, contains, keep, arith,
}
use learning_qa_assistant.Base.Table.{find_row, find_row-passes, All}
use learning_qa_assistant.Base.Text.{Text}
use learning_qa_assistant.Transaction.{ok}
use learning_qa_assistant.Evidence.State.{Citation, Registry}
use learning_qa_assistant.Evidence.Citations.{
  Group, outside, numbers_from, numbers_of, closed, put_found, next_group, AnswerKind, grounded,
  clarification, ungrounded, is_grounded, SearchMode, is_allowed, is_memory, visible, entry_of,
  with_entry, cited, is_none, check_cited, validate_answer, validate_numbers, validate,
}
use learning_qa_assistant.Evidence.Sets.{IsAscending, insert_number-IsAscending}

abbrev pub IsAmong : Citation → List Citation → Type 0
IsAmong citation [] = ⊥
IsAmong citation (entry ∷ entries) = (citation ≡ entry) ⊎ IsAmong citation entries

-- A citation of an answer is an entry of the registry that is not excluded.
pub record IsCitable (registry : Registry) (mode : SearchMode) (citation : Citation) : Type 0 where
  pub among : IsAmong citation registry.entries
  pub shown : contains registry.excluded_numbers citation.number ≡ false
  pub allowed : is_allowed mode citation.type ≡ true

abbrev pub citation_number : Citation → ℕ
citation_number citation = citation.number

abbrev IsShown : Registry → Citation → Type 0
IsShown registry citation =
    IsAmong citation registry.entries × (contains registry.excluded_numbers citation.number ≡ false)

found-keep :
    (wanted test : Citation → Bool) (citation : Citation) (entries : List Citation)
    → find_row wanted (keep test entries) ≡ some citation
    → IsAmong citation entries × (test citation ≡ true)
unfolding find_row
found-keep wanted test citation [] e = absurd (cc e)
found-keep wanted test citation (entry ∷ entries) e = elim (Bool-cases (test entry)) [
  | inl hit ↦ elim (Bool-cases (wanted entry)) [
    | inl mine ↦
        let same : entry ≡ citation = some-injective entry citation (rw mine at (rw hit at e)) in
        (inl (sym same), subst (λ c. test c ≡ true) same hit)
    | inr other ↦
        let (place, passes) = found-keep wanted test citation entries (rw other at (rw hit at e)) in
        (inr place, passes)
  ]
  | inr miss ↦
      let (place, passes) = found-keep wanted test citation entries (rw miss at e) in
      (inr place, passes)
]

found-IsShown :
    (number : ℕ) (registry : Registry) (citation : Citation)
    → find_row (entry_of number) (visible registry) ≡ some citation
    → IsShown registry citation × (citation.number ≡ number)
unfolding visible
found-IsShown number registry citation e =
    let (place, passes) = found-keep _ _ citation registry.entries e in
    let named = find_row-passes _ _ e in ((place, ground arith), ground arith)

abbrev Cites : Registry → List ℕ → Option (List Citation) → Type 0
Cites registry numbers none = Unit
Cites registry numbers (some citations) =
    (map citation_number citations ≡ numbers) × All (IsShown registry) citations

with_entry-Cites :
    (registry : Registry) (number : ℕ) (numbers : List ℕ) (found : Option Citation)
    (rest : Option (List Citation))
    → find_row (entry_of number) (visible registry) ≡ found
    → Cites registry numbers rest
    → Cites registry (number ∷ numbers) (with_entry found rest)
with_entry-Cites registry number numbers none rest e h = tt
with_entry-Cites registry number numbers (some entry) none e h = tt
with_entry-Cites registry number numbers (some entry) (some rest) e h =
    let (shown, same) = found-IsShown number registry entry e in
    ((λ i. same i ∷ h.0 i), (shown, h.1))

cited-Cites :
    (registry : Registry) (numbers : List ℕ)
    → Cites registry numbers (cited numbers (visible registry))
unfolding cited
cited-Cites registry [] = (refl, tt)
cited-Cites registry (number ∷ numbers) =
    with_entry-Cites registry number numbers _ _ refl (cited-Cites registry numbers)

-- What `validate` promises of the citations that it returns.
pub record IsAccepted (registry : Registry) (kind : AnswerKind) (mode : SearchMode)
    (numbers : List ℕ) (citations : List Citation) : Type 0 where
  pub in_order : map citation_number citations ≡ numbers
  pub citable : All (IsCitable registry mode) citations
  pub cites : is_grounded kind ≡ true → citations ≢ []

All-IsCitable :
    (registry : Registry) (mode : SearchMode) (citations : List Citation)
    → All (IsShown registry) citations
    → any (λ citation. not (is_allowed mode citation.type)) citations ≡ false
    → All (IsCitable registry mode) citations
All-IsCitable registry mode [] h e = tt
All-IsCitable registry mode (citation ∷ rest) h e =
    elim (Bool-cases (is_allowed mode citation.type)) [
      | inl allowed ↦ (
        record { among = h.0.0; shown = h.0.1; allowed = allowed },
        All-IsCitable registry mode rest h.1 (rw allowed at e),
      )
      | inr refused ↦ absurd (cc (rw refused at e))
    ]

check_cited-IsAccepted :
    (registry : Registry) (kind : AnswerKind) (mode : SearchMode) (numbers : List ℕ)
    (found : Option (List Citation)) (citations : List Citation)
    → Cites registry numbers found
    → check_cited kind mode found ≡ ok citations
    → IsAccepted registry kind mode numbers citations
unfolding check_cited
check_cited-IsAccepted registry kind mode numbers none citations h e = absurd (cc e)
check_cited-IsAccepted registry kind mode numbers (some found) citations h e =
    elim (Bool-cases (is_grounded kind && is_none found)) [
      | inl bare ↦ absurd (cc (rw bare at e))
      | inr full ↦ elim (Bool-cases (any (λ citation. not (is_allowed mode citation.type)) found)) [
        | inl other ↦ absurd (cc (rw other at (rw full at e)))
        | inr good ↦
            let same : found ≡ citations = ok-injective (rw good at (rw full at e)) in
            subst (IsAccepted registry kind mode numbers) same (record {
              in_order = h.0;
              citable = All-IsCitable registry mode found h.1 good;
              cites = λ g none. absurd (cc (g, none, full));
            })
      ]
    ]
  where
    ok-injective : {a b : List Citation} → ok a ≡ ok b → a ≡ b
    ok-injective e = cc e

validate_answer-IsAccepted :
    (registry : Registry) (kind : AnswerKind) (mode : SearchMode) (numbers : List ℕ)
    (citations : List Citation)
    → validate_answer kind mode numbers (visible registry) ≡ ok citations
    → IsAccepted registry kind mode numbers citations
unfolding validate_answer
validate_answer-IsAccepted registry kind mode numbers citations e =
    elim (Bool-cases
      (any (λ entry. not (is_memory entry.type)) (visible registry) && not (is_grounded kind))) [
        | inl bare ↦ absurd (cc (rw bare at e))
        | inr good ↦
            check_cited-IsAccepted registry kind mode numbers _ citations
              (cited-Cites registry numbers) (rw good at e)
      ]

validate_numbers-IsAccepted :
    (registry : Registry) (kind : AnswerKind) (mode : SearchMode) (numbers : List ℕ)
    (citations : List Citation)
    → validate_numbers kind mode numbers registry ≡ ok citations
    → IsAccepted registry kind mode numbers citations
unfolding validate_numbers
validate_numbers-IsAccepted registry clarification mode [] citations e =
    let none : [] ≡ citations = cc e in
    subst (IsAccepted registry clarification mode []) none
      (record { in_order = refl; citable = tt; cites = λ g none. cc g })
validate_numbers-IsAccepted registry clarification mode (n ∷ numbers) citations e = absurd (cc e)
validate_numbers-IsAccepted registry grounded mode numbers citations e =
    validate_answer-IsAccepted registry grounded mode numbers citations e
validate_numbers-IsAccepted registry ungrounded mode numbers citations e =
    validate_answer-IsAccepted registry ungrounded mode numbers citations e

numbers_from-IsAscending :
    (decimal : ℕ → Option ℕ) (group : Group) (text : Text)
    → IsAscending (numbers_from decimal group text)
unfolding numbers_from
numbers_from-IsAscending decimal group [] = tt
numbers_from-IsAscending decimal group (c ∷ text) =
    put (closed decimal group c) _
      (numbers_from-IsAscending decimal (next_group decimal group c) text)
  where
    put :
        (found : Option ℕ) (numbers : List ℕ)
        → IsAscending numbers
        → IsAscending (put_found decimal found numbers)
    put none numbers h = h
    put (some n) numbers h = insert_number-IsAscending n _ h

-- When an answer is accepted, its citations are exactly the numbers in brackets of the answer, each
-- once and in ascending order; each is an entry of the registry that is not excluded and of a type
-- that the search mode allows; and a grounded answer has at least one.
pub validate-IsAccepted :
    (decimal : ℕ → Option ℕ) (kind : AnswerKind) (answer : Text) (mode : SearchMode)
    (registry : Registry) (citations : List Citation)
    → validate decimal kind answer mode registry ≡ ok citations
    → IsAccepted registry kind mode (numbers_of decimal answer) citations
      × IsAscending (map citation_number citations)
unfolding validate numbers_of
validate-IsAccepted decimal kind answer mode registry citations e =
    let accepted = validate_numbers-IsAccepted registry kind mode _ citations e in
    (
      accepted,
      subst IsAscending (sym accepted.in_order) (numbers_from-IsAscending decimal outside answer),
    )
