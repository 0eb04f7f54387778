-- ===== src/Evidence/Citations.antt =====
-- EvidenceRegistry.validate of app/manager/evidence.py: the citations of an answer.
use learning_qa_assistant.Base.{
  ℕ, ◌+◌, ◌*◌, Bool, true, false, not, ◌&&◌, Option, none, some, List, [], ◌∷◌, ◌==◌, if◌then◌else◌,
  any, contains, keep,
}
use learning_qa_assistant.Base.Table.{find_row}
use learning_qa_assistant.Base.Text.{Text}
use learning_qa_assistant.Transaction.{Result, ok, err, app_error, invalid_citation}
use learning_qa_assistant.Evidence.State.{
  SourceType, knowledge, web, memory, tool, sql, Citation, Registry, insert_number,
}

-- What has been read of a group that a bracket opened.
pub data Group : Type 0 where
  outside : Group
  digits : (value : Option ℕ) → Group

unfoldable pub extended : Option ℕ → ℕ → Option ℕ
extended none d = some d
extended (some value) d = some (10 * value + d)

module _ (decimal : ℕ → Option ℕ) where
  abbrev pub after_digit : Option ℕ → Option ℕ → Group
  after_digit value none = outside
  after_digit value (some d) = digits (extended value d)

  unfoldable pub next_group : Group → ℕ → Group
  next_group group c = if c == b'[' then digits none else inside group
    where
      inside : Group → Group
      inside outside = outside
      inside (digits value) = after_digit value (decimal c)

  abbrev pub closed : Group → ℕ → Option ℕ
  closed outside c = none
  closed (digits value) c = if c == b']' then value else none

  abbrev pub put_found : Option ℕ → List ℕ → List ℕ
  put_found none numbers = numbers
  put_found (some number) numbers = insert_number number numbers

  -- `sorted({int(value) for value in re.findall(r"\[(\d+)\]", answer)})`
  unfoldable pub numbers_from : Group → Text → List ℕ
  numbers_from group [] = []
  numbers_from group (c ∷ text) =
      put_found (closed group c) (numbers_from (next_group group c) text)

  unfoldable pub numbers_of : Text → List ℕ
  numbers_of answer = numbers_from outside answer

pub data AnswerKind : Type 0 where
  grounded clarification ungrounded : AnswerKind

abbrev pub is_grounded : AnswerKind → Bool
is_grounded grounded = true
is_grounded _ = false

pub data SearchMode : Type 0 where
  auto knowledge_only web_only sql_only : SearchMode

abbrev pub is_memory : SourceType → Bool
is_memory memory = true
is_memory _ = false

abbrev pub is_allowed : SearchMode → SourceType → Bool
is_allowed auto type = true
is_allowed knowledge_only knowledge = true
is_allowed web_only web = true
is_allowed web_only tool = true
is_allowed sql_only sql = true
is_allowed _ memory = true
is_allowed _ _ = false

-- `by_number`
unfoldable pub visible : Registry → List Citation
visible registry =
    keep (λ entry. not (contains registry.excluded_numbers entry.number)) registry.entries

abbrev pub entry_of : ℕ → Citation → Bool
entry_of number entry = entry.number == number

abbrev pub with_entry : Option Citation → Option (List Citation) → Option (List Citation)
with_entry none rest = none
with_entry (some entry) none = none
with_entry (some entry) (some rest) = some (entry ∷ rest)

-- `[by_number[number] for number in numbers]`, `none` where a number is unknown
unfoldable pub cited : List ℕ → List Citation → Option (List Citation)
cited [] entries = some []
cited (number ∷ numbers) entries =
    with_entry (find_row (entry_of number) entries) (cited numbers entries)

abbrev pub is_none {ℓ} : {A : Type ℓ} → List A → Bool
is_none [] = true
is_none (a ∷ rest) = false

abbrev pub refused : {A : Type 0} → Result A
refused = err (app_error invalid_citation)

unfoldable pub check_cited :
    AnswerKind → SearchMode → Option (List Citation) → Result (List Citation)
check_cited kind mode none = refused
check_cited kind mode (some citations) =
    if is_grounded kind && is_none citations
    then refused
    else if any (λ citation. not (is_allowed mode citation.type)) citations
    then refused
    else ok citations

unfoldable pub validate_answer :
    AnswerKind → SearchMode → List ℕ → List Citation → Result (List Citation)
validate_answer kind mode numbers entries =
    if any (λ entry. not (is_memory entry.type)) entries && not (is_grounded kind)
    then refused
    else check_cited kind mode (cited numbers entries)

unfoldable pub validate_numbers :
    AnswerKind → SearchMode → List ℕ → Registry → Result (List Citation)
validate_numbers clarification mode numbers registry = if is_none numbers then ok [] else refused
validate_numbers kind mode numbers registry = validate_answer kind mode numbers (visible registry)

unfoldable pub validate :
    (decimal : ℕ → Option ℕ)
    → AnswerKind
    → (answer : Text) → SearchMode
    → Registry
    → Result (List Citation)
validate decimal kind answer mode registry =
    validate_numbers kind mode (numbers_of decimal answer) registry
