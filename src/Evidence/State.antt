-- ===== src/Evidence/State.antt =====
-- The state of EvidenceRegistry of app/manager/evidence.py, and what its operations report.
use learning_qa_assistant.Base.{
  ℕ, Bool, true, false, ◌&&◌, Option, List, [], ◌∷◌, ◌==◌, ltb, if◌then◌else◌,
}
use learning_qa_assistant.Base.Text.{Text}

pub data SourceType : Type 0 where
  knowledge web tool memory sql : SourceType

abbrev pub same_type : SourceType → SourceType → Bool
same_type knowledge knowledge = true
same_type web web = true
same_type tool tool = true
same_type memory memory = true
same_type sql sql = true
same_type _ _ = false

pub record Key : Type 0 where
  pub kind : SourceType
  pub identity : ℕ

abbrev pub same_key : Key → Key → Bool
same_key a b = same_type a.kind b.kind && a.identity == b.identity

-- `detail` stands for the fields of a citation that are passed on unread.
pub record Citation : Type 0 where
  pub number : ℕ
  pub type : SourceType
  pub excerpt : Text
  pub title : Option Text
  pub detail : ℕ

-- `extra` stands for what is added to a source of some types.
pub record Source : Type 0 where
  pub number : ℕ
  pub type : SourceType
  pub title : Text
  pub content : Text
  pub extra : Option ℕ

pub record Passage : Type 0 where
  pub context_id : ℕ
  pub for_numbers : List ℕ
  pub title : Text
  pub content : Text

pub record KeyRow : Type 0 where
  pub key : Key
  pub number : ℕ

-- A dict is the list of its rows in the order of insertion, and a set of numbers or of warning
-- codes is the list that `sorted` makes of it.
pub record Registry : Type 0 where
  pub token_budget : ℕ
  pub entries : List Citation
  pub sources : List Source
  pub contexts : List Passage
  pub context_tokens : ℕ
  pub warnings : List ℕ
  pub rerank_events : List ℕ
  pub hierarchy_events : List ℕ
  pub excluded_numbers : List ℕ
  pub keys : List KeyRow
  pub used_tokens : ℕ

abbrev pub new_registry : (token_budget : ℕ) → Registry
new_registry token_budget = record {
  token_budget = token_budget;
  entries = [];
  sources = [];
  contexts = [];
  context_tokens = 0;
  warnings = [];
  rerank_events = [];
  hierarchy_events = [];
  excluded_numbers = [];
  keys = [];
  used_tokens = 0;
}

-- What an operation returns.
pub record Report : Type 0 where
  pub sources : List Source
  pub existing_numbers : List ℕ
  pub truncated : Bool

-- The packages that the registry calls: the tokenizer, the normal form of a URL, and the decimal
-- value of a code point that `\d` matches.
pub record Environment : Type 0 where
  pub count_tokens : Text → ℕ
  pub normalized_url : ℕ → ℕ
  pub decimal : ℕ → Option ℕ
  pub budget_warning : ℕ

abbrev pub key_of : Key → KeyRow → Bool
key_of key row = same_key row.key key

abbrev pub source_of : ℕ → Source → Bool
source_of number source = source.number == number

abbrev pub passage_of : ℕ → Passage → Bool
passage_of context_id passage = passage.context_id == context_id

-- A number is put into a sorted set.
unfoldable pub insert_number : ℕ → List ℕ → List ℕ
insert_number n [] = n ∷ []
insert_number n (m ∷ rest) =
    if ltb n m then n ∷ m ∷ rest else if n == m then m ∷ rest else m ∷ insert_number n rest

unfoldable pub insert_numbers : List ℕ → List ℕ → List ℕ
insert_numbers [] set = set
insert_numbers (n ∷ rest) set = insert_number n (insert_numbers rest set)
