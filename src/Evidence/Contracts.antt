-- ===== src/Evidence/Contracts.antt =====
-- Chunks and the contexts around them: Chunk, ParentContext and HierarchyContext of
-- app/entity/bo/contracts.py.
use learning_qa_assistant.Base.{
  ℕ, Bool, true, false, not, ◌&&◌, ◌||◌, Option, none, some, List, [], ◌∷◌, ◌++◌, leb, ltb, ◌==◌,
  any, all, length, if◌then◌else◌,
}
use learning_qa_assistant.Base.Text.{Text, text_eq, starts_with}
use learning_qa_assistant.Transaction.{Result, ok, err, value_error}

abbrev pub same_option {ℓ} : {A : Type ℓ} → (A → A → Bool) → Option A → Option A → Bool
same_option same none none = true
same_option same none (some b) = false
same_option same (some a) none = false
same_option same (some a) (some b) = same a b

abbrev pub same_number : ℕ → ℕ → Bool
same_number a b = a == b

pub record ExcelSource : Type 0 where
  pub sheet_name : Text
  pub row_start : ℕ
  pub row_end : ℕ
  pub source_anchor : Text

unfoldable pub same_excel : ExcelSource → ExcelSource → Bool
same_excel a b =
    text_eq a.sheet_name b.sheet_name
    && a.row_start == b.row_start
    && a.row_end == b.row_end
    && text_eq a.source_anchor b.source_anchor

-- Identities are numbers; `chunk_index` is an integer that the loaders number from 0.
pub record Chunk : Type 0 where
  pub chunk_id : ℕ
  pub user_id : ℕ
  pub document_id : ℕ
  pub chunk_index : ℕ
  pub content : Text
  pub source_name : Text
  pub page_number : Option ℕ
  pub section : Option Text
  pub excel_source : Option ExcelSource

unfoldable pub same_chunk : Chunk → Chunk → Bool
same_chunk a b =
    a.chunk_id == b.chunk_id
    && a.user_id == b.user_id
    && a.document_id == b.document_id
    && a.chunk_index == b.chunk_index
    && text_eq a.content b.content
    && text_eq a.source_name b.source_name
    && same_option same_number a.page_number b.page_number
    && same_option text_eq a.section b.section
    && same_option same_excel a.excel_source b.excel_source

abbrev pub sheet_of : Option ExcelSource → Option Text
sheet_of none = none
sheet_of (some source) = some source.sheet_name

-- `ParentContext.boundary(a) == ParentContext.boundary(b)`
unfoldable pub same_boundary : Chunk → Chunk → Bool
same_boundary a b =
    a.user_id == b.user_id
    && a.document_id == b.document_id
    && text_eq a.source_name b.source_name
    && same_option same_number a.page_number b.page_number
    && same_option text_eq a.section b.section
    && same_option text_eq (sheet_of a.excel_source) (sheet_of b.excel_source)

-- `positions == sorted(set(positions))`
unfoldable pub is_ascending : List Chunk → Bool
is_ascending [] = true
is_ascending (a ∷ []) = true
is_ascending (a ∷ b ∷ rest) = ltb a.chunk_index b.chunk_index && is_ascending (b ∷ rest)

-- `len({child.chunk_id for child in children}) == len(children)`
unfoldable pub has_distinct_ids : List Chunk → Bool
has_distinct_ids [] = true
has_distinct_ids (a ∷ rest) =
    not (any (λ b. b.chunk_id == a.chunk_id) rest) && has_distinct_ids rest

unfoldable pub within_boundary : List Chunk → Bool
within_boundary [] = true
within_boundary (first ∷ rest) = all (same_boundary first) (first ∷ rest)

-- `"\n\n".join(child.content for child in children)`
unfoldable pub joined : List Chunk → Text
joined [] = []
joined (a ∷ []) = a.content
joined (a ∷ b ∷ rest) = a.content ++ (b'\n' ∷ b'\n' ∷ joined (b ∷ rest))

-- `part in text`
unfoldable pub has_part : Text → Text → Bool
has_part part [] = starts_with [] part
has_part part (c ∷ text) = starts_with (c ∷ text) part || has_part part text

pub data Context : Type 0 where
  parent_context : (children : List Chunk) → Context
  hierarchy_context : (node_id level : ℕ) → Text → (children : List Chunk) → Context

abbrev pub children_of : Context → List Chunk
children_of (parent_context children) = children
children_of (hierarchy_context node_id level text children) = children

unfoldable pub content_of : Context → Text
content_of (parent_context children) = joined children
content_of (hierarchy_context node_id level text children) = text

abbrev pub is_level : ℕ → Bool
is_level level = level == 1 || level == 2

-- `__post_init__` of the two classes, as one test; both raise `ValueError`.
unfoldable pub is_context : Context → Bool
is_context (parent_context children) =
    leb 2 (length children)
    && leb (length children) 8
    && leb (length (joined children)) 12000
    && is_ascending children
    && has_distinct_ids children
    && within_boundary children
is_context (hierarchy_context node_id level text children) =
    is_level level
    && leb 2 (length children)
    && leb (length children) 64
    && leb 1 (length text)
    && leb (length text) 48000
    && is_ascending children
    && has_distinct_ids children
    && within_boundary children
    && all (λ child. has_part child.content text) children

unfoldable pub new_context : Context → Result Context
new_context context = if is_context context then ok context else err value_error

unfoldable pub contains_chunk : Context → Chunk → Bool
contains_chunk context leaf = any (same_chunk leaf) (children_of context)
