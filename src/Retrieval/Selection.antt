-- ===== src/Retrieval/Selection.antt =====
-- The first part of Retriever._finish of app/manager/retriever.py: hits whose text has been seen
-- are dropped, and the rest is ranked or cut.
use learning_qa_assistant.Base.{
  ℕ, ◌*◌, Bool, true, false, not, ◌&&◌, ◌||◌, Option, none, some, List, [], ◌∷◌, ◌==◌,
  if◌then◌else◌, any, keep, take,
}
use learning_qa_assistant.Base.Text.{Text, text_eq, is_space}
use learning_qa_assistant.Evidence.Contracts.{ExcelSource}
use learning_qa_assistant.Retrieval.State.{Hit, Reply}
use learning_qa_assistant.Retrieval.Rerank.{Reranked, returned, rerank}

-- `"".join(content.split())`
unfoldable pub normalized : Text → Text
normalized content = keep (λ c. not (is_space c)) content

pub data Key : Type 0 where
  text_key : Text → Key
  excel_key : (document_id : ℕ) → (source_anchor text : Text) → Key

unfoldable pub same_key : Key → Key → Bool
same_key (text_key a) (text_key b) = text_eq a b
same_key (excel_key d r a) (excel_key e s b) = d == e && text_eq r s && text_eq a b
same_key _ _ = false

abbrev pub key_in : (document_id : ℕ) → Text → Option ExcelSource → Key
key_in document_id text none = text_key text
key_in document_id text (some source) = excel_key document_id source.source_anchor text

abbrev pub key_of : Hit → Key
key_of hit = key_in hit.chunk.document_id (normalized hit.chunk.content) hit.chunk.excel_source

abbrev pub is_empty : Text → Bool
is_empty [] = true
is_empty (c ∷ text) = false

abbrev pub is_blank : Hit → Bool
is_blank hit = is_empty (normalized hit.chunk.content)

unfoldable pub unique_hits : (seen : List Key) → List Hit → List Hit
unique_hits seen [] = []
unique_hits seen (hit ∷ hits) =
    let rest = unique_hits seen hits in
    let kept = unique_hits (key_of hit ∷ seen) hits in
    if is_blank hit || any (same_key (key_of hit)) seen then rest else hit ∷ kept

-- The hits before any context is added; `reranker` is the score 1, the time left and the answer, if
-- there is a reranker.
pub record Reranker : Type 0 where
  pub one : ℕ
  pub has_time : Bool
  pub reply : Reply

unfoldable pub rank : Option Reranker → (top_k : ℕ) → (query : Text) → List Hit → Reranked
rank none top_k query unique = returned (take top_k unique)
rank (some reranker) top_k query unique =
    rerank reranker.one query (take (top_k * 2) unique) top_k reranker.has_time reranker.reply

unfoldable pub select : Option Reranker → (top_k : ℕ) → (query : Text) → List Hit → Reranked
select reranker top_k query hits = rank reranker top_k query (unique_hits [] hits)
