-- ===== src/Retrieval/State.antt =====
-- Search hits as the retriever and the reranker see them, and the settings of the reranker.
use learning_qa_assistant.Base.{ℕ, Bool, Option, List}
use learning_qa_assistant.Transaction.{Code}
use learning_qa_assistant.Evidence.Contracts.{Chunk}

-- RerankTrace without the name of the model and the time that has passed
pub record Trace : Type 0 where
  pub applied : Bool
  pub candidate_count : ℕ
  pub attempts : ℕ
  pub input_truncated : Bool
  pub error_code : Option Code
  pub total_tokens : Option ℕ

-- A score is a number that stands for the float in the order of floats.
pub record Hit : Type 0 where
  pub chunk : Chunk
  pub score : ℕ
  pub rerank_score : Option ℕ
  pub rerank_trace : Option Trace

-- The `relevance_score` of an item: an integer out of the range of floats, at which `isfinite`
-- raises; a number from 0 on; or else one that is missing, is not a finite number or is below 0.
pub data Score : Type 0 where
  no_score too_large : Score
  number : ℕ → Score

-- An item of a ranking: `none` for an index that is not an integer from 0 on.
pub record Item : Type 0 where
  pub index : Option ℕ
  pub relevance_score : Score

-- An exception that no `except` clause of `rerank` catches: of `isfinite` on an integer out of
-- the range of floats, of `json.loads` on a body that is nested too deeply, or another one that the
-- client raises.
pub data Uncaught : Type 0 where
  overflow_error recursion_error client_exception : Uncaught

-- What the provider's answer comes to: an exception of the client, a status other than 200, the
-- deadline passed or the limit broken while reading, an exception that is not caught, or a JSON
-- body, whose `results` is `none` when it is missing or no list.
pub data Reply : Type 0 where
  client_timeout client_error late unreadable : Reply
  status : ℕ → Reply
  uncaught : Uncaught → Reply
  body : (results : Option (List Item)) → (total_tokens : Option ℕ) → Reply
