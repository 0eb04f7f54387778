-- ===== src/Retrieval/Tests.antt =====
-- Reranking and selection on samples, and the theorems at concrete inputs.
use learning_qa_assistant.Base.{ℕ, ◌≡◌, refl, true, none, some, List, [], ◌∷◌}
use learning_qa_assistant.Base.Table.{All}
use learning_qa_assistant.Base.Text.{Text, codes}
use learning_qa_assistant.Retrieval.State.{Hit, number, too_large, overflow_error, Reply, body}
use learning_qa_assistant.Retrieval.Rerank.{
  escaped, check_place, check_places, check_ranking, read_reply, settle, rerank,
}
use learning_qa_assistant.Retrieval.Selection.{unique_hits}
use learning_qa_assistant.Retrieval.Distinct.{AreDistinct, is_covered, unique_hits_lem}
use learning_qa_assistant.Retrieval.Picks.{Ends, rerank-Ends}

abbrev sample_hit : ℕ → Text → Hit
sample_hit id content = record {
  chunk = record {
    chunk_id = id;
    user_id = 1;
    document_id = 2;
    chunk_index = id;
    content = content;
    source_name = codes "a.md";
    page_number = none;
    section = none;
    excel_source = none;
  };
  score = 5;
  rerank_score = none;
  rerank_trace = none;
}

-- The second has the text of the first but for a space.
abbrev sample_hits : List Hit
sample_hits =
    sample_hit 1 (codes "ab") ∷ sample_hit 2 (codes "a b") ∷ sample_hit 3 (codes "cd") ∷ []

unique_hits_lem_example :
    AreDistinct (unique_hits [] sample_hits)
    × All (λ hit. is_covered [] (unique_hits [] sample_hits) hit ≡ true) sample_hits
unique_hits_lem_example = unique_hits_lem sample_hits

abbrev sample_reply : Reply
sample_reply =
    body
      (some (
        record { index = some 2; relevance_score = number 4 }
        ∷ record { index = some 0; relevance_score = number 9 }
        ∷ []))
      none

rerank-Ends_example :
    Ends 2 sample_hits sample_reply (rerank 10 (codes "q") sample_hits 2 true sample_reply)
rerank-Ends_example = rerank-Ends 10 (codes "q") sample_hits 2 true sample_reply

-- A score out of the range of floats leaves the reranking without hits.
abbrev large_reply : Reply
large_reply =
    body
      (some (
        record { index = some 2; relevance_score = number 4 }
        ∷ record { index = some 0; relevance_score = too_large }
        ∷ []))
      none

overflow_test : rerank 10 (codes "q") sample_hits 2 true large_reply ≡ escaped overflow_error
unfolding rerank settle read_reply check_ranking check_places check_place
overflow_test = refl
