-- ===== src/Retrieval/Rerank.antt =====
-- TextReranker.rerank of app/manager/rerank.py. The provider's answer is an argument.
use learning_qa_assistant.Base.{
  ℕ, zero, suc, ◌-◌, ◌/◌, Bool, true, false, not, ◌||◌, Option, none, some, List, [], ◌∷◌, leb, ltb,
  ◌==◌, if◌then◌else◌, take, length, any, contains, map,
}
use learning_qa_assistant.Base.Text.{Text}
use learning_qa_assistant.Transaction.{
  Code, rerank_timeout, rerank_unavailable, rerank_auth_error, rerank_rate_limited,
  rerank_invalid_response,
}
use learning_qa_assistant.Retrieval.State.{
  Trace, Hit, Score, no_score, too_large, number, Item, Uncaught, overflow_error, Reply,
  client_timeout, client_error, late, unreadable, status, uncaught, body,
}

abbrev pub smaller : ℕ → ℕ → ℕ
smaller a b = if leb a b then a else b

abbrev pub larger : ℕ → ℕ → ℕ
larger a b = if leb a b then b else a

-- `min(1000, max(1, 24000 // len(hits) - len(query[:200])))`
unfoldable pub character_limit : (count : ℕ) → (query : Text) → ℕ
character_limit count query = smaller 1000 (larger 1 (24000 / count - length (take 200 query)))

abbrev pub is_cut : ℕ → Text → Bool
is_cut limit text = ltb limit (length text)

-- The bounded query or a document differs from what it was cut from.
unfoldable pub is_truncated : (query : Text) → List Hit → Bool
is_truncated query hits =
    is_cut 200 query
    || any (λ hit. is_cut (character_limit (length hits) query) hit.chunk.content) hits

abbrev pub status_code : ℕ → Code
status_code n =
    if n == 401 || n == 403
    then rerank_auth_error
    else if n == 429
    then rerank_rate_limited
    else rerank_unavailable

-- A place in the ranking: the index of a hit and its score.
pub record Place : Type 0 where
  pub index : ℕ
  pub score : ℕ

-- How a check ends: with a value, with an error that is caught, or with the OverflowError.
pub data Checked (A : Type 0) : Type 0 where
  valid : A → Checked A
  invalid overflow : Checked A

-- The checks go through the items in order and end at the first that fails.
abbrev pub with_place : Checked Place → Checked (List Place) → Checked (List Place)
with_place invalid rest = invalid
with_place overflow rest = overflow
with_place (valid place) invalid = invalid
with_place (valid place) overflow = overflow
with_place (valid place) (valid rest) = valid (place ∷ rest)

abbrev pub seen_with : Checked Place → List ℕ → List ℕ
seen_with (valid place) seen = place.index ∷ seen
seen_with _ seen = seen

module _ (one : ℕ) where
  -- `type(score) not in (int, float) or not isfinite(score) or not 0 <= score <= 1`
  abbrev pub scored_place : (index : ℕ) → Score → Checked Place
  scored_place index no_score = invalid
  scored_place index too_large = overflow
  scored_place index (number score) =
      if leb score one then valid (record { index = index; score = score }) else invalid

  abbrev pub place_in : (count : ℕ) → (seen : List ℕ) → Option ℕ → Score → Checked Place
  place_in count seen none score = invalid
  place_in count seen (some index) score =
      if not (ltb index count) || contains seen index then invalid else scored_place index score

  unfoldable pub check_place : (count : ℕ) → (seen : List ℕ) → Item → Checked Place
  check_place count seen item = place_in count seen item.index item.relevance_score

  unfoldable pub check_places : (count : ℕ) → (seen : List ℕ) → List Item → Checked (List Place)
  check_places count seen [] = valid []
  check_places count seen (item ∷ items) =
      let place = check_place count seen item in
      with_place place (check_places count (seen_with place seen) items)

-- `ranked.sort(key=lambda hit: -hit.rerank_score)`, which is stable
unfoldable pub insert_place : Place → List Place → List Place
insert_place place [] = place ∷ []
insert_place place (other ∷ rest) =
    if leb other.score place.score then place ∷ other ∷ rest else other ∷ insert_place place rest

unfoldable pub by_score : List Place → List Place
by_score [] = []
by_score (place ∷ places) = insert_place place (by_score places)

unfoldable pub hit_at : ℕ → List Hit → Option Hit
hit_at n [] = none
hit_at zero (hit ∷ hits) = some hit
hit_at (suc n) (hit ∷ hits) = hit_at n hits

abbrev pub scored : (trace : Trace) → Place → Option Hit → List Hit → List Hit
scored trace place none rest = rest
scored trace place (some hit) rest =
    record hit { rerank_score = some place.score; rerank_trace = some trace } ∷ rest

unfoldable pub ranked_hits : (trace : Trace) → List Hit → List Place → List Hit
ranked_hits trace hits [] = []
ranked_hits trace hits (place ∷ places) =
    scored trace place (hit_at place.index hits) (ranked_hits trace hits places)

-- A ranking has as many places as were asked for.
unfoldable pub check_ranking :
    (one top_k : ℕ) → List Hit → Option (List Item) → Checked (List Place)
check_ranking one top_k hits none = invalid
check_ranking one top_k hits (some items) =
    if not (length items == smaller top_k (length hits))
    then invalid
    else check_places one (length hits) [] items

-- The ranking that the answer holds, the code of what is wrong with it, or what is raised at it.
pub data Outcome : Type 0 where
  ranking : List Place → (total_tokens : Option ℕ) → Outcome
  failed : Code → Outcome
  escaping : Uncaught → Outcome

abbrev pub outcome_of : Checked (List Place) → (total_tokens : Option ℕ) → Outcome
outcome_of invalid tokens = failed rerank_invalid_response
outcome_of overflow tokens = escaping overflow_error
outcome_of (valid places) tokens = ranking places tokens

unfoldable pub read_reply : (one top_k : ℕ) → List Hit → Reply → Outcome
read_reply one top_k hits client_timeout = failed rerank_timeout
read_reply one top_k hits late = failed rerank_timeout
read_reply one top_k hits client_error = failed rerank_unavailable
read_reply one top_k hits unreadable = failed rerank_invalid_response
read_reply one top_k hits (status n) = failed (status_code n)
read_reply one top_k hits (uncaught e) = escaping e
read_reply one top_k hits (body results tokens) =
    outcome_of (check_ranking one top_k hits results) tokens

abbrev pub traced :
    (attempts : ℕ) → (query : Text) → List Hit → (code : Option Code) → (tokens : Option ℕ) → Trace
traced attempts query hits code tokens = record {
  applied = (is_none code);
  candidate_count = length hits;
  attempts = attempts;
  input_truncated = is_truncated query hits;
  error_code = code;
  total_tokens = tokens;
}
  where
    is_none : Option Code → Bool
    is_none none = true
    is_none (some c) = false

unfoldable pub fall_back : (top_k : ℕ) → Trace → List Hit → List Hit
fall_back top_k trace hits =
    map {A = Hit} (λ hit. record hit { rerank_trace = some trace }) (take top_k hits)

-- What `rerank` returns, or the exception that leaves it.
pub data Reranked : Type 0 where
  returned : List Hit → Reranked
  escaped : Uncaught → Reranked

unfoldable pub settle : (attempts top_k : ℕ) → (query : Text) → List Hit → Outcome → Reranked
settle attempts top_k query hits (ranking places tokens) =
    returned (ranked_hits (traced attempts query hits none tokens) hits (by_score places))
settle attempts top_k query hits (failed code) =
    returned (fall_back top_k (traced attempts query hits (some code) none) hits)
settle attempts top_k query hits (escaping e) = escaped e

-- `one` stands for the score 1; without time left the provider is not asked.
unfoldable pub rerank :
    (one : ℕ) → (query : Text) → List Hit → (top_k : ℕ) → (has_time : Bool) → Reply → Reranked
rerank one query [] top_k has_time reply = returned []
rerank one query (hit ∷ hits) top_k has_time reply =
    if has_time
    then settle 1 top_k query (hit ∷ hits) (read_reply one top_k (hit ∷ hits) reply)
    else settle 0 top_k query (hit ∷ hits) (failed rerank_timeout)
