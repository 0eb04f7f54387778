-- ===== src/Retrieval/Picks.antt =====
-- What a reranking returns, whatever the provider answers.
use learning_qa_assistant.Base.{
  ℕ, zero, suc, ◌<◌, Bool, true, false, ◌==◌, ◌≡◌, refl, sym, ap, ◌∙◌, inl, inr, Option, none, some,
  List, [], ◌∷◌, map, any, Bool-cases, length, contains, arith,
}
use learning_qa_assistant.Base.Table.{All}
use learning_qa_assistant.Base.Text.{Text}
use learning_qa_assistant.Evidence.Contracts.{Chunk}
use learning_qa_assistant.Retrieval.State.{
  Trace, Hit, Item, Uncaught, overflow_error, Reply, client_timeout, client_error, late, unreadable,
  status, uncaught, body,
}
use learning_qa_assistant.Retrieval.Rerank.{
  smaller, Place, Checked, valid, invalid, overflow, check_places, by_score, hit_at, scored,
  ranked_hits, check_ranking, Outcome, ranking, failed, escaping, outcome_of, read_reply, fall_back,
  Reranked, returned, escaped, settle, rerank,
}
use learning_qa_assistant.Retrieval.Places.{
  overflows, index_of, Different, Placed, Accepted, check_places-Accepted, Placed-Different,
  Placed-All, by_score-Different, by_score-All, length-by_score,
}

abbrev pub chunk_of : Hit → Chunk
chunk_of hit = hit.chunk

abbrev pub put_chunk : Option Hit → List Chunk → List Chunk
put_chunk none rest = rest
put_chunk (some hit) rest = hit.chunk ∷ rest

-- The chunks of the hits at these indices
unfoldable pub chunks_at : List Hit → List ℕ → List Chunk
chunks_at hits [] = []
chunks_at hits (i ∷ is) = put_chunk (hit_at i hits) (chunks_at hits is)

-- The result has the chunks of different hits, as many as were asked for or are there.
pub record Picks (top_k : ℕ) (hits result : List Hit) : Type 0 where
  pub indices : List ℕ
  pub different : Different indices
  pub in_range : All (λ i. i < length hits) indices
  pub count : length indices ≡ smaller top_k (length hits)
  pub chunks : map chunk_of result ≡ chunks_at hits indices

equal : (a b : ℕ) → (a == b) ≡ true → a ≡ b
equal a b e = ground arith

-- The first indices
firsts : ℕ → List Hit → List ℕ
firsts zero hits = []
firsts (suc k) [] = []
firsts (suc k) (hit ∷ hits) = 0 ∷ map suc (firsts k hits)

contains-suc : (is : List ℕ) (i : ℕ) → contains (map suc is) (suc i) ≡ contains is i
contains-suc [] i = refl
contains-suc (j ∷ is) i = elim (Bool-cases (j == i)) [
  | inl same ↦ let also : (suc j == suc i) ≡ true = ground arith in rw also (rw same refl)
  | inr other ↦
      let also : (suc j == suc i) ≡ false = ground arith in rw also (rw other (contains-suc is i))
]

contains-suc_zero : (is : List ℕ) → contains (map suc is) 0 ≡ false
contains-suc_zero [] = refl
contains-suc_zero (j ∷ is) =
    let other : (suc j == 0) ≡ false = ground arith in rw other (contains-suc_zero is)

Different-suc : (is : List ℕ) → Different is → Different (map suc is)
Different-suc [] h = tt
Different-suc (i ∷ is) h = (contains-suc is i ∙ h.0, Different-suc is h.1)

firsts-Different : (k : ℕ) (hits : List Hit) → Different (firsts k hits)
unfolding firsts
firsts-Different zero hits = tt
firsts-Different (suc k) [] = tt
firsts-Different (suc k) (hit ∷ hits) =
    (contains-suc_zero (firsts k hits), Different-suc (firsts k hits) (firsts-Different k hits))

chunks_at-suc :
    (hit : Hit) (hits : List Hit) (is : List ℕ)
    → chunks_at (hit ∷ hits) (map suc is) ≡ chunks_at hits is
unfolding chunks_at hit_at
chunks_at-suc hit hits [] = refl
chunks_at-suc hit hits (i ∷ is) = ap (λ r. put_chunk (hit_at i hits) r) (chunks_at-suc hit hits is)

length-suc : (is : List ℕ) → length (map suc is) ≡ length is
length-suc [] = refl
length-suc (i ∷ is) = ap suc (length-suc is)

length-firsts : (k : ℕ) (hits : List Hit) → length (firsts k hits) ≡ smaller k (length hits)
unfolding firsts
length-firsts zero hits = ground arith
length-firsts (suc k) [] = ground arith
length-firsts (suc k) (hit ∷ hits) =
    let l = length-suc (firsts k hits) in let r = length-firsts k hits in ground (arith, l, r)

in_range-suc : (n : ℕ) (is : List ℕ) → All (λ i. i < n) is → All (λ i. i < suc n) (map suc is)
in_range-suc n [] h = tt
in_range-suc n (i ∷ is) h = (let low = h.0 in omega (arith, low), in_range-suc n is h.1)

firsts-in_range : (k : ℕ) (hits : List Hit) → All (λ i. i < length hits) (firsts k hits)
unfolding firsts
firsts-in_range zero hits = tt
firsts-in_range (suc k) [] = tt
firsts-in_range (suc k) (hit ∷ hits) =
    (omega arith, in_range-suc (length hits) (firsts k hits) (firsts-in_range k hits))

chunks-take :
    (trace : Trace) (k : ℕ) (hits : List Hit)
    → map chunk_of (fall_back k trace hits) ≡ chunks_at hits (firsts k hits)
unfolding fall_back firsts chunks_at hit_at
chunks-take trace zero hits = refl
chunks-take trace (suc k) [] = refl
chunks-take trace (suc k) (hit ∷ hits) =
    ap (λ r. hit.chunk ∷ r)
      (chunks-take trace k hits ∙ sym (chunks_at-suc hit hits (firsts k hits)))

chunks-ranked_hits :
    (trace : Trace) (hits : List Hit) (places : List Place)
    → map chunk_of (ranked_hits trace hits places) ≡ chunks_at hits (map index_of places)
unfolding ranked_hits chunks_at
chunks-ranked_hits trace hits [] = refl
chunks-ranked_hits trace hits (place ∷ places) =
    at (hit_at place.index hits) (chunks-ranked_hits trace hits places)
  where
    at :
        (found : Option Hit)
        → map chunk_of (ranked_hits trace hits places) ≡ chunks_at hits (map index_of places)
        → map chunk_of (scored trace place found (ranked_hits trace hits places))
          ≡ put_chunk found (chunks_at hits (map index_of places))
    at none h = h
    at (some hit) h = ap (λ r. hit.chunk ∷ r) h

fall_back-Picks :
    (top_k : ℕ) (trace : Trace) (hits : List Hit) → Picks top_k hits (fall_back top_k trace hits)
fall_back-Picks top_k trace hits = record {
  indices = firsts top_k hits;
  different = firsts-Different top_k hits;
  in_range = firsts-in_range top_k hits;
  count = length-firsts top_k hits;
  chunks = chunks-take trace top_k hits;
}

length-index_of : (places : List Place) → length (map index_of places) ≡ length places
length-index_of [] = refl
length-index_of (place ∷ places) = ap suc (length-index_of places)

indices_in_range :
    (n : ℕ) (places : List Place)
    → All (λ place. place.index < n) places
    → All (λ i. i < n) (map index_of places)
indices_in_range n [] h = tt
indices_in_range n (place ∷ places) h = (h.0, indices_in_range n places h.1)

-- The answers that make `rerank` raise: one whose reading raises the exception, or a list that has
-- a score out of the range of floats.
abbrev pub Raises : Reply → Uncaught → Type 0
Raises (uncaught raised) e = raised ≡ e
Raises (body (some items) tokens) e = (e ≡ overflow_error) × (any overflows items ≡ true)
Raises _ e = ⊥

abbrev pub Ends : (top_k : ℕ) → List Hit → Reply → Reranked → Type 0
Ends top_k hits reply (returned result) = Picks top_k hits result
Ends top_k hits reply (escaped e) = Raises reply e

-- An outcome that is settled to different hits of the right number, or that the answer raises
abbrev Sound : (top_k : ℕ) → List Hit → Reply → Outcome → Type 0
Sound top_k hits reply (ranking places tokens) =
    (length places ≡ smaller top_k (length hits)) × Placed (length hits) [] places
Sound top_k hits reply (failed code) = Unit
Sound top_k hits reply (escaping e) = Raises reply e

check_ranking-Sound :
    (one top_k : ℕ) (hits : List Hit) (items : List Item) (tokens : Option ℕ)
    → (length items == smaller top_k (length hits)) ≡ true
    → Sound top_k hits
        (body (some items) tokens)
        (outcome_of (check_places one (length hits) [] items) tokens)
check_ranking-Sound one top_k hits items tokens same =
    at _ (check_places-Accepted one (length hits) [] items)
  where
    count : length items ≡ smaller top_k (length hits)
    count = equal _ _ same

    at :
        (found : Checked (List Place))
        → Accepted one (length hits) [] items found
        → Sound top_k hits (body (some items) tokens) (outcome_of found tokens)
    at invalid h = tt
    at overflow h = (refl, h)
    at (valid places) h = (h.0 ∙ count, h.1)

read_reply-Sound :
    (one top_k : ℕ) (hits : List Hit) (reply : Reply)
    → Sound top_k hits reply (read_reply one top_k hits reply)
unfolding read_reply check_ranking
read_reply-Sound one top_k hits client_timeout = tt
read_reply-Sound one top_k hits client_error = tt
read_reply-Sound one top_k hits late = tt
read_reply-Sound one top_k hits unreadable = tt
read_reply-Sound one top_k hits (status n) = tt
read_reply-Sound one top_k hits (uncaught e) = refl
read_reply-Sound one top_k hits (body none tokens) = tt
read_reply-Sound one top_k hits (body (some items) tokens) =
    elim (Bool-cases (length items == smaller top_k (length hits))) [
      | inl same ↦ rw same (check_ranking-Sound one top_k hits items tokens same)
      | inr other ↦ rw other tt
    ]

settle-Ends :
    (attempts top_k : ℕ) (query : Text) (hits : List Hit) (reply : Reply) (outcome : Outcome)
    → Sound top_k hits reply outcome
    → Ends top_k hits reply (settle attempts top_k query hits outcome)
unfolding settle
settle-Ends attempts top_k query hits reply (ranking places tokens) h = record {
  indices = map index_of (by_score places);
  different = by_score-Different places (Placed-Different (length hits) [] places h.1);
  in_range = indices_in_range _ _ (by_score-All _ places (Placed-All (length hits) [] places h.1));
  count = length-index_of (by_score places) ∙ length-by_score places ∙ h.0;
  chunks = chunks-ranked_hits _ hits (by_score places);
}
settle-Ends attempts top_k query hits reply (failed code) h = fall_back-Picks top_k _ hits
settle-Ends attempts top_k query hits reply (escaping e) h = h

-- Whatever the provider answers, a ranking, nonsense or nothing, the reranking either returns hits
-- that have the chunks of different ones of the hits that were given, as many as were asked for or
-- are there, or it lets an exception out: then the answer is one whose reading raises that
-- exception, which no clause catches, or a list with an integer score out of the range of floats,
-- and the exception is the OverflowError.
pub rerank-Ends :
    (one : ℕ) (query : Text) (hits : List Hit) (top_k : ℕ) (has_time : Bool) (reply : Reply)
    → Ends top_k hits reply (rerank one query hits top_k has_time reply)
unfolding rerank chunks_at
rerank-Ends one query [] top_k has_time reply = record {
  indices = [];
  different = tt;
  in_range = tt;
  count = ground arith;
  chunks = refl;
}
rerank-Ends one query (hit ∷ hits) top_k true reply =
    settle-Ends 1 top_k query (hit ∷ hits) reply _ (read_reply-Sound one top_k (hit ∷ hits) reply)
rerank-Ends one query (hit ∷ hits) top_k false reply =
    settle-Ends 0 top_k query (hit ∷ hits) reply _ tt
