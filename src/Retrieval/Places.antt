-- ===== src/Retrieval/Places.antt =====
-- The places of a ranking that is accepted: as many as items, each index once and in range.
use learning_qa_assistant.Base.{
  ℕ, suc, ◌<◌, Bool, true, false, ◌||◌, ◌==◌, ◌≡◌, refl, ap, ◌∙◌, inl, inr, Option, none, some,
  List, [], ◌∷◌, map, Bool-cases, ==_refl, leb, ltb, length, contains, any, arith,
}
use learning_qa_assistant.Base.Table.{All}
use learning_qa_assistant.Retrieval.State.{Score, no_score, too_large, number, Item}
use learning_qa_assistant.Retrieval.Rerank.{
  Place, Checked, valid, invalid, overflow, scored_place, place_in, check_place, with_place,
  seen_with, check_places, insert_place, by_score,
}

abbrev pub is_too_large : Score → Bool
is_too_large too_large = true
is_too_large _ = false

abbrev pub overflows : Item → Bool
overflows item = is_too_large item.relevance_score

abbrev pub index_of : Place → ℕ
index_of place = place.index

abbrev pub Different : List ℕ → Type 0
Different [] = Unit
Different (i ∷ is) = (contains is i ≡ false) × Different is

-- What is known of accepted places: none was seen before, and none is out of range.
abbrev pub Placed : (count : ℕ) → List ℕ → List Place → Type 0
Placed count seen [] = Unit
Placed count seen (place ∷ places) =
    (place.index < count)
    × (contains seen place.index ≡ false)
    × Placed count (place.index ∷ seen) places

or_true : (a b : Bool) → b ≡ true → (a || b) ≡ true
or_true true b h = refl
or_true false b h = h

module _ (one count : ℕ) where
  abbrev pub Accepted : List ℕ → List Item → Checked (List Place) → Type 0
  Accepted seen items invalid = Unit
  Accepted seen items overflow = any overflows items ≡ true
  Accepted seen items (valid places) = (length places ≡ length items) × Placed count seen places

  abbrev Fits : List ℕ → Score → Checked Place → Type 0
  Fits seen score invalid = Unit
  Fits seen score overflow = is_too_large score ≡ true
  Fits seen score (valid place) = (place.index < count) × (contains seen place.index ≡ false)

  scored_place-Fits :
      (seen : List ℕ) (index : ℕ) (score : Score)
      → index < count
      → contains seen index ≡ false
      → Fits seen score (scored_place one index score)
  scored_place-Fits seen index no_score low new = tt
  scored_place-Fits seen index too_large low new = refl
  scored_place-Fits seen index (number score) low new = elim (Bool-cases (leb score one)) [
    | inl good ↦ rw good (low, new)
    | inr bad ↦ rw bad tt
  ]

  check_place-Fits :
      (seen : List ℕ) (index : Option ℕ) (score : Score)
      → Fits seen score (place_in one count seen index score)
  check_place-Fits seen none score = tt
  check_place-Fits seen (some index) score = elim (Bool-cases (ltb index count)) [
    | inl low ↦ elim (Bool-cases (contains seen index)) [
      | inl old ↦ rw low (rw old tt)
      | inr new ↦ rw low (rw new (scored_place-Fits seen index score (ground arith) new))
    ]
    | inr high ↦ rw high tt
  ]

  with_place-Accepted :
      (seen : List ℕ) (item : Item) (items : List Item) (place : Checked Place)
      (rest : Checked (List Place))
      → Fits seen item.relevance_score place
      → Accepted (seen_with place seen) items rest
      → Accepted seen (item ∷ items) (with_place place rest)
  with_place-Accepted seen item items invalid rest f h = tt
  with_place-Accepted seen item items overflow rest f h = rw f refl
  with_place-Accepted seen item items (valid place) invalid f h = tt
  with_place-Accepted seen item items (valid place) overflow f h = or_true (overflows item) _ h
  with_place-Accepted seen item items (valid place) (valid rest) f h = (ap suc h.0, (f.0, f.1, h.1))

  pub check_places-Accepted :
      (seen : List ℕ) (items : List Item) → Accepted seen items (check_places one count seen items)
  unfolding check_places check_place
  check_places-Accepted seen [] = (refl, tt)
  check_places-Accepted seen (item ∷ items) =
      with_place-Accepted seen item items _ _
        (check_place-Fits seen item.index item.relevance_score)
        (check_places-Accepted
          (seen_with (place_in one count seen item.index item.relevance_score) seen) items)

Placed-apart :
    (count : ℕ) (seen : List ℕ) (i : ℕ) (places : List Place)
    → contains seen i ≡ true
    → Placed count seen places
    → contains (map index_of places) i ≡ false
Placed-apart count seen i [] old h = refl
Placed-apart count seen i (place ∷ places) old h = elim (Bool-cases (place.index == i)) [
  | inl same ↦ absurd (clash (let p : place.index ≡ i = ground arith in p) h.1)
  | inr other ↦ rw other (Placed-apart count (place.index ∷ seen) i places (rw other old) h.2)
]
  where
    clash : place.index ≡ i → contains seen place.index ≡ false → ⊥
    clash p new = cc (p, new, old)

pub Placed-Different :
    (count : ℕ) (seen : List ℕ) (places : List Place)
    → Placed count seen places
    → Different (map index_of places)
Placed-Different count seen [] h = tt
Placed-Different count seen (place ∷ places) h = (
  Placed-apart count (place.index ∷ seen) place.index places (rw (==_refl place.index) refl) h.2,
  Placed-Different count (place.index ∷ seen) places h.2,
)

contains-insert_place :
    (place : Place) (places : List Place) (i : ℕ)
    → contains (map index_of (insert_place place places)) i
      ≡ (place.index == i || contains (map index_of places) i)
unfolding insert_place
contains-insert_place place [] i = refl
contains-insert_place place (other ∷ rest) i = elim (Bool-cases (leb other.score place.score)) [
  | inl first ↦ rw first refl
  | inr later ↦ rw later (
      ap (λ b. other.index == i || b) (contains-insert_place place rest i)
      ∙ swapped (other.index == i) (place.index == i) _)
]
  where
    swapped : (a b c : Bool) → (a || (b || c)) ≡ (b || (a || c))
    swapped true true c = refl
    swapped true false c = refl
    swapped false true c = refl
    swapped false false c = refl

insert_place-Different :
    (place : Place) (places : List Place)
    → contains (map index_of places) place.index ≡ false
    → Different (map index_of places)
    → Different (map index_of (insert_place place places))
unfolding insert_place
insert_place-Different place [] new h = (refl, tt)
insert_place-Different place (other ∷ rest) new h =
    elim (Bool-cases (leb other.score place.score)) [
      | inl first ↦ rw first (new, h)
      | inr later ↦ elim (Bool-cases (other.index == place.index)) [
        | inl same ↦ absurd (cc (rw same at new))
        | inr apart ↦
            let apart' : (place.index == other.index) ≡ false = ground arith in
            rw later (
              contains-insert_place place rest other.index ∙ rw apart' h.0,
              insert_place-Different place rest (rw apart at new) h.1,
            )
      ]
    ]

contains-by_score :
    (places : List Place) (i : ℕ)
    → contains (map index_of (by_score places)) i ≡ contains (map index_of places) i
unfolding by_score
contains-by_score [] i = refl
contains-by_score (place ∷ places) i =
    contains-insert_place place (by_score places) i
    ∙ ap (λ b. place.index == i || b) (contains-by_score places i)

-- Sorting by score keeps the indices different, and as many.
pub by_score-Different :
    (places : List Place)
    → Different (map index_of places)
    → Different (map index_of (by_score places))
unfolding by_score
by_score-Different [] h = tt
by_score-Different (place ∷ places) h =
    insert_place-Different place (by_score places) (contains-by_score places place.index ∙ h.0)
      (by_score-Different places h.1)

length-insert_place :
    (place : Place) (places : List Place) → length (insert_place place places) ≡ suc (length places)
unfolding insert_place
length-insert_place place [] = refl
length-insert_place place (other ∷ rest) = elim (Bool-cases (leb other.score place.score)) [
  | inl first ↦ rw first refl
  | inr later ↦ rw later (ap suc (length-insert_place place rest))
]

pub length-by_score : (places : List Place) → length (by_score places) ≡ length places
unfolding by_score
length-by_score [] = refl
length-by_score (place ∷ places) =
    length-insert_place place (by_score places) ∙ ap suc (length-by_score places)

-- Every place stays in range.
insert_place-All :
    (P : Place → Type 0) (place : Place) (places : List Place)
    → P place
    → All P places
    → All P (insert_place place places)
unfolding insert_place
insert_place-All P place [] p h = (p, tt)
insert_place-All P place (other ∷ rest) p h = elim (Bool-cases (leb other.score place.score)) [
  | inl first ↦ rw first (p, h)
  | inr later ↦ rw later (h.0, insert_place-All P place rest p h.1)
]

pub by_score-All :
    (P : Place → Type 0) (places : List Place) → All P places → All P (by_score places)
unfolding by_score
by_score-All P [] h = tt
by_score-All P (place ∷ places) h = insert_place-All P place _ h.0 (by_score-All P places h.1)

pub Placed-All :
    (count : ℕ) (seen : List ℕ) (places : List Place)
    → Placed count seen places
    → All (λ place. place.index < count) places
Placed-All count seen [] h = tt
Placed-All count seen (place ∷ places) h = (h.0, Placed-All count (place.index ∷ seen) places h.2)
