-- ===== src/Retrieval/Distinct.antt =====
-- What selection keeps: each text once, and no text lost.
use learning_qa_assistant.Base.{
  Bool, true, false, ◌||◌, ◌≡◌, refl, sym, subst, inl, inr, List, [], ◌∷◌, Bool-cases, ==_refl, any,
}
use learning_qa_assistant.Base.Table.{All}
use learning_qa_assistant.Base.Text.{text_eq_refl}
use learning_qa_assistant.Retrieval.State.{Hit}
use learning_qa_assistant.Retrieval.Selection.{
  Key, text_key, excel_key, same_key, key_of, is_blank, unique_hits,
}

same_key_refl : (k : Key) → same_key k k ≡ true
unfolding same_key
same_key_refl (text_key a) = text_eq_refl a
same_key_refl (excel_key d r a) = rw (==_refl d) (rw (text_eq_refl r) (text_eq_refl a))

abbrev pub AreDistinct : List Hit → Type 0
AreDistinct [] = Unit
AreDistinct (hit ∷ hits) =
    All (λ later. same_key (key_of later) (key_of hit) ≡ false) hits × AreDistinct hits

-- The text of a hit is blank, seen before, or that of a hit which is kept.
abbrev pub is_covered : List Key → List Hit → Hit → Bool
is_covered seen kept hit =
    is_blank hit
    || (any (same_key (key_of hit)) seen
        || any (λ other. same_key (key_of hit) (key_of other)) kept)

All-weaken :
    (P Q : Hit → Type 0) (hits : List Hit) → ((hit : Hit) → P hit → Q hit) → All P hits → All Q hits
All-weaken P Q [] f h = tt
All-weaken P Q (hit ∷ hits) f h = (f hit h.0, All-weaken P Q hits f h.1)

or_false : (a b : Bool) → (a || b) ≡ false → (a ≡ false) × (b ≡ false)
or_false true b e = absurd (cc e)
or_false false b e = (refl, e)

unique_hits-new :
    (seen : List Key) (hits : List Hit)
    → All (λ hit. any (same_key (key_of hit)) seen ≡ false) (unique_hits seen hits)
unfolding unique_hits
unique_hits-new seen [] = tt
unique_hits-new seen (hit ∷ hits) =
    elim (Bool-cases (is_blank hit || any (same_key (key_of hit)) seen)) [
      | inl old ↦ rw old (unique_hits-new seen hits)
      | inr new ↦ rw new (
        (or_false _ _ new).1,
        All-weaken _ _ _ (λ other e. (or_false _ _ e).1) (unique_hits-new (key_of hit ∷ seen) hits),
      )
    ]

unique_hits-AreDistinct : (seen : List Key) (hits : List Hit) → AreDistinct (unique_hits seen hits)
unfolding unique_hits
unique_hits-AreDistinct seen [] = tt
unique_hits-AreDistinct seen (hit ∷ hits) =
    elim (Bool-cases (is_blank hit || any (same_key (key_of hit)) seen)) [
      | inl old ↦ rw old (unique_hits-AreDistinct seen hits)
      | inr new ↦ rw new (
        All-weaken _ _ _ (λ other e. (or_false _ _ e).0) (unique_hits-new (key_of hit ∷ seen) hits),
        unique_hits-AreDistinct (key_of hit ∷ seen) hits,
      )
    ]

covered_more :
    (blank same seen kept : Bool)
    → (blank || ((same || seen) || kept)) ≡ true
    → (blank || (seen || (same || kept))) ≡ true
covered_more true same seen kept e = refl
covered_more false true true kept e = refl
covered_more false true false kept e = refl
covered_more false false seen kept e = e

covered_old : (blank seen kept : Bool) → (blank || seen) ≡ true → (blank || (seen || kept)) ≡ true
covered_old true seen kept e = refl
covered_old false true kept e = refl
covered_old false false kept e = absurd (cc e)

covered_new : (blank seen kept : Bool) → (blank || (seen || (true || kept))) ≡ true
covered_new true seen kept = refl
covered_new false true kept = refl
covered_new false false kept = refl

unique_hits_skip :
    (seen : List Key) (hit : Hit) (hits : List Hit)
    → (is_blank hit || any (same_key (key_of hit)) seen) ≡ true
    → unique_hits seen (hit ∷ hits) ≡ unique_hits seen hits
unfolding unique_hits
unique_hits_skip seen hit hits old = rw old refl

unique_hits_keep :
    (seen : List Key) (hit : Hit) (hits : List Hit)
    → (is_blank hit || any (same_key (key_of hit)) seen) ≡ false
    → unique_hits seen (hit ∷ hits) ≡ hit ∷ unique_hits (key_of hit ∷ seen) hits
unfolding unique_hits
unique_hits_keep seen hit hits new = rw new refl

abbrev Covers : List Key → List Hit → List Hit → Type 0
Covers seen hits kept = All (λ hit. is_covered seen kept hit ≡ true) hits

unique_hits-Covers : (seen : List Key) (hits : List Hit) → Covers seen hits (unique_hits seen hits)
unique_hits-Covers seen [] = tt
unique_hits-Covers seen (hit ∷ hits) =
    elim (Bool-cases (is_blank hit || any (same_key (key_of hit)) seen)) [
      | inl old ↦
          subst (Covers seen (hit ∷ hits)) (sym (unique_hits_skip seen hit hits old))
            (covered_old (is_blank hit) _ _ old, unique_hits-Covers seen hits)
      | inr new ↦ subst (Covers seen (hit ∷ hits)) (sym (unique_hits_keep seen hit hits new)) (
        rw (same_key_refl (key_of hit)) (
            covered_new (is_blank hit) (any (same_key (key_of hit)) seen) (
              any (λ other. same_key (key_of hit) (key_of other))
                (unique_hits (key_of hit ∷ seen) hits))),
        All-weaken _ _ hits
            (λ other e. covered_more (is_blank other) (same_key (key_of other) (key_of hit)) _ _ e)
            (unique_hits-Covers (key_of hit ∷ seen) hits),
      )
    ]

-- Of the hits that a search returns, no two that are kept have the same text without its spaces
-- (in a spreadsheet: the same text at the same place of the same document), and every hit that is
-- not blank has the text of one that is kept.
pub unique_hits_lem :
    (hits : List Hit)
    → AreDistinct (unique_hits [] hits)
      × All (λ hit. is_covered [] (unique_hits [] hits) hit ≡ true) hits
unique_hits_lem hits = (unique_hits-AreDistinct [] hits, unique_hits-Covers [] hits)
