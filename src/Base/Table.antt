-- ===== src/Base/Table.antt =====
-- Tables as lists of rows: the row that a key's test finds, and writing a row back.
use mathlib.Core.Path.{◌≡◌, refl, subst}
use mathlib.Core.Logic.{inl, inr}
use mathlib.Core.Bool.{Bool, true, false}
use mathlib.Core.Option.{Option, none, some}
use mathlib.Core.List.{List, [], ◌∷◌}
use learning_qa_assistant.Base.Tests.{if◌then◌else◌, Bool-cases}

module _ {ℓ} {A : Type ℓ} where
  -- `session.get(model, key)`, or a query for one row
  unfoldable pub find_row : (A → Bool) → List A → Option A
  find_row test [] = none
  find_row test (x ∷ xs) = if test x then some x else find_row test xs

  -- The row of this key is written; a row that is not there is added.
  unfoldable pub store_row : (A → Bool) → A → List A → List A
  store_row test new [] = new ∷ []
  store_row test new (x ∷ xs) = if test x then new ∷ xs else x ∷ store_row test new xs

  unfoldable pub remove_row : (A → Bool) → List A → List A
  remove_row test [] = []
  remove_row test (x ∷ xs) = if test x then xs else x ∷ remove_row test xs

  abbrev pub All : (A → Type 0) → List A → Type 0
  All P [] = Unit
  All P (x ∷ xs) = P x × All P xs

  abbrev pub OnSome : (A → Type 0) → Option A → Type 0
  OnSome P none = Unit
  OnSome P (some x) = P x

  pub find_row-All :
      (P : A → Type 0) (test : A → Bool) (xs : List A) {x : A}
      → All P xs
      → find_row test xs ≡ some x
      → P x
  unfolding find_row
  find_row-All P test [] h e = absurd (cc e)
  find_row-All P test (y ∷ ys) h e = elim (Bool-cases (test y)) [
    | inl hit ↦ subst P (cc (hit, e)) h.0
    | inr miss ↦ find_row-All P test ys h.1 (rw miss at e)
  ]

  pub find_row-OnSome :
      (P : A → Type 0) (test : A → Bool) (xs : List A) → All P xs → OnSome P (find_row test xs)
  unfolding find_row
  find_row-OnSome P test [] h = tt
  find_row-OnSome P test (y ∷ ys) h = elim (Bool-cases (test y)) [
    | inl hit ↦ rw hit h.0
    | inr miss ↦ rw miss (find_row-OnSome P test ys h.1)
  ]

  pub find_row-passes :
      (test : A → Bool) (xs : List A) {x : A} → find_row test xs ≡ some x → test x ≡ true
  unfolding find_row
  find_row-passes test [] e = absurd (cc e)
  find_row-passes test (y ∷ ys) e = elim (Bool-cases (test y)) [
    | inl hit ↦ subst (λ r. test r ≡ true) (cc (hit, e)) hit
    | inr miss ↦ find_row-passes test ys (rw miss at e)
  ]

  pub store_row-All :
      (P : A → Type 0) (test : A → Bool) (new : A) (xs : List A)
      → P new
      → All P xs
      → All P (store_row test new xs)
  unfolding store_row
  store_row-All P test new [] p h = (p, tt)
  store_row-All P test new (y ∷ ys) p h = elim (Bool-cases (test y)) [
    | inl hit ↦ rw hit (p, h.1)
    | inr miss ↦ rw miss (h.0, store_row-All P test new ys p h.1)
  ]

  pub remove_row-All :
      (P : A → Type 0) (test : A → Bool) (xs : List A) → All P xs → All P (remove_row test xs)
  unfolding remove_row
  remove_row-All P test [] h = tt
  remove_row-All P test (y ∷ ys) h = elim (Bool-cases (test y)) [
    | inl hit ↦ rw hit h.1
    | inr miss ↦ rw miss (h.0, remove_row-All P test ys h.1)
  ]

  -- What is written is found.
  pub find_row-store_row :
      (test : A → Bool) (new : A) (xs : List A)
      → test new ≡ true
      → find_row test (store_row test new xs) ≡ some new
  unfolding find_row store_row
  find_row-store_row test new [] h = rw h refl
  find_row-store_row test new (y ∷ ys) h = elim (Bool-cases (test y)) [
    | inl hit ↦ rw hit (rw h refl)
    | inr miss ↦ rw miss (rw miss (find_row-store_row test new ys h))
  ]

  -- A row of another key is found as before.
  pub find_row-store_other :
      (test other : A → Bool) (new : A) (xs : List A)
      → other new ≡ false
      → ((x : A) → test x ≡ true → other x ≡ false)
      → find_row other (store_row test new xs) ≡ find_row other xs
  unfolding find_row store_row
  find_row-store_other test other new [] h apart = rw h refl
  find_row-store_other test other new (y ∷ ys) h apart = elim (Bool-cases (test y)) [
    | inl hit ↦ rw hit (rw h (rw (apart y hit) refl))
    | inr miss ↦ rw miss (elim (Bool-cases (other y)) [
      | inl mine ↦ rw mine refl
      | inr away ↦ rw away (find_row-store_other test other new ys h apart)
    ])
  ]
