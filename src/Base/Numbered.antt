-- ===== src/Base/Numbered.antt =====
-- Rows that are numbered from a first number on, dicts as lists of rows, sums over rows, and
-- ascending lists of numbers.
use Prim.Native.Nat.{ℕ, suc, ◌+◌, ◌≤◌, ◌<◌}
use mathlib.Core.Path.{◌≡◌, refl, ap, sym, subst}
use mathlib.Core.Logic.{inl, inr}
use mathlib.Core.Bool.{Bool, false}
use mathlib.Core.Option.{Option, none, some}
use mathlib.Core.List.{List, [], ◌∷◌, ◌++◌}
use native.Mathlib.Omega.{arith}
use learning_qa_assistant.Base.Tests.{Bool-cases, ◌==◌}
use learning_qa_assistant.Base.Lists.{length, length-append}
use learning_qa_assistant.Base.Table.{find_row, store_row}

module _ {A : Type 0} where
  pub store_row-append :
      (test : A → Bool) (new : A) (xs : List A)
      → find_row test xs ≡ none
      → store_row test new xs ≡ xs ++ new ∷ []
  unfolding find_row store_row
  store_row-append test new [] e = refl
  store_row-append test new (y ∷ ys) e = elim (Bool-cases (test y)) [
    | inl hit ↦ absurd (cc (rw hit at e))
    | inr miss ↦ rw miss (ap (λ r. y ∷ r) (store_row-append test new ys (rw miss at e)))
  ]

  pub length-store_row :
      (test : A → Bool) (new prev : A) (xs : List A)
      → find_row test xs ≡ some prev
      → length (store_row test new xs) ≡ length xs
  unfolding find_row store_row
  length-store_row test new prev [] e = absurd (cc e)
  length-store_row test new prev (y ∷ ys) e = elim (Bool-cases (test y)) [
    | inl hit ↦ rw hit refl
    | inr miss ↦ rw miss (ap suc (length-store_row test new prev ys (rw miss at e)))
  ]

  -- The sum of what the rows weigh
  abbrev pub total : (A → ℕ) → List A → ℕ
  total weight [] = 0
  total weight (x ∷ xs) = weight x + total weight xs

  pub total-append :
      (weight : A → ℕ) (xs : List A) (x : A)
      → total weight (xs ++ x ∷ []) ≡ total weight xs + weight x
  total-append weight [] x = omega arith
  total-append weight (y ∷ ys) x = omega (arith, total-append weight ys x)

  pub total-store_row :
      (weight : A → ℕ) (test : A → Bool) (new prev : A) (xs : List A)
      → find_row test xs ≡ some prev
      → total weight (store_row test new xs) + weight prev ≡ total weight xs + weight new
  unfolding find_row store_row
  total-store_row weight test new prev [] e = absurd (cc e)
  total-store_row weight test new prev (y ∷ ys) e = elim (Bool-cases (test y)) [
    | inl hit ↦
        rw hit (
          let same : weight y ≡ weight prev = ap (λ o. weigh o) (rw hit at e) in
          omega (arith, same))
    | inr miss ↦
        rw miss
          (let rest = total-store_row weight test new prev ys (rw miss at e) in omega (arith, rest))
  ]
    where
      weigh : Option A → ℕ
      weigh none = 0
      weigh (some x) = weight x

module _ {A : Type 0} (number : A → ℕ) where
  abbrev pub IsNumbered : ℕ → List A → Type 0
  IsNumbered n [] = Unit
  IsNumbered n (x ∷ xs) = (number x ≡ n) × IsNumbered (suc n) xs

  abbrev pub has_number : ℕ → A → Bool
  has_number n x = number x == n

  pub append-IsNumbered :
      (n : ℕ) (xs : List A) (x : A)
      → IsNumbered n xs
      → number x ≡ n + length xs
      → IsNumbered n (xs ++ x ∷ [])
  append-IsNumbered n [] x h e = (omega (arith, e), tt)
  append-IsNumbered n (y ∷ ys) x h e = (h.0, append-IsNumbered (suc n) ys x h.1 (omega (arith, e)))

  pub find_row-beyond :
      (n m : ℕ) (xs : List A)
      → IsNumbered n xs
      → n + length xs ≤ m
      → find_row (has_number m) xs ≡ none
  unfolding find_row
  find_row-beyond n m [] h le = refl
  find_row-beyond n m (y ∷ ys) h le =
      let e = h.0 in
      let away : (number y == m) ≡ false = ground arith in
      rw away (find_row-beyond (suc n) m ys h.1 (omega (arith, le)))

  pub store_row-IsNumbered :
      (n m : ℕ) (new prev : A) (xs : List A)
      → IsNumbered n xs
      → number new ≡ m
      → find_row (has_number m) xs ≡ some prev
      → IsNumbered n (store_row (has_number m) new xs)
  unfolding find_row store_row
  store_row-IsNumbered n m new prev [] h e f = absurd (cc f)
  store_row-IsNumbered n m new prev (y ∷ ys) h e f = elim (Bool-cases (number y == m)) [
    | inl hit ↦ rw hit (let a = h.0 in (ground arith, h.1))
    | inr miss ↦ rw miss (h.0, store_row-IsNumbered (suc n) m new prev ys h.1 e (rw miss at f))
  ]

  pub find_row-range :
      (n : ℕ) (test : A → Bool) (x : A) (xs : List A)
      → IsNumbered n xs
      → find_row test xs ≡ some x
      → (n ≤ number x) × (number x < n + length xs)
  unfolding find_row
  find_row-range n test x [] h e = absurd (cc e)
  find_row-range n test x (y ∷ ys) h e = elim (Bool-cases (test y)) [
    | inl hit ↦
        let same : number y ≡ number x = ap (λ o. or_zero o) (rw hit at e) in
        let a = h.0 in (omega (arith, a, same), omega (arith, a, same))
    | inr miss ↦
        let (low, high) = find_row-range (suc n) test x ys h.1 (rw miss at e) in
        (omega (arith, low), omega (arith, high))
  ]
    where
      or_zero : Option A → ℕ
      or_zero none = 0
      or_zero (some z) = number z

  pub find_row-numbered :
      (n m : ℕ) (xs : List A)
      → IsNumbered n xs
      → n ≤ m
      → m < n + length xs
      → (x : A) × (find_row (has_number m) xs ≡ some x)
  unfolding find_row
  find_row-numbered n m [] h low high = absurd (omega (arith, low, high))
  find_row-numbered n m (y ∷ ys) h low high = elim (Bool-cases (number y == m)) [
    | inl hit ↦ rw hit (y, refl)
    | inr miss ↦
        rw miss
          (find_row-numbered (suc n) m ys h.1 (let e = h.0 in ground arith) (omega (arith, high)))
  ]

-- Rows that can be written into a dict one after the other, each under a key of its own.
module _ {A : Type 0} (same : A → A → Bool) where
  abbrev pub IsDict : List A → List A → Type 0
  IsDict rows [] = Unit
  IsDict rows (x ∷ xs) = (find_row (same x) rows ≡ none) × IsDict (rows ++ x ∷ []) xs

module _ {A : Type 0} where
  pub append_assoc : (xs : List A) (y : A) (ys : List A) → (xs ++ y ∷ []) ++ ys ≡ xs ++ y ∷ ys
  append_assoc [] y ys = refl
  append_assoc (x ∷ xs) y ys = ap (λ r. x ∷ r) (append_assoc xs y ys)

  pub append_nil : (xs : List A) → xs ++ [] ≡ xs
  append_nil [] = refl
  append_nil (x ∷ xs) = ap (λ r. x ∷ r) (append_nil xs)

  pub append-IsDict :
      (same : A → A → Bool) (rows xs : List A) (z : A)
      → IsDict same rows xs
      → find_row (same z) (rows ++ xs) ≡ none
      → IsDict same rows (xs ++ z ∷ [])
  append-IsDict same rows [] z h e =
      (subst (λ r. find_row (same z) r ≡ none) (append_nil rows) e, tt)
  append-IsDict same rows (x ∷ xs) z h e = (
    h.0,
    append-IsDict same (rows ++ x ∷ []) xs z h.1
        (subst (λ r. find_row (same z) r ≡ none) (sym (append_assoc rows x xs)) e),
  )

  pub IsNumbered-IsDict :
      (number : A → ℕ) (n : ℕ) (rows xs : List A)
      → IsNumbered number n rows
      → IsNumbered number (n + length rows) xs
      → IsDict (λ x. has_number number (number x)) rows xs
  IsNumbered-IsDict number n rows [] h k = tt
  IsNumbered-IsDict number n rows (x ∷ xs) h k = (
    find_row-beyond number n (number x) rows h (let e = k.0 in omega (arith, e)),
    IsNumbered-IsDict number n (rows ++ x ∷ []) xs (append-IsNumbered number n rows x h k.0)
        (subst (λ m. IsNumbered number m xs) (one_more rows x) k.1),
  )
    where
      one_more : (rows : List A) (x : A) → suc (n + length rows) ≡ n + length (rows ++ x ∷ [])
      one_more rows x = omega (arith, length-append rows (x ∷ []))
