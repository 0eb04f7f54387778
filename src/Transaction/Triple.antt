-- ===== src/Transaction/Triple.antt =====
-- What is true of the session behind a body, whether it returns or raises.
use learning_qa_assistant.Base.{Bool, true, false, ◌≡◌, refl}
use learning_qa_assistant.Transaction.{
  Code, Result, ok, err, Session, Tx, lift, raise_if, when, get, continue, ◌>>=◌,
}

abbrev pub Settles :
    {S A : Type 0} → (A → Session S → Type 0) → (Session S → Type 0) → Result A → Session S → Type 0
Settles Q E (ok a) t = Q a t
Settles Q E (err f) t = E t

-- Where `P` holds before `m`, `Q` holds of what it returns and leaves, or `E` of what it left
-- when it raised.
pub record Triple {S A : Type 0} (P : Session S → Type 0) (Q : A → Session S → Type 0)
    (E : Session S → Type 0) (m : Tx S A) : Type 0 where
  pub at : (s : Session S) → P s → Settles Q E (m s).0 (m s).1

module _ {S A B : Type 0} {E : Session S → Type 0} where
  Triple-continue :
      {Q : A → Session S → Type 0} {R : B → Session S → Type 0} (r : Result A) (f : A → Tx S B)
      (t : Session S)
      → Settles Q E r t
      → ((a : A) → Triple (Q a) R E (f a))
      → let out = continue r f t in Settles R E out.0 out.1
  Triple-continue (ok a) f t q pf = (pf a).at t q
  Triple-continue (err e) f t q pf = q

  pub Triple-bind :
      {P : Session S → Type 0} {Q : A → Session S → Type 0} {R : B → Session S → Type 0}
      (m : Tx S A) (f : A → Tx S B)
      → Triple P Q E m
      → ((a : A) → Triple (Q a) R E (f a))
      → Triple P R E (m >>= f)
  unfolding ◌>>=◌
  Triple-bind m f pm pf = record { at = λ s p. Triple-continue (m s).0 f (m s).1 (pm.at s p) pf }

module _ {S : Type 0} {P E : Session S → Type 0} where
  pub Triple-raise_if :
      (b : Bool) (code : Code)
      → ((s : Session S) → P s → E s)
      → Triple P (λ _ s. P s × (b ≡ false)) E (raise_if b code)
  unfolding raise_if
  Triple-raise_if true code pe = record { at = λ s p. pe s p }
  Triple-raise_if false code pe = record { at = λ s p. (p, refl) }

  pub Triple-lift :
      {A : Type 0} (r : Result A) → ((s : Session S) → P s → E s) → Triple P (λ a s. P s) E (lift r)
  unfolding lift
  Triple-lift (ok a) pe = record { at = λ s p. p }
  Triple-lift (err f) pe = record { at = λ s p. pe s p }

  pub Triple-get : Triple P (λ a s. P s × (a ≡ s.work)) E get
  unfolding get
  Triple-get = record { at = λ s p. (p, refl) }

  pub Triple-when :
      (b : Bool) (m : Tx S (Unit {0}))
      → Triple P (λ _ s. P s) E m
      → Triple P (λ _ s. P s) E (when b m)
  unfolding when
  Triple-when true m pm = record { at = λ s p. pm.at s p }
  Triple-when false m pm = record { at = λ s p. p }

  pub Triple-when-true :
      {Q : Unit {0} → Session S → Type 0} (b : Bool) (m : Tx S (Unit {0}))
      → b ≡ true
      → Triple P Q E m
      → Triple P Q E (when b m)
  unfolding when
  Triple-when-true true m h pm = record { at = λ s p. pm.at s p }
  Triple-when-true false m h pm = absurd (cc h)

  pub Triple-weaken :
      {A : Type 0} {P' : Session S → Type 0} {Q R : A → Session S → Type 0} (m : Tx S A)
      → Triple P Q E m
      → ((s : Session S) → P' s → P s)
      → ((a : A) (s : Session S) → Q a s → R a s)
      → Triple P' R E m
  Triple-weaken {Q = Q} {R = R} m pm pre post = record {
    at = λ s p. weaker (m s).0 (m s).1 (pm.at s (pre s p));
  }
    where
      weaker : (r : Result _) (t : Session S) → Settles Q E r t → Settles R E r t
      weaker (ok a) t q = post a t q
      weaker (err f) t q = q
