-- ===== src/Transaction/Refusal.antt =====
-- Transaction bodies that raise before they commit anything.
use learning_qa_assistant.Base.{ℕ, Bool, true, false, ◌≡◌, refl, ◌∙◌, ap}
use learning_qa_assistant.Transaction.{
  Failure, Code, app_error, Result, ok, err, Session, Tx, pure, get, lift, raise, raise_if,
  continue, ◌>>=◌, ◌>>◌, transaction,
}

-- `m` raises at `s`, having committed nothing.
pub record Refuses {S A : Type 0} (m : Tx S A) (s : Session S) : Type 0 where
  pub failure : Failure
  pub raises : (m s).0 ≡ err failure
  pub unsaved : (m s).1.saved ≡ s.saved

module _ {S A B : Type 0} where
  continue-err :
      (r : Result A) (f : Failure) (k : A → Tx S B) (s : Session S)
      → r ≡ err f
      → continue r k s ≡ (err f, s)
  continue-err (ok a) f k s e = absurd (cc e)
  continue-err (err g) f k s e = cc e

  pub Refuses-bind :
      (m : Tx S A) (k : A → Tx S B) (s : Session S) → Refuses m s → Refuses (m >>= k) s
  unfolding ◌>>=◌
  Refuses-bind m k s r =
      let e = continue-err (m s).0 r.failure k (m s).1 r.raises in
      record {
        failure = r.failure;
        raises = ap (λ p. p.0) e;
        unsaved = ap (λ p. p.1.saved) e ∙ r.unsaved;
      }

  pub Refuses-at :
      (k : A → Tx S B) (a : A) (s : Session S) → Refuses (k a) s → Refuses (pure a >>= k) s
  unfolding ◌>>=◌
  Refuses-at k a s r = record { failure = r.failure; raises = r.raises; unsaved = r.unsaved }

module _ {S A B : Type 0} where
  pub Refuses-get :
      (m : S → Tx S A) (k : A → Tx S B) (s : Session S)
      → Refuses (m s.work >>= k) s
      → Refuses ((get >>= m) >>= k) s
  unfolding ◌>>=◌
  Refuses-get m k s r = record { failure = r.failure; raises = r.raises; unsaved = r.unsaved }

module _ {S B : Type 0} where
  pub Refuses-then_get :
      (k : S → Tx S B) (s : Session S) → Refuses (k s.work) s → Refuses (get >>= k) s
  unfolding ◌>>=◌
  Refuses-then_get k s r = record { failure = r.failure; raises = r.raises; unsaved = r.unsaved }

module _ {S : Type 0} where
  pub Refuses-raise : {A : Type 0} (code : Code) (s : Session S) → Refuses (raise {A = A} code) s
  unfolding raise
  Refuses-raise code s = record { failure = app_error code; raises = refl; unsaved = refl }

  pub Refuses-raise_if :
      (b : Bool) (code : Code) (s : Session S) → b ≡ true → Refuses (raise_if b code) s
  unfolding raise_if
  Refuses-raise_if true code s h = record {
    failure = app_error code;
    raises = refl;
    unsaved = refl;
  }
  Refuses-raise_if false code s h = absurd (cc h)

  -- Behind a test that raises or goes on at the same session.
  pub Refuses-then_raise_if :
      {B : Type 0} (b : Bool) (code : Code) (m : Tx S B) (s : Session S)
      → Refuses m s
      → Refuses (raise_if b code >> m) s
  unfolding ◌>>=◌
  Refuses-then_raise_if true code m s r = record {
    failure = app_error code;
    raises = refl;
    unsaved = refl;
  }
  Refuses-then_raise_if false code m s r = record {
    failure = r.failure;
    raises = r.raises;
    unsaved = r.unsaved;
  }

  pub Refuses-raise_if_bind :
      {A B : Type 0} (b : Bool) (code : Code) (m : Tx S A) (k : A → Tx S B) (s : Session S)
      → Refuses (m >>= k) s
      → Refuses ((raise_if b code >> m) >>= k) s
  unfolding ◌>>=◌
  Refuses-raise_if_bind true code m k s r = record {
    failure = app_error code;
    raises = refl;
    unsaved = refl;
  }
  Refuses-raise_if_bind false code m k s r = record {
    failure = r.failure;
    raises = r.raises;
    unsaved = r.unsaved;
  }

  pub Refuses-then_lift :
      {A B : Type 0} (x : Result A) (m : Tx S B) (s : Session S)
      → Refuses m s
      → Refuses (lift x >> m) s
  unfolding ◌>>=◌
  Refuses-then_lift (ok a) m s r = record {
    failure = r.failure;
    raises = r.raises;
    unsaved = r.unsaved;
  }
  Refuses-then_lift (err f) m s r = record { failure = f; raises = refl; unsaved = refl }

pub transaction-Refuses :
    {S A : Type 0} (m : Tx S A) (clock : ℕ → ℕ) (s : S)
    → Refuses m (record { work = s; saved = s; clock = clock })
    → ((f : Failure) × ((transaction m clock s).0 ≡ err f)) × ((transaction m clock s).1 ≡ s)
unfolding transaction
transaction-Refuses m clock s r = ((r.failure, r.raises), r.unsaved)
