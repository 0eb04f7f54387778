-- ===== src/Transaction/Outcome.antt =====
-- What is true of the session when a body has returned: `Leads P Q m` says that where `P` holds
-- of the session before, `Q` holds of it after, if `m` returns.
use learning_qa_assistant.Base.{◌≡◌, refl, subst, ap}
use learning_qa_assistant.Transaction.{ok, Session, Tx, get, put, commit, ◌>>=◌}
use learning_qa_assistant.Transaction.Rules.{>>=-eq-ok}

abbrev pub Leads : {S A : Type 0} → (Session S → Type 0) → (Session S → Type 0) → Tx S A → Type 0
Leads {S} {A} P Q m = (s t : Session S) (a : A) → P s → m s ≡ (ok a, t) → Q t

module _ {S A B : Type 0} where
  pub Leads-bind :
      {P R Q : Session S → Type 0} (m : Tx S A) (f : A → Tx S B)
      → Leads P R m
      → ((a : A) → Leads R Q (f a))
      → Leads P Q (m >>= f)
  Leads-bind m f pm pf s t b p h =
      let (a, u, e, k) = >>=-eq-ok m f s t b h in pf a u t b (pm s u a p e) k

  -- A step that nothing is needed of.
  pub Leads-skip :
      {Q : Session S → Type 0} (m : Tx S A) (f : A → Tx S B)
      → ((a : A) → Leads (λ _. Unit {0}) Q (f a))
      → Leads (λ _. Unit {0}) Q (m >>= f)
  Leads-skip m f pf = Leads-bind m f (λ s t a _ _. tt) pf

module _ {S B : Type 0} where
  pub Leads-get :
      {P Q : Session S → Type 0} (f : S → Tx S B)
      → ((w : S) → Leads (λ s. P s × (w ≡ s.work)) Q (f w))
      → Leads P Q (get >>= f)
  unfolding ◌>>=◌
  Leads-get f pf s t b p h = pf s.work s t b (p, refl) h

module _ {S : Type 0} where
  pub Leads-put :
      {P : Session S → Type 0} (Q : Session S → Type 0) (w : S)
      → ((s : Session S) → P s → Q (record s { work = w }))
      → Leads P Q (put w)
  unfolding put
  Leads-put Q w f s t a p h = subst Q (ap (λ p. p.1) h) (f s p)

  pub Leads-commit :
      {P : Session S → Type 0} (Q : Session S → Type 0)
      → ((s : Session S) → P s → Q (record s { saved = s.work }))
      → Leads P Q commit
  unfolding commit
  Leads-commit Q f s t a p h = subst Q (ap (λ p. p.1) h) (f s p)
