-- ===== src/Transaction/Rules.antt =====
-- Invariants of transaction bodies, one rule for each way to build one. An invariant of the rows
-- holds of what is worked on and of what is saved.
use learning_qa_assistant.Base.{ℕ, Bool, true, false, ◌≡◌, refl, sym, ap, subst}
use learning_qa_assistant.Transaction.{
  Code, Result, ok, err, Session, Tx, pure, raise, lift, raise_if, when, get, put, commit, now,
  continue, ◌>>=◌, ◌>>◌, transaction,
}

abbrev pub OnOk : {A : Type 0} → (A → Type 0) → Result A → Type 0
OnOk Q (ok a) = Q a
OnOk Q (err e) = Unit {0}

-- `m` keeps `P`, however it ends, and what it returns is in `Q`.
pub record Post {S A : Type 0} (P : S → Type 0) (Q : A → Type 0) (m : Tx S A) : Type 0 where
  pub at :
      (s : Session S) → P s.work → P s.saved → P (m s).1.work × P (m s).1.saved × OnOk Q (m s).0

module _ {S A : Type 0} {P : S → Type 0} where
  pub Post-pure : {Q : A → Type 0} (a : A) → Q a → Post P Q (pure a)
  unfolding pure
  Post-pure a q = record { at = λ s w k. (w, k, q) }

  pub Post-raise : {Q : A → Type 0} (code : Code) → Post P Q (raise {A = A} code)
  unfolding raise
  Post-raise code = record { at = λ s w k. (w, k, tt) }

  pub Post-lift : {Q : A → Type 0} (r : Result A) → OnOk Q r → Post P Q (lift r)
  unfolding lift
  Post-lift r q = record { at = λ s w k. (w, k, q) }

module _ {S : Type 0} {P : S → Type 0} where
  pub Post-raise_if : (b : Bool) (code : Code) → Post P (λ _. b ≡ false) (raise_if b code)
  unfolding raise_if
  Post-raise_if true code = record { at = λ s w k. (w, k, tt) }
  Post-raise_if false code = record { at = λ s w k. (w, k, refl) }

  pub Post-when :
      (b : Bool) (m : Tx S (Unit {0}))
      → (b ≡ true → Post P (λ _. Unit {0}) m)
      → Post P (λ _. Unit {0}) (when b m)
  unfolding when
  Post-when true m pm = record { at = λ s w k. (pm refl).at s w k }
  Post-when false m pm = record { at = λ s w k. (w, k, tt) }

  -- The body always raises, so behind it the test has failed.
  pub Post-when_raises :
      (b : Bool) (m : Tx S (Unit {0}))
      → (b ≡ true → Post P (λ _. ⊥) m)
      → Post P (λ _. b ≡ false) (when b m)
  unfolding when
  Post-when_raises true m pm = record {
    at = λ s w k. let (w', k', q) = (pm refl).at s w k in (w', k', never (m s).0 q);
  }
    where
      never : (r : Result (Unit {0})) → OnOk (λ _. ⊥) r → OnOk (λ _. true ≡ false) r
      never (ok a) q = absurd q
      never (err e) q = tt
  Post-when_raises false m pm = record { at = λ s w k. (w, k, refl) }

  pub Post-get : Post P P get
  unfolding get
  Post-get = record { at = λ s w k. (w, k, w) }

  pub Post-put : (w : S) → P w → Post P (λ _. Unit {0}) (put w)
  unfolding put
  Post-put w h = record { at = λ s _ k. (h, k, tt) }

  pub Post-commit : Post P (λ _. Unit {0}) commit
  unfolding commit
  Post-commit = record { at = λ s w k. (w, w, tt) }

  pub Post-now : Post P (λ _. Unit {0}) now
  unfolding now
  Post-now = record { at = λ s w k. (w, k, tt) }

module _ {S A B : Type 0} {P : S → Type 0} where
  Post-continue :
      {Q : A → Type 0} {R : B → Type 0} (r : Result A) (f : A → Tx S B) (s : Session S)
      → OnOk Q r
      → ((a : A) → Q a → Post P R (f a))
      → P s.work
      → P s.saved
      → let t = continue r f s in P t.1.work × P t.1.saved × OnOk R t.0
  Post-continue (ok a) f s q pf w k = (pf a q).at s w k
  Post-continue (err e) f s q pf w k = (w, k, tt)

  pub Post-bind :
      {Q : A → Type 0} {R : B → Type 0} (m : Tx S A) (f : A → Tx S B)
      → Post P Q m
      → ((a : A) → Q a → Post P R (f a))
      → Post P R (m >>= f)
  unfolding ◌>>=◌
  Post-bind m f pm pf = record {
    at = λ s w k. let (w', k', q) = pm.at s w k in Post-continue (m s).0 f (m s).1 q pf w' k';
  }

pub any-OnOk : {A : Type 0} (r : Result A) → OnOk (λ _. Unit {0}) r
any-OnOk (ok a) = tt
any-OnOk (err e) = tt

pub OnOk-at : {A : Type 0} (Q : A → Type 0) (r : Result A) (a : A) → OnOk Q r → r ≡ ok a → Q a
OnOk-at Q r a q e = subst (OnOk Q) e q

pub Post-weaken :
    {S A : Type 0} {P : S → Type 0} {Q : A → Type 0} (m : Tx S A)
    → Post P Q m
    → Post P (λ _. Unit {0}) m
Post-weaken m pm = record {
  at = λ s w k. let (w', k', _) = pm.at s w k in (w', k', any-OnOk (m s).0);
}

module _ {S B : Type 0} {P : S → Type 0} {R : B → Type 0} where
  pub then_get : {f : S → Tx S B} → ((a : S) → P a → Post P R (f a)) → Post P R (get >>= f)
  then_get pf = Post-bind get _ Post-get pf

  pub then_raise_if :
      (b : Bool) (code : Code) {m : Tx S B}
      → (b ≡ false → Post P R m)
      → Post P R (raise_if b code >> m)
  then_raise_if b code pm = Post-bind _ _ (Post-raise_if b code) (λ _. pm)

  pub then_put : (w : S) {m : Tx S B} → P w → Post P R m → Post P R (put w >> m)
  then_put w h pm = Post-bind _ _ (Post-put w h) (λ _ _. pm)

  pub then_now : {f : ℕ → Tx S B} → ((time : ℕ) → Post P R (f time)) → Post P R (now >>= f)
  then_now pf = Post-bind _ _ Post-now (λ time _. pf time)

  pub then_commit : {m : Tx S B} → Post P R m → Post P R (commit >> m)
  then_commit pm = Post-bind _ _ Post-commit (λ _ _. pm)

  pub then_do :
      {Q : Unit {0} → Type 0} (n : Tx S (Unit {0})) {m : Tx S B}
      → Post P Q n
      → Post P R m
      → Post P R (n >> m)
  then_do n pn pm = Post-bind _ _ pn (λ _ _. pm)

-- A committed transaction starts and ends with rows that satisfy the invariant.
pub transaction-Post :
    {S A : Type 0} {P : S → Type 0} {Q : A → Type 0} (m : Tx S A) (clock : ℕ → ℕ) (s : S)
    → Post P Q m
    → P s
    → P (transaction m clock s).1
unfolding transaction
transaction-Post m clock s pm h = (pm.at (record { work = s; saved = s; clock = clock }) h h).1

-- A property of the result of every run of `m`, added to what it keeps.
pub Post-and :
    {S A : Type 0} {P : S → Type 0} {Q : A → Type 0} (m : Tx S A)
    → Post P (λ _. Unit {0}) m
    → ((s : Session S) → OnOk Q (m s).0)
    → Post P Q m
Post-and m pm pq = record { at = λ s w k. let (w', k', _) = pm.at s w k in (w', k', pq s) }

-- What a transaction returns.
pub transaction-OnOk :
    {S A : Type 0} {P : S → Type 0} {Q : A → Type 0} (m : Tx S A) (clock : ℕ → ℕ) (s : S)
    → Post P Q m
    → P s
    → OnOk Q (transaction m clock s).0
unfolding transaction
transaction-OnOk m clock s pm h = (pm.at (record { work = s; saved = s; clock = clock }) h h).2

-- Inversion of a body that returned.
module _ {S A B : Type 0} where
  continue-eq-ok :
      (r : Result A) (f : A → Tx S B) (s t : Session S) (b : B)
      → continue r f s ≡ (ok b, t)
      → (a : A) × (r ≡ ok a) × (f a s ≡ (ok b, t))
  continue-eq-ok (ok a) f s t b h = (a, refl, h)
  continue-eq-ok (err e) f s t b h = absurd (cc h)

  pub >>=-eq-ok :
      (m : Tx S A) (f : A → Tx S B) (s t : Session S) (b : B)
      → (m >>= f) s ≡ (ok b, t)
      → (a : A) × (u : Session S) × (m s ≡ (ok a, u)) × (f a u ≡ (ok b, t))
  unfolding ◌>>=◌
  >>=-eq-ok m f s t b h =
      let (a, e, k) = continue-eq-ok (m s).0 f (m s).1 t b h in (a, (m s).1, λ i. (e i, (m s).1), k)

pub transaction-eq-ok :
    {S A : Type 0} (m : Tx S A) (clock : ℕ → ℕ) (s : S) (a : A)
    → (transaction m clock s).0 ≡ ok a
    → (t : Session S) × (m (record { work = s; saved = s; clock = clock }) ≡ (ok a, t))
      × ((transaction m clock s).1 ≡ t.saved)
unfolding transaction
transaction-eq-ok m clock s a h =
    let start : Session _ = record { work = s; saved = s; clock = clock } in
    ((m start).1, (λ i. (h i, (m start).1)), refl)

pub raise_if-eq-ok :
    {S : Type 0} (b : Bool) (code : Code) (s t : Session S) (a : Unit {0})
    → raise_if b code s ≡ (ok a, t)
    → (b ≡ false) × (t ≡ s)
unfolding raise_if
raise_if-eq-ok true code s t a h = absurd (cc (ap (λ p. p.0) h))
raise_if-eq-ok false code s t a h = (refl, sym (ap (λ p. p.1) h))

pub lift-eq-ok :
    {S A : Type 0} (r : Result A) (s t : Session S) (a : A)
    → lift r s ≡ (ok a, t)
    → (r ≡ ok a) × (t ≡ s)
unfolding lift
lift-eq-ok r s t a h = (ap (λ p. p.0) h, sym (ap (λ p. p.1) h))

pub Post-imply :
    {S A : Type 0} {P : S → Type 0} {Q R : A → Type 0} (m : Tx S A)
    → Post P Q m
    → ((a : A) → Q a → R a)
    → Post P R m
Post-imply {Q = Q} {R = R} m pm f = record {
  at = λ s w k. let (w', k', q) = pm.at s w k in (w', k', on (m s).0 q);
}
  where
    on : (r : Result _) → OnOk Q r → OnOk R r
    on (ok a) q = f a q
    on (err e) q = tt
