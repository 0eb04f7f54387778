-- ===== src/Run/CreateAgain.antt =====
-- What a repeated creation returns.
use learning_qa_assistant.Base.{
  ℕ, ◌<◌, Bool, true, false, not, ◌&&◌, ◌||◌, ◌==◌, ◌≡◌, refl, ◌∙◌, sym, ap, subst, Option, none,
  some, List, [], ◌∷◌, arith, is_some, leb, Bool-cases, inl, inr,
}
use learning_qa_assistant.Transaction.{
  ok, err, app_error, idempotency_conflict, Session, ◌>>=◌, transaction,
}
use learning_qa_assistant.Transaction.Rules.{
  >>=-eq-ok, raise_if-eq-ok, lift-eq-ok, transaction-eq-ok,
}
use learning_qa_assistant.Run.State.{Run, Environment, is_waiting, is_running, same_kind}
use learning_qa_assistant.Run.Journal.{expire, expire_past}
use learning_qa_assistant.Run.Store.{
  Creation, first, change_first, is_retry, on_first, existing_run, create_found, create_body,
}
use learning_qa_assistant.Run.Rows.{count-first-none}
use learning_qa_assistant.Run.Firsts.{got, get-work}
use learning_qa_assistant.Run.Retrying.{fits, IsKnown, existing_run-eq-ok, create_new-eq-ok}

module _ (env : Environment) (creation : Creation) where
  create_found-eq-ok :
      (o : Option Run) (run : Run) (fresh : Bool) (s t : Session (List Run))
      → first (is_retry creation) s.work ≡ o
      → create_found env creation o s ≡ (ok (run, fresh), t)
      → IsKnown env creation run t.saved
  unfolding create_found
  create_found-eq-ok none run fresh s t at h =
      create_new-eq-ok env creation run fresh s t (count-first-none (is_retry creation) s.work at) h
  create_found-eq-ok (some found) run fresh s t at h =
      existing_run-eq-ok env creation found run fresh s t at h

  -- A creation that returned has looked its key up in the runs.
  create-looked :
      (clock : ℕ → ℕ) (runs : List Run) (run : Run) (fresh : Bool)
      → (transaction (create_body env creation) clock runs).0 ≡ ok (run, fresh)
      → (s t : Session (List Run)) × (s.work ≡ runs)
        × (create_found env creation (first (is_retry creation) s.work) s ≡ (ok (run, fresh), t))
        × ((transaction (create_body env creation) clock runs).1 ≡ t.saved)
  unfolding create_body
  create-looked clock runs run fresh h =
      let (t, e, saved) = transaction-eq-ok (create_body env creation) clock runs (run, fresh) h in
      let (_, s1, e1, h1) = >>=-eq-ok _ _ _ t (run, fresh) e in
      let (_, same1) = lift-eq-ok _ _ s1 _ e1 in
      let (_, s2, e2, h2) = >>=-eq-ok _ _ s1 t (run, fresh) h1 in
      let (_, same2) = raise_if-eq-ok _ _ s1 s2 _ e2 in
      let (read, s3, e3, h3) = >>=-eq-ok _ _ s2 t (run, fresh) h2 in
      let here = got read s2 s3 e3 in
      let start = get-work read s2 s3 e3 in
      (
        s3,
        t,
        start ∙ ap (λ x. x.work) (same2 ∙ same1),
        ap (λ r. create_found env creation (first (is_retry creation) r) s3) (sym here) ∙ h3,
        saved,
      )

  -- The row that a creation which returned has left.
  create-IsKnown :
      (clock : ℕ → ℕ) (runs : List Run) (run : Run) (fresh : Bool)
      → (transaction (create_body env creation) clock runs).0 ≡ ok (run, fresh)
      → IsKnown env creation run (transaction (create_body env creation) clock runs).1
  create-IsKnown clock runs run fresh h =
      let (s, t, _, found, saved) = create-looked clock runs run fresh h in
      subst (IsKnown env creation run) (sym saved)
        (create_found-eq-ok (first (is_retry creation) s.work) run fresh s t refl found)

same_key :
    (creation again : Creation) (runs : List Run)
    → again.user_id ≡ creation.user_id
    → again.client_key ≡ creation.client_key
    → first (is_retry again) runs ≡ first (is_retry creation) runs
unfolding first is_retry
same_key creation again [] u k = refl
same_key creation again (run ∷ runs) u k = rw u (rw k (rw (same_key creation again runs u k) refl))

change_first_same :
    (test : Run → Bool) (run : Run) (runs : List Run)
    → first test runs ≡ some run
    → change_first test run runs ≡ runs
unfolding first change_first
change_first_same test run [] h = refl
change_first_same test run (other ∷ runs) h = elim (Bool-cases (test other)) [
  | inl hit ↦ rw hit (ap (λ r. r ∷ runs) (sym (some_injective (rw hit at h))))
  | inr miss ↦ rw miss (ap (λ r. other ∷ r) (change_first_same test run runs (rw miss at h)))
]
  where
    some_injective : ◌≡◌ {A = Option Run} (some other) (some run) → other ≡ run
    some_injective e = cc e

-- The call of `expire` may look at the clock.
abbrev pub may_expire : Run → Bool
may_expire run = is_waiting run.state || (is_running run.state && run.generation == 0)

abbrev pub InTime : Run → (ℕ → ℕ) → Type 0
InTime run clock = may_expire run ≡ true → (n : ℕ) → clock n < run.expires_at

expire-kept :
    (env : Environment) (run : Run) (clock : ℕ → ℕ)
    → InTime run clock
    → let (r, t) = expire env (record { work = run; saved = run; clock = clock }) in
      (r ≡ ok tt) × (t.work ≡ run)
unfolding expire expire_past ◌>>=◌
expire-kept env run clock in_time = elim (Bool-cases (is_waiting run.state)) [
  | inl waits ↦
      let early = in_time (rw waits refl) 0 in
      let late : leb run.expires_at (clock 0) ≡ false = ground arith in
      let other : is_running run.state ≡ false = ground arith in
      rw (waits, late, other) (refl, refl)
  | inr other ↦ elim (Bool-cases (is_running run.state && run.generation == 0)) [
    | inl direct ↦
        let early = in_time (rw other direct) 0 in
        let late : leb run.expires_at (clock 0) ≡ false = ground arith in
        rw (other, direct, late) (refl, refl)
    | inr worker ↦ rw (other, worker) (refl, refl)
  ]
]

module _ (env : Environment) (again : Creation) (run : Run) where
  existing_run-kept :
      (s : Session (List Run))
      → first (is_retry again) s.work ≡ some run
      → fits env again run ≡ true
      → InTime run s.clock
      → let (r, t) = existing_run env again run s in (r ≡ ok (run, false)) × (t.saved ≡ s.work)
  unfolding existing_run on_first ◌>>=◌
  existing_run-kept s found fitting in_time =
      let (ended, same) = expire-kept env run s.clock in_time in
      rw (fitting, ended, same) (refl, change_first_same (is_retry again) run s.work found)

  create-kept :
      (clock : ℕ → ℕ) (runs : List Run)
      → first (is_retry again) runs ≡ some run
      → fits env again run ≡ true
      → InTime run clock
      → (again.is_queued && not (is_some again.prepare)) ≡ false
      → (again.is_queued && not again.user_active) ≡ false
      → transaction (create_body env again) clock runs ≡ (ok (run, false), runs)
  unfolding create_body create_found ◌>>=◌ transaction
  create-kept clock runs found fitting in_time prepared active =
      let s : Session (List Run) = record { work = runs; saved = runs; clock = clock } in
      let (returned, rows) = existing_run-kept s found fitting in_time in
      rw (prepared, active, found) (λ i. (returned i, rows i))

  create-conflict :
      (clock : ℕ → ℕ) (runs : List Run)
      → first (is_retry again) runs ≡ some run
      → fits env again run ≡ false
      → (again.is_queued && not (is_some again.prepare)) ≡ false
      → (again.is_queued && not again.user_active) ≡ false
      → transaction (create_body env again) clock runs
        ≡ (err (app_error idempotency_conflict), runs)
  unfolding create_body create_found existing_run ◌>>=◌ transaction
  create-conflict clock runs found other prepared active = rw (prepared, active, found, other) refl

module _ (env : Environment) (creation again : Creation) (clock clock' : ℕ → ℕ) (runs : List Run)
    (run : Run) (fresh : Bool) (user : again.user_id ≡ creation.user_id)
    (key : again.client_key ≡ creation.client_key)
    (prepared : (again.is_queued && not (is_some again.prepare)) ≡ false)
    (active : (again.is_queued && not again.user_active) ≡ false)
    (made : (transaction (create_body env creation) clock runs).0 ≡ ok (run, fresh)) where
  abbrev after : List Run
  after = (transaction (create_body env creation) clock runs).1

  found_again : first (is_retry again) after ≡ some run
  found_again =
      same_key creation again after user key
      ∙ (create-IsKnown env creation clock runs run fresh made).0

  -- A creation has returned a run. Another, by the same user with the same client key, the same
  -- input and session, whatever else it is given and with a fresh run id of its own, returns that
  -- run, marked as not new, and changes no row, be the queue full or not. It is one that may be
  -- queued if it is to be, and the time of a run that waits, or that no worker took, is not over.
  pub create_again :
      again.fingerprint ≡ creation.fingerprint
      → InTime run clock'
      → transaction (create_body env again) clock' after ≡ (ok (run, false), after)
  create_again input in_time =
      let known = create-IsKnown env creation clock runs run fresh made in
      create-kept env again run clock' after found_again
        (ap (λ f. run.fingerprint == f && same_kind run.kind env.kind) input ∙ known.1) in_time
        prepared active

  -- A creation has returned a run. Another, by the same user with the same client key but with
  -- another input or session, is refused as a conflict and changes no row. It is one that may be
  -- queued if it is to be.
  pub create_conflict :
      (again.fingerprint == creation.fingerprint) ≡ false
      → transaction (create_body env again) clock' after
        ≡ (err (app_error idempotency_conflict), after)
  create_conflict other =
      let known = (create-IsKnown env creation clock runs run fresh made).1 in
      let unfit : fits env again run ≡ false = ground arith in
      create-conflict env again run clock' after found_again unfit prepared active
