-- ===== src/Run/Retrying.antt =====
-- A creation may be sent again: the run that the first made is found and none is added.
use learning_qa_assistant.Base.{
  ℕ, Bool, true, ◌&&◌, ◌≡◌, ◌∙◌, sym, ap, Option, none, some, List, [], ◌∷◌, ◌++◌, ◌==◌, arith,
  ==_refl,
}
use learning_qa_assistant.Transaction.{
  Result, ok, Session, ◌>>=◌, commit, pure, now, get, raise_if, when,
}
use learning_qa_assistant.Transaction.Rules.{>>=-eq-ok, raise_if-eq-ok, lift-eq-ok}
use learning_qa_assistant.Run.State.{Run, Environment, same_kind}
use learning_qa_assistant.Run.Journal.{expire}
use learning_qa_assistant.Run.Store.{
  Creation, Prepared, first, change_first, one, count, in_session, is_retry, new_row, existing_run,
  clear_session, check_capacity, prepare_row, announce, create_row, create_new,
}
use learning_qa_assistant.Run.Rows.{count-change_first, first-passes, expire-Succeeds}
use learning_qa_assistant.Run.Creating.{announce-Succeeds}
use learning_qa_assistant.Run.Firsts.{
  label, is_retry-label, first-change_first, first-added, same_kind_refl, got, ok-injective,
  not-false, on_first-eq-ok, on_new-eq-ok,
}

module _ (env : Environment) (creation : Creation) where
  abbrev pub fits : Run → Bool
  fits run = run.fingerprint == creation.fingerprint && same_kind run.kind env.kind

  -- The run is found by the key of the creation, and it was made from the same input.
  abbrev pub IsKnown : Run → List Run → Type 0
  IsKnown run runs = (first (is_retry creation) runs ≡ some run) × (fits run ≡ true)

  fits-label : (a b : Run) → label a ≡ label b → fits a ≡ fits b
  fits-label a b e = ap (λ i. i.fingerprint == creation.fingerprint && same_kind i.kind env.kind) e

  pub existing_run-eq-ok :
      (found run : Run) (fresh : Bool) (s t : Session (List Run))
      → first (is_retry creation) s.work ≡ some found
      → existing_run env creation found s ≡ (ok (run, fresh), t)
      → IsKnown run t.saved
  unfolding existing_run commit pure
  existing_run-eq-ok found run fresh s t at h =
      let (_, s1, e1, h1) = >>=-eq-ok _ _ s t (run, fresh) h in
      let (fitting, same1) = raise_if-eq-ok _ _ s s1 _ e1 in
      let (changed, s2, e2, h2) = >>=-eq-ok _ _ s1 t (run, fresh) h1 in
      let (later, work) =
        on_first-eq-ok (is_retry creation) found changed (expire env) s1 s2
          (expire-Succeeds env found) e2 in
      let (_, s3, e3, h3) = >>=-eq-ok _ _ s2 t (run, fresh) h2 in
      let is_run : run ≡ changed = cc (ap (λ p. p.0) h3) in
      let rows : t.saved ≡ change_first (is_retry creation) run s.work =
        ap (λ p. p.1.saved) (sym h3)
        ∙ ap (λ p. p.1.saved) (sym e3)
        ∙ work
        ∙ ap (λ x. change_first (is_retry creation) changed x.work) same1
        ∙ ap (λ r. change_first (is_retry creation) r s.work) (sym is_run) in
      let same : label run ≡ label found = ap label is_run ∙ later.same in
      (
        ap (first (is_retry creation)) rows
            ∙ first-change_first (is_retry creation) run s.work at (
                is_retry-label creation run found same
                ∙ first-passes (is_retry creation) s.work found at),
        fits-label run found same ∙ not-false _ fitting,
      )

  -- No row is a run of the creation's user and key.
  abbrev IsFresh : List Run → Type 0
  IsFresh runs = count (is_retry creation) runs ≡ 0

  clear_session-IsFresh :
      (o : Option Run) (s t : Session (List Run)) (a : Unit {0})
      → first (in_session creation.session_id) s.work ≡ o
      → IsFresh s.work
      → clear_session env creation o s ≡ (ok a, t)
      → IsFresh t.work
  unfolding clear_session pure
  clear_session-IsFresh none s t a at fresh h =
      ap (λ p. count (is_retry creation) p.1.work) (sym h) ∙ fresh
  clear_session-IsFresh (some active) s t a at fresh h =
      let test = in_session creation.session_id in
      let (changed, s1, e1, h1) = >>=-eq-ok _ _ s t a h in
      let (later, work) =
        on_first-eq-ok test active changed (expire env) s s1 (expire-Succeeds env active) e1 in
      let (_, same1) = raise_if-eq-ok _ _ s1 t a h1 in
      let counted = count-change_first test (is_retry creation) changed s.work active at in
      let alike = ap one (is_retry-label creation changed active later.same) in
      let rows = ap (count (is_retry creation)) (ap (λ x. x.work) same1 ∙ work) in
      omega (arith, counted, alike, rows, fresh)

  when-capacity-work :
      (b : Bool) (s t : Session (List Run)) (a : Unit {0})
      → when b (check_capacity env creation) s ≡ (ok a, t)
      → t.work ≡ s.work
  unfolding when check_capacity get raise_if ◌>>=◌
  when-capacity-work b s t a h = ground arith

  prepare_row-label :
      (o : Option (Run → Result Prepared)) (row new : Run) (s t : Session (List Run))
      → prepare_row env creation o row s ≡ (ok new, t)
      → (label new ≡ label row) × (t.work ≡ s.work)
  unfolding prepare_row pure
  prepare_row-label none row new s t h =
      (ap label (sym (ok-injective row new (ap (λ p. p.0) h))), ap (λ p. p.1.work) (sym h))
  prepare_row-label (some prepare) row new s t h =
      let (prepared, s1, e1, h1) = >>=-eq-ok _ _ s t new h in
      let (_, same1) = lift-eq-ok _ s s1 prepared e1 in
      let (_, s2, e2, h2) = >>=-eq-ok _ _ s1 t new h1 in
      let (_, same2) = raise_if-eq-ok _ _ s1 s2 _ e2 in
      (
        ap label (sym (ok-injective _ new (ap (λ p. p.0) h2))),
        ap (λ p. p.1.work) (sym h2) ∙ ap (λ x. x.work) (same2 ∙ same1),
      )

  new_row-is_retry : (time : ℕ) → is_retry creation (new_row env creation time) ≡ true
  unfolding is_retry new_row
  new_row-is_retry time = ground (arith, ==_refl creation.user_id, ==_refl creation.client_key)

  new_row-fits : (time : ℕ) → fits (new_row env creation time) ≡ true
  unfolding new_row
  new_row-fits time = ground (arith, ==_refl creation.fingerprint, same_kind_refl env.kind)

  create_row-eq-ok :
      (run : Run) (fresh : Bool) (s t : Session (List Run))
      → IsFresh s.work
      → create_row env creation s ≡ (ok (run, fresh), t)
      → IsKnown run t.saved
  unfolding create_row now commit pure
  create_row-eq-ok run fresh s t none_yet h =
      let (_, s1, e1, h1) = >>=-eq-ok _ _ s t (run, fresh) h in
      let (_, same1) = raise_if-eq-ok _ _ s s1 _ e1 in
      let (time, s2, e2, h2) = >>=-eq-ok _ _ s1 t (run, fresh) h1 in
      let (row, s3, e3, h3) = >>=-eq-ok _ _ s2 t (run, fresh) h2 in
      let (alike, work3) =
        prepare_row-label creation.prepare (new_row env creation time) row s2 s3 e3 in
      let (made, s4, e4, h4) = >>=-eq-ok _ _ s3 t (run, fresh) h3 in
      let (later, work4) =
        on_new-eq-ok row made (announce env creation row) s3 s4 (announce-Succeeds env creation row)
          e4 in
      let (_, s5, e5, h5) = >>=-eq-ok _ _ s4 t (run, fresh) h4 in
      let is_run : run ≡ made = cc (ap (λ p. p.0) h5) in
      let same : label run ≡ label (new_row env creation time) =
        ap label is_run ∙ later.same ∙ alike in
      let before : s3.work ≡ s.work =
        work3 ∙ ap (λ p. p.1.work) (sym e2) ∙ ap (λ x. x.work) same1 in
      let rows : t.saved ≡ s3.work ++ run ∷ [] =
        ap (λ p. p.1.saved) (sym h5)
        ∙ ap (λ p. p.1.saved) (sym e5)
        ∙ work4
        ∙ ap (λ r. s3.work ++ r ∷ []) (sym is_run) in
      (
        ap (first (is_retry creation)) rows
            ∙ first-added (is_retry creation) s3.work run
                (ap (count (is_retry creation)) before ∙ none_yet)
                (is_retry-label creation run (new_row env creation time) same
                  ∙ new_row-is_retry time),
        fits-label run (new_row env creation time) same ∙ new_row-fits time,
      )

  pub create_new-eq-ok :
      (run : Run) (fresh : Bool) (s t : Session (List Run))
      → IsFresh s.work
      → create_new env creation s ≡ (ok (run, fresh), t)
      → IsKnown run t.saved
  unfolding create_new get
  create_new-eq-ok run fresh s t none_yet h =
      let (_, s1, e1, h1) = >>=-eq-ok _ _ s t (run, fresh) h in
      let (_, same1) = raise_if-eq-ok _ _ s s1 _ e1 in
      let (runs, s2, e2, h2) = >>=-eq-ok _ _ s1 t (run, fresh) h1 in
      let here : runs ≡ s2.work = got runs s1 s2 e2 in
      let (_, s3, e3, h3) = >>=-eq-ok _ _ s2 t (run, fresh) h2 in
      let (_, s4, e4, h4) = >>=-eq-ok _ _ s3 t (run, fresh) h3 in
      let start : s2.work ≡ s.work = ap (λ p. p.1.work) (sym e2) ∙ ap (λ x. x.work) same1 in
      let cleared =
        clear_session-IsFresh (first (in_session creation.session_id) runs) s2 s3 _
          (ap (first (in_session creation.session_id)) (sym here))
          (ap (count (is_retry creation)) start ∙ none_yet) e3 in
      create_row-eq-ok run fresh s4 t
        (ap (count (is_retry creation)) (when-capacity-work _ s3 s4 _ e4) ∙ cleared) h4
