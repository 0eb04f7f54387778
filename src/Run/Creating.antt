-- ===== src/Run/Creating.antt =====
-- A creation leaves at most one active run in each session, step by step.
use learning_qa_assistant.Base.{ℕ, true, false, ◌≡◌, refl, ◌∙◌, sym, ap, Option, none, some}
use learning_qa_assistant.Transaction.{Result, Session, Tx, pure}
use learning_qa_assistant.Transaction.Rules.{Post, then_do}
use learning_qa_assistant.Transaction.Triple.{
  Triple, Triple-bind, Triple-raise_if, Triple-lift, Triple-get, Triple-when, Triple-weaken,
}
use learning_qa_assistant.Run.State.{Run, Environment}
use learning_qa_assistant.Run.Journal.{expire}
use learning_qa_assistant.Run.Store.{
  Creation, Prepared, first, in_session, is_retry, on_new, new_row, existing_run, clear_session,
  check_capacity, prepare_row, announce, approval_event, create_row, create_new, create_found,
  create_body,
}
use learning_qa_assistant.Run.Rows.{
  count-first-none, Succeeds, save_event-Succeeds, expire-Succeeds,
}
use learning_qa_assistant.Run.Exclusive.{
  Good, Safe, settled-Settles, on_first-Triple, IsClear, Changed-IsClear, now-Triple, saving-Triple,
  new-IsExclusive, approval_event-Succeeds,
}

module _ (env : Environment) (creation : Creation) where
  clear_session-Triple :
      (o : Option Run)
      → Triple
          (λ s. Good s × (first (in_session creation.session_id) s.work ≡ o))
          (λ _ t. IsClear creation.session_id t)
          Safe
          (clear_session env creation o)
  unfolding clear_session pure
  clear_session-Triple none = record {
    at = λ s p. (p.0, count-first-none (in_session creation.session_id) s.work p.1);
  }
  clear_session-Triple (some active) =
      Triple-bind _ _ (on_first-Triple _ active (expire env) (expire-Succeeds env active)) λ run.
        Triple-weaken _ (Triple-raise_if _ _ (λ s c. c.good.1)) (λ s c. c)
          (λ a s c. Changed-IsClear creation.session_id active run s c.0 c.1)

  check_capacity-Triple :
      Triple
        (IsClear creation.session_id)
        (λ _ s. IsClear creation.session_id s)
        Safe
        (check_capacity env creation)
  unfolding check_capacity
  check_capacity-Triple =
      Triple-bind _ _ Triple-get
        λ runs. Triple-weaken _ (Triple-raise_if _ _ (λ s c. c.0.0.1)) (λ s c. c) (λ a s c. c.0.0)

  prepare_row-Triple :
      (o : Option (Run → Result Prepared)) (row : Run)
      → Triple
          (IsClear creation.session_id)
          (λ new s. IsClear creation.session_id s × (new.session_id ≡ row.session_id))
          Safe
          (prepare_row env creation o row)
  unfolding prepare_row pure
  prepare_row-Triple none row = record { at = λ s c. (c, refl) }
  prepare_row-Triple (some prepare) row =
      Triple-bind _ _ (Triple-lift (prepare row) (λ s c. c.0.1)) λ prepared.
        Triple-bind _ _ (Triple-raise_if _ _ (λ s c. c.0.1)) λ _. record { at = λ s c. (c.0, refl) }

  pub announce-Succeeds :
      (row : Run) → Post (Succeeds row) (λ _. Unit {0}) (announce env creation row)
  unfolding announce
  announce-Succeeds row = then_do _ (save_event-Succeeds env row _ _) (approval _)
    where
      approval :
          (o : Option ℕ) → Post (Succeeds row) (λ _. Unit {0}) (approval_event env creation o)
      approval = approval_event-Succeeds env creation row

  on_new-Triple :
      (row : Run) (body : Tx Run (Unit {0}))
      → Post (Succeeds row) (λ _. Unit {0}) body
      → row.session_id ≡ creation.session_id
      → Triple (IsClear creation.session_id) (λ _ s. Good s) Safe (on_new row body)
  unfolding on_new
  on_new-Triple row body keeps here = record {
    at = λ s c.
        let inner : Session Run = record { work = row; saved = row; clock = s.clock } in
        let same : Succeeds row row = record { same = refl; alive = λ k. k } in
        let (later, _, _) = keeps.at inner same same in
        let run = (body inner).1.work in
        settled-Settles Safe (λ _ t. Good t) (body inner).0 run _
          (
            new-IsExclusive creation.session_id run s.work c.0.0 c.1
                (ap (λ i. i.session_id) later.same ∙ here),
            c.0.1,
          )
          c.0.1;
  }

  create_row-Triple :
      Triple (IsClear creation.session_id) (λ _ s. Safe s) Safe (create_row env creation)
  unfolding create_row new_row
  create_row-Triple = Triple-bind _ _ (Triple-raise_if _ _ (λ s c. c.0.1)) λ _.
      Triple-bind _ _ (now-Triple creation.session_id creation.too_large) λ time.
        Triple-bind _ _ (prepare_row-Triple creation.prepare (new_row env creation time))
          λ row. Triple-bind _ _ (new_row-Triple row) λ run. saving-Triple (run, true)
    where
      new_row-Triple :
          (row : Run)
          → Triple
              (λ s. IsClear creation.session_id s × (row.session_id ≡ creation.session_id))
              (λ _ s. Good s)
              Safe
              (on_new row (announce env creation row))
      new_row-Triple row = record {
        at = λ s c.
            (on_new-Triple row (announce env creation row) (announce-Succeeds row) c.1).at s c.0;
      }

  existing_run-Triple :
      (found : Run)
      → Triple
          (λ s. Good s × (first (is_retry creation) s.work ≡ some found))
          (λ _ s. Safe s)
          Safe
          (existing_run env creation found)
  unfolding existing_run
  existing_run-Triple found = Triple-bind _ _ (Triple-raise_if _ _ (λ s c. c.0.1)) λ _.
      Triple-bind _ _
        (Triple-weaken _ (on_first-Triple _ found (expire env) (expire-Succeeds env found))
          (λ s c. c.0) (λ run t c. c.good))
        λ run. saving-Triple (run, false)

  create_new-Triple : Triple Good (λ _ s. Safe s) Safe (create_new env creation)
  unfolding create_new
  create_new-Triple = Triple-bind _ _ (Triple-raise_if _ _ (λ s c. c.1)) λ _.
      Triple-bind _ _ Triple-get λ runs.
        Triple-bind _ _
          (Triple-weaken _ (clear_session-Triple (first (in_session creation.session_id) runs))
            (λ s c. (c.0.0, ap (first (in_session creation.session_id)) (sym c.1))) (λ a s c. c))
          λ _. Triple-bind _ _ (Triple-when _ _ check_capacity-Triple) λ _. create_row-Triple

  create_found-Triple :
      (o : Option Run)
      → Triple
          (λ s. Good s × (first (is_retry creation) s.work ≡ o))
          (λ _ s. Safe s)
          Safe
          (create_found env creation o)
  unfolding create_found
  create_found-Triple none = record { at = λ s c. create_new-Triple.at s c.0 }
  create_found-Triple (some found) = existing_run-Triple found

  pub create-Triple : Triple Good (λ _ s. Safe s) Safe (create_body env creation)
  unfolding create_body
  create-Triple = Triple-bind _ _ (Triple-lift _ (λ s c. c.1)) λ _.
      Triple-bind _ _ (Triple-raise_if _ _ (λ s c. c.1)) λ _. Triple-bind _ _ Triple-get λ runs.
        Triple-weaken _ (create_found-Triple (first (is_retry creation) runs))
          (λ s c. (c.0.0, ap (first (is_retry creation)) (sym c.1))) (λ a s c. c)
