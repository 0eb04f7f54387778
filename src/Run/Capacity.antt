-- ===== src/Run/Capacity.antt =====
-- No user has more active runs than the limit, as long as runs are created queued.
use learning_qa_assistant.Base.{
  ℕ, ◌≤◌, ◌<◌, Bool, true, false, ◌≡◌, refl, ◌∙◌, sym, ap, subst, Option, none, some, List, [], ◌∷◌,
  ◌++◌, ◌==◌, leb, arith, Bool-cases, inl, inr,
}
use learning_qa_assistant.Transaction.{Result, Session, Tx, ◌>>=◌, ◌>>◌, commit, pure, now, when}
use learning_qa_assistant.Transaction.Rules.{Post}
use learning_qa_assistant.Transaction.Triple.{
  Triple, Triple-bind, Triple-raise_if, Triple-lift, Triple-get, Triple-when-true, Triple-weaken,
}
use learning_qa_assistant.Run.State.{Run, Environment, same_kind}
use learning_qa_assistant.Run.Journal.{expire}
use learning_qa_assistant.Run.Stable.{history_of}
use learning_qa_assistant.Run.Receipts.{identity_of}
use learning_qa_assistant.Run.Store.{
  Creation, Prepared, first, change_first, one, count, in_session, is_retry, is_counted, on_first,
  on_new, new_row, existing_run, clear_session, check_capacity, prepare_row, announce, create_row,
  create_new, create_found, create_body,
}
use learning_qa_assistant.Run.Rows.{count-append, count-change_first, Succeeds, expire-Succeeds}
use learning_qa_assistant.Run.Exclusive.{settled-Settles, one-le, eq_sound}
use learning_qa_assistant.Run.Creating.{announce-Succeeds}

module _ (env : Environment) where
  abbrev pub IsWithin : List Run → Type 0
  IsWithin runs = (user : ℕ) → count (is_counted env.kind user) runs ≤ env.queue_limit

  abbrev Fine : Session (List Run) → Type 0
  Fine s = IsWithin s.work × IsWithin s.saved

  abbrev Kept : Session (List Run) → Type 0
  Kept s = IsWithin s.saved

  Succeeds-counted :
      (old run : Run) (user : ℕ)
      → Succeeds old run
      → one (is_counted env.kind user run) ≤ one (is_counted env.kind user old)
  unfolding is_counted
  Succeeds-counted old run user h = ground (
    arith,
    ap (λ i. i.user_id == user) h.same,
    ap (λ i. same_kind i.kind env.kind) h.same,
    h.alive,
  )

  pub change_first-IsWithin :
      (test : Run → Bool) (old new : Run) (runs : List Run)
      → first test runs ≡ some old
      → Succeeds old new
      → IsWithin runs
      → IsWithin (change_first test new runs)
  change_first-IsWithin test old new runs found later h user = omega (
    arith,
    count-change_first test (is_counted env.kind user) new runs old found,
    Succeeds-counted old new user later,
    h user,
  )

  on_first-Fine :
      (test : Run → Bool) (old : Run) (body : Tx Run (Unit {0}))
      → Post (Succeeds old) (λ _. Unit {0}) body
      → Triple
          (λ s. Fine s × (first test s.work ≡ some old))
          (λ _ s. Fine s)
          Kept
          (on_first test old body)
  unfolding on_first
  on_first-Fine test old body keeps = record {
    at = λ s p.
        let inner : Session Run = record { work = old; saved = old; clock = s.clock } in
        let same : Succeeds old old = record { same = refl; alive = λ k. k } in
        let (later, _, _) = keeps.at inner same same in
        settled-Settles Kept (λ _ t. Fine t) (body inner).0 (body inner).1.work _
          (change_first-IsWithin test old (body inner).1.work s.work p.1 later p.0.0, p.0.1) p.0.1;
  }

  saving-Kept : (out : Run × Bool) → Triple Fine (λ _ s. Kept s) Kept (commit >> pure out)
  unfolding ◌>>=◌
  saving-Kept out = record { at = λ s c. c.0 }

not_counted-lem :
    (env : Environment) (user : ℕ) (run : Run)
    → (run.user_id == user) ≡ false
    → is_counted env.kind user run ≡ false
unfolding is_counted
not_counted-lem env user run h = rw h refl

module _ (env : Environment) (creation : Creation) where
  -- There is room for one more run of the user.
  abbrev HasRoom : Session (List Run) → Type 0
  HasRoom s = Fine env s × (count (is_counted env.kind creation.user_id) s.work < env.queue_limit)

  clear_session-Fine :
      (o : Option Run)
      → Triple
          (λ s. Fine env s × (first (in_session creation.session_id) s.work ≡ o))
          (λ _ s. Fine env s)
          (Kept env)
          (clear_session env creation o)
  unfolding clear_session pure
  clear_session-Fine none = record { at = λ s p. p.0 }
  clear_session-Fine (some active) =
      Triple-bind _ _ (on_first-Fine env _ active (expire env) (expire-Succeeds env active))
        λ run. Triple-weaken _ (Triple-raise_if _ _ (λ s c. c.1)) (λ s c. c) (λ a s c. c.0)

  check_capacity-HasRoom :
      Triple (Fine env) (λ _ s. HasRoom s) (Kept env) (check_capacity env creation)
  unfolding check_capacity
  check_capacity-HasRoom = Triple-bind _ _ Triple-get λ runs.
      Triple-weaken _ (Triple-raise_if _ _ (λ s c. c.0.1)) (λ s c. c)
        (λ a s c. (
          c.0.0,
          subst (λ r. count (is_counted env.kind creation.user_id) r < env.queue_limit) c.0.1
              (room _ _ c.1),
        ))
    where
      room : (limit counted : ℕ) → leb limit counted ≡ false → counted < limit
      room limit counted h = ground arith

  when-checked :
      creation.is_queued ≡ true
      → Triple
          (Fine env)
          (λ _ s. HasRoom s)
          (Kept env)
          (when creation.is_queued (check_capacity env creation))
  when-checked queued = Triple-when-true _ _ queued check_capacity-HasRoom

  now-HasRoom : (b : Bool) → Triple (λ s. HasRoom s × (b ≡ false)) (λ _ s. HasRoom s) (Kept env) now
  unfolding now
  now-HasRoom b = record { at = λ s c. c.0 }

  prepare_row-HasRoom :
      (o : Option (Run → Result Prepared)) (row : Run)
      → Triple HasRoom
          (λ new s. HasRoom s × (identity_of (history_of new) ≡ identity_of (history_of row)))
          (Kept env)
          (prepare_row env creation o row)
  unfolding prepare_row pure
  prepare_row-HasRoom none row = record { at = λ s c. (c, refl) }
  prepare_row-HasRoom (some prepare) row =
      Triple-bind _ _ (Triple-lift (prepare row) (λ s c. c.0.1)) λ prepared.
        Triple-bind _ _ (Triple-raise_if _ _ (λ s c. c.0.1)) λ _. record { at = λ s c. (c.0, refl) }

  new-IsWithin :
      (run : Run) (runs : List Run)
      → IsWithin env runs
      → count (is_counted env.kind creation.user_id) runs < env.queue_limit
      → run.user_id ≡ creation.user_id
      → IsWithin env (runs ++ run ∷ [])
  new-IsWithin run runs h room here user = elim (Bool-cases (creation.user_id == user)) [
    | inl same ↦ omega (
      arith,
      count-append (is_counted env.kind user) runs run,
      one-le (is_counted env.kind user run),
      subst (λ n. count (is_counted env.kind n) runs < env.queue_limit)
          (eq_sound creation.user_id user same) room,
    )
    | inr differs ↦ omega (
      arith,
      count-append (is_counted env.kind user) runs run,
      h user,
      ap one (not_counted-lem env user run (rw here differs)),
    )
  ]

  on_new-Fine :
      (row : Run)
      → Triple
          (λ s. HasRoom s × (row.user_id ≡ creation.user_id))
          (λ _ s. Fine env s)
          (Kept env)
          (on_new row (announce env creation row))
  unfolding on_new
  on_new-Fine row = record {
    at = λ s c.
        let inner : Session Run = record { work = row; saved = row; clock = s.clock } in
        let same : Succeeds row row = record { same = refl; alive = λ k. k } in
        let (later, _, _) = (announce-Succeeds env creation row).at inner same same in
        let run = (announce env creation row inner).1.work in
        settled-Settles (Kept env) (λ _ t. Fine env t) (announce env creation row inner).0 run _
          (new-IsWithin run s.work c.0.0.0 c.0.1 (ap (λ i. i.user_id) later.same ∙ c.1), c.0.0.1)
          c.0.0.1;
  }

  create_row-Fine : Triple HasRoom (λ _ s. Kept env s) (Kept env) (create_row env creation)
  unfolding create_row new_row
  create_row-Fine = Triple-bind _ _ (Triple-raise_if _ _ (λ s c. c.0.1)) λ _.
      Triple-bind _ _ (now-HasRoom creation.too_large) λ time.
        Triple-bind _ _ (prepare_row-HasRoom creation.prepare (new_row env creation time)) λ row.
          Triple-bind _ _
            (Triple-weaken _ (on_new-Fine row) (λ s c. (c.0, ap (λ i. i.user_id) c.1)) (λ a s c. c))
            λ run. saving-Kept env (run, true)

  existing_run-Fine :
      (found : Run)
      → Triple
          (λ s. Fine env s × (first (is_retry creation) s.work ≡ some found))
          (λ _ s. Kept env s)
          (Kept env)
          (existing_run env creation found)
  unfolding existing_run
  existing_run-Fine found = Triple-bind _ _ (Triple-raise_if _ _ (λ s c. c.0.1)) λ _.
      Triple-bind _ _
        (Triple-weaken _ (on_first-Fine env _ found (expire env) (expire-Succeeds env found))
          (λ s c. c.0) (λ run t c. c))
        λ run. saving-Kept env (run, false)

  create_new-Fine :
      creation.is_queued ≡ true
      → Triple (Fine env) (λ _ s. Kept env s) (Kept env) (create_new env creation)
  unfolding create_new
  create_new-Fine queued =
      let in_it = in_session creation.session_id in
      Triple-bind _ _ (Triple-raise_if _ _ (λ s c. c.1)) λ _. Triple-bind _ _ Triple-get λ runs.
        Triple-bind _ _
          (Triple-weaken _ (clear_session-Fine (first in_it runs))
            (λ s c. (c.0.0, ap (first in_it) (sym c.1))) (λ a s c. c))
          λ _. Triple-bind _ _ (when-checked queued) λ _. create_row-Fine

  create_found-Fine :
      (o : Option Run)
      → creation.is_queued ≡ true
      → Triple
          (λ s. Fine env s × (first (is_retry creation) s.work ≡ o))
          (λ _ s. Kept env s)
          (Kept env)
          (create_found env creation o)
  unfolding create_found
  create_found-Fine none queued = record { at = λ s c. (create_new-Fine queued).at s c.0 }
  create_found-Fine (some found) queued = existing_run-Fine found

  pub create-Fine :
      creation.is_queued ≡ true
      → Triple (Fine env) (λ _ s. Kept env s) (Kept env) (create_body env creation)
  unfolding create_body
  create-Fine queued = Triple-bind _ _ (Triple-lift _ (λ s c. c.1)) λ _.
      Triple-bind _ _ (Triple-raise_if _ _ (λ s c. c.1)) λ _. Triple-bind _ _ Triple-get λ runs.
        Triple-weaken _ (create_found-Fine (first (is_retry creation) runs) queued)
          (λ s c. (c.0.0, ap (first (is_retry creation)) (sym c.1))) (λ a s c. c)
