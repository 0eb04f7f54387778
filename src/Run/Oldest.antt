-- ===== src/Run/Oldest.antt =====
-- The search for the oldest run, and the claim of the run that is found.
use learning_qa_assistant.Base.{
  ℕ, Bool, true, false, ◌≡◌, refl, ◌∙◌, ap, ◌⊎◌, inl, inr, Option, none, some, List, [], ◌∷◌, arith,
  Bool-cases,
}
use learning_qa_assistant.Transaction.{Result, ok, err, Session, transaction, pure}
use learning_qa_assistant.Transaction.Rules.{>>=-eq-ok}
use learning_qa_assistant.Run.State.{Run, RunClaim, Environment}
use learning_qa_assistant.Run.Claim.{claim_body}
use learning_qa_assistant.Run.Queue.{paired, on_row, is_before, earlier, oldest, claim_found}
use learning_qa_assistant.Run.Taking.{offered, claim-offered}

abbrev pub IsIn : Run → List Run → Type 0
IsIn run [] = ⊥
IsIn run (other ∷ runs) = (run ≡ other) ⊎ IsIn run runs

-- The answer to the search: no run passes, or the run passes and none that passes is before it.
abbrev pub IsOldest : (Run → Bool) → List Run → Option Run → Type 0
IsOldest test runs none = (other : Run) → IsIn other runs → test other ≡ false
IsOldest test runs (some run) =
    (test run ≡ true)
    × IsIn run runs
    × ((other : Run) → IsIn other runs → test other ≡ true → is_before run other ≡ true)

is_before_refl : (a : Run) → is_before a a ≡ true
unfolding is_before
is_before_refl a = ground arith

is_before_trans : (a b c : Run) → is_before a b ≡ true → is_before b c ≡ true → is_before a c ≡ true
unfolding is_before
is_before_trans a b c h k = ground arith

is_before_total : (a b : Run) → is_before a b ≡ false → is_before b a ≡ true
unfolding is_before
is_before_total a b h = ground arith

earlier-IsOldest :
    (test : Run → Bool) (run : Run) (runs : List Run) (o : Option Run)
    → test run ≡ true
    → IsOldest test runs o
    → IsOldest test (run ∷ runs) (earlier run o)
earlier-IsOldest test run runs none passes h = (passes, inl refl, least)
  where
    least : (other : Run) → IsIn other (run ∷ runs) → test other ≡ true → is_before run other ≡ true
    least other (inl same) k = rw same (is_before_refl run)
    least other (inr later) k = absurd (cc (h other later, k))
earlier-IsOldest test run runs (some m) passes (mine, within, least) =
    elim (Bool-cases (is_before run m)) [
      | inl first_run ↦ rw first_run (passes, inl refl, over_run first_run)
      | inr after_m ↦ rw after_m (mine, inr within, over_m after_m)
    ]
  where
    over_run :
        is_before run m ≡ true
        → (other : Run) → IsIn other (run ∷ runs)
        → test other ≡ true
        → is_before run other ≡ true
    over_run first_run other (inl same) k = rw same (is_before_refl run)
    over_run first_run other (inr later) k =
        is_before_trans run m other first_run (least other later k)

    over_m :
        is_before run m ≡ false
        → (other : Run) → IsIn other (run ∷ runs)
        → test other ≡ true
        → is_before m other ≡ true
    over_m after_m other (inl same) k = rw same (is_before_total run m after_m)
    over_m after_m other (inr later) k = least other later k

skipped-IsOldest :
    (test : Run → Bool) (run : Run) (runs : List Run) (o : Option Run)
    → test run ≡ false
    → IsOldest test runs o
    → IsOldest test (run ∷ runs) o
skipped-IsOldest test run runs none fails h = λ other place. absent other place
  where
    absent : (other : Run) → IsIn other (run ∷ runs) → test other ≡ false
    absent other (inl same) = rw same fails
    absent other (inr later) = h other later
skipped-IsOldest test run runs (some m) fails (mine, within, least) = (mine, inr within, over)
  where
    over : (other : Run) → IsIn other (run ∷ runs) → test other ≡ true → is_before m other ≡ true
    over other (inl same) k = absurd (cc (fails, ap test same, k))
    over other (inr later) k = least other later k

pub oldest-IsOldest : (test : Run → Bool) (runs : List Run) → IsOldest test runs (oldest test runs)
unfolding oldest
oldest-IsOldest test [] = λ other place. absurd place
oldest-IsOldest test (run ∷ runs) = elim (Bool-cases (test run)) [
  | inl passes ↦ rw passes (earlier-IsOldest test run runs _ passes (oldest-IsOldest test runs))
  | inr fails ↦ rw fails (skipped-IsOldest test run runs _ fails (oldest-IsOldest test runs))
]

paired-eq-ok :
    (r : Result (Option RunClaim)) (w row : Run) (o : Option RunClaim)
    → paired r w ≡ ok (o, row)
    → r ≡ ok o
paired-eq-ok (ok a) w row o h = cc h
paired-eq-ok (err f) w row o h = absurd (cc h)

module _ (env : Environment) where
  on_row-claim :
      (token time : ℕ) (run row : Run) (o : Option RunClaim) (s t : Session (List Run))
      → on_row run (claim_body env token time) s ≡ (ok (o, row), t)
      → (transaction (claim_body env token time) s.clock run).0 ≡ ok o
  unfolding on_row transaction
  on_row-claim token time run row o s t h =
      let inner : Session Run = record { work = run; saved = run; clock = s.clock } in
      paired-eq-ok (claim_body env token time inner).0 _ row o (ap (λ p. p.0) h)

  pub claim_found-offered :
      (token time : ℕ) (found : Option Run) (o : Option RunClaim) (s t : Session (List Run))
      → claim_found env token time found s ≡ (ok o, t)
      → o ≡ offered env token time found
  unfolding claim_found pure
  claim_found-offered token time none o s t h =
      let (_, s1, _, h1) = >>=-eq-ok _ _ s t o h in cc (ap (λ p. p.0) h1)
  claim_found-offered token time (some run) o s t h =
      let ((given, row), s1, e1, h1) = >>=-eq-ok _ _ s t o h in
      let (_, s2, _, h2) = >>=-eq-ok _ _ s1 t o h1 in
      let (_, s3, _, h3) = >>=-eq-ok _ _ s2 t o h2 in
      let (_, s4, _, h4) = >>=-eq-ok _ _ s3 t o h3 in
      let same : o ≡ given = cc (ap (λ p. p.0) h4) in
      let claimed = on_row-claim token time run row given s s1 e1 in
      same ∙ claim-offered env token time s.clock run given claimed
