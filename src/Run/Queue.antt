-- ===== src/Run/Queue.antt =====
-- Choosing the next run: RunStore.claim_next and settle_cancellations of app/service/runs.py over
-- all runs. No other transaction holds a row here, so that `skip_locked` skips none.
use learning_qa_assistant.Base.{
  true, false, ℕ, zero, suc, Bool, ◌&&◌, ◌||◌, Option, none, some, List, [], ◌∷◌, ltb, leb, ◌==◌,
  if◌then◌else◌,
}
use learning_qa_assistant.Transaction.{
  Result, ok, err, Tx, ◌>>=◌, ◌>>◌, pure, get, put, now, commit,
}
use learning_qa_assistant.Run.State.{Run, RunClaim, Environment}
use learning_qa_assistant.Run.Journal.{expire}
use learning_qa_assistant.Run.Claim.{
  is_expired_waiting, is_abandoned, is_claimable, settle_cancelled, claim_body,
}
use learning_qa_assistant.Run.Store.{change_first, has_id}

abbrev pub paired : {A : Type 0} → Result A → Run → Result (A × Run)
paired (ok a) row = ok (a, row)
paired (err failure) row = err failure

-- `body` on one row of the transaction, whose working state it leaves.
unfoldable pub on_row : {A : Type 0} → Run → Tx Run A → Tx (List Run) (A × Run)
on_row run body s =
    let (r, t) = body (record { work = run; saved = run; clock = s.clock }) in
    (paired r t.work, record s { clock = t.clock })

-- `body` on the first `n` rows that satisfy the test.
unfoldable pub on_each :
    (n : ℕ) → (Run → Bool) → Tx Run (Unit {0}) → List Run → Tx (List Run) (List Run)
on_each zero test body runs = pure runs
on_each (suc n) test body [] = pure []
on_each (suc n) test body (run ∷ runs) = elim (test run) [
  | true ↦ do changed ← on_row run body; rest ← on_each n test body runs; pure (changed.1 ∷ rest)
  | false ↦ do rest ← on_each (suc n) test body runs; pure (run ∷ rest)
]

-- `order by created_at, id`
unfoldable pub is_before : Run → Run → Bool
is_before a b = ltb a.created_at b.created_at || (a.created_at == b.created_at && leb a.id b.id)

abbrev pub earlier : Run → Option Run → Option Run
earlier run none = some run
earlier run (some other) = if is_before run other then some run else some other

-- `queries.lock_next_run`
unfoldable pub oldest : (Run → Bool) → List Run → Option Run
oldest test [] = none
oldest test (run ∷ runs) = if test run then earlier run (oldest test runs) else oldest test runs

module _ (env : Environment) where
  unfoldable pub settle_cancellations : Tx (List Run) (Unit {0})
  settle_cancellations = do
    time ← now
    runs ← get
    settled ← on_each 10 (is_abandoned env.kind time) (settle_cancelled env) runs
    put settled

  unfoldable pub claim_found : (token time : ℕ) → Option Run → Tx (List Run) (Option RunClaim)
  claim_found token time none = do commit; pure none
  claim_found token time (some run) = do
    claimed ← on_row run (claim_body env token time)
    runs ← get
    put (change_first (has_id run.id) claimed.1 runs)
    commit
    pure claimed.0

  unfoldable pub claim_ready :
      (token time : ℕ) (run_id : Option ℕ) → Tx (List Run) (Option RunClaim)
  claim_ready token time run_id = do
    ready ← get
    claim_found token time (oldest (is_claimable env.kind time run_id) ready)

  -- `token` is the fresh `uuid4()`.
  unfoldable pub claim_next_body : (token : ℕ) (run_id : Option ℕ) → Tx (List Run) (Option RunClaim)
  claim_next_body token run_id = do
    time ← now
    runs ← get
    expired ← on_each 10 (is_expired_waiting env.kind time) (expire env) runs
    put expired
    settle_cancellations
    claim_ready token time run_id
