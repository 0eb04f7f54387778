-- ===== src/Run/Resume.antt =====
-- Going on after a human answered: RunStore.resume of app/service/runs.py.
use mathlib.Core.Option
use learning_qa_assistant.Base.{
  ℕ, Bool, true, false, not, ◌&&◌, Option, none, some, List, [], ◌∷◌, ◌++◌, leb, ◌==◌,
  if◌then◌else◌, holds, length,
}
use learning_qa_assistant.Base.Text.{Text, strip, stripped_within}
use learning_qa_assistant.Transaction.{
  Code, Tx, ◌>>=◌, ◌>>◌, pure, raise, lift, raise_if, when, get, put, now, commit,
  run_checkpoint_diverged, invalid_resume_input, invalid_public_input, public_input_not_allowed,
  not_found, resume_conflict, hitl_expired,
}
use learning_qa_assistant.Run.State.{
  Run, queued, interrupted, is_waiting, Environment, Payload, Checkpoint, Receipt, run_resumed,
  error,
}
use learning_qa_assistant.Run.Journal.{get_row, save_event, message_state}
use learning_qa_assistant.Run.Checkpoint.{
  next_revision, payload_of, save_checkpoint, allows_public_input,
}

-- `[*previous, public_query]`, with one `None` for each earlier round that had no list;
-- `none` where the list does not match the rounds.
abbrev pub nones : List Text → List (Option Text)
nones [] = []
nones (x ∷ xs) = none ∷ nones xs

abbrev pub extended : List Text → List (Option Text) → Option Text → Option (List (Option Text))
extended inputs previous public_query =
    if length previous == length inputs then some (previous ++ public_query ∷ []) else none

-- The new `public_inputs`: absent while no round ever had a public query.
abbrev pub next_public :
    List Text → Option (List (Option Text)) → Option Text → Option (Option (List (Option Text)))
next_public inputs (some previous) public_query =
    Option.map some (extended inputs previous public_query)
next_public inputs none (some query) = Option.map some (extended inputs (nones inputs) (some query))
next_public inputs none none = some none

abbrev pub receipt_of : Option Checkpoint → Option Receipt
receipt_of none = none
receipt_of (some row) = row.payload.resume_receipt

abbrev pub revision_is : Option Checkpoint → ℕ → Bool
revision_is none revision = false
revision_is (some row) revision = row.revision == revision

module _ (env : Environment) where
  unfoldable pub raise_some : Option Code → Tx Run (Unit {0})
  raise_some none = pure tt
  raise_some (some code) = raise code

  unfoldable pub context_capability : Run → Option ℕ
  context_capability run = elim run.execution_snapshot [
    | none ↦ none
    | some snapshot ↦ snapshot.capability
  ]

  unfoldable pub context_approval : Run → Option ℕ
  context_approval run = elim run.execution_snapshot [
    | none ↦ none
    | some snapshot ↦ snapshot.approval
  ]

  -- A run with approved tools resumes only while its capabilities and its grant are valid.
  unfoldable pub check_approval : ℕ → Run → Option ℕ → Tx Run (Unit {0})
  check_approval user_id run none = pure tt
  check_approval user_id run (some approval) = do
    raise_some (env.validate_execution user_id (context_capability run))
    raise_if (not (env.authorize user_id run.session_id)) not_found
    raise_some (env.validate_approval user_id run.session_id run.id approval)

  unfoldable pub check_public : ℕ → Run → Option Text → Tx Run (Unit {0})
  check_public user_id run none = pure tt
  check_public user_id run (some query) = do
    raise_if (not (allows_public_input env run)) public_input_not_allowed
    raise_some (env.validate_execution user_id (context_capability run))

  -- Committed before the error is raised.
  unfoldable pub expire_resume : Tx Run (Unit {0})
  expire_resume = do
    run ← get
    put (record run { state = interrupted; resume_key = none })
    message_state
    save_event env (error hitl_expired) true
    commit
    raise hitl_expired

  unfoldable pub store_resumed :
      (public_inputs : Option (Option (List (Option Text))))
      → Payload
      → Receipt
      → Text
      → Tx Run (Unit {0})
  store_resumed none payload receipt supplement = raise run_checkpoint_diverged
  store_resumed (some public_inputs) payload receipt supplement = do
    save_checkpoint env (record payload {
      human_inputs = payload.human_inputs ++ supplement ∷ [];
      public_inputs = public_inputs;
      resume_receipt = some receipt;
    })
    pure tt

  -- From here the receipt is new: the waiting run goes on.
  unfoldable pub resume_new : (user_id : ℕ) → Receipt → Text → Option Text → Tx Run (Unit {0})
  resume_new user_id receipt supplement public_query = do
    run ← get
    raise_if
        (not (
          is_waiting run.state
          && revision_is run.checkpoint receipt.revision
          && holds run.resume_key receipt.key))
        resume_conflict
    check_approval user_id run (context_approval run)
    check_public user_id run public_query
    time ← now
    when (leb run.expires_at time) expire_resume
    let payload = payload_of run.checkpoint
    store_resumed (next_public payload.human_inputs payload.public_inputs public_query) payload
        receipt supplement
    stored ← get
    put (record stored { state = queued; resume_key = none })
    message_state
    save_event env (run_resumed (next_revision run.checkpoint)) false
    commit

  -- An exact retry returns the run as it is.
  unfoldable pub resume_retry :
      (same_key : Bool) → Receipt → (user_id : ℕ) → Receipt → Text → Option Text → Tx Run (Unit {0})
  resume_retry true seen user_id receipt supplement public_query =
      raise_if (not (seen.input_hash == receipt.input_hash && seen.revision == receipt.revision))
        resume_conflict
  resume_retry false seen user_id receipt supplement public_query =
      resume_new user_id receipt supplement public_query

  unfoldable pub resume_seen :
      Option Receipt → (user_id : ℕ) → Receipt → Text → Option Text → Tx Run (Unit {0})
  resume_seen none user_id receipt supplement public_query =
      resume_new user_id receipt supplement public_query
  resume_seen (some seen) user_id receipt supplement public_query =
      resume_retry (seen.key == receipt.key) seen user_id receipt supplement public_query

  unfoldable pub resume_checked :
      (user_id run_id revision key : ℕ) → Text → Option Text → Tx Run (Unit {0})
  resume_checked user_id run_id revision key supplement public_query = do
    run ← get_row env user_id run_id true
    let receipt : Receipt = record {
      key = key;
      input_hash = env.supplement_hash supplement public_query;
      revision = revision;
    }
    resume_seen (receipt_of run.checkpoint) user_id receipt supplement public_query

  unfoldable pub resume_public : Option Text → (Option Text → Tx Run (Unit {0})) → Tx Run (Unit {0})
  resume_public none body = body none
  resume_public (some query) body = do
    raise_if (not (stripped_within 400 query)) invalid_public_input
    prepared ← lift (env.prepare_public_query (strip query))
    body (some prepared)

  unfoldable pub resume_body :
      (user_id run_id revision key : ℕ) → Text → Option Text → Tx Run (Unit {0})
  resume_body user_id run_id revision key supplement public_query = do
    raise_if (not (stripped_within 4000 supplement)) invalid_resume_input
    resume_public public_query (resume_checked user_id run_id revision key (strip supplement))
