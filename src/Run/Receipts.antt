-- ===== src/Run/Receipts.antt =====
-- A resume call that is accepted leaves its receipt on the checkpoint of its run, and every later
-- call for the same receipt answers without writing.
use learning_qa_assistant.Base.{
  ℕ, Bool, true, false, ◌&&◌, ◌≡◌, refl, ◌∙◌, ap, sym, Option, none, some, List, arith, ◌==◌,
  ==_refl,
}
use learning_qa_assistant.Base.Text.{Text}
use learning_qa_assistant.Transaction.{
  Session, Result, ok, err, Tx, pure, raise, raise_if, lift, Code, ◌>>=◌, ◌>>◌,
}
use learning_qa_assistant.Transaction.Rules.{>>=-eq-ok, raise_if-eq-ok}
use learning_qa_assistant.Transaction.Outcome.{
  Leads, Leads-bind, Leads-skip, Leads-get, Leads-put, Leads-commit,
}
use learning_qa_assistant.Run.State.{Run, Environment, EventData, Payload, Receipt, Kind}
use learning_qa_assistant.Run.Journal.{save_event, journaled, message_state, shown}
use learning_qa_assistant.Run.Checkpoint.{save_checkpoint}
use learning_qa_assistant.Run.Resume.{
  resume_seen, resume_retry, resume_new, store_resumed, receipt_of,
}
use learning_qa_assistant.Run.Stable.{History, Stable}

pub record Identity : Type 0 where
  pub id : ℕ
  pub user_id : ℕ
  pub session_id : ℕ
  pub client_key : ℕ
  pub fingerprint : ℕ
  pub kind : Kind

abbrev pub identity_of : History → Identity
identity_of h = record {
  id = h.id;
  user_id = h.user_id;
  session_id = h.session_id;
  client_key = h.client_key;
  fingerprint = h.fingerprint;
  kind = h.kind;
}

pub identity-Stable : (env : Environment) (i : Identity) → Stable env (λ h. identity_of h ≡ i)
identity-Stable env i = record {
  event = λ h e b p _ _ _. p;
  claimed = λ h p. p;
  saved = λ h c p _. p;
  written = λ h row p _. p;
}

-- The receipt on the checkpoint is this call's.
abbrev pub IsAnswered : Receipt → Run → Type 0
IsAnswered receipt run =
    (seen : Receipt) × (receipt_of run.checkpoint ≡ some seen)
    × ((seen.key == receipt.key) ≡ true)
    × ((seen.input_hash == receipt.input_hash && seen.revision == receipt.revision) ≡ true)

own-receipt :
    (receipt : Receipt) (run : Run)
    → receipt_of run.checkpoint ≡ some receipt
    → IsAnswered receipt run
own-receipt receipt run e = (
  receipt,
  e,
  ==_refl receipt.key,
  ground (arith, ==_refl receipt.input_hash, ==_refl receipt.revision),
)

message_state-checkpoint :
    (s t : Session Run) (a : Unit {0})
    → message_state s ≡ (ok a, t)
    → t.work.checkpoint ≡ s.work.checkpoint
unfolding message_state shown ◌>>=◌
message_state-checkpoint s t a h = ground arith

-- Steps that are passed.
pub then_same :
    {A : Type 0} (b : Bool) (code : Code) (m : Tx Run A) (s : Session Run)
    {out : Result A × Session Run}
    → b ≡ false
    → m s ≡ out
    → (raise_if b code >> m) s ≡ out
unfolding ◌>>=◌
then_same true code m s h e = absurd (cc h)
then_same false code m s h e = e

pub then_lifted :
    {A B : Type 0} (r : Result A) (f : A → Tx Run B) (a : A) (s : Session Run)
    {out : Result B × Session Run}
    → r ≡ ok a
    → f a s ≡ out
    → (lift r >>= f) s ≡ out
unfolding ◌>>=◌
then_lifted (ok b) f a s h e = cc (h, e)
then_lifted (err x) f a s h e = absurd (cc h)

module _ (env : Environment) where
  save_event-checkpoint :
      (body : EventData) (terminal : Bool) (s t : Session Run) (a : Unit {0})
      → save_event env body terminal s ≡ (ok a, t)
      → t.work.checkpoint ≡ s.work.checkpoint
  unfolding save_event journaled ◌>>=◌
  save_event-checkpoint body terminal s t a h = ground arith

  save_checkpoint-payload :
      (payload : Payload) (s t : Session Run) (revision : ℕ)
      → save_checkpoint env payload s ≡ (ok revision, t)
      → receipt_of t.work.checkpoint ≡ payload.resume_receipt
  unfolding save_checkpoint ◌>>=◌
  save_checkpoint-payload payload s t revision h = ground arith

  store_resumed-receipt :
      (public_inputs : Option (Option (List (Option Text)))) (payload : Payload) (receipt : Receipt)
      (supplement : Text) (s t : Session Run) (a : Unit {0})
      → store_resumed env public_inputs payload receipt supplement s ≡ (ok a, t)
      → receipt_of t.work.checkpoint ≡ some receipt
  unfolding store_resumed raise pure
  store_resumed-receipt none payload receipt supplement s t a h = absurd (cc (ap (λ p. p.0) h))
  store_resumed-receipt (some public_inputs) payload receipt supplement s t a h =
      let (_, u, e, k) = >>=-eq-ok _ _ s t a h in
      ap (λ p. receipt_of p.1.work.checkpoint) (sym k) ∙ save_checkpoint-payload _ s u _ e

  -- The checkpoint of the working rows has this receipt.
  abbrev HasReceipt : Receipt → Session Run → Type 0
  HasReceipt receipt s = receipt_of s.work.checkpoint ≡ some receipt

  abbrev SavesReceipt : Receipt → Session Run → Type 0
  SavesReceipt receipt s = receipt_of s.saved.checkpoint ≡ some receipt

  message_state-receipt :
      (receipt : Receipt) → Leads (HasReceipt receipt) (HasReceipt receipt) message_state
  message_state-receipt receipt s t a p h = ap receipt_of (message_state-checkpoint s t a h) ∙ p

  save_event-receipt :
      (receipt : Receipt) (body : EventData) (terminal : Bool)
      → Leads (HasReceipt receipt) (HasReceipt receipt) (save_event env body terminal)
  save_event-receipt receipt body terminal s t a p h =
      ap receipt_of (save_event-checkpoint body terminal s t a h) ∙ p

  resume_new-saves :
      (user_id : ℕ) (receipt : Receipt) (supplement : Text) (query : Option Text)
      → Leads
          (λ _. Unit {0})
          (SavesReceipt receipt)
          (resume_new env user_id receipt supplement query)
  unfolding resume_new
  resume_new-saves user_id receipt supplement query = Leads-skip _ _ λ run. Leads-skip _ _ λ _.
      Leads-skip _ _ λ _. Leads-skip _ _ λ _. Leads-skip _ _ λ _. Leads-skip _ _ λ _.
        Leads-bind {R = HasReceipt receipt} _ _
          (λ s t a _ h. store_resumed-receipt _ _ receipt supplement s t a h)
          λ _. Leads-get _ λ stored.
            Leads-bind {R = HasReceipt receipt} _ _
              (Leads-put (HasReceipt receipt) _ λ s p. ap (λ r. receipt_of r.checkpoint) p.1 ∙ p.0)
              λ _. Leads-bind _ _ (message_state-receipt receipt) λ _.
                Leads-bind _ _ (save_event-receipt receipt _ _)
                  λ _. Leads-commit (SavesReceipt receipt) λ s p. p

  resume_retry-answers :
      (same : Bool) (seen : Receipt) (user_id : ℕ) (receipt : Receipt) (supplement : Text)
      (query : Option Text) (s t : Session Run)
      → (seen.key == receipt.key) ≡ same
      → receipt_of s.saved.checkpoint ≡ some seen
      → resume_retry env same seen user_id receipt supplement query s ≡ (ok tt, t)
      → IsAnswered receipt t.saved
  unfolding resume_retry
  resume_retry-answers true seen user_id receipt supplement query s t same found h =
      let (fits, e) = raise_if-eq-ok _ _ s t tt h in (seen, rw e found, same, ground arith)
  resume_retry-answers false seen user_id receipt supplement query s t same found h =
      own-receipt receipt t.saved (resume_new-saves user_id receipt supplement query s t tt tt h)

  pub resume_seen-answers :
      (o : Option Receipt) (user_id : ℕ) (receipt : Receipt) (supplement : Text)
      (query : Option Text) (s t : Session Run)
      → receipt_of s.saved.checkpoint ≡ o
      → resume_seen env o user_id receipt supplement query s ≡ (ok tt, t)
      → IsAnswered receipt t.saved
  unfolding resume_seen
  resume_seen-answers none user_id receipt supplement query s t found h =
      own-receipt receipt t.saved (resume_new-saves user_id receipt supplement query s t tt tt h)
  resume_seen-answers (some seen) user_id receipt supplement query s t found h =
      resume_retry-answers _ seen user_id receipt supplement query s t refl found h
