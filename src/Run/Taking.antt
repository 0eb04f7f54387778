-- ===== src/Run/Taking.antt =====
-- What a claim gives: the run is held under it until its lease ends, and nobody can claim it before.
use learning_qa_assistant.Base.{
  ℕ, ◌+◌, ◌<◌, Bool, true, false, ◌≡◌, refl, ◌∙◌, ap, sym, Option, none, some, arith, leb,
  if◌then◌else◌,
}
use learning_qa_assistant.Transaction.{Session, ok, pure, get, put, commit, transaction, ◌>>=◌}
use learning_qa_assistant.Transaction.Rules.{>>=-eq-ok, transaction-eq-ok}
use learning_qa_assistant.Run.State.{Run, RunClaim, RunState, running, Environment, EventData, Kind}
use learning_qa_assistant.Run.Journal.{save_event, journaled, message_state, shown}
use learning_qa_assistant.Run.Owner.{not_held}
use learning_qa_assistant.Run.Claim.{
  budget_left, claim_body, claim_with, take_run, fail_spent, is_claimable,
}

pub record Ownership : Type 0 where
  pub state : RunState
  pub owner_token : Option ℕ
  pub generation : ℕ
  pub lease_expires_at : Option ℕ
  pub remaining : Option ℕ
  pub active_since : Option ℕ
  pub expires_at : ℕ

abbrev pub ownership_of : Run → Ownership
ownership_of run = record {
  state = run.state;
  owner_token = run.owner_token;
  generation = run.generation;
  lease_expires_at = run.lease_expires_at;
  remaining = run.remaining;
  active_since = run.active_since;
  expires_at = run.expires_at;
}

message_state-ownership :
    (s t : Session Run) (a : Unit {0})
    → message_state s ≡ (ok a, t)
    → ownership_of t.work ≡ ownership_of s.work
unfolding message_state shown ◌>>=◌
message_state-ownership s t a h = ground arith

module _ (env : Environment) where
  save_event-ownership :
      (body : EventData) (terminal : Bool) (s t : Session Run) (a : Unit {0})
      → save_event env body terminal s ≡ (ok a, t)
      → ownership_of t.work ≡ ownership_of s.work
  unfolding save_event journaled ◌>>=◌
  save_event-ownership body terminal s t a h = ground arith

  fail_spent-none :
      (s t : Session Run) (o : Option RunClaim) → fail_spent env s ≡ (ok o, t) → o ≡ none
  unfolding fail_spent pure
  fail_spent-none s t o h =
      let (_, s1, _, h1) = >>=-eq-ok _ _ s t o h in
      let (_, s2, _, h2) = >>=-eq-ok _ _ s1 t o h1 in
      let (_, s3, _, h3) = >>=-eq-ok _ _ s2 t o h2 in
      let (_, s4, _, h4) = >>=-eq-ok _ _ s3 t o h3 in
      let (_, s5, _, h5) = >>=-eq-ok _ _ s4 t o h4 in cc (ap (λ p. p.0) h5)

  -- The columns of a run that was claimed with `left` of its budget.
  abbrev pub taken : (token time left : ℕ) → Run → Ownership
  taken token time left run = record {
    state = running;
    owner_token = some token;
    generation = run.generation + 1;
    lease_expires_at = some (time + env.lease);
    remaining = some left;
    active_since = some time;
    expires_at = time + left;
  }

  abbrev pub claim_of : ℕ → Run → RunClaim
  claim_of token run = record {
    run_id = run.id;
    user_id = run.user_id;
    token = token;
    generation = run.generation + 1;
  }

  take_run-saved :
      (token time left : ℕ) (s t : Session Run) (o : Option RunClaim)
      → take_run env token time left s ≡ (ok o, t)
      → (o ≡ some (claim_of token s.work)) × (ownership_of t.saved ≡ taken token time left s.work)
  unfolding take_run get put commit pure
  take_run-saved token time left s t o h =
      let (run, s1, e1, h1) = >>=-eq-ok _ _ s t o h in
      let (_, s2, e2, h2) = >>=-eq-ok _ _ s1 t o h1 in
      let (_, s3, e3, h3) = >>=-eq-ok _ _ s2 t o h2 in
      let (_, s4, e4, h4) = >>=-eq-ok _ _ s3 t o h3 in
      let (_, s5, e5, h5) = >>=-eq-ok _ _ s4 t o h4 in
      let read : run ≡ s.work = cc (ap (λ p. p.0) e1) in
      (
        cc (ap (λ p. p.0) h5, read),
        ap (λ p. ownership_of p.1.saved) (sym h5)
            ∙ ap (λ p. ownership_of p.1.saved) (sym e5)
            ∙ save_event-ownership _ _ s3 s4 _ e4
            ∙ message_state-ownership s2 s3 _ e3
            ∙ ap (λ p. ownership_of p.1.work) (sym e2)
            ∙ ap (λ r. taken token time left r) read,
      )

  claim_with-saved :
      (spent : Bool) (token time left : ℕ) (s t : Session Run) (c : RunClaim)
      → leb left 0 ≡ spent
      → claim_with env spent token time left s ≡ (ok (some c), t)
      → (0 < left)
        × (c ≡ claim_of token s.work)
        × (ownership_of t.saved ≡ taken token time left s.work)
  unfolding claim_with
  claim_with-saved true token time left s t c spent h = absurd (cc (fail_spent-none s t (some c) h))
  claim_with-saved false token time left s t c spent h =
      let (same, owned_by) = take_run-saved token time left s t (some c) h in
      (ground arith, cc same, owned_by)

  pub claim-saved :
      (token time : ℕ) (clock : ℕ → ℕ) (run : Run) (c : RunClaim)
      → (transaction (claim_body env token time) clock run).0 ≡ ok (some c)
      → let left = budget_left env.agent_timeout run time in
        (0 < left)
        × (c ≡ claim_of token run)
        × (ownership_of (transaction (claim_body env token time) clock run).1
            ≡ taken token time left run)
  unfolding claim_body ◌>>=◌
  claim-saved token time clock run c h =
      let left = budget_left env.agent_timeout run time in
      let (t, e, saved) = transaction-eq-ok (claim_body env token time) clock run (some c) h in
      let (some_left, claimed, owned_by) =
        claim_with-saved _ token time left (record { work = run; saved = run; clock = clock }) t c
          refl e in
      (some_left, claimed, ap ownership_of saved ∙ owned_by)

  -- The claim of the run that is found, if some of its budget is left.
  abbrev pub offered : (token time : ℕ) → Option Run → Option RunClaim
  offered token time none = none
  offered token time (some run) =
      if leb (budget_left env.agent_timeout run time) 0 then none else some (claim_of token run)

  claim_with-offered :
      (spent : Bool) (token time left : ℕ) (s t : Session Run) (o : Option RunClaim)
      → claim_with env spent token time left s ≡ (ok o, t)
      → o ≡ (if spent then none else some (claim_of token s.work))
  unfolding claim_with
  claim_with-offered true token time left s t o h = fail_spent-none s t o h
  claim_with-offered false token time left s t o h = (take_run-saved token time left s t o h).0

  pub claim-offered :
      (token time : ℕ) (clock : ℕ → ℕ) (run : Run) (o : Option RunClaim)
      → (transaction (claim_body env token time) clock run).0 ≡ ok o
      → o ≡ offered token time (some run)
  unfolding claim_body ◌>>=◌
  claim-offered token time clock run o h =
      let (t, e, _) = transaction-eq-ok (claim_body env token time) clock run o h in
      claim_with-offered _ token time (budget_left env.agent_timeout run time)
        (record { work = run; saved = run; clock = clock }) t o e

-- A held run is not claimable.
held_until :
    (env : Environment) (token time left : ℕ) (run after : Run)
    → ownership_of after ≡ taken env token time left run
    → (t : ℕ) → t < time + env.lease
    → (not_held after (claim_of env token run) t ≡ false)
      × ((kind : Kind) (id : Option ℕ) → is_claimable kind t id after ≡ false)
held_until env token time left run after e t early =
    let state = ap (λ o. o.state) e in
    let token_is = ap (λ o. o.owner_token) e in
    let generation_is = ap (λ o. o.generation) e in
    let lease_is = ap (λ o. o.lease_expires_at) e in
    (
      rw state (rw token_is (rw generation_is (rw lease_is (ground arith)))),
      λ kind id. rw state (rw lease_is (ground arith)),
    )

-- A claim that returns leaves the run running in a new generation, with a positive rest of its
-- budget, charged for the time since it was last active up to the end of that lease, and with
-- its deadline at the end of the rest. Until the new lease ends the store takes the claim for
-- the holder of the run, and the run is not claimable for anyone.
pub claim_holds :
    (env : Environment) (token time : ℕ) (clock : ℕ → ℕ) (run : Run) (c : RunClaim)
    → (transaction (claim_body env token time) clock run).0 ≡ ok (some c)
    → let left = budget_left env.agent_timeout run time in
      let after = (transaction (claim_body env token time) clock run).1 in
      (0 < left)
      × (c ≡ claim_of env token run)
      × (ownership_of after ≡ taken env token time left run)
      × ((t : ℕ)
          → t < time + env.lease
          → (not_held after c t ≡ false)
            × ((kind : Kind) (id : Option ℕ) → is_claimable kind t id after ≡ false))
claim_holds env token time clock run c h =
    let left = budget_left env.agent_timeout run time in
    let (some_left, same, owned_by) = claim-saved env token time clock run c h in
    (
      some_left,
      same,
      owned_by,
      λ t early.
          let (holding, unclaimable) = held_until env token time left run _ owned_by t early in
          (rw same holding, unclaimable),
    )
