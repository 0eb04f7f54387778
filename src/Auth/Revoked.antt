-- ===== src/Auth/Revoked.antt =====
-- A session that is revoked, by a log-out or by a token that was presented again, stays revoked.
use learning_qa_assistant.Base.{
  ℕ, true, false, not, ◌&&◌, ◌==◌, ◌≡◌, ◌≢◌, refl, subst, inl, inr, Option, none, some, List, [],
  ◌∷◌, Bool-cases, is_some, arith,
}
use learning_qa_assistant.Base.Table.{
  OnSome, find_row, find_row-passes, store_row, find_row-store_row, find_row-store_other,
}
use learning_qa_assistant.Transaction.{Result, ok, err, Tx}
use learning_qa_assistant.Transaction.Rules.{
  Post, Post-pure, Post-raise, Post-raise_if, Post-when, Post-put, Post-commit, Post-bind,
  Post-weaken, then_get, then_raise_if, then_put, then_now, then_commit, then_do, transaction-Post,
  OnOk, Post-and,
}
use learning_qa_assistant.Auth.State.{
  User, AuthSession, Accounts, Settings, Environment, AuthContext, session_row,
}
use learning_qa_assistant.Auth.Sessions.{
  save_session, replay, rotate, check_session, refresh_found, refresh_session, logout_found,
  revoke_all, revoked,
}
use learning_qa_assistant.Auth.Sessions
use learning_qa_assistant.Auth.Calls.{
  Call, issue_session, refresh, logout, logout_all, call_tx, session_history,
}

-- The session of this id, if there is one, is revoked.
abbrev pub IsRevoked : ℕ → Accounts → Type 0
IsRevoked id accounts =
    OnSome (λ session. is_some session.revoked_at ≡ true)
      (find_row (session_row id) accounts.sessions)

-- A new session has an id of its own.
abbrev pub IsFresh : ℕ → Call → Type 0
IsFresh id (issue_session session_id secret user) = session_id ≢ id
IsFresh id _ = Unit

abbrev pub AllFresh : ℕ → List (Call × (ℕ → ℕ)) → Type 0
AllFresh id [] = Unit
AllFresh id ((call, clock) ∷ calls) = IsFresh id call × AllFresh id calls

module _ (id : ℕ) where
  abbrev Keeps : {A : Type 0} → Tx Accounts A → Type 0
  Keeps m = Post (IsRevoked id) (λ _. Unit {0}) m

  -- Writing this session would leave `id` revoked.
  abbrev Safe : AuthSession → Type 0
  Safe session = session.id ≡ id → is_some session.revoked_at ≡ true

  save_session-Keeps : (session : AuthSession) → Safe session → Keeps (save_session session)
  unfolding save_session
  save_session-Keeps session safe = then_get (λ accounts h. Post-put _ (written accounts h))
    where
      written :
          (accounts : Accounts)
          → IsRevoked id accounts
          → IsRevoked id (record accounts {
            sessions = store_row (session_row session.id) session accounts.sessions;
          })
      written accounts h = elim (Bool-cases (session.id == id)) [
        | inl mine ↦
            let same : session.id ≡ id = ground arith in
            let found =
              find_row-store_row (session_row session.id) session accounts.sessions
                (ground arith) in
            subst
              (λ n.
                OnSome (λ s. is_some s.revoked_at ≡ true)
                  (find_row (session_row n)
                    (store_row (session_row session.id) session accounts.sessions)))
              same (rw found (safe same))
        | inr other ↦
            rw
              (find_row-store_other (session_row session.id) (session_row id) session
                accounts.sessions other (λ x e. ground arith))
              h
      ]

  found-Safe :
      (found : ℕ) (accounts : Accounts) (session : AuthSession)
      → IsRevoked id accounts
      → find_row (session_row found) accounts.sessions ≡ some session
      → Safe session
  found-Safe found accounts session h e same =
      let passes = find_row-passes _ _ e in
      let found_id : found ≡ id = ground arith in
      let at : find_row (session_row id) accounts.sessions ≡ some session =
        subst (λ n. find_row (session_row n) accounts.sessions ≡ some session) found_id e in
      rw at at h

  module _ (env : Environment) where
    rotate-Keeps :
        (secret : ℕ) (session : AuthSession) (user : Option User)
        → session.id ≢ id
        → Keeps (rotate env secret session user)
    unfolding rotate
    rotate-Keeps secret session none apart = Post-raise _
    rotate-Keeps secret session (some user) apart = then_raise_if _ _ (λ _. then_now (λ time.
        then_do _ (save_session-Keeps _ (λ e. absurd (apart e))) (then_commit (Post-pure _ tt))))

    replay-Keeps : (session : AuthSession) → Keeps (replay env session)
    unfolding replay
    replay-Keeps session =
        then_now (λ time. then_do _ (save_session-Keeps _ (λ e. refl)) (then_commit (Post-raise _)))

    refresh_found-Keeps :
        (presented secret : ℕ) (session : AuthSession)
        → Safe session
        → Keeps (refresh_found env presented secret (some session))
    unfolding refresh_found check_session
    refresh_found-Keeps presented secret session safe = Post-bind _ _ checked (λ _ live.
        then_do _ (Post-when _ _ (λ _. replay-Keeps session)) (
          then_get (λ accounts h.
            rotate-Keeps secret session _ (λ same. let a = safe same in absurd (cc (a, live))))))
      where
        known :
            is_some session.revoked_at ≡ false
            → (r : Result (Unit {0})) → OnOk (λ _. is_some session.revoked_at ≡ false) r
        known live (ok u) = live
        known live (err e) = tt

        checked :
            Post
              (IsRevoked id)
              (λ _. is_some session.revoked_at ≡ false)
              (check_session env session)
        checked = Post-bind _ _ (Post-raise_if _ _) (λ _ live.
            then_now (λ time. Post-and _ (Post-weaken _ (Post-raise_if _ _)) (λ s. known live _)))

    refresh-Keeps : (presented secret : ℕ) → Keeps (Sessions.refresh env presented secret)
    unfolding Sessions.refresh refresh_session refresh_found
    refresh-Keeps presented secret = from (env.session_of presented)
      where
        at :
            (found : Option AuthSession)
            → ((session : AuthSession) → found ≡ some session → Safe session)
            → Keeps (refresh_found env presented secret found)
        at none safe = Post-raise _
        at (some session) safe = refresh_found-Keeps presented secret session (safe session refl)

        from : (session_id : Option ℕ) → Keeps (refresh_session env presented secret session_id)
        from none = Post-raise _
        from (some session_id) =
            then_get (λ accounts h. at _ (λ session e. found-Safe session_id accounts session h e))

    logout-Keeps : (context : AuthContext) → Keeps (Sessions.logout env context)
    unfolding Sessions.logout logout_found
    logout-Keeps context = then_get (λ accounts h. at _)
      where
        at : (found : Option AuthSession) → Keeps (logout_found env context found)
        at none = Post-pure tt tt
        at (some session) =
            Post-when _ _
              (λ _. then_now (λ time. then_do _ (save_session-Keeps _ (λ e. refl)) Post-commit))

    revoke_all-IsRevoked :
        (user_id time : ℕ) (sessions : List AuthSession)
        → OnSome (λ s. is_some s.revoked_at ≡ true) (find_row (session_row id) sessions)
        → OnSome
            (λ s. is_some s.revoked_at ≡ true)
            (find_row (session_row id) (revoke_all env user_id time sessions))
    unfolding revoke_all find_row
    revoke_all-IsRevoked user_id time [] h = tt
    revoke_all-IsRevoked user_id time (session ∷ sessions) h =
        elim (Bool-cases (session.user_id == user_id && not (is_some session.revoked_at))) [
          | inl mine ↦ rw mine (elim (Bool-cases (session.id == id)) [
            | inl here ↦ rw here refl
            | inr there ↦ rw there (revoke_all-IsRevoked user_id time sessions (rw there at h))
          ])
          | inr other ↦ rw other (elim (Bool-cases (session.id == id)) [
            | inl here ↦ rw here (rw here at h)
            | inr there ↦ rw there (revoke_all-IsRevoked user_id time sessions (rw there at h))
          ])
        ]

    logout_all-Keeps : (context : AuthContext) → Keeps (Sessions.logout_all env context)
    unfolding Sessions.logout_all
    logout_all-Keeps context = then_get (λ accounts h. then_now (λ time.
        then_put _ (revoke_all-IsRevoked context.user_id time accounts.sessions h) Post-commit))

    issue_session-Keeps :
        (settings : Settings) (session_id secret : ℕ) (user : User)
        → session_id ≢ id
        → Keeps (Sessions.issue_session settings env session_id secret user)
    unfolding Sessions.issue_session
    issue_session-Keeps settings session_id secret user fresh = then_now (λ expiry.
        then_now (λ created.
          then_do _ (save_session-Keeps _ (λ e. absurd (fresh e))) (then_commit (Post-pure _ tt))))

    call-Keeps :
        (settings : Settings) (call : Call) → IsFresh id call → Keeps (call_tx settings env call)
    unfolding call_tx
    call-Keeps settings (issue_session session_id secret user) fresh =
        Post-bind _ _ (issue_session-Keeps settings session_id secret user fresh)
          (λ _ _. Post-pure tt tt)
    call-Keeps settings (refresh presented secret) fresh =
        Post-bind _ _ (refresh-Keeps presented secret) (λ _ _. Post-pure tt tt)
    call-Keeps settings (logout context) fresh = logout-Keeps context
    call-Keeps settings (logout_all context) fresh = logout_all-Keeps context

    pub history-IsRevoked :
        (settings : Settings) (calls : List (Call × (ℕ → ℕ))) (accounts : Accounts)
        → AllFresh id calls
        → IsRevoked id accounts
        → IsRevoked id (session_history settings env calls accounts)
    unfolding session_history
    history-IsRevoked settings [] accounts fresh h = h
    history-IsRevoked settings ((call, clock) ∷ calls) accounts fresh h =
        history-IsRevoked settings calls _ fresh.1
          (transaction-Post _ clock accounts (call-Keeps settings call fresh.0) h)
