-- ===== src/Auth/Replayed.antt =====
-- What a refresh token that is presented again, after it was exchanged, does to its session.
use learning_qa_assistant.Base.{
  ℕ, true, false, ◌==◌, ◌≡◌, refl, ap, inl, inr, some, List, Option-cases, ==_refl, is_some, leb,
}
use learning_qa_assistant.Base.Table.{find_row, store_row, find_row-store_row}
use learning_qa_assistant.Transaction.{
  ok, err, app_error, unauthorized, refresh_replayed, ◌>>=◌, transaction,
}
use learning_qa_assistant.Auth.State.{
  User, AuthSession, Accounts, Settings, Environment, session_row, user_of,
}
use learning_qa_assistant.Auth.Sessions.{
  save_session, replay, rotate, check_session, refresh_found, refresh_session, revoked,
}
use learning_qa_assistant.Auth.Sessions
use learning_qa_assistant.Auth.Calls.{Call, session_history}
use learning_qa_assistant.Auth.Revoked.{IsRevoked, AllFresh, history-IsRevoked}

-- What a refresh needs to exchange a token at a time.
pub record Accepts (env : Environment) (presented time : ℕ) (accounts : Accounts)
    (session : AuthSession) (user : User) : Type 0 where
  pub names : env.session_of presented ≡ some session.id
  pub found : find_row (session_row session.id) accounts.sessions ≡ some session
  pub live : is_some session.revoked_at ≡ false
  pub early : leb session.absolute_expires_at time ≡ false
  pub current : (session.refresh_token_hash == env.digest presented) ≡ true
  pub known : find_row (user_of session.user_id) accounts.users ≡ some user
  pub active : user.is_active ≡ true

module _ (env : Environment) where
  -- A token of a revoked session is refused, and nothing changes.
  revoked-refused :
      (id presented secret : ℕ) (clock : ℕ → ℕ) (accounts : Accounts)
      → env.session_of presented ≡ some id
      → IsRevoked id accounts
      → transaction (Sessions.refresh env presented secret) clock accounts
        ≡ (err (app_error unauthorized), accounts)
  unfolding transaction ◌>>=◌ Sessions.refresh refresh_session refresh_found check_session
  revoked-refused id presented secret clock accounts names h =
      rw names (elim (Option-cases (find_row (session_row id) accounts.sessions)) [
        | inl missing ↦ rw missing refl
        | inr (session, found) ↦ rw found (let over = rw found at h in rw over refl)
      ])

  abbrev rotated : (secret time : ℕ) → AuthSession → AuthSession
  rotated secret time session = record session {
    refresh_token_hash = env.digest (env.token_of session.id secret);
    last_refreshed_at = time;
  }

  Accepts-exchanges :
      (presented secret : ℕ) (clock : ℕ → ℕ) (accounts : Accounts) (session : AuthSession)
      (user : User)
      → Accepts env presented (clock 0) accounts session user
      → transaction (Sessions.refresh env presented secret) clock accounts ≡ (
        ok (env.token_of session.id secret),
        record accounts {
          sessions =
              store_row
                (session_row session.id)
                (rotated secret (clock 1) session)
                accounts.sessions;
        },
      )
  unfolding transaction ◌>>=◌ Sessions.refresh refresh_session refresh_found check_session rotate
      save_session
  Accepts-exchanges presented secret clock accounts session user h =
      rw h.names
        (rw h.found (rw h.live (rw h.early (rw h.current (rw h.known (rw h.active refl))))))

  -- A live session that is named by a token of another digest is revoked.
  mismatch-revokes :
      (presented secret : ℕ) (clock : ℕ → ℕ) (accounts : Accounts) (session : AuthSession)
      → env.session_of presented ≡ some session.id
      → find_row (session_row session.id) accounts.sessions ≡ some session
      → is_some session.revoked_at ≡ false
      → leb session.absolute_expires_at (clock 0) ≡ false
      → (session.refresh_token_hash == env.digest presented) ≡ false
      → transaction (Sessions.refresh env presented secret) clock accounts ≡ (
        err (app_error refresh_replayed),
        record accounts {
          sessions =
              store_row (session_row session.id) (revoked env (clock 1) session) accounts.sessions;
        },
      )
  unfolding transaction ◌>>=◌ Sessions.refresh refresh_session refresh_found check_session replay
      save_session
  mismatch-revokes presented secret clock accounts session names found live early other =
      rw names (rw found (rw live (rw early (rw other refl))))

  revoked_row-IsRevoked :
      (time : ℕ) (session : AuthSession) (accounts : Accounts)
      → IsRevoked session.id (record accounts {
        sessions = store_row (session_row session.id) (revoked env time session) accounts.sessions;
      })
  revoked_row-IsRevoked time session accounts =
      rw
        (find_row-store_row (session_row session.id) (revoked env time session) accounts.sessions
          (==_refl session.id))
        refl

-- A refresh token that is current, of a live session of an active user, is exchanged for the next
-- one; when it is presented again before the session expires, the answer is that it was replayed,
-- and the session is revoked. The next token has another digest.
pub exchanged_once :
    (env : Environment) (presented secret again : ℕ) (clock later : ℕ → ℕ) (accounts : Accounts)
    (session : AuthSession) (user : User)
    → Accepts env presented (clock 0) accounts session user
    → (env.digest (env.token_of session.id secret) == env.digest presented) ≡ false
    → leb session.absolute_expires_at (later 0) ≡ false
    → let first = transaction (Sessions.refresh env presented secret) clock accounts in
      let second = transaction (Sessions.refresh env presented again) later first.1 in
      (first.0 ≡ ok (env.token_of session.id secret))
      × (second.0 ≡ err (app_error refresh_replayed))
      × IsRevoked session.id second.1
exchanged_once env presented secret again clock later accounts session user h apart early =
    let exchanged = Accepts-exchanges env presented secret clock accounts session user h in
    let next = rotated env secret (clock 1) session in
    let sessions = store_row (session_row session.id) next accounts.sessions in
    let found : find_row (session_row session.id) sessions ≡ some next =
      find_row-store_row _ next accounts.sessions (==_refl session.id) in
    let replayed =
      mismatch-revokes env presented again later (record accounts { sessions = sessions }) next
        h.names found h.live early apart in
    rw exchanged (
      refl,
      ap (λ p. p.0) replayed,
      rw replayed
          (revoked_row-IsRevoked env (later 1) next (record accounts { sessions = sessions })),
    )

-- Once a session is revoked, whatever sessions are opened under ids of their own, refreshed and
-- logged out afterwards, every refresh token that names it is refused as unauthorized, and the
-- refused call changes no row.
pub revoked_refused :
    (settings : Settings) (env : Environment) (id : ℕ) (calls : List (Call × (ℕ → ℕ)))
    (presented secret : ℕ) (clock : ℕ → ℕ) (accounts : Accounts)
    → IsRevoked id accounts
    → AllFresh id calls
    → env.session_of presented ≡ some id
    → let after = session_history settings env calls accounts in
      transaction (Sessions.refresh env presented secret) clock after
      ≡ (err (app_error unauthorized), after)
revoked_refused settings env id calls presented secret clock accounts h fresh names =
    revoked-refused env id presented secret clock _ names
      (history-IsRevoked id env settings calls accounts fresh h)
