-- ===== src/Auth/Sessions.antt =====
-- Sessions and refresh tokens: _issue_session, authenticate, refresh, logout and logout_all of
-- app/service/auth.py, over Repository of app/dao/postgres/repository.py.
use learning_qa_assistant.Base.{
  ℕ, ◌+◌, Bool, false, not, ◌&&◌, ◌||◌, Option, none, some, List, [], ◌∷◌, leb, ltb, ◌==◌,
  if◌then◌else◌, is_some,
}
use learning_qa_assistant.Base.Table.{find_row, store_row}
use learning_qa_assistant.Transaction.{
  err, crash, lift, Tx, ◌>>=◌, ◌>>◌, pure, raise, raise_if, when, get, put, now, commit,
  unauthorized, refresh_replayed,
}
use learning_qa_assistant.Auth.State.{
  User, AuthSession, Accounts, Settings, Environment, AuthContext, user_of, session_row,
}

unfoldable pub save_session : AuthSession → Tx Accounts (Unit {0})
save_session session = do
  accounts ← get
  put (record accounts { sessions = store_row (session_row session.id) session accounts.sessions })

module _ (settings : Settings) (env : Environment) where
  -- `session_id` and `secret` are fresh. The rows are new, so that `created` defaults are `now`.
  unfoldable pub issue_session : (session_id secret : ℕ) → User → Tx Accounts ℕ
  issue_session session_id secret user = do
    expiry ← now
    created ← now
    save_session (record {
      id = session_id;
      user_id = user.id;
      refresh_token_hash = env.digest (env.token_of session_id secret);
      absolute_expires_at = expiry + settings.refresh_token_lifetime;
      last_refreshed_at = created;
      revoked_at = none;
    })
    commit
    pure (env.token_of session_id secret)

abbrev pub is_active_user : List User → ℕ → Bool
is_active_user [] id = false
is_active_user (user ∷ users) id = (user.id == id && user.is_active) || is_active_user users id

-- `Repository.active_auth_session`
abbrev pub is_active_session : List User → (user_id session_id time : ℕ) → AuthSession → Bool
is_active_session users user_id session_id time session =
    session.id == session_id
    && session.user_id == user_id
    && not (is_some session.revoked_at)
    && ltb time session.absolute_expires_at
    && is_active_user users session.user_id

-- A user who is gone would be an `AttributeError`; the join has found one.
unfoldable pub context_of : AuthSession → Option User → Tx Accounts AuthContext
context_of session none = lift (err crash)
context_of session (some user) = pure (record {
  user_id = user.id;
  username = user.username;
  auth_session_id = session.id;
  role = user.role;
})

unfoldable pub authenticate_found : (user_id : ℕ) → Option AuthSession → Tx Accounts AuthContext
authenticate_found user_id none = raise unauthorized
authenticate_found user_id (some session) = do
  accounts ← get
  context_of session (find_row (user_of user_id) accounts.users)

-- `claims` are the user and the session of a token that the package has verified.
unfoldable pub authenticate : (claims : Option (ℕ × ℕ)) → Tx Accounts AuthContext
authenticate none = raise unauthorized
authenticate (some (user_id, session_id)) = do
  time ← now
  accounts ← get
  authenticate_found user_id
      (find_row (is_active_session accounts.users user_id session_id time) accounts.sessions)

module _ (env : Environment) where
  abbrev pub revoked : (time : ℕ) → AuthSession → AuthSession
  revoked time session = record session { revoked_at = some time }

  unfoldable pub replay : AuthSession → Tx Accounts (Unit {0})
  replay session = do
    time ← now
    save_session (revoked time session)
    commit
    raise refresh_replayed

  unfoldable pub rotate : (secret : ℕ) → AuthSession → Option User → Tx Accounts ℕ
  rotate secret session none = raise unauthorized
  rotate secret session (some user) = do
    raise_if (not user.is_active) unauthorized
    time ← now
    save_session (record session {
      refresh_token_hash = env.digest (env.token_of session.id secret);
      last_refreshed_at = time;
    })
    commit
    pure (env.token_of session.id secret)

  -- `utcnow` is read only for a session that is not revoked.
  unfoldable pub check_session : AuthSession → Tx Accounts (Unit {0})
  check_session session = do
    raise_if (is_some session.revoked_at) unauthorized
    time ← now
    raise_if (leb session.absolute_expires_at time) unauthorized

  unfoldable pub refresh_found : (presented secret : ℕ) → Option AuthSession → Tx Accounts ℕ
  refresh_found presented secret none = raise unauthorized
  refresh_found presented secret (some session) = do
    check_session session
    when (not (session.refresh_token_hash == env.digest presented)) (replay session)
    accounts ← get
    rotate secret session (find_row (user_of session.user_id) accounts.users)

  unfoldable pub refresh_session : (presented secret : ℕ) → Option ℕ → Tx Accounts ℕ
  refresh_session presented secret none = raise unauthorized
  refresh_session presented secret (some session_id) = do
    accounts ← get
    refresh_found presented secret (find_row (session_row session_id) accounts.sessions)

  -- `secret` is the fresh part of the next token.
  unfoldable pub refresh : (presented secret : ℕ) → Tx Accounts ℕ
  refresh presented secret = refresh_session presented secret (env.session_of presented)

  unfoldable pub logout_found : AuthContext → Option AuthSession → Tx Accounts (Unit {0})
  logout_found context none = pure tt
  logout_found context (some session) =
      when (session.user_id == context.user_id)
        (do time ← now; save_session (revoked time session); commit)

  unfoldable pub logout : AuthContext → Tx Accounts (Unit {0})
  logout context = do
    accounts ← get
    logout_found context (find_row (session_row context.auth_session_id) accounts.sessions)

  unfoldable pub revoke_all : (user_id time : ℕ) → List AuthSession → List AuthSession
  revoke_all user_id time [] = []
  revoke_all user_id time (session ∷ sessions) =
      (if session.user_id == user_id && not (is_some session.revoked_at)
        then revoked time session
        else session)
      ∷ revoke_all user_id time sessions

  unfoldable pub logout_all : AuthContext → Tx Accounts (Unit {0})
  logout_all context = do
    accounts ← get
    time ← now
    put (record accounts { sessions = revoke_all context.user_id time accounts.sessions })
    commit
