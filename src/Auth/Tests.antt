-- ===== src/Auth/Tests.antt =====
-- Accounts on samples, and the theorems at concrete inputs.
use learning_qa_assistant.Base.{
  ℕ, ◌+◌, ◌*◌, ◌/◌, ◌≤◌, true, ◌≡◌, ◌⊎◌, refl, none, some, List, [], ◌∷◌, length, keep, arith,
}
use learning_qa_assistant.Base.Table.{find_row}
use learning_qa_assistant.Base.Text.{codes, text_eq}
use learning_qa_assistant.Transaction.{
  ok, err, app_error, unauthorized, refresh_replayed, transaction,
}
use learning_qa_assistant.Auth.State.{user, User, AuthSession, Accounts, Settings, Environment}
use learning_qa_assistant.Auth.Sessions
use learning_qa_assistant.Auth.Calls.{Call, issue_session, refresh, session_history}
use learning_qa_assistant.Auth.Revoked.{IsRevoked}
use learning_qa_assistant.Auth.Replayed.{Accepts, exchanged_once, revoked_refused}
use learning_qa_assistant.Auth.Origin.{
  without_slashes, is_same_site, verify_cookie_origin, verify_cookie_origin_sound,
}
use learning_qa_assistant.Auth.Window.{Attempt, count_all, is_live, count_all-live}

-- A token is ten times its session, and its secret.
abbrev sample_env : Environment
sample_env = record {
  digest = λ token. token;
  session_of = λ token. some (token / 10);
  token_of = λ session_id secret. 10 * session_id + secret;
  hash_password = λ text. length text;
  verify_password = λ text hash. true;
  dummy_hash = 0;
  lower = λ text. text;
}

abbrev sample_settings : Settings
sample_settings = record {
  registration_enabled = true;
  admin_invite_code = none;
  refresh_token_lifetime = 100;
}

abbrev sample_user : User
sample_user = record {
  id = 5;
  username = codes "ann";
  password_hash = 3;
  role = user;
  is_active = true;
}

abbrev live_session : AuthSession
live_session = record {
  id = 2;
  user_id = 5;
  refresh_token_hash = 21;
  absolute_expires_at = 100;
  last_refreshed_at = 0;
  revoked_at = none;
}

abbrev sample_accounts : Accounts
sample_accounts = record { users = sample_user ∷ []; sessions = live_session ∷ [] }

abbrev revoked_accounts : Accounts
revoked_accounts = record {
  users = sample_user ∷ [];
  sessions = record live_session { revoked_at = some 9 } ∷ [];
}

abbrev at_10 : ℕ → ℕ
at_10 n = 10 + n

abbrev at_20 : ℕ → ℕ
at_20 n = 20 + n

sample-Accepts : Accepts sample_env 21 10 sample_accounts live_session sample_user
unfolding find_row
sample-Accepts = record {
  names = refl;
  found = refl;
  live = refl;
  early = refl;
  current = refl;
  known = refl;
  active = refl;
}

exchanged_once_example :
    let first = transaction (Sessions.refresh sample_env 21 3) at_10 sample_accounts in
    let second = transaction (Sessions.refresh sample_env 21 4) at_20 first.1 in
    (first.0 ≡ ok 23) × (second.0 ≡ err (app_error refresh_replayed)) × IsRevoked 2 second.1
exchanged_once_example =
    exchanged_once sample_env 21 3 4 at_10 at_20 sample_accounts live_session sample_user
      sample-Accepts refl refl

abbrev sample_calls : List (Call × (ℕ → ℕ))
sample_calls = (issue_session 3 1 sample_user, at_10) ∷ (refresh 31 2, at_20) ∷ []

revoked_refused_example :
    let after = session_history sample_settings sample_env sample_calls revoked_accounts in
    transaction (Sessions.refresh sample_env 21 4) at_20 after
    ≡ (err (app_error unauthorized), after)
unfolding find_row
revoked_refused_example =
    revoked_refused sample_settings sample_env 2 sample_calls 21 4 at_20 revoked_accounts refl
      ((λ e. omega (arith, e)), (tt, tt)) refl

abbrev attempt : ℕ → Attempt
attempt time = record { time = time; recorded = true }

abbrev sample_attempts : List Attempt
sample_attempts = attempt 1 ∷ attempt 2 ∷ attempt 3 ∷ attempt 12 ∷ []

count_all-live_example :
    let tally = count_all 2 10 sample_attempts (record { attempts = []; log = [] }) in
    (tally.attempts ≡ keep (is_live 10 12) tally.log) × (length tally.attempts ≤ 2)
count_all-live_example =
    count_all-live 2 10 sample_attempts (omega arith)
      (omega arith, (omega arith, (omega arith, (omega arith, tt))))

verify_cookie_origin_sound_example :
    ((some (codes "http://a") ≡ some (without_slashes (codes "http://a/")))
      ⊎ (some (codes "http://a") ≡ some (without_slashes (codes "http://b"))))
    × ((some (codes "same-site") ≡ none)
        ⊎ ((some (codes "same-site") ≡ some (codes "same-origin"))
            ⊎ (some (codes "same-site") ≡ some (codes "same-site"))))
unfolding verify_cookie_origin without_slashes is_same_site text_eq
verify_cookie_origin_sound_example =
    verify_cookie_origin_sound (codes "http://a/") (some (codes "http://a"))
      (some (codes "same-site")) (codes "http://b") refl
