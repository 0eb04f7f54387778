-- ===== src/Auth/Calls.antt =====
-- Any change of the sessions, and any history of changes, each in its transaction.
use learning_qa_assistant.Base.{ℕ, List, [], ◌∷◌}
use learning_qa_assistant.Transaction.{Tx, ◌>>◌, pure, transaction}
use learning_qa_assistant.Auth.State.{User, Accounts, Settings, Environment, AuthContext}
use learning_qa_assistant.Auth.Sessions

pub data Call : Type 0 where
  issue_session : (session_id secret : ℕ) → User → Call
  refresh : (presented secret : ℕ) → Call
  logout logout_all : AuthContext → Call

unfoldable pub call_tx : Settings → Environment → Call → Tx Accounts (Unit {0})
call_tx settings env (issue_session session_id secret user) =
    Sessions.issue_session settings env session_id secret user >> pure tt
call_tx settings env (refresh presented secret) = Sessions.refresh env presented secret >> pure tt
call_tx settings env (logout context) = Sessions.logout env context
call_tx settings env (logout_all context) = Sessions.logout_all env context

unfoldable pub session_history :
    Settings → Environment → List (Call × (ℕ → ℕ)) → Accounts → Accounts
session_history settings env [] accounts = accounts
session_history settings env ((call, clock) ∷ calls) accounts =
    session_history settings env calls (transaction (call_tx settings env call) clock accounts).1
