-- ===== src/Auth/State.antt =====
-- The rows and settings of AuthService of app/service/auth.py: User and AuthSession of
-- app/entity/do/models.py.
use learning_qa_assistant.Base.{ℕ, Bool, Option, List, ◌==◌}
use learning_qa_assistant.Base.Text.{Text, text_eq}

pub data Role : Type 0 where
  user admin : Role

pub record User : Type 0 where
  pub id : ℕ
  pub username : Text
  pub password_hash : ℕ
  pub role : Role
  pub is_active : Bool

pub record AuthSession : Type 0 where
  pub id : ℕ
  pub user_id : ℕ
  pub refresh_token_hash : ℕ
  pub absolute_expires_at : ℕ
  pub last_refreshed_at : ℕ
  pub revoked_at : Option ℕ

pub record Accounts : Type 0 where
  pub users : List User
  pub sessions : List AuthSession

-- `admin_invite_code` is `none` where it is empty; the origins are without trailing slashes.
pub record Settings : Type 0 where
  pub registration_enabled : Bool
  pub admin_invite_code : Option Text
  pub refresh_token_lifetime : ℕ

-- What the packages for digests, passwords and signed tokens do, and the lower case of a text:
-- a refresh token is made of a session and a fresh secret, and `session_of` reads its first part.
pub record Environment : Type 0 where
  pub digest : ℕ → ℕ
  pub session_of : ℕ → Option ℕ
  pub token_of : (session_id secret : ℕ) → ℕ
  pub hash_password : Text → ℕ
  pub verify_password : Text → (hash : ℕ) → Bool
  pub dummy_hash : ℕ
  pub lower : Text → Text

pub record AuthContext : Type 0 where
  pub user_id : ℕ
  pub username : Text
  pub auth_session_id : ℕ
  pub role : Role

abbrev pub user_of : ℕ → User → Bool
user_of id row = row.id == id

abbrev pub named : Text → User → Bool
named username row = text_eq row.username username

abbrev pub session_row : ℕ → AuthSession → Bool
session_row id session = session.id == id
