-- ===== src/Auth/Login.antt =====
-- normalize_username, validate_password, register, login and verify_cookie_origin of
-- app/service/auth.py.
use learning_qa_assistant.Base.{
  ℕ, Bool, true, false, not, ◌&&◌, ◌||◌, Option, none, some, List, [], ◌∷◌, leb, ◌==◌,
  if◌then◌else◌, any, all, length,
}
use learning_qa_assistant.Base.Table.{find_row}
use learning_qa_assistant.Base.Text.{Text, codes, text_eq, strip}
use learning_qa_assistant.Transaction.{
  Code, Result, ok, err, app_error, Tx, transaction, ◌>>=◌, ◌>>◌, get, put, commit, raise_if,
  invalid_username, invalid_password, registration_disabled, invalid_admin_code, username_taken,
  invalid_credentials,
}
use learning_qa_assistant.Auth.State.{
  Role, user, admin, User, Accounts, Settings, Environment, named,
}
use learning_qa_assistant.Auth.Limit.{
  Namespace, register_ip, register_admin, login_user, login_ip, Bucket, limit,
}
use learning_qa_assistant.Auth.Sessions.{issue_session}

abbrev pub is_username_char : ℕ → Bool
is_username_char c =
    (leb b'a' c && leb c b'z') || (leb b'0' c && leb c b'9') || c == b'_' || c == b'-'

-- `USERNAME.fullmatch(text)`
unfoldable pub is_username : Text → Bool
is_username text = leb 3 (length text) && leb (length text) 32 && all is_username_char text

-- The attempts in memory and the rows, which are written in transactions.
pub record Service : Type 0 where
  pub buckets : List Bucket
  pub accounts : Accounts

-- What a call is given: the readings of the monotonic clock and of `utcnow`, and fresh values.
pub record Moment : Type 0 where
  pub monotonic : ℕ
  pub clock : ℕ → ℕ
  pub session_id : ℕ
  pub secret : ℕ
  pub user_id : ℕ

abbrev pub window : ℕ
window = 900000000

abbrev pub client : Text → Text
client [] = codes "unknown"
client (c ∷ ip) = c ∷ ip

abbrev pub Step : Type 0 → Type 0
Step A = Service → Result A × Service

abbrev pub fail : {A : Type 0} → Code → Step A
fail code service = (err (app_error code), service)

-- A step behind a limit that may raise; the attempts stay counted.
abbrev pub after_limit : {A : Type 0} → Result (Unit {0}) × List Bucket → Step A → Step A
after_limit (ok u, buckets) step service = step (record service { buckets = buckets })
after_limit (err e, buckets) step service = (err e, record service { buckets = buckets })

unfoldable pub limited :
    {A : Type 0} → Namespace → Text → (bound now : ℕ) → (recorded : Bool) → Step A → Step A
limited namespace value bound now recorded step service =
    after_limit (limit namespace value bound window now recorded service.buckets) step service

abbrev pub after_transaction : {A : Type 0} → Result A × Accounts → Service → Result A × Service
after_transaction (result, accounts) service = (result, record service { accounts = accounts })

module _ (settings : Settings) (env : Environment) where
  unfoldable pub normalize_username : Text → Result Text
  normalize_username value =
      let username = env.lower (strip value) in
      if is_username username then ok username else err (app_error invalid_username)

  unfoldable pub validate_password : Text → Result (Unit {0})
  validate_password value =
      if leb 6 (length value) && leb (length value) 30
      then ok tt
      else err (app_error invalid_password)

  unfoldable pub open_session : Moment → User → Step ℕ
  open_session moment row service =
      after_transaction
        (transaction (issue_session settings env moment.session_id moment.secret row) moment.clock
          service.accounts)
        service

  unfoldable pub reject : Moment → (username client_ip : Text) → Step ℕ
  reject moment username client_ip =
      limited login_user username 10 moment.monotonic true
        (limited login_ip (client client_ip) 30 moment.monotonic true (fail invalid_credentials))

  -- The password is verified against a dummy for a user who is not there.
  unfoldable pub admit : Moment → (username password client_ip : Text) → Option User → Step ℕ
  admit moment username password client_ip none = reject moment username client_ip
  admit moment username password client_ip (some row) =
      if not (env.verify_password password row.password_hash) || not row.is_active
      then reject moment username client_ip
      else open_session moment row

  unfoldable pub check_user : Moment → (username password client_ip : Text) → Step ℕ
  check_user moment username password client_ip service =
      admit moment username password client_ip (find_row (named username) service.accounts.users)
        service

  unfoldable pub login_as : Moment → Result Text → (password client_ip : Text) → Step ℕ
  login_as moment (err e) password client_ip service = (err e, service)
  login_as moment (ok username) password client_ip service =
      limited login_user username 10 moment.monotonic false
        (limited login_ip (client client_ip) 30 moment.monotonic false
          (check_user moment username password client_ip))
        service

  unfoldable pub login : Moment → (username password client_ip : Text) → Step ℕ
  login moment username password client_ip service =
      login_as moment (normalize_username username) password client_ip service

  abbrev pub new_user : Moment → (username password : Text) → Role → User
  new_user moment username password role = record {
    id = moment.user_id;
    username = username;
    password_hash = env.hash_password password;
    role = role;
    is_active = true;
  }

  -- A name that is taken breaks the unique key at commit.
  unfoldable pub insert_user : User → Tx Accounts (Unit {0})
  insert_user row = do
    accounts ← get
    raise_if (any (named row.username) accounts.users) username_taken
    put (record accounts { users = row ∷ accounts.users })
    commit

  abbrev pub open_if : Moment → User → Result (Unit {0}) → Step ℕ
  open_if moment row (ok u) service = open_session moment row service
  open_if moment row (err e) service = (err e, service)

  unfoldable pub create_user : Moment → User → Step ℕ
  create_user moment row service =
      let (result, next) =
        after_transaction (transaction (insert_user row) moment.clock service.accounts) service in
      open_if moment row result next

  abbrev pub is_code : Option Text → Text → Bool
  is_code none code = false
  is_code (some configured) code = text_eq code configured

  unfoldable pub register_user :
      Moment → (username password client_ip : Text) → (admin_code : Option Text) → Step ℕ
  register_user moment username password client_ip none =
      create_user moment (new_user moment username password user)
  register_user moment username password client_ip (some code) =
      limited register_admin client_ip 10 moment.monotonic true (
        if is_code settings.admin_invite_code code
        then create_user moment (new_user moment username password admin)
        else fail invalid_admin_code)

  unfoldable pub register_as :
      Moment → Result Text → (password client_ip : Text) → Option Text → Step ℕ
  register_as moment (err e) password client_ip admin_code service = (err e, service)
  register_as moment (ok username) password client_ip admin_code service =
      checked (validate_password password)
    where
      checked : Result (Unit {0}) → Result ℕ × Service
      checked (err e) = (err e, service)
      checked (ok u) =
          limited register_ip client_ip 30 moment.monotonic true
            (register_user moment username password client_ip admin_code) service

  -- `admin_code` is `none` where it is empty.
  unfoldable pub register :
      Moment → (username password client_ip : Text) → (admin_code : Option Text) → Step ℕ
  register moment username password client_ip admin_code service =
      if not settings.registration_enabled
      then fail registration_disabled service
      else register_as moment (normalize_username username) password client_ip admin_code service
