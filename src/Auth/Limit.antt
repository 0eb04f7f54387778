-- ===== src/Auth/Limit.antt =====
-- AuthService._limit of app/service/auth.py: the attempts of one key in a sliding window.
use learning_qa_assistant.Base.{
  ℕ, ◌+◌, Bool, true, false, Option, none, some, List, [], ◌∷◌, ◌++◌, leb, length, if◌then◌else◌,
  ◌&&◌,
}
use learning_qa_assistant.Base.Text.{Text, text_eq}
use learning_qa_assistant.Base.Table.{find_row, store_row}
use learning_qa_assistant.Transaction.{Result, ok, err, app_error, auth_rate_limited}

-- `f"{namespace}:{value}"`
pub data Namespace : Type 0 where
  register_ip register_admin login_user login_ip : Namespace

abbrev pub same_namespace : Namespace → Namespace → Bool
same_namespace register_ip register_ip = true
same_namespace register_admin register_admin = true
same_namespace login_user login_user = true
same_namespace login_ip login_ip = true
same_namespace _ _ = false

pub record Bucket : Type 0 where
  pub namespace : Namespace
  pub value : Text
  pub attempts : List ℕ

abbrev pub bucket_of : Namespace → Text → Bucket → Bool
bucket_of namespace value bucket =
    same_namespace bucket.namespace namespace && text_eq bucket.value value

-- `while bucket and bucket[0] <= now - window: bucket.popleft()`
unfoldable pub expire : (window now : ℕ) → List ℕ → List ℕ
expire window now [] = []
expire window now (attempt ∷ attempts) =
    let rest = expire window now attempts in
    if leb (attempt + window) now then rest else attempt ∷ attempts

-- The bucket of a key, once the call is over: whether the attempt is refused, and what is kept.
unfoldable pub limit_bucket :
    (limit window now : ℕ) → (recorded : Bool) → List ℕ → Result (Unit {0}) × List ℕ
limit_bucket limit window now recorded attempts =
    let kept = expire window now attempts in
    if leb limit (length kept)
    then (err (app_error auth_rate_limited), kept)
    else (ok tt, if recorded then kept ++ now ∷ [] else kept)

abbrev pub attempts_of : Option Bucket → List ℕ
attempts_of none = []
attempts_of (some bucket) = bucket.attempts

-- `self.attempts` is a dict whose missing keys are empty.
unfoldable pub limit :
    Namespace
    → (value : Text) → (bound window now : ℕ) → (recorded : Bool) → List Bucket
    → Result (Unit {0}) × List Bucket
limit namespace value bound window now recorded buckets =
    let (result, attempts) =
      limit_bucket bound window now recorded
        (attempts_of (find_row (bucket_of namespace value) buckets)) in
    (
      result,
      store_row (bucket_of namespace value)
          (record { namespace = namespace; value = value; attempts = attempts }) buckets,
    )
