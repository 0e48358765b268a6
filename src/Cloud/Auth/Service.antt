-- ===== src/Cloud/Auth/Service.antt =====
-- internal/cloud/application/user/auth/service.go, and the list of providers of provider.go: accounts
-- with passwords, the codes that are mailed, and sign-in with other providers. Hashes, signatures,
-- random bytes, the mail service and the providers are arguments.
use Prim.Native.String.{◌++◌, len}
use term_bridge.Prelude.{
  ℕ, zero, suc, ◌+◌, ◌%◌, String, Bool, true, false, not, ◌&&◌, ◌||◌, ◌==◌, ltb, leb, eqb,
  if◌then◌else◌, Option, none, some, List, [], ◌∷◌, Result, ok, err,
}
use term_bridge.Prelude.Text.{trim_space}
use term_bridge.Cloud.Auth.{
  AuthCode, Db, AuthError, Action, pure, raise, ◌>>=◌, ◌>>◌, raise_if, attempt, within_tx,
  normalize_email, status_enabled, invalid_credentials, email_already_used, code_invalid,
  code_cooldown, password_invalid, provider_unsupported, mail_disabled, not_found, no_hash,
  no_random, send_failed,
}
use term_bridge.Cloud.Auth.Queries.{
  find_user_by_email, mark_email_verified, update_password, is_none, latest_code, invalidate_code,
  increment_code_attempts, mark_code_used, create_code, save_email_log, create_email_user,
}

abbrev pub purpose_email_verification : String
purpose_email_verification = "email_verification"

abbrev pub purpose_password_reset : String
purpose_password_reset = "password_reset"

pub record PasswordPolicy : Type 0 where
  pub min_length : ℕ
  pub max_length : ℕ

pub record CodePolicy : Type 0 where
  pub length : ℕ
  pub ttl : ℕ
  pub resend_cooldown : ℕ
  pub max_attempts : ℕ

pub record Claims : Type 0 where
  pub sub : String
  pub email : String
  pub provider : String

-- What the mail service answers: an error, or a result.
pub record Sent : Type 0 where
  pub failed : Bool
  pub success : Bool
  pub message_id : String
  pub response_body : String

pub record ExternalIdentity : Type 0 where
  pub provider : String
  pub subject : String
  pub email : String
  pub email_verified : Bool

pub record ExternalProvider : Type 0 where
  pub id : String
  pub auth_code_url : String → String
  pub exchange_identity : String → Option ExternalIdentity

-- The service, and what it meets outside at one call.
pub record Service : Type 0 where
  pub has_repo : Bool
  pub password_policy : PasswordPolicy
  pub code : CodePolicy
  pub sender : Option (String → Sent)
  pub providers : List ExternalProvider
  pub sign : Claims → Option String
  pub sha256 : String → String
  pub upper : String → String
  pub hash_password : String → Option String
  pub check_password : String → String → Bool
  pub random : ℕ → Option (List ℕ)
  pub url_token : Option String

abbrev pub default_password_policy : PasswordPolicy
default_password_policy = record { min_length = 8; max_length = 128 }

-- Two minutes, one minute, and three attempts.
abbrev pub default_code_policy : CodePolicy
default_code_policy = record {
  length = 6;
  ttl = 120000000000;
  resend_cooldown = 60000000000;
  max_attempts = 3;
}

-- New, for the policies.
unfoldable pub new_service : Service → Service
new_service s = record s {
  password_policy =
      if eqb s.password_policy.min_length 0 && eqb s.password_policy.max_length 0
      then default_password_policy
      else s.password_policy;
  code = if eqb s.code.length 0 then default_code_policy else s.code;
}

unfoldable pub require_repository : Service → Action (Unit {0})
require_repository s = raise_if (not s.has_repo) provider_unsupported

unfoldable pub validate_password : Service → String → Action (Unit {0})
validate_password s password =
    raise_if
      (ltb (len password) s.password_policy.min_length
        || ltb s.password_policy.max_length (len password))
      password_invalid

abbrev pub or_raise : {A : Type 0} → Option A → AuthError → Action A
or_raise none e = raise e
or_raise (some a) e = pure a

unfoldable pub hash_code : Service → Db → String → String → String → String
unfolding normalize_email trim_space
hash_code s db email purpose code =
    s.sha256 (normalize_email db email ++ ":" ++ purpose ++ ":" ++ s.upper (trim_space code))

-- The character of the charset with an index.
unfoldable pub char_at : String → ℕ → String
char_at String.[] n = ""
char_at (String.◌∷◌ c s) zero = String.◌∷◌ c ""
char_at (String.◌∷◌ c s) (suc n) = char_at s n

unfoldable pub code_of_bytes : List ℕ → String
unfolding char_at
code_of_bytes [] = ""
code_of_bytes (b ∷ bs) = char_at "ABCDEFGHIJKLMNOPQRSTUVWXYZ0123456789" (b % 36) ++ code_of_bytes bs

unfoldable pub generate_code : Service → ℕ → Option String
unfolding code_of_bytes
generate_code s n = elim (s.random n) [ none ↦ none | some bytes ↦ some (code_of_bytes bytes) ]

-- Whether the last code is too recent for another.
abbrev pub is_cooling : Service → Db → Result AuthError AuthCode → Bool
is_cooling s db (err e) = false
is_cooling s db (ok c) =
    is_none c.used_at
    && is_none c.invalidated_at
    && ltb db.now (c.created_at + s.code.resend_cooldown)

abbrev pub delivered : Sent → Bool
delivered sent = not sent.failed && sent.success

abbrev pub invalidate_undelivered : Db → Sent → String → Action (Unit {0})
invalidate_undelivered db sent id = if delivered sent then pure tt else invalidate_code db id

unfoldable pub record_code :
    Service → Db → Option String → String → String → String → Sent → Action (Unit {0})
unfolding within_tx create_code invalidate_code save_email_log hash_code
record_code s db user_id email purpose code sent = within_tx db (do
  id ←
      create_code db user_id email purpose (hash_code s db email purpose code) (db.now + s.code.ttl)
  invalidate_undelivered db sent id
  save_email_log db (record {
    email_normalized = email;
    purpose = purpose;
    provider_message_id = sent.message_id;
    status = if delivered sent then "success" else "failed";
    response_body = sent.response_body;
  }))

-- `email` is normalized already.
unfoldable pub send_code_by :
    Service → Db → Option String → String → String → (String → Sent) → Action (Unit {0})
unfolding generate_code record_code latest_code
send_code_by s db user_id email purpose send = do
  last ← attempt (latest_code db email purpose)
  raise_if (is_cooling s db last) code_cooldown
  code ← or_raise (generate_code s s.code.length) no_random
  record_code s db user_id email purpose code (send code)
  raise_if (send code).failed send_failed
  raise_if (not (send code).success) mail_disabled

unfoldable pub send_code : Service → Db → Option String → String → String → Action (Unit {0})
unfolding send_code_by require_repository normalize_email
send_code s db user_id email purpose = do
  require_repository s
  send ← or_raise s.sender mail_disabled
  send_code_by s db user_id (normalize_email db email) purpose send

-- A value that was found is an error, and so is any error but "not found".
abbrev pub must_be_new : {A : Type 0} → Result AuthError A → Action (Unit {0})
must_be_new (ok a) = raise email_already_used
must_be_new (err not_found) = pure tt
must_be_new (err e) = raise e

unfoldable pub register : Service → Db → String → String → Action (Unit {0})
unfolding require_repository validate_password normalize_email create_email_user send_code
    find_user_by_email
register s db email password = do
  require_repository s
  raise_if (normalize_email db email == "") invalid_credentials
  validate_password s password
  found ← attempt (find_user_by_email db (normalize_email db email))
  must_be_new found
  hash ← or_raise (s.hash_password password) no_hash
  user ← create_email_user db (normalize_email db email) hash
  send_code s db (some user.id) (normalize_email db email) purpose_email_verification

unfoldable pub resend_verification : Service → Db → String → Action (Unit {0})
unfolding require_repository find_user_by_email send_code
resend_verification s db email = do
  require_repository s
  user ← find_user_by_email db email
  if user.status == status_enabled
      then pure tt
      else send_code s db (some user.id) user.email_normalized purpose_email_verification

abbrev pub is_expired_or_used : Service → Db → AuthCode → Bool
is_expired_or_used s db c =
    not (is_none c.used_at)
    || not (is_none c.invalidated_at)
    || ltb c.expires_at db.now
    || leb s.code.max_attempts c.attempts

-- The comparison of the hashes; the error of the increment is dropped.
abbrev pub check_hash : Service → Db → AuthCode → Bool → Action AuthCode
check_hash s db c true = pure c
check_hash s db c false = do _ ← attempt (increment_code_attempts db c.id); raise code_invalid

abbrev pub row_or_invalid : Result AuthError AuthCode → Action AuthCode
row_or_invalid (err e) = raise code_invalid
row_or_invalid (ok c) = pure c

unfoldable pub verify_code_with_repo : Service → Db → String → String → String → Action AuthCode
unfolding latest_code hash_code increment_code_attempts trim_space
verify_code_with_repo s db email purpose input = do
  found ← attempt (latest_code db email purpose)
  c ← row_or_invalid found
  raise_if (is_expired_or_used s db c) code_invalid
  check_hash s db c (hash_code s db email purpose (s.upper (trim_space input)) == c.code_hash)

-- What VerifyEmail and ConfirmPasswordReset do in their transactions.
unfoldable pub use_code :
    Service → Db → String → String → String → (String → Action (Unit {0})) → Action (Unit {0})
unfolding verify_code_with_repo mark_code_used
use_code s db email purpose code change = do
  c ← verify_code_with_repo s db email purpose code
  user_id ← or_raise c.user_id code_invalid
  change user_id
  mark_code_used db c.id

unfoldable pub verify_email : Service → Db → String → String → Action (Unit {0})
unfolding use_code within_tx mark_email_verified require_repository
verify_email s db email code = do
  require_repository s
  within_tx db (use_code s db email purpose_email_verification code (mark_email_verified db))

unfoldable pub confirm_password_reset : Service → Db → String → String → String → Action (Unit {0})
unfolding use_code within_tx update_password require_repository validate_password
confirm_password_reset s db email code password = do
  require_repository s
  validate_password s password
  hash ← or_raise (s.hash_password password) no_hash
  within_tx db
      (use_code s db email purpose_password_reset code (λ user_id. update_password db user_id hash))

abbrev pub or_error : {A : Type 0} → AuthError → Action A → Action A
or_error e m t = let (t', r) = m t in elim r [ ok a ↦ (t', ok a) | err _ ↦ (t', err e) ]
