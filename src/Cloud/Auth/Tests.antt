-- ===== src/Cloud/Auth/Tests.antt =====
-- Accounts with small tables: one user, a mailed code and a state of another provider.
use Prim.Native.String.{◌++◌, len}
use term_bridge.Prelude.{
  String, true, false, ◌==◌, ltb, ◌||◌, none, some, [], ◌∷◌, ◌≡◌, ◌≢◌, refl, ok, err, arith,
}
use term_bridge.Prelude.Text.{trim_space}
use term_bridge.Cloud.Auth.{
  User, Identity, AuthCode, Tables, Db, within_tx, normalize_email, find_row, update_where,
  count_where, provider_email, status_enabled, code_invalid,
}
use term_bridge.Cloud.Auth.Queries.{
  latest, latest_code, use_oauth_state, find_user_by_email, find_identity_for_user,
  find_user_by_provider_email, update_last_login, mark_email_verified, update_password,
  mark_code_used, increment_code_attempts,
}
use term_bridge.Cloud.Auth.Service.{
  Service, default_password_policy, default_code_policy, purpose_email_verification,
  purpose_password_reset, hash_code, require_repository, validate_password, verify_code_with_repo,
  use_code, verify_email, confirm_password_reset, new_service,
}
use term_bridge.Cloud.Auth.Accounts.{is_enabled_user, login_response, login}
use term_bridge.Cloud.Auth.Codes.{IsUsed, set_password, confirm_password_reset-ok}
use term_bridge.Cloud.Auth.Tries.{
  Try, verify_try, reset_try, run_try, try_purpose, try_address, no_tries, failed_try,
  FailedTries-same,
}
use term_bridge.Cloud.Auth.Once.{at_once, tried, run_try-once}
use term_bridge.Cloud.Auth.Login.{IsKnown, signed_in, login-ok}
use term_bridge.Cloud.Auth.External.{use_oauth_state-once}

abbrev db : Db
db = record {
  fails = λ _. false;
  begin_fails = false;
  commit_fails = false;
  new_id = λ _. some "id";
  now = 100;
  lower = λ s. s;
}

abbrev later : Db
later = record db { now = 200 }

abbrev service : Service
service = record {
  has_repo = true;
  password_policy = default_password_policy;
  code = default_code_policy;
  sender = none;
  providers = [];
  sign = λ c. some ("token:" ++ c.sub);
  sha256 = λ s. s;
  upper = λ s. s;
  hash_password = λ p. some ("hash:" ++ p);
  check_password = λ h p. h == "hash:" ++ p;
  random = λ _. none;
  url_token = none;
}

abbrev code_row : String → AuthCode
code_row purpose = record {
  id = "for " ++ purpose;
  user_id = some "u1";
  email_normalized = "a@b";
  purpose = purpose;
  code_hash = "a@b:" ++ purpose ++ ":ABC";
  expires_at = 150;
  attempts = 0;
  used_at = none;
  invalidated_at = none;
  created_at = 50;
}

abbrev tables : Tables
tables = record {
  users =
      record {
        id = "u1";
        provider = provider_email;
        email_normalized = "a@b";
        display_name = "a@b";
        status = status_enabled;
        email_verified_at = some 60;
        last_login_at = none;
        updated_at = 60;
      }
      ∷ [];
  identities =
      record {
        id = "i1";
        user_id = "u1";
        provider = provider_email;
        provider_subject = "a@b";
        password_hash = some "hash:old password";
        oauth_email = none;
        updated_at = 60;
      }
      ∷ [];
  codes = code_row purpose_email_verification ∷ code_row purpose_password_reset ∷ [];
  states = record { state = "s"; provider = "google"; expires_at = 150; used_at = none } ∷ [];
  logs = [];
}

verified : Tables
verified = (verify_email service db "a@b" "ABC" tables).0

email_verified : verify_email service db "a@b" "ABC" tables ≡ (verified, ok tt)
unfolding verify_email use_code verify_code_with_repo within_tx mark_email_verified mark_code_used
    require_repository latest_code latest hash_code normalize_email trim_space
    increment_code_attempts update_where verified
email_verified = refl

reset_tables : Tables
reset_tables = (confirm_password_reset service db "a@b" "ABC" "new password" tables).0

password_reset :
    confirm_password_reset service db "a@b" "ABC" "new password" tables ≡ (reset_tables, ok tt)
unfolding confirm_password_reset use_code verify_code_with_repo within_tx update_password
    mark_code_used validate_password require_repository latest_code latest hash_code normalize_email
    trim_space increment_code_attempts update_where reset_tables
password_reset = refl

confirm_password_reset-ok_example :
    ((ltb (len "new password") 8 || ltb 128 (len "new password")) ≡ false)
    × ((hash : String) × (service.hash_password "new password" ≡ some hash)
        × ((c : AuthCode) × IsUsed service db "a@b" purpose_password_reset "ABC"
              (set_password db hash)
              tables
              reset_tables
              c))
confirm_password_reset-ok_example =
    confirm_password_reset-ok service db "a@b" "ABC" "new password" tables reset_tables
      password_reset

first_try : Try
first_try = reset_try service db "a@b" "ABC" "new password"

second_try : Try
second_try = reset_try service later "a@b" "ABC" "another password"

first_reset : run_try first_try tables ≡ (reset_tables, ok tt)
unfolding run_try first_try
first_reset = password_reset

same_purpose : try_purpose first_try ≡ try_purpose second_try
unfolding try_purpose first_try second_try
same_purpose = refl

same_address : try_address first_try ≡ try_address second_try
unfolding try_address first_try second_try normalize_email trim_space
same_address = refl

wrong_reset : Try
wrong_reset = reset_try service db "a@b" "WRONG" "new password"

run_try-once_example : run_try second_try (run_try wrong_reset reset_tables).0 ≢ (tables, ok tt)
run_try-once_example =
    run_try-once first_try second_try tables reset_tables (run_try wrong_reset reset_tables).0
      tables same_purpose same_address first_reset (tried wrong_reset at_once)

wrong_try : Try
wrong_try = verify_try service db "a@b" "WRONG"

wrong_code : (run_try wrong_try tables).1 ≡ err code_invalid
unfolding run_try wrong_try verify_email use_code verify_code_with_repo within_tx
    mark_email_verified mark_code_used require_repository latest_code latest hash_code
    normalize_email trim_space increment_code_attempts update_where
wrong_code = refl

FailedTries-same_example : (run_try wrong_try tables).0 ≡ tables
FailedTries-same_example =
    FailedTries-same tables (run_try wrong_try tables).0
      (failed_try wrong_try code_invalid wrong_code no_tries)

signed_in_tables : Tables
signed_in_tables = (login service db "a@b" "old password" tables).0

login_succeeds : login service db "a@b" "old password" tables ≡ (signed_in_tables, ok "token:u1")
unfolding login require_repository find_user_by_email find_user_by_provider_email find_row
    find_identity_for_user normalize_email trim_space is_enabled_user update_last_login
    login_response update_where signed_in_tables
login_succeeds = refl

login-ok_example :
    (u : User) × (i : Identity) × IsKnown service db "a@b" "old password" tables u i
    × (some ("token:" ++ u.id) ≡ some "token:u1")
    × (signed_in_tables ≡ signed_in db u.id tables)
login-ok_example =
    login-ok service db "a@b" "old password" tables signed_in_tables "token:u1" login_succeeds

used_tables : Tables
used_tables = (use_oauth_state db "google" "s" tables).0

state_used : use_oauth_state db "google" "s" tables ≡ (used_tables, ok true)
unfolding use_oauth_state update_where count_where trim_space used_tables
state_used = refl

use_oauth_state-once_example : use_oauth_state later "google" "s" used_tables ≢ (tables, ok true)
use_oauth_state-once_example =
    use_oauth_state-once db later "google" "s" tables used_tables tables (ground (arith)) state_used

resend_of_default : (new_service service).code.max_attempts ≡ 3
unfolding new_service
resend_of_default = refl
