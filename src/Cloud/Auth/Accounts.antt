-- ===== src/Cloud/Auth/Accounts.antt =====
-- internal/cloud/application/user/auth/service.go: sign-in with a password or another provider,
-- changes of passwords, and tokens of users.
use term_bridge.Prelude.{
  ℕ, ◌+◌, String, Bool, not, ◌&&◌, ◌||◌, ◌==◌, if◌then◌else◌, Option, none, some, List, [], ◌∷◌,
  Result, ok, err,
}
use term_bridge.Prelude.Text.{trim_space}
use term_bridge.Cloud.Auth.{
  User, Identity, Db, AuthError, Action, pure, raise, ◌>>=◌, ◌>>◌, raise_if, attempt,
  normalize_email, provider_email, status_enabled, invalid_credentials, email_not_verified,
  password_unchanged, provider_unsupported, oauth_disabled, not_found, no_hash, no_random, no_token,
  no_exchange,
}
use term_bridge.Cloud.Auth.Queries.{
  find_user_by_email, find_user_by_provider_email, find_user_by_id, find_identity,
  find_identity_for_user, update_password, update_last_login, is_none, create_external_user,
  create_oauth_state, use_oauth_state,
}
use term_bridge.Cloud.Auth.Service.{
  Claims, ExternalIdentity, ExternalProvider, Service, must_be_new, or_error, or_raise,
  purpose_password_reset, require_repository, send_code, validate_password,
}

unfoldable pub is_enabled_user : User → Bool
is_enabled_user u = u.status == status_enabled && not (is_none u.email_verified_at)

-- userView and the token of loginResponse.
unfoldable pub login_response : Service → User → Action String
login_response s u =
    or_raise (s.sign (record { sub = u.id; email = u.email_normalized; provider = u.provider }))
      no_token

abbrev pub password_of : Identity → AuthError → Action String
password_of i e = or_raise i.password_hash e

unfoldable pub login : Service → Db → String → String → Action String
unfolding require_repository find_user_by_email find_identity_for_user is_enabled_user
    update_last_login login_response
login s db email password = do
  or_error invalid_credentials (require_repository s)
  user ← or_error invalid_credentials (find_user_by_email db email)
  identity ← or_error invalid_credentials (find_identity_for_user db user.id provider_email)
  hash ← password_of identity invalid_credentials
  raise_if (not (s.check_password hash password)) invalid_credentials
  raise_if (not (is_enabled_user user)) email_not_verified
  update_last_login db user.id
  login_response s user

unfoldable pub change_password : Service → Db → String → String → String → Action (Unit {0})
unfolding require_repository find_identity_for_user validate_password update_password
change_password s db user_id current new = do
  require_repository s
  identity ← or_error provider_unsupported (find_identity_for_user db user_id provider_email)
  hash ← password_of identity provider_unsupported
  raise_if (not (s.check_password hash current)) invalid_credentials
  raise_if (current == new) password_unchanged
  validate_password s new
  new_hash ← or_raise (s.hash_password new) no_hash
  update_password db user_id new_hash

-- A request for an address that is not known looks like one that is.
abbrev pub reset_for_user : Service → Db → User → Result AuthError Identity → Action (Unit {0})
reset_for_user s db user (err e) = pure tt
reset_for_user s db user (ok i) =
    send_code s db (some user.id) user.email_normalized purpose_password_reset

abbrev pub reset_for : Service → Db → Result AuthError User → Action (Unit {0})
reset_for s db (err e) = pure tt
reset_for s db (ok user) = if not (is_enabled_user user) then pure tt else (do
  identity ← attempt (find_identity_for_user db user.id provider_email)
  reset_for_user s db user identity)

unfoldable pub request_password_reset : Service → Db → String → Action (Unit {0})
unfolding find_user_by_email find_identity_for_user send_code is_enabled_user
request_password_reset s db email =
    if not s.has_repo
    then pure tt
    else (do user ← attempt (find_user_by_email db email); reset_for s db user)

unfoldable pub get_provider : List ExternalProvider → String → Option ExternalProvider
unfolding trim_space
get_provider [] id = none
get_provider (p ∷ ps) id =
    let rest = get_provider ps id in if p.id == trim_space id then some p else rest

-- Ten minutes.
abbrev pub oauth_state_ttl : ℕ
oauth_state_ttl = 600000000000

unfoldable pub external_auth_url : Service → Db → String → Action String
unfolding require_repository get_provider create_oauth_state
external_auth_url s db provider_id = do
  require_repository s
  provider ← or_raise (get_provider s.providers provider_id) oauth_disabled
  state ← or_raise s.url_token no_random
  create_oauth_state db provider.id state (db.now + oauth_state_ttl)
  pure (provider.auth_code_url state)

unfoldable pub is_usable_identity : Db → ExternalProvider → ExternalIdentity → Bool
unfolding normalize_email trim_space
is_usable_identity db p i =
    i.provider == p.id
    && i.email_verified
    && not (trim_space i.subject == "")
    && not (normalize_email db i.email == "")

-- The identity, when it is known already.
unfoldable pub login_known :
    Service → Db → ExternalProvider → ExternalIdentity → Identity → Action String
unfolding find_user_by_id normalize_email update_last_login login_response
login_known s db p i existing = do
  user ← find_user_by_id db existing.user_id
  raise_if
      (not (user.provider == p.id) || not (user.email_normalized == normalize_email db i.email))
      invalid_credentials
  update_last_login db user.id
  login_response s user

unfoldable pub login_new : Service → Db → ExternalProvider → ExternalIdentity → Action String
unfolding find_user_by_provider_email create_external_user login_response
login_new s db p i = do
  found ← attempt (find_user_by_provider_email db p.id i.email)
  must_be_new found
  user ← create_external_user db p.id i.email i.subject
  login_response s user

abbrev pub login_external :
    Service → Db → ExternalProvider → ExternalIdentity → Result AuthError Identity → Action String
login_external s db p i (ok existing) = login_known s db p i existing
login_external s db p i (err not_found) = login_new s db p i
login_external s db p i (err e) = raise e

unfoldable pub external_callback : Service → Db → String → String → String → Action String
unfolding require_repository get_provider use_oauth_state is_usable_identity find_identity
    login_known login_new
external_callback s db provider_id code state = do
  require_repository s
  p ← or_raise (get_provider s.providers provider_id) oauth_disabled
  usable ← use_oauth_state db p.id state
  raise_if (not usable) invalid_credentials
  i ← or_raise (p.exchange_identity code) no_exchange
  raise_if (not (is_usable_identity db p i)) invalid_credentials
  found ← attempt (find_identity db p.id i.subject)
  login_external s db p i found

unfoldable pub issue_user_token : Service → Db → String → Action String
unfolding require_repository find_user_by_id login_response
issue_user_token s db user_id = do
  require_repository s
  user ← find_user_by_id db user_id
  login_response s user

pub record UserView : Type 0 where
  pub id : String
  pub email : String
  pub display_name : String
  pub provider : String
  pub email_verified : Bool

unfoldable pub user_view : User → UserView
user_view u = record {
  id = u.id;
  email = u.email_normalized;
  display_name = u.display_name;
  provider = u.provider;
  email_verified = not (is_none u.email_verified_at);
}

unfoldable pub user_from_claims : Service → Db → Claims → Action UserView
unfolding require_repository find_user_by_id user_view
user_from_claims s db claims = do
  require_repository s
  user ← find_user_by_id db claims.sub
  pure (user_view user)
