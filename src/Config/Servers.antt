-- ===== src/Config/Servers.antt =====
-- The servers, databases and sign-in of internal/shared/infrastructure/config/config.go: how their
-- texts are normalized and which are refused. url.Parse and the parsing of the key are arguments.
mod Tests
use Prim.Native.Char.{code}
use text.Mathlib.Text.{starts_with}
use term_bridge.Prelude.{
  ℕ, String, Bool, true, false, not, ◌&&◌, ◌||◌, ◌==◌, eqb, if◌then◌else◌, Option, none, some, List,
  [], ◌∷◌, ◌++◌, Result, ok, err, ◌>>=◌, ◌>>◌, fail_if, ℤ, pos, lt_int,
}
use term_bridge.Prelude.Text.{trim_space, contains_text}

-- The errors, with the keys or the provider that they name.
pub data ServerError : Type 0 where
  invalid_log_level invalid_log_format : ServerError
  empty_url not_absolute bad_scheme : String → ServerError
  not_a_base_path : String → ServerError
  empty_sqlite_path empty_dsn empty_driver unknown_driver : String → ServerError
  invalid_secret_key invalid_ttl : ServerError
  incomplete : String → List String → ServerError
  empty_client_id empty_client_secret empty_redirect_url : String → ServerError

pub record Url : Type 0 where
  pub scheme : String
  pub host : String

unfoldable pub validate_log_level : String → Result ServerError (Unit {0})
validate_log_level level =
    if level == "debug" || level == "info" || level == "warn" || level == "error"
    then ok tt
    else err invalid_log_level

unfoldable pub validate_log_format : String → Result ServerError (Unit {0})
validate_log_format format =
    if format == "text" || format == "json" then ok tt else err invalid_log_format

-- strings.TrimRight with "/"
unfoldable pub trim_slashes : String → String
trim_slashes String.[] = ""
trim_slashes (String.◌∷◌ c s) =
    let r = trim_slashes s in if eqb (code c) 47 && r == "" then "" else String.◌∷◌ c r

unfoldable pub normalize_url : String → String
unfolding trim_slashes trim_space
normalize_url value = trim_slashes (trim_space value)

-- One origin, after those that are kept so far.
unfoldable pub add_origin : List String → String → List String
unfolding contains_text
add_origin out value = if value == "" || contains_text out value then out else out ++ value ∷ []

unfoldable pub origins_loop : List String → List String → List String
unfolding add_origin normalize_url
origins_loop out [] = out
origins_loop out (value ∷ values) = origins_loop (add_origin out (normalize_url value)) values

unfoldable pub normalize_http_origins : List String → List String
unfolding origins_loop
normalize_http_origins values = origins_loop [] values

unfoldable pub clean_string_slice : List String → List String
unfolding trim_space
clean_string_slice [] = []
clean_string_slice (value ∷ values) =
    let rest = clean_string_slice values in
    if trim_space value == "" then rest else trim_space value ∷ rest

pub record OauthClient : Type 0 where
  pub client_id : String
  pub client_secret : String
  pub redirect_url : String
  pub scopes : List String

abbrev pub scopes_or : List String → List String
scopes_or [] = "openid" ∷ "email" ∷ "profile" ∷ []
scopes_or (s ∷ ss) = s ∷ ss

-- A client of the cloud, which normalizeCloudConfig gives scopes always.
unfoldable pub normalize_client : OauthClient → OauthClient
unfolding clean_string_slice normalize_url
normalize_client c = record {
  client_id = trim_space c.client_id;
  client_secret = trim_space c.client_secret;
  redirect_url = normalize_url c.redirect_url;
  scopes = scopes_or (clean_string_slice c.scopes);
}

-- The client of the local server, which normalizeLocalConfig gives scopes if it has an id.
unfoldable pub normalize_local_client : OauthClient → OauthClient
unfolding clean_string_slice normalize_url
normalize_local_client c =
    let scopes = clean_string_slice c.scopes in
    record {
      client_id = trim_space c.client_id;
      client_secret = trim_space c.client_secret;
      redirect_url = normalize_url c.redirect_url;
      scopes = if trim_space c.client_id == "" then scopes else scopes_or scopes;
    }

pub record LocalConfig : Type 0 where
  pub listen_url : String
  pub public_url : String
  pub api_base_path : String
  pub cors_allowed_origins : List String
  pub oauth : OauthClient

unfoldable pub normalize_local_config : LocalConfig → LocalConfig
unfolding normalize_url normalize_http_origins normalize_local_client
normalize_local_config c = record {
  listen_url = normalize_url c.listen_url;
  public_url = normalize_url c.public_url;
  api_base_path = normalize_url c.api_base_path;
  cors_allowed_origins = normalize_http_origins c.cors_allowed_origins;
  oauth = normalize_local_client c.oauth;
}

pub record DatabaseConfig : Type 0 where
  pub driver : String
  pub sqlite_path : String
  pub mysql_dsn : String

unfoldable pub validate_database_config : String → DatabaseConfig → Result ServerError (Unit {0})
validate_database_config prefix c =
    if c.driver == "sqlite"
    then fail_if (c.sqlite_path == "") (empty_sqlite_path prefix)
    else if c.driver == "mysql"
    then fail_if (c.mysql_dsn == "") (empty_dsn prefix)
    else if c.driver == ""
    then err (empty_driver prefix)
    else err (unknown_driver prefix)

-- `key_ok` is whether security.ParseBase64Key accepts the key.
unfoldable pub validate_jwt : Bool → ℤ → Result ServerError (Unit {0})
validate_jwt key_ok ttl = do
  fail_if (not key_ok) invalid_secret_key
  fail_if (lt_int ttl (pos 1)) invalid_ttl

-- The names of the fields that are empty, for which the source has the environment variables.
unfoldable pub missing_of : List (String × String) → List String
missing_of [] = []
missing_of ((name, value) ∷ fields) =
    let rest = missing_of fields in if value == "" then name ∷ rest else rest

abbrev pub none_missing : String → List String → Result ServerError (Unit {0})
none_missing provider [] = ok tt
none_missing provider (m ∷ ms) = err (incomplete provider (m ∷ ms))

unfoldable pub validate_oauth_provider_config :
    String → String → String → String → Result ServerError (Unit {0})
unfolding missing_of
validate_oauth_provider_config provider id secret redirect =
    if id == "" && secret == "" && redirect == ""
    then ok tt
    else none_missing provider (
        missing_of
          (("client_id", id) ∷ ("client_secret", secret) ∷ ("redirect_url", redirect) ∷ []))

-- The mail service of validateIntegrationConfig.
unfoldable pub validate_resend : String → String → Result ServerError (Unit {0})
unfolding missing_of
validate_resend api_key from_email =
    if not (api_key == "") || not (from_email == "")
    then none_missing "resend" (missing_of (("api_key", api_key) ∷ ("from_email", from_email) ∷ []))
    else ok tt

unfoldable pub validate_api_base_path : String → String → Result ServerError (Unit {0})
validate_api_base_path key value =
    fail_if (value == "" || value == "/" || not (starts_with value "/") || starts_with value "//")
      (not_a_base_path key)

module _ (parse : String → Option Url) where
  abbrev pub check_url : String → Option Url → Result ServerError (Unit {0})
  check_url key none = err (not_absolute key)
  check_url key (some u) = do
    fail_if (u.scheme == "" || u.host == "") (not_absolute key)
    fail_if (not (u.scheme == "http") && not (u.scheme == "https")) (bad_scheme key)

  unfoldable pub validate_http_url : String → String → Result ServerError (Unit {0})
  unfolding trim_space
  validate_http_url key value = do
    fail_if (trim_space value == "") (empty_url key)
    check_url key (parse value)

  abbrev pub validate_optional_url : String → String → Result ServerError (Unit {0})
  validate_optional_url key value = if value == "" then ok tt else validate_http_url key value

  unfoldable pub validate_origins : String → List String → Result ServerError (Unit {0})
  unfolding validate_http_url
  validate_origins key [] = ok tt
  validate_origins key (origin ∷ origins) = do
    validate_http_url key origin
    validate_origins key origins

  -- The keys of the server: of its address, of its public address and of the origins.
  unfoldable pub validate_http_server_config :
      String × String × String → String → String → List String → Result ServerError (Unit {0})
  unfolding validate_origins
  validate_http_server_config (listen, public, cors) listen_url public_url origins = do
    validate_http_url listen listen_url
    validate_optional_url public public_url
    validate_origins cors origins

  unfoldable pub validate_local_oauth : OauthClient → Result ServerError (Unit {0})
  unfolding validate_http_url missing_of
  validate_local_oauth c =
      if c.client_id == "" && c.client_secret == "" && c.redirect_url == "" then ok tt else (do
        none_missing "local" (
            missing_of (
              ("client_id", c.client_id)
              ∷ ("client_secret", c.client_secret)
              ∷ ("redirect_url", c.redirect_url)
              ∷ []))
        validate_http_url "local.oauth.redirect_url" c.redirect_url)

  unfoldable pub validate_local : LocalConfig → Result ServerError (Unit {0})
  unfolding validate_http_server_config validate_local_oauth validate_api_base_path
  validate_local c = do
    validate_http_server_config
        ("local.listen_url", "local.public_url", "local.cors_allowed_origins") c.listen_url
        c.public_url c.cors_allowed_origins
    validate_api_base_path "local.api_base_path" c.api_base_path
    validate_local_oauth c.oauth

  -- `prefix` names the client with its index, and `redirect_key` its redirect URL.
  unfoldable pub validate_cloud_oauth_client :
      String → String → OauthClient → Result ServerError (Unit {0})
  unfolding validate_http_url
  validate_cloud_oauth_client prefix redirect_key c = do
    fail_if (c.client_id == "") (empty_client_id prefix)
    fail_if (c.client_secret == "") (empty_client_secret prefix)
    fail_if (c.redirect_url == "") (empty_redirect_url prefix)
    validate_http_url redirect_key c.redirect_url

  unfoldable pub validate_agent_cloud_target : String → String → Result ServerError (Unit {0})
  unfolding validate_http_url
  validate_agent_cloud_target public_url api_base_url = do
    validate_optional_url "cloud.public_url" public_url
    validate_http_url "cloud.api_base_url" api_base_url
