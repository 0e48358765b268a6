-- ===== src/Cloud/Oauth/Tests.antt =====
-- One client, one user and one code.
use Prim.Native.String
use term_bridge.Prelude.{true, false, none, some, [], ◌∷◌, ◌≡◌, ◌≢◌, refl, ok}
use term_bridge.Prelude.Text.{trim_space}
use term_bridge.Cloud.Auth.{Tables, Db, find_row}
use term_bridge.Cloud.Auth.Queries.{find_user_by_id}
use term_bridge.Cloud.Auth.Service.{
  Service, default_password_policy, default_code_policy, require_repository,
}
use term_bridge.Cloud.Auth.Accounts.{issue_user_token, login_response}
use term_bridge.Cloud.Oauth.{
  Client, Handler, valid_cloud_oauth_client_secret, cloud_oauth_client, consume_cloud_oauth_code,
  TokenReq, token_for, exchange, token,
}
use term_bridge.Cloud.Oauth.Codes.{IsExchanged, token-IsExchanged}
use term_bridge.Cloud.Oauth.Once.{at_once, token-once}

abbrev db : Db
db = record {
  fails = λ _. false;
  begin_fails = false;
  commit_fails = false;
  new_id = λ _. none;
  now = 100;
  lower = λ s. s;
}

abbrev service : Service
service = record {
  has_repo = true;
  password_policy = default_password_policy;
  code = default_code_policy;
  sender = none;
  providers = [];
  sign = λ c. some (String.◌++◌ "token:" c.sub);
  sha256 = λ s. s;
  upper = λ s. s;
  hash_password = λ _. none;
  check_password = λ _ _. false;
  random = λ _. none;
  url_token = none;
}

abbrev tables : Tables
tables = record {
  users =
      record {
        id = "u1";
        provider = "email";
        email_normalized = "a@b";
        display_name = "a";
        status = "enabled";
        email_verified_at = none;
        last_login_at = none;
        updated_at = 60;
      }
      ∷ [];
  identities = [];
  codes = [];
  states = [];
  logs = [];
}

abbrev agent : Client
agent = record { client_id = "agent"; client_secret = "secret"; redirect_url = "http://a" }

abbrev handler : Handler
handler = record {
  clients = agent ∷ [];
  oauth_codes = λ _.
      some (record {
        client_id = "agent";
        redirect_url = "http://a";
        user_id = "u1";
        expires_at = 150;
      });
}

abbrev request : TokenReq
request = record {
  method = "POST";
  form_parsed = true;
  grant_type = "authorization_code";
  client_id = " agent";
  client_secret = "secret";
  redirect_uri = "http://a";
  code = "code";
  now = 100;
  service = service;
  db = db;
  tables = tables;
}

exchanged : Handler
exchanged = (token request handler).0

token_issued : token request handler ≡ (exchanged, ok "token:u1")
unfolding token exchange token_for consume_cloud_oauth_code valid_cloud_oauth_client_secret
    cloud_oauth_client trim_space issue_user_token require_repository find_user_by_id find_row
    login_response exchanged
token_issued = refl

token-IsExchanged_example :
    (valid_cloud_oauth_client_secret handler.clients
        (trim_space " agent")
        (trim_space "http://a")
        (trim_space "secret")
      ≡ true)
    × IsExchanged request "token:u1" handler exchanged
token-IsExchanged_example = token-IsExchanged request handler exchanged "token:u1" token_issued

token-once_example : token request exchanged ≢ (handler, ok "again")
token-once_example =
    token-once request request handler exchanged exchanged handler "token:u1" "again" token_issued
      at_once refl
