-- ===== src/Cloud/Oauth.antt =====
-- internal/cloud/api/handler/server.go: the sign-in of other programs by codes (handleOAuthAuthorize
-- and handleOAuthToken). A request is the record of what the handlers read of it, a reply its error
-- or its text; the claims of the signed-in user, random codes and the encoding of URLs are arguments.
pub mod Codes
pub mod Once
mod Tests
use term_bridge.Prelude.{
  ℕ, ◌+◌, String, Bool, true, false, not, ◌&&◌, ◌||◌, ◌==◌, ltb, if◌then◌else◌, Option, none, some,
  List, [], ◌∷◌, Result, ok, err,
}
use term_bridge.Prelude.Text.{trim_space}
use term_bridge.Cloud.Auth.{Tables, Db, AuthError}
use term_bridge.Cloud.Auth.Service.{Service}
use term_bridge.Cloud.Auth.Accounts.{issue_user_token}

-- CloudOAuthClientConfig
pub record Client : Type 0 where
  pub client_id : String
  pub client_secret : String
  pub redirect_url : String

pub record OauthCode : Type 0 where
  pub client_id : String
  pub redirect_url : String
  pub user_id : String
  pub expires_at : ℕ

-- The part of Handler that is used here.
pub record Handler : Type 0 where
  pub clients : List Client
  pub oauth_codes : String → Option OauthCode

pub data OauthError : Type 0 where
  method_not_allowed not_configured bad_response_type bad_authorization unauthorized : OauthError
  no_code bad_redirect bad_form bad_grant_type bad_token_request bad_code : OauthError
  auth_error : AuthError → OauthError

-- Ten minutes.
abbrev pub cloud_oauth_code_ttl : ℕ
cloud_oauth_code_ttl = 600000000000

abbrev pub set_code :
    (String → Option OauthCode) → String → Option OauthCode → String → Option OauthCode
set_code codes code value other = if other == code then value else codes other

unfoldable pub store_cloud_oauth_code : String → OauthCode → Handler → Handler
store_cloud_oauth_code code value h = record h {
  oauth_codes = set_code h.oauth_codes code (some value);
}

abbrev pub unexpired : ℕ → Option OauthCode → Option OauthCode
unexpired now none = none
unexpired now (some c) = if ltb now c.expires_at then some c else none

-- The code is deleted in any case.
unfoldable pub consume_cloud_oauth_code : String → ℕ → Handler → Handler × Option OauthCode
consume_cloud_oauth_code code now h = (
  record h { oauth_codes = set_code h.oauth_codes code none },
  unexpired now (h.oauth_codes code),
)

unfoldable pub cloud_oauth_client : List Client → String → String → Option Client
cloud_oauth_client [] id url = none
cloud_oauth_client (c ∷ cs) id url =
    let rest = cloud_oauth_client cs id url in
    if c.client_id == id && c.redirect_url == url then some c else rest

unfoldable pub valid_cloud_oauth_client_secret : List Client → String → String → String → Bool
unfolding cloud_oauth_client
valid_cloud_oauth_client_secret cs id url secret = elim (cloud_oauth_client cs id url) [
  | none ↦ false
  | some c ↦ c.client_secret == secret
]

abbrev pub has_clients : List Client → Bool
has_clients [] = false
has_clients (c ∷ cs) = true

-- A request of handleOAuthAuthorize, with what it meets.
pub record AuthorizeReq : Type 0 where
  pub method : String
  pub response_type : String
  pub client_id : String
  pub redirect_uri : String
  pub state : String
  pub claims : Option String
  pub random : Option String
  pub now : ℕ
  pub with_query : String → String → String → Option String

abbrev pub new_code : AuthorizeReq → Client → String → OauthCode
new_code q c user_id = record {
  client_id = trim_space q.client_id;
  redirect_url = c.redirect_url;
  user_id = user_id;
  expires_at = q.now + cloud_oauth_code_ttl;
}

-- The end of handleOAuthAuthorize, for a client and a user.
unfoldable pub grant_code :
    AuthorizeReq → Client → String → Handler → Handler × Result OauthError String
unfolding store_cloud_oauth_code trim_space
grant_code q c user_id h = elim q.random [
  | none ↦ (h, err no_code)
  | some code ↦ (
    store_cloud_oauth_code code (new_code q c user_id) h,
    elim (q.with_query c.redirect_url code (trim_space q.state)) [
      | none ↦ err bad_redirect
      | some url ↦ ok url
    ],
  )
]

abbrev pub grant_to :
    AuthorizeReq → Option Client → Option String → Handler → Handler × Result OauthError String
grant_to q none claims h = (h, err bad_authorization)
grant_to q (some c) none h =
    (h, err (if trim_space q.state == "" then bad_authorization else unauthorized))
grant_to q (some c) (some user_id) h =
    if trim_space q.state == "" then (h, err bad_authorization) else grant_code q c user_id h

unfoldable pub authorize : AuthorizeReq → Handler → Handler × Result OauthError String
unfolding grant_code cloud_oauth_client trim_space
authorize q h =
    if not (q.method == "GET" || q.method == "POST")
    then (h, err method_not_allowed)
    else if not (has_clients h.clients)
    then (h, err not_configured)
    else if not (q.response_type == "code")
    then (h, err bad_response_type)
    else grant_to q
        (cloud_oauth_client h.clients (trim_space q.client_id) (trim_space q.redirect_uri)) q.claims
        h

-- A request of handleOAuthToken, with what it meets.
pub record TokenReq : Type 0 where
  pub method : String
  pub form_parsed : Bool
  pub grant_type : String
  pub client_id : String
  pub client_secret : String
  pub redirect_uri : String
  pub code : String
  pub now : ℕ
  pub service : Service
  pub db : Db
  pub tables : Tables

unfoldable pub token_for : TokenReq → Option OauthCode → Result OauthError String
unfolding trim_space issue_user_token
token_for q none = err bad_code
token_for q (some c) =
    if not (c.client_id == trim_space q.client_id && c.redirect_url == trim_space q.redirect_uri)
    then err bad_code
    else elim (issue_user_token q.service q.db c.user_id q.tables).1 [
      | ok token ↦ ok token
      | err e ↦ err (auth_error e)
    ]

unfoldable pub exchange : TokenReq → Handler → Handler × Result OauthError String
unfolding consume_cloud_oauth_code token_for trim_space
exchange q h =
    let (h', stored) = consume_cloud_oauth_code (trim_space q.code) q.now h in
    (h', token_for q stored)

unfoldable pub token : TokenReq → Handler → Handler × Result OauthError String
unfolding exchange valid_cloud_oauth_client_secret trim_space
token q h =
    if not (q.method == "POST")
    then (h, err method_not_allowed)
    else if not (has_clients h.clients)
    then (h, err not_configured)
    else if not q.form_parsed
    then (h, err bad_form)
    else if not (q.grant_type == "authorization_code")
    then (h, err bad_grant_type)
    else if not (
        valid_cloud_oauth_client_secret h.clients (trim_space q.client_id)
          (trim_space q.redirect_uri) (trim_space q.client_secret))
    then (h, err bad_token_request)
    else exchange q h
