-- ===== src/Cloud/Oauth/Codes.antt =====
-- What a code of the sign-in of other programs is exchanged for, and that it is exchanged once.
use term_bridge.Prelude.{
  ℕ, String, Bool, true, false, not, ◌&&◌, ◌==◌, ltb, ◌≡◌, refl, sym, ap, subst, if◌then◌else◌,
  if_both, Option, none, some, Result, ok, err, arith,
}
use term_bridge.Prelude.Text.{trim_space}
use term_bridge.Cloud.Auth.{User, AuthError, find_row}
use term_bridge.Cloud.Auth.Accounts.{issue_user_token}
use term_bridge.Cloud.Auth.Login.{issue_user_token-ok}
use term_bridge.Cloud.Oauth.{
  OauthCode, Handler, OauthError, set_code, unexpired, consume_cloud_oauth_code,
  valid_cloud_oauth_client_secret, has_clients, TokenReq, token_for, exchange, token,
  method_not_allowed, not_configured, bad_form, bad_grant_type, bad_token_request, bad_code,
  auth_error,
}

-- A code that a request may exchange.
abbrev pub IsFor : TokenReq → OauthCode → Type 0
IsFor q c =
    (ltb q.now c.expires_at ≡ true)
    × ((c.client_id == trim_space q.client_id) ≡ true)
    × ((c.redirect_url == trim_space q.redirect_uri) ≡ true)

-- The user of a code, for whom a token is signed.
abbrev pub IsSigned : TokenReq → OauthCode → String → Type 0
IsSigned q c t =
    (u : User) × (find_row (λ x. x.id == c.user_id) q.tables.users ≡ ok u)
    × (q.service.sign (record { sub = u.id; email = u.email_normalized; provider = u.provider })
        ≡ some t)

abbrev is_good : Result OauthError String → Bool
is_good (ok a) = true
is_good (err e) = false

err_token :
    {C : Type 0} (h h' : Handler) (e : OauthError) (t : String)
    → ◌≡◌ {A = Handler × Result OauthError String} (h, err e) (h', ok t)
    → C
err_token h h' e t q = absurd (ground (arith, ap (λ y. is_good y.1) q))

-- A check that does not refuse.
check-ok :
    (b : Bool) (h h' : Handler) (e : OauthError) (rest : Handler × Result OauthError String)
    (t : String)
    → (if b then (h, err e) else rest) ≡ (h', ok t)
    → (b ≡ false) × (rest ≡ (h', ok t))
check-ok true h h' e rest t q = err_token h h' e t q
check-ok false h h' e rest t q = (refl, q)

abbrev is_some : Option OauthCode → Bool
is_some none = false
is_some (some x) = true

abbrev code_or : OauthCode → Option OauthCode → OauthCode
code_or d none = d
code_or d (some c) = c

unexpired-some :
    (now : ℕ) (o : Option OauthCode) (c : OauthCode)
    → unexpired now o ≡ some c
    → (o ≡ some c) × (ltb now c.expires_at ≡ true)
unexpired-some now none c = λ q. absurd (ground (arith, ap is_some q))
unexpired-some now (some d) c =
    if_both (λ x. x ≡ some c → (some d ≡ some c) × (ltb now c.expires_at ≡ true))
      (ltb now d.expires_at) (some d) none
      (λ y q. (q, subst (λ x. ltb now x.expires_at ≡ true) (ap (code_or d) q) y))
      (λ _ q. absurd (ground (arith, ap is_some q)))

result_lem :
    (r : Result AuthError String) (t : String)
    → ◌≡◌ {A = Result OauthError String}
        (elim r [ ok x ↦ ok x | err e ↦ err (auth_error e) ])
        (ok t)
    → r ≡ ok t
result_lem (ok x) t q = ap ok (ap (text_or t) q)
  where
    text_or : String → Result OauthError String → String
    text_or y (ok z) = z
    text_or y (err e) = y
result_lem (err e) t q = absurd (ground (arith, ap is_good q))

token_for-ok :
    (q : TokenReq) (c : OauthCode) (t : String)
    → token_for q (some c) ≡ ok t
    → ((c.client_id == trim_space q.client_id) ≡ true)
      × ((c.redirect_url == trim_space q.redirect_uri) ≡ true)
      × IsSigned q c t
unfolding token_for
token_for-ok q c t =
    let good =
      c.client_id == trim_space q.client_id && c.redirect_url == trim_space q.redirect_uri in
    if_both
      (λ r.
        r ≡ ok t
        → ((c.client_id == trim_space q.client_id) ≡ true)
          × ((c.redirect_url == trim_space q.redirect_uri) ≡ true)
          × IsSigned q c t)
      (not good) (err bad_code) _ (λ _ e. absurd (ground (arith, ap is_good e)))
      (λ n e.
        let x = issue_user_token q.service q.db c.user_id q.tables in
        let (u, found, signed, _) =
          issue_user_token-ok q.service q.db c.user_id q.tables x.0 t
            (ap (λ r. (x.0, r)) (result_lem x.1 t e)) in
        (ground (arith, n), ground (arith, n), (u, found, signed)))

-- What a successful exchange has used.
abbrev pub IsExchanged : TokenReq → String → Handler → Handler → Type 0
IsExchanged q t h h' =
    (c : OauthCode) × (h.oauth_codes (trim_space q.code) ≡ some c)
    × IsFor q c
    × IsSigned q c t
    × (h' ≡ record h { oauth_codes = set_code h.oauth_codes (trim_space q.code) none })

exchange-ok :
    (q : TokenReq) (h h' : Handler) (t : String) → exchange q h ≡ (h', ok t) → IsExchanged q t h h'
unfolding exchange consume_cloud_oauth_code token_for
exchange-ok q h h' t e =
    go (unexpired q.now (h.oauth_codes (trim_space q.code))) refl (ap (λ x. x.1) e)
  where
    go :
        (o : Option OauthCode)
        → unexpired q.now (h.oauth_codes (trim_space q.code)) ≡ o
        → token_for q o ≡ ok t
        → IsExchanged q t h h'
    go none f k = absurd (ground (arith, ap is_good k))
    go (some c) f k =
        let (stored, fresh) = unexpired-some q.now (h.oauth_codes (trim_space q.code)) c f in
        let (same_client, same_url, signed) = token_for-ok q c t k in
        (c, stored, (fresh, same_client, same_url), signed, sym (ap (λ x. x.0) e))

-- handleOAuthToken gives a token only to a configured client with its secret and redirect URL, for a code that is stored for this client and URL and has not expired. The token is signed for the user of the code, and the code, and no other, is deleted.
pub token-IsExchanged :
    (q : TokenReq) (h h' : Handler) (t : String)
    → token q h ≡ (h', ok t)
    → (valid_cloud_oauth_client_secret h.clients
          (trim_space q.client_id)
          (trim_space q.redirect_uri)
          (trim_space q.client_secret)
        ≡ true)
      × IsExchanged q t h h'
unfolding token
token-IsExchanged q h h' t e =
    let secret =
      valid_cloud_oauth_client_secret h.clients (trim_space q.client_id) (trim_space q.redirect_uri)
        (trim_space q.client_secret) in
    let r4 : Handler × Result OauthError String =
      if not secret then (h, err bad_token_request) else exchange q h in
    let r3 : Handler × Result OauthError String =
      if not (q.grant_type == "authorization_code") then (h, err bad_grant_type) else r4 in
    let r2 : Handler × Result OauthError String =
      if not q.form_parsed then (h, err bad_form) else r3 in
    let r1 : Handler × Result OauthError String =
      if not (has_clients h.clients) then (h, err not_configured) else r2 in
    let (_, e1) = check-ok (not (q.method == "POST")) h h' method_not_allowed r1 t e in
    let (_, e2) = check-ok (not (has_clients h.clients)) h h' not_configured r2 t e1 in
    let (_, e3) = check-ok (not q.form_parsed) h h' bad_form r3 t e2 in
    let (_, e4) =
      check-ok (not (q.grant_type == "authorization_code")) h h' bad_grant_type r4 t e3 in
    let (good, e5) = check-ok (not secret) h h' bad_token_request (exchange q h) t e4 in
    (ground (arith, good), exchange-ok q h h' t e5)
