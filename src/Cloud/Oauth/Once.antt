-- ===== src/Cloud/Oauth/Once.antt =====
-- Any order of authorizations and exchanges after a code has been exchanged.
use term_bridge.Prelude.{
  String, Bool, true, false, not, ◌||◌, ◌==◌, eq_iff, ◌≡◌, ◌≢◌, refl, sym, ap, ◌∙◌, if◌then◌else◌,
  if_both, Option, none, some, Result, ok, err, arith,
}
use term_bridge.Prelude.Text.{trim_space}
use term_bridge.Cloud.Oauth.{
  Client, OauthCode, Handler, OauthError, store_cloud_oauth_code, consume_cloud_oauth_code,
  valid_cloud_oauth_client_secret, has_clients, AuthorizeReq, new_code, grant_code, grant_to,
  authorize, cloud_oauth_client, TokenReq, exchange, token, no_code, bad_redirect,
}
use term_bridge.Cloud.Oauth.Codes.{token-IsExchanged}

-- Requests in any order that do not make a code again.
pub data Later (code : String) : Handler → Handler → Type 0 where
  at_once : {h : Handler} → Later code h h
  authorizes :
      {h h' : Handler} (q : AuthorizeReq)
      → q.random ≢ some code
      → Later code (authorize q h).0 h'
      → Later code h h'
  exchanges : {h h' : Handler} (q : TokenReq) → Later code (token q h).0 h' → Later code h h'

abbrev IsGone : String → Handler → Type 0
IsGone code h = h.oauth_codes code ≡ none

module _ (code : String) where
  grant_code-IsGone :
      (q : AuthorizeReq) (c : Client) (user_id : String) (h : Handler)
      → q.random ≢ some code
      → IsGone code h
      → IsGone code (grant_code q c user_id h).0
  unfolding grant_code store_cloud_oauth_code
  grant_code-IsGone q c user_id h new gone = go q.random refl
    where
      go :
          (o : Option String)
          → q.random ≡ o
          → IsGone code
              (elim o as (λ _. Handler × Result OauthError String) [
                | none ↦ (h, err no_code)
                | some x ↦ (
                  store_cloud_oauth_code x (new_code q c user_id) h,
                  elim (q.with_query c.redirect_url x (trim_space q.state)) [
                    | none ↦ err bad_redirect
                    | some url ↦ ok url
                  ],
                )
              ]).0
      go none e = gone
      go (some x) e =
          if_both (λ y. y ≡ none) (code == x) (some (new_code q c user_id)) (h.oauth_codes code)
            (λ same. absurd (new (e ∙ ap some (sym ((eq_iff code x).0 same))))) (λ _. gone)

  grant_to-IsGone :
      (q : AuthorizeReq) (c : Option Client) (claims : Option String) (h : Handler)
      → q.random ≢ some code
      → IsGone code h
      → IsGone code (grant_to q c claims h).0
  grant_to-IsGone q none claims h new gone = gone
  grant_to-IsGone q (some c) none h new gone = gone
  grant_to-IsGone q (some c) (some user_id) h new gone =
      if_both (λ (x : Handler × Result OauthError String). IsGone code x.0)
        (trim_space q.state == "") _ _ (λ _. gone) (λ _. grant_code-IsGone q c user_id h new gone)

  authorize-IsGone :
      (q : AuthorizeReq) (h : Handler)
      → q.random ≢ some code
      → IsGone code h
      → IsGone code (authorize q h).0
  unfolding authorize
  authorize-IsGone q h new gone =
      let P : Handler × Result OauthError String → Type 0 = λ x. IsGone code x.0 in
      if_both P (not (q.method == "GET" || q.method == "POST")) _ _ (λ _. gone)
        (λ _.
          if_both P (not (has_clients h.clients)) _ _ (λ _. gone)
            (λ _.
              if_both P (not (q.response_type == "code")) _ _ (λ _. gone)
                (λ _.
                  grant_to-IsGone q
                    (cloud_oauth_client h.clients (trim_space q.client_id)
                      (trim_space q.redirect_uri))
                    q.claims h new gone)))

  token-IsGone : (q : TokenReq) (h : Handler) → IsGone code h → IsGone code (token q h).0
  unfolding token exchange consume_cloud_oauth_code
  token-IsGone q h gone =
      let P : Handler × Result OauthError String → Type 0 = λ x. IsGone code x.0 in
      if_both P (not (q.method == "POST")) _ _ (λ _. gone)
        (λ _.
          if_both P (not (has_clients h.clients)) _ _ (λ _. gone)
            (λ _.
              if_both P (not q.form_parsed) _ _ (λ _. gone)
                (λ _.
                  if_both P (not (q.grant_type == "authorization_code")) _ _ (λ _. gone)
                    (λ _.
                      if_both P
                        (not (
                          valid_cloud_oauth_client_secret h.clients (trim_space q.client_id)
                            (trim_space q.redirect_uri) (trim_space q.client_secret)))
                        _ _ (λ _. gone)
                        (λ _.
                          if_both (λ (y : Option OauthCode). y ≡ none) (code == trim_space q.code)
                            none (h.oauth_codes code) (λ _. refl) (λ _. gone))))))

  Later-IsGone : (h h' : Handler) → Later code h h' → IsGone code h → IsGone code h'
  Later-IsGone h h' at_once gone = gone
  Later-IsGone h h' (authorizes q new rest) gone =
      Later-IsGone (authorize q h).0 h' rest (authorize-IsGone q h new gone)
  Later-IsGone h h' (exchanges q rest) gone =
      Later-IsGone (token q h).0 h' rest (token-IsGone q h gone)

-- A code is exchanged once: after a successful exchange, and then any requests of which none makes the same code again, no request gets a token for this code.
pub token-once :
    (q q' : TokenReq) (h h1 h2 h3 : Handler) (t t' : String)
    → token q h ≡ (h1, ok t)
    → Later (trim_space q.code) h1 h2
    → trim_space q'.code ≡ trim_space q.code
    → token q' h2 ≢ (h3, ok t')
token-once q q' h h1 h2 h3 t t' e later same k =
    let (_, (_, _, _, _, after)) = token-IsExchanged q h h1 t e in
    let code = trim_space q.code in
    let deleted : IsGone code h1 =
      ap (λ x. x.oauth_codes code) after
      ∙ ap (λ b. if b then none else h.oauth_codes code) ((eq_iff code code).1 refl) in
    let gone = Later-IsGone code h1 h2 later deleted in
    let (_, (_, stored, _, _, _)) = token-IsExchanged q' h2 h3 t' k in
    absurd (ground (arith, ap is_some (sym gone ∙ ap h2.oauth_codes (sym same) ∙ stored)))
  where
    is_some : Option OauthCode → Bool
    is_some none = false
    is_some (some x) = true
