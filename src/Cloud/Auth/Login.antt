-- ===== src/Cloud/Auth/Login.antt =====
-- The sign-in with a password of service.go: what has been checked when it gives a token.
use term_bridge.Prelude.{
  String, Bool, true, false, not, ◌&&◌, ◌==◌, ◌≡◌, sym, ap, ◌∙◌, some, ok, arith,
}
use term_bridge.Cloud.Auth.{
  User, Identity, Tables, Db, AuthError, Action, ◌>>=◌, ◌>>◌, raise_if, normalize_email, find_row,
  update_where, provider_email, invalid_credentials, email_not_verified, provider_unsupported,
  no_token, update_user, select_user, select_identity,
}
use term_bridge.Cloud.Auth.Queries.{
  has_provider_email, find_user_by_email, find_user_by_id, find_identity_for_user,
  update_last_login,
}
use term_bridge.Cloud.Auth.Service.{Service, require_repository, or_error}
use term_bridge.Cloud.Auth.Accounts.{
  password_of, is_enabled_user, login_response, login, issue_user_token,
}
use term_bridge.Cloud.Auth.Inversion.{
  bind-ok, raise_then, query_then, or_raise_then, raise_if-ok, or_raise-ok, or_error-ok, exec-ok,
  query-ok,
}

-- The tables after a sign-in of a user.
unfoldable pub signed_in : Db → String → Tables → Tables
unfolding update_where
signed_in db user_id t = record t {
  users =
      update_where (λ u. u.id == user_id)
        (λ u. record u { last_login_at = some db.now; updated_at = db.now }) t.users;
}

-- A user of the tables, whose password is checked and whose address is verified.
abbrev pub IsKnown : Service → Db → String → String → Tables → User → Identity → Type 0
IsKnown s db email password t u i =
    (find_row (has_provider_email provider_email (normalize_email db email)) t.users ≡ ok u)
    × (find_row (λ j. j.user_id == u.id && j.provider == provider_email) t.identities ≡ ok i)
    × ((hash : String) × (i.password_hash ≡ some hash) × (s.check_password hash password ≡ true))
    × (is_enabled_user u ≡ true)

or_error_then :
    {A B : Type 0} (e : AuthError) (m : Action A) (k : A → Action B) (t t' : Tables) (b : B)
    → (or_error e m >>= k) t ≡ (t', ok b)
    → (a : A) × (t1 : Tables) × (m t ≡ (t1, ok a)) × (k a t1 ≡ (t', ok b))
or_error_then e m k t t' b h =
    let (a, t1, q, r) = bind-ok (or_error e m) k t t' b h in (a, t1, or_error-ok e m t t1 a q, r)

not-false : (b : Bool) → not b ≡ false → b ≡ true
not-false b h = ground (arith, h)

-- The last two steps of a sign-in.
pub sign_in-ok :
    (s : Service) (db : Db) (u : User) (t t' : Tables) (token : String)
    → (update_last_login db u.id >> login_response s u) t ≡ (t', ok token)
    → (s.sign (record { sub = u.id; email = u.email_normalized; provider = u.provider })
        ≡ some token)
      × (t' ≡ signed_in db u.id t)
unfolding update_last_login login_response signed_in
sign_in-ok s db u t t' token h =
    let (_, t1, q, r) =
      bind-ok (update_last_login db u.id) (λ _. login_response s u) t t' token h in
    let (same, signed) = or_raise-ok _ no_token t1 t' token r in
    (signed, same ∙ exec-ok db update_user (signed_in db u.id) t t1 _ q)

-- Login gives a token only when the address has a user with an email account, this user has an identity with a password that the given one is checked against, and the account is enabled and its address verified. The token is signed for this user, and besides the times of the user's last login and of the user's update no table is changed.
pub login-ok :
    (s : Service) (db : Db) (email password : String) (t t' : Tables) (token : String)
    → login s db email password t ≡ (t', ok token)
    → (u : User) × (i : Identity) × IsKnown s db email password t u i
      × (s.sign (record { sub = u.id; email = u.email_normalized; provider = u.provider })
          ≡ some token)
      × (t' ≡ signed_in db u.id t)
unfolding login require_repository find_user_by_email find_identity_for_user update_last_login
    login_response signed_in
login-ok s db email password t t' token h =
    let k5 : User → Action String = λ u. update_last_login db u.id >> login_response s u in
    let k4 : User → Action String =
      λ u. raise_if (not (is_enabled_user u)) email_not_verified >> k5 u in
    let k3 : User → String → Action String =
      λ u hash. raise_if (not (s.check_password hash password)) invalid_credentials >> k4 u in
    let k2 : User → Identity → Action String = λ u i. password_of i invalid_credentials >>= k3 u in
    let k1 : User → Action String =
      λ u. or_error invalid_credentials (find_identity_for_user db u.id provider_email) >>= k2 u in
    let k0 : Action String = or_error invalid_credentials (find_user_by_email db email) >>= k1 in
    let (_, t0, q0, h0) =
      or_error_then invalid_credentials (require_repository s) (λ _. k0) t t' token h in
    let (same0, _) = raise_if-ok (not s.has_repo) provider_unsupported t t0 _ q0 in
    let (u, t1, q1, h2) =
      or_error_then invalid_credentials (find_user_by_email db email) k1 t0 t' token h0 in
    let (same1, found) =
      query-ok db select_user
        (λ x. find_row (has_provider_email provider_email (normalize_email db email)) x.users) t0 t1
        u q1 in
    let (i, t2, q2, h3) =
      or_error_then invalid_credentials (find_identity_for_user db u.id provider_email) (k2 u) t1 t'
        token h2 in
    let (same2, with_identity) =
      query-ok db select_identity
        (λ x. find_row (λ j. j.user_id == u.id && j.provider == provider_email) x.identities) t1 t2
        i q2 in
    let (hash, has_hash, h4) =
      or_raise_then i.password_hash invalid_credentials (k3 u) t2 t' token h3 in
    let (checked, h5) =
      raise_then (not (s.check_password hash password)) invalid_credentials (k4 u) t2 t' token h4 in
    let (enabled, h6) =
      raise_then (not (is_enabled_user u)) email_not_verified (k5 u) t2 t' token h5 in
    let (signed, after) = sign_in-ok s db u t2 t' token h6 in
    (
      u,
      i,
      (
        ap (λ x. find_row (has_provider_email provider_email (normalize_email db email)) x.users)
              (sym same0)
            ∙ found,
        ap (λ x. find_row (λ j. j.user_id == u.id && j.provider == provider_email) x.identities)
              (sym (same1 ∙ same0))
            ∙ with_identity,
        (hash, has_hash, not-false _ checked),
        not-false _ enabled,
      ),
      signed,
      after ∙ ap (signed_in db u.id) (same2 ∙ same1 ∙ same0),
    )

-- A token that is issued is signed for the user with the id, and no table is changed.
pub issue_user_token-ok :
    (s : Service) (db : Db) (user_id : String) (t t' : Tables) (token : String)
    → issue_user_token s db user_id t ≡ (t', ok token)
    → (u : User) × (find_row (λ x. x.id == user_id) t.users ≡ ok u)
      × (s.sign (record { sub = u.id; email = u.email_normalized; provider = u.provider })
          ≡ some token)
      × (t' ≡ t)
unfolding issue_user_token require_repository find_user_by_id login_response
issue_user_token-ok s db user_id t t' token h =
    let k : User → Action String = λ u. login_response s u in
    let (_, h1) =
      raise_then (not s.has_repo) provider_unsupported (find_user_by_id db user_id >>= k) t t' token
        h in
    let (u, found, h2) =
      query_then db select_user (λ x. find_row (λ y. y.id == user_id) x.users) k t t' token h1 in
    let (same, signed) = or_raise-ok _ no_token t t' token h2 in (u, found, signed, same)
