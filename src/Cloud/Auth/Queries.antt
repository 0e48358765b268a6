-- ===== src/Cloud/Auth/Queries.antt =====
-- internal/cloud/repository/user/auth/repository.go: the queries on the tables of accounts.
use Prim.Native.String.{len, slice}
use term_bridge.Prelude.{
  ℕ, ◌+◌, String, Bool, true, false, ◌&&◌, ◌==◌, ltb, eqb, if◌then◌else◌, Option, none, some, List,
  [], ◌∷◌, ok, err,
}
use term_bridge.Prelude.Text.{trim_space}
use term_bridge.Cloud.Auth.{
  Action, AuthCode, Db, EmailLog, Identity, OauthState, User, count_where, db_failed, exec,
  find_row, for_code, for_identity, for_log, for_user, insert_code, insert_identity, insert_log,
  insert_state, insert_user, normalize_email, not_found, provider_email, pure, query, select_code,
  select_identity, select_user, status_enabled, status_pending, take_id, update_codes,
  update_identity, update_state, update_user, update_where, within_tx, ◌>>=◌, ◌>>◌,
}

abbrev pub has_provider_email : String → String → User → Bool
has_provider_email provider email u = u.provider == provider && u.email_normalized == email

unfoldable pub find_user_by_provider_email : Db → String → String → Action User
unfolding find_row normalize_email
find_user_by_provider_email db provider email =
    query db select_user
      (λ t. find_row (has_provider_email (trim_space provider) (normalize_email db email)) t.users)

unfoldable pub find_user_by_email : Db → String → Action User
unfolding find_user_by_provider_email
find_user_by_email db email = find_user_by_provider_email db provider_email email

unfoldable pub find_user_by_id : Db → String → Action User
unfolding find_row
find_user_by_id db id = query db select_user (λ t. find_row (λ u. u.id == id) t.users)

unfoldable pub find_identity : Db → String → String → Action Identity
unfolding find_row
find_identity db provider subject =
    query db select_identity
      (λ t. find_row (λ i. i.provider == provider && i.provider_subject == subject) t.identities)

unfoldable pub find_identity_for_user : Db → String → String → Action Identity
unfolding find_row
find_identity_for_user db user_id provider =
    query db select_identity
      (λ t. find_row (λ i. i.user_id == user_id && i.provider == provider) t.identities)

unfoldable pub mark_email_verified : Db → String → Action (Unit {0})
unfolding update_where
mark_email_verified db user_id = exec db update_user (λ t. record t {
  users =
      update_where (λ u. u.id == user_id)
        (λ u. record u {
          status = status_enabled;
          email_verified_at = some db.now;
          updated_at = db.now;
        })
        t.users;
})

unfoldable pub update_password : Db → String → String → Action (Unit {0})
unfolding update_where
update_password db user_id hash = exec db update_identity (λ t. record t {
  identities =
      update_where (λ i. i.user_id == user_id && i.provider == provider_email)
        (λ i. record i { password_hash = some hash; updated_at = db.now }) t.identities;
})

unfoldable pub update_last_login : Db → String → Action (Unit {0})
unfolding update_where
update_last_login db user_id = exec db update_user (λ t. record t {
  users =
      update_where (λ u. u.id == user_id)
        (λ u. record u { last_login_at = some db.now; updated_at = db.now }) t.users;
})

abbrev pub is_none : Option ℕ → Bool
is_none none = true
is_none (some n) = false

abbrev pub is_open : AuthCode → Bool
is_open c = is_none c.used_at && is_none c.invalidated_at

abbrev pub is_code_for : String → String → AuthCode → Bool
is_code_for email purpose c = c.email_normalized == email && c.purpose == purpose

abbrev pub newer : AuthCode → Option AuthCode → Option AuthCode
newer c none = some c
newer c (some d) = if ltb c.created_at d.created_at then some d else some c

-- ORDER BY created_at DESC LIMIT 1, where of equal times the row that was inserted last counts.
unfoldable pub latest : String → String → List AuthCode → Option AuthCode
latest email purpose [] = none
latest email purpose (c ∷ cs) =
    let rest = latest email purpose cs in if is_code_for email purpose c then newer c rest else rest

unfoldable pub latest_code : Db → String → String → Action AuthCode
unfolding latest normalize_email
latest_code db email purpose = query db select_code (λ t.
    elim (latest (normalize_email db email) purpose t.codes) [
      | none ↦ err not_found
      | some c ↦ ok c
    ])

abbrev pub invalidated : Db → AuthCode → AuthCode
invalidated db c = record c { invalidated_at = some db.now }

unfoldable pub invalidate_code : Db → String → Action (Unit {0})
unfolding update_where
invalidate_code db id =
    exec db update_codes (λ t. record t {
      codes = update_where (λ c. c.id == id && is_open c) (invalidated db) t.codes;
    })

unfoldable pub increment_code_attempts : Db → String → Action (Unit {0})
unfolding update_where
increment_code_attempts db id = exec db update_codes (λ t. record t {
  codes = update_where (λ c. c.id == id) (λ c. record c { attempts = c.attempts + 1 }) t.codes;
})

abbrev pub used : Db → AuthCode → AuthCode
used db c = record c { used_at = some db.now }

unfoldable pub mark_code_used : Db → String → Action (Unit {0})
unfolding update_where
mark_code_used db id =
    exec db update_codes
      (λ t. record t { codes = update_where (λ c. c.id == id) (used db) t.codes })

abbrev pub create_code_row : Db → Option String → String → String → String → ℕ → String → AuthCode
create_code_row db user_id email purpose hash expires id = record {
  id = id;
  user_id = user_id;
  email_normalized = email;
  purpose = purpose;
  code_hash = hash;
  expires_at = expires;
  attempts = 0;
  used_at = none;
  invalidated_at = none;
  created_at = db.now;
}

-- An open code of the same purpose is invalidated.
unfoldable pub create_code : Db → Option String → String → String → String → ℕ → Action String
unfolding normalize_email update_where
create_code db user_id email purpose hash expires = do
  exec db update_codes (λ t. record t {
    codes =
        update_where (λ c. is_code_for (normalize_email db email) purpose c && is_open c)
          (invalidated db) t.codes;
  })
  id ← take_id db for_code
  exec db insert_code (λ t. record t {
    codes = create_code_row db user_id (normalize_email db email) purpose hash expires id ∷ t.codes;
  })
  pure id

-- The body is cut to 2048 bytes.
unfoldable pub save_email_log : Db → EmailLog → Action (Unit {0})
unfolding normalize_email
save_email_log db log = do
  _ ← take_id db for_log
  exec db insert_log (λ t. record t {
    logs =
        record log {
          email_normalized = normalize_email db log.email_normalized;
          response_body =
              if ltb 2048 (len log.response_body)
              then slice log.response_body 0 2048
              else log.response_body;
        }
        ∷ t.logs;
  })

unfoldable pub create_user : Db → User → Identity → Action User
unfolding within_tx
create_user db u i = within_tx db (do
  exec db insert_user (λ t. record t { users = u ∷ t.users })
  exec db insert_identity (λ t. record t { identities = i ∷ t.identities })
  pure u)

unfoldable pub create_email_user : Db → String → String → Action User
unfolding create_user normalize_email
create_email_user db email hash = do
  user_id ← take_id db for_user
  identity_id ← take_id db for_identity
  create_user db
      (record {
        id = user_id;
        provider = provider_email;
        email_normalized = normalize_email db email;
        display_name = normalize_email db email;
        status = status_pending;
        email_verified_at = none;
        last_login_at = none;
        updated_at = db.now;
      })
      (record {
        id = identity_id;
        user_id = user_id;
        provider = provider_email;
        provider_subject = normalize_email db email;
        password_hash = some hash;
        oauth_email = none;
        updated_at = db.now;
      })

unfoldable pub create_external_user : Db → String → String → String → Action User
unfolding create_user normalize_email
create_external_user db provider email subject = do
  user_id ← take_id db for_user
  identity_id ← take_id db for_identity
  create_user db
      (record {
        id = user_id;
        provider = trim_space provider;
        email_normalized = normalize_email db email;
        display_name = normalize_email db email;
        status = status_enabled;
        email_verified_at = some db.now;
        last_login_at = none;
        updated_at = db.now;
      })
      (record {
        id = identity_id;
        user_id = user_id;
        provider = trim_space provider;
        provider_subject = subject;
        password_hash = none;
        oauth_email = some (normalize_email db email);
        updated_at = db.now;
      })

unfoldable pub create_oauth_state : Db → String → String → ℕ → Action (Unit {0})
unfolding trim_space
create_oauth_state db provider state expires = exec db insert_state (λ t. record t {
  states =
      record { state = state; provider = trim_space provider; expires_at = expires; used_at = none }
      ∷ t.states;
})

abbrev pub is_usable_state : Db → String → String → OauthState → Bool
is_usable_state db provider state s =
    s.state == state && s.provider == provider && is_none s.used_at && ltb db.now s.expires_at

-- Whether exactly one row was updated.
unfoldable pub use_oauth_state : Db → String → String → Action Bool
unfolding update_where count_where trim_space
use_oauth_state db provider state t =
    let usable = is_usable_state db (trim_space provider) state in
    if db.fails update_state then (t, err db_failed) else (
      record t { states = update_where usable (λ s. record s { used_at = some db.now }) t.states },
      ok (eqb (count_where usable t.states) 1),
    )
