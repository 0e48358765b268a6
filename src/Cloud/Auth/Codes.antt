-- ===== src/Cloud/Auth/Codes.antt =====
-- The codes that service.go mails: when one is accepted, that it is accepted once, and that failing
-- tries are not counted.
use Prim.Native.String.{len}
use term_bridge.Prelude.{
  String, Bool, true, false, not, ◌&&◌, ◌||◌, ◌==◌, ltb, ◌≡◌, refl, sym, ap, subst, ◌∙◌, if_both,
  Option, none, some, Result, ok, err,
}
use term_bridge.Prelude.Text.{trim_space}
use term_bridge.Cloud.Auth.{
  AuthCode, Tables, Db, AuthError, Action, raise_if, ◌>>=◌, ◌>>◌, within_tx, normalize_email,
  update_where, update_codes, code_invalid, exec, select_code, not_found, db_failed,
  provider_unsupported, password_invalid, no_hash, Statement, status_enabled, provider_email,
  update_user, update_identity,
}
use term_bridge.Cloud.Auth.Queries.{
  latest, latest_code, used, mark_code_used, mark_email_verified, update_password,
}
use term_bridge.Cloud.Auth.Service.{
  Service, require_repository, validate_password, is_expired_or_used, check_hash, row_or_invalid,
  hash_code, verify_code_with_repo, use_code, verify_email, confirm_password_reset, or_raise,
  purpose_email_verification, purpose_password_reset,
}
use term_bridge.Cloud.Auth.Inversion.{
  bind-ok, raise_then, or_raise_then, within_tx-ok, exec-ok, ok-injective, err-ok,
}

-- A code that may be used at the time of the database, and has the hash of the input.
abbrev pub IsAccepted : Service → Db → String → String → String → AuthCode → Type 0
IsAccepted s db email purpose input c =
    (is_expired_or_used s db c ≡ false)
    × ((hash_code s db email purpose (s.upper (trim_space input)) == c.code_hash) ≡ true)

check_hash-ok :
    (s : Service) (db : Db) (d : AuthCode) (b : Bool) (t t' : Tables) (c : AuthCode)
    → check_hash s db d b t ≡ (t', ok c)
    → (b ≡ true) × (t' ≡ t) × (d ≡ c)
check_hash-ok s db d true t t' c h =
    (refl, sym (ap (λ y. y.0) h), ok-injective d c (ap (λ y. y.1) h))
check_hash-ok s db d false t t' c h = err-ok code_invalid c (ap (λ y. y.1) h)

some_found :
    (o : Option AuthCode) (d : AuthCode)
    → ◌≡◌ {A = Result AuthError AuthCode} (elim o [ none ↦ err not_found | some c ↦ ok c ]) (ok d)
    → o ≡ some d
some_found none d h = err-ok not_found d h
some_found (some c) d h = ap some (ok-injective c d h)

latest-found :
    (db : Db) (email purpose : String) (t : Tables) (d : AuthCode)
    → (latest_code db email purpose t).1 ≡ ok d
    → latest (normalize_email db email) purpose t.codes ≡ some d
unfolding latest_code
latest-found db email purpose t d =
    if_both (λ r. r ≡ ok d → latest (normalize_email db email) purpose t.codes ≡ some d)
      (db.fails select_code) (err db_failed) _ (λ _ h. err-ok db_failed d h)
      (λ _ h. some_found _ d h)

verify_code-ok :
    (s : Service) (db : Db) (email purpose input : String) (t t' : Tables) (c : AuthCode)
    → verify_code_with_repo s db email purpose input t ≡ (t', ok c)
    → (t' ≡ t)
      × (latest (normalize_email db email) purpose t.codes ≡ some c)
      × IsAccepted s db email purpose input c
unfolding verify_code_with_repo latest_code
verify_code-ok s db email purpose input t t' c h = go (latest_code db email purpose t).1 refl h
  where
    go :
        (r : Result AuthError AuthCode)
        → (latest_code db email purpose t).1 ≡ r
        → (row_or_invalid r >>= λ d.
              raise_if (is_expired_or_used s db d) code_invalid
              >> check_hash s db d
                  (hash_code s db email purpose (s.upper (trim_space input)) == d.code_hash))
            t
          ≡ (t', ok c)
        → (t' ≡ t)
          × (latest (normalize_email db email) purpose t.codes ≡ some c)
          × IsAccepted s db email purpose input c
    go (err e) q h = err-ok code_invalid c (ap (λ y. y.1) h)
    go (ok d) q h =
        let (open_code, h2) =
          raise_then (is_expired_or_used s db d) code_invalid
            (check_hash s db d
              (hash_code s db email purpose (s.upper (trim_space input)) == d.code_hash))
            t t' c h in
        let (same_hash, same_tables, same_code) = check_hash-ok s db d _ t t' c h2 in
        subst
          (λ x.
            (t' ≡ t)
            × (latest (normalize_email db email) purpose t.codes ≡ some x)
            × IsAccepted s db email purpose input x)
          same_code (same_tables, latest-found db email purpose t d q, (open_code, same_hash))

-- The tables after a change for the user of a code, which is marked as used.
abbrev pub with_used : Db → String → Tables → Tables
with_used db id t = record t { codes = update_where (λ c. c.id == id) (used db) t.codes }

-- A use of a code: the last code of the address, accepted and of a user, whose change was made.
abbrev pub IsUsed :
    Service
    → Db
    → String
    → String
    → String
    → (String → Tables → Tables)
    → Tables
    → Tables
    → AuthCode
    → Type 0
IsUsed s db email purpose input f t t' c =
    (latest (normalize_email db email) purpose t.codes ≡ some c)
    × IsAccepted s db email purpose input c
    × ((user_id : String) × (c.user_id ≡ some user_id) × (t' ≡ with_used db c.id (f user_id t)))

use_code-ok :
    (s : Service) (db : Db) (email purpose input : String) (st : Statement)
    (f : String → Tables → Tables) (t t' : Tables)
    → use_code s db email purpose input (λ u. exec db st (f u)) t ≡ (t', ok tt)
    → (c : AuthCode) × IsUsed s db email purpose input f t t' c
unfolding use_code mark_code_used
use_code-ok s db email purpose input st f t t' h =
    let (c, t1, q, h1) =
      bind-ok (verify_code_with_repo s db email purpose input)
        (λ c. or_raise c.user_id code_invalid >>= λ u. exec db st (f u) >> mark_code_used db c.id) t
        t' tt h in
    let (same, found, accepted) = verify_code-ok s db email purpose input t t1 c q in
    let (u, has_user, h2) =
      or_raise_then c.user_id code_invalid (λ u. exec db st (f u) >> mark_code_used db c.id) t1 t'
        tt h1 in
    let (_, t2, q2, h3) = bind-ok (exec db st (f u)) (λ _. mark_code_used db c.id) t1 t' tt h2 in
    (
      c,
      (
        found,
        accepted,
        (
          u,
          has_user,
          exec-ok db update_codes (with_used db c.id) t2 t' tt h3
              ∙ ap (with_used db c.id) (exec-ok db st (f u) t1 t2 _ q2 ∙ ap (f u) same),
        ),
      ),
    )

unfoldable pub set_verified : Db → String → Tables → Tables
unfolding update_where
set_verified db user_id t = record t {
  users =
      update_where (λ u. u.id == user_id)
        (λ u. record u {
          status = status_enabled;
          email_verified_at = some db.now;
          updated_at = db.now;
        })
        t.users;
}

unfoldable pub set_password : Db → String → String → Tables → Tables
unfolding update_where
set_password db hash user_id t = record t {
  identities =
      update_where (λ i. i.user_id == user_id && i.provider == provider_email)
        (λ i. record i { password_hash = some hash; updated_at = db.now }) t.identities;
}

-- VerifyEmail succeeds only with the last code that was made for the address: it is open, unexpired, below the limit of attempts, has the hash of the input and belongs to a user. It enables this user, marks the code as used, and changes nothing else but the time of the user's update.
pub verify_email-ok :
    (s : Service) (db : Db) (email code : String) (t t' : Tables)
    → verify_email s db email code t ≡ (t', ok tt)
    → (c : AuthCode) × IsUsed s db email purpose_email_verification code (set_verified db) t t' c
unfolding verify_email require_repository set_verified mark_email_verified
verify_email-ok s db email code t t' h =
    let step = use_code s db email purpose_email_verification code (mark_email_verified db) in
    let (_, h1) = raise_then (not s.has_repo) provider_unsupported (within_tx db step) t t' tt h in
    use_code-ok s db email purpose_email_verification code update_user (set_verified db) t t'
      (within_tx-ok db step t t' tt h1)

-- ConfirmPasswordReset succeeds only with a new password of an allowed length, and with the last reset code that was made for the address: it is open, unexpired, below the limit of attempts, has the hash of the input and belongs to a user. It sets the hash of the new password on this user's identity with an email, with the time of the update, marks the code as used, and changes nothing else.
pub confirm_password_reset-ok :
    (s : Service) (db : Db) (email code password : String) (t t' : Tables)
    → confirm_password_reset s db email code password t ≡ (t', ok tt)
    → ((ltb (len password) s.password_policy.min_length
          || ltb s.password_policy.max_length (len password))
        ≡ false)
      × ((hash : String) × (s.hash_password password ≡ some hash)
          × ((c : AuthCode) × IsUsed s db email purpose_password_reset code
                (set_password db hash)
                t
                t'
                c))
unfolding confirm_password_reset require_repository set_password update_password validate_password
confirm_password_reset-ok s db email code password t t' h =
    let step : String → Action (Unit {0}) =
      λ hash. use_code s db email purpose_password_reset code (λ u. update_password db u hash) in
    let long =
      ltb (len password) s.password_policy.min_length
      || ltb s.password_policy.max_length (len password) in
    let k : String → Action (Unit {0}) = λ hash. within_tx db (step hash) in
    let m : Action (Unit {0}) = or_raise (s.hash_password password) no_hash >>= k in
    let (_, h1) =
      raise_then (not s.has_repo) provider_unsupported (raise_if long password_invalid >> m) t t' tt
        h in
    let (allowed, h2) = raise_then long password_invalid m t t' tt h1 in
    let (hash, hashed, h3) = or_raise_then (s.hash_password password) no_hash k t t' tt h2 in
    (
      allowed,
      (
        hash,
        hashed,
        use_code-ok s db email purpose_password_reset code update_identity (set_password db hash) t
            t' (within_tx-ok db (step hash) t t' tt h3),
      ),
    )
