-- ===== src/Cloud/Auth/Tries.antt =====
-- Tries of the mailed codes, one after the other: VerifyEmail and ConfirmPasswordReset of service.go.
use Prim.Native.String.{len}
use term_bridge.Prelude.{
  String, Bool, true, false, not, ◌&&◌, ◌||◌, ◌==◌, ltb, ◌≡◌, refl, ap, ◌∙◌, if◌then◌else◌, if_both,
  Option, none, some, List, [], ◌∷◌, ok, err, arith, eq_iff,
}
use term_bridge.Cloud.Auth.{
  AuthCode, Tables, Db, AuthError, Action, raise_if, ◌>>=◌, ◌>>◌, within_tx, normalize_email,
  update_where, provider_unsupported, password_invalid, no_hash,
}
use term_bridge.Cloud.Auth.Queries.{
  is_none, is_code_for, newer, latest, used, mark_email_verified, update_password,
}
use term_bridge.Cloud.Auth.Service.{
  Service, require_repository, validate_password, use_code, verify_email, confirm_password_reset,
  or_raise, purpose_email_verification, purpose_password_reset,
}
use term_bridge.Cloud.Auth.Codes.{
  IsUsed, set_verified, set_password, verify_email-ok, confirm_password_reset-ok,
}
use term_bridge.Cloud.Auth.Inversion.{within_tx-err}

-- What `used` does to one code of an update.
abbrev pub marked : Db → String → AuthCode → AuthCode
marked db id c = if c.id == id then used db c else c

marked-same :
    (db : Db) (id : String) (c : AuthCode)
    → (marked db id c).email_normalized ≡ c.email_normalized
      × ((marked db id c).purpose ≡ c.purpose)
      × ((marked db id c).created_at ≡ c.created_at)
marked-same db id c =
    if_both
      (λ (x : AuthCode).
        (x.email_normalized ≡ c.email_normalized)
        × (x.purpose ≡ c.purpose)
        × (x.created_at ≡ c.created_at))
      (c.id == id) (used db c) c (λ _. (refl, refl, refl)) (λ _. (refl, refl, refl))

unfoldable pub mark_option : Db → String → Option AuthCode → Option AuthCode
mark_option db id none = none
mark_option db id (some c) = some (marked db id c)

newer-marked :
    (db : Db) (id : String) (c : AuthCode) (o : Option AuthCode)
    → newer (marked db id c) (mark_option db id o) ≡ mark_option db id (newer c o)
unfolding mark_option
newer-marked db id c none = refl
newer-marked db id c (some d) =
    let (_, _, e) = marked-same db id c in
    let (_, _, f) = marked-same db id d in
    ap (λ b. if b then some (marked db id d) else some (marked db id c))
      (ap (λ x. ltb x (marked db id d).created_at) e ∙ ap (λ x. ltb c.created_at x) f)
    ∙ if_both
        (λ (x : Option AuthCode).
          (if ltb c.created_at d.created_at then some (marked db id d) else some (marked db id c))
          ≡ mark_option db id x)
        (ltb c.created_at d.created_at) (some d) (some c) (λ y. rw y) (λ n. rw n)

is_code_for-marked :
    (db : Db) (id email purpose : String) (c : AuthCode)
    → is_code_for email purpose (marked db id c) ≡ is_code_for email purpose c
is_code_for-marked db id email purpose c =
    let (e, f, _) = marked-same db id c in
    ap (λ x. x == email && (marked db id c).purpose == purpose) e
    ∙ ap (λ x. c.email_normalized == email && x == purpose) f

pub latest-marked :
    (db : Db) (id email purpose : String) (cs : List AuthCode)
    → latest email purpose (update_where (λ c. c.id == id) (used db) cs)
      ≡ mark_option db id (latest email purpose cs)
unfolding latest update_where mark_option
latest-marked db id email purpose [] = refl
latest-marked db id email purpose (c ∷ cs) =
    let rest = latest email purpose cs in
    ap (λ r. if is_code_for email purpose (marked db id c) then newer (marked db id c) r else r)
      (latest-marked db id email purpose cs)
    ∙ ap
        (λ b. if b then newer (marked db id c) (mark_option db id rest) else mark_option db id rest)
        (is_code_for-marked db id email purpose c)
    ∙ if_both
        (λ x.
          (if is_code_for email purpose c
            then newer (marked db id c) (mark_option db id rest)
            else mark_option db id rest)
          ≡ mark_option db id x)
        (is_code_for email purpose c) (newer c rest) rest
        (λ y.
          ap
            (λ b.
              if b then newer (marked db id c) (mark_option db id rest) else mark_option db id rest)
            y
          ∙ newer-marked db id c rest)
        (λ n.
          ap
            (λ b.
              if b then newer (marked db id c) (mark_option db id rest) else mark_option db id rest)
            n)

-- A try of a code, by VerifyEmail or by ConfirmPasswordReset.
pub data Try : Type 0 where
  verify_try : Service → Db → String → String → Try
  reset_try : Service → Db → String → String → String → Try

unfoldable pub run_try : Try → Action (Unit {0})
run_try (verify_try s db email code) = verify_email s db email code
run_try (reset_try s db email code password) = confirm_password_reset s db email code password

unfoldable pub try_purpose : Try → String
try_purpose (verify_try s db email code) = purpose_email_verification
try_purpose (reset_try s db email code password) = purpose_password_reset

unfoldable pub try_address : Try → String
try_address (verify_try s db email code) = normalize_email db email
try_address (reset_try s db email code password) = normalize_email db email

-- The codes after a use of a code.
used_codes :
    (s : Service) (db : Db) (email purpose input : String) (f : String → Tables → Tables)
    (t t' : Tables) (c : AuthCode)
    → ((u : String) → (f u t).codes ≡ t.codes)
    → IsUsed s db email purpose input f t t' c
    → latest (normalize_email db email) purpose t'.codes ≡ some (used db c)
unfolding mark_option
used_codes s db email purpose input f t t' c kept (found, _, (u, _, after)) =
    ap (λ x. latest (normalize_email db email) purpose x.codes) after
    ∙ ap
        (λ x.
          latest (normalize_email db email) purpose (update_where (λ d. d.id == c.id) (used db) x))
        (kept u)
    ∙ latest-marked db c.id (normalize_email db email) purpose t.codes
    ∙ ap (mark_option db c.id) found
    ∙ ap (λ b. some (if b then used db c else c)) ((eq_iff c.id c.id).1 refl)

abbrev open_of : Option AuthCode → Bool
open_of none = false
open_of (some c) = is_none c.used_at

-- An action whose errors leave the tables as they are.
abbrev pub IsAtomic : Action (Unit {0}) → Type 0
IsAtomic m = (t : Tables) (e : AuthError) → (m t).1 ≡ err e → (m t).0 ≡ t

raise-IsAtomic :
    (b : Bool) (f : AuthError) (k : Action (Unit {0})) → IsAtomic k → IsAtomic (raise_if b f >> k)
raise-IsAtomic true f k atomic t e h = refl
raise-IsAtomic false f k atomic t e h = atomic t e h

or_raise-IsAtomic :
    {A : Type 0} (o : Option A) (f : AuthError) (k : A → Action (Unit {0}))
    → ((a : A) → IsAtomic (k a))
    → IsAtomic (or_raise o f >>= k)
or_raise-IsAtomic none f k atomic t e h = refl
or_raise-IsAtomic (some a) f k atomic t e h = atomic a t e h

pub run_try-IsAtomic : (x : Try) → IsAtomic (run_try x)
unfolding run_try verify_email confirm_password_reset require_repository validate_password
run_try-IsAtomic (verify_try s db email code) =
    let step = use_code s db email purpose_email_verification code (mark_email_verified db) in
    raise-IsAtomic (not s.has_repo) provider_unsupported (within_tx db step) (within_tx-err db step)
run_try-IsAtomic (reset_try s db email code password) =
    let k : String → Action (Unit {0}) = λ hash.
      within_tx db
        (use_code s db email purpose_password_reset code (λ u. update_password db u hash)) in
    let long =
      ltb (len password) s.password_policy.min_length
      || ltb s.password_policy.max_length (len password) in
    let m : Action (Unit {0}) = or_raise (s.hash_password password) no_hash >>= k in
    raise-IsAtomic (not s.has_repo) provider_unsupported (raise_if long password_invalid >> m) (
      raise-IsAtomic long password_invalid m (
        or_raise-IsAtomic (s.hash_password password) no_hash k (λ hash.
          within_tx-err db
            (use_code s db email purpose_password_reset code (λ u. update_password db u hash)))))

-- After a successful try, the last code of the address is used.
pub try_used :
    (x : Try) (t t' : Tables)
    → run_try x t ≡ (t', ok tt)
    → (db : Db) × (c : AuthCode) × (latest (try_address x) (try_purpose x) t'.codes
        ≡ some (used db c))
unfolding run_try try_address try_purpose set_verified set_password
try_used (verify_try s db email code) t t' h =
    let (c, u) = verify_email-ok s db email code t t' h in
    (
      db,
      c,
      used_codes s db email purpose_email_verification code (set_verified db) t t' c (λ _. refl) u,
    )
try_used (reset_try s db email code password) t t' h =
    let (_, (hash, _, (c, u))) = confirm_password_reset-ok s db email code password t t' h in
    (
      db,
      c,
      used_codes s db email purpose_password_reset code (set_password db hash) t t' c (λ _. refl) u,
    )

-- A successful try finds an open code.
pub try_open :
    (x : Try) (t t' : Tables)
    → run_try x t ≡ (t', ok tt)
    → (c : AuthCode) × (latest (try_address x) (try_purpose x) t.codes ≡ some c)
      × (is_none c.used_at ≡ true)
unfolding run_try try_address try_purpose
try_open (verify_try s db email code) t t' h =
    let (c, (found, (open_code, _), _)) = verify_email-ok s db email code t t' h in
    (c, found, ground (arith, open_code))
try_open (reset_try s db email code password) t t' h =
    let (_, (_, _, (c, (found, (open_code, _), _)))) =
      confirm_password_reset-ok s db email code password t t' h in
    (c, found, ground (arith, open_code))

-- Tries that fail, one after the other.
pub data FailedTries : Tables → Tables → Type 0 where
  no_tries : {t : Tables} → FailedTries t t
  failed_try :
      {t t' : Tables} (x : Try) (e : AuthError)
      → (run_try x t).1 ≡ err e
      → FailedTries (run_try x t).0 t'
      → FailedTries t t'

-- Failing tries, however many there are and of whatever codes, leave the tables as they were: no attempt is counted, since the count is taken back with the transaction of the try.
pub FailedTries-same : (t t' : Tables) → FailedTries t t' → t' ≡ t
unfolding run_try
FailedTries-same t t' no_tries = refl
FailedTries-same t t' (failed_try x e h rest) =
    FailedTries-same (run_try x t).0 t' rest ∙ run_try-IsAtomic x t e h
