-- ===== src/Cloud/Auth.antt =====
-- internal/cloud/repository/user/auth/repository.go: the tables of accounts and the queries on them.
-- A table is the list of its rows, newest first; what the database answers besides, whether a
-- statement, a begin or a commit fails, is an argument, and so are new ids and the clock. Texts are
-- equal as the queries compare them. Times are nanoseconds.
pub mod Queries
pub mod Service
pub mod Accounts
pub mod Inversion
pub mod Codes
pub mod Tries
pub mod Once
pub mod Login
pub mod External
mod Tests
use term_bridge.Prelude.{
  ℕ, ◌+◌, String, Bool, true, false, ◌&&◌, ◌==◌, ltb, leb, eqb, if◌then◌else◌, Option, none, some,
  List, [], ◌∷◌, length, Result, ok, err,
}
use term_bridge.Prelude.Text.{trim_space}

pub record User : Type 0 where
  pub id : String
  pub provider : String
  pub email_normalized : String
  pub display_name : String
  pub status : String
  pub email_verified_at : Option ℕ
  pub last_login_at : Option ℕ
  pub updated_at : ℕ

pub record Identity : Type 0 where
  pub id : String
  pub user_id : String
  pub provider : String
  pub provider_subject : String
  pub password_hash : Option String
  pub oauth_email : Option String
  pub updated_at : ℕ

pub record AuthCode : Type 0 where
  pub id : String
  pub user_id : Option String
  pub email_normalized : String
  pub purpose : String
  pub code_hash : String
  pub expires_at : ℕ
  pub attempts : ℕ
  pub used_at : Option ℕ
  pub invalidated_at : Option ℕ
  pub created_at : ℕ

pub record OauthState : Type 0 where
  pub state : String
  pub provider : String
  pub expires_at : ℕ
  pub used_at : Option ℕ

pub record EmailLog : Type 0 where
  pub email_normalized : String
  pub purpose : String
  pub provider_message_id : String
  pub status : String
  pub response_body : String

pub record Tables : Type 0 where
  pub users : List User
  pub identities : List Identity
  pub codes : List AuthCode
  pub states : List OauthState
  pub logs : List EmailLog

pub data Statement : Type 0 where
  select_user select_identity select_code insert_user insert_identity insert_code insert_log
        insert_state update_user update_identity update_codes update_state :
      Statement

pub data IdFor : Type 0 where
  for_user for_identity for_code for_log : IdFor

-- The database, the clock and the case of letters at one call.
pub record Db : Type 0 where
  pub fails : Statement → Bool
  pub begin_fails : Bool
  pub commit_fails : Bool
  pub new_id : IdFor → Option String
  pub now : ℕ
  pub lower : String → String

pub data AuthError : Type 0 where
  invalid_credentials email_not_verified email_already_used code_invalid code_cooldown : AuthError
  password_invalid password_unchanged provider_unsupported oauth_disabled mail_disabled : AuthError
  not_found db_failed no_id no_hash no_random send_failed no_token no_exchange : AuthError

abbrev pub provider_email : String
provider_email = "email"

abbrev pub status_pending : String
status_pending = "pending_verification"

abbrev pub status_enabled : String
status_enabled = "enabled"

-- What a call does to the tables, and its result.
abbrev pub Action : Type 0 → Type 0
Action A = Tables → Tables × Result AuthError A

abbrev pub pure : {A : Type 0} → A → Action A
pure a t = (t, ok a)

abbrev pub raise : {A : Type 0} → AuthError → Action A
raise e t = (t, err e)

infixl 5 ◌>>=◌ ◌>>◌
abbrev pub ◌>>=◌ : {A B : Type 0} → Action A → (A → Action B) → Action B
◌>>=◌ m f t = let (t', r) = m t in elim r [ ok a ↦ f a t' | err e ↦ (t', err e) ]

abbrev pub ◌>>◌ : {B : Type 0} → Action (Unit {0}) → Action B → Action B
m >> k = m >>= λ _. k

abbrev pub raise_if : Bool → AuthError → Action (Unit {0})
raise_if b e t = (t, if b then err e else ok tt)

-- A query that reads.
abbrev pub reads : {A : Type 0} → (Tables → Result AuthError A) → Action A
reads f t = (t, f t)

-- The result of an action as a value, for the code that looks at its error.
abbrev pub attempt : {A : Type 0} → Action A → Action (Result AuthError A)
attempt m t = let (t', r) = m t in (t', ok r)

-- Repository.WithinTx: an error takes back what was done.
abbrev pub closed_tx :
    {A : Type 0} → Db → Tables → Tables × Result AuthError A → Tables × Result AuthError A
closed_tx db t (t', err e) = (t, err e)
closed_tx db t (t', ok a) = if db.commit_fails then (t, err db_failed) else (t', ok a)

unfoldable pub within_tx : {A : Type 0} → Db → Action A → Action A
within_tx db m t = if db.begin_fails then (t, err db_failed) else closed_tx db t (m t)

unfoldable pub normalize_email : Db → String → String
unfolding trim_space
normalize_email db email = db.lower (trim_space email)

unfoldable pub find_row : {A : Type 0} → (A → Bool) → List A → Result AuthError A
find_row p [] = err not_found
find_row p (x ∷ xs) = let rest = find_row p xs in if p x then ok x else rest

unfoldable pub update_where : {A : Type 0} → (A → Bool) → (A → A) → List A → List A
update_where p f [] = []
update_where p f (x ∷ xs) = (if p x then f x else x) ∷ update_where p f xs

unfoldable pub count_where : {A : Type 0} → (A → Bool) → List A → ℕ
count_where p [] = 0
count_where p (x ∷ xs) = let n = count_where p xs in if p x then 1 + n else n

-- A statement that may fail, and then does nothing.
abbrev pub exec : Db → Statement → (Tables → Tables) → Action (Unit {0})
exec db s f t = if db.fails s then (t, err db_failed) else (f t, ok tt)

abbrev pub query : {A : Type 0} → Db → Statement → (Tables → Result AuthError A) → Action A
query db s f t = (t, if db.fails s then err db_failed else f t)

abbrev pub take_id : Db → IdFor → Action String
take_id db k t = (t, elim (db.new_id k) [ none ↦ err no_id | some id ↦ ok id ])
