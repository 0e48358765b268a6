-- ===== src/Cloud/Auth/Once.antt =====
-- A mailed code after it has been accepted. The transactions of the calls follow each other; those
-- that overlap in the database are not described.
use term_bridge.Prelude.{
  String, Bool, false, ◌==◌, ◌≡◌, ◌≢◌, refl, sym, ap, ◌∙◌, if_both, Option, none, some, Result, ok,
  err, arith,
}
use term_bridge.Cloud.Auth.{Tables, Db, AuthError, AuthCode, update_where}
use term_bridge.Cloud.Auth.Queries.{latest, is_none, used}
use term_bridge.Cloud.Auth.Service.{Service, purpose_email_verification, purpose_password_reset}
use term_bridge.Cloud.Auth.Codes.{
  IsUsed, set_verified, set_password, verify_email-ok, confirm_password_reset-ok,
}
use term_bridge.Cloud.Auth.Tries.{
  Try, verify_try, reset_try, run_try, try_purpose, try_address, try_used, try_open,
  run_try-IsAtomic, marked, mark_option, latest-marked,
}

-- What happens until there is a new code: tries of any codes, successful or not, and any changes that leave the last code of the address and purpose as it is.
pub data Later (address purpose : String) : Tables → Tables → Type 0 where
  at_once : {t : Tables} → Later address purpose t t
  tried :
      {t t' : Tables} (x : Try)
      → Later address purpose (run_try x t).0 t'
      → Later address purpose t t'
  changed :
      {t t1 t' : Tables}
      → latest address purpose t1.codes ≡ latest address purpose t.codes
      → Later address purpose t1 t'
      → Later address purpose t t'

-- The last code of the address is used.
abbrev IsSpent : String → String → Tables → Type 0
IsSpent address purpose t =
    (c : AuthCode) × (latest address purpose t.codes ≡ some c) × (is_none c.used_at ≡ false)

module _ (address purpose : String) where
  use-IsSpent :
      (s : Service) (db : Db) (email p input : String) (f : String → Tables → Tables)
      (t t' : Tables) (c : AuthCode)
      → ((u : String) → (f u t).codes ≡ t.codes)
      → IsUsed s db email p input f t t' c
      → IsSpent address purpose t
      → IsSpent address purpose t'
  unfolding mark_option
  use-IsSpent s db email p input f t t' c kept (_, _, (u, _, after)) (d, found, spent) = (
    marked db c.id d,
    ap (λ x. latest address purpose x.codes) after
        ∙ ap (λ x. latest address purpose (update_where (λ e. e.id == c.id) (used db) x)) (kept u)
        ∙ latest-marked db c.id address purpose t.codes
        ∙ ap (mark_option db c.id) found,
    if_both (λ (x : AuthCode). is_none x.used_at ≡ false) (d.id == c.id) (used db d) d (λ _. refl)
        (λ _. spent),
  )

  success-IsSpent :
      (x : Try) (t t' : Tables)
      → run_try x t ≡ (t', ok tt)
      → IsSpent address purpose t
      → IsSpent address purpose t'
  unfolding run_try set_verified set_password
  success-IsSpent (verify_try s db email code) t t' h spent =
      let (c, u) = verify_email-ok s db email code t t' h in
      use-IsSpent s db email purpose_email_verification code (set_verified db) t t' c (λ _. refl) u
        spent
  success-IsSpent (reset_try s db email code password) t t' h spent =
      let (_, (hash, _, (c, u))) = confirm_password_reset-ok s db email code password t t' h in
      use-IsSpent s db email purpose_password_reset code (set_password db hash) t t' c (λ _. refl) u
        spent

  try-IsSpent :
      (x : Try) (t : Tables) → IsSpent address purpose t → IsSpent address purpose (run_try x t).0
  try-IsSpent x t (c, found, spent) = go (run_try x t).1 refl
    where
      go :
          (r : Result AuthError (Unit {0}))
          → (run_try x t).1 ≡ r
          → IsSpent address purpose (run_try x t).0
      go (ok u) e =
          success-IsSpent x t (run_try x t).0 (ap (λ r. ((run_try x t).0, r)) e) (c, found, spent)
      go (err f) e =
          (c, ap (λ y. latest address purpose y.codes) (run_try-IsAtomic x t f e) ∙ found, spent)

  Later-IsSpent :
      (t t' : Tables)
      → Later address purpose t t'
      → IsSpent address purpose t
      → IsSpent address purpose t'
  Later-IsSpent t t' at_once h = h
  Later-IsSpent t t' (tried x rest) h = Later-IsSpent (run_try x t).0 t' rest (try-IsSpent x t h)
  Later-IsSpent t t' (changed {t1 = t1} same rest) (c, found, spent) =
      Later-IsSpent t1 t' rest (c, same ∙ found, spent)

abbrev open_of : Option AuthCode → Bool
open_of none = false
open_of (some c) = is_none c.used_at

-- A code is accepted once: after a try that succeeds, no try for the same purpose and address succeeds until there is a new code, whatever codes are tried and whatever else changes before, with whatever service, clock and database. The transactions of the tries follow each other.
pub run_try-once :
    (x y : Try) (t t' t2 t3 : Tables)
    → try_purpose x ≡ try_purpose y
    → try_address x ≡ try_address y
    → run_try x t ≡ (t', ok tt)
    → Later (try_address x) (try_purpose x) t' t2
    → run_try y t2 ≢ (t3, ok tt)
run_try-once x y t t' t2 t3 e f h later k =
    let (db, c, last) = try_used x t t' h in
    let (spent, at, closed) =
      Later-IsSpent (try_address x) (try_purpose x) t' t2 later (used db c, last, refl) in
    let (d, found, open_code) = try_open y t2 t3 k in
    let same =
      sym at
      ∙ ap (λ a. latest a (try_purpose x) t2.codes) f
      ∙ ap (λ p. latest (try_address y) p t2.codes) e
      ∙ found in
    let bad : open_of (some spent) ≡ open_of (some d) = ap open_of same in
    absurd (ground (arith, bad, open_code, closed))
