-- ===== src/Cloud/Quotas/Limits.antt =====
-- Who changes limits, which of them, and the range that they stay in.
use term_bridge.Prelude.{
  String, Bool, true, false, not, ◌&&◌, ◌==◌, ◌≡◌, refl, sym, ap, subst, ◌⊎◌, inl, inr,
  if◌then◌else◌, if_both, Option, none, some, Result, ok, err, ℤ, arith,
}
use term_bridge.Prelude.Text.{trim_space}
use term_bridge.Cloud.Quotas.{
  key_concurrent_attaches, LimitTable, QuotaConfig, QuotaWorld, QuotaReplyError, set_limit,
  upsert_limit, delete_limit, QuotaSummary,
}
use term_bridge.Cloud.Quotas.Admin.{
  is_admin, AdminQuotaReq, quota_user, in_range, after_write, put_limit, quota_method,
  quota_of_user, quota_for, handle_admin_user_quota,
}

abbrev is_error : Result QuotaReplyError QuotaSummary → Bool
is_error (ok s) = false
is_error (err e) = true

-- The limits after a change for one user.
abbrev pub IsOnlyFor : String → LimitTable → LimitTable → Type 0
IsOnlyFor user limits limits' =
    (u k : String)
    → (u == trim_space user && k == trim_space key_concurrent_attaches) ≡ false
    → limits' u k ≡ limits u k

-- Values that limits may have.
abbrev pub InRange : LimitTable → Type 0
InRange limits = (u k : String) (v : ℤ) → limits u k ≡ some v → in_range v ≡ true

-- What a handler that knows the user does to the limits.
abbrev IsChange : String → LimitTable → LimitTable → Type 0
IsChange user limits limits' = IsOnlyFor user limits limits' × (InRange limits → InRange limits')

no-IsChange : (user : String) (limits : LimitTable) → IsChange user limits limits
no-IsChange user limits = (λ u k n. refl, λ h. h)

abbrev value_or : ℤ → Option ℤ → ℤ
value_or d none = d
value_or d (some v) = v

set_limit-IsChange :
    (user : String) (limits : LimitTable) (o : Option ℤ)
    → ((v : ℤ) → o ≡ some v → in_range v ≡ true)
    → IsChange user limits
        (set_limit limits (trim_space user) (trim_space key_concurrent_attaches) o)
set_limit-IsChange user limits o good = (
  λ u k n. ap (λ b. if b then o else limits u k) n,
  λ h u k v.
      if_both (λ x. x ≡ some v → in_range v ≡ true)
        (u == trim_space user && k == trim_space key_concurrent_attaches) o (limits u k)
        (λ _ e. good v e) (λ _ e. h u k v e),
)

after_write-same :
    (c : QuotaConfig) (w : QuotaWorld) (user : String) (x : LimitTable × Bool)
    → (after_write c w user x).0 ≡ x.0
after_write-same c w user (limits, false) = refl
after_write-same c w user (limits, true) = refl

module _ (c : QuotaConfig) (w : QuotaWorld) where
  put_limit-IsChange :
      (user : String) (o : Option ℤ) (limits : LimitTable)
      → IsChange user limits (put_limit c w user o limits).0
  unfolding upsert_limit
  put_limit-IsChange user none limits = no-IsChange user limits
  put_limit-IsChange user (some v) limits =
      if_both (λ (x : LimitTable × Result QuotaReplyError QuotaSummary). IsChange user limits x.0)
        (not (in_range v)) _ _ (λ _. no-IsChange user limits)
        (λ n.
          subst (IsChange user limits)
            (sym (after_write-same c w user (upsert_limit w user key_concurrent_attaches v limits)))
            (if_both (λ (x : LimitTable × Bool). IsChange user limits x.0) w.write_fails _ _
              (λ _. no-IsChange user limits)
              (λ _.
                set_limit-IsChange user limits (some v) (λ v' e.
                  subst (λ x. in_range x ≡ true) (ap (value_or v) e) (ground (arith, n))))))

  delete_limit-IsChange :
      (user : String) (limits : LimitTable)
      → IsChange user limits
          (after_write c w user (delete_limit w user key_concurrent_attaches limits)).0
  unfolding delete_limit
  delete_limit-IsChange user limits =
      subst (IsChange user limits)
        (sym (after_write-same c w user (delete_limit w user key_concurrent_attaches limits)))
        (if_both (λ (x : LimitTable × Bool). IsChange user limits x.0) w.write_fails _ _
          (λ _. no-IsChange user limits)
          (λ _. set_limit-IsChange user limits none (λ v e. absurd (ground (arith, ap is_none e)))))
    where
      is_none : Option ℤ → Bool
      is_none none = true
      is_none (some v) = false

  quota_method-IsChange :
      (q : AdminQuotaReq) (user : String) (limits : LimitTable)
      → IsChange user limits (quota_method c w q user limits).0
  unfolding quota_method
  quota_method-IsChange q user limits =
      let P : LimitTable × Result QuotaReplyError QuotaSummary → Type 0 =
        λ x. IsChange user limits x.0 in
      if_both P (q.method == "GET") _ _ (λ _. no-IsChange user limits)
        (λ _.
          if_both P (q.method == "PUT") _ _
            (λ _.
              if_both P (not c.has_repository) _ _ (λ _. no-IsChange user limits)
                (λ _. put_limit-IsChange user q.body limits))
            (λ _.
              if_both P (q.method == "DELETE") _ _
                (λ _.
                  if_both P (not c.has_repository) _ _ (λ _. no-IsChange user limits)
                    (λ _. delete_limit-IsChange user limits))
                (λ _. no-IsChange user limits)))

  -- A request of an administrator about a user.
  abbrev pub IsByAdmin : AdminQuotaReq → LimitTable → LimitTable → Type 0
  IsByAdmin q limits limits' =
      (sub user : String) × (q.claims ≡ some sub)
      × (is_admin c w sub ≡ true)
      × (quota_user q.parts ≡ some user)
      × IsOnlyFor user limits limits'
      × (InRange limits → InRange limits')

  -- What a request may do to the limits: it is refused and changes nothing, or it is an administrator's.
  abbrev pub IsGuarded :
      AdminQuotaReq → LimitTable → LimitTable × Result QuotaReplyError QuotaSummary → Type 0
  IsGuarded q limits x = ((x.0 ≡ limits) × (is_error x.1 ≡ true)) ⊎ IsByAdmin q limits x.0

  -- A request to handleAdminUserQuota is answered with an error and changes no limit, or it comes from an administrator and names a user. Then no limit of another user or with another key changes, and limits that all were from 1 to 256 still are.
  pub handle_admin_user_quota-IsGuarded :
      (q : AdminQuotaReq) (limits : LimitTable)
      → IsGuarded q limits (handle_admin_user_quota c w q limits)
  unfolding handle_admin_user_quota
  handle_admin_user_quota-IsGuarded q limits = by_claims q.claims refl
    where
      by_user :
          (sub : String)
          → q.claims ≡ some sub
          → is_admin c w sub ≡ true
          → (o : Option String) → quota_user q.parts ≡ o
          → IsGuarded q limits (quota_of_user c w q o limits)
      by_user sub e admin none f = inl (refl, refl)
      by_user sub e admin (some user) f =
          let (only, range) = quota_method-IsChange q user limits in
          inr (sub, user, e, admin, f, only, range)

      by_claims : (o : Option String) → q.claims ≡ o → IsGuarded q limits (quota_for c w q o limits)
      by_claims none e = inl (refl, refl)
      by_claims (some sub) e =
          if_both (IsGuarded q limits) (not (is_admin c w sub)) _ _ (λ _. inl (refl, refl))
            (λ n. by_user sub e (ground (arith, n)) (quota_user q.parts) refl)
