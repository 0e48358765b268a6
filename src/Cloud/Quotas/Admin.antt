-- ===== src/Cloud/Quotas/Admin.antt =====
-- internal/cloud/api/handler/quota.go: the handlers of quotas, and who is an administrator.
use term_bridge.Prelude.{
  String, Bool, true, false, not, ◌&&◌, ◌||◌, ◌==◌, leb, if◌then◌else◌, Option, none, some, List,
  [], ◌∷◌, Result, ok, err, ℤ, pos, negsuc,
}
use term_bridge.Prelude.Text.{trim_space}
use term_bridge.Cloud.Auth.{AuthError}
use term_bridge.Cloud.Auth.Accounts.{UserView, user_from_claims}
use term_bridge.Cloud.Quotas.{
  LimitTable, QuotaConfig, QuotaReplyError, QuotaSummary, QuotaWorld, bad_request, delete_limit,
  forbidden, internal, key_concurrent_attaches, method_not_allowed, no_repository, not_found,
  out_of_range, quota_summary_for, unauthorized, upsert_limit,
}

unfoldable pub has_admin_id : List String → String → Bool
unfolding trim_space
has_admin_id [] user = false
has_admin_id (id ∷ ids) user = trim_space id == user || has_admin_id ids user

unfoldable pub has_admin_email : QuotaWorld → List String → String → Bool
unfolding trim_space
has_admin_email w [] email = false
has_admin_email w (a ∷ rest) email =
    (not (email == "") && email == w.lower (trim_space a)) || has_admin_email w rest email

abbrev pub email_is_admin : QuotaConfig → QuotaWorld → Result AuthError UserView → Bool
email_is_admin c w (err e) = false
email_is_admin c w (ok u) = has_admin_email w c.admin_emails (w.lower (trim_space u.email))

unfoldable pub user_is_admin : QuotaConfig → QuotaWorld → String → Bool
unfolding has_admin_email user_from_claims
user_is_admin c w user = elim c.auth_service [
  | none ↦ false
  | some s ↦
      email_is_admin c w
        (user_from_claims s w.db (record { sub = user; email = ""; provider = "" }) w.tables).1
]

abbrev pub has_emails : List String → Bool
has_emails [] = false
has_emails (e ∷ es) = true

unfoldable pub is_admin : QuotaConfig → QuotaWorld → String → Bool
unfolding has_admin_id user_is_admin trim_space
is_admin c w user =
    has_admin_id c.admin_user_ids (trim_space user)
    || (has_emails c.admin_emails && user_is_admin c w (trim_space user))

-- A request of handleAdminUserQuota; `parts` are those of its path behind /api/admin/users/.
pub record AdminQuotaReq : Type 0 where
  pub claims : Option String
  pub parts : List String
  pub method : String
  pub body : Option ℤ

-- The user of a path with two parts of which the second is "quota".
unfoldable pub quota_user : List String → Option String
unfolding trim_space
quota_user [] = none
quota_user (u ∷ []) = none
quota_user (u ∷ q ∷ []) =
    if q == "quota" && not (trim_space u == "") then some (trim_space u) else none
quota_user (u ∷ q ∷ p ∷ ps) = none

abbrev pub in_range : ℤ → Bool
in_range (pos n) = leb 1 n && leb n 256
in_range (negsuc n) = false

-- The reply after a write of the table.
abbrev pub after_write :
    QuotaConfig
    → QuotaWorld
    → String
    → LimitTable × Bool
    → LimitTable × Result QuotaReplyError QuotaSummary
after_write c w user (limits, false) = (limits, err internal)
after_write c w user (limits, true) = (limits, quota_summary_for c w limits user)

abbrev pub put_limit :
    QuotaConfig
    → QuotaWorld
    → String
    → Option ℤ
    → LimitTable
    → LimitTable × Result QuotaReplyError QuotaSummary
put_limit c w user none limits = (limits, err bad_request)
put_limit c w user (some v) limits =
    if not (in_range v)
    then (limits, err out_of_range)
    else after_write c w user (upsert_limit w user key_concurrent_attaches v limits)

unfoldable pub quota_method :
    QuotaConfig
    → QuotaWorld
    → AdminQuotaReq
    → String
    → LimitTable
    → LimitTable × Result QuotaReplyError QuotaSummary
unfolding quota_summary_for upsert_limit delete_limit
quota_method c w q user limits =
    if q.method == "GET"
    then (limits, quota_summary_for c w limits user)
    else if q.method == "PUT"
    then if not c.has_repository
      then (limits, err no_repository)
      else put_limit c w user q.body limits
    else if q.method == "DELETE"
    then if not c.has_repository
      then (limits, err no_repository)
      else after_write c w user (delete_limit w user key_concurrent_attaches limits)
    else (limits, err method_not_allowed)

abbrev pub quota_of_user :
    QuotaConfig
    → QuotaWorld
    → AdminQuotaReq
    → Option String
    → LimitTable
    → LimitTable × Result QuotaReplyError QuotaSummary
quota_of_user c w q none limits = (limits, err not_found)
quota_of_user c w q (some user) limits = quota_method c w q user limits

abbrev pub quota_for :
    QuotaConfig
    → QuotaWorld
    → AdminQuotaReq
    → Option String
    → LimitTable
    → LimitTable × Result QuotaReplyError QuotaSummary
quota_for c w q none limits = (limits, err unauthorized)
quota_for c w q (some sub) limits =
    if not (is_admin c w sub)
    then (limits, err forbidden)
    else quota_of_user c w q (quota_user q.parts) limits

unfoldable pub handle_admin_user_quota :
    QuotaConfig
    → QuotaWorld
    → AdminQuotaReq
    → LimitTable
    → LimitTable × Result QuotaReplyError QuotaSummary
unfolding quota_method is_admin quota_user
handle_admin_user_quota c w q limits = quota_for c w q q.claims limits

-- handleMyQuota
unfoldable pub handle_my_quota :
    QuotaConfig
    → QuotaWorld
    → String
    → Option String
    → LimitTable
    → Result QuotaReplyError QuotaSummary
unfolding quota_summary_for
handle_my_quota c w method claims limits =
    if not (method == "GET")
    then err method_not_allowed
    else elim claims [ none ↦ err unauthorized | some sub ↦ quota_summary_for c w limits sub ]
