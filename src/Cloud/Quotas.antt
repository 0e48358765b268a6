-- ===== src/Cloud/Quotas.antt =====
-- internal/cloud/api/handler/quota.go and internal/cloud/repository/user/quota/repository.go: the
-- limits of attached terminals that administrators set. The table of limits is a function from users
-- and keys; whether a query fails is an argument.
pub mod Admin
pub mod Limits
mod Tests
use term_bridge.Prelude.{
  ℕ, String, Bool, true, false, not, ◌&&◌, ◌||◌, ◌==◌, ltb, leb, if◌then◌else◌, Option, none, some,
  List, [], ◌∷◌, Result, ok, err, ℤ, pos, negsuc,
}
use term_bridge.Prelude.Text.{trim_space}
use term_bridge.Quota.{AttachCounter, usage_of}
use term_bridge.Cloud.Auth.{Tables, Db, AuthError}
use term_bridge.Cloud.Auth.Service.{Service}
use term_bridge.Cloud.Auth.Accounts.{UserView, user_from_claims}

abbrev pub key_concurrent_attaches : String
key_concurrent_attaches = "terminal.concurrent_attaches"

abbrev pub default_concurrent_attaches : ℤ
default_concurrent_attaches = pos 8

-- user_quota_limits
abbrev pub LimitTable : Type 0
LimitTable = String → String → Option ℤ

pub record QuotaConfig : Type 0 where
  pub concurrent_attaches : ℤ
  pub has_repository : Bool
  pub admin_user_ids : List String
  pub admin_emails : List String
  pub auth_service : Option Service

-- What the handlers meet at one request. The text in lower case is an argument too.
pub record QuotaWorld : Type 0 where
  pub get_fails : Bool
  pub write_fails : Bool
  pub lower : String → String
  pub db : Db
  pub tables : Tables
  pub counter : AttachCounter

pub data QuotaReplyError : Type 0 where
  unauthorized forbidden not_found internal no_repository bad_request : QuotaReplyError
  out_of_range method_not_allowed : QuotaReplyError

unfoldable pub get_limit :
    QuotaWorld → LimitTable → String → String → Result QuotaReplyError (Option ℤ)
unfolding trim_space
get_limit w limits user key =
    if trim_space user == "" || trim_space key == ""
    then ok none
    else if w.get_fails
    then err internal
    else ok (limits (trim_space user) (trim_space key))

abbrev pub set_limit : LimitTable → String → String → Option ℤ → LimitTable
set_limit limits user key v u k = if u == user && k == key then v else limits u k

unfoldable pub upsert_limit : QuotaWorld → String → String → ℤ → LimitTable → LimitTable × Bool
unfolding trim_space
upsert_limit w user key v limits =
    if w.write_fails
    then (limits, false)
    else (set_limit limits (trim_space user) (trim_space key) (some v), true)

unfoldable pub delete_limit : QuotaWorld → String → String → LimitTable → LimitTable × Bool
unfolding trim_space
delete_limit w user key limits =
    if w.write_fails
    then (limits, false)
    else (set_limit limits (trim_space user) (trim_space key) none, true)

abbrev pub is_positive : ℤ → Bool
is_positive (pos n) = ltb 0 n
is_positive (negsuc n) = false

unfoldable pub default_limit : QuotaConfig → ℤ
default_limit c =
    if is_positive c.concurrent_attaches then c.concurrent_attaches else default_concurrent_attaches

abbrev pub limit_or : ℤ → Option ℤ → ℤ
limit_or d none = d
limit_or d (some v) = v

-- attachLimitForUser
unfoldable pub attach_limit_for_user :
    QuotaConfig → QuotaWorld → LimitTable → String → Result QuotaReplyError ℤ
unfolding default_limit get_limit
attach_limit_for_user c w limits user =
    if not c.has_repository
    then ok (default_limit c)
    else elim (get_limit w limits user key_concurrent_attaches) [
      | err e ↦ err e
      | ok o ↦ ok (limit_or (default_limit c) o)
    ]

pub record QuotaSummary : Type 0 where
  pub subject : String
  pub limit : ℤ
  pub usage : ℕ
  pub source : String

abbrev pub source_of : Option ℤ → String
source_of none = "default"
source_of (some v) = "override"

abbrev pub summary_with : QuotaConfig → QuotaWorld → String → Option ℤ → QuotaSummary
summary_with c w user o = record {
  subject = user;
  limit = limit_or (default_limit c) o;
  usage = usage_of w.counter user;
  source = source_of o;
}

-- quotaSummaryFor
unfoldable pub quota_summary_for :
    QuotaConfig → QuotaWorld → LimitTable → String → Result QuotaReplyError QuotaSummary
unfolding default_limit get_limit usage_of
quota_summary_for c w limits user =
    if not c.has_repository
    then ok (summary_with c w user none)
    else elim (get_limit w limits user key_concurrent_attaches) [
      | err e ↦ err e
      | ok o ↦ ok (summary_with c w user o)
    ]
