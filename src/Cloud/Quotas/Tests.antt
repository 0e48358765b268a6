-- ===== src/Cloud/Quotas/Tests.antt =====
-- An administrator changes the limit of a user.
use term_bridge.Prelude.{true, false, none, some, [], ◌∷◌, ◌≡◌, refl, ok, err, pos}
use term_bridge.Prelude.Text.{trim_space}
use term_bridge.Quota.{new_attach_counter}
use term_bridge.Cloud.Quotas.{
  LimitTable, QuotaConfig, QuotaWorld, get_limit, upsert_limit, attach_limit_for_user,
  default_limit, forbidden,
}
use term_bridge.Cloud.Quotas.Admin.{
  AdminQuotaReq, has_admin_id, user_is_admin, is_admin, quota_user, quota_method,
  handle_admin_user_quota,
}
use term_bridge.Cloud.Quotas.Limits.{IsGuarded, handle_admin_user_quota-IsGuarded}

abbrev config : QuotaConfig
config = record {
  concurrent_attaches = pos 0;
  has_repository = true;
  admin_user_ids = " root" ∷ [];
  admin_emails = [];
  auth_service = none;
}

abbrev world : QuotaWorld
world = record {
  get_fails = false;
  write_fails = false;
  lower = λ s. s;
  db = record {
    fails = λ _. false;
    begin_fails = false;
    commit_fails = false;
    new_id = λ _. none;
    now = 0;
    lower = λ s. s;
  };
  tables = record { users = []; identities = []; codes = []; states = []; logs = [] };
  counter = new_attach_counter;
}

abbrev request : AdminQuotaReq
request = record {
  claims = some "root";
  parts = "u1" ∷ "quota" ∷ [];
  method = "PUT";
  body = some (pos 3);
}

abbrev no_limits : LimitTable
no_limits = λ _ _. none

handle_admin_user_quota-IsGuarded_example :
    IsGuarded config world request no_limits
      (handle_admin_user_quota config world request no_limits)
handle_admin_user_quota-IsGuarded_example =
    handle_admin_user_quota-IsGuarded config world request no_limits

limit_is_set :
    attach_limit_for_user config world
      (handle_admin_user_quota config world request no_limits).0
      "u1"
    ≡ ok (pos 3)
unfolding attach_limit_for_user handle_admin_user_quota default_limit get_limit is_admin
    has_admin_id user_is_admin quota_user quota_method upsert_limit trim_space
limit_is_set = refl

others_have_the_default :
    attach_limit_for_user config world
      (handle_admin_user_quota config world request no_limits).0
      "u2"
    ≡ ok (pos 8)
unfolding attach_limit_for_user handle_admin_user_quota default_limit get_limit is_admin
    has_admin_id user_is_admin quota_user quota_method upsert_limit trim_space
others_have_the_default = refl

users_are_refused :
    (handle_admin_user_quota config world (record request { claims = some "u1" }) no_limits).1
    ≡ err forbidden
unfolding handle_admin_user_quota is_admin has_admin_id user_is_admin quota_user quota_method
    trim_space
users_are_refused = refl
