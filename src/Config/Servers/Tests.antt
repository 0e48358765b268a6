-- ===== src/Config/Servers/Tests.antt =====
-- Texts of servers as they are configured.
use term_bridge.Prelude.{
  String, ◌==◌, if◌then◌else◌, Option, none, some, [], ◌∷◌, ◌≡◌, refl, ok, err,
}
use term_bridge.Config.Servers.{
  Url, normalize_http_origins, incomplete, bad_scheme, validate_oauth_provider_config,
  validate_http_url, not_a_base_path, validate_api_base_path,
}

-- Only the test's own URLs.
parse : String → Option Url
parse s = if s == "ftp://host" then some (record { scheme = "ftp"; host = "host" }) else none

each_origin_once :
    normalize_http_origins (" http://a/ " ∷ "http://a" ∷ "" ∷ "http://b//" ∷ [])
    ≡ "http://a" ∷ "http://b" ∷ []
unfolding normalize_http_origins
each_origin_once = refl

all_or_nothing :
    (validate_oauth_provider_config "google" "" "" "" ≡ ok tt)
    × (validate_oauth_provider_config "google" "id" "" "url"
        ≡ err (incomplete "google" ("client_secret" ∷ [])))
unfolding validate_oauth_provider_config
all_or_nothing = (refl, refl)

only_http : validate_http_url parse "key" "ftp://host" ≡ err (bad_scheme "key")
unfolding validate_http_url parse
only_http = refl

not_the_root : validate_api_base_path "key" "/" ≡ err (not_a_base_path "key")
unfolding validate_api_base_path
not_the_root = refl
