-- ===== src/Access/Admin.antt =====
-- bazi_engine/routers/admin.py and its mount in routers/registry.py: POST /v1/admin/keys. The warning
-- about a short admin token only logs and is left out; so are the texts of the errors.
pub mod Granted
pub mod Issued
use fufire_api_lunar.Prelude.{
  String, Bool, true, false, not, ◌&&◌, Option, none, some, List, [], ◌∷◌, Result, ok, err, ◌>>=◌,
  ◌>>◌, require, assertion_error, http_exception, eq_String, if◌then◌else◌,
}
use fufire_api_lunar.Prelude.Dict.{contains}
use fufire_api_lunar.Prelude.Text.{nonempty, strip, lower}
use fufire_api_lunar.Access.Environ.{Environ, getenv}
use fufire_api_lunar.Access.KeyStore.{InMemoryKeyStore, issue, get_key_store}
use fufire_api_lunar.Access.Auth.{compare_digest}
use fufire_api_lunar.Access.Features.{require_feature}

abbrev pub allowed_issuance_tiers : List String
allowed_issuance_tiers = "free" ∷ []

pub record IssueKeyRequest : Type 0 where
  pub tier : String
  pub label : String
  pub jti : String

pub record IssueKeyResponse : Type 0 where
  pub key : String
  pub tier : String

unfoldable pub admin_token : Environ → Option String
admin_token environ =
    let raw = strip (getenv environ "FUFIRE_ADMIN_TOKEN" "") in
    if nonempty raw then some raw else none

-- `token and hmac.compare_digest(token, configured_token)`
abbrev pub same_token : Option String → String → Result Bool
same_token none configured = ok false
same_token (some token) configured =
    if nonempty token then compare_digest token configured else ok false

abbrev pub check_token : Option String → String → Result (Unit {0})
check_token token configured = do
  same ← same_token token configured
  require same (http_exception 401 "unauthorized")

abbrev pub check_setup : Option String → Option String → Option InMemoryKeyStore → Result (Unit {0})
check_setup token (some configured) (some store) = check_token token configured
check_setup token _ _ = err (http_exception 503 "issuance_not_configured")

unfoldable pub verify_admin : Environ → InMemoryKeyStore → Option String → Result (Unit {0})
verify_admin environ store token = do
  configured_store ← get_key_store environ store
  check_setup token (admin_token environ) configured_store

-- `assert store is not None`
abbrev pub assert_store : Option InMemoryKeyStore → Result InMemoryKeyStore
assert_store none = err assertion_error
assert_store (some store) = ok store

abbrev pub respond : String → String × InMemoryKeyStore → IssueKeyResponse × InMemoryKeyStore
respond tier (key, store) = (record { key = key; tier = tier }, store)

-- What follows the two checks: the response and the store afterwards.
abbrev pub issue_in :
    Environ
    → InMemoryKeyStore
    → IssueKeyRequest
    → String
    → String
    → Result (IssueKeyResponse × InMemoryKeyStore)
issue_in environ store payload tier drawn = do
  configured ← get_key_store environ store
  present ← assert_store configured
  issued ← issue present tier payload.label payload.jti drawn
  ok (respond tier issued)

unfoldable pub issue_key :
    Environ
    → InMemoryKeyStore
    → Option String
    → IssueKeyRequest
    → String
    → Result (IssueKeyResponse × InMemoryKeyStore)
issue_key environ store token payload drawn = do
  verify_admin environ store token
  let tier = lower (strip payload.tier)
  require (contains allowed_issuance_tiers tier) (http_exception 400 "tier_not_allowed")
  issue_in environ store payload tier drawn

-- The route: the feature's dependency comes first.
unfoldable pub post_admin_keys :
    Environ
    → InMemoryKeyStore
    → Option String
    → IssueKeyRequest
    → String
    → Result (IssueKeyResponse × InMemoryKeyStore)
post_admin_keys environ store token payload drawn = do
  require_feature environ "key_issuance"
  issue_key environ store token payload drawn
