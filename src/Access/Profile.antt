-- ===== src/Access/Profile.antt =====
-- bazi_engine/config_guard.py: the checks of the environment when the service starts. `int` of the
-- standard library, which reads a numeral, is an argument.
pub mod Checks
pub mod Deployment
pub mod Guarantees
use fufire_api_lunar.Prelude.{
  ℕ, String, Bool, true, false, not, ◌&&◌, ◌||◌, Option, none, some, List, [], ◌∷◌, Result, ok, err,
  ◌>>=◌, ◌>>◌, require, runtime_error, ltb, ◌==◌, eq_String, if◌then◌else◌,
}
use fufire_api_lunar.Prelude.Int.{ℤ, pos, negsuc}
use fufire_api_lunar.Prelude.Dict.{contains}
use fufire_api_lunar.Prelude.Text.{nonempty, strip, lower, upper, split, has_substring}
use fufire_api_lunar.Access.Environ.{Environ, getenv, truthy}
use fufire_api_lunar.Access.KeyStore.{InMemoryKeyStore}
use fufire_api_lunar.Access.Auth.{no_keys, stripped, load_keys, store_is_configured}

abbrev pub production_envs : List String
production_envs = "production" ∷ "prod" ∷ "staging" ∷ []

abbrev pub profile : Environ → String
profile environ = lower (strip (getenv environ "FUFIRE_ENV" ""))

abbrev pub is_production : Environ → Bool
is_production environ = contains production_envs (profile environ)

-- `raise RuntimeError(...)` where the test holds.
abbrev pub refuse_if : Bool → Result (Unit {0})
refuse_if test = require (not test) runtime_error

-- `not _load_keys() and not _store_is_configured()`
abbrev pub auth_disabled : Environ → InMemoryKeyStore → Result Bool
auth_disabled environ store =
    if no_keys (load_keys environ)
    then (store_is_configured environ store >>= λ configured. ok (not configured))
    else ok false

unfoldable pub assert_production_auth_config : Environ → InMemoryKeyStore → Result (Unit {0})
assert_production_auth_config environ store =
    if is_production environ then auth_disabled environ store >>= refuse_if else ok tt

abbrev pub is_local : String → Bool
is_local origin = has_substring origin "localhost" || has_substring origin "127.0.0.1"

abbrev pub any_local : List String → Bool
any_local [] = false
any_local (origin ∷ origins) = is_local origin || any_local origins

abbrev pub allowed_origins : Environ → List String
allowed_origins environ = stripped (split b',' (strip (getenv environ "CORS_ALLOWED_ORIGINS" "")))

unfoldable pub assert_production_cors : Environ → Result (Unit {0})
assert_production_cors environ = do
  refuse_if (no_keys (allowed_origins environ))
  refuse_if (contains (allowed_origins environ) "*" || any_local (allowed_origins environ))

abbrev pub at_least_one : Option ℤ → Result ℕ
at_least_one (some (pos n)) = if ltb 0 n then ok n else err runtime_error
at_least_one _ = err runtime_error

unfoldable pub production_replica_count : (String → Option ℤ) → Environ → Result ℕ
production_replica_count int environ =
    at_least_one (int (strip (getenv environ "FUFIRE_REPLICA_COUNT" "")))

abbrev pub redis_required : Environ → ℕ → Bool
redis_required environ replica_count =
    truthy (environ "FUFIRE_REQUIRE_REDIS") || ltb 1 replica_count

abbrev pub redis_configured : Environ → Bool
redis_configured environ =
    nonempty (getenv environ "REDIS_URL" "") || nonempty (getenv environ "REDIS_PRIVATE_URL" "")

abbrev pub ephemeris_mode : Environ → String
ephemeris_mode environ = upper (strip (getenv environ "EPHEMERIS_MODE" "SWIEPH"))

unfoldable pub assert_production_dependencies : Environ → ℕ → Result (Unit {0})
assert_production_dependencies environ replica_count = do
  refuse_if (redis_required environ replica_count && not (redis_configured environ))
  refuse_if (not (ephemeris_mode environ == "SWIEPH"))

unfoldable pub assert_release_feature_policy : Environ → Result (Unit {0})
assert_release_feature_policy environ = do
  refuse_if (truthy (environ "FUFIRE_ENABLE_KEY_ISSUANCE"))
  refuse_if (
      truthy (environ "FUFIRE_ENABLE_ZWDS")
      && not (nonempty (strip (getenv environ "FUFIRE_ZWDS_SIGNOFF_ID" ""))))
  refuse_if (truthy (environ "FUFIRE_ENABLE_HEHUN_MARKETING"))
  refuse_if (truthy (environ "FUFIRE_BAZI_PRECISION_V2_DEFAULT"))

-- The checks of a production profile, in their order.
unfoldable pub assert_production :
    (String → Option ℤ) → Environ → InMemoryKeyStore → Result (Unit {0})
assert_production int environ store = do
  assert_production_auth_config environ store
  refuse_if (not (truthy (environ "FUFIRE_REQUIRE_API_KEYS")))
  assert_production_cors environ
  replica_count ← production_replica_count int environ
  assert_production_dependencies environ replica_count
  assert_release_feature_policy environ

abbrev pub unnamed_profile : Environ → Bool
unnamed_profile environ =
    truthy (environ "FUFIRE_REQUIRE_EXPLICIT_ENV") && not (nonempty (profile environ))

unfoldable pub assert_runtime_config :
    (String → Option ℤ) → Environ → InMemoryKeyStore → Result (Unit {0})
assert_runtime_config int environ store = do
  refuse_if (unnamed_profile environ)
  if is_production environ then assert_production int environ store else ok tt
