-- ===== src/Tests/Access.antt =====
-- The theorems on API keys and on the start of the service, at concrete inputs.
use fufire_api_lunar.Prelude.{
  ℕ, ◌≡◌, ◌≤◌, ◌↔◌, refl, ◌⊎◌, String, Bool, false, ◌||◌, Option, none, some, [], ◌▸◌, ◌∷◌, ok, err,
  type_error, http_exception, ◌==◌, eq_String, if◌then◌else◌,
}
use fufire_api_lunar.Prelude.Int.{ℤ, pos}
use fufire_api_lunar.Prelude.Dict.{get, contains}
use fufire_api_lunar.Prelude.Text.{strip, lower, upper, split, lstrip, rstrip}
use fufire_api_lunar.Access.Environ.{Environ, truthy}
use fufire_api_lunar.Access.KeyStore.{
  InMemoryKeyStore, empty_store, store_key, mint_key, issue, get_key_store,
}
use fufire_api_lunar.Access.KeyStore.History.{Reachable, start, issued}
use fufire_api_lunar.Access.KeyStore.Repeat.{Promise, issue-Promise}
use fufire_api_lunar.Access.Auth.{
  KeyInfo, given, load_keys, load_tier_overrides, prefix_tier, resolve_tier, resolve_key_info,
  is_valid_api_key, store_is_configured, require_api_key, valid_in,
}
use fufire_api_lunar.Access.Admin.{
  IssueKeyRequest, issue_key, verify_admin, admin_token, post_admin_keys,
}
use fufire_api_lunar.Access.Admin.Granted.{Granted, issue_key-Granted}
use fufire_api_lunar.Access.Admin.Issued.{same, free_info, issued_key_accepted}
use fufire_api_lunar.Access.Profile.{
  is_production, unnamed_profile, assert_runtime_config, assert_production,
  assert_production_auth_config, assert_production_cors, production_replica_count,
  assert_production_dependencies, assert_release_feature_policy,
}
use fufire_api_lunar.Access.Profile.Guarantees.{production-Admitted, production_surface}
use fufire_api_lunar.Access.Profile.Deployment.{Production, assert_runtime_config_iff}
use fufire_api_lunar.Access.Auth.Outcome.{
  Admitted, require_api_key_outcome, require_api_key_not_ascii,
}
use fufire_api_lunar.Access.Limits.{tier_limit, redis_is_required, resolve_storage_uri}
use fufire_api_lunar.Access.Limits.Bounds.{tier_limit_bounds}

abbrev no_address : String → Bool
no_address key = false

-- A service with two keys and no store.
abbrev two_keys : Environ
two_keys name = get (("FUFIRE_API_KEYS", "ff_pro_a1, ff_free_b2") ∷ []) name

-- A service with a store and an admin token, in which keys can be issued.
abbrev issuing : Environ
issuing name =
    get
      (("KEY_STORE_BACKEND", "memory")
        ∷ ("FUFIRE_ADMIN_TOKEN", "s3cret")
        ∷ ("FUFIRE_ENABLE_KEY_ISSUANCE", "true")
        ∷ [])
      name

abbrev first_key : String
first_key = "ff_free_00ff"

abbrev one_key : InMemoryKeyStore
one_key = store_key empty_store "free" "landing" "j1" first_key

one_key_issued : issue empty_store "free" "landing" "j1" "00ff" ≡ ok (first_key, one_key)
unfolding issue mint_key
one_key_issued = refl

one_key-Reachable : Reachable one_key
one_key-Reachable = issued "free" "landing" "j1" "00ff" start one_key_issued

issue-Promise_example :
    (key : String) × (after : InMemoryKeyStore) × (issue one_key "pro" "shop" "j2" "beef"
      ≡ ok (key, after))
    × Promise "free" "" "cafe" "j2" key after
issue-Promise_example =
    issue-Promise one_key "pro" "shop" "j2" "beef" "free" "" "cafe" one_key-Reachable refl

two_keys_backend : get_key_store two_keys empty_store ≡ ok none
unfolding get_key_store lower strip lstrip rstrip
two_keys_backend = refl

tier_limit_bounds_example :
    (n : ℕ) × (tier_limit no_address two_keys empty_store "ff_pro_a1" ≡ ok n)
    × (1 ≤ n)
    × (n ≤ 10000)
tier_limit_bounds_example =
    tier_limit_bounds no_address two_keys empty_store "ff_pro_a1" none two_keys_backend

pro_limit : tier_limit no_address two_keys empty_store "ff_pro_a1" ≡ ok 100
unfolding tier_limit resolve_key_info resolve_tier load_tier_overrides prefix_tier strip lstrip
    rstrip
pro_limit = refl

require_api_key_outcome_example : require_api_key two_keys empty_store (some "ff_pro_a1") ≡ (
    if contains (load_keys two_keys) "ff_pro_a1" || valid_in none "ff_pro_a1"
    then resolve_key_info two_keys empty_store "ff_pro_a1"
    else err (http_exception 401 "unauthorized"))
unfolding load_keys split strip lstrip rstrip
require_api_key_outcome_example =
    require_api_key_outcome two_keys empty_store "ff_pro_a1" none two_keys_backend refl refl
      (refl ▸ refl ▸ tt)

require_api_key_not_ascii_example :
    require_api_key two_keys empty_store (some "ff_pro_ä1") ≡ err type_error
unfolding store_is_configured get_key_store load_keys lower split strip lstrip rstrip
require_api_key_not_ascii_example =
    require_api_key_not_ascii two_keys empty_store "ff_pro_ä1" false refl refl refl

issuing_backend : get_key_store issuing one_key ≡ ok (some one_key)
unfolding get_key_store lower strip lstrip rstrip
issuing_backend = refl

abbrev free_request : String → IssueKeyRequest
free_request jti = record { tier = "Free "; label = "landing"; jti = jti }

issuing_grants :
    issue_key issuing empty_store (some "s3cret") (free_request "j1") "00ff"
    ≡ ok (record { key = first_key; tier = "free" }, one_key)
unfolding issue_key verify_admin admin_token get_key_store issue mint_key lower strip lstrip rstrip
issuing_grants = refl

issue_key-Granted_example :
    Granted issuing empty_store
      (some "s3cret")
      (free_request "j1")
      "00ff"
      (record { key = first_key; tier = "free" })
      one_key
issue_key-Granted_example =
    issue_key-Granted issuing empty_store one_key (some "s3cret") (free_request "j1") "00ff"
      (record { key = first_key; tier = "free" }) issuing_grants

issued_key_accepted_example :
    (require_api_key issuing one_key (some first_key) ≡ ok (free_info first_key))
    × (tier_limit no_address issuing one_key first_key ≡ ok 5)
unfolding load_tier_overrides load_keys strip lstrip rstrip
issued_key_accepted_example =
    issued_key_accepted issuing empty_store one_key one_key (some "s3cret") (free_request "j1")
      "00ff" (record { key = first_key; tier = "free" }) no_address same issuing_grants same refl
      refl refl tt

-- A production profile with two replicas.
abbrev production : Environ
production name =
    get
      (("FUFIRE_ENV", " Production")
        ∷ ("FUFIRE_REQUIRE_API_KEYS", "true")
        ∷ ("FUFIRE_API_KEYS", "ff_pro_a1")
        ∷ ("CORS_ALLOWED_ORIGINS", "https://bazodiac.space")
        ∷ ("FUFIRE_REPLICA_COUNT", "2")
        ∷ ("REDIS_URL", "redis://cache")
        ∷ [])
      name

abbrev digit : String → Option ℤ
digit s = if s == "2" then some (pos 2) else none

production_starts : assert_runtime_config digit production empty_store ≡ ok tt
unfolding assert_runtime_config assert_production assert_production_auth_config
    assert_production_cors production_replica_count assert_production_dependencies
    assert_release_feature_policy load_keys truthy lower upper split strip lstrip rstrip
production_starts = refl

production_configured : store_is_configured production empty_store ≡ ok false
unfolding store_is_configured get_key_store lower strip lstrip rstrip
production_configured = refl

assert_runtime_config_iff_example : (assert_runtime_config digit production empty_store ≡ ok tt) ↔ (
    (unnamed_profile production ≡ false)
    × ((is_production production ≡ false) ⊎ Production digit production false))
assert_runtime_config_iff_example =
    assert_runtime_config_iff digit production empty_store false production_configured

abbrev pro_info : KeyInfo
pro_info = record {
  key = "ff_pro_a1";
  tier = "pro";
  requests_per_day = 10000;
  requests_per_minute = 100;
}

production_admits : require_api_key production one_key (some "ff_pro_a1") ≡ ok pro_info
unfolding require_api_key store_is_configured get_key_store load_keys is_valid_api_key
    resolve_key_info resolve_tier load_tier_overrides prefix_tier lower split strip lstrip rstrip
production_admits = refl

production-Admitted_example : Admitted production one_key (some "ff_pro_a1") pro_info
unfolding lower strip lstrip rstrip
production-Admitted_example =
    production-Admitted digit production empty_store one_key (some "ff_pro_a1") pro_info
      production_starts refl production_admits

production_surface_example :
    (post_admin_keys production one_key (some "s3cret") (free_request "j1") "00ff"
      ≡ err (http_exception 404 "feature_disabled"))
    × (redis_is_required digit production ≡ given (resolve_storage_uri production))
unfolding lower strip lstrip rstrip
production_surface_example =
    production_surface digit production empty_store one_key false (some "s3cret")
      (free_request "j1") "00ff" production_configured production_starts refl
