-- ===== src/Access/Profile/Guarantees.antt =====
-- What a service that has started in a production profile is sure of.
use fufire_api_lunar.Prelude.{
  true, ◌≡◌, refl, sym, ap, ◌∙◌, inl, inr, String, Bool, Option, ok, err, bind_ok, http_exception,
  arith, eq_String, Option-cases,
}
use fufire_api_lunar.Prelude.Int.{ℤ}
use fufire_api_lunar.Access.Environ.{Environ, truthy}
use fufire_api_lunar.Access.KeyStore.{InMemoryKeyStore, get_key_store}
use fufire_api_lunar.Access.Auth.{KeyInfo, given, store_is_configured, require_api_key}
use fufire_api_lunar.Access.Auth.Outcome.{Admitted, require_api_key-Admitted}
use fufire_api_lunar.Access.Limits.{resolve_storage_uri, replica_count, redis_is_required}
use fufire_api_lunar.Access.Features.{feature_enabled, require_feature}
use fufire_api_lunar.Access.Admin.{IssueKeyRequest, post_admin_keys}
use fufire_api_lunar.Access.Profile.Checks.{assert_runtime_config-Passes}
use fufire_api_lunar.Access.Profile.{is_production, production_replica_count, assert_runtime_config}

configured_by_environ :
    (environ : Environ) (store later : InMemoryKeyStore) (configured : Bool)
    → store_is_configured environ later ≡ ok configured
    → store_is_configured environ store ≡ ok configured
unfolding store_is_configured get_key_store
configured_by_environ environ store later configured h = ground arith

-- In a production profile that has started, whatever the store holds later, a request that is let through
-- has presented a key that is in the list or valid in the store: authentication is never off.
pub production-Admitted :
    (int : String → Option ℤ) (environ : Environ) (started later : InMemoryKeyStore)
    (api_key : Option String) (info : KeyInfo)
    → assert_runtime_config int environ started ≡ ok tt
    → is_production environ ≡ true
    → require_api_key environ later api_key ≡ ok info
    → Admitted environ later api_key info
unfolding require_api_key
production-Admitted int environ started later api_key info s p h =
    let (configured, c, rest) = bind_ok (store_is_configured environ later) _ info h in
    let here = configured_by_environ environ started later configured c in
    elim ((assert_runtime_config-Passes int environ started configured here).0 s).1 [
      | inl q ↦ absurd (cc (p, q))
      | inr v ↦ require_api_key-Admitted environ later api_key configured info c v.keys_or_store h
    ]

production_post_admin_keys :
    (int : String → Option ℤ) (environ : Environ) (started later : InMemoryKeyStore)
    (configured : Bool) (token : Option String) (payload : IssueKeyRequest) (drawn : String)
    → store_is_configured environ started ≡ ok configured
    → assert_runtime_config int environ started ≡ ok tt
    → is_production environ ≡ true
    → post_admin_keys environ later token payload drawn
      ≡ err (http_exception 404 "feature_disabled")
unfolding post_admin_keys require_feature feature_enabled truthy
production_post_admin_keys int environ started later configured token payload drawn c s p =
    elim ((assert_runtime_config-Passes int environ started configured c).0 s).1 [
      | inl q ↦ absurd (cc (p, q))
      | inr v ↦
          let off = v.no_issuance in
          elim (Option-cases (environ "FUFIRE_ENABLE_KEY_ISSUANCE")) [
            | inl e ↦ rw (post_admin_keys, require_feature, feature_enabled, e) refl
            | inr (raw, e) ↦
                rw (post_admin_keys, require_feature, feature_enabled, e)
                  (rw (sym (ap truthy e) ∙ off) refl)
          ]
    ]

production_redis :
    (int : String → Option ℤ) (environ : Environ) (started : InMemoryKeyStore) (configured : Bool)
    → store_is_configured environ started ≡ ok configured
    → assert_runtime_config int environ started ≡ ok tt
    → is_production environ ≡ true
    → redis_is_required int environ ≡ given (resolve_storage_uri environ)
unfolding redis_is_required resolve_storage_uri replica_count production_replica_count
production_redis int environ started configured c s p =
    elim ((assert_runtime_config-Passes int environ started configured c).0 s).1 [
      | inl q ↦ absurd (cc (p, q))
      | inr v ↦ let r = v.redis in let n = v.counted in ground arith
    ]

-- In a production profile that has started with a supported backend, the issuance of keys is hidden, so
-- that every request to it is answered by 404, and the limiter requires Redis just when it has the
-- address of one, so that its counters are never in memory against its policy.
pub production_surface :
    (int : String → Option ℤ) (environ : Environ) (started later : InMemoryKeyStore)
    (configured : Bool) (token : Option String) (payload : IssueKeyRequest) (drawn : String)
    → store_is_configured environ started ≡ ok configured
    → assert_runtime_config int environ started ≡ ok tt
    → is_production environ ≡ true
    → (post_admin_keys environ later token payload drawn
        ≡ err (http_exception 404 "feature_disabled"))
      × (redis_is_required int environ ≡ given (resolve_storage_uri environ))
production_surface int environ started later configured token payload drawn c s p = (
  production_post_admin_keys int environ started later configured token payload drawn c s p,
  production_redis int environ started configured c s p,
)
