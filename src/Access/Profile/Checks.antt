-- ===== src/Access/Profile/Checks.antt =====
-- The start of a service is allowed just when no check of its profile refuses.
use fufire_api_lunar.Prelude.{
  ℕ, ◌≡◌, ◌↔◌, refl, sym, ◌∙◌, inl, inr, ◌⊎◌, String, Bool, true, false, not, ◌&&◌, ◌||◌, Option,
  Result, ok, err, ◌>>◌, bind_ok, arith, ◌==◌, eq_String, Bool-cases,
}
use fufire_api_lunar.Prelude.Int.{ℤ}
use fufire_api_lunar.Prelude.Dict.{contains}
use fufire_api_lunar.Prelude.Text.{nonempty, strip}
use fufire_api_lunar.Access.Environ.{Environ, getenv, truthy}
use fufire_api_lunar.Access.KeyStore.{InMemoryKeyStore}
use fufire_api_lunar.Access.Auth.{no_keys, load_keys, store_is_configured}
use fufire_api_lunar.Access.Profile.{
  is_production, refuse_if, any_local, allowed_origins, redis_required, redis_configured,
  ephemeris_mode, unnamed_profile, assert_production_auth_config, assert_production_cors,
  production_replica_count, assert_production_dependencies, assert_release_feature_policy,
  assert_production, assert_runtime_config,
}

-- No check of a production profile refuses.
pub record Passes (int : String → Option ℤ) (environ : Environ) (configured : Bool) : Type 0 where
  pub keys_or_store : (no_keys (load_keys environ) && not configured) ≡ false
  pub keys_required : truthy (environ "FUFIRE_REQUIRE_API_KEYS") ≡ true
  pub some_origin : no_keys (allowed_origins environ) ≡ false
  pub no_wildcard : contains (allowed_origins environ) "*" ≡ false
  pub no_local : any_local (allowed_origins environ) ≡ false
  pub replicas : ℕ
  pub counted : production_replica_count int environ ≡ ok replicas
  pub redis : (redis_required environ replicas && not (redis_configured environ)) ≡ false
  pub swieph : (ephemeris_mode environ == "SWIEPH") ≡ true
  pub no_issuance : truthy (environ "FUFIRE_ENABLE_KEY_ISSUANCE") ≡ false
  pub zwds_signed :
      (truthy (environ "FUFIRE_ENABLE_ZWDS")
        && not (nonempty (strip (getenv environ "FUFIRE_ZWDS_SIGNOFF_ID" ""))))
      ≡ false
  pub no_marketing : truthy (environ "FUFIRE_ENABLE_HEHUN_MARKETING") ≡ false
  pub no_precision_v2 : truthy (environ "FUFIRE_BAZI_PRECISION_V2_DEFAULT") ≡ false

-- A refusal is passed just when its test fails.
refuse_then :
    {A : Type 0} (test : Bool) (rest : Result A) (a : A)
    → (refuse_if test >> rest) ≡ ok a
    → (test ≡ false) × (rest ≡ ok a)
refuse_then true rest a h = absurd (cc h)
refuse_then false rest a h = (refl, h)

refuse_last : (test : Bool) → refuse_if test ≡ ok tt → test ≡ false
refuse_last true h = absurd (cc h)
refuse_last false h = refl

true_of_not : {b : Bool} → not b ≡ false → b ≡ true
true_of_not {b = true} h = refl
true_of_not {b = false} h = absurd (cc h)

then_ok :
    {A : Type 0} (m : Result (Unit {0})) (rest : Result A) (a : A)
    → (m >> rest) ≡ ok a
    → (m ≡ ok tt) × (rest ≡ ok a)
then_ok (err e) rest a h = absurd (cc h)
then_ok (ok tt) rest a h = (refl, h)

auth_config_ok :
    (environ : Environ) (store : InMemoryKeyStore) (configured : Bool)
    → is_production environ ≡ true
    → store_is_configured environ store ≡ ok configured
    → assert_production_auth_config environ store ≡ ok tt
    → (no_keys (load_keys environ) && not configured) ≡ false
unfolding assert_production_auth_config
auth_config_ok environ store configured p c h = ground (arith)

auth_config_iff :
    (environ : Environ) (store : InMemoryKeyStore) (configured : Bool)
    → is_production environ ≡ true
    → store_is_configured environ store ≡ ok configured
    → (assert_production_auth_config environ store ≡ ok tt)
      ↔ ((no_keys (load_keys environ) && not configured) ≡ false)
unfolding assert_production_auth_config
auth_config_iff environ store configured p c = (auth_config_ok environ store configured p c, back)
  where
    back :
        (no_keys (load_keys environ) && not configured) ≡ false
        → assert_production_auth_config environ store ≡ ok tt
    back n = ground arith

assert_production-Passes :
    (int : String → Option ℤ) (environ : Environ) (store : InMemoryKeyStore) (configured : Bool)
    → is_production environ ≡ true
    → store_is_configured environ store ≡ ok configured
    → assert_production int environ store ≡ ok tt
    → Passes int environ configured
unfolding assert_production assert_production_cors assert_production_dependencies
    assert_release_feature_policy
assert_production-Passes int environ store configured p c h =
    let (auth, h₁) = then_ok (assert_production_auth_config environ store) _ tt h in
    let (required, h₂) = refuse_then (not (truthy (environ "FUFIRE_REQUIRE_API_KEYS"))) _ tt h₁ in
    let (cors, h₃) = then_ok (assert_production_cors environ) _ tt h₂ in
    let (origin, cors₂) = refuse_then (no_keys (allowed_origins environ)) _ tt cors in
    let explicit =
      refuse_last (contains (allowed_origins environ) "*" || any_local (allowed_origins environ))
        cors₂ in
    let (n, counted, h₄) = bind_ok (production_replica_count int environ) _ tt h₃ in
    let (deps, h₅) = then_ok (assert_production_dependencies environ n) _ tt h₄ in
    let (redis, mode) =
      refuse_then (redis_required environ n && not (redis_configured environ)) _ tt deps in
    let (issuance, h₆) = refuse_then (truthy (environ "FUFIRE_ENABLE_KEY_ISSUANCE")) _ tt h₅ in
    let (signed, h₇) =
      refuse_then
        (truthy (environ "FUFIRE_ENABLE_ZWDS")
          && not (nonempty (strip (getenv environ "FUFIRE_ZWDS_SIGNOFF_ID" ""))))
        _ tt h₆ in
    let (marketing, h₈) = refuse_then (truthy (environ "FUFIRE_ENABLE_HEHUN_MARKETING")) _ tt h₇ in
    record {
      keys_or_store = (auth_config_iff environ store configured p c).0 auth;
      keys_required = true_of_not required;
      some_origin = origin;
      no_wildcard = ground arith;
      no_local = ground arith;
      replicas = n;
      counted = counted;
      redis = redis;
      swieph = true_of_not (refuse_last (not (ephemeris_mode environ == "SWIEPH")) mode);
      no_issuance = issuance;
      zwds_signed = signed;
      no_marketing = marketing;
      no_precision_v2 = refuse_last (truthy (environ "FUFIRE_BAZI_PRECISION_V2_DEFAULT")) h₈;
    }

Passes-assert_production :
    (int : String → Option ℤ) (environ : Environ) (store : InMemoryKeyStore) (configured : Bool)
    → is_production environ ≡ true
    → store_is_configured environ store ≡ ok configured
    → Passes int environ configured
    → assert_production int environ store ≡ ok tt
unfolding assert_production assert_production_cors assert_production_dependencies
    assert_release_feature_policy
Passes-assert_production int environ store configured p c v =
    rw
      (
        assert_production,
        (auth_config_iff environ store configured p c).1 v.keys_or_store,
        v.keys_required,
        assert_production_cors,
        v.some_origin,
        v.no_wildcard,
        v.no_local,
        v.counted,
        assert_production_dependencies,
        v.redis,
        v.swieph,
        assert_release_feature_policy,
        v.no_issuance,
        v.zwds_signed,
        v.no_marketing,
        v.no_precision_v2,
      )
      refl

pub assert_runtime_config-Passes :
    (int : String → Option ℤ) (environ : Environ) (store : InMemoryKeyStore) (configured : Bool)
    → store_is_configured environ store ≡ ok configured
    → (assert_runtime_config int environ store ≡ ok tt) ↔ (
        (unnamed_profile environ ≡ false)
        × ((is_production environ ≡ false) ⊎ Passes int environ configured))
unfolding assert_runtime_config
assert_runtime_config-Passes int environ store configured c =
    elim (Bool-cases (is_production environ)) [
      | inl p ↦ (
        λ h.
            let (named, rest) = refuse_then (unnamed_profile environ) _ tt h in
            (
              named,
              inr (
                  assert_production-Passes int environ store configured p c
                    (sym (rw p refl) ∙ rest)),
            ),
        λ (named, v). rw (assert_runtime_config, named, p) (production_again p v),
      )
      | inr q ↦ (
        λ h. ((refuse_then (unnamed_profile environ) _ tt h).0, inl q),
        λ (named, v). rw (assert_runtime_config, named, q) refl,
      )
    ]
  where
    production_again :
        is_production environ ≡ true
        → (is_production environ ≡ false) ⊎ Passes int environ configured
        → assert_production int environ store ≡ ok tt
    production_again p (inl q) = absurd (cc (p, q))
    production_again p (inr v) = Passes-assert_production int environ store configured p c v
