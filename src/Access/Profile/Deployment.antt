-- ===== src/Access/Profile/Deployment.antt =====
-- The start of a service is allowed just for the deployment that its profile promises.
use fufire_api_lunar.Prelude.{
  ◌≤◌, ltb, List, [], ◌∷◌, All, some, true, false, beq_eq, beq_ne, eq_iff, ℕ, ◌≡◌, ◌↔◌, refl, inl,
  inr, ◌⊎◌, String, Bool, not, ◌&&◌, ◌||◌, Option, ok, arith, ◌==◌, eq_String, Bool-cases,
}
use fufire_api_lunar.Prelude.Int.{ℤ, pos}
use fufire_api_lunar.Prelude.Dict.{contains}
use fufire_api_lunar.Prelude.Text.{nonempty, strip, upper, has_substring}
use fufire_api_lunar.Access.Environ.{Environ, getenv, truthy}
use fufire_api_lunar.Access.KeyStore.{InMemoryKeyStore}
use fufire_api_lunar.Access.Auth.{no_keys, given, load_keys, store_is_configured}
use fufire_api_lunar.Access.Profile.Checks.{Passes, assert_runtime_config-Passes}
use fufire_api_lunar.Access.Profile.{
  at_least_one, is_production, any_local, allowed_origins, redis_configured, ephemeris_mode,
  unnamed_profile, production_replica_count, assert_runtime_config,
}

-- An origin that no deployment of the service shares: not the wildcard, nor one of the local machine.
abbrev pub Public : String → Type 0
Public origin =
    ¬ (origin ≡ "*")
    × (has_substring origin "localhost" ≡ false)
    × (has_substring origin "127.0.0.1" ≡ false)

abbrev pub forbidden_features : List String
forbidden_features =
    "FUFIRE_ENABLE_KEY_ISSUANCE" ∷ "FUFIRE_ENABLE_HEHUN_MARKETING"
    ∷ "FUFIRE_BAZI_PRECISION_V2_DEFAULT" ∷ []

-- The deployment that the production profile promises: `configured` says whether a key store is set up.
pub record Production (int : String → Option ℤ) (environ : Environ) (configured : Bool)
    : Type 0 where
  pub keys_or_store : ¬ (load_keys environ ≡ []) ⊎ (configured ≡ true)
  pub keys_required : truthy (environ "FUFIRE_REQUIRE_API_KEYS") ≡ true
  pub some_origin : ¬ (allowed_origins environ ≡ [])
  pub public_origins : All Public (allowed_origins environ)
  pub replicas : ℕ
  pub counted : int (strip (getenv environ "FUFIRE_REPLICA_COUNT" "")) ≡ some (pos replicas)
  pub some_replica : 1 ≤ replicas
  pub shared_redis :
      (2 ≤ replicas) ⊎ (truthy (environ "FUFIRE_REQUIRE_REDIS") ≡ true)
      → (nonempty (getenv environ "REDIS_URL" "") ≡ true)
        ⊎ (nonempty (getenv environ "REDIS_PRIVATE_URL" "") ≡ true)
  pub swieph : upper (strip (getenv environ "EPHEMERIS_MODE" "SWIEPH")) ≡ "SWIEPH"
  pub features_off : All (λ (name : String). truthy (environ name) ≡ false) forbidden_features
  pub zwds_signed :
      truthy (environ "FUFIRE_ENABLE_ZWDS") ≡ true
      → nonempty (strip (getenv environ "FUFIRE_ZWDS_SIGNOFF_ID" "")) ≡ true

no_keys-nil : (keys : List String) → no_keys keys ≡ false → ¬ (keys ≡ [])
no_keys-nil [] h e = absurd (cc h)
no_keys-nil (k ∷ keys) h e = absurd (cc e)

nil-no_keys : (keys : List String) → ¬ (keys ≡ []) → no_keys keys ≡ false
nil-no_keys [] h = absurd (h refl)
nil-no_keys (k ∷ keys) h = refl

no_star : (origin : String) → (origin == "*") ≡ false → ¬ (origin ≡ "*")
no_star origin h e = absurd (cc ((eq_iff origin "*").1 e, h))

origins-Public :
    (origins : List String)
    → contains origins "*" ≡ false
    → any_local origins ≡ false
    → All Public origins
origins-Public [] h k = tt
origins-Public (origin ∷ origins) h k = (
  (λ e. no_star origin (ground arith) e, ground arith, ground arith),
  origins-Public origins (ground arith) (ground arith),
)

Public-origins :
    (origins : List String)
    → All Public origins
    → (contains origins "*" ≡ false) × (any_local origins ≡ false)
Public-origins [] v = (refl, refl)
Public-origins (origin ∷ origins) ((star, host, loop), rest) =
    let (more, others) = Public-origins origins rest in
    let named = beq_ne origin "*" star in (ground arith, ground arith)

at_least_one-counted :
    (read : Option ℤ) (n : ℕ) → at_least_one read ≡ ok n → (read ≡ some (pos n)) × (1 ≤ n)
at_least_one-counted read n h = ground arith

counted-at_least_one :
    (read : Option ℤ) (n : ℕ) → read ≡ some (pos n) → 1 ≤ n → at_least_one read ≡ ok n
counted-at_least_one read n h k = ground arith

Passes-Production :
    (int : String → Option ℤ) (environ : Environ) (configured : Bool)
    → Passes int environ configured
    → Production int environ configured
unfolding production_replica_count
Passes-Production int environ configured v =
    let (read, some_one) = at_least_one-counted _ v.replicas v.counted in
    record {
      keys_or_store = keys (load_keys environ) configured v.keys_or_store;
      keys_required = v.keys_required;
      some_origin = no_keys-nil (allowed_origins environ) v.some_origin;
      public_origins = origins-Public (allowed_origins environ) v.no_wildcard v.no_local;
      replicas = v.replicas;
      counted = read;
      some_replica = some_one;
      shared_redis = λ required. let r = v.redis in ground arith;
      swieph = beq_eq (ephemeris_mode environ) "SWIEPH" v.swieph;
      features_off = (v.no_issuance, (v.no_marketing, (v.no_precision_v2, tt)));
      zwds_signed = λ on. let z = v.zwds_signed in ground arith;
    }
  where
    keys :
        (listed : List String) (configured : Bool)
        → (no_keys listed && not configured) ≡ false
        → ¬ (listed ≡ []) ⊎ (configured ≡ true)
    keys listed true h = inr refl
    keys [] false h = absurd (cc h)
    keys (k ∷ ks) false h = inl (λ e. absurd (cc e))

Production-Passes :
    (int : String → Option ℤ) (environ : Environ) (configured : Bool)
    → Production int environ configured
    → Passes int environ configured
unfolding production_replica_count
Production-Passes int environ configured v =
    let (off, (marketing, (precision, _))) = v.features_off in
    let (wildcard, local) = Public-origins (allowed_origins environ) v.public_origins in
    record {
      keys_or_store = keys (load_keys environ) configured v.keys_or_store;
      keys_required = v.keys_required;
      some_origin = nil-no_keys (allowed_origins environ) v.some_origin;
      no_wildcard = wildcard;
      no_local = local;
      replicas = v.replicas;
      counted = counted-at_least_one _ v.replicas v.counted v.some_replica;
      redis =
          redis_there (truthy (environ "FUFIRE_REQUIRE_REDIS")) (redis_configured environ)
            v.replicas (λ required. let r = v.shared_redis required in ground arith);
      swieph = (eq_iff (ephemeris_mode environ) "SWIEPH").1 v.swieph;
      no_issuance = off;
      zwds_signed = signed (truthy (environ "FUFIRE_ENABLE_ZWDS")) _ v.zwds_signed;
      no_marketing = marketing;
      no_precision_v2 = precision;
    }
  where
    keys :
        (listed : List String) (configured : Bool)
        → ¬ (listed ≡ []) ⊎ (configured ≡ true)
        → (no_keys listed && not configured) ≡ false
    keys [] configured (inl h) = absurd (h refl)
    keys (k ∷ ks) configured (inl h) = refl
    keys listed configured (inr e) = ground arith

    signed : (on given : Bool) → (on ≡ true → given ≡ true) → (on && not given) ≡ false
    signed false given h = refl
    signed true given h = ground (arith, h refl)

    redis_there :
        (asked given : Bool) (n : ℕ)
        → ((2 ≤ n) ⊎ (asked ≡ true) → given ≡ true)
        → ((asked || ltb 1 n) && not given) ≡ false
    redis_there asked true n h = ground arith
    redis_there true false n h = absurd (cc (h (inr refl)))
    redis_there false false n h = elim (Bool-cases (ltb 1 n)) [
      | inl y ↦ absurd (cc (h (inl (ground arith))))
      | inr single ↦ ground arith
    ]

-- With a backend that the service supports, the start is allowed just when the profile is named, if that
-- is asked for, and is either not a production profile or one whose deployment is as promised: keys are
-- listed or a store is set up, keys are required, origins are listed and all of them public, the replicas
-- are counted and at least one, Redis is there for two or more or where it is asked for, the ephemeris is
-- SWIEPH, three features are off, and the ZWDS feature is signed off where it is on.
pub assert_runtime_config_iff :
    (int : String → Option ℤ) (environ : Environ) (store : InMemoryKeyStore) (configured : Bool)
    → store_is_configured environ store ≡ ok configured
    → (assert_runtime_config int environ store ≡ ok tt) ↔ (
        (unnamed_profile environ ≡ false)
        × ((is_production environ ≡ false) ⊎ Production int environ configured))
assert_runtime_config_iff int environ store configured c =
    let passes = assert_runtime_config-Passes int environ store configured c in
    (λ h. let (named, v) = passes.0 h in (named, there v), λ (named, v). passes.1 (named, back v))
  where
    there :
        (is_production environ ≡ false) ⊎ Passes int environ configured
        → (is_production environ ≡ false) ⊎ Production int environ configured
    there (inl q) = inl q
    there (inr v) = inr (Passes-Production int environ configured v)

    back :
        (is_production environ ≡ false) ⊎ Production int environ configured
        → (is_production environ ≡ false) ⊎ Passes int environ configured
    back (inl q) = inl q
    back (inr v) = inr (Production-Passes int environ configured v)
