-- ===== src/Access/Auth/Tiers.antt =====
-- Every key has a tier, and with it limits.
use fufire_api_lunar.Prelude.{
  ◌≡◌, refl, inl, inr, String, true, Option, none, some, List, [], ◌∷◌, Result, ok, arith, ◌==◌,
  eq_String, Bool-cases, Option-cases,
}
use fufire_api_lunar.Prelude.Dict.{get, has, get-put}
use fufire_api_lunar.Prelude.Keys.{has-get}
use fufire_api_lunar.Prelude.Text.{nonempty, strip, lower, split, split_max, startswith}
use fufire_api_lunar.Access.Environ.{Environ, getenv}
use fufire_api_lunar.Access.KeyStore.{InMemoryKeyStore, get_key_store, tier_of}
use fufire_api_lunar.Access.Auth.{
  KeyInfo, tier_limits, override_parts, override_entry, override_entries, load_tier_overrides,
  known_tier, tier_in_store, store_tier_of, second_part, prefix_tier, or_free, tier_by_store,
  tier_by_prefix, resolve_tier, key_info, resolve_key_info,
}

-- A tier of the table, or nothing.
abbrev KnownOr : Option String → Type 0
KnownOr none = Unit
KnownOr (some tier) = has tier_limits tier ≡ true

KnownOr-some :
    (o : Option String) (tier : String) → KnownOr o → o ≡ some tier → has tier_limits tier ≡ true
KnownOr-some none tier v e = cc e
KnownOr-some (some t) tier v e = ground arith

abbrev AllKnown : List (String × String) → Type 0
AllKnown d = (k : String) → KnownOr (get d k)

override_parts-AllKnown :
    (d : List (String × String)) (parts : Option (String × String))
    → AllKnown d
    → AllKnown (override_parts d parts)
override_parts-AllKnown d none v k = v k
override_parts-AllKnown d (some (before, after)) v k =
    ground (arith, get-put d (strip before) k (lower (strip after)), v k)

override_entries-AllKnown :
    (d : List (String × String)) (entries : List String)
    → AllKnown d
    → AllKnown (override_entries d entries)
override_entries-AllKnown d [] v = v
override_entries-AllKnown d (entry ∷ entries) v =
    override_entries-AllKnown (override_entry d entry) entries (override_parts-AllKnown d _ v)

load_tier_overrides-AllKnown : (environ : Environ) → AllKnown (load_tier_overrides environ)
unfolding load_tier_overrides
load_tier_overrides-AllKnown environ =
    elim (Bool-cases (nonempty (strip (getenv environ "FUFIRE_KEY_TIER_OVERRIDES" "")))) [
      | inl t ↦ rw (t, load_tier_overrides) (override_entries-AllKnown [] (split b',' _) (λ k. tt))
      | inr f ↦ rw (f, load_tier_overrides) (λ k. tt)
    ]

second_part-KnownOr : (parts : List String) → KnownOr (second_part parts)
second_part-KnownOr [] = tt
second_part-KnownOr (ff ∷ []) = tt
second_part-KnownOr (ff ∷ tier ∷ []) = tt
second_part-KnownOr (ff ∷ tier ∷ secret ∷ rest) = ground arith

prefix_tier-KnownOr : (api_key : String) → KnownOr (prefix_tier api_key)
unfolding prefix_tier
prefix_tier-KnownOr api_key = elim (Bool-cases (startswith api_key "ff_")) [
  | inl t ↦ rw (t, prefix_tier) (second_part-KnownOr (split_max b'_' 2 api_key))
  | inr f ↦ rw (f, prefix_tier) tt
]

known_tier-KnownOr : (tier : Option String) → KnownOr (known_tier tier)
known_tier-KnownOr none = tt
known_tier-KnownOr (some tier) = ground arith

tier_in_store-KnownOr :
    (configured : Option InMemoryKeyStore) (api_key : String)
    → KnownOr (tier_in_store configured api_key)
tier_in_store-KnownOr none api_key = tt
tier_in_store-KnownOr (some store) api_key = known_tier-KnownOr (tier_of store api_key)

or_free-Known : (tier : Option String) → KnownOr tier → has tier_limits (or_free tier) ≡ true
or_free-Known none v = refl
or_free-Known (some tier) v = elim (Bool-cases (nonempty tier)) [
  | inl t ↦ rw t v
  | inr f ↦ rw f refl
]

-- What the four sources of a tier give, in their order.
pub resolve_tier-Known :
    (environ : Environ) (store : InMemoryKeyStore) (api_key : String)
    (configured : Option InMemoryKeyStore)
    → get_key_store environ store ≡ ok configured
    → (tier : String) × (resolve_tier environ store api_key ≡ ok tier)
      × (has tier_limits tier ≡ true)
unfolding resolve_tier store_tier_of
resolve_tier-Known environ store api_key configured c =
    elim (Option-cases (get (load_tier_overrides environ) api_key)) [
      | inr (tier, e) ↦ (
        tier,
        rw (e, resolve_tier) refl,
        KnownOr-some _ tier (load_tier_overrides-AllKnown environ api_key) e,
      )
      | inl e ↦ elim (Option-cases (prefix_tier api_key)) [
        | inr (tier, p) ↦ (
          tier,
          rw (e, resolve_tier) (rw (p, tier_by_prefix) refl),
          KnownOr-some _ tier (prefix_tier-KnownOr api_key) p,
        )
        | inl p ↦ (
          or_free (tier_in_store configured api_key),
          rw (e, resolve_tier) (rw (p, tier_by_prefix) (rw (c, tier_by_store) refl)),
          or_free-Known _ (tier_in_store-KnownOr configured api_key),
        )
      ]
    ]

-- The information on a key with a tier of the table: the tier's own limits.
pub record KnownInfo (api_key : String) (result : Result KeyInfo) : Type 0 where
  pub info : KeyInfo
  pub returned : result ≡ ok info
  pub for_key : info.key ≡ api_key
  pub listed : get tier_limits info.tier ≡ some (info.requests_per_day, info.requests_per_minute)

key_info-KnownInfo :
    (api_key tier : String)
    → has tier_limits tier ≡ true
    → KnownInfo api_key (key_info api_key tier)
key_info-KnownInfo api_key tier h =
    let ((rpd, rpm), e) = has-get tier_limits tier h in
    record {
      info = record {
        key = api_key;
        tier = tier;
        requests_per_day = rpd;
        requests_per_minute = rpm;
      };
      returned = rw (e, key_info) refl;
      for_key = refl;
      listed = e;
    }

-- With a backend that the service supports, the information on any text as a key is returned: it is for
-- this key, its tier is one of the table, and the limits are those of the tier.
pub resolve_key_info_total :
    (environ : Environ) (store : InMemoryKeyStore) (api_key : String)
    (configured : Option InMemoryKeyStore)
    → get_key_store environ store ≡ ok configured
    → KnownInfo api_key (resolve_key_info environ store api_key)
unfolding resolve_key_info
resolve_key_info_total environ store api_key configured c =
    elim (Bool-cases (api_key == "dev-mode")) [
      | inl t ↦ rw (t, resolve_key_info) (key_info-KnownInfo api_key "dev" refl)
      | inr f ↦
          let (tier, r, known) = resolve_tier-Known environ store api_key configured c in
          rw (f, resolve_key_info) (rw r (key_info-KnownInfo api_key tier known))
    ]
