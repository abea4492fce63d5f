-- ===== src/Access/Limits/Bounds.antt =====
-- The limits stay in bounds.
use fufire_api_lunar.Prelude.{
  ℕ, ◌≡◌, ◌≤◌, refl, inl, inr, String, Bool, Option, some, List, [], ◌∷◌, ok, arith, eq_ℕ,
  eq_String, Bool-cases,
}
use fufire_api_lunar.Prelude.Dict.{get}
use fufire_api_lunar.Access.Environ.{Environ}
use fufire_api_lunar.Access.KeyStore.{InMemoryKeyStore, get_key_store}
use fufire_api_lunar.Access.Auth.{KeyInfo, tier_limits}
use fufire_api_lunar.Access.Auth.Tiers.{resolve_key_info_total}
use fufire_api_lunar.Access.Limits.{minute_limit, limit_of_key, tier_limit}

-- The limits per minute of a table are at most 100.
abbrev AllBounded : List (String × (ℕ × ℕ)) → Type 0
AllBounded [] = Unit
AllBounded ((t, (d, m)) ∷ rest) = (m ≤ 100) × AllBounded rest

limits_bounded :
    (d : List (String × (ℕ × ℕ))) (tier : String) (rpd rpm : ℕ)
    → AllBounded d
    → get d tier ≡ some (rpd, rpm)
    → rpm ≤ 100
limits_bounded [] tier rpd rpm b e = absurd (cc e)
limits_bounded ((t, (d, m)) ∷ rest) tier rpd rpm b e =
    ground (arith, limits_bounded rest tier rpd rpm)

minute_limit_bounds :
    (info : KeyInfo)
    → info.requests_per_minute ≤ 100
    → (1 ≤ minute_limit info) × (minute_limit info ≤ 10000)
minute_limit_bounds info b = ground arith

-- With a backend that the service supports, every rate-limit key, a key or an address, has a limit from
-- 1 to 10000 requests per minute.
pub tier_limit_bounds :
    (is_address : String → Bool) (environ : Environ) (store : InMemoryKeyStore) (key : String)
    (configured : Option InMemoryKeyStore)
    → get_key_store environ store ≡ ok configured
    → (n : ℕ) × (tier_limit is_address environ store key ≡ ok n) × (1 ≤ n) × (n ≤ 10000)
unfolding tier_limit
tier_limit_bounds is_address environ store key configured c = elim (Bool-cases (is_address key)) [
  | inl t ↦ (30, rw (t, tier_limit) refl, omega arith, omega arith)
  | inr f ↦
      let known = resolve_key_info_total environ store key configured c in
      let bounded =
        limits_bounded tier_limits known.info.tier known.info.requests_per_day
          known.info.requests_per_minute (omega arith) known.listed in
      let (least, most) = minute_limit_bounds known.info bounded in
      (
        minute_limit known.info,
        rw (f, tier_limit) (rw (known.returned, limit_of_key) refl),
        least,
        most,
      )
]
