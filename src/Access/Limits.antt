-- ===== src/Access/Limits.antt =====
-- bazi_engine/limiter.py: the limit per minute of a rate-limit key, and the storage of the counters.
-- A limit text `n/minute` is the number n. `ipaddress` and `int` of the standard library, which say what
-- an address and a numeral are, are arguments; the health check of the Redis client is one too.
pub mod Bounds
use fufire_api_lunar.Prelude.{
  ℕ, String, Bool, true, false, ◌||◌, Option, none, some, Result, ok, ◌>>=◌, ltb, ◌==◌, eq_ℕ,
  if◌then◌else◌,
}
use fufire_api_lunar.Prelude.Int.{ℤ, pos, negsuc}
use fufire_api_lunar.Prelude.Text.{nonempty, strip}
use fufire_api_lunar.Access.Environ.{Environ, getenv, truthy}
use fufire_api_lunar.Access.KeyStore.{InMemoryKeyStore}
use fufire_api_lunar.Access.Auth.{KeyInfo, given, resolve_key_info}

-- The API key where the request carries one, and else the remote address.
unfoldable pub get_rate_limit_key : Option KeyInfo → String → String
get_rate_limit_key none remote = remote
get_rate_limit_key (some info) remote = info.key

abbrev pub minute_limit : KeyInfo → ℕ
minute_limit info = if info.requests_per_minute == 0 then 10000 else info.requests_per_minute

abbrev pub limit_of_key : Environ → InMemoryKeyStore → String → Result ℕ
limit_of_key environ store key = do
  info ← resolve_key_info environ store key
  ok (minute_limit info)

unfoldable pub tier_limit : (String → Bool) → Environ → InMemoryKeyStore → String → Result ℕ
tier_limit is_address environ store key =
    if is_address key then ok 30 else limit_of_key environ store key

abbrev pub if_positive : Option ℤ → Option ℕ
if_positive (some (pos n)) = if ltb 0 n then some n else none
if_positive _ = none

unfoldable pub replica_count : (String → Option ℤ) → Environ → Option ℕ
replica_count int environ =
    let raw = strip (getenv environ "FUFIRE_REPLICA_COUNT" "") in
    if nonempty raw then if_positive (int raw) else none

-- The first of the two variables that is set and not empty.
unfoldable pub resolve_storage_uri : Environ → Option String
resolve_storage_uri environ =
    let first = getenv environ "REDIS_URL" "" in
    let second = getenv environ "REDIS_PRIVATE_URL" "" in
    if nonempty first then some first else if nonempty second then some second else none

abbrev pub or_zero : Option ℕ → ℕ
or_zero none = 0
or_zero (some n) = n

unfoldable pub redis_is_required : (String → Option ℤ) → Environ → Bool
redis_is_required int environ =
    given (resolve_storage_uri environ)
    || truthy (environ "FUFIRE_REQUIRE_REDIS")
    || ltb 1 (or_zero (replica_count int environ))

-- What the client's check does: there is none to call, it answers, or it raises.
pub data Check : Type 0 where
  no_check : Check
  answers : Bool → Check
  raises : Check

pub record StorageStatus : Type 0 where
  pub kind : String
  pub status : String
  pub required : Bool
  pub configured : Bool

abbrev pub redis_status : String → StorageStatus
redis_status status = record { kind = "redis"; status = status; required = true; configured = true }

abbrev pub checked_status : Check → StorageStatus
checked_status no_check = redis_status "degraded"
checked_status (answers healthy) = redis_status (if healthy then "ok" else "degraded")
checked_status raises = redis_status "unavailable"

abbrev pub memory_status : Bool → StorageStatus
memory_status required = record {
  kind = "memory";
  status = if required then "unavailable" else "ok";
  required = required;
  configured = false;
}

unfoldable pub get_storage_status : (String → Option ℤ) → Environ → Check → StorageStatus
get_storage_status int environ check = elim (resolve_storage_uri environ) [
  | none ↦ memory_status (redis_is_required int environ)
  | some uri ↦ checked_status check
]
