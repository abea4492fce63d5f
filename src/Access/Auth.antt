-- ===== src/Access/Auth.antt =====
-- bazi_engine/auth.py: the tier of a key, the list of valid keys and `require_api_key`. Of the request
-- only the X-API-Key header is read; the information that is put on its state is the result.
pub mod Tiers
pub mod Outcome
use fufire_api_lunar.Prelude.{
  ℕ, String, Bool, true, false, not, ◌&&◌, ◌||◌, Option, none, some, List, [], ◌∷◌, Result, ok, err,
  ◌>>=◌, ◌>>◌, require, type_error, key_error, http_exception, ◌==◌, eq_String, if◌then◌else◌,
}
use fufire_api_lunar.Prelude.Dict.{get, put, has, to_set}
use fufire_api_lunar.Prelude.Text.{
  nonempty, is_ascii, strip, lower, split, partition, split_max, startswith,
}
use fufire_api_lunar.Access.Environ.{Environ, getenv, truthy}
use fufire_api_lunar.Access.KeyStore.{InMemoryKeyStore, get_key_store, is_valid, tier_of}

-- Requests per day and per minute; 0 stands for no limit.
abbrev pub tier_limits : List (String × (ℕ × ℕ))
tier_limits =
    ("dev", (0, 0))
    ∷ ("free", (100, 5))
    ∷ ("starter", (1000, 20))
    ∷ ("pro", (10000, 100))
    ∷ ("enterprise", (0, 0))
    ∷ []

pub record KeyInfo : Type 0 where
  pub key : String
  pub tier : String
  pub requests_per_day : ℕ
  pub requests_per_minute : ℕ

-- An entry of the overrides by its parts before and after the colon, if it has one.
abbrev pub override_parts :
    List (String × String) → Option (String × String) → List (String × String)
override_parts result none = result
override_parts result (some (before, after)) =
    let key = strip before in
    let tier = lower (strip after) in
    if nonempty key && has tier_limits tier then put result key tier else result

abbrev pub override_entry : List (String × String) → String → List (String × String)
override_entry result entry = override_parts result (partition b':' (strip entry))

abbrev pub override_entries : List (String × String) → List String → List (String × String)
override_entries result [] = result
override_entries result (entry ∷ entries) = override_entries (override_entry result entry) entries

unfoldable pub load_tier_overrides : Environ → List (String × String)
load_tier_overrides environ =
    let raw = strip (getenv environ "FUFIRE_KEY_TIER_OVERRIDES" "") in
    if nonempty raw then override_entries [] (split b',' raw) else []

-- The store's tier, if it is a known one.
abbrev pub known_tier : Option String → Option String
known_tier none = none
known_tier (some tier) = if has tier_limits tier then some tier else none

abbrev pub tier_in_store : Option InMemoryKeyStore → String → Option String
tier_in_store none api_key = none
tier_in_store (some store) api_key = known_tier (tier_of store api_key)

unfoldable pub store_tier_of : Environ → InMemoryKeyStore → String → Result (Option String)
store_tier_of environ store api_key = do
  configured ← get_key_store environ store
  ok (tier_in_store configured api_key)

-- `len(parts) >= 3 and parts[1] in TIER_LIMITS`
abbrev pub second_part : List String → Option String
second_part (ff ∷ tier ∷ secret ∷ rest) = if has tier_limits tier then some tier else none
second_part _ = none

unfoldable pub prefix_tier : String → Option String
prefix_tier api_key =
    if startswith api_key "ff_" then second_part (split_max b'_' 2 api_key) else none

-- `... or "free"`
abbrev pub or_free : Option String → String
or_free none = "free"
or_free (some tier) = if nonempty tier then tier else "free"

abbrev pub tier_by_store : Environ → InMemoryKeyStore → String → Result String
tier_by_store environ store api_key = do
  found ← store_tier_of environ store api_key
  ok (or_free found)

abbrev pub tier_by_prefix : Environ → InMemoryKeyStore → String → Result String
tier_by_prefix environ store api_key = elim (prefix_tier api_key) [
  | some tier ↦ ok tier
  | none ↦ tier_by_store environ store api_key
]

unfoldable pub resolve_tier : Environ → InMemoryKeyStore → String → Result String
resolve_tier environ store api_key = elim (get (load_tier_overrides environ) api_key) [
  | some tier ↦ ok tier
  | none ↦ tier_by_prefix environ store api_key
]

-- `TIER_LIMITS[tier]` and the record
abbrev pub key_info : String → String → Result KeyInfo
key_info api_key tier = elim (get tier_limits tier) [
  | none ↦ err key_error
  | some (rpd, rpm) ↦
      ok (record { key = api_key; tier = tier; requests_per_day = rpd; requests_per_minute = rpm })
]

unfoldable pub resolve_key_info : Environ → InMemoryKeyStore → String → Result KeyInfo
resolve_key_info environ store api_key =
    if api_key == "dev-mode"
    then key_info api_key "dev"
    else resolve_tier environ store api_key >>= key_info api_key

-- `k.strip() for k in ... if k.strip()`
abbrev pub stripped : List String → List String
stripped [] = []
stripped (k ∷ ks) = let rest = stripped ks in if nonempty (strip k) then strip k ∷ rest else rest

unfoldable pub load_keys : Environ → List String
load_keys environ =
    let raw = getenv environ "FUFIRE_API_KEYS" "" in
    if nonempty (strip raw) then to_set (stripped (split b',' raw)) else []

unfoldable pub require_keys_explicit : Environ → Bool
require_keys_explicit environ = truthy (environ "FUFIRE_REQUIRE_API_KEYS")

-- hmac.compare_digest, which raises TypeError on a text with a character that is not ASCII
abbrev pub compare_digest : String → String → Result Bool
compare_digest a b = if is_ascii a && is_ascii b then ok (a == b) else err type_error

-- The loop over all the keys, with what was matched so far.
abbrev pub match_keys : String → Bool → List String → Result Bool
match_keys api_key matched [] = ok matched
match_keys api_key matched (valid ∷ rest) = do
  same ← compare_digest api_key valid
  match_keys api_key (same || matched) rest

unfoldable pub is_valid_api_key : String → List String → Result Bool
is_valid_api_key api_key valid_keys = match_keys api_key false valid_keys

abbrev pub given : {A : Type 0} → Option A → Bool
given none = false
given (some a) = true

unfoldable pub store_is_configured : Environ → InMemoryKeyStore → Result Bool
store_is_configured environ store = do
  configured ← get_key_store environ store
  ok (given configured)

abbrev pub valid_in : Option InMemoryKeyStore → String → Bool
valid_in none api_key = false
valid_in (some store) api_key = is_valid store api_key

unfoldable pub store_is_valid : Environ → InMemoryKeyStore → String → Result Bool
store_is_valid environ store api_key = do
  configured ← get_key_store environ store
  ok (valid_in configured api_key)

-- No key is set up anywhere.
abbrev pub without_keys : Environ → InMemoryKeyStore → Result KeyInfo
without_keys environ store = do
  require (not (require_keys_explicit environ)) (http_exception 503 "auth_configuration_error")
  resolve_key_info environ store "dev-mode"

-- `a or b()`
abbrev pub or_else : Bool → Result Bool → Result Bool
or_else first second = if first then ok true else second

abbrev pub key_accepted : Environ → InMemoryKeyStore → String → Result Bool
key_accepted environ store api_key = do
  listed ← is_valid_api_key api_key (load_keys environ)
  or_else listed (store_is_valid environ store api_key)

abbrev pub check_key : Environ → InMemoryKeyStore → String → Result KeyInfo
check_key environ store api_key = do
  key_ok ← key_accepted environ store api_key
  require key_ok (http_exception 401 "unauthorized")
  resolve_key_info environ store api_key

abbrev pub with_keys : Environ → InMemoryKeyStore → Option String → Result KeyInfo
with_keys environ store none = err (http_exception 401 "unauthorized")
with_keys environ store (some api_key) = check_key environ store api_key

abbrev pub no_keys : List String → Bool
no_keys [] = true
no_keys (k ∷ ks) = false

abbrev pub by_setup : Environ → InMemoryKeyStore → Option String → Bool → Result KeyInfo
by_setup environ store api_key store_configured =
    if no_keys (load_keys environ) && not store_configured
    then without_keys environ store
    else with_keys environ store api_key

unfoldable pub require_api_key : Environ → InMemoryKeyStore → Option String → Result KeyInfo
require_api_key environ store api_key = do
  store_configured ← store_is_configured environ store
  by_setup environ store api_key store_configured
