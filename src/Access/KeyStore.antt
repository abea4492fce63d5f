-- ===== src/Access/KeyStore.antt =====
-- bazi_engine/key_store.py: the minting of keys and the in-memory store, whose lock makes every
-- `issue` one step. The random hexadecimal text that `secrets.token_hex` draws is an argument.
pub mod History
pub mod Repeat
use fufire_api_lunar.Prelude.{
  String, Bool, true, false, ◌||◌, Option, none, some, List, [], ◌∷◌, Result, ok, err, ◌>>=◌, ◌>>◌,
  require, value_error, ◌==◌, eq_String, if◌then◌else◌,
}
use Prim.Native.String.{◌++◌ as str_append}
use fufire_api_lunar.Prelude.Dict.{get, put, contains}
use fufire_api_lunar.Prelude.Text.{strip, lower}
use fufire_api_lunar.Access.Environ.{Environ, getenv}

abbrev pub mintable_tiers : List String
mintable_tiers = "free" ∷ "starter" ∷ "pro" ∷ "enterprise" ∷ []

-- The text of a key: `ff_<tier>_<token>`.
abbrev pub key_text : String → String → String
key_text tier token = str_append "ff_" (str_append tier (str_append "_" token))

unfoldable pub mint_key : String → String → Result String
mint_key tier token = do
  require (contains mintable_tiers tier) value_error
  ok (key_text tier token)

pub record KeyRecord : Type 0 where
  pub tier : String
  pub label : String
  pub jti : String
  pub active : Bool

pub record InMemoryKeyStore : Type 0 where
  pub by_key : List (String × KeyRecord)
  pub by_jti : List (String × String)

abbrev pub empty_store : InMemoryKeyStore
empty_store = record { by_key = []; by_jti = [] }

-- The branch of `issue` for a new `jti`.
abbrev pub store_key : InMemoryKeyStore → String → String → String → String → InMemoryKeyStore
store_key store tier label jti key = record {
  by_key = put store.by_key key (record { tier = tier; label = label; jti = jti; active = true });
  by_jti = put store.by_jti jti key;
}

unfoldable pub find_by_jti : InMemoryKeyStore → String → Option String
find_by_jti store jti = get store.by_jti jti

abbrev pub issue_new :
    InMemoryKeyStore → String → String → String → String → Result (String × InMemoryKeyStore)
issue_new store tier label jti token = do
  key ← mint_key tier token
  ok (key, store_key store tier label jti key)

-- The key and the store afterwards.
unfoldable pub issue :
    InMemoryKeyStore → String → String → String → String → Result (String × InMemoryKeyStore)
issue store tier label jti token = elim (get store.by_jti jti) [
  | some existing ↦ ok (existing, store)
  | none ↦ issue_new store tier label jti token
]

unfoldable pub is_valid : InMemoryKeyStore → String → Bool
is_valid store key = elim (get store.by_key key) [ none ↦ false | some found ↦ found.active ]

unfoldable pub tier_of : InMemoryKeyStore → String → Option String
tier_of store key = elim (get store.by_key key) [
  | none ↦ none
  | some found ↦ if found.active then some found.tier else none
]

-- The store that the environment selects: none, or the process's one in-memory store.
unfoldable pub get_key_store : Environ → InMemoryKeyStore → Result (Option InMemoryKeyStore)
get_key_store environ store =
    let backend = lower (strip (getenv environ "KEY_STORE_BACKEND" "none")) in
    if backend == "" || backend == "none"
    then ok none
    else if backend == "memory"
    then ok (some store)
    else err value_error
