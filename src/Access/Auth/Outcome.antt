-- ===== src/Access/Auth/Outcome.antt =====
-- Which requests `require_api_key` lets through, and how it refuses the others.
use fufire_api_lunar.Prelude.{
  ◌≡◌, refl, sym, ap, ◌∙◌, inl, inr, ◌⊎◌, String, Bool, true, false, not, ◌&&◌, ◌||◌, Option, none,
  some, List, [], ◌∷◌, Result, ok, err, ◌>>◌, require, bind_ok, type_error, http_exception, arith,
  ◌==◌, eq_String, All, In, Bool-cases, if◌then◌else◌,
}
use fufire_api_lunar.Prelude.Dict.{contains}
use fufire_api_lunar.Prelude.Text.{is_ascii}
use fufire_api_lunar.Access.Environ.{Environ}
use fufire_api_lunar.Access.KeyStore.{InMemoryKeyStore, get_key_store}
use fufire_api_lunar.Access.Auth.{
  KeyInfo, resolve_key_info, load_keys, compare_digest, match_keys, is_valid_api_key, given,
  store_is_configured, valid_in, store_is_valid, or_else, key_accepted, check_key, with_keys,
  no_keys, by_setup, require_api_key,
}

abbrev IsAscii : String → Type 0
IsAscii s = is_ascii s ≡ true

-- The loop in constant time is a test of membership.
match_keys_ascii :
    (k : String) (matched : Bool) (keys : List String)
    → IsAscii k
    → All IsAscii keys
    → match_keys k matched keys ≡ ok (contains keys k || matched)
match_keys_ascii k matched [] a listed = refl
match_keys_ascii k matched (v ∷ vs) a (b, bs) =
    rw (a, b)
      (match_keys_ascii k (k == v || matched) vs a bs
        ∙ ap ok (ground (arith, eq_String.beq_iff k v, eq_String.beq_iff v k)))

configured_given :
    (environ : Environ) (store : InMemoryKeyStore) (configured : Option InMemoryKeyStore)
    → get_key_store environ store ≡ ok configured
    → store_is_configured environ store ≡ ok (given configured)
unfolding store_is_configured
configured_given environ store configured c = rw (c, store_is_configured) refl

configured_valid :
    (environ : Environ) (store : InMemoryKeyStore) (k : String)
    (configured : Option InMemoryKeyStore)
    → get_key_store environ store ≡ ok configured
    → store_is_valid environ store k ≡ ok (valid_in configured k)
unfolding store_is_valid
configured_valid environ store k configured c = rw (c, store_is_valid) refl

accepted_ascii :
    (environ : Environ) (store : InMemoryKeyStore) (k : String)
    (configured : Option InMemoryKeyStore)
    → get_key_store environ store ≡ ok configured
    → IsAscii k
    → All IsAscii (load_keys environ)
    → key_accepted environ store k ≡ ok (contains (load_keys environ) k || valid_in configured k)
unfolding is_valid_api_key
accepted_ascii environ store k configured c a listed =
    rw
      (
        is_valid_api_key,
        match_keys_ascii k false (load_keys environ) a listed,
        configured_valid environ store k configured c,
      )
      (elim (Bool-cases (contains (load_keys environ) k)) [ inl t ↦ rw t refl | inr f ↦ rw f refl ])

by_setup_keys :
    (environ : Environ) (store : InMemoryKeyStore) (api_key : Option String) (configured : Bool)
    → (no_keys (load_keys environ) && not configured) ≡ false
    → store_is_configured environ store ≡ ok configured
    → require_api_key environ store api_key ≡ with_keys environ store api_key
unfolding require_api_key
by_setup_keys environ store api_key configured some_key c =
    rw (c, require_api_key) (rw (some_key, by_setup) refl)

-- Where a key list or a store is set up, and all keys are ASCII texts, a key is let through, with the
-- information on it, just when it is in the list or valid in the store; otherwise the answer is 401.
pub require_api_key_outcome :
    (environ : Environ) (store : InMemoryKeyStore) (k : String)
    (configured : Option InMemoryKeyStore)
    → get_key_store environ store ≡ ok configured
    → (no_keys (load_keys environ) && not (given configured)) ≡ false
    → is_ascii k ≡ true
    → All (λ v. is_ascii v ≡ true) (load_keys environ)
    → require_api_key environ store (some k) ≡ (
        if contains (load_keys environ) k || valid_in configured k
        then resolve_key_info environ store k
        else err (http_exception 401 "unauthorized"))
require_api_key_outcome environ store k configured c some_key a listed =
    by_setup_keys environ store (some k) (given configured) some_key
      (configured_given environ store configured c)
    ∙ rw (accepted_ascii environ store k configured c a listed)
        (elim (Bool-cases (contains (load_keys environ) k || valid_in configured k)) [
          | inl t ↦ rw t refl
          | inr f ↦ rw f refl
        ])

match_keys_found :
    (k : String) (matched b : Bool) (keys : List String)
    → match_keys k matched keys ≡ ok b
    → b ≡ true
    → (matched ≡ true) ⊎ In k keys
match_keys_found k matched b [] h t = ground arith
match_keys_found k matched b (v ∷ vs) h t =
    let (same, e, rest) =
      bind_ok (compare_digest k v) (λ same. match_keys k (same || matched) vs) b h in
    elim (match_keys_found k (same || matched) b vs rest t) [
      | inl m ↦ ground (arith, eq_String.beq_iff k v)
      | inr i ↦ inr (inr i)
    ]

listed_or :
    (k : String) (keys : List String) (second : Result Bool) (listed : Bool)
    → match_keys k false keys ≡ ok listed
    → or_else listed second ≡ ok true
    → In k keys ⊎ (second ≡ ok true)
listed_or k keys second true e h = elim (match_keys_found k false true keys e refl) [
  | inl f ↦ absurd (cc f)
  | inr i ↦ inl i
]
listed_or k keys second false e h = inr h

accepted_found :
    (environ : Environ) (store : InMemoryKeyStore) (k : String)
    → key_accepted environ store k ≡ ok true
    → In k (load_keys environ) ⊎ (store_is_valid environ store k ≡ ok true)
unfolding is_valid_api_key
accepted_found environ store k h =
    let second = store_is_valid environ store k in
    let (listed, e, rest) =
      bind_ok (is_valid_api_key k (load_keys environ)) (λ listed. or_else listed second) true h in
    listed_or k (load_keys environ) second listed e rest

-- What a request was let through by.
pub record Admitted (environ : Environ) (store : InMemoryKeyStore) (api_key : Option String)
    (info : KeyInfo) : Type 0 where
  pub key : String
  pub presented : api_key ≡ some key
  pub accepted : In key (load_keys environ) ⊎ (store_is_valid environ store key ≡ ok true)
  pub resolved : resolve_key_info environ store key ≡ ok info

check_key-Admitted :
    (environ : Environ) (store : InMemoryKeyStore) (k : String) (info : KeyInfo)
    → check_key environ store k ≡ ok info
    → Admitted environ store (some k) info
check_key-Admitted environ store k info h =
    let (key_ok, e, rest) =
      bind_ok (key_accepted environ store k)
        (λ key_ok.
          require key_ok (http_exception 401 "unauthorized") >> resolve_key_info environ store k)
        info h in
    elim (Bool-cases key_ok) [
      | inl t ↦ record {
        key = k;
        presented = refl;
        accepted = accepted_found environ store k (e ∙ ap ok t);
        resolved = ground arith;
      }
      | inr f ↦ absurd (ground arith)
    ]

with_keys-Admitted :
    (environ : Environ) (store : InMemoryKeyStore) (api_key : Option String) (info : KeyInfo)
    → with_keys environ store api_key ≡ ok info
    → Admitted environ store api_key info
with_keys-Admitted environ store none info h = absurd (cc h)
with_keys-Admitted environ store (some k) info h = check_key-Admitted environ store k info h

-- Where a key list or a store is set up, whatever is let through has presented a key that is in the list
-- or valid in the store, and its information is that of this key.
pub require_api_key-Admitted :
    (environ : Environ) (store : InMemoryKeyStore) (api_key : Option String) (configured : Bool)
    (info : KeyInfo)
    → store_is_configured environ store ≡ ok configured
    → (no_keys (load_keys environ) && not configured) ≡ false
    → require_api_key environ store api_key ≡ ok info
    → Admitted environ store api_key info
require_api_key-Admitted environ store api_key configured info c some_key h =
    with_keys-Admitted environ store api_key info
      (sym (by_setup_keys environ store api_key configured some_key c) ∙ h)

match_keys_not_ascii :
    (k : String) (matched : Bool) (keys : List String)
    → is_ascii k ≡ false
    → no_keys keys ≡ false
    → match_keys k matched keys ≡ err type_error
match_keys_not_ascii k matched [] a n = absurd (cc n)
match_keys_not_ascii k matched (v ∷ vs) a n = rw a refl

-- Where a key is listed, a request whose key is not an ASCII text is answered by a TypeError of the
-- comparison, not by 401.
pub require_api_key_not_ascii :
    (environ : Environ) (store : InMemoryKeyStore) (k : String) (configured : Bool)
    → store_is_configured environ store ≡ ok configured
    → no_keys (load_keys environ) ≡ false
    → is_ascii k ≡ false
    → require_api_key environ store (some k) ≡ err type_error
unfolding is_valid_api_key
require_api_key_not_ascii environ store k configured c n a =
    by_setup_keys environ store (some k) configured (rw n refl) c
    ∙ rw (is_valid_api_key, match_keys_not_ascii k false (load_keys environ) a n) refl
