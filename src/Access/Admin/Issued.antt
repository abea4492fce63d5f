-- ===== src/Access/Admin/Issued.antt =====
-- A key that the admin endpoint has issued: who got it, and what it is good for afterwards.
use Prim.Native.String.append.{nil, cons}
use fufire_api_lunar.Prelude.{
  ◌≡◌, refl, sym, ap, ◌∙◌, inl, inr, String, Bool, true, false, ◌||◌, Option, none, some, ok,
  result_inj, arith, ◌==◌, eq_String, beq_eq, beq_ne, All, Bool-cases, Option-cases,
}
use fufire_api_lunar.Prelude.Text.{is_ascii, startswith}
use fufire_api_lunar.Prelude.Dict.{get, contains}
use fufire_api_lunar.Access.Environ.{Environ}
use fufire_api_lunar.Access.KeyStore.{InMemoryKeyStore, key_text, mint_key, issue, empty_store}
use fufire_api_lunar.Access.KeyStore.History.{
  Inv, Stored, Stored-is_valid, Issued, Issued-Inv, issue-Issued, issue_known, issue_unknown,
}
use fufire_api_lunar.Access.Auth.{
  KeyInfo, prefix_tier, load_tier_overrides, tier_by_prefix, resolve_tier, resolve_key_info,
  load_keys, require_api_key,
}
use fufire_api_lunar.Access.Auth.Outcome.{require_api_key_outcome}
use fufire_api_lunar.Access.Limits.{limit_of_key, tier_limit}
use fufire_api_lunar.Access.Admin.{IssueKeyRequest, IssueKeyResponse, issue_key}
use fufire_api_lunar.Access.Admin.Granted.{issue_key-Granted, backend_later}

free_key_prefix : (token : String) → startswith (key_text "free" token) "ff_" ≡ true
free_key_prefix token = rw (cons, cons, cons) refl

free_key_tier : (token : String) → prefix_tier (key_text "free" token) ≡ some "free"
unfolding prefix_tier
free_key_tier token =
    rw (cons, cons, cons, nil, cons, cons, cons, cons, nil, cons, prefix_tier) refl

-- Where the store's keys come from the endpoint, all of them are free-tier keys.
abbrev FreeKey : String → Type 0
FreeKey key = (token : String) × (key ≡ key_text "free" token)

abbrev AllFree : InMemoryKeyStore → Type 0
AllFree store = (jti key : String) → get store.by_jti jti ≡ some key → FreeKey key

FreeKey-prefix_tier : (key : String) → FreeKey key → prefix_tier key ≡ some "free"
FreeKey-prefix_tier key (token, form) = rw form (free_key_tier token)

unlike_dev_mode : (key : String) → FreeKey key → (key == "dev-mode") ≡ false
unlike_dev_mode key (token, form) =
    beq_ne key "dev-mode" (λ same. dev_unlike (ap (λ k. startswith k "ff_") (sym form ∙ same)))
  where
    dev_unlike : startswith (key_text "free" token) "ff_" ≡ startswith "dev-mode" "ff_" → ⊥
    dev_unlike h = cc (free_key_prefix token, h)

issue-FreeKey :
    (store after : InMemoryKeyStore) (label jti token key : String)
    → AllFree store
    → issue store "free" label jti token ≡ ok (key, after)
    → FreeKey key
unfolding mint_key
issue-FreeKey store after label jti token key v h = elim (Option-cases (get store.by_jti jti)) [
  | inl e ↦
      let same = result_inj (sym (issue_unknown store "free" label jti token e) ∙ h) in
      (token, sym (ap (λ p. p.0) same))
  | inr (old, e) ↦
      let same = result_inj (sym (issue_known store "free" label jti token old e) ∙ h) in
      rw (sym (ap (λ p. p.0) same)) (v jti old e)
]

Issued-AllFree :
    (store after : InMemoryKeyStore) (jti key : String)
    → AllFree store
    → Issued store after jti key
    → FreeKey key
    → AllFree after
Issued-AllFree store after jti key v i f j k e = elim (Bool-cases (jti == j)) [
  | inl t ↦
      let found : get after.by_jti j ≡ some key = rw (sym (beq_eq jti j t)) i.found in
      let same : key ≡ k = cc (found, e) in rw (sym same) f
  | inr o ↦ v j k (sym (i.others j o) ∙ e)
]

-- A service that has started with an empty store, after requests to the endpoint; a request that is
-- refused changes nothing.
pub data Serves (environ : Environ) : InMemoryKeyStore → InMemoryKeyStore → Type 0 where
  same : {store : InMemoryKeyStore} → Serves environ store store
  more :
      {store later after : InMemoryKeyStore} (token : Option String) (payload : IssueKeyRequest)
      (drawn : String) {response : IssueKeyResponse}
      → Serves environ store later
      → issue_key environ later token payload drawn ≡ ok (response, after)
      → Serves environ store after

-- What the endpoint keeps of a store.
record Kept (store : InMemoryKeyStore) : Type 0 where
  pub inv : Inv store
  pub free : AllFree store

empty_store-Kept : Kept empty_store
empty_store-Kept = record { inv = λ jti key e. absurd (cc e); free = λ jti key e. absurd (cc e) }

-- What one granted request does to such a store.
record Step (store after : InMemoryKeyStore) (key : String) : Type 0 where
  pub kept : Kept after
  pub stored : Stored after key
  pub free : FreeKey key
  pub keeps : (k : String) → Stored store k → Stored after k

issue_key-Step :
    (environ : Environ) (store after : InMemoryKeyStore) (token : Option String)
    (payload : IssueKeyRequest) (drawn : String) (response : IssueKeyResponse)
    → Kept store
    → issue_key environ store token payload drawn ≡ ok (response, after)
    → Step store after response.key
issue_key-Step environ store after token payload drawn response v h =
    let g = issue_key-Granted environ store after token payload drawn response h in
    let i =
      issue-Issued store after "free" payload.label payload.jti drawn response.key v.inv g.issued in
    let f =
      issue-FreeKey store after payload.label payload.jti drawn response.key v.free g.issued in
    record {
      kept = record {
        inv = Issued-Inv store after payload.jti response.key v.inv i;
        free = Issued-AllFree store after payload.jti response.key v.free i f;
      };
      stored = i.stored;
      free = f;
      keeps = i.keeps;
    }

Serves-Kept :
    {environ : Environ} {store later : InMemoryKeyStore}
    → Kept store
    → Serves environ store later
    → Kept later × ((k : String) → Stored store k → Stored later k)
Serves-Kept v same = (v, λ k s. s)
Serves-Kept v (more token payload drawn r h) =
    let (kept, keeps) = Serves-Kept v r in
    let step = issue_key-Step _ _ _ token payload drawn _ kept h in
    (step.kept, λ k s. step.keeps k (keeps k s))

abbrev pub free_info : String → KeyInfo
free_info key = record { key = key; tier = "free"; requests_per_day = 100; requests_per_minute = 5 }

FreeKey-resolve_key_info :
    (environ : Environ) (store : InMemoryKeyStore) (key : String)
    → FreeKey key
    → get (load_tier_overrides environ) key ≡ none
    → resolve_key_info environ store key ≡ ok (free_info key)
unfolding resolve_key_info resolve_tier
FreeKey-resolve_key_info environ store key f o =
    rw (unlike_dev_mode key f, resolve_key_info)
      (rw (o, resolve_tier) (rw (FreeKey-prefix_tier key f, tier_by_prefix) refl))

or_true : (b : Bool) → (b || true) ≡ true
or_true true = refl
or_true false = refl

-- A service that started with an empty store has granted a request for a key. At every later point, if
-- the key is no address and has no override, and it and the listed keys are ASCII texts, a request that
-- presents the key is let through in the free tier, and its limit is 5 requests per minute.
pub issued_key_accepted :
    (environ : Environ) (store after later : InMemoryKeyStore) (token : Option String)
    (payload : IssueKeyRequest) (drawn : String) (response : IssueKeyResponse)
    (is_address : String → Bool)
    → Serves environ empty_store store
    → issue_key environ store token payload drawn ≡ ok (response, after)
    → Serves environ after later
    → get (load_tier_overrides environ) response.key ≡ none
    → is_address response.key ≡ false
    → is_ascii response.key ≡ true
    → All (λ v. is_ascii v ≡ true) (load_keys environ)
    → (require_api_key environ later (some response.key) ≡ ok (free_info response.key))
      × (tier_limit is_address environ later response.key ≡ ok 5)
unfolding tier_limit
issued_key_accepted environ store after later token payload drawn response is_address r h s o n a
      listed =
    let step =
      issue_key-Step environ store after token payload drawn response
        (Serves-Kept empty_store-Kept r).0 h in
    let g = issue_key-Granted environ store after token payload drawn response h in
    let backend = backend_later environ store later g.backend in
    let valid =
      Stored-is_valid later response.key ((Serves-Kept step.kept s).1 response.key step.stored) in
    let info = FreeKey-resolve_key_info environ later response.key step.free o in
    (
      require_api_key_outcome environ later response.key (some later) backend (ground arith) a
            listed
          ∙ rw (valid, or_true (contains (load_keys environ) response.key)) info,
      rw (n, tier_limit) (rw (info, limit_of_key) refl),
    )
