-- ===== src/Access/Admin/Granted.antt =====
-- Which requests the admin endpoint grants.
use fufire_api_lunar.Prelude.{
  ◌≡◌, refl, sym, ap, ◌∙◌, String, true, Option, none, some, Result, ok, err, ◌>>=◌, require,
  bind_ok, result_inj, http_exception, arith, eq_String,
}
use fufire_api_lunar.Prelude.Dict.{contains}
use fufire_api_lunar.Prelude.Text.{strip, lower}
use fufire_api_lunar.Access.Environ.{Environ}
use fufire_api_lunar.Access.KeyStore.{InMemoryKeyStore, issue, get_key_store}
use fufire_api_lunar.Access.Admin.{
  allowed_issuance_tiers, IssueKeyRequest, IssueKeyResponse, admin_token, check_token, check_setup,
  verify_admin, assert_store, respond, issue_key,
}

pub record Granted (environ : Environ) (store : InMemoryKeyStore) (token : Option String)
    (payload : IssueKeyRequest) (drawn : String) (response : IssueKeyResponse)
    (after : InMemoryKeyStore) : Type 0 where
  pub configured : String
  pub admin : admin_token environ ≡ some configured
  pub presented : token ≡ some configured
  pub free : lower (strip payload.tier) ≡ "free"
  pub backend : get_key_store environ store ≡ ok (some store)
  pub issued : issue store "free" payload.label payload.jti drawn ≡ ok (response.key, after)
  pub tier : response.tier ≡ "free"

selected_store :
    (environ : Environ) (store selected : InMemoryKeyStore)
    → get_key_store environ store ≡ ok (some selected)
    → store ≡ selected
unfolding get_key_store
selected_store environ store selected h = ground arith

pub backend_later :
    (environ : Environ) (store later : InMemoryKeyStore)
    → get_key_store environ store ≡ ok (some store)
    → get_key_store environ later ≡ ok (some later)
unfolding get_key_store
backend_later environ store later h = ground arith

same_token_true :
    (token : Option String) (configured : String)
    → check_token token configured ≡ ok tt
    → token ≡ some configured
same_token_true none configured h = absurd (cc h)
same_token_true (some t) configured h = ground (arith, eq_String.beq_iff t configured)

check_setup_ok :
    (token admin : Option String) (store : Option InMemoryKeyStore)
    → check_setup token admin store ≡ ok tt
    → (configured : String) × (admin ≡ some configured) × (token ≡ some configured)
check_setup_ok token none none h = absurd (cc h)
check_setup_ok token none (some s) h = absurd (cc h)
check_setup_ok token (some c) none h = absurd (cc h)
check_setup_ok token (some c) (some s) h = (c, refl, same_token_true token c h)

verify_admin_ok :
    (environ : Environ) (store : InMemoryKeyStore) (token : Option String)
    → verify_admin environ store token ≡ ok tt
    → (configured : String) × (admin_token environ ≡ some configured) × (token ≡ some configured)
unfolding verify_admin
verify_admin_ok environ store token h =
    let (found, c, rest) = bind_ok (get_key_store environ store) _ tt h in
    check_setup_ok token (admin_token environ) found rest

allowed_free : (tier : String) → contains allowed_issuance_tiers tier ≡ true → "free" ≡ tier
allowed_free tier h = ground (arith, eq_String.beq_iff "free" tier)

respond_ok :
    (tier : String) (issued : Result (String × InMemoryKeyStore)) (response : IssueKeyResponse)
    (after : InMemoryKeyStore)
    → (issued >>= λ i. ok (respond tier i)) ≡ ok (response, after)
    → (issued ≡ ok (response.key, after)) × (response.tier ≡ tier)
respond_ok tier (err e) response after h = absurd (cc h)
respond_ok tier (ok (key, store)) response after h =
    let same = result_inj h in
    (ap ok (ap (λ p. (p.0.key, p.1)) same), sym (ap (λ p. p.0.tier) same))

issue_in_ok :
    (tier : String) (payload : IssueKeyRequest) (drawn : String) (response : IssueKeyResponse)
    (after : InMemoryKeyStore) (found : Option InMemoryKeyStore)
    → (assert_store found >>= λ present.
        issue present tier payload.label payload.jti drawn >>= λ issued. ok (respond tier issued))
      ≡ ok (response, after)
    → (present : InMemoryKeyStore) × (found ≡ some present)
      × (issue present tier payload.label payload.jti drawn ≡ ok (response.key, after))
      × (response.tier ≡ tier)
issue_in_ok tier payload drawn response after none h = absurd (cc h)
issue_in_ok tier payload drawn response after (some present) h =
    let (issued, same) =
      respond_ok tier (issue present tier payload.label payload.jti drawn) response after h in
    (present, refl, issued, same)

-- A key that the endpoint returns was asked for with the configured admin token and for the free tier, a
-- store is set up, and the key is what the store issues for the request's `jti`.
pub issue_key-Granted :
    (environ : Environ) (store after : InMemoryKeyStore) (token : Option String)
    (payload : IssueKeyRequest) (drawn : String) (response : IssueKeyResponse)
    → issue_key environ store token payload drawn ≡ ok (response, after)
    → Granted environ store token payload drawn response after
unfolding issue_key
issue_key-Granted environ store after token payload drawn response h =
    let (checked, e, h₁) = bind_ok (verify_admin environ store token) _ (response, after) h in
    let (configured, admin, presented) = verify_admin_ok environ store token e in
    let (allowed, a, h₂) =
      bind_ok
        (require (contains allowed_issuance_tiers (lower (strip payload.tier)))
          (http_exception 400 "tier_not_allowed"))
        _ (response, after) h₁ in
    let free : "free" ≡ lower (strip payload.tier) = allowed_free _ (ground arith) in
    let (found, f, h₃) = bind_ok (get_key_store environ store) _ (response, after) h₂ in
    let (present, there, issued, tier) =
      issue_in_ok (lower (strip payload.tier)) payload drawn response after found h₃ in
    let selected = selected_store environ store present (f ∙ ap ok there) in
    record {
      configured = configured;
      admin = admin;
      presented = presented;
      free = sym free;
      backend = f ∙ ap ok (there ∙ ap some (sym selected));
      issued = rw (selected, free) issued;
      tier = tier ∙ sym free;
    }
