-- ===== src/Access/KeyStore/History.antt =====
-- What holds of the in-memory store after any number of `issue` calls.
use fufire_api_lunar.Prelude.{
  ◌≡◌, refl, sym, ap, ◌∙◌, inl, inr, result_inj, String, true, false, none, some, ok, err,
  value_error, arith, ◌==◌, eq_String, beq_self, beq_eq, Bool-cases, Option-cases, if◌then◌else◌,
}
use fufire_api_lunar.Prelude.Dict.{get, get-put, contains}
use fufire_api_lunar.Access.KeyStore.{
  InMemoryKeyStore, KeyRecord, mintable_tiers, key_text, mint_key, empty_store, store_key,
  issue_new, issue, is_valid, tier_of,
}

pub data Reachable : InMemoryKeyStore → Type 0 where
  start : Reachable empty_store
  issued :
      {store after : InMemoryKeyStore} (tier label jti token : String) {key : String}
      → Reachable store
      → issue store tier label jti token ≡ ok (key, after)
      → Reachable after

-- An active record for a key of its tier's form.
pub record Stored (store : InMemoryKeyStore) (key : String) : Type 0 where
  pub entry : KeyRecord
  pub found : get store.by_key key ≡ some entry
  pub active : entry.active ≡ true
  pub mintable : contains mintable_tiers entry.tier ≡ true
  pub token : String
  pub form : key ≡ key_text entry.tier token

-- A record that `issue` writes is put beside the old ones or in the place of one with the same key.
store_key-Stored :
    (store : InMemoryKeyStore) (tier label jti token : String)
    → contains mintable_tiers tier ≡ true
    → Stored (store_key store tier label jti (key_text tier token)) (key_text tier token)
store_key-Stored store tier label jti token m = record {
  entry = record { tier = tier; label = label; jti = jti; active = true };
  found =
      rw
        (
          get-put store.by_key (key_text tier token) (key_text tier token) _,
          beq_self (key_text tier token),
        )
        refl;
  active = refl;
  mintable = m;
  token = token;
  form = refl;
}

store_key-keeps :
    (store : InMemoryKeyStore) (tier label jti token key : String)
    → contains mintable_tiers tier ≡ true
    → Stored store key
    → Stored (store_key store tier label jti (key_text tier token)) key
store_key-keeps store tier label jti token key m s =
    elim (Bool-cases (key_text tier token == key)) [
      | inl t ↦
          rw (sym (beq_eq (key_text tier token) key t))
            (store_key-Stored store tier label jti token m)
      | inr f ↦ record {
        entry = s.entry;
        found = rw (get-put store.by_key (key_text tier token) key _, f) s.found;
        active = s.active;
        mintable = s.mintable;
        token = s.token;
        form = s.form;
      }
    ]

-- What one call has done.
pub record Issued (store after : InMemoryKeyStore) (jti key : String) : Type 0 where
  pub keeps : (k : String) → Stored store k → Stored after k
  pub stored : Stored after key
  pub found : get after.by_jti jti ≡ some key
  pub others : (j : String) → (jti == j) ≡ false → get after.by_jti j ≡ get store.by_jti j

abbrev pub Inv : InMemoryKeyStore → Type 0
Inv store = (jti key : String) → get store.by_jti jti ≡ some key → Stored store key

pub issue_new_eq :
    (store : InMemoryKeyStore) (tier label jti token : String)
    → issue_new store tier label jti token ≡ (
        if contains mintable_tiers tier
        then ok (key_text tier token, store_key store tier label jti (key_text tier token))
        else err value_error)
unfolding mint_key
issue_new_eq store tier label jti token = elim (Bool-cases (contains mintable_tiers tier)) [
  | inl t ↦ rw t refl
  | inr f ↦ rw f refl
]

store_key-Issued :
    (store : InMemoryKeyStore) (tier label jti token : String)
    → contains mintable_tiers tier ≡ true
    → Issued store (store_key store tier label jti (key_text tier token)) jti (key_text tier token)
store_key-Issued store tier label jti token m = record {
  keeps = λ k s. store_key-keeps store tier label jti token k m s;
  stored = store_key-Stored store tier label jti token m;
  found = rw (get-put store.by_jti jti jti (key_text tier token), beq_self jti) refl;
  others = λ j f. rw (get-put store.by_jti jti j (key_text tier token), f) refl;
}

issue_new-Issued :
    (store after : InMemoryKeyStore) (tier label jti token key : String)
    → issue_new store tier label jti token ≡ ok (key, after)
    → Issued store after jti key
issue_new-Issued store after tier label jti token key h =
    elim (Bool-cases (contains mintable_tiers tier)) [
      | inl m ↦
          let same = result_inj (sym (issue_new_eq store tier label jti token ∙ rw m refl) ∙ h) in
          let new : after ≡ store_key store tier label jti (key_text tier token) =
            sym (ap (λ p. p.1) same) in
          let minted : key ≡ key_text tier token = sym (ap (λ p. p.0) same) in
          rw (new, minted) (store_key-Issued store tier label jti token m)
      | inr f ↦ absurd (ground (arith, issue_new_eq store tier label jti token))
    ]

-- The two branches of a call.
pub issue_known :
    (store : InMemoryKeyStore) (tier label jti token key : String)
    → get store.by_jti jti ≡ some key
    → issue store tier label jti token ≡ ok (key, store)
unfolding issue
issue_known store tier label jti token key e = rw (e, issue) refl

pub issue_unknown :
    (store : InMemoryKeyStore) (tier label jti token : String)
    → get store.by_jti jti ≡ none
    → issue store tier label jti token ≡ issue_new store tier label jti token
unfolding issue
issue_unknown store tier label jti token e = rw (e, issue) refl

known-Issued :
    (store : InMemoryKeyStore) (jti key : String)
    → Inv store
    → get store.by_jti jti ≡ some key
    → Issued store store jti key
known-Issued store jti key v e = record {
  keeps = λ k s. s;
  stored = v jti key e;
  found = e;
  others = λ j f. refl;
}

pub issue-Issued :
    (store after : InMemoryKeyStore) (tier label jti token key : String)
    → Inv store
    → issue store tier label jti token ≡ ok (key, after)
    → Issued store after jti key
issue-Issued store after tier label jti token key v h = elim (Option-cases (get store.by_jti jti)) [
  | inl e ↦
      issue_new-Issued store after tier label jti token key
        (sym (issue_unknown store tier label jti token e) ∙ h)
  | inr (old, e) ↦
      let same = result_inj (sym (issue_known store tier label jti token old e) ∙ h) in
      rw (sym (ap (λ p. p.1) same), sym (ap (λ p. p.0) same)) (known-Issued store jti old v e)
]

pub Issued-Inv :
    (store after : InMemoryKeyStore) (jti key : String)
    → Inv store
    → Issued store after jti key
    → Inv after
Issued-Inv store after jti key v i j k e = elim (Bool-cases (jti == j)) [
  | inl t ↦
      let found : get after.by_jti j ≡ some key = rw (sym (beq_eq jti j t)) i.found in
      let same : key ≡ k = cc (found, e) in rw (sym same) i.stored
  | inr f ↦ i.keeps k (v j k (sym (i.others j f) ∙ e))
]

pub Reachable-Inv : {store : InMemoryKeyStore} → Reachable store → Inv store
Reachable-Inv start = λ jti key e. absurd (cc e)
Reachable-Inv (issued tier label jti token {key = key} r h) =
    Issued-Inv _ _ jti key (Reachable-Inv r)
      (issue-Issued _ _ tier label jti token key (Reachable-Inv r) h)

pub Stored-is_valid :
    (store : InMemoryKeyStore) (key : String) → Stored store key → is_valid store key ≡ true
unfolding is_valid
Stored-is_valid store key s = rw (s.found, is_valid) s.active

pub Stored-tier_of :
    (store : InMemoryKeyStore) (key : String) (s : Stored store key)
    → tier_of store key ≡ some s.entry.tier
unfolding tier_of
Stored-tier_of store key s = rw (s.found, tier_of) (rw s.active refl)
