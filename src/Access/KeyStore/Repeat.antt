-- ===== src/Access/KeyStore/Repeat.antt =====
-- `issue` again: it succeeds, it is idempotent, and it revokes nothing.
use fufire_api_lunar.Prelude.{
  ◌≡◌, refl, ◌∙◌, inl, inr, String, true, some, ok, eq_String, Option-cases,
}
use fufire_api_lunar.Prelude.Dict.{get, contains}
use fufire_api_lunar.Access.KeyStore.{
  InMemoryKeyStore, mintable_tiers, key_text, store_key, issue, find_by_jti, is_valid, tier_of,
}
use fufire_api_lunar.Access.KeyStore.History.{
  Reachable, Reachable-Inv, Stored-is_valid, Stored-tier_of, issue-Issued, issue_known,
  issue_unknown, issue_new_eq,
}

-- With a tier that may be minted a call succeeds: a known `jti` is not asked for its tier.
issue_total :
    (store : InMemoryKeyStore) (tier label jti token : String)
    → contains mintable_tiers tier ≡ true
    → (key : String) × (after : InMemoryKeyStore) × (issue store tier label jti token
        ≡ ok (key, after))
issue_total store tier label jti token m = elim (Option-cases (get store.by_jti jti)) [
  | inl e ↦ (
    key_text tier token,
    store_key store tier label jti (key_text tier token),
    issue_unknown store tier label jti token e
        ∙ issue_new_eq store tier label jti token
        ∙ rw m refl,
  )
  | inr (old, e) ↦ (old, store, issue_known store tier label jti token old e)
]

-- What a caller is promised of the key that a call returns.
pub record Promise (tier₂ label₂ token₂ jti : String) (key : String) (after : InMemoryKeyStore)
    : Type 0 where
  pub valid : is_valid after key ≡ true
  pub found : find_by_jti after jti ≡ some key
  pub tier : String
  pub persisted : tier_of after key ≡ some tier
  pub mintable : contains mintable_tiers tier ≡ true
  pub again : issue after tier₂ label₂ jti token₂ ≡ ok (key, after)

-- From a store that calls have built, a call with a tier that may be minted returns a key, which then is
-- valid, has such a tier, and stands under its `jti`; and a further call with this `jti`, whatever its
-- tier, label and draw, returns the same key and changes nothing.
pub issue-Promise :
    (store : InMemoryKeyStore) (tier label jti token tier₂ label₂ token₂ : String)
    → Reachable store
    → contains mintable_tiers tier ≡ true
    → (key : String) × (after : InMemoryKeyStore) × (issue store tier label jti token
        ≡ ok (key, after))
      × Promise tier₂ label₂ token₂ jti key after
unfolding find_by_jti
issue-Promise store tier label jti token tier₂ label₂ token₂ r m =
    let (key, after, h) = issue_total store tier label jti token m in
    let i = issue-Issued store after tier label jti token key (Reachable-Inv r) h in
    (
      key,
      after,
      h,
      record {
        valid = Stored-is_valid after key i.stored;
        found = i.found;
        tier = i.stored.entry.tier;
        persisted = Stored-tier_of after key i.stored;
        mintable = i.stored.mintable;
        again = issue_known after tier₂ label₂ jti token₂ key i.found;
      },
    )
