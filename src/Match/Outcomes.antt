-- ===== src/Match/Outcomes.antt =====
-- Computations that return what a predicate says or raise the error on blocked language.
use fufire_api_lunar.Prelude.{
  ◌≡◌, ◌⊎◌, refl, inl, inr, String, List, [], ◌∷◌, Result, ok, err, ◌>>=◌, blocked_language,
  eq_String, Option-cases,
}
use fufire_api_lunar.Match.Guard.{Python, find_blocked_language, guard_text, guard_all}

abbrev pub Guarded {ℓ} : {A : Type 0} → Result A → (A → Type ℓ) → Type ℓ
Guarded r P = (r ≡ err blocked_language) ⊎ ((a : _) × (r ≡ ok a) × P a)

pub Guarded-bind {ℓ κ} :
    {A : Type 0} {B : Type 0} {P : A → Type ℓ} {Q : B → Type κ} (m : Result A) (next : A → Result B)
    → Guarded m P
    → ((a : A) → P a → Guarded (next a) Q)
    → Guarded (m >>= next) Q
Guarded-bind m next (inl e) f = inl (rw e refl)
Guarded-bind m next (inr (a, e, p)) f = rw e (f a p)

pub Guarded-map {ℓ κ} :
    {A : Type 0} {P : A → Type ℓ} {Q : A → Type κ} (m : Result A)
    → Guarded m P
    → ((a : A) → P a → Q a)
    → Guarded m Q
Guarded-map m (inl e) f = inl e
Guarded-map m (inr (a, e, p)) f = inr (a, e, f a p)

-- The guard of one text, and of several.
module _ {F : Type 0} (python : Python F) where
  pub guard_text-Guarded : (text : String) → Guarded (guard_text python text) (λ s. Unit {0})
  unfolding guard_text
  guard_text-Guarded text = elim (Option-cases (find_blocked_language python text)) [
    | inl e ↦ inr (text, rw (e, guard_text) refl, tt)
    | inr (found, e) ↦ inl (rw (e, guard_text) refl)
  ]

  pub guard_all-Guarded : (texts : List String) → Guarded (guard_all python texts) (λ s. Unit {0})
  guard_all-Guarded [] = inr (tt, refl, tt)
  guard_all-Guarded (text ∷ texts) =
      Guarded-bind (guard_text python text) _ (guard_text-Guarded text)
        (λ clean _. guard_all-Guarded texts)
