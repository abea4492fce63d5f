-- ===== src/Match/Returns.antt =====
-- Computations that return a value of which a predicate holds.
use fufire_api_lunar.Prelude.{◌≡◌, Result, ok, ◌>>=◌}

abbrev pub Returns {ℓ} : {A : Type 0} → Result A → (A → Type ℓ) → Type ℓ
Returns r P = (a : _) × (r ≡ ok a) × P a

pub Returns-bind {ℓ κ} :
    {A : Type 0} {B : Type 0} {P : A → Type ℓ} {Q : B → Type κ} (m : Result A) (next : A → Result B)
    → Returns m P
    → ((a : A) → P a → Returns (next a) Q)
    → Returns (m >>= next) Q
Returns-bind m next (a, e, p) f = rw e (f a p)
