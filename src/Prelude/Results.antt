-- ===== src/Prelude/Results.antt =====
-- The exceptions that the modelled code raises, and computations that may raise one.
use Prim.Native.Nat.{ℕ}
use Prim.Native.String.{String}
use mathlib.Core.Bool.{Bool, true, false}
use mathlib.Core.Path.{◌≡◌, refl}
use mathlib.Core.Logic.{◌↔◌, ◌⊎◌, inl, inr}
use native.Mathlib.Omega.{arith}
use fufire_api_lunar.Prelude.Tests.{if◌then◌else◌}
use mathlib.Core.List.{List, [], ◌∷◌}

-- Python's own exceptions by class, and the engine's by class with what their `detail` names; of an
-- HTTP exception the status and the error code.
pub data Error : Type 0 where
  value_error key_error type_error zero_division_error assertion_error stop_iteration : Error
  direction_basis_missing : List String → Error
  input_error calculation_error not_supported : Error
  birth_time_required ruleset_not_found ruleset_integrity_failed : Error
  graph_invariant_failed : String → Error
  local_time_error overflow_error index_error : Error
  runtime_error blocked_language : Error
  http_exception : ℕ → String → Error

pub data Result {ℓ} (A : Type ℓ) : Type ℓ where
  err : Error → Result A
  ok : A → Result A

-- What runs after a computation is skipped when that raised.
infixl 5 ◌>>=◌
abbrev pub ◌>>=◌ {ℓ κ} : {A : Type ℓ} {B : Type κ} → Result A → (A → Result B) → Result B
err e >>= next = err e
ok v >>= next = next v

-- `if not test: raise e`
abbrev pub require : Bool → Error → Result (Unit {0})
require test e = if test then ok tt else err e

-- A statement run for what it may raise.
infixl 5 ◌>>◌
abbrev pub ◌>>◌ {ℓ} : {B : Type ℓ} → Result (Unit {0}) → Result B → Result B
check >> rest = check >>= λ done. rest

-- A loop that builds a list and may raise on the way.
abbrev pub map_result {ℓ κ} : {A : Type ℓ} {B : Type κ} → (A → Result B) → List A → Result (List B)
map_result f [] = ok []
map_result f (x ∷ xs) = f x >>= λ y. map_result f xs >>= λ ys. ok (y ∷ ys)

pub result_inj {ℓ} : {A : Type ℓ} {a b : A} → ok a ≡ ok b → a ≡ b
result_inj h = cc

-- When a check, and a check with what follows it, raise nothing.
pub require_iff : (test : Bool) (e : Error) → (require test e ≡ ok tt) ↔ (test ≡ true)
require_iff true e = ground arith
require_iff false e = ground arith

pub require_then_iff :
    (test : Bool) (e : Error) (rest : Result (Unit {0}))
    → ((require test e >> rest) ≡ ok tt) ↔ ((test ≡ true) × (rest ≡ ok tt))
require_then_iff true e rest = ground arith
require_then_iff false e rest = ground arith

-- How a computation in two steps returns, and how it raises.
pub bind_ok {ℓ κ} :
    {A : Type ℓ} {B : Type κ} (m : Result A) (next : A → Result B) (b : B)
    → (m >>= next) ≡ ok b
    → (a : A) × (m ≡ ok a) × (next a ≡ ok b)
bind_ok (err e) next b h = cc
bind_ok (ok a) next b h = (a, refl, h)

pub bind_err {ℓ κ} :
    {A : Type ℓ} {B : Type κ} (m : Result A) (next : A → Result B) (e : Error)
    → (m >>= next) ≡ err e
    → (m ≡ err e) ⊎ ((a : A) × (m ≡ ok a) × (next a ≡ err e))
bind_err (err d) next e h = inl (cc h)
bind_err (ok a) next e h = inr (a, refl, h)
