-- ===== src/Prelude/Equality.antt =====
-- Python's `==` on the types that dictionaries and sets are keyed by.
use Prim.Native.Nat.{ℕ}
use Prim.Native.String.{String}
use mathlib.Core.Path.{◌≡◌, refl}
use mathlib.Core.Logic.{◌↔◌, inl, inr, ◌≢◌}
use mathlib.Core.Bool.{Bool, true, false, ◌&&◌}
use native.Mathlib.Omega.{arith}
use text.Mathlib.Text.{◌==◌ as str_eq}
use text.Mathlib.TextEquality.{eq_iff}
use fufire_api_lunar.Prelude.Tests.{◌==◌ as nat_eq, ==_iff, Bool-cases}

pub record Eq (A : Type 0) : Type 0 where
  pub beq : A → A → Bool
  pub beq_iff : (a b : A) → (beq a b ≡ true) ↔ (a ≡ b)

instance abbrev pub eq_ℕ : Eq ℕ
eq_ℕ = record { beq = nat_eq; beq_iff = ==_iff }

instance abbrev pub eq_String : Eq String
eq_String = record { beq = str_eq; beq_iff = eq_iff }

infix 50 ◌==◌
abbrev pub ◌==◌ : {A : Type 0} ⦃e : Eq A⦄ → A → A → Bool
◌==◌ ⦃e⦄ = e.beq

module _ {A : Type 0} ⦃e : Eq A⦄ where
  pub beq_self : (a : A) → (a == a) ≡ true
  beq_self a = (e.beq_iff a a).1 refl

  pub beq_eq : (a b : A) → (a == b) ≡ true → a ≡ b
  beq_eq a b h = (e.beq_iff a b).0 h

  pub beq_ne : (a b : A) → a ≢ b → (a == b) ≡ false
  beq_ne a b h = elim (Bool-cases (a == b)) [ inl t ↦ absurd (h (beq_eq a b t)) | inr f ↦ f ]

  pub ne_of_beq : (a b : A) → (a == b) ≡ false → a ≢ b
  ne_of_beq a b f p = cc (beq_self a, f, p)

module _ {A : Type 0} {B : Type 0} ⦃e : Eq A⦄ ⦃f : Eq B⦄ where
  pub pair_iff : (p q : A × B) → ((p.0 == q.0 && p.1 == q.1) ≡ true) ↔ (p ≡ q)
  pair_iff (a, b) (c, d) = ground (arith, e.beq_iff a c, f.beq_iff b d)

  instance abbrev pub eq_pair : Eq (A × B)
  eq_pair = record { beq = λ p q. p.0 == q.0 && p.1 == q.1; beq_iff = pair_iff }
