-- ===== src/Zwds/Domain/Modulo.antt =====
-- `mod12` and `mod10` of bazi_engine/zwds/domain.py, over Python's `%` on integers.
use fufire_api_lunar.Prelude.{ℕ, ◌+◌, ◌*◌, ◌%◌, ◌<◌, ◌≡◌, arith}
use fufire_api_lunar.Prelude.Int.{
  ℤ, pos, negsuc, floor_mod, floor_div, ◌+ℤ◌, ◌*ℤ◌, pos_part, neg_part,
}

unfoldable pub mod12 : ℤ → ℕ
mod12 x = (floor_mod x 12 + 12) % 12

unfoldable pub mod10 : ℤ → ℕ
mod10 x = (floor_mod x 10 + 10) % 10

pub mod12-lt : (x : ℤ) → mod12 x < 12
unfolding mod12
mod12-lt x = omega arith

pub mod10-lt : (x : ℤ) → mod10 x < 10
unfolding mod10
mod10-lt x = omega arith

-- `mod12` is the remainder of division with a floored quotient: x = 12 q + mod12 x, for any
-- integer x, negative ones included.
pub mod12_division : (x : ℤ) → (mod12 x < 12) × (x ≡ floor_div x 12 *ℤ pos 12 +ℤ pos (mod12 x))
unfolding mod12 ◌+ℤ◌ ◌*ℤ◌
mod12_division (pos n) = ground arith
mod12_division (negsuc n) = ground arith

pub mod10_division : (x : ℤ) → (mod10 x < 10) × (x ≡ floor_div x 10 *ℤ pos 10 +ℤ pos (mod10 x))
unfolding mod10 ◌+ℤ◌ ◌*ℤ◌
mod10_division (pos n) = ground arith
mod10_division (negsuc n) = ground arith

-- Two integers that differ by a multiple of 12 have one residue.
pub mod12_eq :
    (x y : ℤ) (k l : ℕ)
    → pos_part x + neg_part y + 12 * k ≡ pos_part y + neg_part x + 12 * l
    → mod12 x ≡ mod12 y
unfolding mod12
mod12_eq (pos a) (pos b) k l h = omega arith
mod12_eq (pos a) (negsuc b) k l h = omega arith
mod12_eq (negsuc a) (pos b) k l h = omega arith
mod12_eq (negsuc a) (negsuc b) k l h = omega arith
