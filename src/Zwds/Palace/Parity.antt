-- ===== src/Zwds/Palace/Parity.antt =====
-- Stem and branch of a palace have one parity.
use fufire_api_lunar.Prelude.{ℕ, ◌%◌, ◌≡◌, arith}
use fufire_api_lunar.Prelude.Int.{ℤ, pos, negsuc, ◌+ℤ◌, ◌-ℤ◌, ◌*ℤ◌}
use fufire_api_lunar.Zwds.Domain.Modulo.{mod12, mod10}
use fufire_api_lunar.Zwds.Palace.{yin_stem, palace_stem}

pub yin_stem_even : (y_s : ℤ) → yin_stem y_s % 2 ≡ 0
unfolding yin_stem mod10 ◌+ℤ◌ ◌*ℤ◌
yin_stem_even (pos n) = ground arith
yin_stem_even (negsuc n) = ground arith

-- Whatever the year stem, the stem seated on branch `b` has the parity of `b`.
pub palace_stem_parity : (b : ℕ) (y_s : ℤ) → palace_stem (pos b) y_s % 2 ≡ b % 2
unfolding palace_stem mod10 mod12 ◌+ℤ◌ ◌-ℤ◌
palace_stem_parity b y_s = ground (arith, yin_stem_even y_s)
