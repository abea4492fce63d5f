-- ===== src/Zwds/Stars/Major/Anchors.antt =====
-- What the Zi Wei anchor is: the classical rule by quotient and supplement.
use fufire_api_lunar.Prelude.{ℕ, ◌+◌, ◌-◌, ◌*◌, ◌%◌, ◌≤◌, ◌<◌, ◌≡◌, ◌⊎◌, ok, eq_ℕ, arith}
use fufire_api_lunar.Prelude.Int.{pos, ◌+ℤ◌, ◌-ℤ◌}
use fufire_api_lunar.Zwds.Domain.Modulo.{mod12, mod12-lt}
use fufire_api_lunar.Zwds.Stars.Major.{ziwei_from, ziwei_branch, ceil_div}

-- Add to the day the fewest days that make it a multiple of the bureau number. From YIN go on by
-- the quotient less one; then on by the supplement if that is even, and back by it if it is odd.
pub record Anchored (d b z : ℕ) : Type 0 where
  pub quotient : ℕ
  pub supplement : ℕ
  pub multiple : d + supplement ≡ quotient * b
  pub fewest : supplement < b
  pub on_ring : z < 12
  pub seated :
      ((supplement % 2 ≡ 0) × (z ≡ (2 + quotient + supplement - 1) % 12))
      ⊎ ((supplement % 2 ≡ 1) × ((z + supplement) % 12 ≡ (2 + quotient - 1) % 12))

ceil_div_bounds : (d b : ℕ) → 0 < b → (d ≤ ceil_div d b * b) × (ceil_div d b * b < d + b)
ceil_div_bounds d b h = grind arith

ziwei_from_lem :
    (k delta : ℕ)
    → 0 < k
    → ((delta % 2 ≡ 0) × (ziwei_from k (pos delta) ≡ (2 + k + delta - 1) % 12))
      ⊎ ((delta % 2 ≡ 1) × ((ziwei_from k (pos delta) + delta) % 12 ≡ (2 + k - 1) % 12))
unfolding ziwei_from mod12 ◌+ℤ◌ ◌-ℤ◌
ziwei_from_lem k delta h = ground arith

exact_supplement : (k d : ℕ) → d ≤ k → pos k -ℤ pos d ≡ pos (k - d)
unfolding ◌-ℤ◌
exact_supplement k d h = ground arith

Anchored-from :
    (d b k : ℕ) → 0 < k → d ≤ k * b → k * b < d + b → Anchored d b (ziwei_from k (pos (k * b - d)))
unfolding ziwei_from
Anchored-from d b k hk lo hi = record {
  quotient = k;
  supplement = k * b - d;
  multiple = omega arith;
  fewest = omega arith;
  on_ring = mod12-lt _;
  seated = ziwei_from_lem k (k * b - d) hk;
}

ceil_div_pos : (d b : ℕ) → 0 < d → 0 < b → 0 < ceil_div d b
ceil_div_pos d b hd hb = grind (arith, ceil_div_bounds d b hb)

-- For a positive lunar day and bureau number the code returns the branch of the classical rule.
pub ziwei_branch-Anchored :
    (d b : ℕ) → 0 < d → 0 < b → (z : ℕ) × (ziwei_branch d b ≡ ok z) × Anchored d b z
unfolding ziwei_branch
ziwei_branch-Anchored d b hd hb = (
  ziwei_from (ceil_div d b) (pos (ceil_div d b * b) -ℤ pos d),
  ground arith,
  rw (exact_supplement (ceil_div d b * b) d (ceil_div_bounds d b hb).0) (
      Anchored-from d b (ceil_div d b) (ceil_div_pos d b hd hb) (ceil_div_bounds d b hb).0
        (ceil_div_bounds d b hb).1),
)
