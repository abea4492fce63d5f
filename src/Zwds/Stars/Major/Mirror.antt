-- ===== src/Zwds/Stars/Major/Mirror.antt =====
-- The symmetries of the 14 major stars.
use fufire_api_lunar.Prelude.{ℕ, ◌+◌, ◌%◌, ◌<◌, ◌≡◌, refl, some, arith, String, List, suc}
use fufire_api_lunar.Prelude.Int.{pos, negsuc, ◌+ℤ◌, ◌-ℤ◌}
use fufire_api_lunar.Zwds.Domain.Modulo.{mod12}
use fufire_api_lunar.Zwds.Stars.Placed.{StarBranch, seat_of}
use fufire_api_lunar.Zwds.Stars.Major.{tianfu_branch, placement, major_stars_from_ziwei}

-- Tian Fu mirrors Zi Wei in the YIN-SHEN axis, and Zi Wei mirrors Tian Fu.
pub tianfu_mirror :
    (z : ℕ) → z < 12 → ((z + tianfu_branch z) % 12 ≡ 4) × (tianfu_branch (tianfu_branch z) ≡ z)
unfolding tianfu_branch mod12 ◌-ℤ◌
tianfu_mirror z h = ground arith

-- Both stars are placed, and reflect one another in the YIN-SHEN axis.
abbrev pub Mirrored : String → String → List StarBranch → Type 0
Mirrored a b stars =
    (x : ℕ) × (y : ℕ) × (seat_of a stars ≡ some x) × (seat_of b stars ≡ some y) × ((x + y) % 12 ≡ 4)

-- Both stars are placed, on opposite branches.
abbrev pub Opposed : String → String → List StarBranch → Type 0
Opposed a b stars =
    (x : ℕ) × (y : ℕ) × (seat_of a stars ≡ some x) × (seat_of b stars ≡ some y) × ((x + 6) % 12 ≡ y)

anchor_sum : (z : ℕ) → (mod12 (pos z +ℤ pos 0) + mod12 (pos (tianfu_branch z) +ℤ pos 0)) % 12 ≡ 4
unfolding tianfu_branch mod12 ◌-ℤ◌ ◌+ℤ◌
anchor_sum z = ground arith

mirror_sum :
    (z k : ℕ)
    → k < 11
    → (mod12 (pos z +ℤ negsuc k) + mod12 (pos (tianfu_branch z) +ℤ pos (suc k))) % 12 ≡ 4
unfolding tianfu_branch mod12 ◌-ℤ◌ ◌+ℤ◌
mirror_sum z k h = ground arith

opposed_sum : (t k : ℕ) → (mod12 (pos t +ℤ pos k) + 6) % 12 ≡ mod12 (pos t +ℤ pos (k + 6))
unfolding mod12 ◌+ℤ◌
opposed_sum t k = ground arith

-- Five stars counted back from Zi Wei mirror five counted on from Tian Fu, and Tian Fu and Tian Xiang
-- oppose Qi Sha and Po Jun, for every Zi Wei branch.
pub major_stars-Mirrored :
    (z : ℕ)
    → let stars = major_stars_from_ziwei z in
      Mirrored "ZI_WEI" "TIAN_FU" stars
      × Mirrored "TIAN_JI" "TAI_YIN" stars
      × Mirrored "TAI_YANG" "JU_MEN" stars
      × Mirrored "WU_QU" "TIAN_XIANG" stars
      × Mirrored "TIAN_TONG" "TIAN_LIANG" stars
      × Opposed "TIAN_FU" "QI_SHA" stars
      × Opposed "TIAN_XIANG" "PO_JUN" stars
unfolding major_stars_from_ziwei placement
major_stars-Mirrored z = (
  (_, _, refl, refl, anchor_sum z),
  (_, _, refl, refl, mirror_sum z 0 (omega arith)),
  (_, _, refl, refl, mirror_sum z 2 (omega arith)),
  (_, _, refl, refl, mirror_sum z 3 (omega arith)),
  (_, _, refl, refl, mirror_sum z 4 (omega arith)),
  (_, _, refl, refl, opposed_sum (tianfu_branch z) 0),
  (_, _, refl, refl, opposed_sum (tianfu_branch z) 4),
)
