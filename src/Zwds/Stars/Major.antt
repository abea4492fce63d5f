-- ===== src/Zwds/Stars/Major.antt =====
-- bazi_engine/zwds/stars/major.py: the Zi Wei and Tian Fu anchors and the 14 major stars. The lunar
-- day and the bureau number are small positive integers (1 to 30 and 2 to 6), for which
-- `ceil(d / B)` through a float is the exact rounded-up quotient.
pub mod Anchors
pub mod Mirror
use fufire_api_lunar.Prelude.{
  ℕ, ◌+◌, ◌-◌, ◌*◌, ◌/◌, String, List, [], ◌∷◌, ◌++◌, map, Result, ok, err, ◌>>=◌,
  zero_division_error, ◌==◌, eq_ℕ, if◌then◌else◌,
}
use fufire_api_lunar.Prelude.Int.{ℤ, pos, negsuc, ◌+ℤ◌, ◌-ℤ◌, floor_mod}
use fufire_api_lunar.Zwds.Domain.Modulo.{mod12}
use fufire_api_lunar.Zwds.Domain.Branch
use fufire_api_lunar.Zwds.Stars.Placed.{StarBranch}

abbrev pub yin : ℕ
yin = Branch.value Branch.yin

abbrev major_14_family : String
major_14_family = "MAJOR_14"

abbrev major_14_formula : String
major_14_formula = "major-star-offsets.v1"

abbrev major_14_source_status : String
major_14_source_status = "SOURCE_REVIEWED"

abbrev pub ziwei_offsets : List (String × ℤ)
ziwei_offsets =
    ("ZI_WEI", pos 0)
    ∷ ("TIAN_JI", negsuc 0)
    ∷ ("TAI_YANG", negsuc 2)
    ∷ ("WU_QU", negsuc 3)
    ∷ ("TIAN_TONG", negsuc 4)
    ∷ ("LIAN_ZHEN", negsuc 7)
    ∷ []

abbrev pub tianfu_offsets : List (String × ℤ)
tianfu_offsets =
    ("TIAN_FU", pos 0)
    ∷ ("TAI_YIN", pos 1)
    ∷ ("TAN_LANG", pos 2)
    ∷ ("JU_MEN", pos 3)
    ∷ ("TIAN_XIANG", pos 4)
    ∷ ("TIAN_LIANG", pos 5)
    ∷ ("QI_SHA", pos 6)
    ∷ ("PO_JUN", pos 10)
    ∷ []

-- ceil(d / b), for a positive b.
abbrev pub ceil_div : ℕ → ℕ → ℕ
ceil_div d b = (d + (b - 1)) / b

-- The branch that `ziwei_branch` computes from k and delta.
unfoldable pub ziwei_from : ℕ → ℤ → ℕ
ziwei_from k delta =
    let step = if floor_mod delta 2 == 0 then pos k +ℤ delta else pos k -ℤ delta in
    mod12 (pos yin +ℤ step -ℤ pos 1)

unfoldable pub ziwei_branch : ℕ → ℕ → Result ℕ
unfolding ziwei_from
ziwei_branch d b =
    if b == 0
    then err zero_division_error
    else (let k = ceil_div d b in ok (ziwei_from k (pos (k * b) -ℤ pos d)))

unfoldable pub tianfu_branch : ℕ → ℕ
tianfu_branch ziwei_b = mod12 (pos 4 -ℤ pos ziwei_b)

-- One placement of the two loops: `mod12(base + offset)`.
unfoldable pub placement : ℕ → String × ℤ → StarBranch
placement base (star_id, offset) = record {
  star_id = star_id;
  family_id = major_14_family;
  branch_index = mod12 (pos base +ℤ offset);
  formula_id = major_14_formula;
  source_status = major_14_source_status;
}

unfoldable pub major_stars_from_ziwei : ℕ → List StarBranch
unfolding placement
major_stars_from_ziwei ziwei_b =
    let tianfu_b = tianfu_branch ziwei_b in
    map (placement ziwei_b) ziwei_offsets ++ map (placement tianfu_b) tianfu_offsets

unfoldable pub major_stars : ℕ → ℕ → Result (List StarBranch)
major_stars d b = ziwei_branch d b >>= λ z. ok (major_stars_from_ziwei z)
