-- ===== src/Tests/Zwds.antt =====
-- The theorems on bazi_engine/zwds at concrete inputs.
use fufire_api_lunar.Prelude.{ℕ, ◌%◌, ◌<◌, ◌≡◌, inr, refl, List, ok, arith, length}
use fufire_api_lunar.Prelude.Int.{pos, negsuc, ◌+ℤ◌, ◌*ℤ◌, floor_div}
use fufire_api_lunar.Zwds.Domain.Modulo.{mod12, mod12_division}
use fufire_api_lunar.Zwds.Domain.Stem
use fufire_api_lunar.Zwds.Domain.Branch
use fufire_api_lunar.Prelude.{get_or, ◌/◌}
use fufire_api_lunar.Zwds.Bureau.{Bureau, five_elements_bureau, bureau_pair_table}
use fufire_api_lunar.Zwds.Bureau.Laws.{
  looked_up, computed, bureau_pair_table_lem, nayin, OfPhase, five_elements_bureau_nayin,
}
use fufire_api_lunar.Zwds.Palace.{Palace, ming_branch, shen_branch, build_palaces}
use fufire_api_lunar.Zwds.Palace.Layout.{Complete, build_palaces-Complete}
use fufire_api_lunar.Zwds.Stars.Major.{ziwei_branch, major_stars_from_ziwei}
use fufire_api_lunar.Zwds.Stars.Major.Anchors.{Anchored, ziwei_branch-Anchored}
use fufire_api_lunar.Zwds.Stars.Major.Mirror.{Mirrored, Opposed, major_stars-Mirrored}
use fufire_api_lunar.Zwds.Relations.{relation_for_branch}
use fufire_api_lunar.Zwds.Relations.Geometry.{around, relation_symmetric}
use fufire_api_lunar.Zwds.Transformations.{four_transformations, transformation_types_by_star}
use fufire_api_lunar.Zwds.Transformations.Laws.{
  types_of, received, sources, transformation_types_by_star_lem,
}
use fufire_api_lunar.Zwds.Decadal.{DecadalLimit, decadal_limits}
use fufire_api_lunar.Zwds.Decadal.Flow.{stride, Contiguous, StartsAt, Housed, decadal_limits_flow}

methods : Unit {0}
unfolding mod12 ◌+ℤ◌ ◌*ℤ◌ ziwei_branch relation_for_branch four_transformations
methods = tt

build_palaces-Complete_example :
    (ps : List Palace) × (build_palaces (pos 5) (pos 9) (pos 6) ≡ ok ps)
    × Complete (ming_branch (pos 5) (pos 9)) (shen_branch (pos 5) (pos 9)) ps
build_palaces-Complete_example = build_palaces-Complete (pos 5) (pos 9) (pos 6)

decadal_limits_flow_example :
    (ps : List Palace) × (ls : List DecadalLimit) × (build_palaces (pos 5) (pos 9) (pos 6) ≡ ok ps)
    × (decadal_limits ps 4 "backward" ≡ ok ls)
    × (length ls ≡ 12)
    × StartsAt 4 (ming_branch (pos 5) (pos 9)) ls
    × Contiguous (stride "backward") ls
    × Housed ps ls
decadal_limits_flow_example = decadal_limits_flow (pos 5) (pos 9) (pos 6) 4 "backward" (inr refl)

ziwei_branch-Anchored_example : (z : ℕ) × (ziwei_branch 13 5 ≡ ok z) × Anchored 13 5 z
ziwei_branch-Anchored_example = ziwei_branch-Anchored 13 5 (omega arith) (omega arith)

major_stars-Mirrored_example :
    let stars = major_stars_from_ziwei 7 in
    Mirrored "ZI_WEI" "TIAN_FU" stars
    × Mirrored "TIAN_JI" "TAI_YIN" stars
    × Mirrored "TAI_YANG" "JU_MEN" stars
    × Mirrored "WU_QU" "TIAN_XIANG" stars
    × Mirrored "TIAN_TONG" "TIAN_LIANG" stars
    × Opposed "TIAN_FU" "QI_SHA" stars
    × Opposed "TIAN_XIANG" "PO_JUN" stars
major_stars-Mirrored_example = major_stars-Mirrored 7

bureau_pair_table_lem_example :
    looked_up bureau_pair_table 3 5 ≡ computed (five_elements_bureau (pos 3) (pos 5))
bureau_pair_table_lem_example = bureau_pair_table_lem 3 5 (omega arith) (omega arith)

five_elements_bureau_nayin_example :
    (b : Bureau) × (five_elements_bureau (pos (26 % 10)) (pos (26 % 12)) ≡ ok b)
    × OfPhase (get_or nayin (26 / 2) "") b
five_elements_bureau_nayin_example = five_elements_bureau_nayin 26 (omega arith)

relation_symmetric_example :
    let r = around "MING" 3 in
    let o = around "MING" 9 in
    let t = around "MING" 7 in
    let u = around "MING" 11 in
    (o.opposition_branch_id ≡ r.focus_branch_id)
    × (t.harmony_1 ≡ r.harmony_2)
    × (t.harmony_2 ≡ r.focus_branch_id)
    × (u.harmony_1 ≡ r.focus_branch_id)
    × (u.harmony_2 ≡ r.harmony_1)
unfolding methods Branch.of_value Branch.member_at
relation_symmetric_example =
    relation_symmetric "MING" (negsuc 8) (around "MING" 3) (around "MING" 9) (around "MING" 7)
      (around "MING" 11) refl refl refl refl

transformation_types_by_star_lem_example :
    types_of (transformation_types_by_star 6) "TAI_YIN"
    ≡ received "TAI_YIN" (sources (four_transformations 6))
transformation_types_by_star_lem_example = transformation_types_by_star_lem 6 "TAI_YIN"

mod12_division_example :
    (mod12 (negsuc 6) < 12)
    × (negsuc 6 ≡ floor_div (negsuc 6) 12 *ℤ pos 12 +ℤ pos (mod12 (negsuc 6)))
mod12_division_example = mod12_division (negsuc 6)
