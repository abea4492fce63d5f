-- ===== src/Zwds/Stars/Auxiliary.antt =====
-- bazi_engine/zwds/stars/auxiliary.py: the four guide-defined auxiliary stars.
use fufire_api_lunar.Prelude.{ℕ, String, List, [], ◌∷◌, map}
use fufire_api_lunar.Prelude.Int.{ℤ, pos, ◌+ℤ◌, ◌-ℤ◌}
use fufire_api_lunar.Zwds.Domain.Modulo.{mod12}
use fufire_api_lunar.Zwds.Domain.Branch
use fufire_api_lunar.Zwds.Stars.Placed.{StarBranch}

abbrev chen : ℕ
chen = Branch.value Branch.chen

abbrev xu : ℕ
xu = Branch.value Branch.xu

abbrev guide_aux_family : String
guide_aux_family = "GUIDE_AUX_4"

abbrev guide_aux_formula : String
guide_aux_formula = "guide-auxiliary-placement.v1"

abbrev guide_aux_source_status : String
guide_aux_source_status = "SOURCE_NEEDED"

-- `positions`
unfoldable pub positions : ℤ → ℤ → List (String × ℕ)
positions m h1 =
    ("ZUO_FU", mod12 (pos chen +ℤ (m -ℤ pos 1)))
    ∷ ("YOU_BI", mod12 (pos xu -ℤ (m -ℤ pos 1)))
    ∷ ("WEN_QU", mod12 (pos chen +ℤ h1))
    ∷ ("WEN_CHANG", mod12 (pos xu -ℤ h1))
    ∷ []

unfoldable pub placement : String × ℕ → StarBranch
placement (star_id, branch_index) = record {
  star_id = star_id;
  family_id = guide_aux_family;
  branch_index = branch_index;
  formula_id = guide_aux_formula;
  source_status = guide_aux_source_status;
}

unfoldable pub guide_auxiliary_stars : ℤ → ℤ → List StarBranch
unfolding positions placement
guide_auxiliary_stars m hour_branch_index = map placement (positions m hour_branch_index)
