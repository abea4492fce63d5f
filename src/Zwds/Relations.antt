-- ===== src/Zwds/Relations.antt =====
-- bazi_engine/zwds/relations.py: the San Fang Si Zheng relations.
pub mod Geometry
use fufire_api_lunar.Prelude.{ℕ, ◌+◌, String, List, [], ◌∷◌, Result, ok, ◌>>=◌, map_result}
use fufire_api_lunar.Prelude.Int.{ℤ, pos, ◌+ℤ◌}
use fufire_api_lunar.Zwds.Domain.Modulo.{mod12}
use fufire_api_lunar.Zwds.Domain.Branch
use fufire_api_lunar.Zwds.Domain.Branch.{BranchId}
use fufire_api_lunar.Zwds.Palace.{Palace}

abbrev harmony_1_offset : ℕ
harmony_1_offset = 4

abbrev harmony_2_offset : ℕ
harmony_2_offset = 8

abbrev opposition_offset : ℕ
opposition_offset = 6

pub record Relation : Type 0 where
  pub focus_palace_role_id : String
  pub focus_branch_id : BranchId
  pub harmony_1 : BranchId
  pub harmony_2 : BranchId
  pub opposition_branch_id : BranchId

unfoldable pub relation_for_branch : String → ℤ → Result Relation
relation_for_branch palace_role_id focus_branch_index = do
  let p = mod12 focus_branch_index
  focus ← Branch.of_value p
  first ← Branch.of_value (mod12 (pos p +ℤ pos harmony_1_offset))
  second ← Branch.of_value (mod12 (pos p +ℤ pos harmony_2_offset))
  opposition ← Branch.of_value (mod12 (pos p +ℤ pos opposition_offset))
  ok (record {
    focus_palace_role_id = palace_role_id;
    focus_branch_id = focus;
    harmony_1 = first;
    harmony_2 = second;
    opposition_branch_id = opposition;
  })

unfoldable pub relations_for_palaces : List Palace → Result (List Relation)
unfolding relation_for_branch
relations_for_palaces palaces =
    map_result (λ p. relation_for_branch p.palace_role_id (pos (Branch.value p.branch_id))) palaces
