-- ===== src/Zwds/Stars/Placed.antt =====
-- `StarBranch` of bazi_engine/zwds/stars/__init__.py, and the loop body that both modules share.
use fufire_api_lunar.Prelude.{
  ℕ, String, List, [], ◌∷◌, Option, none, some, ◌==◌, eq_String, if◌then◌else◌,
}

pub record StarBranch : Type 0 where
  pub star_id : String
  pub family_id : String
  pub branch_index : ℕ
  pub formula_id : String
  pub source_status : String

-- Where the star with a given id is seated.
abbrev pub seat_of : String → List StarBranch → Option ℕ
seat_of s [] = none
seat_of s (x ∷ xs) = if x.star_id == s then some x.branch_index else seat_of s xs
