-- ===== src/Zwds/Chart.antt =====
-- The schema `chart` object of bazi_engine/zwds/engine.py, a record for each of its dicts. Enum
-- members stand in it by their names.
use fufire_api_lunar.Prelude.{ℕ, String, Bool, List, Option}
use fufire_api_lunar.Zwds.Bureau.{Bureau}
use fufire_api_lunar.Zwds.Transformations.{Transformation}

pub record StarPlacement : Type 0 where
  pub placement_id : String
  pub star_id : String
  pub family_id : String
  pub scope : String
  pub branch_id : String
  pub palace_role_id : String
  pub brightness_code : Option String
  pub transformation_types : List String
  pub formula_id : String
  pub source_status : String

pub record PalaceOut : Type 0 where
  pub palace_role_id : String
  pub sequence_index_0 : ℕ
  pub branch_id : String
  pub stem_id : String
  pub is_ming_palace : Bool
  pub is_shen_palace : Bool
  pub placement_ids : List String
  pub grid_position : Option ℕ

pub record CoordinateSystem : Type 0 where
  pub branch_index_origin : String
  pub branch_order : List String
  pub modulus : ℕ

pub record BirthCycle : Type 0 where
  pub year_stem_id : String
  pub year_branch_id : String
  pub year_animal_id : String
  pub hour_branch_id : String

pub record RelationOut : Type 0 where
  pub focus_palace_role_id : String
  pub focus_branch_id : String
  pub harmony_branch_ids : List String
  pub opposition_branch_id : String

pub record DecadalOut : Type 0 where
  pub sequence_index_0 : ℕ
  pub start_age_inclusive : ℕ
  pub end_age_inclusive : ℕ
  pub age_reckoning_id : String
  pub direction : String
  pub branch_id : String
  pub palace_role_id : String

pub record Completeness : Type 0 where
  pub requested_scope : String
  pub ruleset_declared_families : List String
  pub emitted_families : List String
  pub missing_families : List String

pub record Chart : Type 0 where
  pub coordinate_system : CoordinateSystem
  pub birth_cycle : BirthCycle
  pub ming_palace_branch_id : String
  pub shen_palace_branch_id : String
  pub five_elements_bureau : Bureau
  pub palaces : List PalaceOut
  pub star_placements : List StarPlacement
  pub transformations : List Transformation
  pub relations : List RelationOut
  pub decadal_limits : Option (List DecadalOut)
  pub completeness : Completeness
