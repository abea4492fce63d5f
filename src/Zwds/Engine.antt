-- ===== src/Zwds/Engine.antt =====
-- bazi_engine/zwds/engine.py: the chart of a resolved seed, steps 3 to 12 of `compute_zwds_raw`. The
-- request's blocks hold the keys that these steps read; `flow_direction` may be null.
pub mod Placing
pub mod Spread
pub mod Hosting
pub mod Rings
pub mod Assembly
use Prim.Native.String.{◌++◌ as str_append}
use fufire_api_lunar.Prelude.{
  ℕ, ◌+◌, String, Bool, true, false, List, [], ◌∷◌, ◌++◌, map, Option, none, some, Result, ok, err,
  ◌>>=◌, ◌>>◌, value_error, stop_iteration, ◌==◌, eq_ℕ, eq_String, if◌then◌else◌,
}
use fufire_api_lunar.Prelude.Int.{ℤ, pos}
use fufire_api_lunar.Prelude.Dict.{get, put, from_pairs, contains, to_set}
use fufire_api_lunar.Zwds.Domain.Stem
use fufire_api_lunar.Zwds.Domain.Branch
use fufire_api_lunar.Zwds.Domain.Branch.{BranchId}
use fufire_api_lunar.Zwds.Domain.Animal
use fufire_api_lunar.Zwds.Bureau.{Bureau, five_elements_bureau}
use fufire_api_lunar.Zwds.Palace.{Palace, ming_branch, shen_branch, build_palaces}
use fufire_api_lunar.Zwds.Stars.Placed.{StarBranch}
use fufire_api_lunar.Zwds.Stars.Major.{major_stars}
use fufire_api_lunar.Zwds.Stars.Auxiliary.{guide_auxiliary_stars}
use fufire_api_lunar.Zwds.Relations.{Relation, relations_for_palaces}
use fufire_api_lunar.Zwds.Transformations.{
  Transformation, four_transformations, transformation_types_by_star, or_empty,
}
use fufire_api_lunar.Zwds.Decadal.{
  DecadalLimit, branch_to_role, role_at, decadal_direction, decadal_limits,
}
use fufire_api_lunar.Zwds.Seed.{ResolvedZwdsSeed}
use fufire_api_lunar.Zwds.Chart.{
  StarPlacement, PalaceOut, CoordinateSystem, BirthCycle, RelationOut, DecadalOut, Completeness,
  Chart,
}
use fufire_api_lunar.Zwds.Validation.{validate_chart_graph}

pub record Calculation : Type 0 where
  pub ruleset_id : String
  pub direction_method : String
  pub flow_direction : Option String

pub record Output : Type 0 where
  pub star_scope : String
  pub include_decadal_limits : Bool
  pub include_trace : Bool

-- `star_catalog`: the declared families, and each star's id with its source status.
pub record StarCatalog : Type 0 where
  pub declared_families : List String
  pub stars : List (String × String)

abbrev pub coordinate_system : CoordinateSystem
coordinate_system = record {
  branch_index_origin = "ZI_0";
  branch_order = map Branch.name Branch.members;
  modulus = 12;
}

unfoldable pub relation_dict : Relation → RelationOut
relation_dict relation = record {
  focus_palace_role_id = relation.focus_palace_role_id;
  focus_branch_id = Branch.name relation.focus_branch_id;
  harmony_branch_ids = map Branch.name (relation.harmony_1 ∷ relation.harmony_2 ∷ []);
  opposition_branch_id = Branch.name relation.opposition_branch_id;
}

unfoldable pub decadal_dict : DecadalLimit → DecadalOut
decadal_dict limit = record {
  sequence_index_0 = limit.sequence_index_0;
  start_age_inclusive = limit.start_age_inclusive;
  end_age_inclusive = limit.end_age_inclusive;
  age_reckoning_id = limit.age_reckoning_id;
  direction = limit.direction;
  branch_id = Branch.name limit.branch_id;
  palace_role_id = limit.palace_role_id;
}

unfoldable pub resolve_decadal_direction :
    Calculation → ResolvedZwdsSeed → Option String → Result String
resolve_decadal_direction calculation seed sex_at_birth =
    if calculation.direction_method == "explicit"
    then decadal_direction calculation.flow_direction none none
    else if calculation.direction_method == "year_stem_yinyang_and_sex"
    then decadal_direction none (some (pos seed.year_stem_index)) sex_at_birth
    else err value_error

-- d.get(k, default)
abbrev pub or_default : Option String → String → String
or_default none d = d
or_default (some v) d = v

abbrev pub placement_id_of : StarBranch → String
placement_id_of star = str_append "natal:" star.star_id

-- The dict of one star, in the loop of `_build_star_placements`.
unfoldable pub place_star :
    List (ℕ × String)
    → List (String × List String)
    → List (String × String)
    → StarBranch
    → Result StarPlacement
place_star roles tx_by_star source_status_by_star star = do
  branch ← Branch.of_value star.branch_index
  role ← role_at roles star.branch_index
  ok (record {
    placement_id = placement_id_of star;
    star_id = star.star_id;
    family_id = star.family_id;
    scope = "natal";
    branch_id = Branch.name branch;
    palace_role_id = role;
    brightness_code = none;
    transformation_types = or_empty (get tx_by_star star.star_id);
    formula_id = star.formula_id;
    source_status = or_default (get source_status_by_star star.star_id) star.source_status;
  })

-- `placements_by_branch.setdefault(star.branch_index, []).append(placement_id)`
unfoldable pub note_branch : List (ℕ × List String) → StarBranch → List (ℕ × List String)
note_branch by_branch star =
    put by_branch star.branch_index
      (or_empty (get by_branch star.branch_index) ++ placement_id_of star ∷ [])

-- The loop, with the two collections that it fills.
unfoldable pub place_stars :
    List (ℕ × String)
    → List (String × List String)
    → List (String × String)
    → List StarBranch
    → List StarPlacement
    → List (ℕ × List String)
    → Result (List StarPlacement × List (ℕ × List String))
place_stars roles tx_by_star statuses [] placements by_branch = ok (placements, by_branch)
place_stars roles tx_by_star statuses (star ∷ stars) placements by_branch = do
  placement ← place_star roles tx_by_star statuses star
  place_stars roles tx_by_star statuses stars (placements ++ placement ∷ [])
      (note_branch by_branch star)

unfoldable pub build_star_placements :
    List StarBranch
    → List Palace
    → ℕ
    → List (String × String)
    → Result (List StarPlacement × List (ℕ × List String))
build_star_placements star_branches palaces y_s source_status_by_star = do
  tx_by_star ← transformation_types_by_star y_s
  place_stars (branch_to_role palaces) tx_by_star source_status_by_star star_branches [] []

-- `[f for f in declared if f in emitted]`, and with `not in`
abbrev pub those_in : List String → List String → List String
those_in emitted [] = []
those_in emitted (f ∷ fs) =
    let rest = those_in emitted fs in if contains emitted f then f ∷ rest else rest

abbrev pub those_not_in : List String → List String → List String
those_not_in emitted [] = []
those_not_in emitted (f ∷ fs) =
    let rest = those_not_in emitted fs in if contains emitted f then rest else f ∷ rest

unfoldable pub build_completeness : Output → List String → List StarBranch → Completeness
build_completeness output declared_families star_branches =
    let emitted_set = to_set (map (λ (s : StarBranch). s.family_id) star_branches) in
    record {
      requested_scope = output.star_scope;
      ruleset_declared_families = declared_families;
      emitted_families = those_in emitted_set declared_families;
      missing_families = those_not_in emitted_set declared_families;
    }

unfoldable pub build_decadal_out :
    Output
    → Calculation
    → ResolvedZwdsSeed
    → Option String
    → List Palace
    → ℕ
    → Result (Option (List DecadalOut))
build_decadal_out output calculation seed sex_at_birth palaces bureau_number =
    if output.include_decadal_limits
    then (resolve_decadal_direction calculation seed sex_at_birth >>= λ direction.
        decadal_limits palaces bureau_number direction >>= λ limits.
        ok (some (map decadal_dict limits)))
    else ok none

-- `next(p for p in palaces if p.is_ming_palace)`
unfoldable pub first_ming : List Palace → Result Palace
first_ming [] = err stop_iteration
first_ming (p ∷ ps) = if p.is_ming_palace then ok p else first_ming ps

-- The dict of a palace in `palaces_out`.
unfoldable pub palace_out : List (ℕ × List String) → Palace → PalaceOut
palace_out placements_by_branch p = record {
  palace_role_id = p.palace_role_id;
  sequence_index_0 = p.sequence_index_0;
  branch_id = Branch.name p.branch_id;
  stem_id = Stem.name p.stem_id;
  is_ming_palace = p.is_ming_palace;
  is_shen_palace = p.is_shen_palace;
  placement_ids = or_empty (get placements_by_branch (Branch.value p.branch_id));
  grid_position = none;
}

-- The `birth_cycle` block.
unfoldable pub birth_cycle : ResolvedZwdsSeed → String → Result BirthCycle
birth_cycle seed hour_branch_id = do
  stem ← Stem.of_value seed.year_stem_index
  branch ← Branch.of_value seed.year_branch_index
  ok (record {
    year_stem_id = Stem.name stem;
    year_branch_id = Branch.name branch;
    year_animal_id = Animal.name seed.year_animal_id;
    hour_branch_id = hour_branch_id;
  })

-- Steps 3 to 12 up to the validated chart; `hour_branch_id` is the chronometry's.
unfoldable pub assemble_chart :
    ResolvedZwdsSeed → String → Calculation → Output → Option String → StarCatalog → Result Chart
assemble_chart seed hour_branch_id calculation output sex_at_birth star_catalog = do
  let y_s = seed.year_stem_index
  let m = pos seed.month
  let h1 = pos seed.hour_branch_index
  palaces ← build_palaces m h1 (pos y_s)
  ming_palace ← first_ming palaces
  bureau ←
      five_elements_bureau (pos (Stem.value ming_palace.stem_id))
        (pos (Branch.value ming_palace.branch_id))
  majors ← major_stars seed.day bureau.number
  let star_branches = majors ++ guide_auxiliary_stars m h1
  (star_placements, placements_by_branch) ←
      build_star_placements star_branches palaces y_s (from_pairs star_catalog.stars)
  let palaces_out = map (palace_out placements_by_branch) palaces
  transformations ← four_transformations y_s
  relations ← relations_for_palaces palaces
  decadal_out ← build_decadal_out output calculation seed sex_at_birth palaces bureau.number
  let completeness = build_completeness output star_catalog.declared_families star_branches
  cycle ← birth_cycle seed hour_branch_id
  ming ← Branch.of_value (ming_branch m h1)
  shen ← Branch.of_value (shen_branch m h1)
  validate_chart_graph palaces_out star_placements completeness
  ok (record {
    coordinate_system = coordinate_system;
    birth_cycle = cycle;
    ming_palace_branch_id = Branch.name ming;
    shen_palace_branch_id = Branch.name shen;
    five_elements_bureau = bureau;
    palaces = palaces_out;
    star_placements = star_placements;
    transformations = transformations;
    relations = map relation_dict relations;
    decadal_limits = decadal_out;
    completeness = completeness;
  })
