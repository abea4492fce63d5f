-- ===== src/Zwds/Engine/Assembly.antt =====
-- The chart of a seed: that it is assembled, and that its own validation never refuses it.
use fufire_api_lunar.Prelude.{
  ℕ, ◌≤◌, ◌<◌, ◌≡◌, ◌⊎◌, inl, inr, refl, sym, ap, ◌∙◌, String, Bool, true, false, List, [], ◌∷◌,
  ◌++◌, map, Option, none, some, ok, err, value_error, ◌==◌, All, ◌▸◌, arith, length, length-map,
  eq_String, if◌then◌else◌, Bool-cases,
}
use fufire_api_lunar.Prelude.Int.{ℤ, pos}
use fufire_api_lunar.Prelude.Dict.{contains, from_pairs, is_subset, all_different}
use fufire_api_lunar.Prelude.Keys.{unrepeated, unrepeated-fresh}
use fufire_api_lunar.Zwds.Domain.Modulo.{mod12, mod12-lt}
use fufire_api_lunar.Zwds.Domain.Stem
use fufire_api_lunar.Zwds.Domain.Branch
use fufire_api_lunar.Zwds.Domain.Animal
use fufire_api_lunar.Zwds.Palace.{palace_roles, ming_branch, shen_branch}
use fufire_api_lunar.Zwds.Palace.Ring.{
  ring, ring_from, build_palaces-ring, ming_branch-lt, shen_branch-lt,
}
use fufire_api_lunar.Zwds.Stars.Placed.{StarBranch}
use fufire_api_lunar.Zwds.Stars.Major.{placement, major_stars_from_ziwei, major_stars}
use fufire_api_lunar.Zwds.Stars.Major.Anchors.{ziwei_branch-Anchored}
use fufire_api_lunar.Zwds.Stars.Auxiliary
use fufire_api_lunar.Zwds.Stars.Auxiliary.{guide_auxiliary_stars}
use fufire_api_lunar.Zwds.Relations.Geometry.{around, relations_for_palaces-around}
use fufire_api_lunar.Zwds.Transformations.{
  Transformation, four_transformations, transformation_types_by_star, collect,
}
use fufire_api_lunar.Zwds.Transformations.Laws.{four_transformations-FourOf}
use fufire_api_lunar.Zwds.Decadal.{decadal_direction}
use fufire_api_lunar.Zwds.Decadal.Walk.{limits_of, decadal_limits-ring}
use fufire_api_lunar.Dayun.Direction.Laws.{resolve_direction_valid}
use fufire_api_lunar.Zwds.Seed.{ResolvedZwdsSeed}
use fufire_api_lunar.Zwds.Chart.{PalaceOut, StarPlacement, DecadalOut, BirthCycle, Chart}
use fufire_api_lunar.Zwds.Validation.{validate_chart_graph}
use fufire_api_lunar.Zwds.Validation.References.{ids_of}
use fufire_api_lunar.Zwds.Validation.Sequence.{count-range_12}
use fufire_api_lunar.Zwds.Validation.Consistent.{roles_of, Consistent, validate_chart_graph_iff}
use fufire_api_lunar.Zwds.Engine.{
  Calculation, Output, StarCatalog, coordinate_system, relation_dict, decadal_dict,
  resolve_decadal_direction, placement_id_of, build_star_placements, build_completeness,
  build_decadal_out, palace_out, birth_cycle, assemble_chart,
}
use fufire_api_lunar.Zwds.Engine.Placing.{noted, place_stars-placed}
use fufire_api_lunar.Zwds.Engine.Spread.{placement_ids_of}
use fufire_api_lunar.Zwds.Engine.Hosting.{all_placed, build_completeness-Covers}
use fufire_api_lunar.Zwds.Engine.Rings.{
  role_on, role_at-ring, first_ming-ring, ming_bureau, ring-role_on, branches_of-ring,
  references_different-ring, Hosted-out,
}

-- The stars of a chart: 14 from the Zi Wei branch, and four from the month and the hour.
abbrev pub stars_of : ℕ → ℤ → ℤ → List StarBranch
stars_of z m h = major_stars_from_ziwei z ++ guide_auxiliary_stars m h

stars_of-lt : (z : ℕ) (m h : ℤ) → All (λ (s : StarBranch). s.branch_index < 12) (stars_of z m h)
unfolding major_stars_from_ziwei placement guide_auxiliary_stars Auxiliary.placement
    Auxiliary.positions
stars_of-lt z m h =
    mod12-lt _
    ▸ mod12-lt _
    ▸ mod12-lt _
    ▸ mod12-lt _
    ▸ mod12-lt _
    ▸ mod12-lt _
    ▸ mod12-lt _
    ▸ mod12-lt _
    ▸ mod12-lt _
    ▸ mod12-lt _
    ▸ mod12-lt _
    ▸ mod12-lt _
    ▸ mod12-lt _
    ▸ mod12-lt _
    ▸ mod12-lt _
    ▸ mod12-lt _
    ▸ mod12-lt _
    ▸ mod12-lt _
    ▸ tt

stars_of-length : (z : ℕ) (m h : ℤ) → length (stars_of z m h) ≡ 18
unfolding major_stars_from_ziwei guide_auxiliary_stars Auxiliary.positions
stars_of-length z m h = refl

stars_of-unrepeated : (z : ℕ) (m h : ℤ) → unrepeated (placement_ids_of (stars_of z m h)) ≡ true
unfolding major_stars_from_ziwei placement guide_auxiliary_stars Auxiliary.placement
    Auxiliary.positions
stars_of-unrepeated z m h = refl

stars_of-declared :
    (z : ℕ) (m h : ℤ) (declared : List String)
    → contains declared "MAJOR_14" ≡ true
    → contains declared "GUIDE_AUX_4" ≡ true
    → is_subset (map (λ (s : StarBranch). s.family_id) (stars_of z m h)) declared ≡ true
unfolding major_stars_from_ziwei placement guide_auxiliary_stars Auxiliary.placement
    Auxiliary.positions
stars_of-declared z m h declared majors auxiliaries = rw (majors, auxiliaries)

-- The transformations of a stem index, and the map by star made from them.
abbrev Transformed : ℕ → Type 0
Transformed y_s =
    (ts : List Transformation) × (four_transformations y_s ≡ ok ts)
    × (transformation_types_by_star y_s ≡ ok (collect [] ts))

transformed : (y_s : ℕ) → y_s < 10 → Transformed y_s
unfolding transformation_types_by_star
transformed y_s h =
    let (ts, e, four) = four_transformations-FourOf (Stem.member_at y_s) in
    let here : four_transformations y_s ≡ ok ts =
      ap four_transformations (sym (Stem.value-member_at y_s h)) ∙ e in
    (ts, here, rw here refl)

decadal_valid :
    (flow : Option String) (stem : Option ℤ) (sex : Option String) (d : String)
    → decadal_direction flow stem sex ≡ ok d
    → (d ≡ "forward") ⊎ (d ≡ "backward")
unfolding decadal_direction
decadal_valid (some flow) stem sex d h = resolve_direction_valid _ d h
decadal_valid none stem sex d h = resolve_direction_valid _ d h

resolved_flow :
    (calculation : Calculation) (seed : ResolvedZwdsSeed) (sex : Option String) (d : String)
    → resolve_decadal_direction calculation seed sex ≡ ok d
    → (d ≡ "forward") ⊎ (d ≡ "backward")
unfolding resolve_decadal_direction
resolved_flow calculation seed sex d h =
    by_method (calculation.direction_method == "explicit")
      (calculation.direction_method == "year_stem_yinyang_and_sex") h
  where
    by_method :
        (a b : Bool)
        → (if a
            then decadal_direction calculation.flow_direction none none
            else if b
            then decadal_direction none (some (pos seed.year_stem_index)) sex
            else err value_error)
          ≡ ok d
        → (d ≡ "forward") ⊎ (d ≡ "backward")
    by_method true b h = decadal_valid _ _ _ d h
    by_method false true h = decadal_valid _ _ _ d h
    by_method false false h = cc

-- A request for decadal limits gives a direction, or asks for none.
abbrev pub Directed : Output → Calculation → ResolvedZwdsSeed → Option String → Type 0
Directed output calculation seed sex =
    (output.include_decadal_limits ≡ false)
    ⊎ ((d : String) × (resolve_decadal_direction calculation seed sex ≡ ok d))

decadal_out-ring :
    (output : Output) (calculation : Calculation) (seed : ResolvedZwdsSeed) (sex : Option String)
    (ming_b shen_b : ℕ) (y_s : ℤ) (n : ℕ)
    → ming_b < 12
    → Directed output calculation seed sex
    → (o : Option (List DecadalOut)) × (build_decadal_out output calculation seed sex
          (ring_from ming_b shen_b y_s 0 palace_roles)
          n
        ≡ ok o)
unfolding build_decadal_out
decadal_out-ring output calculation seed sex ming_b shen_b y_s n h (inl e) = (none, rw e)
decadal_out-ring output calculation seed sex ming_b shen_b y_s n h (inr (d, e)) =
    let limits =
      decadal_limits-ring ming_b shen_b y_s n d h (resolved_flow calculation seed sex d e) in
    elim (Bool-cases output.include_decadal_limits) [
      | inl t ↦ (some (map decadal_dict (limits_of ming_b n d 12 0)), rw (t, e, limits))
      | inr f ↦ (none, rw f)
    ]

-- The parts of a chart that the validation reads, on a ring with the stars placed.
module _ (ming_b shen_b : ℕ) (y_s : ℤ) (on_ring : ming_b < 12)
    (tx_by_star : List (String × List String)) (statuses : List (String × String)) (z : ℕ)
    (m h : ℤ) where
  abbrev palaces_with : List PalaceOut
  palaces_with =
      map (palace_out (noted [] (stars_of z m h))) (ring_from ming_b shen_b y_s 0 palace_roles)

  abbrev placements_with : List StarPlacement
  placements_with = all_placed tx_by_star statuses (role_on ming_b) (stars_of z m h)

  roles_with : roles_of palaces_with ≡ palace_roles
  unfolding palace_out
  roles_with = refl

  ids-placed :
      (stars : List StarBranch)
      → ids_of (all_placed tx_by_star statuses (role_on ming_b) stars) ≡ placement_ids_of stars
  ids-placed [] = refl
  ids-placed (s ∷ ss) = ap (λ l. placement_id_of s ∷ l) (ids-placed ss)

  parts-Consistent :
      (output : Output) (declared : List String)
      → contains declared "MAJOR_14" ≡ true
      → contains declared "GUIDE_AUX_4" ≡ true
      → Consistent palaces_with placements_with
          (build_completeness output declared (stars_of z m h))
  unfolding palace_out
  parts-Consistent output declared majors auxiliaries = record {
    placements_different =
        ap all_different (ids-placed (stars_of z m h))
        ∙ unrepeated-fresh [] (placement_ids_of (stars_of z m h)) (stars_of-unrepeated z m h)
            (λ k out. refl);
    references_different =
        references_different-ring (stars_of z m h) ming_b shen_b y_s on_ring
          (stars_of-unrepeated z m h);
    hosted =
        Hosted-out tx_by_star statuses (role_on ming_b) (stars_of z m h)
          (ring_from ming_b shen_b y_s 0 palace_roles) (ring-role_on ming_b shen_b y_s on_ring);
    sequence = count-range_12;
    branches_different = branches_of-ring (noted [] (stars_of z m h)) ming_b shen_b y_s on_ring;
    families =
        build_completeness-Covers tx_by_star statuses (role_on ming_b) output declared
          (stars_of z m h) (stars_of-declared z m h declared majors auxiliaries);
  }

  parts-validated :
      (output : Output) (declared : List String)
      → contains declared "MAJOR_14" ≡ true
      → contains declared "GUIDE_AUX_4" ≡ true
      → validate_chart_graph palaces_with placements_with
          (build_completeness output declared (stars_of z m h))
        ≡ ok tt
  parts-validated output declared majors auxiliaries =
      (validate_chart_graph_iff palaces_with placements_with
          (build_completeness output declared (stars_of z m h)) (ap all_different roles_with)).1
        (parts-Consistent output declared majors auxiliaries)

-- What is known of an assembled chart: its graph is consistent, it has the twelve palaces by role, 18
-- stars, twelve relations, and a bureau number from 2 to 6.
pub record Assembled (c : Chart) : Type 0 where
  pub graph : Consistent c.palaces c.star_placements c.completeness
  pub palaces_by_role : roles_of c.palaces ≡ palace_roles
  pub stars_18 : length c.star_placements ≡ 18
  pub relations_12 : length c.relations ≡ 12
  pub least_bureau : 2 ≤ c.five_elements_bureau.number
  pub greatest_bureau : c.five_elements_bureau.number ≤ 6

abbrev cycle_of : ResolvedZwdsSeed → String → BirthCycle
cycle_of seed hour = record {
  year_stem_id = Stem.name (Stem.member_at seed.year_stem_index);
  year_branch_id = Branch.name (Branch.member_at seed.year_branch_index);
  year_animal_id = Animal.name seed.year_animal_id;
  hour_branch_id = hour;
}

birth_cycle-ok :
    (seed : ResolvedZwdsSeed) (hour : String)
    → seed.year_stem_index < 10
    → seed.year_branch_index < 12
    → birth_cycle seed hour ≡ ok (cycle_of seed hour)
unfolding birth_cycle
birth_cycle-ok seed hour hs hb =
    (rw (
      Stem.of_value-member_at seed.year_stem_index hs,
      Branch.of_value-member_at seed.year_branch_index hb,
    ))

majors-ok : (d n : ℕ) → 0 < d → 2 ≤ n → (z : ℕ) × (major_stars d n ≡ ok (major_stars_from_ziwei z))
unfolding major_stars
majors-ok d n hd hn = let (z, e, anchored) = ziwei_branch-Anchored d n hd (omega arith) in (z, rw e)

build_star_placements-ring :
    (ming_b shen_b : ℕ) (y : ℤ) (y_s : ℕ) (z : ℕ) (m h : ℤ) (statuses : List (String × String))
    (tx_by_star : List (String × List String))
    → ming_b < 12
    → transformation_types_by_star y_s ≡ ok tx_by_star
    → build_star_placements (stars_of z m h) (ring_from ming_b shen_b y 0 palace_roles) y_s statuses
      ≡ ok (
        all_placed tx_by_star statuses (role_on ming_b) (stars_of z m h),
        noted [] (stars_of z m h),
      )
unfolding build_star_placements
build_star_placements-ring ming_b shen_b y y_s z m h statuses tx_by_star hm e = rw e (
    place_stars-placed _ (role_on ming_b) (role_at-ring ming_b shen_b y hm) tx_by_star statuses
      (stars_of z m h) [] [] (stars_of-lt z m h))

-- A seed with a positive lunar day and year indices in range is assembled into a chart whenever the
-- catalog declares both star families and a requested direction can be resolved, whatever its month
-- and hour: no step raises, and the graph validation accepts the chart.
pub assemble_chart-Assembled :
    (seed : ResolvedZwdsSeed) (hour : String) (calculation : Calculation) (output : Output)
    (sex : Option String) (catalog : StarCatalog)
    → 0 < seed.day
    → seed.year_stem_index < 10
    → seed.year_branch_index < 12
    → contains catalog.declared_families "MAJOR_14" ≡ true
    → contains catalog.declared_families "GUIDE_AUX_4" ≡ true
    → Directed output calculation seed sex
    → (c : Chart) × (assemble_chart seed hour calculation output sex catalog ≡ ok c) × Assembled c
unfolding assemble_chart
assemble_chart-Assembled seed hour calculation output sex catalog hd hs hb majors auxiliaries
      directed =
    let m = pos seed.month in
    let h = pos seed.hour_branch_index in
    let y = pos seed.year_stem_index in
    let ming_b = ming_branch m h in
    let shen_b = shen_branch m h in
    let on_ring = ming_branch-lt m h in
    let (u, bureau, least, greatest) = ming_bureau ming_b shen_b y on_ring in
    let (z, major) = majors-ok seed.day u.number hd least in
    let (ts, four, by_star) = transformed seed.year_stem_index hs in
    let (limits, in_limits) =
      decadal_out-ring output calculation seed sex ming_b shen_b y u.number on_ring directed in
    let statuses = from_pairs catalog.stars in
    let stars =
      build_star_placements-ring ming_b shen_b y seed.year_stem_index z m h statuses (collect [] ts)
        on_ring by_star in
    let accepted =
      parts-validated ming_b shen_b y on_ring (collect [] ts) statuses z m h output
        catalog.declared_families majors auxiliaries in
    (
      record {
        coordinate_system = coordinate_system;
        birth_cycle = cycle_of seed hour;
        ming_palace_branch_id = Branch.name (Branch.member_at ming_b);
        shen_palace_branch_id = Branch.name (Branch.member_at shen_b);
        five_elements_bureau = u;
        palaces = palaces_with ming_b shen_b y on_ring (collect [] ts) statuses z m h;
        star_placements = placements_with ming_b shen_b y on_ring (collect [] ts) statuses z m h;
        transformations = ts;
        relations = map relation_dict (
            map (λ p. around p.palace_role_id (mod12 (pos (Branch.value p.branch_id))))
              (ring m h y));
        decadal_limits = limits;
        completeness = build_completeness output catalog.declared_families (stars_of z m h);
      },
      rw
          (
            build_palaces-ring m h y,
            first_ming-ring ming_b shen_b y on_ring,
            bureau,
            major,
            stars,
            four,
            relations_for_palaces-around (ring m h y),
            in_limits,
            birth_cycle-ok seed hour hs hb,
            Branch.of_value-member_at ming_b on_ring,
            Branch.of_value-member_at shen_b (shen_branch-lt m h),
            accepted,
          )
          refl,
      record {
        graph =
            parts-Consistent ming_b shen_b y on_ring (collect [] ts) statuses z m h output
              catalog.declared_families majors auxiliaries;
        palaces_by_role = roles_with ming_b shen_b y on_ring (collect [] ts) statuses z m h;
        stars_18 = length-map (stars_of z m h) _ ∙ stars_of-length z m h;
        relations_12 = refl;
        least_bureau = least;
        greatest_bureau = greatest;
      },
    )
