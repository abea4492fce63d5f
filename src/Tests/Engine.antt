-- ===== src/Tests/Engine.antt =====
-- The theorems on the seed, the validation and the engine of bazi_engine/zwds at concrete inputs.
use fufire_api_lunar.Prelude.{
  Bool, sym, ap, ◌∙◌, result_inj, ℕ, ◌+◌, ◌*◌, ◌%◌, ◌≤◌, ◌<◌, ◌≡◌, ◌↔◌, ◌⊎◌, inr, refl, List, [],
  ◌∷◌, map, none, some, ok, err, value_error, true, false, arith, ◌==◌, eq_ℕ, if◌then◌else◌,
}
use fufire_api_lunar.Prelude.Int.{pos, negsuc, ◌+ℤ◌}
use fufire_api_lunar.Zwds.Domain.Stem
use fufire_api_lunar.Zwds.Domain.Stem.{StemId}
use fufire_api_lunar.Zwds.Domain.Branch
use fufire_api_lunar.Zwds.Domain.Branch.{BranchId}
use fufire_api_lunar.Zwds.Domain.Animal
use fufire_api_lunar.Zwds.Domain.Animal.{AnimalId}
use fufire_api_lunar.Zwds.Palace.Ring.{ring}
use fufire_api_lunar.Zwds.Stars.Placed.{StarBranch}
use fufire_api_lunar.Zwds.Decadal.{decadal_direction}
use fufire_api_lunar.Dayun.Direction.{resolve_direction}
use fufire_api_lunar.Zwds.Calendar.{
  ResolvedLunarDate, resolved_lunar_date, ChineseLunisolarCalendar,
}
use fufire_api_lunar.Zwds.Seed.{
  hour_branch_index, CalendarResolution, ResolvedZwdsSeed, year_cycle_for_label,
  resolve_calendar_seed,
}
use fufire_api_lunar.Zwds.Seed.Laws.{
  Makes, InRange, SeedOf, BlockOf, hour_branch_index_lem, year_cycle_for_label_lem,
  resolve_calendar_seed-InRange,
}
use fufire_api_lunar.Zwds.Chronometry.{
  next_chart_day_policy_id, hour_span, hour_of, day_of, chart_date,
}
use fufire_api_lunar.Prelude.{◌>>=◌}
use fufire_api_lunar.Clock.Local.{in_years}
use fufire_api_lunar.Zwds.Chronometry.Days.{chart_date_shift}
use fufire_api_lunar.Prelude.{◌/◌}
use fufire_api_lunar.Zwds.Chart.{Chart, PalaceOut, StarPlacement, Completeness}
use fufire_api_lunar.Zwds.Validation.{validate_chart_graph}
use fufire_api_lunar.Zwds.Validation.Consistent.{Consistent, validate_chart_graph_iff}
use fufire_api_lunar.Zwds.Engine.{
  Calculation, Output, StarCatalog, resolve_decadal_direction, build_completeness, palace_out,
  assemble_chart,
}
use fufire_api_lunar.Zwds.Engine.Placing.{noted}
use fufire_api_lunar.Zwds.Engine.Hosting.{all_placed}
use fufire_api_lunar.Zwds.Engine.Rings.{role_on}
use fufire_api_lunar.Zwds.Engine.Assembly.{stars_of, Assembled, assemble_chart-Assembled}

abbrev seed_1984 : ResolvedZwdsSeed
seed_1984 = record {
  month = 12;
  day = 30;
  year_stem_index = 9;
  year_branch_index = 11;
  hour_branch_index = 0;
  year_animal_id = Animal.pig;
}

abbrev by_polarity : Calculation
by_polarity = record {
  ruleset_id = "zwds.fufire.core-seed.v1";
  direction_method = "year_stem_yinyang_and_sex";
  flow_direction = none;
}

abbrev with_limits : Output
with_limits = record {
  star_scope = "RULESET_DECLARED";
  include_decadal_limits = true;
  include_trace = false;
}

abbrev core_catalog : StarCatalog
core_catalog = record {
  declared_families = "MAJOR_14" ∷ "GUIDE_AUX_4" ∷ [];
  stars = ("ZI_WEI", "SOURCE_REVIEWED") ∷ ("WEN_QU", "SOURCE_NEEDED") ∷ [];
}

flow_1984 : resolve_decadal_direction by_polarity seed_1984 (some "female") ≡ ok "forward"
unfolding resolve_decadal_direction decadal_direction resolve_direction
flow_1984 = refl

assemble_chart-Assembled_example :
    (c : Chart) × (assemble_chart seed_1984 "ZI" by_polarity with_limits
        (some "female")
        core_catalog
      ≡ ok c)
    × Assembled c
assemble_chart-Assembled_example =
    assemble_chart-Assembled seed_1984 "ZI" by_polarity with_limits (some "female") core_catalog
      (omega arith) (omega arith) (omega arith) refl refl (inr ("forward", flow_1984))

abbrev some_stars : List StarBranch
some_stars = stars_of 3 (pos 5) (pos 9)

abbrev some_palaces : List PalaceOut
some_palaces = map (palace_out (noted [] some_stars)) (ring (pos 5) (pos 9) (pos 6))

abbrev some_placements : List StarPlacement
some_placements = all_placed [] [] (role_on 7) some_stars

abbrev some_completeness : Completeness
some_completeness =
    build_completeness with_limits ("MAJOR_14" ∷ "GUIDE_AUX_4" ∷ "OTHER" ∷ []) some_stars

validate_chart_graph_iff_example :
    (validate_chart_graph some_palaces some_placements some_completeness ≡ ok tt)
    ↔ Consistent some_palaces some_placements some_completeness
unfolding palace_out
validate_chart_graph_iff_example =
    validate_chart_graph_iff some_palaces some_placements some_completeness refl

-- A provider that knows two days, given by number.
abbrev new_year : ResolvedLunarDate
new_year = record {
  year_label = pos 1984;
  month = 1;
  day = 1;
  is_leap_month = false;
  month_length = 30;
  calendar_engine_id = "two-days";
}

abbrev eve : ResolvedLunarDate
eve = record {
  year_label = pos 1983;
  month = 12;
  day = 30;
  is_leap_month = false;
  month_length = 30;
  calendar_engine_id = "two-days";
}

abbrev two_days : ChineseLunisolarCalendar ℕ
two_days = record {
  resolve = λ d. if d == 1 then ok eve else if d == 2 then ok new_year else err value_error;
}

two_days-Makes : Makes two_days
unfolding resolved_lunar_date
two_days-Makes d r h = by_day (d == 1) (d == 2) h
  where
    by_day :
        (a b : Bool)
        → (if a then ok eve else if b then ok new_year else err value_error) ≡ ok r
        → resolved_lunar_date r ≡ ok r
    by_day true b h = ap resolved_lunar_date (sym (result_inj h)) ∙ h
    by_day false true h = ap resolved_lunar_date (sym (result_inj h)) ∙ h
    by_day false false h = cc

resolve_calendar_seed-InRange_example :
    (cal : CalendarResolution) × (seed : ResolvedZwdsSeed) × (resolve_calendar_seed two_days 2 1
        (Branch.name Branch.zi)
        "split"
        "lunar-year"
      ≡ ok (cal, seed))
    × InRange seed
    × SeedOf new_year Branch.zi seed
    × BlockOf new_year eve seed cal
resolve_calendar_seed-InRange_example =
    resolve_calendar_seed-InRange two_days 2 1 new_year eve Branch.zi "split" "lunar-year"
      two_days-Makes refl refl

year_cycle_for_label_lem_example :
    (s : StemId) × (b : BranchId) × (a : AnimalId) × (year_cycle_for_label (negsuc 2696)
      ≡ ok (s, b, a))
    × (Stem.value s % 2 ≡ Branch.value b % 2)
    × (year_cycle_for_label (negsuc 2696 +ℤ pos 60) ≡ ok (s, b, a))
year_cycle_for_label_lem_example = year_cycle_for_label_lem (negsuc 2696)

hour_branch_index_lem_example :
    let k = hour_branch_index 23 in
    let hour : ℕ = 23 in (k < 12) × (((hour ≡ 23) × (k ≡ 0)) ⊎ ((23 ≤ 2 * k) × (2 * k ≤ 23 + 1)))
hour_branch_index_lem_example = hour_branch_index_lem 23 (omega arith)

chart_date_shift_example :
    (chart_date (negsuc 0) next_chart_day_policy_id
      ≡ (in_years (negsuc 0 +ℤ pos hour_span) >>= λ later. ok (day_of later)))
    × (hour_branch_index (hour_of (negsuc 0)) ≡ hour_of (negsuc 0 +ℤ pos hour_span) / 2)
chart_date_shift_example = chart_date_shift (negsuc 0) refl
