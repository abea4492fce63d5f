-- ===== src/Zwds/Seed.antt =====
-- bazi_engine/zwds/seed.py, the calendar half: the effective month, the year cycle and the seed.
pub mod Laws
use fufire_api_lunar.Prelude.{
  ℕ, ◌+◌, ◌/◌, ◌%◌, String, Bool, not, ◌||◌, leb, if◌then◌else◌, Result, ok, ◌>>=◌,
}
use fufire_api_lunar.Prelude.Int.{ℤ, pos, ◌-ℤ◌}
use fufire_api_lunar.Zwds.Domain.Modulo.{mod12, mod10}
use fufire_api_lunar.Zwds.Domain.Stem
use fufire_api_lunar.Zwds.Domain.Stem.{StemId}
use fufire_api_lunar.Zwds.Domain.Branch
use fufire_api_lunar.Zwds.Domain.Branch.{BranchId}
use fufire_api_lunar.Zwds.Domain.Animal
use fufire_api_lunar.Zwds.Domain.Animal.{AnimalId}
use fufire_api_lunar.Zwds.Calendar.{ResolvedLunarDate, ChineseLunisolarCalendar}

unfoldable pub hour_branch_index : ℕ → ℕ
hour_branch_index hour = (hour + 1) / 2 % 12

pub record LunarDate : Type 0 where
  pub year_label : ℤ
  pub month : ℕ
  pub day : ℕ
  pub is_leap_month : Bool
  pub month_length : ℕ

pub record YearCycle : Type 0 where
  pub stem_id : String
  pub branch_id : String
  pub basis_policy_id : String

pub record CalendarResolution : Type 0 where
  pub calendar_engine_id : String
  pub pre_late_zi_lunar_date : LunarDate
  pub chart_lunar_date : LunarDate
  pub effective_month_for_chart : ℕ
  pub leap_month_policy_id : String
  pub year_cycle : YearCycle

pub record ResolvedZwdsSeed : Type 0 where
  pub month : ℕ
  pub day : ℕ
  pub year_stem_index : ℕ
  pub year_branch_index : ℕ
  pub hour_branch_index : ℕ
  pub year_animal_id : AnimalId

unfoldable pub effective_month_for_leap_split : ℕ → ℕ → Bool → ℕ
effective_month_for_leap_split month day is_leap_month =
    if not is_leap_month || leb day 15 then month else month % 12 + 1

unfoldable pub year_cycle_for_label : ℤ → Result (StemId × BranchId × AnimalId)
year_cycle_for_label year_label = do
  let y_s = mod10 (year_label -ℤ pos 4)
  let y_b = mod12 (year_label -ℤ pos 4)
  stem ← Stem.of_value y_s
  branch ← Branch.of_value y_b
  animal ← Animal.of_value y_b
  ok (stem, branch, animal)

-- `_lunar_date`
unfoldable pub lunar_date : ResolvedLunarDate → LunarDate
lunar_date resolved = record {
  year_label = resolved.year_label;
  month = resolved.month;
  day = resolved.day;
  is_leap_month = resolved.is_leap_month;
  month_length = resolved.month_length;
}

-- `resolve_calendar_seed`. Of the chronometry it reads the chart date, the date of `effective_local`
-- and the hour branch's name; the calendar is the one built with the day boundary's offset.
unfoldable pub resolve_calendar_seed :
    {Date : Type 0}
    → ChineseLunisolarCalendar Date
    → Date
    → Date
    → String
    → String
    → String
    → Result (CalendarResolution × ResolvedZwdsSeed)
resolve_calendar_seed calendar chart_local_date pre_late_zi_date hour_branch_id leap_month_policy_id
      year_cycle_basis_policy_id =
    do
      chart_resolved ← calendar.resolve chart_local_date
      pre_resolved ← calendar.resolve pre_late_zi_date
      let effective_month =
          effective_month_for_leap_split chart_resolved.month chart_resolved.day
            chart_resolved.is_leap_month
      (year_stem, year_branch, year_animal) ← year_cycle_for_label chart_resolved.year_label
      hour_branch ← Branch.of_name hour_branch_id
      ok (
        record {
          calendar_engine_id = chart_resolved.calendar_engine_id;
          pre_late_zi_lunar_date = lunar_date pre_resolved;
          chart_lunar_date = lunar_date chart_resolved;
          effective_month_for_chart = effective_month;
          leap_month_policy_id = leap_month_policy_id;
          year_cycle = record {
            stem_id = Stem.name year_stem;
            branch_id = Branch.name year_branch;
            basis_policy_id = year_cycle_basis_policy_id;
          };
        },
        record {
          month = effective_month;
          day = chart_resolved.day;
          year_stem_index = Stem.value year_stem;
          year_branch_index = Branch.value year_branch;
          hour_branch_index = Branch.value hour_branch;
          year_animal_id = year_animal;
        },
      )
