-- ===== src/Zwds/Seed/Laws.antt =====
-- What a resolved seed is: formula inputs in range, and the sexagenary cycle of years.
use fufire_api_lunar.Prelude.{
  ℕ, ◌+◌, ◌*◌, ◌%◌, ◌≤◌, ◌<◌, ◌≡◌, ◌⊎◌, refl, ap, ◌∙◌, String, Bool, true, false, ok, arith, eq_ℕ,
}
use fufire_api_lunar.Prelude.Int.{ℤ, pos, ◌+ℤ◌, ◌-ℤ◌}
use fufire_api_lunar.Zwds.Domain.Modulo.{mod12, mod10, mod12-lt, mod10-lt}
use fufire_api_lunar.Zwds.Domain.Stem
use fufire_api_lunar.Zwds.Domain.Stem.{StemId}
use fufire_api_lunar.Zwds.Domain.Branch
use fufire_api_lunar.Zwds.Domain.Branch.{BranchId}
use fufire_api_lunar.Zwds.Domain.Animal
use fufire_api_lunar.Zwds.Domain.Animal.{AnimalId}
use fufire_api_lunar.Zwds.Calendar.{
  ResolvedLunarDate, resolved_lunar_date, ChineseLunisolarCalendar,
}
use fufire_api_lunar.Zwds.Seed.{
  hour_branch_index, lunar_date, CalendarResolution, ResolvedZwdsSeed,
  effective_month_for_leap_split, year_cycle_for_label, resolve_calendar_seed,
}

-- For a clock hour the index is below 12; an index k above 0 covers the hours 2k - 1 and 2k, and index
-- 0 the hours 23 and 0.
pub hour_branch_index_lem :
    (hour : ℕ)
    → hour < 24
    → let k = hour_branch_index hour in
      (k < 12) × (((hour ≡ 23) × (k ≡ 0)) ⊎ ((hour ≤ 2 * k) × (2 * k ≤ hour + 1)))
unfolding hour_branch_index
hour_branch_index_lem hour h = ground arith

pub effective_month_range :
    (month day : ℕ) (leap : Bool)
    → 1 ≤ month
    → month ≤ 12
    → (1 ≤ effective_month_for_leap_split month day leap)
      × (effective_month_for_leap_split month day leap ≤ 12)
unfolding effective_month_for_leap_split
effective_month_range month day leap lo hi = ground arith

-- The stem, branch and animal at a year label's places in their cycles.
abbrev pub cycle_at : ℤ → StemId × BranchId × AnimalId
cycle_at year = (
  Stem.member_at (mod10 (year -ℤ pos 4)),
  Branch.member_at (mod12 (year -ℤ pos 4)),
  Animal.member_at (mod12 (year -ℤ pos 4)),
)

pub year_cycle_for_label-cycle_at : (year : ℤ) → year_cycle_for_label year ≡ ok (cycle_at year)
unfolding year_cycle_for_label
year_cycle_for_label-cycle_at year = rw (
  Stem.of_value-member_at (mod10 (year -ℤ pos 4)) (mod10-lt _),
  Branch.of_value-member_at (mod12 (year -ℤ pos 4)) (mod12-lt _),
  Animal.of_value-member_at (mod12 (year -ℤ pos 4)) (mod12-lt _),
)

parity : (year : ℤ) → mod10 (year -ℤ pos 4) % 2 ≡ mod12 (year -ℤ pos 4) % 2
unfolding mod10 mod12 ◌-ℤ◌
parity year = ground arith

stems : (year : ℤ) → mod10 (year +ℤ pos 60 -ℤ pos 4) ≡ mod10 (year -ℤ pos 4)
unfolding mod10 ◌-ℤ◌ ◌+ℤ◌
stems year = ground arith

branches : (year : ℤ) → mod12 (year +ℤ pos 60 -ℤ pos 4) ≡ mod12 (year -ℤ pos 4)
unfolding mod12 ◌-ℤ◌ ◌+ℤ◌
branches year = ground arith

again : (year : ℤ) → cycle_at (year +ℤ pos 60) ≡ cycle_at year
again year = rw (stems year, branches year)

-- Every year label, zero and negative ones included, has a stem, a branch and an animal; stem and
-- branch have one parity, and the label 60 years on has the same three.
pub year_cycle_for_label_lem :
    (year : ℤ)
    → (s : StemId) × (b : BranchId) × (a : AnimalId) × (year_cycle_for_label year ≡ ok (s, b, a))
      × (Stem.value s % 2 ≡ Branch.value b % 2)
      × (year_cycle_for_label (year +ℤ pos 60) ≡ ok (s, b, a))
year_cycle_for_label_lem year = (
  Stem.member_at (mod10 (year -ℤ pos 4)),
  Branch.member_at (mod12 (year -ℤ pos 4)),
  Animal.member_at (mod12 (year -ℤ pos 4)),
  year_cycle_for_label-cycle_at year,
  rw
      (
        Stem.value-member_at (mod10 (year -ℤ pos 4)) (mod10-lt _),
        Branch.value-member_at (mod12 (year -ℤ pos 4)) (mod12-lt _),
      )
      (parity year),
  year_cycle_for_label-cycle_at (year +ℤ pos 60) ∙ ap ok (again year),
)

-- The check that makes an instance holds of a date.
abbrev pub IsMade : ResolvedLunarDate → Type 0
IsMade r = resolved_lunar_date r ≡ ok r

-- A provider returns instances: what it resolves has passed the instance check.
abbrev pub Makes : {Date : Type 0} → ChineseLunisolarCalendar Date → Type 0
Makes {Date} calendar = (d : Date) (r : ResolvedLunarDate) → calendar.resolve d ≡ ok r → IsMade r

pub IsMade-range :
    (r : ResolvedLunarDate)
    → IsMade r
    → (1 ≤ r.month)
      × (r.month ≤ 12)
      × (1 ≤ r.day)
      × (r.day ≤ 30)
      × ((r.month_length ≡ 29) ⊎ (r.month_length ≡ 30))
unfolding resolved_lunar_date
IsMade-range r h = ground arith

-- The ranges of the formula inputs.
pub record InRange (s : ResolvedZwdsSeed) : Type 0 where
  pub least_month : 1 ≤ s.month
  pub greatest_month : s.month ≤ 12
  pub least_day : 1 ≤ s.day
  pub greatest_day : s.day ≤ 30
  pub stem : s.year_stem_index < 10
  pub branch : s.year_branch_index < 12
  pub hour : s.hour_branch_index < 12

-- The month that the chart counts with: that of the date, or the following one, the first being after the
-- twelfth, in a leap month after its fifteenth day.
pub record Effective (chart : ResolvedLunarDate) (month : ℕ) : Type 0 where
  pub kept : (chart.is_leap_month ≡ false) ⊎ (chart.day ≤ 15) → month ≡ chart.month
  pub moved :
      chart.is_leap_month ≡ true
      → 15 < chart.day
      → ((chart.month < 12) × (month ≡ chart.month + 1)) ⊎ ((chart.month ≡ 12) × (month ≡ 1))

-- The seed of a resolved chart date and an hour branch.
pub record SeedOf (chart : ResolvedLunarDate) (hour : BranchId) (seed : ResolvedZwdsSeed)
    : Type 0 where
  pub month : Effective chart seed.month
  pub day : seed.day ≡ chart.day
  pub stem_index : seed.year_stem_index ≡ mod10 (chart.year_label -ℤ pos 4)
  pub branch_index : seed.year_branch_index ≡ mod12 (chart.year_label -ℤ pos 4)
  pub animal_index : Animal.of_value seed.year_branch_index ≡ ok seed.year_animal_id
  pub hour_index : seed.hour_branch_index ≡ Branch.value hour

-- The calendar block of the two dates beside a seed: each date in its place, and the seed's month, year
-- stem and year branch.
pub record BlockOf (chart pre : ResolvedLunarDate) (seed : ResolvedZwdsSeed)
    (cal : CalendarResolution) : Type 0 where
  pub chart_date : cal.chart_lunar_date ≡ lunar_date chart
  pub pre_date : cal.pre_late_zi_lunar_date ≡ lunar_date pre
  pub engine : cal.calendar_engine_id ≡ chart.calendar_engine_id
  pub month : cal.effective_month_for_chart ≡ seed.month
  pub stem : Stem.name (Stem.member_at seed.year_stem_index) ≡ cal.year_cycle.stem_id
  pub branch : Branch.name (Branch.member_at seed.year_branch_index) ≡ cal.year_cycle.branch_id

effective_month-Effective :
    (chart : ResolvedLunarDate)
    → chart.month ≤ 12
    → Effective chart (effective_month_for_leap_split chart.month chart.day chart.is_leap_month)
unfolding effective_month_for_leap_split
effective_month-Effective chart hi = record {
  kept = λ h. ground arith;
  moved = λ leap late. ground arith;
}

-- With a provider of checked dates that resolves the chart date and the date before late Zi, and the
-- name of an hour branch, the seed is resolved, with its inputs in range: month, day and year cycle are
-- those of the chart date, the hour is the one named, and the calendar block has both dates and the
-- month, stem and branch of the seed.
pub resolve_calendar_seed-InRange :
    {Date : Type 0} (calendar : ChineseLunisolarCalendar Date) (chart_date pre_date : Date)
    (chart pre : ResolvedLunarDate) (hour : BranchId) (leap_policy year_policy : String)
    → Makes calendar
    → calendar.resolve chart_date ≡ ok chart
    → calendar.resolve pre_date ≡ ok pre
    → (cal : CalendarResolution) × (seed : ResolvedZwdsSeed) × (resolve_calendar_seed calendar
          chart_date pre_date
          (Branch.name hour)
          leap_policy
          year_policy
        ≡ ok (cal, seed))
      × InRange seed
      × SeedOf chart hour seed
      × BlockOf chart pre seed cal
unfolding resolve_calendar_seed
resolve_calendar_seed-InRange calendar chart_date pre_date chart pre hour leap_policy year_policy
      made hc hp =
    let (lo, hi, first, last, length) = IsMade-range chart (made chart_date chart hc) in
    let (s, b, a) = cycle_at chart.year_label in
    let month = effective_month_for_leap_split chart.month chart.day chart.is_leap_month in
    let month_range = effective_month_range chart.month chart.day chart.is_leap_month lo hi in
    (
      record {
        calendar_engine_id = chart.calendar_engine_id;
        pre_late_zi_lunar_date = lunar_date pre;
        chart_lunar_date = lunar_date chart;
        effective_month_for_chart = month;
        leap_month_policy_id = leap_policy;
        year_cycle = record {
          stem_id = Stem.name s;
          branch_id = Branch.name b;
          basis_policy_id = year_policy;
        };
      },
      record {
        month = month;
        day = chart.day;
        year_stem_index = Stem.value s;
        year_branch_index = Branch.value b;
        hour_branch_index = Branch.value hour;
        year_animal_id = a;
      },
      rw (hc, hp, year_cycle_for_label-cycle_at chart.year_label, Branch.of_name-name hour),
      record {
        least_month = month_range.0;
        greatest_month = month_range.1;
        least_day = first;
        greatest_day = last;
        stem = Stem.value-lt s;
        branch = Branch.value-lt b;
        hour = Branch.value-lt hour;
      },
      record {
        month = effective_month-Effective chart hi;
        day = refl;
        stem_index = Stem.value-member_at (mod10 (chart.year_label -ℤ pos 4)) (mod10-lt _);
        branch_index = Branch.value-member_at (mod12 (chart.year_label -ℤ pos 4)) (mod12-lt _);
        animal_index =
            rw (Branch.value-member_at (mod12 (chart.year_label -ℤ pos 4)) (mod12-lt _))
              (Animal.of_value-member_at (mod12 (chart.year_label -ℤ pos 4)) (mod12-lt _));
        hour_index = refl;
      },
      record {
        chart_date = refl;
        pre_date = refl;
        engine = refl;
        month = refl;
        stem = ap Stem.name (Stem.member_at-value s);
        branch = ap Branch.name (Branch.member_at-value b);
      },
    )
