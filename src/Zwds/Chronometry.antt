-- ===== src/Zwds/Chronometry.antt =====
-- bazi_engine/zwds/seed.py, the chronometry half. A datetime on a fixed UTC offset is its clock's
-- microseconds from 1970-01-01T00:00 and the offset. Python's text methods and the two solar offsets,
-- which the code computes in floating point from the longitude, are parameters; ISO texts, the
-- location and the warning are left out.
pub mod Days
use fufire_api_lunar.Prelude.{
  ℕ, ◌+◌, ◌*◌, ◌/◌, String, Bool, true, false, ◌&&◌, Option, none, some, Result, ok, err, ◌>>=◌,
  value_error, overflow_error, birth_time_required, ◌==◌, eq_ℕ, eq_String, if◌then◌else◌,
}
use fufire_api_lunar.Prelude.Int.{ℤ, pos, ◌+ℤ◌, ◌-ℤ◌, floor_mod, floor_div, ltb_ℤ}
use fufire_api_lunar.Clock.Local.{
  Library, Aware, LocalTimeStatus, LocalTimeResolution, offset_of, in_years, to_utc,
  resolve_local_iso,
}
use fufire_api_lunar.Zwds.Domain.Branch
use fufire_api_lunar.Zwds.Domain.Branch.{BranchId}
use fufire_api_lunar.Zwds.Seed.{hour_branch_index}

abbrev pub next_chart_day_policy_id : String
next_chart_day_policy_id = "next-chart-day.v1"

-- What is used of text methods: whether `strip` leaves nothing, and `upper`.
pub record Texts : Type 0 where
  pub is_blank : String → Bool
  pub upper : String → String

-- The offsets of mean and of apparent solar time, for the birth's longitude.
pub record Solar : Type 0 where
  pub lmt_offset : ℤ
  pub tlst_offset : Aware → ℤ

pub record Effective : Type 0 where
  pub clock : ℤ
  pub offset : ℤ

pub record ChronometryResolution : Type 0 where
  pub civil_local : Aware
  pub utc : ℤ
  pub effective_local : Effective
  pub effective_standard : String
  pub timezone : String
  pub local_time_status : LocalTimeStatus
  pub fold : ℕ
  pub hour_branch_id : String
  pub late_zi_applied : Bool
  pub late_zi_policy_id : String
  pub chart_local_date : ℤ
  pub day_boundary_offset : ℤ

abbrev pub hour_span : ℕ
hour_span = 3600000000

abbrev pub day_span : ℕ
day_span = 24 * hour_span

-- dt.hour, and dt.date() as a day number
abbrev pub hour_of : ℤ → ℕ
hour_of t = floor_mod t day_span / hour_span

abbrev pub day_of : ℤ → ℤ
day_of t = floor_div t day_span

-- birth_utc.astimezone(timezone(offset))
abbrev pub relabel : ℤ → ℤ → Result Effective
relabel birth_utc offset =
    in_years (birth_utc +ℤ offset) >>= λ t. ok (record { clock = t; offset = offset })

unfoldable pub effective_local : Solar → Aware → ℤ → String → Result Effective
effective_local solar civil_dt birth_utc std =
    if std == "CIVIL"
    then ok (record { clock = civil_dt.naive; offset = offset_of civil_dt })
    else if std == "LMT"
    then relabel birth_utc solar.lmt_offset
    else if std == "TLST"
    then relabel birth_utc (solar.tlst_offset civil_dt)
    else err value_error

-- A date operation, which raises OverflowError after the last day of year 9999.
abbrev pub in_dates : ℤ → Result ℤ
in_dates day = if ltb_ℤ day (pos 2932897) then ok day else err overflow_error

-- Step 4: the date that the chart is drawn for.
unfoldable pub chart_date : ℤ → String → Result ℤ
chart_date clock late_zi_policy_id =
    if hour_of clock == 23 && late_zi_policy_id == next_chart_day_policy_id
    then in_dates (day_of clock +ℤ pos 1)
    else ok (day_of clock)

unfoldable pub resolve_chronometry :
    Texts
    → Library
    → Solar
    → Option String
    → String
    → String
    → String
    → String
    → String
    → Result ChronometryResolution
resolve_chronometry texts library solar none timezone ambiguous_time nonexistent_time time_standard
      late_zi_policy_id =
    err birth_time_required
resolve_chronometry texts library solar (some datetime_local) timezone ambiguous_time
      nonexistent_time time_standard late_zi_policy_id =
    do
      datetime_given ←
          if texts.is_blank datetime_local then err birth_time_required else ok datetime_local
      (civil_dt, res) ←
          resolve_local_iso library datetime_given timezone ambiguous_time nonexistent_time
      birth_utc ← to_utc civil_dt
      let std = texts.upper time_standard
      effective ← effective_local solar civil_dt birth_utc std
      let hour = hour_of effective.clock
      hour_branch ← Branch.of_value (hour_branch_index hour)
      chart_local_date ← chart_date effective.clock late_zi_policy_id
      ok (record {
        civil_local = civil_dt;
        utc = birth_utc;
        effective_local = effective;
        effective_standard = std;
        timezone = timezone;
        local_time_status = res.status;
        fold = res.fold;
        hour_branch_id = Branch.name hour_branch;
        late_zi_applied = hour == 23;
        late_zi_policy_id = late_zi_policy_id;
        chart_local_date = chart_local_date;
        day_boundary_offset = effective.offset;
      })
