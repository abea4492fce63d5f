-- ===== src/Zwds/Chronometry/Days.antt =====
-- The chart's day: it begins at 23:00, with the first double hour.
use fufire_api_lunar.Prelude.{◌/◌, ◌≡◌, true, arith, eq_ℕ, eq_String, ok, ◌>>=◌}
use fufire_api_lunar.Prelude.Int.{ℤ, pos, negsuc, ◌+ℤ◌, ltb_ℤ}
use fufire_api_lunar.Clock.Local.{in_calendar, in_years}
use fufire_api_lunar.Zwds.Seed.{hour_branch_index}
use fufire_api_lunar.Zwds.Chronometry.{
  next_chart_day_policy_id, hour_span, hour_of, day_of, chart_date,
}

-- For every local time of the calendar, years 1 to 9999: under the next-chart-day policy its chart date is
-- the date of the time one hour later, or the overflow error where that time is past the calendar's end;
-- its double hour is the half of the later time's clock hour. Late Zi and the Zi after midnight are thus
-- one double hour of one chart day.
pub chart_date_shift :
    (t : ℤ)
    → in_calendar t ≡ true
    → (chart_date t next_chart_day_policy_id
        ≡ (in_years (t +ℤ pos hour_span) >>= λ later. ok (day_of later)))
      × (hour_branch_index (hour_of t) ≡ hour_of (t +ℤ pos hour_span) / 2)
unfolding chart_date hour_branch_index ◌+ℤ◌ ltb_ℤ
chart_date_shift (pos n) h = ground arith
chart_date_shift (negsuc n) h = ground arith
