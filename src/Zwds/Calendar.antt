-- ===== src/Zwds/Calendar.antt =====
-- bazi_engine/zwds/calendar_provider.py: the result of a lunisolar conversion and the contract of a
-- provider.
use fufire_api_lunar.Prelude.{
  ℕ, String, Bool, ◌&&◌, ◌||◌, leb, Result, ok, ◌>>◌, require, value_error, ◌==◌, eq_ℕ,
}
use fufire_api_lunar.Prelude.Int.{ℤ}

pub record ResolvedLunarDate : Type 0 where
  pub year_label : ℤ
  pub month : ℕ
  pub day : ℕ
  pub is_leap_month : Bool
  pub month_length : ℕ
  pub calendar_engine_id : String

-- `__post_init__`, which runs when an instance is made.
unfoldable pub resolved_lunar_date : ResolvedLunarDate → Result ResolvedLunarDate
resolved_lunar_date r = do
  require (leb 1 r.month && leb r.month 12) value_error
  require (leb 1 r.day && leb r.day 30) value_error
  require (r.month_length == 29 || r.month_length == 30) value_error
  ok r

-- The `Protocol`: a conversion of a civil date, which may raise.
pub record ChineseLunisolarCalendar (Date : Type 0) : Type 0 where
  pub resolve : Date → Result ResolvedLunarDate
