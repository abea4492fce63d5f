-- ===== src/Tests/Clock.antt =====
-- The theorems on bazi_engine/time_utils.py in a zone with one gap and one overlap.
use fufire_api_lunar.Prelude.{
  ℕ, ◌+◌, ◌-◌, ◌*◌, ◌≡◌, ◌↔◌, refl, none, some, ok, err, ◌⊎◌, value_error, key_error,
  local_time_error, arith, ◌==◌, eq_ℕ, eq_String, if◌then◌else◌,
}
use fufire_api_lunar.Prelude.Int.{ℤ, pos, ◌+ℤ◌, ◌-ℤ◌, ltb_ℤ}
use fufire_api_lunar.Clock.Local.{
  resolve_in_zone, choose_branch, resolve_gap, resolve_existing, resolved, Aware,
  LocalTimeResolution, Datetime, shift_from, ZoneInfo, Library, to_utc, roundtrip_ok, exists_at,
  shift_forward, nonexistent_shifted, resolution, shifted, resolve_local_iso,
}
use fufire_api_lunar.Clock.Local.Shift.{First, shift_forward_iff}
use fufire_api_lunar.Clock.Local.Errors.{Uncaught, resolve_local_iso_error}
use fufire_api_lunar.Clock.Local.Faithful.{Faithful, resolve_local_iso-Faithful}
use fufire_api_lunar.Clock.Local.Outcome.{resolve_local_iso-shifted}

abbrev hour : ℕ
hour = 3600000000

-- Clocks go forward one hour at the local time 02:00 of the first day, and back one hour at 03:00 of
-- the second.
abbrev zone : ZoneInfo
zone = record {
  utcoffset = λ t fold.
      if ltb_ℤ t (pos (2 * hour))
      then pos 0
      else if ltb_ℤ t (pos (3 * hour))
      then (if fold == 0 then pos 0 else pos hour)
      else if ltb_ℤ t (pos (26 * hour))
      then pos hour
      else if ltb_ℤ t (pos (27 * hour))
      then (if fold == 0 then pos hour else pos 0)
      else pos 0;
  offset_at = λ u.
      if ltb_ℤ u (pos (2 * hour))
      then pos 0
      else if ltb_ℤ u (pos (26 * hour))
      then pos hour
      else pos 0;
}

-- 02:59 in the gap, and 02:30 in the overlap.
abbrev gap_time : Datetime
gap_time = record { clock = pos (3 * hour - 60000000); offset = none }

abbrev overlap_time : Datetime
overlap_time = record { clock = pos (26 * hour + 1800000000); offset = none }

abbrev library : Library
library = record {
  fromisoformat = λ text.
      if text == "1970-01-01T02:59"
      then ok gap_time
      else if text == "1970-01-02T02:30"
      then ok overlap_time
      else if text == "1970-01-02T02:30+01:00"
      then ok (record overlap_time { offset = some (pos hour) })
      else err value_error;
  zone_info = λ name.
      if name == "Test/Zone"
      then ok zone
      else if name == "../UTC"
      then err value_error
      else err key_error;
}

methods : Unit {0}
unfolding exists_at roundtrip_ok to_utc ◌+ℤ◌ ◌-ℤ◌ resolve_local_iso resolve_in_zone choose_branch
    resolve_gap resolve_existing resolved shift_forward shift_from
methods = tt

First-in_gap : First gap_time zone 1 2881 1
unfolding methods
First-in_gap = record {
  from = omega arith;
  below = omega arith;
  exists = refl;
  none_before = λ j lo hi. absurd (omega arith);
}

shift_forward_iff_example : (shift_forward gap_time zone ≡ ok 1) ↔ First gap_time zone 1 2881 1
shift_forward_iff_example = shift_forward_iff gap_time zone 1

-- A name that `ZoneInfo` refuses with a ValueError.
resolve_local_iso_error_example :
    (resolve_local_iso library "1970-01-01T02:59" "../UTC" "earlier" "error" ≡ err value_error) ↔ (
      Uncaught (library.fromisoformat "1970-01-01T02:59") value_error value_error
      ⊎ ((given : Datetime) × (library.fromisoformat "1970-01-01T02:59" ≡ ok given)
          × Uncaught (library.zone_info "../UTC") key_error value_error))
resolve_local_iso_error_example =
    resolve_local_iso_error library "1970-01-01T02:59" "../UTC" "earlier" "error" value_error cc

bad_name : resolve_local_iso library "1970-01-01T02:59" "../UTC" "earlier" "error" ≡ err value_error
unfolding methods
bad_name = refl

-- A time with an offset is refused under either policy.
with_offset :
    resolve_local_iso library "1970-01-02T02:30+01:00" "Test/Zone" "later" "error"
    ≡ err local_time_error
unfolding methods
with_offset = refl

abbrev shifted_out : Aware × LocalTimeResolution
shifted_out =
    resolution "Test/Zone" nonexistent_shifted (shifted gap_time zone 1) 1 (pos (2 * hour))

resolve_local_iso-Faithful_example :
    (given : Datetime) × (tz : ZoneInfo) × (library.fromisoformat "1970-01-01T02:59" ≡ ok given)
    × (library.zone_info "Test/Zone" ≡ ok tz)
    × Faithful given tz shifted_out.0 shifted_out.1
unfolding methods
resolve_local_iso-Faithful_example =
    resolve_local_iso-Faithful library "1970-01-01T02:59" "Test/Zone" "earlier" "shift_forward"
      shifted_out refl

resolve_local_iso-shifted_example :
    (u : ℤ) × (resolve_local_iso library "1970-01-01T02:59" "Test/Zone" "earlier" "shift_forward"
      ≡ ok (resolution "Test/Zone" nonexistent_shifted (shifted gap_time zone 1) 1 u))
unfolding methods
resolve_local_iso-shifted_example =
    resolve_local_iso-shifted library "1970-01-01T02:59" "Test/Zone" "earlier" gap_time zone 1 refl
      refl refl refl First-in_gap
