-- ===== src/Clock/Local.antt =====
-- bazi_engine/time_utils.py: `resolve_local_iso` and what it is made of. A clock time is the number of
-- microseconds from 1970-01-01T00:00; what the parser returns has the offset of the text, if any, and an
-- aware datetime has a zone and a fold. The zone and the parser are Python's: `ZoneInfo` gives the UTC
-- offset of a local time for each fold, and of an instant. ISO texts, zone abbreviations and warnings of
-- the result are left out.
pub mod Shift
pub mod Failures
pub mod Errors
pub mod Outcome
pub mod Faithful
use fufire_api_lunar.Prelude.{
  ℕ, zero, suc, ◌+◌, ◌*◌, String, Bool, true, false, not, ◌&&◌, ◌||◌, Option, none, some, Result,
  ok, err, ◌>>=◌, ◌>>◌, require, local_time_error, overflow_error, value_error, key_error, ◌==◌,
  eq_ℕ, eq_String, if◌then◌else◌,
}
use fufire_api_lunar.Prelude.Int.{ℤ, pos, negsuc, ◌+ℤ◌, ◌-ℤ◌, ltb_ℤ}

pub record ZoneInfo : Type 0 where
  pub utcoffset : ℤ → ℕ → ℤ
  pub offset_at : ℤ → ℤ

-- A datetime as `datetime.fromisoformat` returns it: its offset is that of the text.
pub record Datetime : Type 0 where
  pub clock : ℤ
  pub offset : Option ℤ

-- The library calls that read texts, with the errors they raise: `datetime.fromisoformat` a ValueError;
-- `ZoneInfo` a ZoneInfoNotFoundError, which is a KeyError, for a name it does not find, and a ValueError
-- for one that is no relative path.
pub record Library : Type 0 where
  pub fromisoformat : String → Result Datetime
  pub zone_info : String → Result ZoneInfo

-- datetime.min and datetime.max
abbrev pub in_calendar : ℤ → Bool
in_calendar t = ltb_ℤ (negsuc 62135596800000000) t && ltb_ℤ t (pos 253402300800000000)

-- A datetime operation, which raises OverflowError out of the calendar.
abbrev pub in_years : ℤ → Result ℤ
in_years t = if in_calendar t then ok t else err overflow_error

pub record Aware : Type 0 where
  pub zone : ZoneInfo
  pub naive : ℤ
  pub fold : ℕ

abbrev pub offset_of : Aware → ℤ
offset_of dt = dt.zone.utcoffset dt.naive dt.fold

-- dt.astimezone(timezone.utc)
unfoldable pub to_utc : Aware → Result ℤ
to_utc dt = in_years (dt.naive -ℤ offset_of dt)

-- `except OverflowError as e: raise LocalTimeError(...)`
abbrev pub as_local_error : Result ℤ → Result ℤ
as_local_error (err overflow_error) = err local_time_error
as_local_error r = r

abbrev pub equal_ℤ : ℤ → ℤ → Bool
equal_ℤ a b = not (ltb_ℤ a b) && not (ltb_ℤ b a)

-- `back.replace(tzinfo=None) == naive_local`: a datetime with an offset is unequal to one without.
abbrev pub equal_naive : ℤ → ℤ → Option ℤ → Bool
equal_naive back clock none = equal_ℤ back clock
equal_naive back clock (some offset) = false

-- The way back from UTC, and the comparison.
abbrev pub round_back : Datetime → ZoneInfo → ℤ → Result Bool
round_back naive_local tz utc = do
  back ← as_local_error (in_years (utc +ℤ tz.offset_at utc))
  ok (equal_naive back naive_local.clock naive_local.offset)

-- `naive.replace(tzinfo=tz, fold=fold)`
abbrev pub with_zone : Datetime → ZoneInfo → ℕ → Aware
with_zone naive tz fold = record { zone = tz; naive = naive.clock; fold = fold }

-- `_roundtrip_ok`
unfoldable pub roundtrip_ok : Datetime → ZoneInfo → ℕ → Result Bool
unfolding to_utc
roundtrip_ok naive_local tz fold =
    as_local_error (to_utc (with_zone naive_local tz fold)) >>= round_back naive_local tz

pub data LocalTimeStatus : Type 0 where
  plain ambiguous nonexistent_shifted : LocalTimeStatus

pub record LocalTimeResolution : Type 0 where
  pub tz : String
  pub status : LocalTimeStatus
  pub fold : ℕ
  pub resolved_local : ℤ
  pub resolved_utc : ℤ
  pub adjusted_minutes : ℕ

abbrev pub shift_forward_max_minutes : ℕ
shift_forward_max_minutes = 48 * 60

abbrev pub minute : ℕ
minute = 60000000

-- `naive + timedelta(minutes=minutes)`, inside the calendar
abbrev pub later_by : Datetime → ℕ → Datetime
later_by naive minutes = record naive { clock = naive.clock +ℤ pos (minutes * minute) }

-- `ok(fold=0) or ok(fold=1)`
abbrev pub either_fold : ZoneInfo → Datetime → Result Bool
either_fold tz candidate = do
  first ← roundtrip_ok candidate tz 0
  if first then ok true else roundtrip_ok candidate tz 1

-- The body of the loop: whether the time so many minutes on exists, for either fold.
unfoldable pub exists_at : Datetime → ZoneInfo → ℕ → Result Bool
unfolding roundtrip_ok
exists_at naive tz minutes = as_local_error (in_years (later_by naive minutes).clock) >>= λ _.
    either_fold tz (later_by naive minutes)

abbrev pub stop_or : Bool → ℕ → Result ℕ → Result ℕ
stop_or found minutes rest = if found then ok minutes else rest

-- `for minutes in range(1, SHIFT_FORWARD_MAX_MINUTES + 1)`, with `left` rounds to go: the minutes at
-- which the loop returns, and the error that is raised after the loop.
unfoldable pub shift_from : Datetime → ZoneInfo → ℕ → ℕ → Result ℕ
shift_from naive tz zero minutes = err local_time_error
shift_from naive tz (suc left) minutes = do
  found ← exists_at naive tz minutes
  stop_or found minutes (shift_from naive tz left (minutes + 1))

unfoldable pub shift_forward : Datetime → ZoneInfo → Result ℕ
unfolding shift_from
shift_forward naive tz = shift_from naive tz shift_forward_max_minutes 1

abbrev pub resolution : String → LocalTimeStatus → Aware → ℕ → ℤ → Aware × LocalTimeResolution
resolution tz_name status dt minutes utc = (
  dt,
  record {
    tz = tz_name;
    status = status;
    fold = dt.fold;
    resolved_local = dt.naive;
    resolved_utc = utc;
    adjusted_minutes = minutes;
  },
)

-- The result for an aware time, whose UTC image is taken on the way.
unfoldable pub resolved :
    String → LocalTimeStatus → Aware → ℕ → Result (Aware × LocalTimeResolution)
unfolding to_utc
resolved tz_name status dt minutes =
    to_utc dt >>= λ utc. ok (resolution tz_name status dt minutes utc)

-- `except ValueError as e: raise LocalTimeError(...)`, at the parser
abbrev pub or_invalid : Result Datetime → Result Datetime
or_invalid (err value_error) = err local_time_error
or_invalid r = r

-- `except (ZoneInfoNotFoundError, KeyError) as e: raise LocalTimeError(...)`
abbrev pub or_unknown : Result ZoneInfo → Result ZoneInfo
or_unknown (err key_error) = err local_time_error
or_unknown r = r

abbrev pub shifted : Datetime → ZoneInfo → ℕ → Aware
shifted naive tz minutes = with_zone (later_by naive minutes) tz 0

abbrev pub search_gap : Datetime → ZoneInfo → String → Result (Aware × LocalTimeResolution)
search_gap naive tz tz_name = shift_forward naive tz >>= λ minutes.
    resolved tz_name nonexistent_shifted (shifted naive tz minutes) minutes

-- The branch for a time in a gap.
unfoldable pub resolve_gap :
    Datetime → ZoneInfo → String → String → Result (Aware × LocalTimeResolution)
resolve_gap naive tz tz_name nonexistent =
    if nonexistent == "error" then err local_time_error else search_gap naive tz tz_name

-- The branch for a time that exists.
abbrev pub chosen_fold : String → ℕ
chosen_fold ambiguous_choice = if ambiguous_choice == "earlier" then 0 else 1

unfoldable pub resolve_existing :
    Datetime → ZoneInfo → String → String → Bool → Result (Aware × LocalTimeResolution)
unfolding resolved
resolve_existing naive tz tz_name ambiguous_choice is_ambiguous =
    resolved tz_name (if is_ambiguous then ambiguous else plain)
      (with_zone naive tz (chosen_fold ambiguous_choice)) 0

-- What follows the two round trips.
unfoldable pub choose_branch :
    Datetime
    → ZoneInfo
    → String
    → String
    → String
    → Bool
    → Bool
    → Result (Aware × LocalTimeResolution)
choose_branch naive tz tz_name ambiguous_choice nonexistent ok0 ok1 =
    if not ok0 && not ok1
    then resolve_gap naive tz tz_name nonexistent
    else resolve_existing naive tz tz_name ambiguous_choice
        (ok0 && ok1 && not (equal_ℤ (tz.utcoffset naive.clock 0) (tz.utcoffset naive.clock 1)))

-- What follows the two texts.
unfoldable pub resolve_in_zone :
    Datetime → ZoneInfo → String → String → String → Result (Aware × LocalTimeResolution)
resolve_in_zone naive tz tz_name ambiguous_choice nonexistent = do
  ok0 ← roundtrip_ok naive tz 0
  ok1 ← roundtrip_ok naive tz 1
  choose_branch naive tz tz_name ambiguous_choice nonexistent ok0 ok1

unfoldable pub resolve_local_iso :
    Library → String → String → String → String → Result (Aware × LocalTimeResolution)
resolve_local_iso library birth_local_iso tz_name ambiguous_choice nonexistent = do
  naive ← or_invalid (library.fromisoformat birth_local_iso)
  tz ← or_unknown (library.zone_info tz_name)
  resolve_in_zone naive tz tz_name ambiguous_choice nonexistent
