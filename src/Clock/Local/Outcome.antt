-- ===== src/Clock/Local/Outcome.antt =====
-- What a resolution is, on each branch.
use fufire_api_lunar.Prelude.{
  ℕ, ◌≡◌, ◌⊎◌, refl, String, Bool, true, false, not, ◌&&◌, ok, err, local_time_error, arith,
  eq_String, if◌then◌else◌,
}
use fufire_api_lunar.Prelude.Int.{ℤ}
use fufire_api_lunar.Clock.Local.{
  Datetime, with_zone, resolve_in_zone, ZoneInfo, Library, equal_ℤ, roundtrip_ok, plain, ambiguous,
  nonexistent_shifted, resolution, shifted, chosen_fold, resolve_gap, resolve_existing,
  choose_branch, resolve_local_iso,
}
use fufire_api_lunar.Clock.Local.Failures.{exists_at-utc, resolved-ok, chosen-utc}
use fufire_api_lunar.Clock.Local.Shift.{First, shift_forward_iff}

-- A time in a gap under the policy to shift: where `k` is the first of the minutes 1 to 2880 at which a
-- local time exists, the resolution is that time with fold 0, marked as shifted by `k` minutes.
pub gap-shifted :
    (naive : Datetime) (tz : ZoneInfo) (tz_name : String) (k : ℕ)
    → First naive tz 1 2881 k
    → (u : ℤ) × (resolve_gap naive tz tz_name "shift_forward"
        ≡ ok (resolution tz_name nonexistent_shifted (shifted naive tz k) k u))
unfolding resolve_gap
gap-shifted naive tz tz_name k f =
    let (u, at) = exists_at-utc naive tz k true f.exists in
    (
      u,
      rw (
        (shift_forward_iff naive tz k).1 f,
        resolved-ok tz_name nonexistent_shifted (shifted naive tz k) k u at,
      ),
    )

gap-refused :
    (naive : Datetime) (tz : ZoneInfo) (tz_name : String)
    → resolve_gap naive tz tz_name "error" ≡ err local_time_error
unfolding resolve_gap
gap-refused naive tz tz_name = refl

some_fold : (a b : Bool) → (a ≡ true) ⊎ (b ≡ true) → (not a && not b) ≡ false
some_fold a b h = ground arith

existing-ok :
    (naive : Datetime) (tz : ZoneInfo) (tz_name choice : String) (ok0 ok1 twice : Bool)
    → roundtrip_ok naive tz 0 ≡ ok ok0
    → roundtrip_ok naive tz 1 ≡ ok ok1
    → (u : ℤ) × (resolve_existing naive tz tz_name choice twice
        ≡ ok (
            resolution tz_name
              (if twice then ambiguous else plain)
              (with_zone naive tz (chosen_fold choice))
              0
              u))
unfolding resolve_existing
existing-ok naive tz tz_name choice ok0 ok1 twice h0 h1 =
    let (u, at) = chosen-utc naive tz choice ok0 ok1 h0 h1 in (u, resolved-ok tz_name _ _ 0 u at)

-- In a known zone, a local time whose round trips are made and which exists for a fold is resolved to
-- itself, with the chosen fold, and marked ambiguous just when it exists for both folds with two offsets.
pub resolve_local_iso_existing :
    (library : Library) (text tz_name choice nonexistent : String) (naive : Datetime)
    (tz : ZoneInfo) (ok0 ok1 : Bool)
    → library.fromisoformat text ≡ ok naive
    → library.zone_info tz_name ≡ ok tz
    → roundtrip_ok naive tz 0 ≡ ok ok0
    → roundtrip_ok naive tz 1 ≡ ok ok1
    → (ok0 ≡ true) ⊎ (ok1 ≡ true)
    → let two_offsets = not (equal_ℤ (tz.utcoffset naive.clock 0) (tz.utcoffset naive.clock 1)) in
      (u : ℤ) × (resolve_local_iso library text tz_name choice nonexistent
        ≡ ok (
            resolution tz_name
              (if ok0 && ok1 && two_offsets then ambiguous else plain)
              (with_zone naive tz (chosen_fold choice))
              0
              u))
unfolding resolve_local_iso resolve_in_zone choose_branch
resolve_local_iso_existing library text tz_name choice nonexistent naive tz ok0 ok1 hp hz h0 h1
      one =
    let (u, e) =
      existing-ok naive tz tz_name choice ok0 ok1
        (ok0 && ok1 && not (equal_ℤ (tz.utcoffset naive.clock 0) (tz.utcoffset naive.clock 1))) h0
        h1 in
    (u, rw (hp, hz, h0, h1, some_fold ok0 ok1 one, e))

-- In a known zone, a local time that exists for no fold is refused under the policy "error".
pub resolve_local_iso_refused :
    (library : Library) (text tz_name choice : String) (naive : Datetime) (tz : ZoneInfo)
    → library.fromisoformat text ≡ ok naive
    → library.zone_info tz_name ≡ ok tz
    → roundtrip_ok naive tz 0 ≡ ok false
    → roundtrip_ok naive tz 1 ≡ ok false
    → resolve_local_iso library text tz_name choice "error" ≡ err local_time_error
unfolding resolve_local_iso resolve_in_zone choose_branch
resolve_local_iso_refused library text tz_name choice naive tz hp hz h0 h1 =
    rw (hp, hz, h0, h1, gap-refused naive tz tz_name)

-- In a known zone, a local time that exists for no fold is resolved under the policy "shift_forward" to
-- the first of the next 2880 minutes that exists, where there is one, with fold 0 and the minutes noted.
pub resolve_local_iso-shifted :
    (library : Library) (text tz_name choice : String) (naive : Datetime) (tz : ZoneInfo) (k : ℕ)
    → library.fromisoformat text ≡ ok naive
    → library.zone_info tz_name ≡ ok tz
    → roundtrip_ok naive tz 0 ≡ ok false
    → roundtrip_ok naive tz 1 ≡ ok false
    → First naive tz 1 2881 k
    → (u : ℤ) × (resolve_local_iso library text tz_name choice "shift_forward"
        ≡ ok (resolution tz_name nonexistent_shifted (shifted naive tz k) k u))
unfolding resolve_local_iso resolve_in_zone choose_branch
resolve_local_iso-shifted library text tz_name choice naive tz k hp hz h0 h1 f =
    let (u, e) = gap-shifted naive tz tz_name k f in (u, rw (hp, hz, h0, h1, e))
