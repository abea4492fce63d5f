-- ===== src/Clock/Local/Faithful.antt =====
-- What every resolution that succeeds has kept of the time that it was given.
use fufire_api_lunar.Prelude.{
  ℕ, ◌*◌, ◌≡◌, ◌⊎◌, inl, inr, refl, sym, ap, ◌∙◌, String, Bool, true, false, Option, none, some, ok,
  err, bind_ok, result_inj, Bool-cases, arith, ◌==◌, eq_String, if◌then◌else◌, local_time_error,
}
use fufire_api_lunar.Prelude.Int.{ℤ, pos, ◌+ℤ◌, ◌-ℤ◌, ltb_ℤ}
use fufire_api_lunar.Clock.Local.{
  ZoneInfo, Datetime, Library, Aware, in_years, to_utc, as_local_error, equal_ℤ, equal_naive,
  round_back, with_zone, roundtrip_ok, LocalTimeResolution, LocalTimeStatus, nonexistent_shifted,
  plain, ambiguous, minute, later_by, either_fold, exists_at, shift_forward, resolution, resolved,
  or_invalid, or_unknown, shifted, search_gap, resolve_gap, chosen_fold, resolve_existing,
  choose_branch, resolve_in_zone, resolve_local_iso,
}
use fufire_api_lunar.Clock.Local.Failures.{as_local-ok, in_years-eq}
use fufire_api_lunar.Clock.Local.Errors.{or_invalid-ok, or_unknown-ok}
use fufire_api_lunar.Clock.Local.Shift.{First, shift_forward_iff}

-- A clock time that exists in the zone: it is what clocks show at some instant, which is its UTC image for
-- some fold.
pub record Shown (tz : ZoneInfo) (clock : ℤ) : Type 0 where
  pub fold : ℕ
  pub instant : ℤ
  pub image : to_utc (record { zone = tz; naive = clock; fold = fold }) ≡ ok instant
  pub shown : instant +ℤ tz.offset_at instant ≡ clock

equal_naive-none :
    (back clock : ℤ) (offset : Option ℤ)
    → equal_naive back clock offset ≡ true
    → (offset ≡ none) × (equal_ℤ back clock ≡ true)
equal_naive-none back clock none h = (refl, h)
equal_naive-none back clock (some offset) h = cc

equal_ℤ-eq : (a b : ℤ) → equal_ℤ a b ≡ true → a ≡ b
unfolding ltb_ℤ
equal_ℤ-eq a b h = ground arith

roundtrip_ok-Shown :
    (naive : Datetime) (tz : ZoneInfo) (fold : ℕ)
    → roundtrip_ok naive tz fold ≡ ok true
    → (naive.offset ≡ none) × Shown tz naive.clock
unfolding roundtrip_ok to_utc
roundtrip_ok-Shown naive tz fold h =
    let (utc, at, rest) =
      bind_ok (as_local_error (to_utc (with_zone naive tz fold))) (round_back naive tz) true h in
    let (back, there, same) =
      bind_ok (as_local_error (in_years (utc +ℤ tz.offset_at utc)))
        (λ back. ok (equal_naive back naive.clock naive.offset)) true rest in
    let (bare, equal) = equal_naive-none back naive.clock naive.offset (result_inj same) in
    let shows = in_years-eq _ back (as_local-ok (utc +ℤ tz.offset_at utc) back there) in
    (
      bare,
      record {
        fold = fold;
        instant = utc;
        image = as_local-ok (naive.clock -ℤ tz.utcoffset naive.clock fold) utc at;
        shown = shows ∙ equal_ℤ-eq back naive.clock equal;
      },
    )

either_fold-Shown :
    (tz : ZoneInfo) (candidate : Datetime)
    → either_fold tz candidate ≡ ok true
    → (candidate.offset ≡ none) × Shown tz candidate.clock
either_fold-Shown tz candidate h =
    let (first, there, found) =
      bind_ok (roundtrip_ok candidate tz 0)
        (λ first. if first then ok true else roundtrip_ok candidate tz 1) true h in
    elim (Bool-cases first) [
      | inl y ↦ roundtrip_ok-Shown candidate tz 0 (there ∙ ap ok y)
      | inr n ↦ roundtrip_ok-Shown candidate tz 1 (sym (rw n refl) ∙ found)
    ]

exists_at-Shown :
    (naive : Datetime) (tz : ZoneInfo) (minutes : ℕ)
    → exists_at naive tz minutes ≡ ok true
    → (naive.offset ≡ none) × Shown tz (later_by naive minutes).clock
unfolding exists_at
exists_at-Shown naive tz minutes h =
    let (t, at, rest) =
      bind_ok (as_local_error (in_years (later_by naive minutes).clock))
        (λ _. either_fold tz (later_by naive minutes)) true h in
    either_fold-Shown tz (later_by naive minutes) rest

-- How a resolution goes back to the time that was given: as it was, where that exists, or moved on to
-- the first minute that does, where it exists for no fold.
pub record Faithful (given : Datetime) (tz : ZoneInfo) (dt : Aware) (res : LocalTimeResolution)
    : Type 0 where
  pub bare : given.offset ≡ none
  pub in_zone : dt.zone ≡ tz
  pub same_fold : res.fold ≡ dt.fold
  pub same_local : res.resolved_local ≡ dt.naive
  pub same_instant : to_utc dt ≡ ok res.resolved_utc
  pub moved : dt.naive ≡ given.clock +ℤ pos (res.adjusted_minutes * minute)
  pub exists : Shown tz dt.naive
  pub kept_or_shifted :
      ((res.adjusted_minutes ≡ 0) × ((res.status ≡ plain) ⊎ (res.status ≡ ambiguous)))
      ⊎ ((res.status ≡ nonexistent_shifted)
          × (roundtrip_ok given tz 0 ≡ ok false)
          × (roundtrip_ok given tz 1 ≡ ok false)
          × First given tz 1 2881 res.adjusted_minutes)

resolved-parts :
    (tz_name : String) (status : LocalTimeStatus) (dt : Aware) (minutes : ℕ)
    (out : Aware × LocalTimeResolution)
    → resolved tz_name status dt minutes ≡ ok out
    → (u : ℤ) × (to_utc dt ≡ ok u) × (resolution tz_name status dt minutes u ≡ out)
unfolding resolved
resolved-parts tz_name status dt minutes out h =
    let (u, at, made) = bind_ok (to_utc dt) _ out h in (u, at, result_inj made)

gap-Faithful :
    (given : Datetime) (tz : ZoneInfo) (tz_name nonexistent : String)
    (out : Aware × LocalTimeResolution)
    → roundtrip_ok given tz 0 ≡ ok false
    → roundtrip_ok given tz 1 ≡ ok false
    → resolve_gap given tz tz_name nonexistent ≡ ok out
    → Faithful given tz out.0 out.1
unfolding resolve_gap
gap-Faithful given tz tz_name nonexistent out h0 h1 h = by_policy (nonexistent == "error") h
  where
    by_policy :
        (refused : Bool)
        → (if refused then err local_time_error else search_gap given tz tz_name) ≡ ok out
        → Faithful given tz out.0 out.1
    by_policy true e = absurd (cc e)
    by_policy false e =
        let (minutes, there, rest) = bind_ok (shift_forward given tz) _ out e in
        let (u, at, made) =
          resolved-parts tz_name nonexistent_shifted (shifted given tz minutes) minutes out rest in
        let first = (shift_forward_iff given tz minutes).0 there in
        let (bare, shown) = exists_at-Shown given tz minutes first.exists in
        rw (← made) (record {
          bare = bare;
          in_zone = refl;
          same_fold = refl;
          same_local = refl;
          same_instant = at;
          moved = refl;
          exists = shown;
          kept_or_shifted = inr (refl, h0, h1, first);
        })

zero_later : (t : ℤ) → t ≡ t +ℤ pos (0 * minute)
unfolding ◌+ℤ◌
zero_later t = ground arith

existing-Faithful :
    (given : Datetime) (tz : ZoneInfo) (tz_name choice : String) (twice : Bool)
    (out : Aware × LocalTimeResolution)
    → given.offset ≡ none
    → Shown tz given.clock
    → resolve_existing given tz tz_name choice twice ≡ ok out
    → Faithful given tz out.0 out.1
unfolding resolve_existing
existing-Faithful given tz tz_name choice twice out bare shown h =
    let dt = with_zone given tz (chosen_fold choice) in
    let (u, at, made) = resolved-parts tz_name (if twice then ambiguous else plain) dt 0 out h in
    rw (← made) (record {
      bare = bare;
      in_zone = refl;
      same_fold = refl;
      same_local = refl;
      same_instant = at;
      moved = zero_later given.clock;
      exists = shown;
      kept_or_shifted = inl (refl, by_twice twice);
    })
  where
    by_twice :
        (b : Bool)
        → ((if b then ambiguous else plain) ≡ plain)
          ⊎ ((if b then ambiguous else plain) ≡ ambiguous)
    by_twice true = inr refl
    by_twice false = inl refl

branch-Faithful :
    (given : Datetime) (tz : ZoneInfo) (tz_name choice nonexistent : String) (ok0 ok1 : Bool)
    (out : Aware × LocalTimeResolution)
    → roundtrip_ok given tz 0 ≡ ok ok0
    → roundtrip_ok given tz 1 ≡ ok ok1
    → choose_branch given tz tz_name choice nonexistent ok0 ok1 ≡ ok out
    → Faithful given tz out.0 out.1
unfolding choose_branch
branch-Faithful given tz tz_name choice nonexistent true ok1 out h0 h1 h =
    let (bare, shown) = roundtrip_ok-Shown given tz 0 h0 in
    existing-Faithful given tz tz_name choice _ out bare shown h
branch-Faithful given tz tz_name choice nonexistent false true out h0 h1 h =
    let (bare, shown) = roundtrip_ok-Shown given tz 1 h1 in
    existing-Faithful given tz tz_name choice _ out bare shown h
branch-Faithful given tz tz_name choice nonexistent false false out h0 h1 h =
    gap-Faithful given tz tz_name nonexistent out h0 h1 h

-- A text that is resolved, whatever the policies, was read as a datetime with no offset, and its zone is
-- known. The result is a clock time of that zone that exists there, with its own UTC image: the time that
-- was given, or, marked as shifted and only where the given time exists for neither fold, the first of
-- the next 2880 minutes at which one exists.
pub resolve_local_iso-Faithful :
    (library : Library) (text tz_name choice nonexistent : String)
    (out : Aware × LocalTimeResolution)
    → resolve_local_iso library text tz_name choice nonexistent ≡ ok out
    → (given : Datetime) × (tz : ZoneInfo) × (library.fromisoformat text ≡ ok given)
      × (library.zone_info tz_name ≡ ok tz)
      × Faithful given tz out.0 out.1
unfolding resolve_local_iso resolve_in_zone
resolve_local_iso-Faithful library text tz_name choice nonexistent out h =
    let (given, parsed, h₁) = bind_ok (or_invalid (library.fromisoformat text)) _ out h in
    let (tz, found, h₂) = bind_ok (or_unknown (library.zone_info tz_name)) _ out h₁ in
    let (ok0, r0, h₃) = bind_ok (roundtrip_ok given tz 0) _ out h₂ in
    let (ok1, r1, last) = bind_ok (roundtrip_ok given tz 1) _ out h₃ in
    (
      given,
      tz,
      or_invalid-ok (library.fromisoformat text) given parsed,
      or_unknown-ok (library.zone_info tz_name) tz found,
      branch-Faithful given tz tz_name choice nonexistent ok0 ok1 out r0 r1 last,
    )
