-- ===== src/Clock/Local/Failures.antt =====
-- With which errors a resolution fails.
use fufire_api_lunar.Prelude.{
  ℕ, zero, suc, ◌+◌, ◌≡◌, inl, inr, refl, sym, ◌∙◌, String, Bool, true, false, not, ◌&&◌, Result,
  ok, err, Error, ◌>>=◌, local_time_error, overflow_error, result_inj, bind_ok, Bool-cases, ◌==◌,
  eq_String, if◌then◌else◌,
}
use fufire_api_lunar.Prelude.Int.{ℤ, ◌+ℤ◌, ◌-ℤ◌}
use fufire_api_lunar.Clock.Local.{
  Datetime, with_zone, equal_naive, resolve_in_zone, ZoneInfo, Aware, in_years, in_calendar, to_utc,
  as_local_error, roundtrip_ok, LocalTimeStatus, nonexistent_shifted, later_by, round_back,
  either_fold, exists_at, shift_from, shift_forward, shift_forward_max_minutes, stop_or, resolved,
  resolution, shifted, search_gap, chosen_fold, resolve_gap, resolve_existing, choose_branch,
}
use fufire_api_lunar.Clock.Local.Shift.{shift_forward_iff}

as_local-err : (t : ℤ) (e : Error) → as_local_error (in_years t) ≡ err e → e ≡ local_time_error
as_local-err t e h = by_range (in_calendar t) h
  where
    by_range :
        (b : Bool)
        → as_local_error (if b then ok t else err overflow_error) ≡ err e
        → e ≡ local_time_error
    by_range true h = cc
    by_range false h = cc

pub as_local-ok : (t u : ℤ) → as_local_error (in_years t) ≡ ok u → in_years t ≡ ok u
as_local-ok t u h = by_range (in_calendar t) h
  where
    by_range :
        (b : Bool)
        → as_local_error (if b then ok t else err overflow_error) ≡ ok u
        → (if b then ok t else err overflow_error) ≡ ok u
    by_range true h = h
    by_range false h = cc

-- A computation that fails with the local-time error only.
abbrev pub OnlyLocal {ℓ} : {A : Type ℓ} → Result A → Type ℓ
OnlyLocal m = (e : Error) → m ≡ err e → e ≡ local_time_error

bind-OnlyLocal {ℓ κ} :
    {A : Type ℓ} {B : Type κ} (m : Result A) (next : A → Result B)
    → OnlyLocal m
    → ((a : A) → m ≡ ok a → OnlyLocal (next a))
    → OnlyLocal (m >>= next)
bind-OnlyLocal (err d) next f g e h = f e (cc h)
bind-OnlyLocal (ok a) next f g e h = g a refl e h

choose-OnlyLocal {ℓ} :
    {A : Type ℓ} (test : Bool) (m n : Result A)
    → OnlyLocal m
    → OnlyLocal n
    → OnlyLocal (if test then m else n)
choose-OnlyLocal true m n f g = f
choose-OnlyLocal false m n f g = g

ok-OnlyLocal {ℓ} : {A : Type ℓ} (a : A) → OnlyLocal (ok a)
ok-OnlyLocal a e h = cc

local-OnlyLocal {ℓ} : {A : Type ℓ} → OnlyLocal {A = A} (err local_time_error)
local-OnlyLocal e h = cc

roundtrip-OnlyLocal :
    (naive : Datetime) (tz : ZoneInfo) (fold : ℕ) → OnlyLocal (roundtrip_ok naive tz fold)
unfolding roundtrip_ok to_utc
roundtrip-OnlyLocal naive tz fold =
    bind-OnlyLocal (as_local_error (in_years (naive.clock -ℤ tz.utcoffset naive.clock fold)))
      (round_back naive tz) (as_local-err (naive.clock -ℤ tz.utcoffset naive.clock fold))
      (λ utc at.
        bind-OnlyLocal (as_local_error (in_years (utc +ℤ tz.offset_at utc)))
          (λ back. ok (equal_naive back naive.clock naive.offset))
          (as_local-err (utc +ℤ tz.offset_at utc)) (λ back there. ok-OnlyLocal _))

roundtrip-utc :
    (naive : Datetime) (tz : ZoneInfo) (fold : ℕ) (b : Bool)
    → roundtrip_ok naive tz fold ≡ ok b
    → (u : ℤ) × (to_utc (with_zone naive tz fold) ≡ ok u)
unfolding roundtrip_ok to_utc
roundtrip-utc naive tz fold b h =
    let (utc, at, rest) =
      bind_ok (as_local_error (in_years (naive.clock -ℤ tz.utcoffset naive.clock fold)))
        (round_back naive tz) b h in
    (utc, as_local-ok (naive.clock -ℤ tz.utcoffset naive.clock fold) utc at)

either_fold-OnlyLocal :
    (tz : ZoneInfo) (candidate : Datetime) → OnlyLocal (either_fold tz candidate)
either_fold-OnlyLocal tz candidate =
    bind-OnlyLocal (roundtrip_ok candidate tz 0)
      (λ first. if first then ok true else roundtrip_ok candidate tz 1)
      (roundtrip-OnlyLocal candidate tz 0)
      (λ first at.
        choose-OnlyLocal first (ok true) (roundtrip_ok candidate tz 1) (ok-OnlyLocal true)
          (roundtrip-OnlyLocal candidate tz 1))

exists_at-OnlyLocal :
    (naive : Datetime) (tz : ZoneInfo) (minutes : ℕ) → OnlyLocal (exists_at naive tz minutes)
unfolding exists_at
exists_at-OnlyLocal naive tz minutes =
    bind-OnlyLocal (as_local_error (in_years (later_by naive minutes).clock))
      (λ _. either_fold tz (later_by naive minutes)) (as_local-err (later_by naive minutes).clock)
      (λ _ at. either_fold-OnlyLocal tz (later_by naive minutes))

pub in_years-eq : (t u : ℤ) → in_years t ≡ ok u → t ≡ u
in_years-eq t u h = by_range (in_calendar t) h
  where
    by_range : (b : Bool) → (if b then ok t else err overflow_error) ≡ ok u → t ≡ u
    by_range true h = result_inj h
    by_range false h = cc

-- A shifted time whose existence was decided has a UTC image inside the calendar.
pub exists_at-utc :
    (naive : Datetime) (tz : ZoneInfo) (minutes : ℕ) (b : Bool)
    → exists_at naive tz minutes ≡ ok b
    → (u : ℤ) × (to_utc (shifted naive tz minutes) ≡ ok u)
unfolding exists_at
exists_at-utc naive tz minutes b h =
    let (t, at, rest) =
      bind_ok (as_local_error (in_years (later_by naive minutes).clock))
        (λ _. either_fold tz (later_by naive minutes)) b h in
    let (first, there, found) =
      bind_ok (roundtrip_ok (later_by naive minutes) tz 0)
        (λ first. if first then ok true else roundtrip_ok (later_by naive minutes) tz 1) b rest in
    roundtrip-utc (later_by naive minutes) tz 0 first there

shift_from-OnlyLocal :
    (naive : Datetime) (tz : ZoneInfo) (left minutes : ℕ)
    → OnlyLocal (shift_from naive tz left minutes)
unfolding shift_from
shift_from-OnlyLocal naive tz zero minutes = local-OnlyLocal
shift_from-OnlyLocal naive tz (suc left) minutes =
    bind-OnlyLocal (exists_at naive tz minutes)
      (λ found. stop_or found minutes (shift_from naive tz left (minutes + 1)))
      (exists_at-OnlyLocal naive tz minutes)
      (λ found at.
        choose-OnlyLocal found (ok minutes) (shift_from naive tz left (minutes + 1))
          (ok-OnlyLocal minutes) (shift_from-OnlyLocal naive tz left (minutes + 1)))

pub resolved-ok :
    (tz_name : String) (status : LocalTimeStatus) (dt : Aware) (minutes : ℕ) (u : ℤ)
    → to_utc dt ≡ ok u
    → resolved tz_name status dt minutes ≡ ok (resolution tz_name status dt minutes u)
unfolding resolved
resolved-ok tz_name status dt minutes u at = rw at

shift_forward-OnlyLocal : (naive : Datetime) (tz : ZoneInfo) → OnlyLocal (shift_forward naive tz)
unfolding shift_forward
shift_forward-OnlyLocal naive tz = shift_from-OnlyLocal naive tz shift_forward_max_minutes 1

resolved-OnlyLocal :
    (tz_name : String) (status : LocalTimeStatus) (dt : Aware) (minutes : ℕ) (u : ℤ)
    → to_utc dt ≡ ok u
    → OnlyLocal (resolved tz_name status dt minutes)
resolved-OnlyLocal tz_name status dt minutes u at e h =
    ok-OnlyLocal (resolution tz_name status dt minutes u) e
      (sym (resolved-ok tz_name status dt minutes u at) ∙ h)

gap-OnlyLocal :
    (naive : Datetime) (tz : ZoneInfo) (tz_name nonexistent : String)
    → OnlyLocal (resolve_gap naive tz tz_name nonexistent)
unfolding resolve_gap
gap-OnlyLocal naive tz tz_name nonexistent =
    choose-OnlyLocal (nonexistent == "error") (err local_time_error) (search_gap naive tz tz_name)
      local-OnlyLocal
      (bind-OnlyLocal (shift_forward naive tz)
        (λ minutes. resolved tz_name nonexistent_shifted (shifted naive tz minutes) minutes)
        (shift_forward-OnlyLocal naive tz)
        (λ minutes there.
          let found = ((shift_forward_iff naive tz minutes).0 there).exists in
          let (u, at) = exists_at-utc naive tz minutes true found in
          resolved-OnlyLocal tz_name nonexistent_shifted (shifted naive tz minutes) minutes u at))

-- The UTC image for the chosen fold, where both round trips were made.
pub chosen-utc :
    (naive : Datetime) (tz : ZoneInfo) (choice : String) (ok0 ok1 : Bool)
    → roundtrip_ok naive tz 0 ≡ ok ok0
    → roundtrip_ok naive tz 1 ≡ ok ok1
    → (u : ℤ) × (to_utc (with_zone naive tz (chosen_fold choice)) ≡ ok u)
chosen-utc naive tz choice ok0 ok1 h0 h1 = elim (Bool-cases (choice == "earlier")) [
  | inl y ↦ rw y (roundtrip-utc naive tz 0 ok0 h0)
  | inr n ↦ rw n (roundtrip-utc naive tz 1 ok1 h1)
]

existing-OnlyLocal :
    (naive : Datetime) (tz : ZoneInfo) (tz_name choice : String) (ok0 ok1 twice : Bool)
    → roundtrip_ok naive tz 0 ≡ ok ok0
    → roundtrip_ok naive tz 1 ≡ ok ok1
    → OnlyLocal (resolve_existing naive tz tz_name choice twice)
unfolding resolve_existing
existing-OnlyLocal naive tz tz_name choice ok0 ok1 twice h0 h1 =
    let (u, at) = chosen-utc naive tz choice ok0 ok1 h0 h1 in
    resolved-OnlyLocal tz_name _ (with_zone naive tz (chosen_fold choice)) 0 u at

branch-OnlyLocal :
    (naive : Datetime) (tz : ZoneInfo) (tz_name choice nonexistent : String) (ok0 ok1 : Bool)
    → roundtrip_ok naive tz 0 ≡ ok ok0
    → roundtrip_ok naive tz 1 ≡ ok ok1
    → OnlyLocal (choose_branch naive tz tz_name choice nonexistent ok0 ok1)
unfolding choose_branch
branch-OnlyLocal naive tz tz_name choice nonexistent ok0 ok1 h0 h1 =
    choose-OnlyLocal (not ok0 && not ok1) (resolve_gap naive tz tz_name nonexistent) _
      (gap-OnlyLocal naive tz tz_name nonexistent)
      (existing-OnlyLocal naive tz tz_name choice ok0 ok1 _ h0 h1)

pub resolve_in_zone-OnlyLocal :
    (naive : Datetime) (tz : ZoneInfo) (tz_name choice nonexistent : String)
    → OnlyLocal (resolve_in_zone naive tz tz_name choice nonexistent)
unfolding resolve_in_zone
resolve_in_zone-OnlyLocal naive tz tz_name choice nonexistent =
    bind-OnlyLocal (roundtrip_ok naive tz 0) _ (roundtrip-OnlyLocal naive tz 0) (λ ok0 h0.
      bind-OnlyLocal (roundtrip_ok naive tz 1)
        (choose_branch naive tz tz_name choice nonexistent ok0) (roundtrip-OnlyLocal naive tz 1)
        (λ ok1 h1. branch-OnlyLocal naive tz tz_name choice nonexistent ok0 ok1 h0 h1))
