-- ===== src/Clock/Local/Errors.antt =====
-- The errors that a resolution can raise.
use fufire_api_lunar.Prelude.{
  ◌↔◌, ◌≡◌, inl, inr, refl, String, Result, ok, err, Error, ◌>>=◌, local_time_error, value_error,
  key_error, ◌⊎◌, arith, eq_String,
}
use fufire_api_lunar.Clock.Local.{
  Datetime, or_invalid, or_unknown, ZoneInfo, Library, resolve_in_zone, resolve_local_iso,
}
use fufire_api_lunar.Clock.Local.Failures.{resolve_in_zone-OnlyLocal}

-- An error of a library call that the handler there does not catch.
abbrev pub Uncaught {ℓ} : {A : Type ℓ} → Result A → Error → Error → Type ℓ
Uncaught call caught e = (call ≡ err e) × ¬ (e ≡ caught)

or_invalid_error :
    (r : Result Datetime) (e : Error)
    → or_invalid r ≡ err e
    → (e ≡ local_time_error) ⊎ Uncaught r value_error e
or_invalid_error r e h = ground arith

or_unknown_error :
    (r : Result ZoneInfo) (e : Error)
    → or_unknown r ≡ err e
    → (e ≡ local_time_error) ⊎ Uncaught r key_error e
or_unknown_error r e h = ground arith

pub or_invalid-ok : (r : Result Datetime) (d : Datetime) → or_invalid r ≡ ok d → r ≡ ok d
or_invalid-ok r d e = ground arith

pub or_unknown-ok : (r : Result ZoneInfo) (z : ZoneInfo) → or_unknown r ≡ ok z → r ≡ ok z
or_unknown-ok r z e = ground arith

bind_error {ℓ κ} :
    {A : Type ℓ} {B : Type κ} (m : Result A) (next : A → Result B) (e : Error)
    → (m >>= next) ≡ err e
    → (m ≡ err e) ⊎ ((a : A) × (m ≡ ok a) × (next a ≡ err e))
bind_error (err d) next e h = inl (cc h)
bind_error (ok a) next e h = inr (a, refl, h)

unknown_or_in_zone :
    (naive : Datetime) (library : Library) (tz_name choice nonexistent : String) (e : Error)
    → ¬ (e ≡ local_time_error)
    → (or_unknown (library.zone_info tz_name) >>= λ tz.
        resolve_in_zone naive tz tz_name choice nonexistent)
      ≡ err e
    → Uncaught (library.zone_info tz_name) key_error e
unknown_or_in_zone naive library tz_name choice nonexistent e other h =
    elim (bind_error (or_unknown (library.zone_info tz_name)) _ e h) [
      | inl p ↦ elim (or_unknown_error (library.zone_info tz_name) e p) [
        | inl same ↦ absurd (other same)
        | inr out ↦ out
      ]
      | inr (tz, there, last) ↦
          absurd (other (resolve_in_zone-OnlyLocal naive tz tz_name choice nonexistent e last))
    ]

Uncaught-or_invalid :
    (r : Result Datetime) (e : Error) → Uncaught r value_error e → or_invalid r ≡ err e
Uncaught-or_invalid r e (h, other) = ground arith

Uncaught-or_unknown :
    (r : Result ZoneInfo) (e : Error) → Uncaught r key_error e → or_unknown r ≡ err e
Uncaught-or_unknown r e (h, other) = ground arith

-- Whatever the zone and the policies, an error other than the local-time error gets out just when a
-- library call raised it and its handler does not catch it: the parser one other than ValueError, or,
-- for a text that was read, `ZoneInfo` one other than KeyError. No overflow of the calendar's range that
-- the search or a conversion meets gets out.
pub resolve_local_iso_error :
    (library : Library) (birth_local_iso tz_name choice nonexistent : String) (e : Error)
    → ¬ (e ≡ local_time_error)
    → (resolve_local_iso library birth_local_iso tz_name choice nonexistent ≡ err e) ↔ (
        Uncaught (library.fromisoformat birth_local_iso) value_error e
        ⊎ ((given : Datetime) × (library.fromisoformat birth_local_iso ≡ ok given)
            × Uncaught (library.zone_info tz_name) key_error e))
unfolding resolve_local_iso
resolve_local_iso_error library birth_local_iso tz_name choice nonexistent e other = (there, back)
  where
    there :
        resolve_local_iso library birth_local_iso tz_name choice nonexistent ≡ err e
        → Uncaught (library.fromisoformat birth_local_iso) value_error e
          ⊎ ((given : Datetime) × (library.fromisoformat birth_local_iso ≡ ok given)
              × Uncaught (library.zone_info tz_name) key_error e)
    there h = elim (bind_error (or_invalid (library.fromisoformat birth_local_iso)) _ e h) [
      | inl p ↦ elim (or_invalid_error (library.fromisoformat birth_local_iso) e p) [
        | inl same ↦ absurd (other same)
        | inr out ↦ inl out
      ]
      | inr (given, at, rest) ↦ inr (
        given,
        or_invalid-ok (library.fromisoformat birth_local_iso) given at,
        unknown_or_in_zone given library tz_name choice nonexistent e other rest,
      )
    ]

    back :
        Uncaught (library.fromisoformat birth_local_iso) value_error e
          ⊎ ((given : Datetime) × (library.fromisoformat birth_local_iso ≡ ok given)
              × Uncaught (library.zone_info tz_name) key_error e)
        → resolve_local_iso library birth_local_iso tz_name choice nonexistent ≡ err e
    back (inl out) =
        rw (resolve_local_iso, Uncaught-or_invalid (library.fromisoformat birth_local_iso) e out)
          refl
    back (inr (given, read, out)) =
        rw (resolve_local_iso, read, Uncaught-or_unknown (library.zone_info tz_name) e out) refl
