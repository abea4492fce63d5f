-- ===== src/Clock/Local/Shift.antt =====
-- The search through a gap: it stops at the first minute that exists.
use fufire_api_lunar.Prelude.{
  ℕ, zero, suc, ◌+◌, ◌≤◌, ◌<◌, ◌≡◌, ◌↔◌, refl, sym, ap, ◌∙◌, Bool, true, false, Result, ok, err,
  ◌>>=◌, arith, result_inj, Bool-cases, inl, inr, leb, leb→le,
}
use fufire_api_lunar.Clock.Local.{
  Datetime, ZoneInfo, exists_at, stop_or, shift_from, shift_forward, shift_forward_max_minutes,
}

-- `k` is the first minute from `start` on, below the bound, at which the time exists.
pub record First (naive : Datetime) (tz : ZoneInfo) (start bound k : ℕ) : Type 0 where
  pub from : start ≤ k
  pub below : k < bound
  pub exists : exists_at naive tz k ≡ ok true
  pub none_before : (j : ℕ) → start ≤ j → j < k → exists_at naive tz j ≡ ok false

shift_from_sound :
    (naive : Datetime) (tz : ZoneInfo) (left minutes k : ℕ)
    → shift_from naive tz left minutes ≡ ok k
    → First naive tz minutes (minutes + left) k
unfolding shift_from
shift_from_sound naive tz zero minutes k h = cc
shift_from_sound naive tz (suc left) minutes k h =
    by_found (shift_from_sound naive tz left (minutes + 1) k) (exists_at naive tz minutes) refl h
  where
    by_found :
        (shift_from naive tz left (minutes + 1) ≡ ok k
          → First naive tz (minutes + 1) (minutes + 1 + left) k)
        → (r : Result Bool) → exists_at naive tz minutes ≡ r
        → (r >>= λ found. stop_or found minutes (shift_from naive tz left (minutes + 1))) ≡ ok k
        → First naive tz minutes (minutes + suc left) k
    by_found next (err e) m h = cc
    by_found next (ok true) m h =
        let same : minutes ≡ k = result_inj h in
        record {
          from = omega arith;
          below = omega arith;
          exists = ap (exists_at naive tz) (sym same) ∙ m;
          none_before = λ j lo hi. absurd (omega arith);
        }
    by_found next (ok false) m h =
        let later = next h in
        record {
          from = omega (arith, later.from);
          below = omega (arith, later.below);
          exists = later.exists;
          none_before = λ j lo hi. elim (Bool-cases (leb j minutes)) [
            | inl t ↦ ap (exists_at naive tz) (omega (arith, leb→le j minutes t)) ∙ m
            | inr f ↦ later.none_before j (ground arith) hi
          ];
        }

shift_from_complete :
    (naive : Datetime) (tz : ZoneInfo) (left minutes k : ℕ)
    → First naive tz minutes (minutes + left) k
    → shift_from naive tz left minutes ≡ ok k
unfolding shift_from
shift_from_complete naive tz zero minutes k f = absurd (omega (arith, f.from, f.below))
shift_from_complete naive tz (suc left) minutes k f = elim (Bool-cases (leb k minutes)) [
  | inl t ↦
      let same : minutes ≡ k = omega (arith, leb→le k minutes t, f.from) in
      rw (ap (exists_at naive tz) same ∙ f.exists) (ap ok same)
  | inr u ↦ rw (f.none_before minutes (omega arith) (ground arith)) (
      shift_from_complete naive tz left (minutes + 1) k (record {
        from = ground arith;
        below = omega (arith, f.below);
        exists = f.exists;
        none_before = λ j lo hi. f.none_before j (omega arith) hi;
      }))
]

-- The search returns `k` exactly when `k` is the first of the minutes 1 to 2880 at which the local time
-- exists.
pub shift_forward_iff :
    (naive : Datetime) (tz : ZoneInfo) (k : ℕ)
    → (shift_forward naive tz ≡ ok k) ↔ First naive tz 1 2881 k
unfolding shift_forward
shift_forward_iff naive tz k = (
  shift_from_sound naive tz shift_forward_max_minutes 1 k,
  shift_from_complete naive tz shift_forward_max_minutes 1 k,
)
