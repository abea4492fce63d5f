-- ===== src/Bazi/Pillars/Tables.antt =====
-- The tables of the shipped ruleset and the formulas are one.
use fufire_api_lunar.Prelude.{
  ℕ, ◌+◌, ◌*◌, ◌%◌, ◌<◌, ◌≡◌, refl, Bool, true, false, none, some, Result, ok, err, ap, all_below,
  all_below₂_sound, ◌==◌, eq_ℕ, beq_eq,
}
use fufire_api_lunar.Bazi.Pillars.{
  month_groups, hour_groups, stem_from_table, month_pillar_from_year_stem,
  hour_pillar_from_day_stem,
}

abbrev gives : Result ℕ → ℕ → Bool
gives (ok v) s = v == s
gives (err e) s = false

gives-eq : (r : Result ℕ) (s : ℕ) → gives r s ≡ true → r ≡ ok s
gives-eq (ok v) s h = ap ok (beq_eq v s h)
gives-eq (err e) s h = cc

months_test :
    all_below 10
      (λ s. all_below 12 (λ k. gives (stem_from_table month_groups s k) ((s * 2 + 2 + k) % 10)))
    ≡ true
unfolding all_below stem_from_table
months_test = refl

hours_test :
    all_below 10
      (λ s. all_below 12 (λ k. gives (stem_from_table hour_groups s k) ((s * 2 + k) % 10)))
    ≡ true
unfolding all_below stem_from_table
hours_test = refl

-- For every year stem and month index the month pillar by the shipped table is the computed one.
pub month_pillar_table :
    (s k : ℕ)
    → s < 10
    → k < 12
    → month_pillar_from_year_stem s k (some month_groups) ≡ month_pillar_from_year_stem s k none
unfolding month_pillar_from_year_stem
month_pillar_table s k hs hk = rw (
    gives-eq (stem_from_table month_groups s k) ((s * 2 + 2 + k) % 10) (
      all_below₂_sound 10 12
        (λ s k. gives (stem_from_table month_groups s k) ((s * 2 + 2 + k) % 10)) s k months_test hs
        hk))

-- For every day stem and hour branch the hour pillar by the shipped table is the computed one.
pub hour_pillar_table :
    (s k : ℕ)
    → s < 10
    → k < 12
    → hour_pillar_from_day_stem s k (some hour_groups) ≡ hour_pillar_from_day_stem s k none
unfolding hour_pillar_from_day_stem
hour_pillar_table s k hs hk = rw (
    gives-eq (stem_from_table hour_groups s k) ((s * 2 + k) % 10) (
      all_below₂_sound 10 12 (λ s k. gives (stem_from_table hour_groups s k) ((s * 2 + k) % 10)) s k
        hours_test hs hk))
