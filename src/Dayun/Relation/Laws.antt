-- ===== src/Dayun/Relation/Laws.antt =====
-- The Ten Gods as a scheme: each decade stem is another god to a day master, and relations have a
-- converse.
use fufire_api_lunar.Prelude.{
  ℕ, ◌<◌, ◌≡◌, refl, Bool, true, ◌||◌, not, arith, all_below, all_below₂_sound, all_below_sound,
  ◌==◌, eq_ℕ, eq_String,
}
use fufire_api_lunar.Dayun.Relation.{compute_relation_to_day_master, god_of}

abbrev apart : ℕ → ℕ → ℕ → Bool
apart dm a b =
    a == b
    || not (
        god_of (compute_relation_to_day_master a dm)
        == god_of (compute_relation_to_day_master b dm))

apart_test : all_below 10 (λ dm. all_below 10 (λ a. all_below 10 (λ b. apart dm a b))) ≡ true
unfolding all_below compute_relation_to_day_master
apart_test = refl

-- For a day master and decade stems 0 to 9 the classification tells the ten stems apart: two stems that
-- are the same god to the day master are one stem.
pub ten_god_inj :
    (dm a b : ℕ)
    → dm < 10
    → a < 10
    → b < 10
    → god_of (compute_relation_to_day_master a dm) ≡ god_of (compute_relation_to_day_master b dm)
    → a ≡ b
ten_god_inj dm a b hd ha hb same = by_test (
    all_below₂_sound 10 10 (apart dm) a b
      (all_below_sound 10 (λ dm. all_below 10 (λ a. all_below 10 (λ b. apart dm a b))) dm apart_test
        hd)
      ha hb)
  where
    by_test : apart dm a b ≡ true → a ≡ b
    by_test t = ground (
      arith,
      eq_String.beq_iff (god_of (compute_relation_to_day_master a dm))
          (god_of (compute_relation_to_day_master b dm)),
    )
