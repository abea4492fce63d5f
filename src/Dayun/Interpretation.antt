-- ===== src/Dayun/Interpretation.antt =====
-- bazi_engine/dayun/interpretation.py: the branch relations of a decade with the natal branches. The
-- texts of the summary are left out.
use fufire_api_lunar.Prelude.{
  ℕ, ◌+◌, ◌%◌, ◌<◌, ◌≡◌, ◌↔◌, refl, String, Bool, true, false, ◌&&◌, ◌||◌, List, [], ◌∷◌, arith,
  ◌==◌, eq_ℕ, eq_String, if◌then◌else◌, all_below, all_below₂_sound, not,
}
use fufire_api_lunar.Prelude.Int.{pos, ◌-ℤ◌, floor_mod}

-- The pairs of `SIX_COMBINE`, which are sets of two.
abbrev six_combine : List (ℕ × ℕ)
six_combine = (0, 1) ∷ (2, 11) ∷ (3, 10) ∷ (4, 9) ∷ (5, 8) ∷ (6, 7) ∷ []

abbrev in_pairs : List (ℕ × ℕ) → ℕ → ℕ → Bool
in_pairs [] a b = false
in_pairs ((x, y) ∷ r) a b = (x == a && y == b) || (x == b && y == a) || in_pairs r a b

unfoldable pub clashes : ℕ → ℕ → Bool
clashes a b = floor_mod (pos a -ℤ pos b) 12 == 6

unfoldable pub combines : ℕ → ℕ → Bool
combines a b = in_pairs six_combine a b

pub record NatalBranches : Type 0 where
  pub year : ℕ
  pub month : ℕ
  pub day : ℕ
  pub hour : ℕ

pub record Interactions : Type 0 where
  pub clashing : List String
  pub combining : List String

abbrev pub positions : NatalBranches → List (String × ℕ)
positions n = ("year", n.year) ∷ ("month", n.month) ∷ ("day", n.day) ∷ ("hour", n.hour) ∷ []

-- One list of the loop: the positions whose branch passes the test, in order.
unfoldable pub those : (ℕ → Bool) → List (String × ℕ) → List String
those test [] = []
those test ((name, nb) ∷ r) = let rest = those test r in if test nb then name ∷ rest else rest

unfoldable pub branch_interactions : ℕ → NatalBranches → Interactions
unfolding clashes combines those
branch_interactions decade_branch_index natal_branches = record {
  clashing = those (clashes decade_branch_index) (positions natal_branches);
  combining = those (combines decade_branch_index) (positions natal_branches);
}

abbrev same : Bool → Bool → Bool
same true b = b
same false b = not b

same-eq : (a b : Bool) → same a b ≡ true → a ≡ b
same-eq true b h = ground arith
same-eq false b h = ground arith

combines_test :
    all_below 12 (λ a. all_below 12 (λ b. same (combines a b) ((a + b) % 12 == 1))) ≡ true
unfolding all_below combines
combines_test = refl

-- Of the branches 0 to 11, two combine just when their indices add up to 1 in the ring, and clash just
-- when they are opposite in it.
pub combines_clashes_lem :
    (a b : ℕ)
    → a < 12
    → b < 12
    → (combines a b ≡ ((a + b) % 12 == 1)) × ((clashes a b ≡ true) ↔ ((a + 6) % 12 ≡ b))
combines_clashes_lem a b ha hb = (
  same-eq _ _ (
      all_below₂_sound 12 12 (λ a b. same (combines a b) ((a + b) % 12 == 1)) a b combines_test ha
        hb),
  opposite a b ha hb,
)
  where
    opposite : (a b : ℕ) → a < 12 → b < 12 → (clashes a b ≡ true) ↔ ((a + 6) % 12 ≡ b)
    opposite a b ha hb = unfold clashes ◌-ℤ◌ in ground arith
