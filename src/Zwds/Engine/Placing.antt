-- ===== src/Zwds/Engine/Placing.antt =====
-- What the loop over the stars builds: a placement for each, and for each branch the ids on it.
use mathlib.Core.List.{append-nil, append_assoc}
use fufire_api_lunar.Prelude.{
  ℕ, ◌<◌, ◌≡◌, sym, ap, String, List, [], ◌∷◌, ◌++◌, map, none, ok, All, ◌==◌, eq_ℕ, eq_String,
  beq_eq, if◌then◌else◌, Bool-cases, inl, inr,
}
use fufire_api_lunar.Prelude.Dict.{get, get-put}
use fufire_api_lunar.Zwds.Domain.Branch
use fufire_api_lunar.Zwds.Stars.Placed.{StarBranch}
use fufire_api_lunar.Zwds.Transformations.{or_empty}
use fufire_api_lunar.Zwds.Decadal.{role_at}
use fufire_api_lunar.Zwds.Chart.{StarPlacement}
use fufire_api_lunar.Zwds.Engine.{or_default, placement_id_of, place_star, note_branch, place_stars}

-- The placement that is built for a star in the role `role`.
abbrev pub placed :
    List (String × List String) → List (String × String) → String → StarBranch → StarPlacement
placed tx_by_star statuses role star = record {
  placement_id = placement_id_of star;
  star_id = star.star_id;
  family_id = star.family_id;
  scope = "natal";
  branch_id = Branch.name (Branch.member_at star.branch_index);
  palace_role_id = role;
  brightness_code = none;
  transformation_types = or_empty (get tx_by_star star.star_id);
  formula_id = star.formula_id;
  source_status = or_default (get statuses star.star_id) star.source_status;
}

abbrev pub noted : List (ℕ × List String) → List StarBranch → List (ℕ × List String)
noted by_branch [] = by_branch
noted by_branch (star ∷ stars) = noted (note_branch by_branch star) stars

-- Every branch has a palace: `role b` is the one that is looked up for `b`.
module _ (roles : List (ℕ × String)) (role : ℕ → String)
    (seated : (b : ℕ) → b < 12 → role_at roles b ≡ ok (role b))
    (tx_by_star : List (String × List String)) (statuses : List (String × String)) where
  abbrev pub placed_all : List StarBranch → List StarPlacement
  placed_all stars = map (λ star. placed tx_by_star statuses (role star.branch_index) star) stars

  place_star-placed :
      (star : StarBranch)
      → star.branch_index < 12
      → place_star roles tx_by_star statuses star
        ≡ ok (placed tx_by_star statuses (role star.branch_index) star)
  unfolding place_star
  place_star-placed star h =
      rw (Branch.of_value-member_at star.branch_index h, seated star.branch_index h)

  pub place_stars-placed :
      (stars : List StarBranch) (placements : List StarPlacement)
      (by_branch : List (ℕ × List String))
      → All (λ (s : StarBranch). s.branch_index < 12) stars
      → place_stars roles tx_by_star statuses stars placements by_branch
        ≡ ok (placements ++ placed_all stars, noted by_branch stars)
  unfolding place_stars
  place_stars-placed [] placements by_branch h =
      ap (λ l. ok (l, by_branch)) (sym (append-nil placements))
  place_stars-placed (star ∷ stars) placements by_branch (h, hs) = rw (
    place_star-placed star h,
    place_stars-placed stars
        (placements ++ placed tx_by_star statuses (role star.branch_index) star ∷ [])
        (note_branch by_branch star) hs,
    append_assoc placements (placed tx_by_star statuses (role star.branch_index) star ∷ [])
        (placed_all stars),
  )

-- The ids of the stars on a branch, in order.
abbrev pub ids_at : ℕ → List StarBranch → List String
ids_at b [] = []
ids_at b (star ∷ stars) =
    if star.branch_index == b then placement_id_of star ∷ ids_at b stars else ids_at b stars

pub noted-ids_at :
    (by_branch : List (ℕ × List String)) (stars : List StarBranch) (b : ℕ)
    → or_empty (get (noted by_branch stars) b) ≡ or_empty (get by_branch b) ++ ids_at b stars
unfolding note_branch
noted-ids_at by_branch [] b = sym (append-nil _)
noted-ids_at by_branch (star ∷ stars) b =
    rw
      (
        noted-ids_at (note_branch by_branch star) stars b,
        get-put by_branch star.branch_index b
            (or_empty (get by_branch star.branch_index) ++ placement_id_of star ∷ []),
      )
      (elim (Bool-cases (star.branch_index == b)) [
        | inl same ↦ rw (
          same,
          append_assoc (or_empty (get by_branch star.branch_index)) (placement_id_of star ∷ [])
              (ids_at b stars),
          beq_eq star.branch_index b same,
        )
        | inr other ↦ rw other
      ])
