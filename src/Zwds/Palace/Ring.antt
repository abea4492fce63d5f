-- ===== src/Zwds/Palace/Ring.antt =====
-- The ring that `build_palaces` lays out.
use fufire_api_lunar.Prelude.{
  ℕ, ◌+◌, ◌<◌, ◌≡◌, refl, String, List, [], ◌∷◌, ok, ◌&&◌, ◌==◌, eq_ℕ, eq_String,
}
use fufire_api_lunar.Prelude.Int.{ℤ, pos, ◌-ℤ◌}
use fufire_api_lunar.Zwds.Domain.Modulo.{mod12, mod12-lt, mod10-lt}
use fufire_api_lunar.Zwds.Domain.Stem
use fufire_api_lunar.Zwds.Domain.Branch
use fufire_api_lunar.Zwds.Palace.{
  Palace, palace_roles, ming_branch, shen_branch, palace_stem, seat, seat_from, build_palaces,
}

-- The branch index of the palace at sequence `i`.
abbrev pub ring_branch : ℕ → ℕ → ℕ
ring_branch ming_b i = mod12 (pos ming_b -ℤ pos i)

-- The palace that `seat` builds.
abbrev pub seated : ℕ → ℕ → ℤ → ℕ → String → Palace
seated ming_b shen_b y_s i role = record {
  palace_role_id = role;
  sequence_index_0 = i;
  branch_id = Branch.member_at (ring_branch ming_b i);
  stem_id = Stem.member_at (palace_stem (pos (ring_branch ming_b i)) y_s);
  is_ming_palace = ring_branch ming_b i == ming_b && role == "MING";
  is_shen_palace = ring_branch ming_b i == shen_b;
}

abbrev pub ring_from : ℕ → ℕ → ℤ → ℕ → List String → List Palace
ring_from ming_b shen_b y_s i [] = []
ring_from ming_b shen_b y_s i (role ∷ roles) =
    seated ming_b shen_b y_s i role ∷ ring_from ming_b shen_b y_s (i + 1) roles

pub palace_stem-lt : (b y_s : ℤ) → palace_stem b y_s < 10
unfolding palace_stem
palace_stem-lt b y_s = mod10-lt _

seat-seated :
    (ming_b shen_b : ℕ) (y_s : ℤ) (i : ℕ) (role : String)
    → seat ming_b shen_b y_s i role ≡ ok (seated ming_b shen_b y_s i role)
unfolding seat
seat-seated ming_b shen_b y_s i role =
    rw (Branch.of_value-member_at (ring_branch ming_b i) (mod12-lt _)) (
      rw (
        Stem.of_value-member_at (palace_stem (pos (ring_branch ming_b i)) y_s)
          (palace_stem-lt _ _)))

seat_from-ring_from :
    (ming_b shen_b : ℕ) (y_s : ℤ) (i : ℕ) (roles : List String)
    → seat_from ming_b shen_b y_s i roles ≡ ok (ring_from ming_b shen_b y_s i roles)
unfolding seat_from
seat_from-ring_from ming_b shen_b y_s i [] = refl
seat_from-ring_from ming_b shen_b y_s i (role ∷ roles) =
    rw (seat-seated ming_b shen_b y_s i role)
      (rw (seat_from-ring_from ming_b shen_b y_s (i + 1) roles))

abbrev pub ring : ℤ → ℤ → ℤ → List Palace
ring m h y_s = ring_from (ming_branch m h) (shen_branch m h) y_s 0 palace_roles

-- For all integers the layout succeeds, with the palaces of `ring`.
pub build_palaces-ring : (m h y_s : ℤ) → build_palaces m h y_s ≡ ok (ring m h y_s)
unfolding build_palaces
build_palaces-ring m h y_s =
    seat_from-ring_from (ming_branch m h) (shen_branch m h) y_s 0 palace_roles

pub ming_branch-lt : (m h : ℤ) → ming_branch m h < 12
unfolding ming_branch
ming_branch-lt m h = mod12-lt _

pub shen_branch-lt : (m h : ℤ) → shen_branch m h < 12
unfolding shen_branch
shen_branch-lt m h = mod12-lt _
