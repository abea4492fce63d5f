-- ===== src/Zwds/Palace/Layout.antt =====
-- The twelve palaces as a whole: what each holds, and that the ring is complete.
use fufire_api_lunar.Prelude.{
  ℕ, ◌+◌, ◌%◌, ◌<◌, ◌≡◌, ◌↔◌, refl, true, ◌&&◌, String, List, [], ◌∷◌, map, ok, arith, All, ◌▸◌,
  ◌==◌, eq_ℕ, eq_String, eq_iff, ==_iff, all_below, all_below_sound, ap, ◌∙◌,
}
use fufire_api_lunar.Prelude.Int.{ℤ, pos, ◌-ℤ◌}
use fufire_api_lunar.Prelude.Dict.{all_different}
use fufire_api_lunar.Zwds.Domain.Modulo.{mod12, mod12-lt}
use fufire_api_lunar.Zwds.Domain.Stem
use fufire_api_lunar.Zwds.Domain.Branch
use fufire_api_lunar.Zwds.Palace.{
  Palace, palace_roles, ming_branch, shen_branch, palace_stem, build_palaces,
}
use fufire_api_lunar.Zwds.Palace.Ring.{
  ring_branch, seated, ring_from, ring, palace_stem-lt, ming_branch-lt, build_palaces-ring,
}
use fufire_api_lunar.Zwds.Palace.Parity.{palace_stem_parity}

-- A palace in its place, for the Ming and Shen branches `ming_b` and `shen_b`: it lies as many
-- branches back from the Ming branch as its sequence says, its stem has its branch's parity, and its
-- flags mark the Ming palace and the palaces on the Shen branch.
pub record Placed (ming_b shen_b : ℕ) (p : Palace) : Type 0 where
  pub in_sequence : (Branch.value p.branch_id + p.sequence_index_0) % 12 ≡ ming_b
  pub parity : Stem.value p.stem_id % 2 ≡ Branch.value p.branch_id % 2
  pub ming_flag : (p.is_ming_palace ≡ true) ↔ (p.palace_role_id ≡ "MING")
  pub shen_flag : (p.is_shen_palace ≡ true) ↔ (Branch.value p.branch_id ≡ shen_b)

-- The whole ring: every role once, in the source's order, on twelve different branches.
pub record Complete (ming_b shen_b : ℕ) (ps : List Palace) : Type 0 where
  pub roles : map (λ (p : Palace). p.palace_role_id) ps ≡ palace_roles
  pub sequence :
      map (λ (p : Palace). p.sequence_index_0) ps
      ≡ 0 ∷ 1 ∷ 2 ∷ 3 ∷ 4 ∷ 5 ∷ 6 ∷ 7 ∷ 8 ∷ 9 ∷ 10 ∷ 11 ∷ []
  pub branches : all_different (map (λ (p : Palace). Branch.value p.branch_id) ps) ≡ true
  pub placed : All (Placed ming_b shen_b) ps

back : (m i : ℕ) → m < 12 → i < 12 → (ring_branch m i + i) % 12 ≡ m
unfolding mod12 ◌-ℤ◌
back m i hm hi = ground arith

-- Only the role at sequence 0 is called "MING", and only that palace is on the Ming branch.
abbrev OnlyFirst : ℕ → String → Type 0
OnlyFirst i role = (role ≡ "MING") ↔ (i ≡ 0)

ming_flag_lem :
    (m i : ℕ) (role : String)
    → m < 12
    → OnlyFirst i role
    → ((ring_branch m i == m && role == "MING") ≡ true) ↔ (role ≡ "MING")
unfolding mod12 ◌-ℤ◌
ming_flag_lem m i role h f = ground (arith, eq_iff role "MING")

seated-Placed :
    (ming_b shen_b : ℕ) (y_s : ℤ) (i : ℕ) (role : String)
    → ming_b < 12
    → i < 12
    → OnlyFirst i role
    → Placed ming_b shen_b (seated ming_b shen_b y_s i role)
seated-Placed ming_b shen_b y_s i role hm hi f =
    let branch = Branch.value-member_at (ring_branch ming_b i) (mod12-lt _) in
    record {
      in_sequence = rw branch (back ming_b i hm hi);
      parity =
          rw
            (
              branch,
              Stem.value-member_at (palace_stem (pos (ring_branch ming_b i)) y_s)
                  (palace_stem-lt _ _),
            )
            (palace_stem_parity (ring_branch ming_b i) y_s);
      ming_flag = ming_flag_lem ming_b i role hm f;
      shen_flag = rw branch (==_iff (ring_branch ming_b i) shen_b);
    }

abbrev back_from : ℕ → ℕ → List String → List ℕ
back_from ming_b i [] = []
back_from ming_b i (role ∷ roles) = ring_branch ming_b i ∷ back_from ming_b (i + 1) roles

branches_of :
    (ming_b shen_b : ℕ) (y_s : ℤ) (i : ℕ) (roles : List String)
    → map (λ (p : Palace). Branch.value p.branch_id) (ring_from ming_b shen_b y_s i roles)
      ≡ back_from ming_b i roles
branches_of ming_b shen_b y_s i [] = refl
branches_of ming_b shen_b y_s i (role ∷ roles) = rw (
  Branch.value-member_at (ring_branch ming_b i) (mod12-lt _),
  branches_of ming_b shen_b y_s (i + 1) roles,
)

branches_test : all_below 12 (λ m. all_different (back_from m 0 palace_roles)) ≡ true
unfolding all_below mod12 ◌-ℤ◌
branches_test = refl

only_first : (i : ℕ) (role : String) → (role == "MING") ≡ (i == 0) → OnlyFirst i role
only_first i role h = ground (arith, eq_iff role "MING", h)

pub ring-Complete :
    (ming_b shen_b : ℕ) (y_s : ℤ)
    → ming_b < 12
    → Complete ming_b shen_b (ring_from ming_b shen_b y_s 0 palace_roles)
ring-Complete ming_b shen_b y_s h = record {
  roles = refl;
  sequence = refl;
  branches =
      ap all_different (branches_of ming_b shen_b y_s 0 palace_roles)
      ∙ all_below_sound 12 (λ m. all_different (back_from m 0 palace_roles)) ming_b branches_test h;
  placed =
      at 0 "MING" (omega arith) refl
      ▸ at 1 "XIONG_DI" (omega arith) refl
      ▸ at 2 "FU_QI" (omega arith) refl
      ▸ at 3 "ZI_NU" (omega arith) refl
      ▸ at 4 "CAI_BO" (omega arith) refl
      ▸ at 5 "JI_E" (omega arith) refl
      ▸ at 6 "QIAN_YI" (omega arith) refl
      ▸ at 7 "JIAO_YOU" (omega arith) refl
      ▸ at 8 "GUAN_LU" (omega arith) refl
      ▸ at 9 "TIAN_ZHAI" (omega arith) refl
      ▸ at 10 "FU_DE" (omega arith) refl
      ▸ at 11 "FU_MU" (omega arith) refl
      ▸ tt;
}
  where
    at :
        (i : ℕ) (role : String)
        → i < 12
        → (role == "MING") ≡ (i == 0)
        → Placed ming_b shen_b (seated ming_b shen_b y_s i role)
    at i role hi e = seated-Placed ming_b shen_b y_s i role h hi (only_first i role e)

-- For all integers `build_palaces` returns, and what it returns is the complete ring on the Ming and
-- Shen branches.
pub build_palaces-Complete :
    (m h y_s : ℤ)
    → (ps : List Palace) × (build_palaces m h y_s ≡ ok ps)
      × Complete (ming_branch m h) (shen_branch m h) ps
build_palaces-Complete m h y_s = (
  ring m h y_s,
  build_palaces-ring m h y_s,
  ring-Complete (ming_branch m h) (shen_branch m h) y_s (ming_branch-lt m h),
)
