-- ===== src/Zwds/Palace.antt =====
-- bazi_engine/zwds/palace.py: the Ming and Shen anchors, the ring of twelve palaces, and the
-- Five-Tigers stems. Arguments are Python integers, so any ℤ.
pub mod Ring
pub mod Parity
pub mod Layout
use fufire_api_lunar.Prelude.{
  ℕ, ◌+◌, String, Bool, ◌&&◌, List, [], ◌∷◌, Result, ok, ◌>>=◌, ◌==◌, eq_ℕ, eq_String,
}
use fufire_api_lunar.Prelude.Int.{ℤ, pos, ◌+ℤ◌, ◌-ℤ◌, ◌*ℤ◌}
use fufire_api_lunar.Zwds.Domain.Modulo.{mod12, mod10}
use fufire_api_lunar.Zwds.Domain.Stem
use fufire_api_lunar.Zwds.Domain.Stem.{StemId}
use fufire_api_lunar.Zwds.Domain.Branch
use fufire_api_lunar.Zwds.Domain.Branch.{BranchId}

abbrev pub yin : ℕ
yin = Branch.value Branch.yin

abbrev pub palace_roles : List String
palace_roles =
    "MING" ∷ "XIONG_DI" ∷ "FU_QI" ∷ "ZI_NU" ∷ "CAI_BO" ∷ "JI_E" ∷ "QIAN_YI" ∷ "JIAO_YOU" ∷ "GUAN_LU"
    ∷ "TIAN_ZHAI" ∷ "FU_DE" ∷ "FU_MU" ∷ []

unfoldable pub ming_branch : ℤ → ℤ → ℕ
ming_branch m hour_branch_index = mod12 (pos yin +ℤ (m -ℤ pos 1) -ℤ hour_branch_index)

unfoldable pub shen_branch : ℤ → ℤ → ℕ
shen_branch m hour_branch_index = mod12 (pos yin +ℤ (m -ℤ pos 1) +ℤ hour_branch_index)

unfoldable pub yin_stem : ℤ → ℕ
yin_stem y_s = mod10 (pos 2 *ℤ y_s +ℤ pos 2)

unfoldable pub palace_stem : ℤ → ℤ → ℕ
palace_stem branch_b y_s = mod10 (pos (yin_stem y_s) +ℤ pos (mod12 (branch_b -ℤ pos yin)))

pub record Palace : Type 0 where
  pub palace_role_id : String
  pub sequence_index_0 : ℕ
  pub branch_id : BranchId
  pub stem_id : StemId
  pub is_ming_palace : Bool
  pub is_shen_palace : Bool

-- The body of the loop: the palace with role `role` at sequence `i`.
unfoldable pub seat : ℕ → ℕ → ℤ → ℕ → String → Result Palace
seat ming_b shen_b y_s i role = do
  let branch = mod12 (pos ming_b -ℤ pos i)
  branch_id ← Branch.of_value branch
  stem_id ← Stem.of_value (palace_stem (pos branch) y_s)
  ok (record {
    palace_role_id = role;
    sequence_index_0 = i;
    branch_id = branch_id;
    stem_id = stem_id;
    is_ming_palace = branch == ming_b && role == "MING";
    is_shen_palace = branch == shen_b;
  })

-- `for i, role in enumerate(PALACE_ROLES)`
unfoldable pub seat_from : ℕ → ℕ → ℤ → ℕ → List String → Result (List Palace)
seat_from ming_b shen_b y_s i [] = ok []
seat_from ming_b shen_b y_s i (role ∷ roles) = do
  palace ← seat ming_b shen_b y_s i role
  palaces ← seat_from ming_b shen_b y_s (i + 1) roles
  ok (palace ∷ palaces)

unfoldable pub build_palaces : ℤ → ℤ → ℤ → Result (List Palace)
unfolding seat seat_from
build_palaces m hour_branch_index y_s =
    seat_from (ming_branch m hour_branch_index) (shen_branch m hour_branch_index) y_s 0 palace_roles
