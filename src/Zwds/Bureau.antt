-- ===== src/Zwds/Bureau.antt =====
-- bazi_engine/zwds/bureau.py: the Five-Elements Bureau of a Ming palace. The stem and branch are
-- Python integers of any size.
pub mod Laws
use fufire_api_lunar.Prelude.{
  ℕ, zero, suc, ◌+◌, String, Bool, true, false, List, [], ◌∷◌, ◌++◌, Option, none, some, Result, ok,
  err, ◌>>=◌, ◌>>◌, require, value_error, key_error, ◌==◌, eq_ℕ, if◌then◌else◌,
}
use fufire_api_lunar.Prelude.Int.{ℤ, pos, ◌+ℤ◌, ◌-ℤ◌, floor_mod, floor_div}
use fufire_api_lunar.Prelude.Dict.{get}

abbrev pub formula_id : String
formula_id = "five-elements-bureau.mnemonic-v1"

abbrev pub source_status : String
source_status = "SOURCE_REVIEWED"

-- A bureau's id, phase and number.
pub record Row : Type 0 where
  pub bureau_id : String
  pub phase_id : String
  pub number : ℕ

abbrev row : String → String → ℕ → Row
row b p n = record { bureau_id = b; phase_id = p; number = n }

abbrev pub bureau_by_v : List (ℕ × Row)
bureau_by_v =
    (1, row "WOOD_3" "WOOD" 3)
    ∷ (2, row "METAL_4" "METAL" 4)
    ∷ (3, row "WATER_2" "WATER" 2)
    ∷ (4, row "FIRE_6" "FIRE" 6)
    ∷ (5, row "EARTH_5" "EARTH" 5)
    ∷ []

pub record Bureau : Type 0 where
  pub id : String
  pub phase_id : String
  pub number : ℕ
  pub formula_id : String
  pub source_status : String

unfoldable pub has_valid_parity : ℤ → ℤ → Bool
has_valid_parity stem0 branch0 = floor_mod (stem0 -ℤ branch0) 2 == 0

unfoldable pub bureau_v : ℤ → ℤ → ℕ
bureau_v stem0 branch0 =
    let stem_group = floor_div stem0 2 +ℤ pos 1 in
    let branch_group = floor_div (pos (floor_mod branch0 6)) 2 +ℤ pos 1 in
    floor_mod (stem_group +ℤ branch_group -ℤ pos 1) 5 + 1

-- `_BUREAU_BY_V[v]`
abbrev pub row_at : Option Row → Result Row
row_at none = err key_error
row_at (some r) = ok r

-- `Bureau(id=..., ...)`
abbrev pub bureau_of : Row → Bureau
bureau_of r = record {
  id = r.bureau_id;
  phase_id = r.phase_id;
  number = r.number;
  formula_id = formula_id;
  source_status = source_status;
}

unfoldable pub five_elements_bureau : ℤ → ℤ → Result Bureau
unfolding has_valid_parity bureau_v
five_elements_bureau stem0 branch0 = do
  require (has_valid_parity stem0 branch0) value_error
  r ← row_at (get bureau_by_v (bureau_v stem0 branch0))
  ok (bureau_of r)

-- The entry of one pair in the dictionary comprehension.
abbrev entry : ℕ → ℕ → Result (List ((ℕ × ℕ) × String))
unfolding has_valid_parity bureau_v
entry stem0 branch0 =
    if has_valid_parity (pos stem0) (pos branch0)
    then (row_at (get bureau_by_v (bureau_v (pos stem0) (pos branch0))) >>= λ r.
        ok (((stem0, branch0), r.bureau_id) ∷ []))
    else ok []

-- `for branch0 in range(12)`, with `left` rounds to go.
row_entries : ℕ → ℕ → ℕ → Result (List ((ℕ × ℕ) × String))
row_entries stem0 zero branch0 = ok []
row_entries stem0 (suc left) branch0 = do
  here ← entry stem0 branch0
  rest ← row_entries stem0 left (branch0 + 1)
  ok (here ++ rest)

-- `for stem0 in range(10)`
table_entries : ℕ → ℕ → Result (List ((ℕ × ℕ) × String))
table_entries zero stem0 = ok []
table_entries (suc left) stem0 = do
  here ← row_entries stem0 12 0
  rest ← table_entries left (stem0 + 1)
  ok (here ++ rest)

unfoldable pub bureau_pair_table : Result (List ((ℕ × ℕ) × String))
unfolding row_entries table_entries has_valid_parity bureau_v
bureau_pair_table = table_entries 10 0
