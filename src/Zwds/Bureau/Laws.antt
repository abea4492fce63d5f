-- ===== src/Zwds/Bureau/Laws.antt =====
-- What the bureau formula and its 60-pair table give.
use fufire_api_lunar.Prelude.{
  ℕ, zero, suc, ◌/◌, ◌%◌, ◌&&◌, get_or, all_below_sound, [], ◌∷◌, ◌≤◌, ◌<◌, ◌≡◌, ◌↔◌, refl, Bool,
  true, false, String, List, Option, none, some, Result, ok, err, value_error, ◌==◌, eq_ℕ,
  eq_String, arith, length, ap, eq_pair, all_below, all_below₂_sound, beq_eq,
}
use fufire_api_lunar.Prelude.Int.{ℤ, pos, ◌+ℤ◌, ◌-ℤ◌, floor_mod, floor_div, floor_mod-lt}
use fufire_api_lunar.Prelude.Dict.{get}
use fufire_api_lunar.Zwds.Bureau.{
  Row, Bureau, bureau_by_v, has_valid_parity, bureau_v, row_at, bureau_of, five_elements_bureau,
  bureau_pair_table,
}

bureau_v_range : (s b : ℤ) → (1 ≤ bureau_v s b) × (bureau_v s b ≤ 5)
unfolding bureau_v
bureau_v_range s b = omega (
  arith,
  floor_mod-lt (floor_div s 2 +ℤ pos 1 +ℤ (floor_div (pos (floor_mod b 6)) 2 +ℤ pos 1) -ℤ pos 1) 5
      (omega arith),
)

pub Found : ℕ → Type 0
Found v = (r : Row) × (row_at (get bureau_by_v v) ≡ ok r) × (2 ≤ r.number) × (r.number ≤ 6)

row-Found : (v : ℕ) → 1 ≤ v → v ≤ 5 → Found v
unfolding Found
row-Found zero h k = absurd (omega arith)
row-Found (suc zero) h k = (_, refl, omega arith, omega arith)
row-Found (suc (suc zero)) h k = (_, refl, omega arith, omega arith)
row-Found (suc (suc (suc zero))) h k = (_, refl, omega arith, omega arith)
row-Found (suc (suc (suc (suc zero)))) h k = (_, refl, omega arith, omega arith)
row-Found (suc (suc (suc (suc (suc zero))))) h k = (_, refl, omega arith, omega arith)
row-Found (suc (suc (suc (suc (suc (suc v)))))) h k = absurd (omega arith)

-- A pair of one parity has a bureau, with a number from 2 to 6.
pub five_elements_bureau-ok :
    (s b : ℤ)
    → has_valid_parity s b ≡ true
    → (u : Bureau) × (five_elements_bureau s b ≡ ok u) × (2 ≤ u.number) × (u.number ≤ 6)
unfolding five_elements_bureau Found
five_elements_bureau-ok s b h =
    let (r, e, lo, hi) = row-Found (bureau_v s b) (bureau_v_range s b).0 (bureau_v_range s b).1 in
    (bureau_of r, rw h (rw e refl), lo, hi)

pub five_elements_bureau-err :
    (s b : ℤ) → has_valid_parity s b ≡ false → five_elements_bureau s b ≡ err value_error
unfolding five_elements_bureau
five_elements_bureau-err s b h = rw h

pub parity_iff : (s b : ℕ) → (has_valid_parity (pos s) (pos b) ≡ true) ↔ (s % 2 ≡ b % 2)
unfolding has_valid_parity ◌-ℤ◌
parity_iff s b = ground arith

-- The traditional Na Yin phases of the thirty pairs of the cycle of sixty, from Jia-Zi and Yi-Chou on.
abbrev pub nayin : List String
nayin =
    "METAL" ∷ "FIRE" ∷ "WOOD" ∷ "EARTH" ∷ "METAL" ∷ "FIRE" ∷ "WATER" ∷ "EARTH" ∷ "METAL" ∷ "WOOD"
    ∷ "WATER" ∷ "EARTH" ∷ "FIRE" ∷ "WOOD" ∷ "WATER" ∷ "METAL" ∷ "FIRE" ∷ "WOOD" ∷ "EARTH" ∷ "METAL"
    ∷ "FIRE" ∷ "WATER" ∷ "EARTH" ∷ "METAL" ∷ "WOOD" ∷ "WATER" ∷ "EARTH" ∷ "FIRE" ∷ "WOOD" ∷ "WATER"
    ∷ []

-- The number of the bureau of a phase.
abbrev pub number_of : List (String × ℕ)
number_of = ("WATER", 2) ∷ ("WOOD", 3) ∷ ("METAL", 4) ∷ ("EARTH", 5) ∷ ("FIRE", 6) ∷ []

-- A bureau of the phase, with its number.
pub record OfPhase (phase : String) (b : Bureau) : Type 0 where
  pub named : b.phase_id ≡ phase
  pub numbered : get number_of phase ≡ some b.number

abbrev has_number : Option ℕ → ℕ → Bool
has_number none n = false
has_number (some m) n = m == n

abbrev of_phase : String → Result Bureau → Bool
of_phase phase (err e) = false
of_phase phase (ok b) = b.phase_id == phase && has_number (get number_of phase) b.number

nayin_test :
    all_below 60
      (λ i. of_phase (get_or nayin (i / 2) "") (five_elements_bureau (pos (i % 10)) (pos (i % 12))))
    ≡ true
unfolding all_below five_elements_bureau ◌+ℤ◌ ◌-ℤ◌
nayin_test = refl

has_number-eq : (o : Option ℕ) (n : ℕ) → has_number o n ≡ true → o ≡ some n
has_number-eq none n h = cc
has_number-eq (some m) n h = ap some (beq_eq m n h)

of_phase-OfPhase :
    (phase : String) (r : Result Bureau)
    → of_phase phase r ≡ true
    → (b : Bureau) × (r ≡ ok b) × OfPhase phase b
of_phase-OfPhase phase (err e) h = absurd (cc h)
of_phase-OfPhase phase (ok b) h = (
  b,
  refl,
  record {
    named = beq_eq b.phase_id phase (ground arith);
    numbered = has_number-eq (get number_of phase) b.number (ground arith);
  },
)

-- Every pair of the cycle of sixty has a bureau: its phase is the one that the traditional list of Na Yin
-- has for the pair, and its number is that of the phase.
pub five_elements_bureau_nayin :
    (i : ℕ)
    → i < 60
    → (b : Bureau) × (five_elements_bureau (pos (i % 10)) (pos (i % 12)) ≡ ok b)
      × OfPhase (get_or nayin (i / 2) "") b
five_elements_bureau_nayin i h = of_phase-OfPhase _ _ (
    all_below_sound 60
      (λ i. of_phase (get_or nayin (i / 2) "") (five_elements_bureau (pos (i % 10)) (pos (i % 12))))
      i nayin_test h)

-- What a lookup of the pair finds in the table, and the id that the function gives.
abbrev pub looked_up : Result (List ((ℕ × ℕ) × String)) → ℕ → ℕ → Option String
looked_up (ok table) s b = get table (s, b)
looked_up (err e) s b = none

abbrev pub computed : Result Bureau → Option String
computed (ok u) = some u.id
computed (err e) = none

abbrev same_id : Option String → Option String → Bool
same_id none none = true
same_id (some a) (some b) = a == b
same_id _ _ = false

same_id-eq : (a b : Option String) → same_id a b ≡ true → a ≡ b
same_id-eq none none h = refl
same_id-eq none (some b) h = cc
same_id-eq (some a) none h = cc
same_id-eq (some a) (some b) h = ap some (beq_eq a b h)

table_test :
    all_below 10 (λ s. all_below 12 (λ b.
      same_id (looked_up bureau_pair_table s b) (computed (five_elements_bureau (pos s) (pos b)))))
    ≡ true
unfolding all_below bureau_pair_table five_elements_bureau ◌+ℤ◌ ◌-ℤ◌
table_test = refl

-- The 60-pair table holds, for each stem and branch index, just what the function computes.
pub bureau_pair_table_lem :
    (s b : ℕ)
    → s < 10
    → b < 12
    → looked_up bureau_pair_table s b ≡ computed (five_elements_bureau (pos s) (pos b))
bureau_pair_table_lem s b hs hb = same_id-eq _ _ (
    all_below₂_sound 10 12
      (λ s b.
        same_id (looked_up bureau_pair_table s b) (computed (five_elements_bureau (pos s) (pos b))))
      s b table_test hs hb)

abbrev pub table_size : Result (List ((ℕ × ℕ) × String)) → ℕ
table_size (ok table) = length table
table_size (err e) = 0

pub bureau_pair_table_size : table_size bureau_pair_table ≡ 60
unfolding bureau_pair_table ◌+ℤ◌ ◌-ℤ◌
bureau_pair_table_size = refl
