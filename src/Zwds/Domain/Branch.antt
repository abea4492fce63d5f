-- ===== src/Zwds/Domain/Branch.antt =====
-- `BranchId` of bazi_engine/zwds/domain.py.
use fufire_api_lunar.Prelude.{
  ℕ, ◌<◌, ◌≡◌, refl, String, List, [], ◌∷◌, Option, none, some, get_elem?, get_or, get_elem?-get_or,
  get_elem?-none, ◌≤◌, Result, ok, err, value_error, ap, sym, ◌∙◌, true, ◌==◌, eq_ℕ, beq_eq,
  beq_self, all_below, all_below_sound, arith, Eq, ◌↔◌, eq_String, if◌then◌else◌, key_error,
}

pub data BranchId : Type 0 where
  zi chou yin mao chen si wu wei shen you xu hai : BranchId

-- int(member)
abbrev pub value : BranchId → ℕ
value zi = 0
value chou = 1
value yin = 2
value mao = 3
value chen = 4
value si = 5
value wu = 6
value wei = 7
value shen = 8
value you = 9
value xu = 10
value hai = 11

-- member.name
abbrev pub name : BranchId → String
name zi = "ZI"
name chou = "CHOU"
name yin = "YIN"
name mao = "MAO"
name chen = "CHEN"
name si = "SI"
name wu = "WU"
name wei = "WEI"
name shen = "SHEN"
name you = "YOU"
name xu = "XU"
name hai = "HAI"

-- list(BranchId)
abbrev pub members : List BranchId
members = zi ∷ chou ∷ yin ∷ mao ∷ chen ∷ si ∷ wu ∷ wei ∷ shen ∷ you ∷ xu ∷ hai ∷ []

abbrev or_raise : Option BranchId → Result BranchId
or_raise none = err value_error
or_raise (some x) = ok x

-- BranchId(i)
unfoldable pub of_value : ℕ → Result BranchId
of_value i = or_raise (get_elem? members i)

-- The member with value `i`, and the last one where there is none.
unfoldable pub member_at : ℕ → BranchId
member_at i = get_or members i hai

pub of_value-member_at : (i : ℕ) → i < 12 → of_value i ≡ ok (member_at i)
unfolding of_value member_at
of_value-member_at i h = ap or_raise (get_elem?-get_or members i hai h)

pub of_value-err : (i : ℕ) → 12 ≤ i → of_value i ≡ err value_error
unfolding of_value
of_value-err i h = ap or_raise (get_elem?-none members i h)

values_table : all_below 12 (λ i. value (member_at i) == i) ≡ true
unfolding all_below member_at
values_table = refl

pub value-member_at : (i : ℕ) → i < 12 → value (member_at i) ≡ i
value-member_at i h = beq_eq _ i (all_below_sound 12 _ i values_table h)

pub value-lt : (x : BranchId) → value x < 12
value-lt zi = omega arith
value-lt chou = omega arith
value-lt yin = omega arith
value-lt mao = omega arith
value-lt chen = omega arith
value-lt si = omega arith
value-lt wu = omega arith
value-lt wei = omega arith
value-lt shen = omega arith
value-lt you = omega arith
value-lt xu = omega arith
value-lt hai = omega arith

pub member_at-value : (x : BranchId) → member_at (value x) ≡ x
unfolding member_at
member_at-value zi = refl
member_at-value chou = refl
member_at-value yin = refl
member_at-value mao = refl
member_at-value chen = refl
member_at-value si = refl
member_at-value wu = refl
member_at-value wei = refl
member_at-value shen = refl
member_at-value you = refl
member_at-value xu = refl
member_at-value hai = refl

pub value_inj : (x y : BranchId) → value x ≡ value y → x ≡ y
value_inj x y h = sym (member_at-value x) ∙ ap member_at h ∙ member_at-value y

abbrev named : List BranchId → String → Result BranchId
named [] s = err key_error
named (x ∷ xs) s = if name x == s then ok x else named xs s

-- BranchId[s]
unfoldable pub of_name : String → Result BranchId
of_name s = named members s

-- A member is the one that its name looks up.
pub of_name-name : (x : BranchId) → of_name (name x) ≡ ok x
unfolding of_name
of_name-name zi = refl
of_name-name chou = refl
of_name-name yin = refl
of_name-name mao = refl
of_name-name chen = refl
of_name-name si = refl
of_name-name wu = refl
of_name-name wei = refl
of_name-name shen = refl
of_name-name you = refl
of_name-name xu = refl
of_name-name hai = refl

pub name_inj : (x y : BranchId) → name x ≡ name y → x ≡ y
name_inj x y h = cc (of_name-name x, of_name-name y, ap of_name h)

pub value_iff : (x y : BranchId) → ((value x == value y) ≡ true) ↔ (x ≡ y)
value_iff x y = (λ h. value_inj x y (beq_eq _ _ h), λ e. rw e (beq_self (value y)))

instance abbrev pub eq_BranchId : Eq BranchId
eq_BranchId = record { beq = λ x y. value x == value y; beq_iff = value_iff }
