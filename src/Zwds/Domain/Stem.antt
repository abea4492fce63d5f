-- ===== src/Zwds/Domain/Stem.antt =====
-- `StemId` of bazi_engine/zwds/domain.py.
use fufire_api_lunar.Prelude.{
  ℕ, ◌<◌, ◌≡◌, refl, String, List, [], ◌∷◌, Option, none, some, get_elem?, get_or, get_elem?-get_or,
  get_elem?-none, ◌≤◌, Result, ok, err, value_error, ap, sym, ◌∙◌, true, ◌==◌, eq_ℕ, beq_eq,
  all_below, all_below_sound, arith,
}

pub data StemId : Type 0 where
  jia yi bing ding wu ji geng xin ren gui : StemId

-- int(member)
abbrev pub value : StemId → ℕ
value jia = 0
value yi = 1
value bing = 2
value ding = 3
value wu = 4
value ji = 5
value geng = 6
value xin = 7
value ren = 8
value gui = 9

-- member.name
abbrev pub name : StemId → String
name jia = "JIA"
name yi = "YI"
name bing = "BING"
name ding = "DING"
name wu = "WU"
name ji = "JI"
name geng = "GENG"
name xin = "XIN"
name ren = "REN"
name gui = "GUI"

-- list(StemId)
abbrev pub members : List StemId
members = jia ∷ yi ∷ bing ∷ ding ∷ wu ∷ ji ∷ geng ∷ xin ∷ ren ∷ gui ∷ []

abbrev or_raise : Option StemId → Result StemId
or_raise none = err value_error
or_raise (some x) = ok x

-- StemId(i)
unfoldable pub of_value : ℕ → Result StemId
of_value i = or_raise (get_elem? members i)

-- The member with value `i`, and the last one where there is none.
unfoldable pub member_at : ℕ → StemId
member_at i = get_or members i gui

pub of_value-member_at : (i : ℕ) → i < 10 → of_value i ≡ ok (member_at i)
unfolding of_value member_at
of_value-member_at i h = ap or_raise (get_elem?-get_or members i gui h)

pub of_value-err : (i : ℕ) → 10 ≤ i → of_value i ≡ err value_error
unfolding of_value
of_value-err i h = ap or_raise (get_elem?-none members i h)

values_table : all_below 10 (λ i. value (member_at i) == i) ≡ true
unfolding all_below member_at
values_table = refl

pub value-member_at : (i : ℕ) → i < 10 → value (member_at i) ≡ i
value-member_at i h = beq_eq _ i (all_below_sound 10 _ i values_table h)

pub value-lt : (x : StemId) → value x < 10
value-lt jia = omega arith
value-lt yi = omega arith
value-lt bing = omega arith
value-lt ding = omega arith
value-lt wu = omega arith
value-lt ji = omega arith
value-lt geng = omega arith
value-lt xin = omega arith
value-lt ren = omega arith
value-lt gui = omega arith

pub member_at-value : (x : StemId) → member_at (value x) ≡ x
unfolding member_at
member_at-value jia = refl
member_at-value yi = refl
member_at-value bing = refl
member_at-value ding = refl
member_at-value wu = refl
member_at-value ji = refl
member_at-value geng = refl
member_at-value xin = refl
member_at-value ren = refl
member_at-value gui = refl

pub value_inj : (x y : StemId) → value x ≡ value y → x ≡ y
value_inj x y h = sym (member_at-value x) ∙ ap member_at h ∙ member_at-value y
