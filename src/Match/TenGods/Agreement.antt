-- ===== src/Match/TenGods/Agreement.antt =====
-- The package names the Ten Gods twice, here and in bazi_engine/dayun/relation.py; and it classifies the
-- elements of two day masters twice, here and in pair.py. Each time the two agree.
use fufire_api_lunar.Prelude.{
  ℕ, ◌<◌, ◌≡◌, refl, ap, ◌∙◌, inl, inr, Option-cases, arith, String, Bool, true, false, none, some,
  List, [], ◌∷◌, Result, ok, err, ◌>>=◌, all_below, all_below₂_sound, get_or, ◌==◌, eq_String,
  beq_eq,
}
use fufire_api_lunar.Prelude.Dict.{get}
use fufire_api_lunar.Dayun.Relation.{
  Relation, compute_relation_to_day_master, classify_element_relation,
}
use fufire_api_lunar.Match.Ruleset.{stems, standard_bazi_2026, ten_god_for_relation}
use fufire_api_lunar.Match.TenGods.{
  stem_element, stem_polarity, element_relation, ten_god_for_stems,
}
use fufire_api_lunar.Match.Pair.{generated_element, classify_day_master_relation}

-- The Chinese name of each god of the ruleset.
abbrev pub chinese : List (String × String)
chinese =
    ("Friend", "Bi Jian")
    ∷ ("RobWealth", "Jie Cai")
    ∷ ("EatingGod", "Shi Shen")
    ∷ ("HurtingOfficer", "Shang Guan")
    ∷ ("IndirectWealth", "Pian Cai")
    ∷ ("DirectWealth", "Zheng Cai")
    ∷ ("SevenKilling", "Qi Sha")
    ∷ ("DirectOfficer", "Zheng Guan")
    ∷ ("IndirectRes", "Pian Yin")
    ∷ ("DirectRes", "Zheng Yin")
    ∷ []

abbrev pub stem_at : ℕ → String
stem_at i = get_or stems i ""

-- Both results are gods, and the second is the Chinese name of the first.
abbrev agree : Result String → Result Relation → Bool
agree (ok god) (ok relation) = elim (get chinese god) [
  | none ↦ false
  | some name ↦ name == relation.ten_god
]
agree _ _ = false

abbrev gods_agree : ℕ → ℕ → Bool
gods_agree d t =
    agree (ten_god_for_stems standard_bazi_2026 (stem_at d) (stem_at t))
      (compute_relation_to_day_master t d)

agree_table : all_below 10 (λ d. all_below 10 (gods_agree d)) ≡ true
unfolding ten_god_for_stems stem_element stem_polarity element_relation ten_god_for_relation
    compute_relation_to_day_master classify_element_relation all_below
agree_table = refl

-- What two stems are to each other, by the classification of pair.py, in the words of ten_gods.py.
abbrev pub as_pair : List (String × String)
as_pair =
    ("same", "same_element")
    ∷ ("output", "a_generates_b")
    ∷ ("wealth", "a_controls_b")
    ∷ ("resource", "b_generates_a")
    ∷ ("officer", "b_controls_a")
    ∷ []

abbrev pub on_elements : (String → String → Result String) → String → String → Result String
on_elements classify stem_a stem_b = do
  element_a ← stem_element stem_a
  element_b ← stem_element stem_b
  classify element_a element_b

abbrev named : Result String → Result String → Bool
named (ok relation) (ok other) = elim (get as_pair relation) [
  | none ↦ false
  | some name ↦ name == other
]
named _ _ = false

abbrev relations_agree : ℕ → ℕ → Bool
relations_agree a b =
    named (on_elements element_relation (stem_at a) (stem_at b))
      (on_elements classify_day_master_relation (stem_at a) (stem_at b))

named_table : all_below 10 (λ a. all_below 10 (relations_agree a)) ≡ true
unfolding stem_element element_relation classify_day_master_relation generated_element all_below
named_table = refl

-- How the two namings go together for a day master and another stem.
pub record Agreement (d t : ℕ) : Type 0 where
  pub god : String
  pub relation : Relation
  pub by_match : ten_god_for_stems standard_bazi_2026 (stem_at d) (stem_at t) ≡ ok god
  pub by_dayun : compute_relation_to_day_master t d ≡ ok relation
  pub same_god : get chinese god ≡ some relation.ten_god
  pub element : String
  pub pair : String
  pub by_elements : on_elements element_relation (stem_at d) (stem_at t) ≡ ok element
  pub by_pair : on_elements classify_day_master_relation (stem_at d) (stem_at t) ≡ ok pair
  pub same_relation : get as_pair element ≡ some pair

agree_sound :
    (r : Result String) (s : Result Relation)
    → agree r s ≡ true
    → (god : String) × (relation : Relation) × (r ≡ ok god)
      × (s ≡ ok relation)
      × (get chinese god ≡ some relation.ten_god)
agree_sound (err e) s h = absurd (cc h)
agree_sound (ok god) (err e) h = absurd (cc h)
agree_sound (ok god) (ok relation) h = elim (Option-cases (get chinese god)) [
  | inl n ↦ absurd (ground arith)
  | inr (name, n) ↦
      (god, relation, refl, refl, n ∙ ap some (beq_eq name relation.ten_god (ground arith)))
]

named_sound :
    (r s : Result String)
    → named r s ≡ true
    → (relation : String) × (other : String) × (r ≡ ok relation)
      × (s ≡ ok other)
      × (get as_pair relation ≡ some other)
named_sound (err e) s h = absurd (cc h)
named_sound (ok relation) (err e) h = absurd (cc h)
named_sound (ok relation) (ok other) h = elim (Option-cases (get as_pair relation)) [
  | inl n ↦ absurd (ground arith)
  | inr (name, n) ↦ (relation, other, refl, refl, n ∙ ap some (beq_eq name other (ground arith)))
]

-- For every day master and every other stem of the ten, match/ten_gods.py with the shipped ruleset and
-- dayun/relation.py name the same god, and the relation of the two elements by ten_gods.py is the one
-- that match/pair.py finds; none of the four raises.
pub ten_god_for_stems-Agreement : (d t : ℕ) → d < 10 → t < 10 → Agreement d t
ten_god_for_stems-Agreement d t h k =
    let (god, relation, m, y, same) =
      agree_sound (ten_god_for_stems standard_bazi_2026 (stem_at d) (stem_at t))
        (compute_relation_to_day_master t d)
        (all_below₂_sound 10 10 gods_agree d t agree_table h k) in
    let (element, pair, e, p, names) =
      named_sound (on_elements element_relation (stem_at d) (stem_at t))
        (on_elements classify_day_master_relation (stem_at d) (stem_at t))
        (all_below₂_sound 10 10 relations_agree d t named_table h k) in
    record {
      god = god;
      relation = relation;
      by_match = m;
      by_dayun = y;
      same_god = same;
      element = element;
      pair = pair;
      by_elements = e;
      by_pair = p;
      same_relation = names;
    }
