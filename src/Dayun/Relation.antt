-- ===== src/Dayun/Relation.antt =====
-- bazi_engine/dayun/relation.py: the Ten-God classification of a decade stem against the day master.
-- Stem indices are Python integers that the caller takes from 0 to 9.
pub mod Laws
use fufire_api_lunar.Prelude.{
  ℕ, zero, suc, ◌+◌, ◌/◌, ◌%◌, ◌<◌, ◌≡◌, refl, String, Bool, true, false, ◌&&◌, not, List, [], ◌∷◌,
  map, Option, none, some, Result, ok, err, ◌>>=◌, key_error, index_error, assertion_error,
  get_elem?, ap, all_below, all_below_sound, all_below₂_sound, arith, ◌==◌, eq_ℕ, eq_String,
  eq_pair, beq_eq, if◌then◌else◌,
}
use fufire_api_lunar.Prelude.Dict.{get, all_different, contains}

abbrev pub stems : List String
stems = "Jia" ∷ "Yi" ∷ "Bing" ∷ "Ding" ∷ "Wu" ∷ "Ji" ∷ "Geng" ∷ "Xin" ∷ "Ren" ∷ "Gui" ∷ []

abbrev pub element_index : ℕ → ℕ
element_index stem_index = stem_index / 2

abbrev pub polarity : ℕ → String
polarity stem_index = if stem_index % 2 == 0 then "yang" else "yin"

abbrev pub produces : ℕ → ℕ
produces e_idx = (e_idx + 1) % 5

abbrev pub controls : ℕ → ℕ
controls e_idx = (e_idx + 2) % 5

abbrev ten_gods : List ((String × String) × (String × String))
ten_gods =
    (("same_element", "same"), ("Bi Jian", "Gefährte"))
    ∷ (("same_element", "opposite"), ("Jie Cai", "Rivale"))
    ∷ (("produced_by_day_master", "same"), ("Shi Shen", "Schöpferische Ausgabe"))
    ∷ (("produced_by_day_master", "opposite"), ("Shang Guan", "Disruptive Ausgabe"))
    ∷ (("controlled_by_day_master", "same"), ("Pian Cai", "Indirektes Vermögen"))
    ∷ (("controlled_by_day_master", "opposite"), ("Zheng Cai", "Direktes Vermögen"))
    ∷ (("controls_day_master", "same"), ("Qi Sha", "Druck / Struktur"))
    ∷ (("controls_day_master", "opposite"), ("Zheng Guan", "Verantwortung"))
    ∷ (("produces_day_master", "same"), ("Pian Yin", "Indirekte Quelle"))
    ∷ (("produces_day_master", "opposite"), ("Zheng Yin", "Direkte Quelle"))
    ∷ []

unfoldable pub classify_element_relation : ℕ → ℕ → Result String
classify_element_relation dm_e dec_e =
    if dm_e == dec_e
    then ok "same_element"
    else if produces dm_e == dec_e
    then ok "produced_by_day_master"
    else if controls dm_e == dec_e
    then ok "controlled_by_day_master"
    else if produces dec_e == dm_e
    then ok "produces_day_master"
    else if controls dec_e == dm_e
    then ok "controls_day_master"
    else err assertion_error

pub record Relation : Type 0 where
  pub day_master : String
  pub ten_god : String
  pub element_relation : String
  pub label_de : String

-- `TEN_GODS[(element_relation, polarity_match)]` and `STEMS[day_master_stem_index]`
abbrev pub god_at : Option (String × String) → Result (String × String)
god_at none = err key_error
god_at (some g) = ok g

abbrev pub stem_at : Option String → Result String
stem_at none = err index_error
stem_at (some s) = ok s

unfoldable pub compute_relation_to_day_master : ℕ → ℕ → Result Relation
unfolding classify_element_relation
compute_relation_to_day_master decade_stem_index day_master_stem_index = do
  let dm_element = element_index day_master_stem_index
  let dec_element = element_index decade_stem_index
  element_relation ← classify_element_relation dm_element dec_element
  let same = polarity day_master_stem_index == polarity decade_stem_index
  let polarity_match = if same then "same" else "opposite"
  (ten_god, label_de) ← god_at (get ten_gods (element_relation, polarity_match))
  day_master ← stem_at (get_elem? stems day_master_stem_index)
  ok (record {
    day_master = day_master;
    ten_god = ten_god;
    element_relation = element_relation;
    label_de = label_de;
  })

-- The god of a result, and a text that is no god where the code raises.
abbrev pub god_of : Result Relation → String
god_of (ok r) = r.ten_god
god_of (err e) = "raised"

abbrev pub relation_of : Result Relation → String
relation_of (ok r) = r.element_relation
relation_of (err e) = "raised"

abbrev first_ten : List ℕ
first_ten = 0 ∷ 1 ∷ 2 ∷ 3 ∷ 4 ∷ 5 ∷ 6 ∷ 7 ∷ 8 ∷ 9 ∷ []

abbrev pub gods_for : ℕ → List String
unfolding compute_relation_to_day_master
gods_for dm = map (λ s. god_of (compute_relation_to_day_master s dm)) first_ten

-- What the day master is to the decade stem, for what that is to the day master.
abbrev pub converse : String → String
converse relation =
    if relation == "produced_by_day_master"
    then "produces_day_master"
    else if relation == "produces_day_master"
    then "produced_by_day_master"
    else if relation == "controlled_by_day_master"
    then "controls_day_master"
    else if relation == "controls_day_master"
    then "controlled_by_day_master"
    else relation
