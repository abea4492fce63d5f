-- ===== src/Match/TenGods.antt =====
-- bazi_engine/match/ten_gods.py: the Ten God of a stem to a day master, by a ruleset's table, with
-- `stem_element` of normalize.py.
pub mod Agreement
use fufire_api_lunar.Prelude.{
  ℕ, ◌/◌, ◌%◌, String, Bool, true, false, Option, none, some, List, [], ◌∷◌, Result, ok, err, ◌>>=◌,
  value_error, get_elem?, ◌==◌, eq_ℕ, eq_String, if◌then◌else◌,
}
use fufire_api_lunar.Prelude.Dict.{get}
use fufire_api_lunar.Match.Ruleset.{
  Ruleset, item, element_at, ten_god_for_relation, wuxing_order, stem_index, ke_cycle, ke_inverse,
  inverse,
}

unfoldable pub stem_element : String → Result String
stem_element stem = do i ← item (get stem_index stem); element_at (get_elem? wuxing_order (i / 2))

abbrev pub sheng_cycle : List (String × String)
sheng_cycle =
    ("Holz", "Feuer")
    ∷ ("Feuer", "Erde")
    ∷ ("Erde", "Metall")
    ∷ ("Metall", "Wasser")
    ∷ ("Wasser", "Holz")
    ∷ []

abbrev pub sheng_inverse : List (String × String)
sheng_inverse = inverse sheng_cycle

unfoldable pub stem_polarity : String → Result String
stem_polarity stem = do i ← item (get stem_index stem); ok (if i % 2 == 0 then "yang" else "yin")

-- `d.get(element) == target`
abbrev pub leads_to : Option String → String → Bool
leads_to none target = false
leads_to (some element) target = element == target

unfoldable pub element_relation : String → String → Result String
element_relation day_master_element target_element =
    if target_element == day_master_element
    then ok "same"
    else if leads_to (get sheng_inverse day_master_element) target_element
    then ok "resource"
    else if leads_to (get sheng_cycle day_master_element) target_element
    then ok "output"
    else if leads_to (get ke_cycle day_master_element) target_element
    then ok "wealth"
    else if leads_to (get ke_inverse day_master_element) target_element
    then ok "officer"
    else err value_error

unfoldable pub ten_god_for_stems : Ruleset → String → String → Result String
ten_god_for_stems rules day_master_stem target_stem = do
  dm_element ← stem_element day_master_stem
  element ← stem_element target_stem
  relation ← element_relation dm_element element
  dm_polarity ← stem_polarity day_master_stem
  polarity ← stem_polarity target_stem
  ten_god_for_relation rules relation (dm_polarity == polarity)
