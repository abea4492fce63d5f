-- ===== src/Match/Ruleset.antt =====
-- What the analysis reads of a ruleset (bazi_engine/bafe/ruleset_loader.py), the shipped ruleset, and the
-- Wu-Xing tables of bazi_engine/wuxing/constants.py, ke_cycle.py and analysis.py.
use fufire_api_lunar.Prelude.{
  ℕ, suc, String, Bool, Option, none, some, List, [], ◌∷◌, Result, ok, err, ◌>>=◌, key_error,
  index_error, eq_String, if◌then◌else◌,
}
use Prim.Native.String.{◌++◌ as str_append}
use fufire_api_lunar.Prelude.Dict.{get}

pub record Ruleset : Type 0 where
  pub branch_to_hidden : List (String × List String)
  pub relation_to_god : List (String × (String × String))
  pub primary_gods : List (String × List String)
  pub disruption_gods : List (String × String)
  pub anchor_verification : String

-- d[k]
abbrev pub item : {A : Type 0} → Option A → Result A
item none = err key_error
item (some a) = ok a

-- xs[i]
abbrev pub element_at : {A : Type 0} → Option A → Result A
element_at none = err index_error
element_at (some a) = ok a

unfoldable pub hidden_stems_for_branch : Ruleset → String → Result (List String)
hidden_stems_for_branch rules branch = item (get rules.branch_to_hidden branch)

abbrev pub by_polarity : Bool → String × String → String
by_polarity same_polarity (same, diff) = if same_polarity then same else diff

unfoldable pub ten_god_for_relation : Ruleset → String → Bool → Result String
ten_god_for_relation rules relation same_polarity = do
  gods ← item (get rules.relation_to_god (str_append relation "_element"))
  ok (by_polarity same_polarity gods)

abbrev pub stems : List String
stems = "Jia" ∷ "Yi" ∷ "Bing" ∷ "Ding" ∷ "Wu" ∷ "Ji" ∷ "Geng" ∷ "Xin" ∷ "Ren" ∷ "Gui" ∷ []

abbrev pub branches : List String
branches =
    "Zi" ∷ "Chou" ∷ "Yin" ∷ "Mao" ∷ "Chen" ∷ "Si" ∷ "Wu" ∷ "Wei" ∷ "Shen" ∷ "You" ∷ "Xu" ∷ "Hai"
    ∷ []

abbrev pub wuxing_order : List String
wuxing_order = "Holz" ∷ "Feuer" ∷ "Erde" ∷ "Metall" ∷ "Wasser" ∷ []

-- { name: i for i, name in enumerate(...) }
abbrev pub enumerated : ℕ → List String → List (String × ℕ)
enumerated i [] = []
enumerated i (name ∷ names) = (name, i) ∷ enumerated (suc i) names

abbrev pub stem_index : List (String × ℕ)
stem_index = enumerated 0 stems

abbrev pub wuxing_index : List (String × ℕ)
wuxing_index = enumerated 0 wuxing_order

abbrev pub ke_cycle : List (String × String)
ke_cycle =
    ("Holz", "Erde")
    ∷ ("Erde", "Wasser")
    ∷ ("Wasser", "Feuer")
    ∷ ("Feuer", "Metall")
    ∷ ("Metall", "Holz")
    ∷ []

-- { v: k for k, v in d.items() }, for values that are all different
abbrev pub inverse : List (String × String) → List (String × String)
inverse [] = []
inverse ((k, v) ∷ d) = (v, k) ∷ inverse d

abbrev pub ke_inverse : List (String × String)
ke_inverse = inverse ke_cycle

-- The constants and the sum of the floating-point weights.
pub record Floats (F : Type 0) : Type 0 where
  pub zero_weight : F
  pub one : F
  pub half : F
  pub three_tenths : F
  pub add : F → F → F

-- The hidden elements of a branch with their weights.
module _ {F : Type 0} (floats : Floats F) where
  abbrev main : String → String × F
  main element = (element, floats.one)

  abbrev middle : String → String × F
  middle element = (element, floats.half)

  abbrev residual : String → String × F
  residual element = (element, floats.three_tenths)

  abbrev pub legacy_branch_hidden : List (String × List (String × F))
  legacy_branch_hidden =
      ("Zi", main "Wasser" ∷ [])
      ∷ ("Chou", main "Erde" ∷ middle "Wasser" ∷ residual "Metall" ∷ [])
      ∷ ("Yin", main "Holz" ∷ middle "Feuer" ∷ residual "Erde" ∷ [])
      ∷ ("Mao", main "Holz" ∷ [])
      ∷ ("Chen", main "Erde" ∷ middle "Holz" ∷ residual "Wasser" ∷ [])
      ∷ ("Si", main "Feuer" ∷ middle "Metall" ∷ residual "Erde" ∷ [])
      ∷ ("Wu", main "Feuer" ∷ middle "Erde" ∷ [])
      ∷ ("Wei", main "Erde" ∷ middle "Feuer" ∷ residual "Holz" ∷ [])
      ∷ ("Shen", main "Metall" ∷ middle "Wasser" ∷ residual "Erde" ∷ [])
      ∷ ("You", main "Metall" ∷ [])
      ∷ ("Xu", main "Erde" ∷ middle "Metall" ∷ residual "Feuer" ∷ [])
      ∷ ("Hai", main "Wasser" ∷ middle "Holz" ∷ [])
      ∷ []

-- resources/rulesets/standard_bazi_2026.json, the parts above.
abbrev pub standard_bazi_2026 : Ruleset
standard_bazi_2026 = record {
  branch_to_hidden =
      ("Chen", "Wu" ∷ "Yi" ∷ "Gui" ∷ [])
      ∷ ("Chou", "Ji" ∷ "Gui" ∷ "Xin" ∷ [])
      ∷ ("Hai", "Ren" ∷ "Jia" ∷ [])
      ∷ ("Mao", "Yi" ∷ [])
      ∷ ("Shen", "Geng" ∷ "Ren" ∷ "Wu" ∷ [])
      ∷ ("Si", "Bing" ∷ "Geng" ∷ "Wu" ∷ [])
      ∷ ("Wei", "Ji" ∷ "Yi" ∷ "Ding" ∷ [])
      ∷ ("Wu", "Ding" ∷ "Ji" ∷ [])
      ∷ ("Xu", "Wu" ∷ "Xin" ∷ "Ding" ∷ [])
      ∷ ("Yin", "Jia" ∷ "Bing" ∷ "Wu" ∷ [])
      ∷ ("You", "Xin" ∷ [])
      ∷ ("Zi", "Gui" ∷ [])
      ∷ [];
  relation_to_god =
      ("same_element", ("Friend", "RobWealth"))
      ∷ ("resource_element", ("IndirectRes", "DirectRes"))
      ∷ ("output_element", ("EatingGod", "HurtingOfficer"))
      ∷ ("wealth_element", ("IndirectWealth", "DirectWealth"))
      ∷ ("officer_element", ("SevenKilling", "DirectOfficer"))
      ∷ [];
  primary_gods = ("male", "DirectWealth" ∷ []) ∷ ("female", "DirectOfficer" ∷ []) ∷ [];
  disruption_gods = ("male", "IndirectWealth") ∷ ("female", "SevenKilling") ∷ [];
  anchor_verification = "unverified";
}
