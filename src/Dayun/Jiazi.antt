-- ===== src/Dayun/Jiazi.antt =====
-- bazi_engine/dayun/jiazi.py: the cycle of sixty pillars. An index is a Python integer; the Chinese
-- names are left out.
pub mod Laws
use fufire_api_lunar.Prelude.{
  ℕ, ◌+◌, ◌%◌, ◌/◌, ◌<◌, ◌≡◌, refl, String, List, [], ◌∷◌, Option, none, some, Result, ok, err,
  ◌>>=◌, index_error, key_error, get_elem?, arith, if◌then◌else◌, ◌==◌, eq_ℕ, eq_String,
}
use fufire_api_lunar.Prelude.Int.{ℤ, pos, negsuc, ◌+ℤ◌, ◌-ℤ◌, floor_mod}
use fufire_api_lunar.Prelude.Dict.{get}
use fufire_api_lunar.Dayun.Relation.{stems}

abbrev branches : List String
branches =
    "Zi" ∷ "Chou" ∷ "Yin" ∷ "Mao" ∷ "Chen" ∷ "Si" ∷ "Wu" ∷ "Wei" ∷ "Shen" ∷ "You" ∷ "Xu" ∷ "Hai"
    ∷ []

abbrev stem_element : List (String × String)
stem_element =
    ("Jia", "wood")
    ∷ ("Yi", "wood")
    ∷ ("Bing", "fire")
    ∷ ("Ding", "fire")
    ∷ ("Wu", "earth")
    ∷ ("Ji", "earth")
    ∷ ("Geng", "metal")
    ∷ ("Xin", "metal")
    ∷ ("Ren", "water")
    ∷ ("Gui", "water")
    ∷ []

abbrev stem_polarity : List (String × String)
stem_polarity =
    ("Jia", "yang")
    ∷ ("Yi", "yin")
    ∷ ("Bing", "yang")
    ∷ ("Ding", "yin")
    ∷ ("Wu", "yang")
    ∷ ("Ji", "yin")
    ∷ ("Geng", "yang")
    ∷ ("Xin", "yin")
    ∷ ("Ren", "yang")
    ∷ ("Gui", "yin")
    ∷ []

pub record Jiazi : Type 0 where
  pub stem : String
  pub branch : String
  pub element : String
  pub polarity : String
  pub index60 : ℕ

-- xs[i]
abbrev at : Option String → Result String
at none = err index_error
at (some s) = ok s

-- d[k]
abbrev item : Option String → Result String
item none = err key_error
item (some s) = ok s

-- The body of `jiazi_at`, for the index in the cycle.
unfoldable pub pillar_at : ℕ → Result Jiazi
pillar_at i = do
  stem ← at (get_elem? stems (i % 10))
  branch ← at (get_elem? branches (i % 12))
  element ← item (get stem_element stem)
  polarity ← item (get stem_polarity stem)
  ok (record { stem = stem; branch = branch; element = element; polarity = polarity; index60 = i })

unfoldable pub jiazi_at : ℤ → Result Jiazi
jiazi_at index = pillar_at (floor_mod index 60)

unfoldable pub jiazi_next : ℤ → Result Jiazi
jiazi_next index = jiazi_at (pos (floor_mod (index +ℤ pos 1) 60))

unfoldable pub jiazi_prev : ℤ → Result Jiazi
jiazi_prev index = jiazi_at (pos (floor_mod (index -ℤ pos 1) 60))
