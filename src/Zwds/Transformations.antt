-- ===== src/Zwds/Transformations.antt =====
-- bazi_engine/zwds/transformations.py, with the table that it loads from
-- bazi_engine/data/zwds/rulesets/zwds.fufire.core-seed.v1/transformations.json. Reading the file and
-- its hash are left out.
pub mod Laws
use fufire_api_lunar.Prelude.{
  ℕ, String, List, [], ◌∷◌, ◌++◌, Option, none, some, Result, ok, err, ◌>>=◌, key_error, map_result,
  ◌==◌, eq_String,
}
use fufire_api_lunar.Prelude.Dict.{get, put}
use fufire_api_lunar.Zwds.Domain.Stem

abbrev pub table_id : String
table_id = "guide-four-transformations.v1"

abbrev pub transformation_order : List String
transformation_order = "HUA_LU" ∷ "HUA_QUAN" ∷ "HUA_KE" ∷ "HUA_JI" ∷ []

abbrev transformation_scope : String
transformation_scope = "natal"

abbrev row : String → String → String → String → List (String × String)
row lu quan ke ji = ("HUA_LU", lu) ∷ ("HUA_QUAN", quan) ∷ ("HUA_KE", ke) ∷ ("HUA_JI", ji) ∷ []

-- `_ROWS`
abbrev rows : List (String × List (String × String))
rows =
    ("JIA", row "LIAN_ZHEN" "PO_JUN" "WU_QU" "TAI_YANG")
    ∷ ("YI", row "TIAN_JI" "TIAN_LIANG" "ZI_WEI" "TAI_YIN")
    ∷ ("BING", row "TIAN_TONG" "TIAN_JI" "WEN_CHANG" "LIAN_ZHEN")
    ∷ ("DING", row "TAI_YIN" "TIAN_TONG" "TIAN_JI" "JU_MEN")
    ∷ ("WU", row "TAN_LANG" "TAI_YIN" "YOU_BI" "TIAN_JI")
    ∷ ("JI", row "WU_QU" "TAN_LANG" "TIAN_LIANG" "WEN_QU")
    ∷ ("GENG", row "TAI_YANG" "WU_QU" "TAI_YIN" "TIAN_TONG")
    ∷ ("XIN", row "JU_MEN" "TAI_YANG" "WEN_QU" "WEN_CHANG")
    ∷ ("REN", row "TIAN_LIANG" "ZI_WEI" "ZUO_FU" "WU_QU")
    ∷ ("GUI", row "PO_JUN" "JU_MEN" "TAI_YIN" "TAN_LANG")
    ∷ []

pub record Transformation : Type 0 where
  pub kind : String  -- `type`
  pub star_id : String
  pub source_stem_id : String
  pub table_id : String
  pub scope : String

-- d[k]
abbrev item {ℓ} : {V : Type ℓ} → Option V → Result V
item none = err key_error
item (some v) = ok v

unfoldable pub four_transformations : ℕ → Result (List Transformation)
four_transformations year_stem_index = do
  stem ← Stem.of_value year_stem_index
  let stem_name = Stem.name stem
  cells ← item (get rows stem_name)
  map_result
      (λ hua_type. item (get cells hua_type) >>= λ star. ok (record {
        kind = hua_type;
        star_id = star;
        source_stem_id = stem_name;
        table_id = table_id;
        scope = transformation_scope;
      }))
      transformation_order

abbrev pub or_empty : Option (List String) → List String
or_empty none = []
or_empty (some l) = l

-- The loop of `transformation_types_by_star`: `by_star.setdefault(t.star_id, []).append(t.type)`
abbrev pub collect : List (String × List String) → List Transformation → List (String × List String)
collect by_star [] = by_star
collect by_star (t ∷ ts) =
    collect (put by_star t.star_id (or_empty (get by_star t.star_id) ++ t.kind ∷ [])) ts

unfoldable pub transformation_types_by_star : ℕ → Result (List (String × List String))
unfolding four_transformations
transformation_types_by_star year_stem_index =
    four_transformations year_stem_index >>= λ ts. ok (collect [] ts)
