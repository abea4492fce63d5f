-- ===== src/Zwds/Transformations/Laws.antt =====
-- What holds of every row of the table.
use mathlib.Core.List.{append-nil, append_assoc}
use fufire_api_lunar.Prelude.{
  ℕ, ◌≤◌, ◌≡◌, refl, true, String, List, [], ◌∷◌, map, Result, ok, err, value_error, ◌==◌, eq_ℕ,
  eq_String, All, ◌>>=◌, Bool-cases, inl, inr, beq_eq, if◌then◌else◌, ◌++◌, sym,
}
use fufire_api_lunar.Prelude.Dict.{all_different, get, put, get-put}
use fufire_api_lunar.Zwds.Domain.Stem
use fufire_api_lunar.Zwds.Domain.Stem.{StemId, jia, yi, bing, ding, wu, ji, geng, xin, ren, gui}
use fufire_api_lunar.Zwds.Transformations.{
  Transformation, transformation_order, or_empty, collect, table_id, four_transformations,
  transformation_types_by_star,
}

-- What a year stem transforms: the four kinds in their order, on four different stars, all of them
-- from the table and the stem.
pub record FourOf (s : StemId) (ts : List Transformation) : Type 0 where
  pub kinds : map (λ (t : Transformation). t.kind) ts ≡ transformation_order
  pub different : all_different (map (λ (t : Transformation). t.star_id) ts) ≡ true
  pub from_stem : All (λ (t : Transformation). t.source_stem_id ≡ Stem.name s) ts
  pub from_table : All (λ (t : Transformation). t.table_id ≡ table_id) ts

abbrev made : StemId → String → String → Transformation
made s hua_type star = record {
  kind = hua_type;
  star_id = star;
  source_stem_id = Stem.name s;
  table_id = table_id;
  scope = "natal";
}

abbrev four : StemId → String → String → String → String → List Transformation
four s a b c d =
    made s "HUA_LU" a ∷ made s "HUA_QUAN" b ∷ made s "HUA_KE" c ∷ made s "HUA_JI" d ∷ []

four-FourOf :
    (s : StemId) (a b c d : String)
    → all_different (a ∷ b ∷ c ∷ d ∷ []) ≡ true
    → FourOf s (four s a b c d)
four-FourOf s a b c d h = record {
  kinds = refl;
  different = h;
  from_stem = (refl, (refl, (refl, (refl, tt))));
  from_table = (refl, (refl, (refl, (refl, tt))));
}

pub four_transformations-FourOf :
    (s : StemId)
    → (ts : List Transformation) × (four_transformations (Stem.value s) ≡ ok ts) × FourOf s ts
unfolding four_transformations Stem.of_value
four_transformations-FourOf jia = (_, refl, four-FourOf jia _ _ _ _ refl)
four_transformations-FourOf yi = (_, refl, four-FourOf yi _ _ _ _ refl)
four_transformations-FourOf bing = (_, refl, four-FourOf bing _ _ _ _ refl)
four_transformations-FourOf ding = (_, refl, four-FourOf ding _ _ _ _ refl)
four_transformations-FourOf wu = (_, refl, four-FourOf wu _ _ _ _ refl)
four_transformations-FourOf ji = (_, refl, four-FourOf ji _ _ _ _ refl)
four_transformations-FourOf geng = (_, refl, four-FourOf geng _ _ _ _ refl)
four_transformations-FourOf xin = (_, refl, four-FourOf xin _ _ _ _ refl)
four_transformations-FourOf ren = (_, refl, four-FourOf ren _ _ _ _ refl)
four_transformations-FourOf gui = (_, refl, four-FourOf gui _ _ _ _ refl)

pub four_transformations-err : (i : ℕ) → 10 ≤ i → four_transformations i ≡ err value_error
unfolding four_transformations
four_transformations-err i h = rw (Stem.of_value-err i h)

-- The kinds that a star receives under a stem.
abbrev pub received : String → List Transformation → List String
received star [] = []
received star (t ∷ ts) = if t.star_id == star then t.kind ∷ received star ts else received star ts

abbrev pub types_of : Result (List (String × List String)) → String → List String
types_of (ok d) star = or_empty (get d star)
types_of (err e) star = []

abbrev pub sources : Result (List Transformation) → List Transformation
sources (ok ts) = ts
sources (err e) = []

collect-received :
    (d : List (String × List String)) (ts : List Transformation) (star : String)
    → or_empty (get (collect d ts) star) ≡ or_empty (get d star) ++ received star ts
collect-received d [] star = sym (append-nil _)
collect-received d (t ∷ ts) star =
    rw
      (
        collect-received (put d t.star_id (or_empty (get d t.star_id) ++ t.kind ∷ [])) ts star,
        get-put d t.star_id star (or_empty (get d t.star_id) ++ t.kind ∷ []),
      )
      (elim (Bool-cases (t.star_id == star)) [
        | inl same ↦ rw (
          same,
          append_assoc (or_empty (get d t.star_id)) (t.kind ∷ []) (received star ts),
          beq_eq t.star_id star same,
        )
        | inr other ↦ rw other
      ])

-- For every index and star the map lists the kinds that the four transformations give the star, in
-- their order; a star that none of them names has none.
pub transformation_types_by_star_lem :
    (i : ℕ) (star : String)
    → types_of (transformation_types_by_star i) star
      ≡ received star (sources (four_transformations i))
unfolding transformation_types_by_star
transformation_types_by_star_lem i star = by_result (four_transformations i)
  where
    by_result :
        (r : Result (List Transformation))
        → types_of (r >>= λ ts. ok (collect [] ts)) star ≡ received star (sources r)
    by_result (ok ts) = collect-received [] ts star
    by_result (err e) = refl
