-- ===== src/Match/Pair.antt =====
-- bazi_engine/match/pair.py: the three layers of a pair.
use Prim.Native.String.{◌++◌ as str_append}
use fufire_api_lunar.Prelude.{
  ◌+◌, ◌%◌, String, List, [], ◌∷◌, Result, ok, err, ◌>>=◌, assertion_error, length, get_elem?, ◌==◌,
  eq_ℕ, eq_String, if◌then◌else◌,
}
use fufire_api_lunar.Prelude.Dict.{get}
use fufire_api_lunar.Match.Values.{
  calculated, needs_domain_review, FactValue, label, truth, labels, weights, Fact, PairLayer,
  SourceStatus,
}
use fufire_api_lunar.Match.Ruleset.{item, element_at, wuxing_order, wuxing_index, ke_cycle}
use fufire_api_lunar.Match.Individual.{IndividualAnalysis}

abbrev pub pair_layer_evidence_id : String → String
pair_layer_evidence_id layer_name = str_append "ev:pair:" layer_name

unfoldable pub generated_element : String → Result String
generated_element element = do
  i ← item (get wuxing_index element)
  element_at (get_elem? wuxing_order ((i + 1) % length wuxing_order))

-- An arm of the classification: the element that `next` gives is compared before the arms that follow.
abbrev pub arm : Result String → String → String → Result String → Result String
arm next other relation rest = next >>= λ element. if element == other then ok relation else rest

unfoldable pub classify_day_master_relation : String → String → Result String
classify_day_master_relation element_a element_b =
    if element_a == element_b
    then ok "same_element"
    else arm (generated_element element_a) element_b "a_generates_b" (
        arm (item (get ke_cycle element_a)) element_b "a_controls_b" (
          arm (generated_element element_b) element_a "b_generates_a"
            (arm (item (get ke_cycle element_b)) element_a "b_controls_a" (err assertion_error))))

pub record PairAnalysis (F : Type 0) : Type 0 where
  pub day_master_comparison : PairLayer F
  pub spouse_palace_day_branch : PairLayer F
  pub wuxing_vector_comparison : PairLayer F

module _ {F : Type 0} where
  -- `PairAnalysis.layers`
  abbrev pub layers : PairAnalysis F → List (String × PairLayer F)
  layers pair =
      ("day_master_comparison", pair.day_master_comparison)
      ∷ ("spouse_palace_day_branch", pair.spouse_palace_day_branch)
      ∷ ("wuxing_vector_comparison", pair.wuxing_vector_comparison)
      ∷ []

  abbrev fact : String → FactValue F → Fact F
  fact key value = record { key = key; value = value; source_status = calculated }

  -- A layer with the evidence id of its name.
  abbrev pub layer : String → List (Fact F) → SourceStatus → PairLayer F
  layer name facts status = record {
    name = name;
    facts = facts;
    source_status = status;
    evidence_ids = pair_layer_evidence_id name ∷ [];
  }

  abbrev pub day_master_facts : IndividualAnalysis F → IndividualAnalysis F → String → List (Fact F)
  day_master_facts a b relation =
      fact "person_a_day_master" (label a.day_master)
      ∷ fact "person_b_day_master" (label b.day_master)
      ∷ fact "person_a_element" (label a.day_master_element)
      ∷ fact "person_b_element" (label b.day_master_element)
      ∷ fact "same_stem" (truth (a.day_master == b.day_master))
      ∷ fact "same_element" (truth (a.day_master_element == b.day_master_element))
      ∷ fact "day_master_wuxing_relation" (label relation)
      ∷ []

  unfoldable pub day_master_comparison :
      IndividualAnalysis F → IndividualAnalysis F → Result (PairLayer F)
  day_master_comparison a b = do
    relation ← classify_day_master_relation a.day_master_element b.day_master_element
    ok (layer "day_master_comparison" (day_master_facts a b relation) calculated)

  abbrev pub spouse_palace_facts : IndividualAnalysis F → IndividualAnalysis F → List (Fact F)
  spouse_palace_facts a b =
      record {
        key = "palace_pillar";
        value = label a.spouse_palace.palace_pillar;
        source_status = needs_domain_review;
      }
      ∷ fact "person_a_day_branch" (label a.spouse_palace.day_branch)
      ∷ fact "person_b_day_branch" (label b.spouse_palace.day_branch)
      ∷ fact "person_a_hidden_stems" (labels a.spouse_palace.hidden_stems)
      ∷ fact "person_b_hidden_stems" (labels b.spouse_palace.hidden_stems)
      ∷ fact "same_day_branch" (truth (a.spouse_palace.day_branch == b.spouse_palace.day_branch))
      ∷ []

  unfoldable pub spouse_palace_day_branch :
      IndividualAnalysis F → IndividualAnalysis F → PairLayer F
  spouse_palace_day_branch a b =
      layer "spouse_palace_day_branch" (spouse_palace_facts a b) needs_domain_review

  abbrev pub wuxing_vector_facts : IndividualAnalysis F → IndividualAnalysis F → List (Fact F)
  wuxing_vector_facts a b =
      fact "element_order" (labels wuxing_order)
      ∷ fact "person_a_vector" (weights a.wuxing_vector)
      ∷ fact "person_b_vector" (weights b.wuxing_vector)
      ∷ []

  unfoldable pub wuxing_vector_comparison :
      IndividualAnalysis F → IndividualAnalysis F → PairLayer F
  wuxing_vector_comparison a b =
      layer "wuxing_vector_comparison" (wuxing_vector_facts a b) calculated

  -- The assertion on the names of the layers holds by the record's fields.
  unfoldable pub analyze_pair :
      IndividualAnalysis F → IndividualAnalysis F → Result (PairAnalysis F)
  analyze_pair a b = do
    first ← day_master_comparison a b
    ok (record {
      day_master_comparison = first;
      spouse_palace_day_branch = spouse_palace_day_branch a b;
      wuxing_vector_comparison = wuxing_vector_comparison a b;
    })
