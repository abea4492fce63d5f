-- ===== src/Match/Statements.antt =====
-- bazi_engine/match/textblocks.py: the statements of a layer, made from its facts.
use Prim.Native.String.{◌++◌ as str_append}
use fufire_api_lunar.Prelude.{
  ℕ, ◌/◌, ◌%◌, String, List, [], ◌∷◌, Result, ok, err, ◌>>=◌, calculation_error, value_error,
  get_or, ◌==◌, eq_String, if◌then◌else◌,
}
use fufire_api_lunar.Match.Values.{
  SourceStatus, calculated, needs_domain_review, StatementType, calculated_fact, rule_application,
  source_status_statement, status_value, FactValue, label, truth, labels, weights, Fact, PairLayer,
}
use fufire_api_lunar.Match.Guard.{Python}

-- f"..."
abbrev pub concat : List String → String
concat [] = ""
concat (s ∷ r) = str_append s (concat r)

abbrev pub joined : List String → String
joined [] = ""
joined (s ∷ []) = s
joined (s ∷ t ∷ r) = concat (s ∷ ", " ∷ joined (t ∷ r) ∷ [])

abbrev pub digits : List String
digits = "0" ∷ "1" ∷ "2" ∷ "3" ∷ "4" ∷ "5" ∷ "6" ∷ "7" ∷ "8" ∷ "9" ∷ []

-- f"{n:02d}", for a number below 100
abbrev pub two_digits : ℕ → String
two_digits n = str_append (get_or digits (n / 10) "") (get_or digits (n % 10) "")

pub record Statement : Type 0 where
  pub statement_type : StatementType
  pub subject : String
  pub text : String
  pub source_status : SourceStatus

module _ {F : Type 0} (python : Python F) where
  abbrev pub value_of : List (Fact F) → String → Result (FactValue F)
  value_of [] key = err calculation_error
  value_of (fact ∷ facts) key =
      let rest = value_of facts key in if fact.key == key then ok fact.value else rest

  abbrev pub fact_value : PairLayer F → String → Result (FactValue F)
  fact_value layer key = value_of layer.facts key

  abbrev pub yes_no : FactValue F → Result String
  yes_no (truth value) = ok (if value then "yes" else "no")
  yes_no _ = err calculation_error

  abbrev pub shown : List F → List String
  shown [] = []
  shown (x ∷ xs) = python.show x ∷ shown xs

  abbrev pub join_labels : FactValue F → Result String
  join_labels (labels items) = ok (joined items)
  join_labels (weights items) = ok (joined (shown items))
  join_labels _ = err calculation_error

  abbrev pub decimals : List F → List String
  decimals [] = []
  decimals (x ∷ xs) = python.two_decimals x ∷ decimals xs

  -- A label is no numeral.
  abbrev pub join_weights : FactValue F → Result String
  join_weights (weights items) = ok (joined (decimals items))
  join_weights (labels []) = ok ""
  join_weights (labels (s ∷ r)) = err value_error
  join_weights _ = err calculation_error

  -- f"{value}"
  abbrev pub interpolated : FactValue F → String
  interpolated (label s) = s
  interpolated value = python.repr value

  abbrev pub text_of : PairLayer F → String → Result String
  text_of layer key = fact_value layer key >>= λ value. ok (interpolated value)

  unfoldable pub day_master_statements : PairLayer F → Result (List Statement)
  day_master_statements layer = do
    day_master_a ← text_of layer "person_a_day_master"
    element_a ← text_of layer "person_a_element"
    day_master_b ← text_of layer "person_b_day_master"
    element_b ← text_of layer "person_b_element"
    same_stem ← fact_value layer "same_stem" >>= yes_no
    same_element ← fact_value layer "same_element" >>= yes_no
    relation ← text_of layer "day_master_wuxing_relation"
    ok (
        record {
          statement_type = calculated_fact;
          subject = "pair";
          text = concat (
              "Day master of person_a is " ∷ day_master_a ∷ " (" ∷ element_a
              ∷ "); day master of person_b is " ∷ day_master_b ∷ " (" ∷ element_b ∷ "). Same stem: "
              ∷ same_stem ∷ ". Same element: " ∷ same_element ∷ "." ∷ []);
          source_status = calculated;
        }
        ∷ record {
          statement_type = rule_application;
          subject = "pair";
          text = concat (
              "Wu-Xing day-master relation per the canonical Sheng/Ke cycle: " ∷ relation ∷ "."
              ∷ []);
          source_status = calculated;
        }
        ∷ [])

  unfoldable pub spouse_palace_statements : PairLayer F → Result (List Statement)
  spouse_palace_statements layer = do
    palace ← text_of layer "palace_pillar"
    branch_a ← text_of layer "person_a_day_branch"
    stems_a ← fact_value layer "person_a_hidden_stems" >>= join_labels
    branch_b ← text_of layer "person_b_day_branch"
    stems_b ← fact_value layer "person_b_hidden_stems" >>= join_labels
    same_branch ← fact_value layer "same_day_branch" >>= yes_no
    ok (
        record {
          statement_type = calculated_fact;
          subject = "pair";
          text = concat (
              "Spouse-palace host pillar: " ∷ palace ∷ ". Day branch of person_a: " ∷ branch_a
              ∷ " (hidden stems: " ∷ stems_a ∷ "); day branch of person_b: " ∷ branch_b
              ∷ " (hidden stems: " ∷ stems_b ∷ "). Same day branch: " ∷ same_branch ∷ "." ∷ []);
          source_status = calculated;
        }
        ∷ record {
          statement_type = source_status_statement;
          subject = "pair";
          text = concat (
              "The day-branch to spouse-palace designation has no domain-approved ruleset table; this layer is marked "
              ∷ status_value needs_domain_review
              ∷ "."
              ∷ []);
          source_status = needs_domain_review;
        }
        ∷ [])

  unfoldable pub wuxing_vector_statements : PairLayer F → Result (List Statement)
  wuxing_vector_statements layer = do
    order ← fact_value layer "element_order" >>= join_labels
    vector_a ← fact_value layer "person_a_vector" >>= join_weights
    vector_b ← fact_value layer "person_b_vector" >>= join_weights
    ok (
        record {
          statement_type = calculated_fact;
          subject = "pair";
          text = concat (
              "Wu-Xing vectors in element order " ∷ order ∷ " — person_a: " ∷ vector_a
              ∷ "; person_b: " ∷ vector_b ∷ "." ∷ []);
          source_status = calculated;
        }
        ∷ [])
