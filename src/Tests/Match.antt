-- ===== src/Tests/Match.antt =====
-- The theorems on bazi_engine/match at concrete inputs: a weight is a number of tenths.
use fufire_api_lunar.Prelude.{
  ℕ, ◌+◌, ◌≡◌, ◌⊎◌, refl, true, false, none, some, List, [], ◌∷◌, Result, ok, err, blocked_language,
  arith, eq_String, ◌==◌, if◌then◌else◌,
}
use fufire_api_lunar.Prelude.Dict.{same_set}
use fufire_api_lunar.Prelude.Keys.{unrepeated}
use fufire_api_lunar.Prelude.Text.{lower}
use fufire_api_lunar.Match.Values.{FourPillars, NormalizedChart}
use fufire_api_lunar.Match.Ruleset.{Floats, standard_bazi_2026, hidden_stems_for_branch}
use fufire_api_lunar.Prelude.{String}
use fufire_api_lunar.Match.TenGods.{stem_element}
use fufire_api_lunar.Match.TenGods.Agreement.{Agreement, ten_god_for_stems-Agreement}
use fufire_api_lunar.Match.Normalize.{
  normalize_chart, build_wuxing_ledger, pillar_entries, wuxing_vector_from_ledger,
}
use fufire_api_lunar.Match.Guard.{Python}
use fufire_api_lunar.Match.Text.Outcome.{references}
use fufire_api_lunar.Match.Evidence.Covers.{ids}
use fufire_api_lunar.Prelude.{http_exception}
use fufire_api_lunar.Match.TenGods.{ten_god_for_stems, element_relation, stem_polarity}
use fufire_api_lunar.Match.Ruleset.{ten_god_for_relation}
use fufire_api_lunar.Match.Individual.{
  analyze_individual, build_month_command, build_spouse_palace, build_spouse_star,
  build_derived_field_stubs, spouse_star_occurrences, spouse_star_result,
}
use fufire_api_lunar.Match.Pair.{
  analyze_pair, day_master_comparison, classify_day_master_relation, generated_element,
  spouse_palace_day_branch, wuxing_vector_comparison,
}
use fufire_api_lunar.Match.Normalize.{build_warnings}
use fufire_api_lunar.Match.Guard.{guard_text, find_blocked_language}
use fufire_api_lunar.Match.Statements.{
  day_master_statements, spouse_palace_statements, wuxing_vector_statements,
}
use fufire_api_lunar.Match.Text.{build_text_blocks}
use fufire_api_lunar.Match.Evidence.{build_evidence_ledger}
use fufire_api_lunar.Match.Service.{
  analyze_match, dedupe_warnings, Person, MatchResponse, match_bazi_hehun_endpoint,
}
use fufire_api_lunar.Match.Service.Evident.{Computed, match_bazi_hehun_endpoint-Evident}

ten_god_for_stems-Agreement_example : Agreement 4 9
ten_god_for_stems-Agreement_example = ten_god_for_stems-Agreement 4 9 (omega arith) (omega arith)

abbrev tenths : Floats ℕ
tenths = record { zero_weight = 0; one = 10; half = 5; three_tenths = 3; add = λ a b. a + b }

abbrev python : Python ℕ
python = record {
  lower = lower;
  search = λ pattern text. if text == "score" then some text else none;
  two_decimals = λ n. "n";
  show = λ n. "n";
  repr = λ value. "?";
}

abbrev pillars : FourPillars
pillars = record {
  year = record { stem_index = 0; branch_index = 0 };
  month = record { stem_index = 2; branch_index = 2 };
  day = record { stem_index = 4; branch_index = 6 };
  hour = record { stem_index = 9; branch_index = 11 };
}

abbrev chart : Result (NormalizedChart ℕ)
chart = normalize_chart tenths pillars false "person_a" standard_bazi_2026

abbrev vector_of : Result (NormalizedChart ℕ) → List ℕ
vector_of (ok c) = c.wuxing_vector
vector_of (err e) = []

chart_vector : vector_of chart ≡ 25 ∷ 25 ∷ 18 ∷ 0 ∷ 30 ∷ []
unfolding normalize_chart build_wuxing_ledger pillar_entries stem_element hidden_stems_for_branch
    wuxing_vector_from_ledger
chart_vector = refl

abbrev person : Person
person = record { computed = ok pillars; birth_time_known = false; gender = some "male" }

person-Computed : Computed person
person-Computed = record {
  pillars = pillars;
  computed = refl;
  in_range = record {
    year = record { stem = omega arith; branch = omega arith };
    month = record { stem = omega arith; branch = omega arith };
    day = record { stem = omega arith; branch = omega arith };
    hour = record { stem = omega arith; branch = omega arith };
  };
  accepted = refl;
}

match_bazi_hehun_endpoint-Evident_example :
    ((match_bazi_hehun_endpoint tenths python standard_bazi_2026 true person person
        ≡ err blocked_language)
      ⊎ ((response : MatchResponse ℕ) × (match_bazi_hehun_endpoint tenths python standard_bazi_2026
              true person person
            ≡ ok response)
          × (unrepeated (ids response.evidence_ledger) ≡ true)
          × (same_set (references response.raw_analysis_text) (ids response.evidence_ledger)
              ≡ true)))
    × (match_bazi_hehun_endpoint tenths python standard_bazi_2026 false person person
        ≡ err (http_exception 422 "consent_required"))
match_bazi_hehun_endpoint-Evident_example =
    match_bazi_hehun_endpoint-Evident tenths python person person person-Computed person-Computed

abbrev ledger_ids_of : Result (MatchResponse ℕ) → List String
ledger_ids_of (ok response) = ids response.evidence_ledger
ledger_ids_of (err e) = []

answered_ids :
    ledger_ids_of (match_bazi_hehun_endpoint tenths python standard_bazi_2026 true person person)
    ≡ "ev:pair:day_master_comparison" ∷ "ev:pair:spouse_palace_day_branch"
      ∷ "ev:pair:wuxing_vector_comparison" ∷ "ev:warning:ruleset:DAY_ANCHOR_UNVERIFIED"
      ∷ "ev:warning:person_a:BIRTH_TIME_UNKNOWN" ∷ "ev:warning:person_b:BIRTH_TIME_UNKNOWN" ∷ []
unfolding match_bazi_hehun_endpoint analyze_match normalize_chart build_wuxing_ledger pillar_entries
    stem_element hidden_stems_for_branch wuxing_vector_from_ledger build_warnings analyze_individual
    build_month_command build_spouse_palace build_spouse_star build_derived_field_stubs
    spouse_star_occurrences spouse_star_result ten_god_for_stems element_relation stem_polarity
    ten_god_for_relation analyze_pair day_master_comparison classify_day_master_relation
    generated_element spouse_palace_day_branch wuxing_vector_comparison build_text_blocks
    day_master_statements spouse_palace_statements wuxing_vector_statements guard_text
    find_blocked_language build_evidence_ledger dedupe_warnings lower
answered_ids = refl
