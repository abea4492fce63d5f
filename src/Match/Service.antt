-- ===== src/Match/Service.antt =====
-- bazi_engine/routers/match.py, `match_bazi_hehun_endpoint`: the consent gate, the analysis of the pair and
-- the mapping of its errors. The computation of a person's pillars is given with the person; of the
-- response the parts that the analysis makes are kept.
pub mod Evident
use fufire_api_lunar.Prelude.{
  String, Bool, true, false, Option, List, [], ◌∷◌, ◌++◌, Result, ok, err, ◌>>=◌, ◌>>◌, require,
  Error, http_exception, local_time_error, input_error, calculation_error, not_supported,
  birth_time_required, ruleset_not_found, ruleset_integrity_failed, graph_invariant_failed,
  direction_basis_missing, blocked_language, eq_String, eq_pair, if◌then◌else◌,
}
use fufire_api_lunar.Prelude.Dict.{contains}
use fufire_api_lunar.Match.Values.{WarningCode, WarningEntry, TextBlock, EvidenceEntry, FourPillars}
use fufire_api_lunar.Match.Ruleset.{Ruleset, Floats}
use fufire_api_lunar.Match.Normalize.{normalize_chart}
use fufire_api_lunar.Match.Individual.{IndividualAnalysis, analyze_individual}
use fufire_api_lunar.Match.Pair.{PairAnalysis, analyze_pair}
use fufire_api_lunar.Match.Guard.{Python}
use fufire_api_lunar.Match.Text.{eq_code, dedupe_key, build_text_blocks}
use fufire_api_lunar.Match.Evidence.{build_evidence_ledger}

pub record Person : Type 0 where
  pub computed : Result FourPillars
  pub birth_time_known : Bool
  pub gender : Option String

pub record MatchResponse (F : Type 0) : Type 0 where
  pub person_a : IndividualAnalysis F
  pub person_b : IndividualAnalysis F
  pub pair : PairAnalysis F
  pub raw_analysis_text : List TextBlock
  pub warnings : List WarningEntry
  pub evidence_ledger : List EvidenceEntry

abbrev pub unique_from : List (WarningCode × String) → List WarningEntry → List WarningEntry
unique_from seen [] = []
unique_from seen (warning ∷ warnings) =
    let skipped = unique_from seen warnings in
    let added = warning ∷ unique_from (dedupe_key warning ∷ seen) warnings in
    if contains seen (dedupe_key warning) then skipped else added

unfoldable pub dedupe_warnings : List WarningEntry → List WarningEntry
dedupe_warnings warnings = unique_from [] warnings

-- The handlers at the end: the engine's own errors pass, and any other is a calculation error.
abbrev pub as_engine_error : Error → Error
as_engine_error local_time_error = local_time_error
as_engine_error input_error = input_error
as_engine_error not_supported = not_supported
as_engine_error birth_time_required = birth_time_required
as_engine_error ruleset_not_found = ruleset_not_found
as_engine_error ruleset_integrity_failed = ruleset_integrity_failed
as_engine_error (graph_invariant_failed name) = graph_invariant_failed name
as_engine_error (direction_basis_missing fields) = direction_basis_missing fields
as_engine_error blocked_language = blocked_language
as_engine_error _ = calculation_error

abbrev pub handled : {A : Type 0} → Result A → Result A
handled (err e) = err (as_engine_error e)
handled (ok a) = ok a

module _ {F : Type 0} (floats : Floats F) (python : Python F) (rules : Ruleset) where
  abbrev pub with_text :
      IndividualAnalysis F
      → IndividualAnalysis F
      → PairAnalysis F
      → List WarningEntry
      → Result (MatchResponse F)
  with_text individual_a individual_b pair warnings =
      build_text_blocks python pair warnings >>= λ text_blocks.
      build_evidence_ledger python pair warnings >>= λ evidence_ledger. ok (record {
        person_a = individual_a;
        person_b = individual_b;
        pair = pair;
        raw_analysis_text = text_blocks;
        warnings = warnings;
        evidence_ledger = evidence_ledger;
      })

  -- The body of the `try`.
  unfoldable pub analyze_match : Person → Person → Result (MatchResponse F)
  analyze_match a b = do
    result_a ← a.computed
    result_b ← b.computed
    chart_a ← normalize_chart floats result_a a.birth_time_known "person_a" rules
    chart_b ← normalize_chart floats result_b b.birth_time_known "person_b" rules
    individual_a ← analyze_individual chart_a "person_a" rules a.gender
    individual_b ← analyze_individual chart_b "person_b" rules b.gender
    pair ← analyze_pair individual_a individual_b
    with_text individual_a individual_b pair
        (dedupe_warnings (chart_a.warnings ++ chart_b.warnings))

  unfoldable pub match_bazi_hehun_endpoint : Bool → Person → Person → Result (MatchResponse F)
  match_bazi_hehun_endpoint consent_confirmed a b = do
    require consent_confirmed (http_exception 422 "consent_required")
    handled (analyze_match a b)
