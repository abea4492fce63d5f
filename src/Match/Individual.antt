-- ===== src/Match/Individual.antt =====
-- bazi_engine/match/individual.py: the analysis of one chart. `__post_init__` of the two guarded classes
-- is a check before the value is returned; confidences are floating-point constants and left out.
pub mod Total
use fufire_api_lunar.Prelude.{
  ℕ, zero, suc, String, Bool, true, false, not, ◌&&◌, ◌||◌, Option, none, some, List, [], ◌∷◌, ◌++◌,
  Result, ok, err, ◌>>=◌, ◌>>◌, require, value_error, index_error, get_elem?, map_result, ◌==◌,
  eq_String, if◌then◌else◌,
}
use fufire_api_lunar.Prelude.Dict.{get, contains}
use fufire_api_lunar.Match.Values.{
  SourceStatus, calculated, pending_tables, needs_domain_review, StemSource, WuxingLedgerEntry,
  WarningEntry, NormalizedChart,
}
use fufire_api_lunar.Match.Ruleset.{Ruleset, item, element_at, hidden_stems_for_branch, branches}
use fufire_api_lunar.Match.TenGods.{stem_element, ten_god_for_stems}

pub record DerivedFieldStatus : Type 0 where
  pub field : String
  pub source_status : SourceStatus
  pub blocked_by : String

abbrev pub derived_field_specs : List DerivedFieldStatus
derived_field_specs =
    record {
      field = "day_master_strength";
      source_status = needs_domain_review;
      blocked_by = "MISSING-003";
    }
    ∷ record { field = "yong_shen"; source_status = pending_tables; blocked_by = "MISSING-003" }
    ∷ []

abbrev pub is_unsourced : SourceStatus → Bool
is_unsourced calculated = false
is_unsourced _ = true

-- The constructor with its check.
abbrev pub derived_field_status : DerivedFieldStatus → Result DerivedFieldStatus
derived_field_status status = do require (is_unsourced status.source_status) value_error; ok status

unfoldable pub build_derived_field_stubs : Result (List DerivedFieldStatus)
build_derived_field_stubs = map_result derived_field_status derived_field_specs

pub data Role : Type 0 where
  primary_convention_god disruption_signal_god : Role

pub record SpouseStarOccurrence : Type 0 where
  pub pillar : String
  pub source : StemSource
  pub stem : String
  pub role : Role

pub record SpouseStarResult : Type 0 where
  pub gender_used : Option String
  pub source_status : SourceStatus
  pub blocked_by : String
  pub occurrences : List SpouseStarOccurrence

abbrev pub is_pending : SourceStatus → Bool
is_pending pending_tables = true
is_pending _ = false

abbrev pub no_occurrences : List SpouseStarOccurrence → Bool
no_occurrences [] = true
no_occurrences (o ∷ os) = false

-- No value, for the reason given.
abbrev pub is_blocked : SpouseStarResult → String → Bool
is_blocked star reason =
    is_pending star.source_status && star.blocked_by == reason && no_occurrences star.occurrences

abbrev pub is_computed : SpouseStarResult → Bool
is_computed star = not (is_unsourced star.source_status) && star.blocked_by == ""

-- `valid`, by the gender.
abbrev pub valid_star : SpouseStarResult → Option String → Result Bool
valid_star star none = ok (is_blocked star "GENDER_NOT_PROVIDED")
valid_star star (some gender) =
    if gender == "divers"
    then ok (is_blocked star "MISSING-008")
    else if gender == "male" || gender == "female"
    then ok (is_computed star)
    else err value_error

-- The constructor with its check.
unfoldable pub spouse_star_result : SpouseStarResult → Result SpouseStarResult
spouse_star_result star = do
  valid ← valid_star star star.gender_used
  require valid value_error
  ok star

pub record MonthCommand : Type 0 where
  pub branch : String
  pub branch_index : ℕ
  pub principal_qi_stem : String
  pub element : String
  pub source_status : SourceStatus

pub record SpousePalaceFacts : Type 0 where
  pub palace_pillar : String
  pub day_branch : String
  pub day_branch_index : ℕ
  pub hidden_stems : List String
  pub position_source_status : SourceStatus
  pub position_source_note : String
  pub source_status : SourceStatus

pub record IndividualAnalysis (F : Type 0) : Type 0 where
  pub subject : String
  pub day_master : String
  pub day_master_element : String
  pub month_command : MonthCommand
  pub spouse_palace : SpousePalaceFacts
  pub wuxing_vector : List F
  pub derived_fields : List DerivedFieldStatus
  pub spouse_star : SpouseStarResult
  pub source_status : SourceStatus
  pub warnings : List WarningEntry

abbrev pub role_of : List String → String → String → Option Role
role_of primary_gods disruption_god god =
    if contains primary_gods god
    then some primary_convention_god
    else if god == disruption_god
    then some disruption_signal_god
    else none

abbrev pub blocked_star : Option String → String → SpouseStarResult
blocked_star gender reason = record {
  gender_used = gender;
  source_status = pending_tables;
  blocked_by = reason;
  occurrences = [];
}

module _ {F : Type 0} where
  unfoldable pub build_month_command : NormalizedChart F → Ruleset → Result MonthCommand
  build_month_command chart rules = do
    let branch_index = chart.pillars.month.branch_index
    branch ← element_at (get_elem? branches branch_index)
    hidden_stems ← hidden_stems_for_branch rules branch
    principal_qi_stem ← element_at (get_elem? hidden_stems 0)
    element ← stem_element principal_qi_stem
    ok (record {
      branch = branch;
      branch_index = branch_index;
      principal_qi_stem = principal_qi_stem;
      element = element;
      source_status = calculated;
    })

  unfoldable pub build_spouse_palace : NormalizedChart F → Ruleset → Result SpousePalaceFacts
  build_spouse_palace chart rules = do
    let branch_index = chart.pillars.day.branch_index
    branch ← element_at (get_elem? branches branch_index)
    hidden_stems ← hidden_stems_for_branch rules branch
    ok (record {
      palace_pillar = "day";
      day_branch = branch;
      day_branch_index = branch_index;
      hidden_stems = hidden_stems;
      position_source_status = calculated;
      position_source_note =
          "day branch = spouse palace (日支=夫妻宫), standard BaZi position identification";
      source_status = needs_domain_review;
    })

  abbrev pub occurrence : WuxingLedgerEntry F → Option Role → List SpouseStarOccurrence
  occurrence entry none = []
  occurrence entry (some role) =
      record { pillar = entry.pillar; source = entry.source; stem = entry.stem; role = role } ∷ []

  abbrev pub occurrences_in :
      Ruleset
      → String
      → List String
      → String
      → List (WuxingLedgerEntry F)
      → Result (List SpouseStarOccurrence)
  occurrences_in rules day_master primary_gods disruption_god [] = ok []
  occurrences_in rules day_master primary_gods disruption_god (entry ∷ ledger) =
      ten_god_for_stems rules day_master entry.stem >>= λ god.
      occurrences_in rules day_master primary_gods disruption_god ledger >>= λ rest.
      ok (occurrence entry (role_of primary_gods disruption_god god) ++ rest)

  unfoldable pub spouse_star_occurrences :
      List (WuxingLedgerEntry F) → Ruleset → String → String → Result (List SpouseStarOccurrence)
  spouse_star_occurrences ledger rules day_master gender = do
    primary_gods ← item (get rules.primary_gods gender)
    disruption_god ← item (get rules.disruption_gods gender)
    occurrences_in rules day_master primary_gods disruption_god ledger

  abbrev pub computed_star : NormalizedChart F → Ruleset → String → Result SpouseStarResult
  computed_star chart rules gender = do
    occurrences ← spouse_star_occurrences chart.wuxing_ledger rules chart.day_master gender
    spouse_star_result (record {
      gender_used = some gender;
      source_status = calculated;
      blocked_by = "";
      occurrences = occurrences;
    })

  unfoldable pub build_spouse_star :
      NormalizedChart F → Ruleset → Option String → Result SpouseStarResult
  build_spouse_star chart rules none = spouse_star_result (blocked_star none "GENDER_NOT_PROVIDED")
  build_spouse_star chart rules (some gender) =
      if gender == "divers"
      then spouse_star_result (blocked_star (some "divers") "MISSING-008")
      else computed_star chart rules gender

  unfoldable pub analyze_individual :
      NormalizedChart F → String → Ruleset → Option String → Result (IndividualAnalysis F)
  analyze_individual chart subject rules gender = do
    day_master_element ← stem_element chart.day_master
    month_command ← build_month_command chart rules
    spouse_palace ← build_spouse_palace chart rules
    derived_fields ← build_derived_field_stubs
    spouse_star ← build_spouse_star chart rules gender
    ok (record {
      subject = subject;
      day_master = chart.day_master;
      day_master_element = day_master_element;
      month_command = month_command;
      spouse_palace = spouse_palace;
      wuxing_vector = chart.wuxing_vector;
      derived_fields = derived_fields;
      spouse_star = spouse_star;
      source_status = calculated;
      warnings = chart.warnings;
    })
