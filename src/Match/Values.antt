-- ===== src/Match/Values.antt =====
-- bazi_engine/match/types.py: the values of the analysis. The type of floating-point numbers is a
-- parameter of what holds some.
use fufire_api_lunar.Prelude.{String, Bool, true, false, List}
use fufire_api_lunar.Bazi.Pillars.{Pillar}

pub data SourceStatus : Type 0 where
  calculated pending_tables needs_domain_review : SourceStatus

pub data StatementType : Type 0 where
  calculated_fact rule_application source_status_statement warning_statement : StatementType

pub data WarningCode : Type 0 where
  day_anchor_unverified birth_time_unknown : WarningCode

pub data EvidenceKind : Type 0 where
  computation by_ruleset warning_kind : EvidenceKind

pub data StemSource : Type 0 where
  visible hidden_principal hidden_central hidden_residual : StemSource

abbrev pub status_value : SourceStatus → String
status_value calculated = "CALCULATED"
status_value pending_tables = "PENDING_TABLES"
status_value needs_domain_review = "NEEDS_DOMAIN_REVIEW"

abbrev pub statement_value : StatementType → String
statement_value calculated_fact = "CALCULATED_FACT"
statement_value rule_application = "RULE_APPLICATION"
statement_value source_status_statement = "SOURCE_STATUS"
statement_value warning_statement = "WARNING"

abbrev pub code_value : WarningCode → String
code_value day_anchor_unverified = "DAY_ANCHOR_UNVERIFIED"
code_value birth_time_unknown = "BIRTH_TIME_UNKNOWN"

abbrev pub kind_value : EvidenceKind → String
kind_value computation = "COMPUTATION"
kind_value by_ruleset = "RULESET"
kind_value warning_kind = "WARNING"

abbrev pub is_hidden : StemSource → Bool
is_hidden visible = false
is_hidden _ = true

pub record WuxingLedgerEntry (F : Type 0) : Type 0 where
  pub pillar : String
  pub stem : String
  pub element : String
  pub source : StemSource
  pub weight : F

pub record WarningEntry : Type 0 where
  pub code : WarningCode
  pub subject : String
  pub message : String
  pub evidence_ids : List String

pub record FourPillars : Type 0 where
  pub year : Pillar
  pub month : Pillar
  pub day : Pillar
  pub hour : Pillar

pub record NormalizedChart (F : Type 0) : Type 0 where
  pub pillars : FourPillars
  pub day_master : String
  pub month_master_label : String
  pub hour_master_label : String
  pub wuxing_ledger : List (WuxingLedgerEntry F)
  pub wuxing_vector : List F
  pub birth_time_known : Bool
  pub warnings : List WarningEntry

pub record TextBlock : Type 0 where
  pub id : String
  pub layer : String
  pub statement_type : StatementType
  pub subject : String
  pub text : String
  pub source_status : SourceStatus
  pub evidence_ids : List String

pub record EvidenceEntry : Type 0 where
  pub id : String
  pub kind : EvidenceKind
  pub source_ref : String
  pub description : String

-- The kinds of values that a fact has in the pair layers.
pub data FactValue (F : Type 0) : Type 0 where
  label : String → FactValue F
  truth : Bool → FactValue F
  labels : List String → FactValue F
  weights : List F → FactValue F

pub record Fact (F : Type 0) : Type 0 where
  pub key : String
  pub value : FactValue F
  pub source_status : SourceStatus

pub record PairLayer (F : Type 0) : Type 0 where
  pub name : String
  pub facts : List (Fact F)
  pub source_status : SourceStatus
  pub evidence_ids : List String
