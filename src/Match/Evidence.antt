-- ===== src/Match/Evidence.antt =====
-- bazi_engine/match/evidence.py: the ledger with an entry for every evidence id.
pub mod Covers
pub mod Complete
use fufire_api_lunar.Prelude.{
  String, Bool, true, false, List, [], ◌∷◌, ◌++◌, Result, ok, ◌>>=◌, ◌>>◌, eq_String, if◌then◌else◌,
}
use fufire_api_lunar.Prelude.Dict.{get, contains}
use fufire_api_lunar.Match.Values.{
  EvidenceKind, computation, by_ruleset, warning_kind, kind_value, code_value, EvidenceEntry,
  PairLayer, WarningEntry,
}
use fufire_api_lunar.Match.Ruleset.{item}
use fufire_api_lunar.Match.Pair.{PairAnalysis, layers}
use fufire_api_lunar.Match.Guard.{Python, guard_all}
use fufire_api_lunar.Match.Statements.{concat}
use fufire_api_lunar.Match.Text.{warning_evidence_id}

pub record LayerEvidence : Type 0 where
  pub kind : EvidenceKind
  pub source_ref : String
  pub description : String

abbrev pub pair_layer_evidence : List (String × LayerEvidence)
pair_layer_evidence =
    (
      "day_master_comparison",
      record {
        kind = computation;
        source_ref = "bazi_engine.match.pair.analyze_pair#day_master_comparison";
        description =
            "Day-master stems, elements and the Sheng/Ke relation computed deterministically from both charts.";
      },
    )
    ∷ (
      "spouse_palace_day_branch",
      record {
        kind = by_ruleset;
        source_ref = "bazi_engine.match.pair.analyze_pair#spouse_palace_day_branch";
        description =
            "Day-branch identities and ruleset hidden stems; the spouse-palace designation is NEEDS_DOMAIN_REVIEW.";
      },
    )
    ∷ (
      "wuxing_vector_comparison",
      record {
        kind = by_ruleset;
        source_ref = "bazi_engine.match.pair.analyze_pair#wuxing_vector_comparison";
        description =
            "Wu-Xing vectors summed from the normalization ledger — visible stems plus ruleset/legacy hidden-stem weighting.";
      },
    )
    ∷ []

-- An entry of a layer's evidence for one of its ids.
abbrev pub layer_entry : LayerEvidence → String → EvidenceEntry
layer_entry evidence evidence_id = record {
  id = evidence_id;
  kind = evidence.kind;
  source_ref = evidence.source_ref;
  description = evidence.description;
}

abbrev pub warning_entry : WarningEntry → EvidenceEntry
warning_entry warning = record {
  id = warning_evidence_id warning;
  kind = warning_kind;
  source_ref = "bazi_engine.match.normalize._build_warnings";
  description =
      concat (code_value warning.code ∷ " warning surfaced for " ∷ warning.subject ∷ "." ∷ []);
}

-- The entries of the layers with their metadata, and those of the warnings, before repeated ids are
-- left out.
abbrev pub entries_of_ids : LayerEvidence → List String → List EvidenceEntry
entries_of_ids evidence [] = []
entries_of_ids evidence (evidence_id ∷ ids) =
    layer_entry evidence evidence_id ∷ entries_of_ids evidence ids

abbrev pub entries_of_warnings : List WarningEntry → List EvidenceEntry
entries_of_warnings [] = []
entries_of_warnings (warning ∷ warnings) = warning_entry warning ∷ entries_of_warnings warnings

-- Every string of an entry.
abbrev pub entry_strings : EvidenceEntry → List String
entry_strings entry = entry.id ∷ kind_value entry.kind ∷ entry.source_ref ∷ entry.description ∷ []

module _ {F : Type 0} (python : Python F) where
  -- `_make_entry`
  abbrev pub make_entry : EvidenceEntry → Result EvidenceEntry
  make_entry entry = guard_all python (entry_strings entry) >> ok entry

  -- Either loop: an id that was seen is skipped; the result is what is appended and the ids seen after it.
  abbrev pub add_entries :
      List String → List EvidenceEntry → Result (List EvidenceEntry × List String)
  add_entries seen [] = ok ([], seen)
  add_entries seen (entry ∷ entries) =
      let skipped = add_entries seen entries in
      let added = make_entry entry >>= λ made.
      add_entries (entry.id ∷ seen) entries >>= λ rest. ok (made ∷ rest.0, rest.1) in
      if contains seen entry.id then skipped else added

  abbrev pub add_layers :
      List String → List (String × PairLayer F) → Result (List EvidenceEntry × List String)
  add_layers seen [] = ok ([], seen)
  add_layers seen ((name, layer) ∷ rest) = item (get pair_layer_evidence name) >>= λ evidence.
      add_entries seen (entries_of_ids evidence layer.evidence_ids) >>= λ first.
      add_layers first.1 rest >>= λ more. ok (first.0 ++ more.0, more.1)

  unfoldable pub build_evidence_ledger :
      PairAnalysis F → List WarningEntry → Result (List EvidenceEntry)
  build_evidence_ledger pair warnings = do
    of_layers ← add_layers [] (layers pair)
    of_warnings ← add_entries of_layers.1 (entries_of_warnings warnings)
    ok (of_layers.0 ++ of_warnings.0)
