-- ===== src/Match/Text.antt =====
-- bazi_engine/match/textblocks.py: the text blocks of a pair and of the warnings, each string of which
-- passes the guard.
pub mod Outcome
use fufire_api_lunar.Prelude.{
  ◌≡◌, ◌↔◌, ℕ, suc, String, Bool, true, false, List, [], ◌∷◌, ◌++◌, Result, ok, ◌>>=◌, ◌>>◌, Eq,
  eq_String, eq_pair, arith, if◌then◌else◌,
}
use fufire_api_lunar.Prelude.Dict.{get, contains}
use fufire_api_lunar.Match.Values.{
  calculated, StatementType, warning_statement, WarningCode, day_anchor_unverified,
  birth_time_unknown, status_value, statement_value, code_value, PairLayer, WarningEntry, TextBlock,
}
use fufire_api_lunar.Match.Ruleset.{item}
use fufire_api_lunar.Match.Pair.{PairAnalysis, layers}
use fufire_api_lunar.Match.Guard.{Python, guard_all}
use fufire_api_lunar.Match.Statements.{
  concat, two_digits, Statement, day_master_statements, spouse_palace_statements,
  wuxing_vector_statements,
}

abbrev pub warning_evidence_id : WarningEntry → String
warning_evidence_id entry =
    concat ("ev:warning:" ∷ entry.subject ∷ ":" ∷ code_value entry.code ∷ [])

abbrev pub same_code : WarningCode → WarningCode → Bool
same_code day_anchor_unverified day_anchor_unverified = true
same_code birth_time_unknown birth_time_unknown = true
same_code _ _ = false

pub same_code_iff : (a b : WarningCode) → (same_code a b ≡ true) ↔ (a ≡ b)
same_code_iff a b = ground arith

instance abbrev pub eq_code : Eq WarningCode
eq_code = record { beq = same_code; beq_iff = same_code_iff }

-- Every string that a block emits.
abbrev pub block_strings : TextBlock → List String
block_strings block =
    block.id
    ∷ block.layer
    ∷ statement_value block.statement_type
    ∷ block.subject
    ∷ block.text
    ∷ status_value block.source_status
    ∷ block.evidence_ids

abbrev pub statement_block : {F : Type 0} → String → PairLayer F → ℕ → Statement → TextBlock
statement_block name layer ordinal statement = record {
  id = concat ("blk:" ∷ name ∷ ":" ∷ two_digits ordinal ∷ []);
  layer = name;
  statement_type = statement.statement_type;
  subject = statement.subject;
  text = statement.text;
  source_status = statement.source_status;
  evidence_ids = layer.evidence_ids;
}

abbrev pub warning_block : WarningEntry → TextBlock
warning_block entry = record {
  id = concat ("blk:warnings:" ∷ entry.subject ∷ ":" ∷ code_value entry.code ∷ []);
  layer = "warnings";
  statement_type = warning_statement;
  subject = entry.subject;
  text = concat (code_value entry.code ∷ ": " ∷ entry.message ∷ []);
  source_status = calculated;
  evidence_ids = warning_evidence_id entry ∷ [];
}

-- The key by which warnings are the same.
abbrev pub dedupe_key : WarningEntry → WarningCode × String
dedupe_key entry = (entry.code, entry.subject)

module _ {F : Type 0} (python : Python F) where
  abbrev pub statement_builders : List (String × (PairLayer F → Result (List Statement)))
  statement_builders =
      ("day_master_comparison", day_master_statements python)
      ∷ ("spouse_palace_day_branch", spouse_palace_statements python)
      ∷ ("wuxing_vector_comparison", wuxing_vector_statements python)
      ∷ []

  -- `_make_block`
  abbrev pub make_block : TextBlock → Result TextBlock
  make_block block = guard_all python (block_strings block) >> ok block

  abbrev pub statement_blocks : String → PairLayer F → ℕ → List Statement → Result (List TextBlock)
  statement_blocks name layer ordinal [] = ok []
  statement_blocks name layer ordinal (statement ∷ statements) =
      make_block (statement_block name layer ordinal statement) >>= λ block.
      statement_blocks name layer (suc ordinal) statements >>= λ blocks. ok (block ∷ blocks)

  abbrev pub layer_blocks : List (String × PairLayer F) → Result (List TextBlock)
  layer_blocks [] = ok []
  layer_blocks ((name, layer) ∷ rest) = item (get statement_builders name) >>= λ builder.
      builder layer >>= λ statements. statement_blocks name layer 1 statements >>= λ blocks.
      layer_blocks rest >>= λ more. ok (blocks ++ more)

  abbrev pub warning_blocks :
      List (WarningCode × String) → List WarningEntry → Result (List TextBlock)
  warning_blocks seen [] = ok []
  warning_blocks seen (entry ∷ entries) =
      let skipped = warning_blocks seen entries in
      let added = make_block (warning_block entry) >>= λ block.
      warning_blocks (dedupe_key entry ∷ seen) entries >>= λ blocks. ok (block ∷ blocks) in
      if contains seen (dedupe_key entry) then skipped else added

  unfoldable pub build_text_blocks : PairAnalysis F → List WarningEntry → Result (List TextBlock)
  build_text_blocks pair warnings = do
    blocks ← layer_blocks (layers pair)
    of_warnings ← warning_blocks [] warnings
    ok (blocks ++ of_warnings)
