-- ===== src/Match/Normalize.antt =====
-- bazi_engine/match/normalize.py: a chart's pillars, with the weights of the visible and hidden stems and
-- the warnings. Of the chart only its pillars are read; messages of errors are left out.
pub mod Total
use Prim.Native.String.{◌++◌ as str_append}
use fufire_api_lunar.Prelude.{
  ℕ, zero, suc, ◌+◌, String, Bool, true, false, not, Option, none, some, List, [], ◌∷◌, ◌++◌, map,
  Result, ok, err, ◌>>=◌, ◌>>◌, require, value_error, index_error, get_elem?, set, length, leb,
  ◌==◌, eq_ℕ, eq_String, if◌then◌else◌,
}
use fufire_api_lunar.Prelude.Dict.{get, put, has, same_set}
use fufire_api_lunar.Prelude.Keys.{keys}
use fufire_api_lunar.Bazi.Pillars.{Pillar}
use fufire_api_lunar.Match.Values.{
  StemSource, visible, hidden_principal, hidden_central, hidden_residual, WuxingLedgerEntry,
  WarningEntry, day_anchor_unverified, birth_time_unknown, FourPillars, NormalizedChart,
}
use fufire_api_lunar.Match.Ruleset.{
  Ruleset, item, element_at, hidden_stems_for_branch, stems, branches, wuxing_index, Floats,
  legacy_branch_hidden,
}
use fufire_api_lunar.Match.TenGods.{stem_element}

-- The stems of a branch by their elements.
abbrev pub add_by_element :
    List (String × String) → String → String → Result (List (String × String))
add_by_element stem_by_element hidden_stem element =
    if has stem_by_element element
    then err value_error
    else ok (put stem_by_element element hidden_stem)

abbrev pub by_element : List (String × String) → List String → Result (List (String × String))
by_element stem_by_element [] = ok stem_by_element
by_element stem_by_element (hidden_stem ∷ hidden_stems) = stem_element hidden_stem >>= λ element.
    add_by_element stem_by_element hidden_stem element >>= λ longer. by_element longer hidden_stems

-- `_LEGACY_BRANCH_HIDDEN.get(branch)`, and an error for none
abbrev pub rows_or_error : {A : Type 0} → Option A → Result A
rows_or_error none = err value_error
rows_or_error (some rows) = ok rows

abbrev pub hidden_sources : List StemSource
hidden_sources = hidden_principal ∷ hidden_central ∷ hidden_residual ∷ []

module _ {F : Type 0} (floats : Floats F) where
  abbrev pub visible_entry : String → String → String → WuxingLedgerEntry F
  visible_entry pillar_name stem element = record {
    pillar = pillar_name;
    stem = stem;
    element = element;
    source = visible;
    weight = floats.one;
  }

  abbrev pub hidden_entry :
      String → List (String × String) → StemSource → String × F → Result (WuxingLedgerEntry F)
  hidden_entry pillar_name stem_by_element source (element, weight) = do
    stem ← item (get stem_by_element element)
    ok (record {
      pillar = pillar_name;
      stem = stem;
      element = element;
      source = source;
      weight = weight;
    })

  -- The rows in their order, each with the role of its position.
  abbrev pub hidden_entries :
      String
      → List (String × String)
      → List StemSource
      → List (String × F)
      → Result (List (WuxingLedgerEntry F))
  hidden_entries pillar_name stem_by_element sources [] = ok []
  hidden_entries pillar_name stem_by_element [] (row ∷ rows) = err index_error
  hidden_entries pillar_name stem_by_element (source ∷ sources) (row ∷ rows) =
      hidden_entry pillar_name stem_by_element source row >>= λ entry.
      hidden_entries pillar_name stem_by_element sources rows >>= λ entries. ok (entry ∷ entries)

  unfoldable pub pillar_entries : Ruleset → String → Pillar → Result (List (WuxingLedgerEntry F))
  pillar_entries rules pillar_name pillar = do
    visible_stem ← element_at (get_elem? stems pillar.stem_index)
    element ← stem_element visible_stem
    branch ← element_at (get_elem? branches pillar.branch_index)
    hidden_stems ← hidden_stems_for_branch rules branch
    stem_by_element ← by_element [] hidden_stems
    legacy_rows ← rows_or_error (get (legacy_branch_hidden floats) branch)
    require (same_set (keys legacy_rows) (keys stem_by_element)) value_error
    require (leb (length legacy_rows) (length hidden_sources)) value_error
    entries ← hidden_entries pillar_name stem_by_element hidden_sources legacy_rows
    ok (visible_entry pillar_name visible_stem element ∷ entries)

  unfoldable pub build_wuxing_ledger : Ruleset → FourPillars → Result (List (WuxingLedgerEntry F))
  build_wuxing_ledger rules pillars = do
    year ← pillar_entries rules "year" pillars.year
    month ← pillar_entries rules "month" pillars.month
    day ← pillar_entries rules "day" pillars.day
    hour ← pillar_entries rules "hour" pillars.hour
    ok (year ++ month ++ day ++ hour)

  -- `values[i] += weight`
  abbrev pub add_weight : List F → ℕ → F → Result (List F)
  add_weight values i weight = do
    value ← element_at (get_elem? values i)
    ok (set values i (floats.add value weight))

  abbrev pub add_entries : List F → List (WuxingLedgerEntry F) → Result (List F)
  add_entries values [] = ok values
  add_entries values (entry ∷ entries) = item (get wuxing_index entry.element) >>= λ i.
      add_weight values i entry.weight >>= λ more. add_entries more entries

  abbrev pub no_weights : List F
  no_weights =
      floats.zero_weight ∷ floats.zero_weight ∷ floats.zero_weight ∷ floats.zero_weight
      ∷ floats.zero_weight ∷ []

  unfoldable pub wuxing_vector_from_ledger : List (WuxingLedgerEntry F) → Result (List F)
  wuxing_vector_from_ledger ledger = add_entries no_weights ledger

abbrev pub anchor_warning : String → WarningEntry
anchor_warning verification = record {
  code = day_anchor_unverified;
  subject = "ruleset";
  message =
      str_append "Day-cycle anchor is not verified (day_cycle_anchor.anchor_verification='"
        (str_append verification "').");
  evidence_ids = [];
}

abbrev pub birth_time_warning : String → WarningEntry
birth_time_warning subject = record {
  code = birth_time_unknown;
  subject = subject;
  message =
      "Birth time was flagged as not known; the hour pillar and hour-derived values are provisional.";
  evidence_ids = [];
}

-- `if test: warnings.append(entry)`
abbrev pub one_if : Bool → WarningEntry → List WarningEntry
one_if test entry = if test then entry ∷ [] else []

unfoldable pub build_warnings : Ruleset → Bool → String → List WarningEntry
build_warnings rules birth_time_known subject =
    one_if (not (rules.anchor_verification == "verified"))
      (anchor_warning rules.anchor_verification)
    ++ one_if (not birth_time_known) (birth_time_warning subject)

unfoldable pub normalize_chart :
    {F : Type 0} → Floats F → FourPillars → Bool → String → Ruleset → Result (NormalizedChart F)
normalize_chart floats pillars birth_time_known subject rules = do
  ledger ← build_wuxing_ledger floats rules pillars
  day_master ← element_at (get_elem? stems pillars.day.stem_index)
  month_master ← element_at (get_elem? stems pillars.month.stem_index)
  hour_master ← element_at (get_elem? stems pillars.hour.stem_index)
  vector ← wuxing_vector_from_ledger floats ledger
  ok (record {
    pillars = pillars;
    day_master = day_master;
    month_master_label = month_master;
    hour_master_label = hour_master;
    wuxing_ledger = ledger;
    wuxing_vector = vector;
    birth_time_known = birth_time_known;
    warnings = build_warnings rules birth_time_known subject;
  })
