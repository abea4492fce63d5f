-- ===== src/Match/Service/Evident.antt =====
-- The endpoint returns a response in which every statement has its evidence.
use fufire_api_lunar.Prelude.{
  ◌≡◌, ◌⊎◌, ◌<◌, refl, sym, ◌∙◌, inl, inr, ℕ, true, false, List, ◌++◌, ok, err, eq_String,
  http_exception, blocked_language, get_or,
}
use fufire_api_lunar.Prelude.Dict.{same_set}
use fufire_api_lunar.Prelude.Keys.{unrepeated}
use fufire_api_lunar.Match.Values.{WarningEntry, FourPillars}
use fufire_api_lunar.Match.Ruleset.{stems, Floats, standard_bazi_2026}
use fufire_api_lunar.Match.TenGods.{stem_element}
use fufire_api_lunar.Match.TenGods.Agreement.{on_elements, ten_god_for_stems-Agreement}
use fufire_api_lunar.Match.Returns.{Returns}
use fufire_api_lunar.Match.Normalize.Total.{AllInRange, normalize_chart-Normal}
use fufire_api_lunar.Match.Individual.{IndividualAnalysis}
use fufire_api_lunar.Match.Individual.Total.{Accepted, analyze_individual-total}
use fufire_api_lunar.Match.Pair.{
  PairAnalysis, classify_day_master_relation, day_master_comparison, analyze_pair,
}
use fufire_api_lunar.Match.Guard.{Python}
use fufire_api_lunar.Match.Text.Outcome.{references}
use fufire_api_lunar.Match.Evidence.Covers.{ids}
use fufire_api_lunar.Match.Evidence.Complete.{pair_of, pair_evidence}
use fufire_api_lunar.Match.Service.{
  Person, MatchResponse, dedupe_warnings, with_text, analyze_match, match_bazi_hehun_endpoint,
}

-- A person whose pillars are computed and in range, with a gender that is accepted or none.
pub record Computed (person : Person) : Type 0 where
  pub pillars : FourPillars
  pub computed : person.computed ≡ ok pillars
  pub in_range : AllInRange pillars
  pub accepted : Accepted person.gender

-- The element of the day master of an analysis.
abbrev ElementOf : {F : Type 0} → ℕ → IndividualAnalysis F → Type 0
ElementOf d analysis = stem_element (get_or stems d "") ≡ ok analysis.day_master_element

module _ {F : Type 0} (floats : Floats F) (python : Python F) where
  analyze_pair-total :
      (d t : ℕ) (a b : IndividualAnalysis F)
      → d < 10
      → t < 10
      → ElementOf d a
      → ElementOf t b
      → (pair : PairAnalysis F) × (analyze_pair a b ≡ ok pair)
  unfolding analyze_pair day_master_comparison
  analyze_pair-total d t a b h k ea eb =
      let agreed = ten_god_for_stems-Agreement d t h k in
      let elements : on_elements classify_day_master_relation (get_or stems d "")
            (get_or stems t "")
          ≡ classify_day_master_relation a.day_master_element b.day_master_element =
        rw (ea, eb) refl in
      let classified = sym elements ∙ agreed.by_pair in
      (pair_of python a b agreed.pair, rw (analyze_pair, day_master_comparison, classified) refl)

  -- What the response is to have.
  abbrev Evident : MatchResponse F → Type 0
  Evident response =
      (unrepeated (ids response.evidence_ledger) ≡ true)
      × (same_set (references response.raw_analysis_text) (ids response.evidence_ledger) ≡ true)

  with_text-Evident :
      (a b : IndividualAnalysis F) (pair : PairAnalysis F) (ws : List WarningEntry)
      → analyze_pair a b ≡ ok pair
      → (with_text floats python standard_bazi_2026 a b pair ws ≡ err blocked_language)
        ⊎ Returns (with_text floats python standard_bazi_2026 a b pair ws) Evident
  with_text-Evident a b pair ws h = elim (pair_evidence python a b pair ws h) [
    | inl e ↦ inl (rw e refl)
    | inr (inl (blocks, b, e)) ↦ inl (rw (b, e) refl)
    | inr (inr (blocks, ledger, e, f, once, same)) ↦
        let response : MatchResponse F = record {
          person_a = a;
          person_b = b;
          pair = pair;
          raw_analysis_text = blocks;
          warnings = ws;
          evidence_ledger = ledger;
        } in
        inr (response, rw (e, f) refl, (once, same))
  ]

  analyze_match-Evident :
      (a b : Person)
      → Computed a
      → Computed b
      → (analyze_match floats python standard_bazi_2026 a b ≡ err blocked_language)
        ⊎ Returns (analyze_match floats python standard_bazi_2026 a b) Evident
  unfolding analyze_match
  analyze_match-Evident a b va vb =
      let (chart_a, ca, na) =
        normalize_chart-Normal floats va.pillars a.birth_time_known "person_a" va.in_range in
      let (chart_b, cb, nb) =
        normalize_chart-Normal floats vb.pillars b.birth_time_known "person_b" vb.in_range in
      let (ia, ea, la) =
        analyze_individual-total chart_a "person_a" a.gender va.pillars va.in_range na
          va.accepted in
      let (ib, eb, lb) =
        analyze_individual-total chart_b "person_b" b.gender vb.pillars vb.in_range nb
          vb.accepted in
      let (pair, p) =
        analyze_pair-total va.pillars.day.stem_index vb.pillars.day.stem_index ia ib
          va.in_range.day.stem vb.in_range.day.stem la lb in
      rw (analyze_match, va.computed, vb.computed, ca, cb, ea, eb, p)
        (with_text-Evident ia ib pair (dedupe_warnings (chart_a.warnings ++ chart_b.warnings)) p)

-- For two persons whose pillars are computed and in range and whose genders, if given, are accepted, a
-- request with consent is answered under the shipped ruleset: by the error on blocked language, or by a
-- response in whose ledger no id occurs twice, and the ids of the entries are just the evidence ids
-- that the text blocks refer to. A request of these persons without consent is answered by 422.
pub match_bazi_hehun_endpoint-Evident :
    {F : Type 0} (floats : Floats F) (python : Python F) (a b : Person)
    → Computed a
    → Computed b
    → ((match_bazi_hehun_endpoint floats python standard_bazi_2026 true a b ≡ err blocked_language)
        ⊎ ((response : MatchResponse F) × (match_bazi_hehun_endpoint floats python
                standard_bazi_2026 true a b
              ≡ ok response)
            × (unrepeated (ids response.evidence_ledger) ≡ true)
            × (same_set (references response.raw_analysis_text) (ids response.evidence_ledger)
                ≡ true)))
      × (match_bazi_hehun_endpoint floats python standard_bazi_2026 false a b
          ≡ err (http_exception 422 "consent_required"))
unfolding match_bazi_hehun_endpoint
match_bazi_hehun_endpoint-Evident floats python a b va vb = (
  elim (analyze_match-Evident floats python a b va vb) [
    | inl e ↦ inl (rw (match_bazi_hehun_endpoint, e) refl)
    | inr (response, e, (once, same)) ↦
        inr (response, rw (match_bazi_hehun_endpoint, e) refl, once, same)
  ],
  refl,
)
