-- ===== src/Zwds/Validation/Families.antt =====
-- The completeness block: its families are those of the placements.
use fufire_api_lunar.Prelude.{
  ◌≡◌, ◌↔◌, sym, ◌∙◌, String, not, ◌&&◌, List, map, ok, require_iff, require_then_iff, eq_String,
}
use fufire_api_lunar.Prelude.Dict.{contains, to_set, difference}
use fufire_api_lunar.Prelude.Keys.{contains-to_set, contains-difference, same_set_iff}
use fufire_api_lunar.Zwds.Chart.{StarPlacement, Completeness}
use fufire_api_lunar.Zwds.Validation.{fail, check_completeness}

abbrev pub families_of : List StarPlacement → List String
families_of placements = map (λ (p : StarPlacement). p.family_id) placements

-- The stated families are the placements', and the missing ones are the declared ones without them.
pub record Covers (c : Completeness) (placements : List StarPlacement) : Type 0 where
  pub emitted : (f : String) → contains c.emitted_families f ≡ contains (families_of placements) f
  pub missing :
      (f : String)
      → contains c.missing_families f
        ≡ (contains c.ruleset_declared_families f && not (contains (families_of placements) f))

pub check_completeness_iff :
    (c : Completeness) (placements : List StarPlacement)
    → (check_completeness c placements ≡ ok tt) ↔ Covers c placements
unfolding check_completeness
check_completeness_iff c placements =
    let declared = c.ruleset_declared_families in
    let actual = to_set (families_of placements) in
    let emitted_test = same_set_iff (to_set c.emitted_families) actual in
    let missing_test =
      same_set_iff (to_set c.missing_families) (difference (to_set declared) actual) in
    let at : (xs : List String) (f : String) → contains (to_set xs) f ≡ contains xs f =
      contains-to_set in
    let rest : (f : String)
        → contains (difference (to_set declared) actual) f
          ≡ (contains declared f && not (contains (families_of placements) f)) =
      λ f. rw (
        contains-difference (to_set declared) actual f,
        at declared f,
        at (families_of placements) f,
      ) in
    (
      λ h.
          let checks = (require_then_iff _ (fail "completeness_families") _).0 h in
          record {
            emitted = λ f.
                sym (at c.emitted_families f)
                ∙ emitted_test.0 checks.0 f
                ∙ at (families_of placements) f;
            missing = λ f.
                sym (at c.missing_families f)
                ∙ missing_test.0 ((require_iff _ (fail "completeness_families")).0 checks.1) f
                ∙ rest f;
          },
      λ h. (require_then_iff _ (fail "completeness_families") _).1 (
        emitted_test.1
            (λ f. at c.emitted_families f ∙ h.emitted f ∙ sym (at (families_of placements) f)),
        (require_iff _ (fail "completeness_families")).1
            (missing_test.1 (λ f. at c.missing_families f ∙ h.missing f ∙ sym (rest f))),
      ),
    )
