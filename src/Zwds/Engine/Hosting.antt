-- ===== src/Zwds/Engine/Hosting.antt =====
-- Palaces and stars meet on the branches of the ring, and the completeness block covers the stars.
use fufire_api_lunar.Prelude.{
  ℕ, ◌≡◌, refl, sym, ap, ◌∙◌, String, true, not, ◌&&◌, List, [], ◌∷◌, map, arith, ◌==◌, eq_ℕ,
  eq_String, beq_eq, Bool-cases, inl, inr, In, All,
}
use fufire_api_lunar.Prelude.Dict.{contains, to_set, is_subset}
use fufire_api_lunar.Prelude.Keys.{contains-to_set, is_subset_iff}
use fufire_api_lunar.Zwds.Domain.Branch
use fufire_api_lunar.Zwds.Stars.Placed.{StarBranch}
use fufire_api_lunar.Zwds.Chart.{StarPlacement, PalaceOut}
use fufire_api_lunar.Zwds.Validation.Families.{families_of, Covers}
use fufire_api_lunar.Zwds.Validation.Consistent.{Hosted}
use fufire_api_lunar.Zwds.Engine.{Output, those_in, those_not_in, build_completeness}
use fufire_api_lunar.Zwds.Engine.Placing.{placed, ids_at}

module _ (tx_by_star : List (String × List String)) (statuses : List (String × String))
    (role : ℕ → String) where
  abbrev pub all_placed : List StarBranch → List StarPlacement
  all_placed stars = map (λ star. placed tx_by_star statuses (role star.branch_index) star) stars

  -- The ids on a palace's branch are those of placements in its role and on its branch.
  pub ids_at-Hosted :
      (p : PalaceOut) (b : ℕ) (stars rest : List StarBranch)
      → p.palace_role_id ≡ role b
      → p.branch_id ≡ Branch.name (Branch.member_at b)
      → ((s : StarPlacement) → In s (all_placed rest) → In s (all_placed stars))
      → All (Hosted (all_placed stars) p) (ids_at b rest)
  ids_at-Hosted p b stars [] hr hb sub = tt
  ids_at-Hosted p b stars (star ∷ rest) hr hb sub = elim (Bool-cases (star.branch_index == b)) [
    | inl t ↦
        let same = beq_eq star.branch_index b t in
        rw t (
          (
            placed tx_by_star statuses (role star.branch_index) star,
            sub _ (inl refl),
            refl,
            ap role same ∙ sym hr,
            ap (λ i. Branch.name (Branch.member_at i)) same ∙ sym hb,
          ),
          ids_at-Hosted p b stars rest hr hb (λ s m. sub s (inr m)),
        )
    | inr f ↦ rw f (ids_at-Hosted p b stars rest hr hb (λ s m. sub s (inr m)))
  ]

  families-placed :
      (stars : List StarBranch)
      → families_of (all_placed stars) ≡ map (λ (s : StarBranch). s.family_id) stars
  families-placed [] = refl
  families-placed (s ∷ ss) = ap (λ l. s.family_id ∷ l) (families-placed ss)

  contains-those_in :
      (emitted declared : List String) (f : String)
      → contains (those_in emitted declared) f ≡ (contains declared f && contains emitted f)
  contains-those_in emitted [] f = refl
  contains-those_in emitted (d ∷ ds) f = elim (Bool-cases (d == f)) [
    | inl t ↦ rw (beq_eq d f t) (ground (arith, contains-those_in emitted ds f))
    | inr u ↦ ground (arith, contains-those_in emitted ds f)
  ]

  contains-those_not_in :
      (emitted declared : List String) (f : String)
      → contains (those_not_in emitted declared) f
        ≡ (contains declared f && not (contains emitted f))
  contains-those_not_in emitted [] f = refl
  contains-those_not_in emitted (d ∷ ds) f = elim (Bool-cases (d == f)) [
    | inl t ↦ rw (beq_eq d f t) (ground (arith, contains-those_not_in emitted ds f))
    | inr u ↦ ground (arith, contains-those_not_in emitted ds f)
  ]

  -- The block covers the placements where every star's family is declared.
  pub build_completeness-Covers :
      (output : Output) (declared : List String) (stars : List StarBranch)
      → is_subset (map (λ (s : StarBranch). s.family_id) stars) declared ≡ true
      → Covers (build_completeness output declared stars) (all_placed stars)
  unfolding build_completeness
  build_completeness-Covers output declared stars h =
      let fams = map (λ (s : StarBranch). s.family_id) stars in
      let known = (is_subset_iff fams declared).0 h in
      record {
        emitted = λ f.
            rw
              (
                families-placed stars,
                contains-those_in (to_set fams) declared f,
                contains-to_set fams f,
              )
              (let there : contains fams f ≡ true → contains declared f ≡ true = known f in
                ground (arith, there));
        missing = λ f. rw (
          families-placed stars,
          contains-those_not_in (to_set fams) declared f,
          contains-to_set fams f,
        );
      }
