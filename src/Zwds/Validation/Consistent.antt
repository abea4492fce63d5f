-- ===== src/Zwds/Validation/Consistent.antt =====
-- What an accepted chart graph is: palaces and placements that point at one another.
use fufire_api_lunar.Prelude.{
  ◌≡◌, ◌↔◌, refl, sym, ap, ◌∙◌, String, Bool, true, false, ◌&&◌, List, [], ◌∷◌, ◌++◌, map, some,
  Result, ok, err, ◌>>=◌, ◌>>◌, All, All-append, In, arith, inl, inr, eq_String, if◌then◌else◌,
}
use fufire_api_lunar.Prelude.Dict.{get, all_different}
use fufire_api_lunar.Prelude.Keys.{
  indexed, from_pairs-indexed, get-indexed, get-indexed-In, get-has,
}
use fufire_api_lunar.Zwds.Chart.{StarPlacement, PalaceOut, Completeness}
use fufire_api_lunar.Zwds.Validation.{
  fail, index_placements, index_palaces, check_placement_agreement, check_palace_set,
  check_completeness, validate_chart_graph,
}
use fufire_api_lunar.Zwds.Validation.References.{
  ids_of, references, owned, owners, all_known, check_duplicate_placements_lem,
  check_palace_references_lem,
}
use fufire_api_lunar.Zwds.Validation.Agreement.{Agreeing, check_placement_agreement_iff}
use fufire_api_lunar.Zwds.Validation.Sequence.{
  Permutation, indices_of, branches_of, check_palace_set_iff,
}
use fufire_api_lunar.Zwds.Validation.Families.{Covers, check_completeness_iff}

abbrev pub roles_of : List PalaceOut → List String
roles_of palaces = map (λ (p : PalaceOut). p.palace_role_id) palaces

-- A placement with the id `pid` stands in the role and on the branch of the palace.
abbrev pub Hosted : List StarPlacement → PalaceOut → String → Type 0
Hosted placements p pid =
    (s : StarPlacement) × In s placements
    × (s.placement_id ≡ pid)
    × (s.palace_role_id ≡ p.palace_role_id)
    × (s.branch_id ≡ p.branch_id)

pub record Consistent (ps : List PalaceOut) (ss : List StarPlacement) (c : Completeness)
    : Type 0 where
  pub placements_different : all_different (ids_of ss) ≡ true
  pub references_different : all_different (references ps) ≡ true
  pub hosted : All (λ p. All (Hosted ss p) p.placement_ids) ps
  pub sequence : Permutation (indices_of ps)
  pub branches_different : all_different (branches_of ps) ≡ true
  pub families : Covers c ss

module _ (ps : List PalaceOut) (ss : List StarPlacement)
    (different : all_different (ids_of ss) ≡ true)
    (roles : all_different (roles_of ps) ≡ true) where
  by_id : index_placements ss ≡ indexed (λ (s : StarPlacement). s.placement_id) ss
  by_id = from_pairs-indexed (λ (s : StarPlacement). s.placement_id) ss different

  by_role : index_palaces ps ≡ indexed (λ (p : PalaceOut). p.palace_role_id) ps
  by_role = from_pairs-indexed (λ (p : PalaceOut). p.palace_role_id) ps roles

  found : (p : PalaceOut) → In p ps → get (index_palaces ps) p.palace_role_id ≡ some p
  found p m = rw by_role (get-indexed-In (λ (p : PalaceOut). p.palace_role_id) ps p roles m)

  -- One claim, for a palace of the chart.
  Agreeing-Hosted :
      (p : PalaceOut) (pid : String)
      → In p ps
      → Agreeing (index_placements ss) (index_palaces ps) (pid, p.palace_role_id) ↔ Hosted ss p pid
  Agreeing-Hosted p pid m = (to, from)
    where
      to :
          Agreeing (index_placements ss) (index_palaces ps) (pid, p.palace_role_id)
          → Hosted ss p pid
      to (s, q, es, eq, role, branch) =
          let same : q ≡ p = cc (eq, found p m) in
          let at =
            get-indexed (λ (s : StarPlacement). s.placement_id) ss pid s
              (sym (ap (λ d. get d pid) by_id) ∙ es) in
          (
            s,
            at.0,
            at.1,
            role ∙ ap (λ (p : PalaceOut). p.palace_role_id) same,
            branch ∙ ap (λ (p : PalaceOut). p.branch_id) same,
          )

      from :
          Hosted ss p pid
          → Agreeing (index_placements ss) (index_palaces ps) (pid, p.palace_role_id)
      from (s, mem, key, role, branch) = (
        s,
        p,
        ap (λ d. get d pid) by_id
            ∙ ap (get _) (sym key)
            ∙ get-indexed-In (λ (s : StarPlacement). s.placement_id) ss s different mem,
        found p m,
        role,
        branch,
      )

  All-owned :
      (p : PalaceOut) (pids : List String)
      → In p ps
      → All (Agreeing (index_placements ss) (index_palaces ps)) (owned p.palace_role_id pids)
        ↔ All (Hosted ss p) pids
  All-owned p [] m = (λ h. tt, λ h. tt)
  All-owned p (pid ∷ pids) m =
      let here = Agreeing-Hosted p pid m in
      let rest = All-owned p pids m in
      (λ h. (here.0 h.0, rest.0 h.1), λ h. (here.1 h.0, rest.1 h.1))

  All-owners :
      (qs : List PalaceOut)
      → ((p : PalaceOut) → In p qs → In p ps)
      → All (Agreeing (index_placements ss) (index_palaces ps)) (owners qs)
        ↔ All (λ p. All (Hosted ss p) p.placement_ids) qs
  All-owners [] sub = (λ h. tt, λ h. tt)
  All-owners (q ∷ qs) sub =
      let parts =
        All-append (Agreeing (index_placements ss) (index_palaces ps))
          (owned q.palace_role_id q.placement_ids) (owners qs) in
      let here = All-owned q q.placement_ids (sub q (inl refl)) in
      let rest = All-owners qs (λ p m. sub p (inr m)) in
      (λ h. (here.0 (parts.0 h).0, rest.0 (parts.0 h).1), λ h. parts.1 (here.1 h.0, rest.1 h.1))

  known :
      (p : PalaceOut) (pids rest : List String)
      → All (Hosted ss p) pids
      → all_known (index_placements ss) rest ≡ true
      → all_known (index_placements ss) (pids ++ rest) ≡ true
  known p [] rest h k = k
  known p (pid ∷ pids) rest ((s, mem, key, role, branch), hs) k = rw (
    get-has (index_placements ss) pid s (
        ap (λ d. get d pid) by_id
        ∙ ap (get _) (sym key)
        ∙ get-indexed-In (λ (s : StarPlacement). s.placement_id) ss s different mem),
    known p pids rest hs k,
  )

  all_known-references :
      (qs : List PalaceOut)
      → All (λ p. All (Hosted ss p) p.placement_ids) qs
      → all_known (index_placements ss) (references qs) ≡ true
  all_known-references [] h = refl
  all_known-references (q ∷ qs) (h, hs) =
      known q q.placement_ids (references qs) h (all_known-references qs hs)

-- The validator's checks after the first two, for a verdict on each of these.
abbrev later :
    Bool
    → Bool
    → List (String × String)
    → (List (String × String) → Result (Unit {0}))
    → Result (Unit {0})
later a b owner_of next =
    (if a then ok tt else err (fail "duplicate_placement"))
    >> ((if b then ok owner_of else err (fail "palace_placement_reference")) >>= next)

later_iff :
    (a b : Bool) (owner_of : List (String × String))
    (next : List (String × String) → Result (Unit {0}))
    → (later a b owner_of next ≡ ok tt) ↔ ((a ≡ true) × (b ≡ true) × (next owner_of ≡ ok tt))
later_iff true true owner_of next = ground arith
later_iff true false owner_of next = (λ h. cc, λ h. cc)
later_iff false b owner_of next = (λ h. cc, λ h. cc)

-- The checks that follow the references.
abbrev after :
    List PalaceOut → List StarPlacement → Completeness → List (String × String) → Result (Unit {0})
after ps ss c owner_of =
    check_placement_agreement owner_of (index_placements ss) (index_palaces ps)
    >> (check_palace_set ps >> check_completeness c ss)

validate-later :
    (ps : List PalaceOut) (ss : List StarPlacement) (c : Completeness)
    → validate_chart_graph ps ss c
      ≡ later
          (all_different (ids_of ss))
          (all_known (index_placements ss) (references ps) && all_different (references ps))
          (owners ps)
          (after ps ss c)
unfolding validate_chart_graph
validate-later ps ss c =
    rw (check_duplicate_placements_lem ss, check_palace_references_lem ps (index_placements ss))

then_iff : (a b : Result (Unit {0})) → ((a >> b) ≡ ok tt) ↔ ((a ≡ ok tt) × (b ≡ ok tt))
then_iff (ok u) b = ground arith
then_iff (err e) b = (λ h. cc, λ h. cc)

-- A chart whose palaces have different roles is accepted exactly when it is consistent: placement
-- ids are different, each is referenced at most once, each reference leads to a placement on the
-- palace's branch and in its role, the sequence indices are a permutation of 0 to 11, branches are
-- different, and the completeness block states the families that are there and those that are not.
pub validate_chart_graph_iff :
    (ps : List PalaceOut) (ss : List StarPlacement) (c : Completeness)
    → all_different (roles_of ps) ≡ true
    → (validate_chart_graph ps ss c ≡ ok tt) ↔ Consistent ps ss c
validate_chart_graph_iff ps ss c roles = (sound, complete)
  where
    steps :
        (later
            (all_different (ids_of ss))
            (all_known (index_placements ss) (references ps) && all_different (references ps))
            (owners ps)
            (after ps ss c)
          ≡ ok tt)
        ↔ ((all_different (ids_of ss) ≡ true)
            × ((all_known (index_placements ss) (references ps) && all_different (references ps))
                ≡ true)
            × (after ps ss c (owners ps) ≡ ok tt))
    steps = later_iff _ _ _ (after ps ss c)

    agreement :
        (check_placement_agreement (owners ps) (index_placements ss) (index_palaces ps) ≡ ok tt)
        ↔ All (Agreeing (index_placements ss) (index_palaces ps)) (owners ps)
    agreement = check_placement_agreement_iff (owners ps) (index_placements ss) (index_palaces ps)

    sound : validate_chart_graph ps ss c ≡ ok tt → Consistent ps ss c
    sound h =
        let (different, refs, rest) = steps.0 (sym (validate-later ps ss c) ∙ h) in
        let (agreed, others) = (then_iff _ _).0 rest in
        let (set, complete) = (then_iff _ _).0 others in
        record {
          placements_different = different;
          references_different = ground arith;
          hosted = (All-owners ps ss different roles ps (λ p m. m)).0 (agreement.0 agreed);
          sequence = ((check_palace_set_iff ps).0 set).0;
          branches_different = ((check_palace_set_iff ps).0 set).1;
          families = (check_completeness_iff c ss).0 complete;
        }

    complete : Consistent ps ss c → validate_chart_graph ps ss c ≡ ok tt
    complete h =
        let known = all_known-references ps ss h.placements_different roles ps h.hosted in
        validate-later ps ss c
        ∙ steps.1 (
          h.placements_different,
          rw known h.references_different,
          (then_iff _ _).1 (
            agreement.1 ((All-owners ps ss h.placements_different roles ps (λ p m. m)).1 h.hosted),
            (then_iff _ _).1 (
              (check_palace_set_iff ps).1 (h.sequence, h.branches_different),
              (check_completeness_iff c ss).1 h.families,
            ),
          ),
        )
