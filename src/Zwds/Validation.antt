-- ===== src/Zwds/Validation.antt =====
-- bazi_engine/zwds/validation.py: the graph checks of an assembled chart. A failed check raises the
-- error with the invariant's name; what else the code puts in `detail` is left out.
pub mod References
pub mod Agreement
pub mod Sequence
pub mod Families
pub mod Consistent
use fufire_api_lunar.Prelude.{
  ℕ, zero, suc, ◌+◌, String, Bool, true, false, not, ◌&&◌, leb, List, [], ◌∷◌, map, Option, none,
  some, length, Result, ok, err, ◌>>=◌, ◌>>◌, require, key_error, Error, graph_invariant_failed,
  ◌==◌, eq_ℕ, eq_String, if◌then◌else◌,
}
use fufire_api_lunar.Prelude.Dict.{
  get, put, has, from_pairs, contains, add, to_set, same_set, difference,
}
use fufire_api_lunar.Zwds.Chart.{StarPlacement, PalaceOut, Completeness}

-- `_fail`
abbrev pub fail : String → Error
fail invariant = graph_invariant_failed invariant

-- The loop of `_check_duplicate_placements`, with the sets `seen` and `duplicates`.
unfoldable pub find_duplicates : List StarPlacement → List String → List String → List String
find_duplicates [] seen duplicates = duplicates
find_duplicates (placement ∷ placements) seen duplicates =
    find_duplicates placements (add seen placement.placement_id) (
      if contains seen placement.placement_id
      then add duplicates placement.placement_id
      else duplicates)

abbrev pub is_empty : List String → Bool
is_empty [] = true
is_empty (x ∷ xs) = false

unfoldable pub check_duplicate_placements : List StarPlacement → Result (Unit {0})
check_duplicate_placements placements =
    require (is_empty (find_duplicates placements [] [])) (fail "duplicate_placement")

-- The inner loop of `_check_palace_references`, over the ids that the palace with `role` lists.
unfoldable pub claim :
    List (String × StarPlacement)
    → String
    → List String
    → List (String × String)
    → Result (List (String × String))
claim placement_by_id role [] owner_of = ok owner_of
claim placement_by_id role (pid ∷ pids) owner_of =
    require (has placement_by_id pid) (fail "palace_placement_reference")
    >> require (not (has owner_of pid)) (fail "palace_placement_reference")
    >> claim placement_by_id role pids (put owner_of pid role)

-- The outer loop, over the palaces.
unfoldable pub claim_all :
    List (String × StarPlacement)
    → List PalaceOut
    → List (String × String)
    → Result (List (String × String))
claim_all placement_by_id [] owner_of = ok owner_of
claim_all placement_by_id (palace ∷ palaces) owner_of =
    claim placement_by_id palace.palace_role_id palace.placement_ids owner_of >>= λ owners.
    claim_all placement_by_id palaces owners

unfoldable pub check_palace_references :
    List PalaceOut → List (String × StarPlacement) → Result (List (String × String))
check_palace_references palaces placement_by_id = claim_all placement_by_id palaces []

-- d[k]
abbrev pub item : {V : Type 0} → Option V → Result V
item none = err key_error
item (some v) = ok v

-- The body of the loop of `_check_placement_agreement`.
unfoldable pub agree : StarPlacement → PalaceOut → Result (Unit {0})
agree placement palace =
    require (placement.palace_role_id == palace.palace_role_id)
      (fail "placement_palace_disagreement")
    >> require (placement.branch_id == palace.branch_id) (fail "placement_palace_disagreement")

-- `for pid, role in owner_of.items()`
unfoldable pub check_placement_agreement :
    List (String × String)
    → List (String × StarPlacement)
    → List (String × PalaceOut)
    → Result (Unit {0})
check_placement_agreement [] placement_by_id palace_by_role = ok tt
check_placement_agreement ((pid, role) ∷ owner_of) placement_by_id palace_by_role = do
  placement ← item (get placement_by_id pid)
  palace ← item (get palace_by_role role)
  agree placement palace
  check_placement_agreement owner_of placement_by_id palace_by_role

-- `sorted`, on numbers.
abbrev pub insert : ℕ → List ℕ → List ℕ
insert a [] = a ∷ []
insert a (x ∷ xs) = if leb a x then a ∷ x ∷ xs else x ∷ insert a xs

abbrev pub sorted : List ℕ → List ℕ
sorted [] = []
sorted (x ∷ xs) = insert x (sorted xs)

-- `a == b`, of lists of numbers
abbrev pub same_list : List ℕ → List ℕ → Bool
same_list [] [] = true
same_list (x ∷ xs) (y ∷ ys) = x == y && same_list xs ys
same_list _ _ = false

abbrev pub range_12 : List ℕ
range_12 = 0 ∷ 1 ∷ 2 ∷ 3 ∷ 4 ∷ 5 ∷ 6 ∷ 7 ∷ 8 ∷ 9 ∷ 10 ∷ 11 ∷ []

unfoldable pub check_palace_set : List PalaceOut → Result (Unit {0})
check_palace_set palaces = do
  require (same_list (sorted (map (λ (p : PalaceOut). p.sequence_index_0) palaces)) range_12)
      (fail "palace_set")
  let branch_ids = map (λ (p : PalaceOut). p.branch_id) palaces
  require (length (to_set branch_ids) == length branch_ids) (fail "palace_set")

unfoldable pub check_completeness : Completeness → List StarPlacement → Result (Unit {0})
check_completeness completeness placements = do
  let declared_families = to_set completeness.ruleset_declared_families
  let stated_emitted = to_set completeness.emitted_families
  let stated_missing = to_set completeness.missing_families
  let actual_emitted = to_set (map (λ (p : StarPlacement). p.family_id) placements)
  require (same_set stated_emitted actual_emitted) (fail "completeness_families")
  let expected_missing = difference declared_families actual_emitted
  require (same_set stated_missing expected_missing) (fail "completeness_families")

-- `{p["placement_id"]: p for p in placements}`
abbrev pub index_placements : List StarPlacement → List (String × StarPlacement)
index_placements placements =
    from_pairs (map (λ (p : StarPlacement). (p.placement_id, p)) placements)

-- `{palace["palace_role_id"]: palace for palace in palaces}`
abbrev pub index_palaces : List PalaceOut → List (String × PalaceOut)
index_palaces palaces = from_pairs (map (λ (p : PalaceOut). (p.palace_role_id, p)) palaces)

-- `validate_chart_graph`, on the three parts of the chart that it reads.
unfoldable pub validate_chart_graph :
    List PalaceOut → List StarPlacement → Completeness → Result (Unit {0})
validate_chart_graph palaces placements completeness = do
  check_duplicate_placements placements
  let placement_by_id = index_placements placements
  owner_of ← check_palace_references palaces placement_by_id
  let palace_by_role = index_palaces palaces
  check_placement_agreement owner_of placement_by_id palace_by_role
  check_palace_set palaces
  check_completeness completeness placements
