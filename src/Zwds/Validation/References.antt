-- ===== src/Zwds/Validation/References.antt =====
-- The first two checks: placement ids are different, and each is referenced at most once.
use mathlib.Core.List.{append-nil, append_assoc}
use fufire_api_lunar.Prelude.{
  ◌≡◌, refl, sym, ap, ◌∙◌, String, Bool, true, false, ◌&&◌, List, [], ◌∷◌, ◌++◌, map, Result, ok,
  err, ◌>>=◌, arith, Bool-cases, inl, inr, eq_String, if◌then◌else◌,
}
use fufire_api_lunar.Prelude.Dict.{has, contains, fresh, all_different}
use fufire_api_lunar.Prelude.Keys.{keys, keys-append, fresh-append, has-contains, put-append}
use fufire_api_lunar.Zwds.Chart.{StarPlacement, PalaceOut}
use fufire_api_lunar.Zwds.Validation.{
  fail, find_duplicates, is_empty, check_duplicate_placements, claim, claim_all,
  check_palace_references,
}

abbrev pub ids_of : List StarPlacement → List String
ids_of placements = map (λ (p : StarPlacement). p.placement_id) placements

find_duplicates-found :
    (ps : List StarPlacement) (seen : List String) (d : String) (ds : List String)
    → is_empty (find_duplicates ps seen (d ∷ ds)) ≡ false
unfolding find_duplicates
find_duplicates-found [] seen d ds = refl
find_duplicates-found (p ∷ ps) seen d ds = elim (Bool-cases (contains seen p.placement_id)) [
  | inl t ↦ rw t (elim (Bool-cases (contains (d ∷ ds) p.placement_id)) [
    | inl u ↦ rw u (find_duplicates-found ps seen d ds)
    | inr u ↦ rw u (find_duplicates-found ps seen d (ds ++ p.placement_id ∷ []))
  ])
  | inr f ↦ rw f (find_duplicates-found ps (seen ++ p.placement_id ∷ []) d ds)
]

find_duplicates-fresh :
    (ps : List StarPlacement) (seen : List String)
    → is_empty (find_duplicates ps seen []) ≡ fresh seen (ids_of ps)
unfolding find_duplicates
find_duplicates-fresh [] seen = refl
find_duplicates-fresh (p ∷ ps) seen = elim (Bool-cases (contains seen p.placement_id)) [
  | inl t ↦ rw t (find_duplicates-found ps seen p.placement_id [])
  | inr f ↦ rw f (find_duplicates-fresh ps (seen ++ p.placement_id ∷ []))
]

pub check_duplicate_placements_lem :
    (ps : List StarPlacement)
    → check_duplicate_placements ps
      ≡ (if all_different (ids_of ps) then ok tt else err (fail "duplicate_placement"))
unfolding check_duplicate_placements
check_duplicate_placements_lem ps = rw (find_duplicates-fresh ps [])

-- The ids that the palaces reference, in order, and the palace role for each.
abbrev pub references : List PalaceOut → List String
references [] = []
references (p ∷ ps) = p.placement_ids ++ references ps

abbrev pub owned : String → List String → List (String × String)
owned role pids = map (λ pid. (pid, role)) pids

abbrev pub owners : List PalaceOut → List (String × String)
owners [] = []
owners (p ∷ ps) = owned p.palace_role_id p.placement_ids ++ owners ps

abbrev pub all_known : List (String × StarPlacement) → List String → Bool
all_known by_id [] = true
all_known by_id (pid ∷ pids) = has by_id pid && all_known by_id pids

all_known-append :
    (by_id : List (String × StarPlacement)) (xs ys : List String)
    → all_known by_id (xs ++ ys) ≡ (all_known by_id xs && all_known by_id ys)
all_known-append by_id [] ys = refl
all_known-append by_id (x ∷ xs) ys = ground (arith, all_known-append by_id xs ys)

keys-owned : (role : String) (pids : List String) → keys (owned role pids) ≡ pids
keys-owned role [] = refl
keys-owned role (x ∷ xs) = ap (λ l. x ∷ l) (keys-owned role xs)

-- What the reference check returns: an error, or what was there before with the new claims.
abbrev verdict : Bool → List (String × String) → Result (List (String × String))
verdict good owner_of = if good then ok owner_of else err (fail "palace_placement_reference")

claim_lem :
    (by_id : List (String × StarPlacement)) (role : String) (pids : List String)
    (owner_of : List (String × String))
    → claim by_id role pids owner_of
      ≡ verdict (all_known by_id pids && fresh (keys owner_of) pids) (owner_of ++ owned role pids)
unfolding claim
claim_lem by_id role [] owner_of = ap ok (sym (append-nil owner_of))
claim_lem by_id role (pid ∷ pids) owner_of = elim (Bool-cases (has by_id pid)) [
  | inr f ↦ rw f
  | inl t ↦ elim (Bool-cases (has owner_of pid)) [
    | inl u ↦
        rw (t, u, sym (has-contains owner_of pid))
          (elim (Bool-cases (all_known by_id pids)) [ inl a ↦ rw (a, u) | inr a ↦ rw a ])
    | inr u ↦
        rw
          (
            t,
            u,
            put-append owner_of pid role u,
            claim_lem by_id role pids (owner_of ++ (pid, role) ∷ []),
            keys-append owner_of ((pid, role) ∷ []),
            sym (has-contains owner_of pid),
            append_assoc owner_of ((pid, role) ∷ []) (owned role pids),
          )
          (rw u)
  ]
]

bind_verdict :
    (good rest : Bool) (x y : List (String × String))
    (next : List (String × String) → Result (List (String × String)))
    → next x ≡ verdict rest y
    → (verdict good x >>= next) ≡ verdict (good && rest) y
bind_verdict true rest x y next h = h
bind_verdict false rest x y next h = refl

and_swap : (a b c d : Bool) → ((a && b) && (c && d)) ≡ ((a && c) && (b && d))
and_swap a b c d = ground arith

claim_all_lem :
    (by_id : List (String × StarPlacement)) (ps : List PalaceOut)
    (owner_of : List (String × String))
    → claim_all by_id ps owner_of
      ≡ verdict
          (all_known by_id (references ps) && fresh (keys owner_of) (references ps))
          (owner_of ++ owners ps)
unfolding claim_all
claim_all_lem by_id [] owner_of = ap ok (sym (append-nil owner_of))
claim_all_lem by_id (p ∷ ps) owner_of =
    rw
      (
        claim_lem by_id p.palace_role_id p.placement_ids owner_of,
        all_known-append by_id p.placement_ids (references ps),
        fresh-append (keys owner_of) p.placement_ids (references ps),
      )
      (bind_verdict (all_known by_id p.placement_ids && fresh (keys owner_of) p.placement_ids)
          (all_known by_id (references ps)
            && fresh (keys owner_of ++ p.placement_ids) (references ps))
          (owner_of ++ owned p.palace_role_id p.placement_ids) (owner_of ++ owners (p ∷ ps)) _
          (rw (
            claim_all_lem by_id ps (owner_of ++ owned p.palace_role_id p.placement_ids),
            keys-append owner_of (owned p.palace_role_id p.placement_ids),
            keys-owned p.palace_role_id p.placement_ids,
            append_assoc owner_of (owned p.palace_role_id p.placement_ids) (owners ps),
          ))
        ∙ ap (λ good. verdict good (owner_of ++ owners (p ∷ ps)))
            (and_swap (all_known by_id p.placement_ids) (fresh (keys owner_of) p.placement_ids)
              (all_known by_id (references ps))
              (fresh (keys owner_of ++ p.placement_ids) (references ps))))

pub check_palace_references_lem :
    (ps : List PalaceOut) (by_id : List (String × StarPlacement))
    → check_palace_references ps by_id ≡ (
        if all_known by_id (references ps) && all_different (references ps)
        then ok (owners ps)
        else err (fail "palace_placement_reference"))
unfolding check_palace_references
check_palace_references_lem ps by_id = claim_all_lem by_id ps []
