-- ===== src/Zwds/Validation/Agreement.antt =====
-- The third check: a placement agrees with the palace that references it.
use fufire_api_lunar.Prelude.{
  ◌≡◌, ◌↔◌, refl, String, List, [], ◌∷◌, Option, none, some, Result, ok, ◌>>=◌, ◌>>◌, All, arith,
  eq_String,
}
use fufire_api_lunar.Prelude.Dict.{get}
use fufire_api_lunar.Zwds.Chart.{StarPlacement, PalaceOut}
use fufire_api_lunar.Zwds.Validation.{item, agree, check_placement_agreement}

-- A claim by the two indices: the placement found for the id is on the branch and in the role of
-- the palace found for the role.
abbrev pub Agreeing :
    List (String × StarPlacement) → List (String × PalaceOut) → String × String → Type 0
Agreeing by_id by_role (pid, role) =
    (s : StarPlacement) × (p : PalaceOut) × (get by_id pid ≡ some s)
    × (get by_role role ≡ some p)
    × (s.palace_role_id ≡ p.palace_role_id)
    × (s.branch_id ≡ p.branch_id)

agree_iff :
    (s : StarPlacement) (p : PalaceOut)
    → (agree s p ≡ ok tt) ↔ ((s.palace_role_id ≡ p.palace_role_id) × (s.branch_id ≡ p.branch_id))
unfolding agree
agree_iff s p = ground (
  arith,
  eq_String.beq_iff s.palace_role_id p.palace_role_id,
  eq_String.beq_iff s.branch_id p.branch_id,
)

-- The body of the loop, and what follows.
abbrev checked : Option StarPlacement → Option PalaceOut → Result (Unit {0}) → Result (Unit {0})
checked s p rest = item s >>= λ s. item p >>= λ p. agree s p >> rest

checked_iff :
    (s : Option StarPlacement) (p : Option PalaceOut) (rest : Result (Unit {0}))
    → (checked s p rest ≡ ok tt) ↔ (
        ((t : StarPlacement) × (q : PalaceOut) × (s ≡ some t)
          × (p ≡ some q)
          × (t.palace_role_id ≡ q.palace_role_id)
          × (t.branch_id ≡ q.branch_id))
        × (rest ≡ ok tt))
checked_iff none p rest = (λ h. cc, λ h. cc)
checked_iff (some t) none rest = (λ h. cc, λ h. cc)
checked_iff (some t) (some q) rest = (
  λ h.
      let good = agree_then.0 h in
      let fields = (agree_iff t q).0 good.0 in ((t, q, refl, refl, fields.0, fields.1), good.1),
  λ h.
      let (t2, q2, et, eq, role, branch) = h.0 in
      agree_then.1 ((agree_iff t q).1 (cc (et, eq, role), cc (et, eq, branch)), h.1),
)
  where
    agree_then : ((agree t q >> rest) ≡ ok tt) ↔ ((agree t q ≡ ok tt) × (rest ≡ ok tt))
    agree_then = ground arith

pub check_placement_agreement_iff :
    (owner_of : List (String × String)) (by_id : List (String × StarPlacement))
    (by_role : List (String × PalaceOut))
    → (check_placement_agreement owner_of by_id by_role ≡ ok tt)
      ↔ All (Agreeing by_id by_role) owner_of
unfolding check_placement_agreement
check_placement_agreement_iff [] by_id by_role = (λ h. tt, λ h. refl)
check_placement_agreement_iff ((pid, role) ∷ owner_of) by_id by_role =
    let here =
      checked_iff (get by_id pid) (get by_role role)
        (check_placement_agreement owner_of by_id by_role) in
    let rest = check_placement_agreement_iff owner_of by_id by_role in
    (λ h. ((here.0 h).0, rest.0 (here.0 h).1), λ h. here.1 (h.0, rest.1 h.1))
