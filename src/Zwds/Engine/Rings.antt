-- ===== src/Zwds/Engine/Rings.antt =====
-- The ring of palaces with the ids of the stars on it.
use fufire_api_lunar.Prelude.{
  ℕ, ◌+◌, ◌-◌, ◌%◌, ◌≤◌, ◌<◌, ◌≡◌, refl, sym, ap, ◌∙◌, String, true, List, [], ◌∷◌, map, ok, All,
  ◌▸◌, arith, eq_ℕ, eq_String, beq_self, all_below, all_below_sound,
}
use fufire_api_lunar.Prelude.Int.{ℤ, pos, ◌-ℤ◌}
use fufire_api_lunar.Prelude.Dict.{all_different}
use fufire_api_lunar.Prelude.Keys.{unrepeated, unrepeated-fresh, fresh-unrepeated}
use fufire_api_lunar.Zwds.Domain.Modulo.{mod12, mod12-lt}
use fufire_api_lunar.Zwds.Domain.Stem
use fufire_api_lunar.Zwds.Domain.Branch
use fufire_api_lunar.Zwds.Bureau.{Bureau, five_elements_bureau}
use fufire_api_lunar.Zwds.Bureau.Laws.{parity_iff, five_elements_bureau-ok}
use fufire_api_lunar.Zwds.Palace.{Palace, palace_roles}
use fufire_api_lunar.Zwds.Palace.Ring.{ring_branch, seated, ring_from}
use fufire_api_lunar.Zwds.Palace.Layout.{ring-Complete}
use fufire_api_lunar.Zwds.Stars.Placed.{StarBranch}
use fufire_api_lunar.Zwds.Decadal.{branch_to_role, role_at}
use fufire_api_lunar.Zwds.Decadal.Walk.{role_of, branch_to_role-ring}
use fufire_api_lunar.Zwds.Chart.{PalaceOut}
use fufire_api_lunar.Zwds.Validation.References.{references}
use fufire_api_lunar.Zwds.Validation.Sequence.{branches_of}
use fufire_api_lunar.Zwds.Validation.Consistent.{Hosted}
use fufire_api_lunar.Zwds.Engine.{first_ming, palace_out}
use fufire_api_lunar.Zwds.Engine.Placing.{noted, noted-ids_at}
use fufire_api_lunar.Zwds.Engine.Spread.{placement_ids_of, spread, unrepeated-spread}
use fufire_api_lunar.Zwds.Engine.Hosting.{all_placed, ids_at-Hosted}

-- The role on a branch, for a Ming branch.
abbrev pub role_on : ℕ → ℕ → String
role_on ming_b b = role_of ((ming_b + 12 - b) % 12)

pub role_at-ring :
    (ming_b shen_b : ℕ) (y_s : ℤ)
    → ming_b < 12
    → (b : ℕ) → b < 12
    → role_at (branch_to_role (ring_from ming_b shen_b y_s 0 palace_roles)) b
      ≡ ok (role_on ming_b b)
unfolding role_at
role_at-ring ming_b shen_b y_s h b k = rw (branch_to_role-ring ming_b shen_b y_s b h k)

ring_start : (ming_b : ℕ) → ming_b < 12 → ring_branch ming_b 0 ≡ ming_b
unfolding mod12 ◌-ℤ◌
ring_start ming_b h = ground arith

pub first_ming-ring :
    (ming_b shen_b : ℕ) (y_s : ℤ)
    → ming_b < 12
    → first_ming (ring_from ming_b shen_b y_s 0 palace_roles)
      ≡ ok (seated ming_b shen_b y_s 0 "MING")
unfolding first_ming
first_ming-ring ming_b shen_b y_s h = rw (ring_start ming_b h, beq_self ming_b)

-- The Ming palace has a bureau, with a number from 2 to 6.
pub ming_bureau :
    (ming_b shen_b : ℕ) (y_s : ℤ)
    → ming_b < 12
    → let p = seated ming_b shen_b y_s 0 "MING" in
      (u : Bureau) × (five_elements_bureau
          (pos (Stem.value p.stem_id))
          (pos (Branch.value p.branch_id))
        ≡ ok u)
      × (2 ≤ u.number)
      × (u.number ≤ 6)
ming_bureau ming_b shen_b y_s h =
    five_elements_bureau-ok _ _
      ((parity_iff _ _).1 (ring-Complete ming_b shen_b y_s h).placed.0.parity)

-- Each palace of the ring has the role that its branch is looked up with.
steps_back : (m i : ℕ) → m < 12 → i < 12 → (m + 12 - ring_branch m i) % 12 ≡ i
unfolding mod12 ◌-ℤ◌
steps_back m i hm hi = ground arith

pub ring-role_on :
    (ming_b shen_b : ℕ) (y_s : ℤ)
    → ming_b < 12
    → All
        (λ (p : Palace). p.palace_role_id ≡ role_on ming_b (Branch.value p.branch_id))
        (ring_from ming_b shen_b y_s 0 palace_roles)
ring-role_on ming_b shen_b y_s h =
    at 0 (omega arith)
    ▸ at 1 (omega arith)
    ▸ at 2 (omega arith)
    ▸ at 3 (omega arith)
    ▸ at 4 (omega arith)
    ▸ at 5 (omega arith)
    ▸ at 6 (omega arith)
    ▸ at 7 (omega arith)
    ▸ at 8 (omega arith)
    ▸ at 9 (omega arith)
    ▸ at 10 (omega arith)
    ▸ at 11 (omega arith)
    ▸ tt
  where
    at :
        (i : ℕ)
        → i < 12
        → role_of i ≡ role_on ming_b (Branch.value (Branch.member_at (ring_branch ming_b i)))
    at i k =
        rw (Branch.value-member_at (ring_branch ming_b i) (mod12-lt _), steps_back ming_b i h k)

abbrev names_from : ℕ → ℕ → List String → List String
names_from ming_b i [] = []
names_from ming_b i (role ∷ roles) =
    Branch.name (Branch.member_at (ring_branch ming_b i)) ∷ names_from ming_b (i + 1) roles

names_test : all_below 12 (λ m. all_different (names_from m 0 palace_roles)) ≡ true
unfolding all_below mod12 ◌-ℤ◌ Branch.member_at
names_test = refl

names_of :
    (by_branch : List (ℕ × List String)) (ming_b shen_b : ℕ) (y_s : ℤ) (i : ℕ) (roles : List String)
    → branches_of (map (palace_out by_branch) (ring_from ming_b shen_b y_s i roles))
      ≡ names_from ming_b i roles
unfolding palace_out
names_of by_branch ming_b shen_b y_s i [] = refl
names_of by_branch ming_b shen_b y_s i (role ∷ roles) =
    ap (λ l. Branch.name (Branch.member_at (ring_branch ming_b i)) ∷ l)
      (names_of by_branch ming_b shen_b y_s (i + 1) roles)

pub branches_of-ring :
    (by_branch : List (ℕ × List String)) (ming_b shen_b : ℕ) (y_s : ℤ)
    → ming_b < 12
    → all_different
        (branches_of (map (palace_out by_branch) (ring_from ming_b shen_b y_s 0 palace_roles)))
      ≡ true
branches_of-ring by_branch ming_b shen_b y_s h =
    ap all_different (names_of by_branch ming_b shen_b y_s 0 palace_roles)
    ∙ all_below_sound 12 (λ m. all_different (names_from m 0 palace_roles)) ming_b names_test h

references-spread :
    (stars : List StarBranch) (ps : List Palace)
    → references (map (palace_out (noted [] stars)) ps)
      ≡ spread (map (λ (p : Palace). Branch.value p.branch_id) ps) stars
unfolding palace_out
references-spread stars [] = refl
references-spread stars (p ∷ ps) =
    rw (noted-ids_at [] stars (Branch.value p.branch_id), references-spread stars ps)

pub references_different-ring :
    (stars : List StarBranch) (ming_b shen_b : ℕ) (y_s : ℤ)
    → ming_b < 12
    → unrepeated (placement_ids_of stars) ≡ true
    → all_different (
        references (map (palace_out (noted [] stars)) (ring_from ming_b shen_b y_s 0 palace_roles)))
      ≡ true
references_different-ring stars ming_b shen_b y_s h ids =
    let ps = ring_from ming_b shen_b y_s 0 palace_roles in
    let bs = map (λ (p : Palace). Branch.value p.branch_id) ps in
    let apart : unrepeated bs ≡ true =
      fresh-unrepeated [] bs (ring-Complete ming_b shen_b y_s h).branches in
    ap all_different (references-spread stars ps)
    ∙ unrepeated-fresh [] (spread bs stars) (unrepeated-spread bs stars apart ids) (λ k m. refl)

pub Hosted-out :
    (tx_by_star : List (String × List String)) (statuses : List (String × String))
    (role : ℕ → String) (stars : List StarBranch) (ps : List Palace)
    → All (λ (p : Palace). p.palace_role_id ≡ role (Branch.value p.branch_id)) ps
    → All
        (λ (q : PalaceOut).
          All (Hosted (all_placed tx_by_star statuses role stars) q) q.placement_ids)
        (map (palace_out (noted [] stars)) ps)
unfolding palace_out
Hosted-out tx_by_star statuses role stars [] h = tt
Hosted-out tx_by_star statuses role stars (p ∷ ps) (h, hs) = (
  rw (noted-ids_at [] stars (Branch.value p.branch_id)) (
      ids_at-Hosted tx_by_star statuses role (palace_out (noted [] stars) p)
        (Branch.value p.branch_id) stars stars h
        (ap Branch.name (sym (Branch.member_at-value p.branch_id))) (λ s m. m)),
  Hosted-out tx_by_star statuses role stars ps hs,
)
