-- ===== src/Zwds/Decadal/Walk.antt =====
-- The walk round the ring of palaces that `decadal_limits` makes.
use fufire_api_lunar.Prelude.{
  ℕ, zero, suc, ◌+◌, ◌-◌, ◌*◌, ◌%◌, ◌<◌, ◌≡◌, ◌⊎◌, refl, true, false, Bool, String, List, [], ◌∷◌,
  map, Option, none, some, ok, arith, ◌==◌, eq_ℕ, eq_String, all_below, all_below₂_sound, get_or,
  beq_eq, ap, ◌∙◌, eq_iff,
}
use fufire_api_lunar.Prelude.Int.{ℤ, pos, ◌+ℤ◌, ◌-ℤ◌, ◌*ℤ◌}
use fufire_api_lunar.Prelude.Dict.{get, from_pairs, contains}
use fufire_api_lunar.Zwds.Domain.Modulo.{mod12, mod12-lt}
use fufire_api_lunar.Zwds.Domain.Branch
use fufire_api_lunar.Zwds.Palace.{Palace, palace_roles}
use fufire_api_lunar.Zwds.Palace.Ring.{ring_branch, ring_from}
use fufire_api_lunar.Zwds.Decadal.{
  decade_span, age_reckoning_id, valid_directions, DecadalLimit, ming_branch, branch_to_role, item,
  role_at, sign_of, limit_at, limits_from, decadal_limits,
}

-- The role seated `i` places back from the Ming branch.
abbrev pub role_of : ℕ → String
role_of i = get_or palace_roles i "FU_MU"

abbrev pairs_from : ℕ → ℕ → List String → List (ℕ × String)
pairs_from ming_b i [] = []
pairs_from ming_b i (role ∷ roles) = (ring_branch ming_b i, role) ∷ pairs_from ming_b (i + 1) roles

role_pairs :
    (ming_b shen_b : ℕ) (y_s : ℤ) (i : ℕ) (roles : List String)
    → map
        (λ (p : Palace). (Branch.value p.branch_id, p.palace_role_id))
        (ring_from ming_b shen_b y_s i roles)
      ≡ pairs_from ming_b i roles
role_pairs ming_b shen_b y_s i [] = refl
role_pairs ming_b shen_b y_s i (role ∷ roles) = rw (
  Branch.value-member_at (ring_branch ming_b i) (mod12-lt _),
  role_pairs ming_b shen_b y_s (i + 1) roles,
)

abbrev holds_role : Option String → String → Bool
holds_role none role = false
holds_role (some r) role = r == role

holds_role-eq : (o : Option String) (role : String) → holds_role o role ≡ true → o ≡ some role
holds_role-eq none role h = cc
holds_role-eq (some r) role h = ap some (beq_eq r role h)

roles_test :
    all_below 12 (λ m. all_below 12 (λ b.
      holds_role (get (from_pairs (pairs_from m 0 palace_roles)) b) (role_of ((m + 12 - b) % 12))))
    ≡ true
unfolding all_below mod12 ◌-ℤ◌
roles_test = refl

-- Every branch of a ring has its palace: the role seated as many places back as the branch lies
-- behind the Ming branch.
pub branch_to_role-ring :
    (ming_b shen_b : ℕ) (y_s : ℤ) (b : ℕ)
    → ming_b < 12
    → b < 12
    → get (branch_to_role (ring_from ming_b shen_b y_s 0 palace_roles)) b
      ≡ some (role_of ((ming_b + 12 - b) % 12))
unfolding branch_to_role
branch_to_role-ring ming_b shen_b y_s b hm hb =
    ap (λ (d : List (ℕ × String)). get (from_pairs d) b)
      (role_pairs ming_b shen_b y_s 0 palace_roles)
    ∙ holds_role-eq _ _ (
        all_below₂_sound 12 12
          (λ m b.
            holds_role (get (from_pairs (pairs_from m 0 palace_roles)) b)
              (role_of ((m + 12 - b) % 12)))
          ming_b b roles_test hm hb)

-- The branch of step `j`, and the whole limit.
abbrev pub walk_branch : ℕ → String → ℕ → ℕ
walk_branch ming_b direction j = mod12 (pos ming_b +ℤ sign_of direction *ℤ pos j)

abbrev pub limit_of : ℕ → ℕ → String → ℕ → DecadalLimit
limit_of ming_b n direction j = record {
  sequence_index_0 = j;
  start_age_inclusive = n + decade_span * j;
  end_age_inclusive = n + decade_span * j + decade_span - 1;
  age_reckoning_id = age_reckoning_id;
  direction = direction;
  branch_id = Branch.member_at (walk_branch ming_b direction j);
  palace_role_id = role_of ((ming_b + 12 - walk_branch ming_b direction j) % 12);
}

role_at-ring :
    (ming_b shen_b : ℕ) (y_s : ℤ) (b : ℕ)
    → ming_b < 12
    → b < 12
    → role_at (branch_to_role (ring_from ming_b shen_b y_s 0 palace_roles)) b
      ≡ ok (role_of ((ming_b + 12 - b) % 12))
unfolding role_at
role_at-ring ming_b shen_b y_s b hm hb = ap item (branch_to_role-ring ming_b shen_b y_s b hm hb)

limit_at-limit_of :
    (ming_b shen_b : ℕ) (y_s : ℤ) (n : ℕ) (direction : String) (j : ℕ)
    → ming_b < 12
    → limit_at (branch_to_role (ring_from ming_b shen_b y_s 0 palace_roles)) ming_b n direction j
      ≡ ok (limit_of ming_b n direction j)
unfolding limit_at
limit_at-limit_of ming_b shen_b y_s n direction j h = rw (
  Branch.of_value-member_at (walk_branch ming_b direction j) (mod12-lt _),
  role_at-ring ming_b shen_b y_s (walk_branch ming_b direction j) h (mod12-lt _),
)

abbrev pub limits_of : ℕ → ℕ → String → ℕ → ℕ → List DecadalLimit
limits_of ming_b n direction zero j = []
limits_of ming_b n direction (suc left) j =
    limit_of ming_b n direction j ∷ limits_of ming_b n direction left (j + 1)

limits_from-limits_of :
    (ming_b shen_b : ℕ) (y_s : ℤ) (n : ℕ) (direction : String) (left j : ℕ)
    → ming_b < 12
    → limits_from
        (branch_to_role (ring_from ming_b shen_b y_s 0 palace_roles))
        ming_b
        n
        direction
        left
        j
      ≡ ok (limits_of ming_b n direction left j)
unfolding limits_from
limits_from-limits_of ming_b shen_b y_s n direction zero j h = refl
limits_from-limits_of ming_b shen_b y_s n direction (suc left) j h = rw (
  limit_at-limit_of ming_b shen_b y_s n direction j h,
  limits_from-limits_of ming_b shen_b y_s n direction left (j + 1) h,
)

ming_branch-ring :
    (ming_b shen_b : ℕ) (y_s : ℤ)
    → ming_b < 12
    → ming_branch (ring_from ming_b shen_b y_s 0 palace_roles) ≡ ok ming_b
unfolding ming_branch
ming_branch-ring ming_b shen_b y_s h =
    ap ok (Branch.value-member_at (ring_branch ming_b 0) (mod12-lt _) ∙ back_zero ming_b h)
  where
    back_zero : (m : ℕ) → m < 12 → ring_branch m 0 ≡ m
    back_zero m h = unfold mod12 ◌-ℤ◌ in ground arith

-- On a ring with Ming branch `ming_b` a valid direction gives the twelve limits of the walk.
pub decadal_limits-ring :
    (ming_b shen_b : ℕ) (y_s : ℤ) (n : ℕ) (direction : String)
    → ming_b < 12
    → (direction ≡ "forward") ⊎ (direction ≡ "backward")
    → decadal_limits (ring_from ming_b shen_b y_s 0 palace_roles) n direction
      ≡ ok (limits_of ming_b n direction 12 0)
unfolding decadal_limits
decadal_limits-ring ming_b shen_b y_s n direction h d = rw (
  valid direction d,
  ming_branch-ring ming_b shen_b y_s h,
  limits_from-limits_of ming_b shen_b y_s n direction 12 0 h,
)
  where
    valid : (s : String) → (s ≡ "forward") ⊎ (s ≡ "backward") → contains valid_directions s ≡ true
    valid s e = ground (arith, eq_iff "forward" s, eq_iff "backward" s)
