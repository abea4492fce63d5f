-- ===== src/Zwds/Decadal/Flow.antt =====
-- The twelve limits as decades of a life: contiguous ages on neighbouring branches from the Ming
-- palace on.
use fufire_api_lunar.Prelude.{
  ℕ, zero, suc, ◌+◌, ◌-◌, ◌%◌, ◌<◌, ◌≡◌, ◌⊎◌, inl, inr, refl, String, List, [], ◌∷◌, some, ok,
  arith, length, All, ap, ◌∙◌, eq_ℕ, ◌==◌, eq_String, if◌then◌else◌,
}
use fufire_api_lunar.Prelude.Int.{ℤ, pos, ◌+ℤ◌, ◌*ℤ◌}
use fufire_api_lunar.Prelude.Dict.{get}
use fufire_api_lunar.Zwds.Domain.Modulo.{mod12, mod12-lt}
use fufire_api_lunar.Zwds.Domain.Branch
use fufire_api_lunar.Zwds.Palace.{Palace, palace_roles, ming_branch, shen_branch, build_palaces}
use fufire_api_lunar.Zwds.Palace.Ring.{ring, ring_from, ming_branch-lt, build_palaces-ring}
use fufire_api_lunar.Zwds.Decadal.{DecadalLimit, branch_to_role, sign_of, decadal_limits}
use fufire_api_lunar.Zwds.Decadal.Walk.{
  role_of, branch_to_role-ring, walk_branch, limit_of, limits_of, decadal_limits-ring,
}

-- How far the branch index moves in a step: one on, or eleven, which is one back.
abbrev pub stride : String → ℕ
stride direction = if direction == "forward" then 1 else 11

-- Each limit spans ten years, and the next one starts a year after its end, `k` branches further.
abbrev pub Contiguous : ℕ → List DecadalLimit → Type 0
Contiguous k [] = Unit
Contiguous k (a ∷ []) = a.end_age_inclusive ≡ a.start_age_inclusive + 9
Contiguous k (a ∷ b ∷ r) =
    (a.end_age_inclusive ≡ a.start_age_inclusive + 9)
    × (b.start_age_inclusive ≡ a.end_age_inclusive + 1)
    × (Branch.value b.branch_id ≡ (Branch.value a.branch_id + k) % 12)
    × (b.sequence_index_0 ≡ a.sequence_index_0 + 1)
    × Contiguous k (b ∷ r)

-- The first limit: it starts at age `n`, on the Ming branch, in the Ming palace.
abbrev pub StartsAt : ℕ → ℕ → List DecadalLimit → Type 0
StartsAt n ming_b [] = ⊥
StartsAt n ming_b (a ∷ r) =
    (a.start_age_inclusive ≡ n) × (Branch.value a.branch_id ≡ ming_b) × (a.palace_role_id ≡ "MING")

-- Each limit names the palace that is seated on its branch.
abbrev pub Housed : List Palace → List DecadalLimit → Type 0
Housed palaces = All (λ (l : DecadalLimit).
    get (branch_to_role palaces) (Branch.value l.branch_id) ≡ some l.palace_role_id)

stride_forward :
    (x j : ℕ)
    → mod12 (pos x +ℤ sign_of "forward" *ℤ pos (j + 1))
      ≡ (mod12 (pos x +ℤ sign_of "forward" *ℤ pos j) + stride "forward") % 12
unfolding mod12 ◌+ℤ◌ ◌*ℤ◌
stride_forward x j = ground arith

stride_backward :
    (x j : ℕ)
    → mod12 (pos x +ℤ sign_of "backward" *ℤ pos (j + 1))
      ≡ (mod12 (pos x +ℤ sign_of "backward" *ℤ pos j) + stride "backward") % 12
unfolding mod12 ◌+ℤ◌ ◌*ℤ◌
stride_backward x j = ground arith

walk-stride :
    (ming_b : ℕ) (direction : String) (j : ℕ)
    → (direction ≡ "forward") ⊎ (direction ≡ "backward")
    → walk_branch ming_b direction (j + 1)
      ≡ (walk_branch ming_b direction j + stride direction) % 12
walk-stride ming_b direction j (inl e) = rw e (stride_forward ming_b j)
walk-stride ming_b direction j (inr e) = rw e (stride_backward ming_b j)

value-walk :
    (ming_b n : ℕ) (direction : String) (j : ℕ)
    → Branch.value ((limit_of ming_b n direction j).branch_id) ≡ walk_branch ming_b direction j
value-walk ming_b n direction j = Branch.value-member_at _ (mod12-lt _)

limits_of-Contiguous :
    (ming_b n : ℕ) (direction : String) (left j : ℕ)
    → (direction ≡ "forward") ⊎ (direction ≡ "backward")
    → Contiguous (stride direction) (limits_of ming_b n direction left j)
limits_of-Contiguous ming_b n direction zero j d = tt
limits_of-Contiguous ming_b n direction (suc zero) j d = omega arith
limits_of-Contiguous ming_b n direction (suc (suc left)) j d = (
  omega arith,
  omega arith,
  rw (value-walk ming_b n direction j, value-walk ming_b n direction (j + 1))
      (walk-stride ming_b direction j d),
  refl,
  limits_of-Contiguous ming_b n direction (suc left) (j + 1) d,
)

limits_of-Housed :
    (ming_b shen_b : ℕ) (y_s : ℤ) (n : ℕ) (direction : String) (left j : ℕ)
    → ming_b < 12
    → Housed (ring_from ming_b shen_b y_s 0 palace_roles) (limits_of ming_b n direction left j)
limits_of-Housed ming_b shen_b y_s n direction zero j h = tt
limits_of-Housed ming_b shen_b y_s n direction (suc left) j h = (
  rw (value-walk ming_b n direction j)
      (branch_to_role-ring ming_b shen_b y_s (walk_branch ming_b direction j) h (mod12-lt _)),
  limits_of-Housed ming_b shen_b y_s n direction left (j + 1) h,
)

walk_zero :
    (ming_b : ℕ) (direction : String)
    → ming_b < 12
    → (direction ≡ "forward") ⊎ (direction ≡ "backward")
    → walk_branch ming_b direction 0 ≡ ming_b
unfolding mod12 ◌+ℤ◌ ◌*ℤ◌
walk_zero ming_b direction h (inl e) = rw e (ground arith)
walk_zero ming_b direction h (inr e) = rw e (ground arith)

role_zero : (ming_b b : ℕ) → ming_b < 12 → b ≡ ming_b → role_of ((ming_b + 12 - b) % 12) ≡ "MING"
role_zero ming_b b h e = ap role_of (zero_back ming_b b h e)
  where
    zero_back : (m b : ℕ) → m < 12 → b ≡ m → (m + 12 - b) % 12 ≡ 0
    zero_back m b h e = omega arith

limits_of-StartsAt :
    (ming_b n : ℕ) (direction : String)
    → ming_b < 12
    → (direction ≡ "forward") ⊎ (direction ≡ "backward")
    → StartsAt n ming_b (limits_of ming_b n direction 12 0)
limits_of-StartsAt ming_b n direction h d = (
  omega arith,
  value-walk ming_b n direction 0 ∙ walk_zero ming_b direction h d,
  role_zero ming_b (walk_branch ming_b direction 0) h (walk_zero ming_b direction h d),
)

-- For all integers and every bureau number, a valid direction gives twelve decades on the palaces
-- that `build_palaces` lays out: they start in the Ming palace at the bureau number, each spans ten
-- years and is followed without a gap by the next, one branch on (forward) or back (backward), and
-- each names the palace on its branch.
pub decadal_limits_flow :
    (m h y_s : ℤ) (n : ℕ) (direction : String)
    → (direction ≡ "forward") ⊎ (direction ≡ "backward")
    → (ps : List Palace) × (ls : List DecadalLimit) × (build_palaces m h y_s ≡ ok ps)
      × (decadal_limits ps n direction ≡ ok ls)
      × (length ls ≡ 12)
      × StartsAt n (ming_branch m h) ls
      × Contiguous (stride direction) ls
      × Housed ps ls
decadal_limits_flow m h y_s n direction d = (
  ring m h y_s,
  limits_of (ming_branch m h) n direction 12 0,
  build_palaces-ring m h y_s,
  decadal_limits-ring (ming_branch m h) (shen_branch m h) y_s n direction (ming_branch-lt m h) d,
  refl,
  limits_of-StartsAt (ming_branch m h) n direction (ming_branch-lt m h) d,
  limits_of-Contiguous (ming_branch m h) n direction 12 0 d,
  limits_of-Housed (ming_branch m h) (shen_branch m h) y_s n direction 12 0 (ming_branch-lt m h),
)
