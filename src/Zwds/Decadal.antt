-- ===== src/Zwds/Decadal.antt =====
-- bazi_engine/zwds/decadal.py: the twelve decadal limits. Palaces are read for `palace_role_id` and
-- `branch_id`, as the code's structural `PalaceLike` does.
pub mod Walk
pub mod Flow
use fufire_api_lunar.Prelude.{
  ℕ, zero, suc, ◌+◌, ◌-◌, ◌*◌, String, Bool, List, [], ◌∷◌, map, Option, none, some, Result, ok,
  err, ◌>>=◌, ◌>>◌, require, value_error, key_error, ◌==◌, eq_ℕ, eq_String, if◌then◌else◌,
}
use fufire_api_lunar.Prelude.Int.{ℤ, pos, negsuc, ◌+ℤ◌, ◌*ℤ◌}
use fufire_api_lunar.Prelude.Dict.{get, from_pairs, contains}
use fufire_api_lunar.Zwds.Domain.Modulo.{mod12}
use fufire_api_lunar.Zwds.Domain.Branch
use fufire_api_lunar.Zwds.Domain.Branch.{BranchId}
use fufire_api_lunar.Zwds.Palace.{Palace}
use fufire_api_lunar.Dayun.Direction.{
  explicit_payload, traditional_payload, polarity_of, resolve_direction,
}

abbrev pub age_reckoning_id : String
age_reckoning_id = "east_asian_nominal.guide-v1"

abbrev pub decade_span : ℕ
decade_span = 10

abbrev pub valid_directions : List String
valid_directions = "forward" ∷ "backward" ∷ []

pub record DecadalLimit : Type 0 where
  pub sequence_index_0 : ℕ
  pub start_age_inclusive : ℕ
  pub end_age_inclusive : ℕ
  pub age_reckoning_id : String
  pub direction : String
  pub branch_id : BranchId
  pub palace_role_id : String

abbrev pub polarity_if_given : Option ℤ → Option String
polarity_if_given none = none
polarity_if_given (some stem_index) = some (polarity_of stem_index)

unfoldable pub decadal_direction : Option String → Option ℤ → Option String → Result String
decadal_direction (some flow) year_stem_index sex_at_birth =
    resolve_direction (explicit_payload (some flow))
decadal_direction none year_stem_index sex_at_birth =
    resolve_direction (traditional_payload (polarity_if_given year_stem_index) sex_at_birth)

-- `_ming_branch`
unfoldable pub ming_branch : List Palace → Result ℕ
ming_branch [] = err value_error
ming_branch (p ∷ ps) =
    if p.palace_role_id == "MING" then ok (Branch.value p.branch_id) else ming_branch ps

-- `{int(p.branch_id): p.palace_role_id for p in palaces}`
unfoldable pub branch_to_role : List Palace → List (ℕ × String)
branch_to_role palaces =
    from_pairs (map (λ p. (Branch.value p.branch_id, p.palace_role_id)) palaces)

-- `branch_to_role[branch_index]`
abbrev pub item : Option String → Result String
item none = err key_error
item (some role) = ok role

unfoldable pub role_at : List (ℕ × String) → ℕ → Result String
role_at d b = item (get d b)

abbrev pub sign_of : String → ℤ
sign_of direction = if direction == "forward" then pos 1 else negsuc 0

-- The body of the loop at step `j`.
unfoldable pub limit_at : List (ℕ × String) → ℕ → ℕ → String → ℕ → Result DecadalLimit
limit_at roles ming bureau_number direction j = do
  let branch_index = mod12 (pos ming +ℤ sign_of direction *ℤ pos j)
  let start_age = bureau_number + decade_span * j
  branch_id ← Branch.of_value branch_index
  role ← role_at roles branch_index
  ok (record {
    sequence_index_0 = j;
    start_age_inclusive = start_age;
    end_age_inclusive = start_age + decade_span - 1;
    age_reckoning_id = age_reckoning_id;
    direction = direction;
    branch_id = branch_id;
    palace_role_id = role;
  })

-- `for j in range(12)`, with `left` rounds to go.
unfoldable pub limits_from : List (ℕ × String) → ℕ → ℕ → String → ℕ → ℕ → Result (List DecadalLimit)
limits_from roles ming bureau_number direction zero j = ok []
limits_from roles ming bureau_number direction (suc left) j = do
  limit ← limit_at roles ming bureau_number direction j
  limits ← limits_from roles ming bureau_number direction left (j + 1)
  ok (limit ∷ limits)

unfoldable pub decadal_limits : List Palace → ℕ → String → Result (List DecadalLimit)
decadal_limits palaces bureau_number direction = do
  require (contains valid_directions direction) value_error
  ming ← ming_branch palaces
  limits_from (branch_to_role palaces) ming bureau_number direction 12 0
