-- ===== src/Dayun/Direction.antt =====
-- bazi_engine/dayun/direction.py: the flow direction of a Da-Yun sequence. A payload is what
-- `dict.get` finds under the four keys that the code reads; texts are compared as they are.
pub mod Laws
use fufire_api_lunar.Prelude.{
  ℕ, ◌%◌, String, Bool, true, false, not, ◌||◌, List, [], ◌∷◌, ◌++◌, Option, none, some, Result, ok,
  err, ◌>>=◌, key_error, direction_basis_missing, ◌==◌, eq_String, eq_ℕ, eq_pair, if◌then◌else◌,
}
use fufire_api_lunar.Prelude.Int.{ℤ, floor_mod}
use fufire_api_lunar.Prelude.Dict.{get, contains}

pub record Payload : Type 0 where
  pub direction_method : Option String
  pub flow_direction : Option String
  pub year_stem_polarity : Option String
  pub sex_at_birth : Option String

abbrev pub traditional : List ((String × String) × String)
traditional =
    (("yang", "male"), "forward")
    ∷ (("yang", "female"), "backward")
    ∷ (("yin", "male"), "backward")
    ∷ (("yin", "female"), "forward")
    ∷ []

abbrev valid_methods : List String
valid_methods = "explicit" ∷ "year_stem_yinyang_and_sex" ∷ []

abbrev pub valid_flows : List String
valid_flows = "forward" ∷ "backward" ∷ []

-- `value in tuple` for a value that may be None
abbrev among : Option String → List String → Bool
among none xs = false
among (some s) xs = contains xs s

-- `["key"]` if the value is None, for the list of what is missing
abbrev pub missing_if_none : Option String → String → List String
missing_if_none none key = key ∷ []
missing_if_none (some s) key = []

-- `_TRADITIONAL[(polarity, sex)]`
unfoldable pub lookup_traditional : String → String → Result String
lookup_traditional polarity sex = elim (get traditional (polarity, sex)) [
  | none ↦ err key_error
  | some flow ↦ ok flow
]

-- The branch for `method == "explicit"`.
unfoldable pub resolve_explicit : Option String → Result String
resolve_explicit none = err (direction_basis_missing ("flow_direction" ∷ []))
resolve_explicit (some flow) =
    if contains valid_flows flow
    then ok flow
    else err (direction_basis_missing ("flow_direction" ∷ []))

-- The branch for `method == "year_stem_yinyang_and_sex"`.
unfoldable pub resolve_traditional : Option String → Option String → Result String
unfolding lookup_traditional
resolve_traditional (some polarity) (some sex) = lookup_traditional polarity sex
resolve_traditional polarity sex = err (
    direction_basis_missing
      (missing_if_none polarity "year_stem_polarity" ++ missing_if_none sex "sex_at_birth"))

unfoldable pub resolve_by_method : Option String → Payload → Result String
unfolding resolve_explicit resolve_traditional
resolve_by_method none payload = err (direction_basis_missing ("direction_method" ∷ []))
resolve_by_method (some method) payload =
    if not (contains valid_methods method)
    then err (direction_basis_missing ("direction_method" ∷ []))
    else if method == "explicit"
    then resolve_explicit payload.flow_direction
    else resolve_traditional payload.year_stem_polarity payload.sex_at_birth

unfoldable pub resolve_direction : Payload → Result String
unfolding resolve_by_method
resolve_direction payload = resolve_by_method payload.direction_method payload

-- "yang" for an even stem index and "yin" for an odd one
abbrev pub polarity_of : ℤ → String
polarity_of stem_index = if floor_mod stem_index 2 == 0 then "yang" else "yin"

abbrev pub explicit_payload : Option String → Payload
explicit_payload flow = record {
  direction_method = some "explicit";
  flow_direction = flow;
  year_stem_polarity = none;
  sex_at_birth = none;
}

abbrev pub traditional_payload : Option String → Option String → Payload
traditional_payload polarity sex = record {
  direction_method = some "year_stem_yinyang_and_sex";
  flow_direction = none;
  year_stem_polarity = polarity;
  sex_at_birth = sex;
}

-- The traditional branch of `resolve_direction_for_request`; a year pillar is read for its stem index.
abbrev for_pillar : Option ℤ → Payload → Result String
unfolding resolve_direction
for_pillar none request = err (direction_basis_missing ("year_pillar" ∷ []))
for_pillar (some stem_index) request =
    resolve_direction (traditional_payload (some (polarity_of stem_index)) request.sex_at_birth)

abbrev request_by_method : Option String → Payload → Option ℤ → Result String
unfolding resolve_direction
request_by_method none request year_pillar = resolve_direction request
request_by_method (some method) request year_pillar =
    if method == "explicit"
    then resolve_direction (explicit_payload request.flow_direction)
    else if method == "year_stem_yinyang_and_sex"
    then for_pillar year_pillar request
    else resolve_direction request

unfoldable pub resolve_direction_for_request : Payload → Option ℤ → Result String
unfolding resolve_direction
resolve_direction_for_request request year_pillar =
    request_by_method request.direction_method request year_pillar
