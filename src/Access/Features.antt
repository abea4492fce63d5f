-- ===== src/Access/Features.antt =====
-- bazi_engine/features.py: the flags of the conditional parts of the API.
use fufire_api_lunar.Prelude.{
  String, Bool, false, Option, none, some, List, [], ◌∷◌, Result, ok, err, ◌>>=◌, require,
  value_error, http_exception, eq_String,
}
use fufire_api_lunar.Prelude.Dict.{get}
use fufire_api_lunar.Access.Environ.{Environ, truthy}

pub record FeatureDecision : Type 0 where
  pub feature_id : String
  pub env_var : String
  pub default_enabled : Bool
  pub owner : String
  pub release_status : String

abbrev pub key_issuance : FeatureDecision
key_issuance = record {
  feature_id = "key_issuance";
  env_var = "FUFIRE_ENABLE_KEY_ISSUANCE";
  default_enabled = false;
  owner = "Identity/BFF";
  release_status = "disabled-engine-plane-retired";
}

abbrev pub zwds : FeatureDecision
zwds = record {
  feature_id = "zwds";
  env_var = "FUFIRE_ENABLE_ZWDS";
  default_enabled = false;
  owner = "ZWDS domain owner";
  release_status = "gated-pending-practitioner-signoff";
}

abbrev pub feature_matrix : List (String × FeatureDecision)
feature_matrix = ("key_issuance", key_issuance) ∷ ("zwds", zwds) ∷ []

abbrev pub decided : FeatureDecision → Option String → Bool
decided decision none = decision.default_enabled
decided decision (some raw) = truthy (some raw)

unfoldable pub feature_enabled : Environ → String → Result Bool
feature_enabled environ feature_id = elim (get feature_matrix feature_id) [
  | none ↦ err value_error
  | some decision ↦ ok (decided decision (environ decision.env_var))
]

-- The dependency of a route, which hides it where the feature is off.
unfoldable pub require_feature : Environ → String → Result (Unit {0})
require_feature environ feature_id = do
  enabled ← feature_enabled environ feature_id
  require enabled (http_exception 404 "feature_disabled")
