-- ===== src/Access/Environ.antt =====
-- The process environment, as bazi_engine/config_guard.py, features.py and limiter.py read it. It is
-- fixed while a process runs, so what the code caches from it is computed again here.
use fufire_api_lunar.Prelude.{Bool, String, Option, none, some, List, [], ◌∷◌, eq_String}
use fufire_api_lunar.Prelude.Dict.{contains}
use fufire_api_lunar.Prelude.Text.{strip, lower}

-- os.environ.get
abbrev pub Environ : Type 0
Environ = String → Option String

abbrev pub or_default : Option String → String → String
or_default none default = default
or_default (some value) default = value

-- os.environ.get(name, default)
abbrev pub getenv : Environ → String → String → String
getenv environ name default = or_default (environ name) default

abbrev true_words : List String
true_words = "1" ∷ "true" ∷ "yes" ∷ "on" ∷ []

-- `_truthy`
unfoldable pub truthy : Option String → Bool
truthy value = contains true_words (lower (strip (or_default value "")))
