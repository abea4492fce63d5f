-- ===== src/Match/Guard.antt =====
-- bazi_engine/match/textblocks.py: the guard against blocked language. `str.lower`, the search for a
-- compiled pattern and the formatting of numbers and tuples are the standard library's, and parameters.
use fufire_api_lunar.Prelude.{
  String, Option, none, some, List, [], ◌∷◌, Result, ok, err, ◌>>=◌, blocked_language,
  if◌then◌else◌,
}
use fufire_api_lunar.Prelude.Text.{has_substring}
use fufire_api_lunar.Match.Values.{FactValue}

-- `scores?`, `points?` and a number with a percent sign, `/100` or `points`, as words.
pub data ScorePattern : Type 0 where
  score_word point_word score_number : ScorePattern

pub record Python (F : Type 0) : Type 0 where
  pub lower : String → String
  pub search : ScorePattern → String → Option String
  pub two_decimals : F → String
  pub show : F → String
  pub repr : FactValue F → String

abbrev pub blocked_phrases : List String
blocked_phrases =
    "perfect match" ∷ "marriage guarantee" ∷ "breakup prediction" ∷ "fate certainty"
    ∷ "perfekte übereinstimmung" ∷ "ehegarantie" ∷ "trennungsvorhersage" ∷ "schicksals" ∷ []

abbrev pub first_phrase : String → List String → Option String
first_phrase lowered [] = none
first_phrase lowered (phrase ∷ phrases) =
    let rest = first_phrase lowered phrases in
    if has_substring lowered phrase then some phrase else rest

abbrev pub or_search : Option String → Option String → Option String
or_search none later = later
or_search (some found) later = some found

module _ {F : Type 0} (python : Python F) where
  unfoldable pub find_blocked_language : String → Option String
  find_blocked_language text = or_search (first_phrase (python.lower text) blocked_phrases) (
      or_search (python.search score_word text)
        (or_search (python.search point_word text) (python.search score_number text)))

  abbrev pub pass : Option String → String → Result String
  pass none text = ok text
  pass (some found) text = err blocked_language

  unfoldable pub guard_text : String → Result String
  guard_text text = pass (find_blocked_language text) text

  -- `for value in values: guard_text(value)`
  abbrev pub guard_all : List String → Result (Unit {0})
  guard_all [] = ok tt
  guard_all (value ∷ values) = guard_text value >>= λ clean. guard_all values
