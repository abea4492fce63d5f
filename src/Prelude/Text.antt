-- ===== src/Prelude/Text.antt =====
-- Python's `str` methods on native texts, by recursion on the characters.
use Prim.Native.Char.{Char, code}
use Prim.Native.String.{String}
use mathlib.Core.List.{[], ◌∷◌}
use fufire_api_lunar.Prelude.{
  ◌≡◌, refl, ℕ, zero, suc, Bool, true, false, not, ◌&&◌, ◌||◌, Option, none, some, List, ltb, leb,
  ◌==◌, eq_ℕ, if◌then◌else◌,
}

-- bool(s)
abbrev pub nonempty : String → Bool
nonempty String.[] = false
nonempty (String.◌∷◌ c s) = true

-- s.isascii()
abbrev pub is_ascii : String → Bool
is_ascii String.[] = true
is_ascii (String.◌∷◌ c s) = ltb (code c) 128 && is_ascii s

-- What `strip` removes.
abbrev pub is_space : ℕ → Bool
is_space n =
    leb 9 n && leb n 13
    || leb 28 n && leb n 32
    || n == 133
    || n == 160
    || n == 5760
    || leb 8192 n && leb n 8202
    || n == 8232
    || n == 8233
    || n == 8239
    || n == 8287
    || n == 12288

unfoldable pub lstrip : String → String
lstrip String.[] = ""
lstrip (String.◌∷◌ c s) = let rest = lstrip s in if is_space (code c) then rest else String.◌∷◌ c s

unfoldable pub rstrip : String → String
rstrip String.[] = ""
rstrip (String.◌∷◌ c s) =
    let rest = rstrip s in
    if is_space (code c) && not (nonempty rest) then "" else String.◌∷◌ c rest

unfoldable pub strip : String → String
unfolding lstrip rstrip
strip s = rstrip (lstrip s)

-- A character by a table of two texts of one length.
abbrev pub translate : String → String → Char → Char
translate String.[] tos c = c
translate (String.◌∷◌ a froms) String.[] c = c
translate (String.◌∷◌ a froms) (String.◌∷◌ b tos) c =
    let rest = translate froms tos c in if code c == code a then b else rest

-- s.lower(), as far as an ASCII letter comes out: the Kelvin sign is the only other capital letter
-- that has one for its small letter. What `lower` gives is compared with ASCII words only.
unfoldable pub lower : String → String
lower String.[] = ""
lower (String.◌∷◌ c s) =
    String.◌∷◌ (translate "ABCDEFGHIJKLMNOPQRSTUVWXYZK" "abcdefghijklmnopqrstuvwxyzk" c) (lower s)

-- s.upper(), likewise, with dotless i and long s. The sharp s and the ligatures, whose capitals are
-- several letters, are kept: none of these is a part of the word SWIEPH that the result is compared with.
unfoldable pub upper : String → String
upper String.[] = ""
upper (String.◌∷◌ c s) =
    String.◌∷◌ (translate "abcdefghijklmnopqrstuvwxyzıſ" "ABCDEFGHIJKLMNOPQRSTUVWXYZIS" c) (upper s)

abbrev prepend : Char → List String → List String
prepend c [] = []
prepend c (s ∷ r) = String.◌∷◌ c s ∷ r

-- s.split(sep), for a separator of one character
unfoldable pub split : ℕ → String → List String
split sep String.[] = "" ∷ []
split sep (String.◌∷◌ c s) =
    let rest = split sep s in if code c == sep then "" ∷ rest else prepend c rest

abbrev longer : Char → Option (String × String) → Option (String × String)
longer c none = none
longer c (some (s, t)) = some (String.◌∷◌ c s, t)

-- s.partition(sep): what stands before and after the first separator, where there is one.
abbrev pub partition : ℕ → String → Option (String × String)
partition sep String.[] = none
partition sep (String.◌∷◌ c s) =
    let rest = partition sep s in if code c == sep then some ("", s) else longer c rest

-- s.split(sep, n)
abbrev pub split_max : ℕ → ℕ → String → List String
split_max sep zero s = s ∷ []
split_max sep (suc n) s = elim (partition sep s) [
  | none ↦ s ∷ []
  | some (before, after) ↦ before ∷ split_max sep n after
]

-- s.startswith(t)
abbrev pub startswith : String → String → Bool
startswith s String.[] = true
startswith String.[] (String.◌∷◌ d t) = false
startswith (String.◌∷◌ c s) (String.◌∷◌ d t) = code c == code d && startswith s t

-- t in s
abbrev pub has_substring : String → String → Bool
has_substring String.[] t = not (nonempty t)
has_substring (String.◌∷◌ c s) t = startswith (String.◌∷◌ c s) t || has_substring s t

strip_test : strip "  Pro\t" ≡ "Pro"
unfolding strip
strip_test = refl
