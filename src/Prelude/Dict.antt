-- ===== src/Prelude/Dict.antt =====
-- Python's `dict` as an association list in insertion order, and its `set` as a list without
-- repetition. Keys are compared by `==`.
use fufire_api_lunar.Prelude.{
  ◌≡◌, refl, Bool, true, false, not, ◌&&◌, ◌||◌, Option, none, some, List, [], ◌∷◌, ◌++◌, arith,
  if◌then◌else◌, Eq, ◌==◌,
}

module _ {K : Type 0} {V : Type 0} ⦃e : Eq K⦄ where
  -- d.get(k)
  abbrev pub get : List (K × V) → K → Option V
  get [] k = none
  get ((j, v) ∷ d) k = if j == k then some v else get d k

  -- d[k] = v: an old key keeps its place.
  abbrev pub put : List (K × V) → K → V → List (K × V)
  put [] k v = (k, v) ∷ []
  put ((j, w) ∷ d) k v = if j == k then (j, v) ∷ d else (j, w) ∷ put d k v

  -- { k: v for ... }
  abbrev pub put_all : List (K × V) → List (K × V) → List (K × V)
  put_all d [] = d
  put_all d ((k, v) ∷ r) = put_all (put d k v) r

  abbrev pub from_pairs : List (K × V) → List (K × V)
  from_pairs r = put_all [] r

  -- k in d
  abbrev pub has : List (K × V) → K → Bool
  has [] k = false
  has ((j, v) ∷ d) k = j == k || has d k

  pub get-put :
      (d : List (K × V)) (k j : K) (v : V)
      → get (put d k v) j ≡ (if k == j then some v else get d j)
  get-put [] k j v = refl
  get-put ((i, w) ∷ d) k j v =
      ground (arith, e.beq_iff k j, e.beq_iff i k, e.beq_iff i j, get-put d k j v)

module _ {K : Type 0} ⦃e : Eq K⦄ where
  -- k in s
  abbrev pub contains : List K → K → Bool
  contains [] k = false
  contains (x ∷ xs) k = x == k || contains xs k

  -- s.add(k)
  abbrev pub add : List K → K → List K
  add xs k = if contains xs k then xs else xs ++ k ∷ []

  abbrev pub add_all : List K → List K → List K
  add_all s [] = s
  add_all s (x ∷ xs) = add_all (add s x) xs

  -- set(xs)
  abbrev pub to_set : List K → List K
  to_set xs = add_all [] xs

  -- No item of xs is in `seen` or occurs earlier in xs.
  abbrev pub fresh : List K → List K → Bool
  fresh seen [] = true
  fresh seen (x ∷ xs) = not (contains seen x) && fresh (seen ++ x ∷ []) xs

  abbrev pub all_different : List K → Bool
  all_different xs = fresh [] xs

  -- s <= t
  abbrev pub is_subset : List K → List K → Bool
  is_subset [] t = true
  is_subset (x ∷ xs) t = contains t x && is_subset xs t

  -- s == t, of sets
  abbrev pub same_set : List K → List K → Bool
  same_set s t = is_subset s t && is_subset t s

  -- s - t
  abbrev pub difference : List K → List K → List K
  difference [] t = []
  difference (x ∷ xs) t = let rest = difference xs t in if contains t x then rest else x ∷ rest
