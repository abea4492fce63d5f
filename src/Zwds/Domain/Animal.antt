-- ===== src/Zwds/Domain/Animal.antt =====
-- `AnimalId` of bazi_engine/zwds/domain.py.
use fufire_api_lunar.Prelude.{
  ℕ, ◌<◌, ◌≡◌, String, List, [], ◌∷◌, Option, none, some, get_elem?, get_or, get_elem?-get_or,
  Result, ok, err, value_error, ap,
}

pub data AnimalId : Type 0 where
  rat ox tiger rabbit dragon snake horse goat monkey rooster dog pig : AnimalId

-- member.name
abbrev pub name : AnimalId → String
name rat = "RAT"
name ox = "OX"
name tiger = "TIGER"
name rabbit = "RABBIT"
name dragon = "DRAGON"
name snake = "SNAKE"
name horse = "HORSE"
name goat = "GOAT"
name monkey = "MONKEY"
name rooster = "ROOSTER"
name dog = "DOG"
name pig = "PIG"

-- list(AnimalId)
abbrev pub members : List AnimalId
members =
    rat ∷ ox ∷ tiger ∷ rabbit ∷ dragon ∷ snake ∷ horse ∷ goat ∷ monkey ∷ rooster ∷ dog ∷ pig ∷ []

abbrev or_raise : Option AnimalId → Result AnimalId
or_raise none = err value_error
or_raise (some x) = ok x

-- AnimalId(i)
unfoldable pub of_value : ℕ → Result AnimalId
of_value i = or_raise (get_elem? members i)

-- The member with value `i`, and the last one where there is none.
unfoldable pub member_at : ℕ → AnimalId
member_at i = get_or members i pig

pub of_value-member_at : (i : ℕ) → i < 12 → of_value i ≡ ok (member_at i)
unfolding of_value member_at
of_value-member_at i h = ap or_raise (get_elem?-get_or members i pig h)
