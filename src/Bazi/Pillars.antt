-- ===== src/Bazi/Pillars.antt =====
-- bazi_engine/bazi.py, the pillar arithmetic, with the stem tables of bazi_engine/bafe/ruleset_loader.py
-- and of bazi_engine/resources/rulesets/standard_bazi_2026.json. Dates are those of a datetime: years
-- from 1, months 1 to 12, days from 1, so the subtractions of `jdn_gregorian` stay positive.
pub mod Days
pub mod Tables
use fufire_api_lunar.Prelude.{
  ℕ, ◌+◌, ◌-◌, ◌*◌, ◌/◌, ◌%◌, Bool, List, [], ◌∷◌, Option, none, some, Result, ok, err, ◌>>=◌,
  key_error, index_error, get_elem?, eq_ℕ, if◌then◌else◌,
}
use fufire_api_lunar.Prelude.Int.{ℤ, pos, ◌-ℤ◌, floor_mod}
use fufire_api_lunar.Prelude.Dict.{contains}

unfoldable pub jdn_gregorian : ℕ → ℕ → ℕ → ℕ
jdn_gregorian y m d =
    let a = (14 - m) / 12 in
    let y2 = y + 4800 - a in
    let m2 = m + 12 * a - 3 in
    d + (153 * m2 + 2) / 5 + 365 * y2 + y2 / 4 - y2 / 100 + y2 / 400 - 32045

abbrev pub day_offset : ℕ
day_offset = 49

unfoldable pub sexagenary_day_index_from_date : ℕ → ℕ → ℕ → ℕ → ℕ
sexagenary_day_index_from_date y m d offset = (jdn_gregorian y m d + offset) % 60

pub record Pillar : Type 0 where
  pub stem_index : ℕ
  pub branch_index : ℕ

unfoldable pub pillar_from_index60 : ℕ → Pillar
pillar_from_index60 idx60 = record { stem_index = idx60 % 10; branch_index = idx60 % 12 }

unfoldable pub year_pillar_from_solar_year : ℤ → Pillar
unfolding pillar_from_index60
year_pillar_from_solar_year solar_year = pillar_from_index60 (floor_mod (solar_year -ℤ pos 1984) 60)

-- A group of a stem table: the stems that it is for, and its row.
pub record Group : Type 0 where
  pub stems : List ℕ
  pub row : List ℕ

abbrev row_from : List ℕ → List ℕ → Group
row_from stems row = record { stems = stems; row = row }

abbrev pub month_groups : List Group
month_groups =
    row_from (0 ∷ 5 ∷ []) (2 ∷ 3 ∷ 4 ∷ 5 ∷ 6 ∷ 7 ∷ 8 ∷ 9 ∷ 0 ∷ 1 ∷ 2 ∷ 3 ∷ [])
    ∷ row_from (1 ∷ 6 ∷ []) (4 ∷ 5 ∷ 6 ∷ 7 ∷ 8 ∷ 9 ∷ 0 ∷ 1 ∷ 2 ∷ 3 ∷ 4 ∷ 5 ∷ [])
    ∷ row_from (2 ∷ 7 ∷ []) (6 ∷ 7 ∷ 8 ∷ 9 ∷ 0 ∷ 1 ∷ 2 ∷ 3 ∷ 4 ∷ 5 ∷ 6 ∷ 7 ∷ [])
    ∷ row_from (3 ∷ 8 ∷ []) (8 ∷ 9 ∷ 0 ∷ 1 ∷ 2 ∷ 3 ∷ 4 ∷ 5 ∷ 6 ∷ 7 ∷ 8 ∷ 9 ∷ [])
    ∷ row_from (4 ∷ 9 ∷ []) (0 ∷ 1 ∷ 2 ∷ 3 ∷ 4 ∷ 5 ∷ 6 ∷ 7 ∷ 8 ∷ 9 ∷ 0 ∷ 1 ∷ [])
    ∷ []

abbrev pub hour_groups : List Group
hour_groups =
    row_from (0 ∷ 5 ∷ []) (0 ∷ 1 ∷ 2 ∷ 3 ∷ 4 ∷ 5 ∷ 6 ∷ 7 ∷ 8 ∷ 9 ∷ 0 ∷ 1 ∷ [])
    ∷ row_from (1 ∷ 6 ∷ []) (2 ∷ 3 ∷ 4 ∷ 5 ∷ 6 ∷ 7 ∷ 8 ∷ 9 ∷ 0 ∷ 1 ∷ 2 ∷ 3 ∷ [])
    ∷ row_from (2 ∷ 7 ∷ []) (4 ∷ 5 ∷ 6 ∷ 7 ∷ 8 ∷ 9 ∷ 0 ∷ 1 ∷ 2 ∷ 3 ∷ 4 ∷ 5 ∷ [])
    ∷ row_from (3 ∷ 8 ∷ []) (6 ∷ 7 ∷ 8 ∷ 9 ∷ 0 ∷ 1 ∷ 2 ∷ 3 ∷ 4 ∷ 5 ∷ 6 ∷ 7 ∷ [])
    ∷ row_from (4 ∷ 9 ∷ []) (8 ∷ 9 ∷ 0 ∷ 1 ∷ 2 ∷ 3 ∷ 4 ∷ 5 ∷ 6 ∷ 7 ∷ 8 ∷ 9 ∷ [])
    ∷ []

-- `_find_group`
unfoldable pub find_group : List Group → ℕ → Result Group
find_group [] stem_index = err key_error
find_group (group ∷ groups) stem_index =
    if contains group.stems stem_index then ok group else find_group groups stem_index

-- row[i]
abbrev pub item : Option ℕ → Result ℕ
item none = err index_error
item (some v) = ok v

-- `month_stem_for_year_stem` and `hour_stem_for_day_stem`, on the groups of their rule.
unfoldable pub stem_from_table : List Group → ℕ → ℕ → Result ℕ
unfolding find_group
stem_from_table groups stem_index i =
    find_group groups stem_index >>= λ group. item (get_elem? group.row i)

-- Without a ruleset the stem is computed.
unfoldable pub month_pillar_from_year_stem : ℕ → ℕ → Option (List Group) → Result Pillar
unfolding stem_from_table
month_pillar_from_year_stem year_stem_index month_index none = ok (record {
  stem_index = (year_stem_index * 2 + 2 + month_index) % 10;
  branch_index = (2 + month_index) % 12;
})
month_pillar_from_year_stem year_stem_index month_index (some groups) = do
  stem_index ← stem_from_table groups year_stem_index month_index
  ok (record { stem_index = stem_index; branch_index = (2 + month_index) % 12 })

unfoldable pub hour_pillar_from_day_stem : ℕ → ℕ → Option (List Group) → Result Pillar
unfolding stem_from_table
hour_pillar_from_day_stem day_stem_index hour_branch none =
    ok (record { stem_index = (day_stem_index * 2 + hour_branch) % 10; branch_index = hour_branch })
hour_pillar_from_day_stem day_stem_index hour_branch (some groups) = do
  stem_index ← stem_from_table groups day_stem_index hour_branch
  ok (record { stem_index = stem_index; branch_index = hour_branch })
