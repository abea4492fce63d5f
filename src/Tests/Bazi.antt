-- ===== src/Tests/Bazi.antt =====
-- The theorems on bazi_engine/bazi.py at concrete inputs, and two known days.
use fufire_api_lunar.Prelude.{◌+◌, ◌%◌, ◌≡◌, refl, some, none, arith}
use fufire_api_lunar.Bazi.Pillars.{
  jdn_gregorian, sexagenary_day_index_from_date, day_offset, pillar_from_index60, month_groups,
  hour_groups, month_pillar_from_year_stem, hour_pillar_from_day_stem,
}
use fufire_api_lunar.Bazi.Pillars.Days.{Date, date, next, IsValid, jdn, jdn-next, day_pillar-next}
use fufire_api_lunar.Bazi.Pillars.Tables.{month_pillar_table, hour_pillar_table}

known_days :
    (jdn_gregorian 2000 1 1 ≡ 2451545) × (sexagenary_day_index_from_date 1949 10 1 day_offset ≡ 0)
unfolding jdn_gregorian sexagenary_day_index_from_date
known_days = (refl, refl)

abbrev leap_eve : Date
leap_eve = date 1900 2 28

leap_eve-IsValid : IsValid leap_eve
leap_eve-IsValid = record {
  from_year_one = omega arith;
  least_month = omega arith;
  greatest_month = omega arith;
  least_day = omega arith;
  greatest_day = omega arith;
}

jdn-next_example : jdn (next leap_eve) ≡ jdn leap_eve + 1
jdn-next_example = jdn-next leap_eve leap_eve-IsValid

day_pillar-next_example :
    let p = pillar_from_index60 (sexagenary_day_index_from_date 1900 2 28 49) in
    let u = next leap_eve in
    let q = pillar_from_index60 (sexagenary_day_index_from_date u.year u.month u.day 49) in
    (q.stem_index ≡ (p.stem_index + 1) % 10) × (q.branch_index ≡ (p.branch_index + 1) % 12)
day_pillar-next_example = day_pillar-next leap_eve 49 leap_eve-IsValid

month_pillar_table_example :
    month_pillar_from_year_stem 6 11 (some month_groups) ≡ month_pillar_from_year_stem 6 11 none
month_pillar_table_example = month_pillar_table 6 11 (omega arith) (omega arith)

hour_pillar_table_example :
    hour_pillar_from_day_stem 9 3 (some hour_groups) ≡ hour_pillar_from_day_stem 9 3 none
hour_pillar_table_example = hour_pillar_table 9 3 (omega arith) (omega arith)
