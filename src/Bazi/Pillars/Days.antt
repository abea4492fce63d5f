-- ===== src/Bazi/Pillars/Days.antt =====
-- The days in a row: each civil day has the next Julian day number and the next pillar.
use fufire_api_lunar.Prelude.{
  List, [], ◌∷◌, get_or, ◌-◌, ℕ, zero, suc, ◌+◌, ◌%◌, ◌≤◌, ◌≡◌, Bool, false, ◌&&◌, ◌||◌, not, ltb,
  arith, ◌==◌, eq_ℕ, if◌then◌else◌, Bool-cases, inl, inr, beq_eq, ap, ◌∙◌,
}
use fufire_api_lunar.Bazi.Pillars.{
  jdn_gregorian, sexagenary_day_index_from_date, pillar_from_index60,
}

-- The Gregorian calendar, as an independent description.
abbrev pub is_leap : ℕ → Bool
is_leap y = y % 4 == 0 && (y % 400 == 0 || not (y % 100 == 0))

abbrev month_lengths : ℕ → List ℕ
month_lengths february = 31 ∷ february ∷ 31 ∷ 30 ∷ 31 ∷ 30 ∷ 31 ∷ 31 ∷ 30 ∷ 31 ∷ 30 ∷ 31 ∷ []

abbrev pub days_in_month : ℕ → ℕ → ℕ
days_in_month y m = get_or (month_lengths (if is_leap y then 29 else 28)) (m - 1) 0

-- A civil day of the calendar.
pub record Date : Type 0 where
  pub day : ℕ
  pub month : ℕ
  pub year : ℕ

abbrev pub date : ℕ → ℕ → ℕ → Date
date y m d = record { day = d; month = m; year = y }

abbrev pub next : Date → Date
next t =
    if ltb t.day (days_in_month t.year t.month)
    then date t.year t.month (t.day + 1)
    else if t.month == 12
    then date (t.year + 1) 1 1
    else date t.year (t.month + 1) 1

pub record IsValid (t : Date) : Type 0 where
  pub from_year_one : 1 ≤ t.year
  pub least_month : 1 ≤ t.month
  pub greatest_month : t.month ≤ 12
  pub least_day : 1 ≤ t.day
  pub greatest_day : t.day ≤ days_in_month t.year t.month

abbrev pub jdn : Date → ℕ
jdn t = jdn_gregorian t.year t.month t.day

same_month :
    (y m d : ℕ) → 1 ≤ y → 1 ≤ m → m ≤ 12 → jdn_gregorian y m (d + 1) ≡ jdn_gregorian y m d + 1
unfolding jdn_gregorian
same_month y m d hy lo hi = omega arith

next_month :
    (y m : ℕ)
    → 1 ≤ y
    → 1 ≤ m
    → m ≤ 11
    → jdn_gregorian y (m + 1) 1 ≡ jdn_gregorian y m (days_in_month y m) + 1
unfolding jdn_gregorian
next_month y zero hy lo hi = absurd (omega arith)
next_month y (suc zero) hy lo hi = ground arith
next_month y (suc (suc zero)) hy lo hi = ground arith
next_month y (suc (suc (suc zero))) hy lo hi = ground arith
next_month y (suc (suc (suc (suc zero)))) hy lo hi = ground arith
next_month y (suc (suc (suc (suc (suc zero))))) hy lo hi = ground arith
next_month y (suc (suc (suc (suc (suc (suc zero)))))) hy lo hi = ground arith
next_month y (suc (suc (suc (suc (suc (suc (suc zero))))))) hy lo hi = ground arith
next_month y (suc (suc (suc (suc (suc (suc (suc (suc zero)))))))) hy lo hi = ground arith
next_month y (suc (suc (suc (suc (suc (suc (suc (suc (suc zero))))))))) hy lo hi = ground arith
next_month y (suc (suc (suc (suc (suc (suc (suc (suc (suc (suc zero)))))))))) hy lo hi =
    ground arith
next_month y (suc (suc (suc (suc (suc (suc (suc (suc (suc (suc (suc zero))))))))))) hy lo hi =
    ground arith
next_month y (suc (suc (suc (suc (suc (suc (suc (suc (suc (suc (suc (suc m)))))))))))) hy lo hi =
    absurd (omega arith)

next_year : (y : ℕ) → 1 ≤ y → jdn_gregorian (y + 1) 1 1 ≡ jdn_gregorian y 12 31 + 1
unfolding jdn_gregorian
next_year y hy = omega arith

-- The Julian day number of the next civil day is the next number, for every date from year 1 on.
pub jdn-next : (t : Date) → IsValid t → jdn (next t) ≡ jdn t + 1
jdn-next t v = elim (Bool-cases (ltb t.day (days_in_month t.year t.month))) [
  | inl inside ↦
      rw inside (same_month t.year t.month t.day v.from_year_one v.least_month v.greatest_month)
  | inr last ↦
      let full : t.day ≡ days_in_month t.year t.month = last_day last v.greatest_day in
      elim (Bool-cases (t.month == 12)) [
        | inl december ↦
            let twelve = beq_eq t.month 12 december in
            let end : t.day ≡ 31 = full ∙ ap (days_in_month t.year) twelve in
            rw (last, december, twelve, end) (next_year t.year v.from_year_one)
        | inr earlier ↦
            rw (last, earlier, full)
              (next_month t.year t.month v.from_year_one v.least_month
                (not_december earlier v.greatest_month))
      ]
]
  where
    last_day : {d n : ℕ} → ltb d n ≡ false → d ≤ n → d ≡ n
    last_day h k = ground arith

    not_december : {m : ℕ} → (m == 12) ≡ false → m ≤ 12 → m ≤ 11
    not_december h k = ground arith

-- The day pillar of the next civil day is the next in both cycles: its stem and its branch are one
-- further, whatever the offset.
pub day_pillar-next :
    (t : Date) (offset : ℕ)
    → IsValid t
    → let p = pillar_from_index60 (sexagenary_day_index_from_date t.year t.month t.day offset) in
      let u = next t in
      let q = pillar_from_index60 (sexagenary_day_index_from_date u.year u.month u.day offset) in
      (q.stem_index ≡ (p.stem_index + 1) % 10) × (q.branch_index ≡ (p.branch_index + 1) % 12)
unfolding sexagenary_day_index_from_date pillar_from_index60
day_pillar-next t offset v = steps (jdn t) (jdn (next t)) offset (jdn-next t v)
  where
    steps :
        (a b o : ℕ)
        → b ≡ a + 1
        → ((b + o) % 60 % 10 ≡ ((a + o) % 60 % 10 + 1) % 10)
          × ((b + o) % 60 % 12 ≡ ((a + o) % 60 % 12 + 1) % 12)
    steps a b o h = omega (arith, h)
