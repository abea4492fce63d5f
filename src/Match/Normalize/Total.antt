-- ===== src/Match/Normalize/Total.antt =====
-- Under the shipped ruleset every four pillars are normalized.
use fufire_api_lunar.Prelude.{
  ℕ, ◌<◌, ◌≡◌, refl, ◌∙◌, inl, inr, String, Bool, true, false, ◌&&◌, Option, none, some, List, [],
  ◌∷◌, ◌++◌, Result, ok, err, arith, all_below, all_below₂_sound, get_elem?, get_or,
  get_elem?-get_or, set, length, length-set, Option-cases, eq_ℕ, eq_String,
}
use fufire_api_lunar.Prelude.Dict.{get, contains}
use fufire_api_lunar.Bazi.Pillars.{Pillar}
use fufire_api_lunar.Match.Values.{WuxingLedgerEntry, FourPillars, NormalizedChart}
use fufire_api_lunar.Match.Ruleset.{
  hidden_stems_for_branch, stems, wuxing_index, Floats, standard_bazi_2026,
}
use fufire_api_lunar.Match.TenGods.{stem_element}
use fufire_api_lunar.Match.Returns.{Returns, Returns-bind}
use fufire_api_lunar.Match.Normalize.{
  pillar_entries, build_wuxing_ledger, add_entries, no_weights, wuxing_vector_from_ledger,
  normalize_chart,
}

-- Pillars that a chart has.
pub record InRange (pillar : Pillar) : Type 0 where
  pub stem : pillar.stem_index < 10
  pub branch : pillar.branch_index < 12

pub record AllInRange (pillars : FourPillars) : Type 0 where
  pub year : InRange pillars.year
  pub month : InRange pillars.month
  pub day : InRange pillars.day
  pub hour : InRange pillars.hour

abbrev pub known_index : Option ℕ → Bool
known_index none = false
known_index (some i) = true

pub and_true : (a b : Bool) → (a && b) ≡ true → (a ≡ true) × (b ≡ true)
and_true true b h = (refl, h)
and_true false b h = absurd (cc h)

module _ {F : Type 0} where
  -- A stem of the ten, and an element of the five.
  abbrev pub is_known : WuxingLedgerEntry F → Bool
  is_known entry = contains stems entry.stem && known_index (get wuxing_index entry.element)

  abbrev pub all_known : List (WuxingLedgerEntry F) → Bool
  all_known [] = true
  all_known (entry ∷ entries) = is_known entry && all_known entries

  abbrev check : Result (List (WuxingLedgerEntry F)) → Bool
  check (err e) = false
  check (ok entries) = all_known entries

  check_sound :
      (r : Result (List (WuxingLedgerEntry F)))
      → check r ≡ true
      → Returns r (λ entries. all_known entries ≡ true)
  check_sound (err e) h = absurd (cc h)
  check_sound (ok entries) h = (entries, refl, h)

  all_known-append :
      (xs ys : List (WuxingLedgerEntry F))
      → all_known xs ≡ true
      → all_known ys ≡ true
      → all_known (xs ++ ys) ≡ true
  all_known-append [] ys h k = k
  all_known-append (x ∷ xs) ys h k =
      let (this, rest) = and_true (is_known x) (all_known xs) h in
      rw this (all_known-append xs ys rest k)

module _ {F : Type 0} (floats : Floats F) where
  abbrev pillar_check : String → ℕ → ℕ → Bool
  pillar_check name d b =
      check (
        pillar_entries floats standard_bazi_2026 name (record { stem_index = d; branch_index = b }))

  pillar_table : (name : String) → all_below 10 (λ d. all_below 12 (pillar_check name d)) ≡ true
  unfolding all_below pillar_entries stem_element hidden_stems_for_branch
  pillar_table name = refl

  pillar_entries-known :
      (name : String) (pillar : Pillar)
      → InRange pillar
      → Returns
          (pillar_entries floats standard_bazi_2026 name pillar)
          (λ entries. all_known entries ≡ true)
  pillar_entries-known name pillar v =
      check_sound (pillar_entries floats standard_bazi_2026 name pillar) (
        all_below₂_sound 10 12 (pillar_check name) pillar.stem_index pillar.branch_index
          (pillar_table name) v.stem v.branch)

  ledger-known :
      (pillars : FourPillars)
      → AllInRange pillars
      → Returns
          (build_wuxing_ledger floats standard_bazi_2026 pillars)
          (λ entries. all_known entries ≡ true)
  unfolding build_wuxing_ledger
  ledger-known pillars v =
      let entries_of = pillar_entries floats standard_bazi_2026 in
      Returns-bind (entries_of "year" pillars.year) _
        (pillar_entries-known "year" pillars.year v.year)
        (λ ys ky.
          Returns-bind (entries_of "month" pillars.month) _
            (pillar_entries-known "month" pillars.month v.month)
            (λ ms km.
              Returns-bind (entries_of "day" pillars.day) _
                (pillar_entries-known "day" pillars.day v.day)
                (λ ds kd.
                  Returns-bind (entries_of "hour" pillars.hour) _
                    (pillar_entries-known "hour" pillars.hour v.hour)
                    (λ hs kh. (
                      ys ++ ms ++ ds ++ hs,
                      refl,
                      all_known-append (ys ++ ms ++ ds) hs
                          (all_known-append (ys ++ ms) ds (all_known-append ys ms ky km) kd) kh,
                    )))))

  index_small : (element : String) (i : ℕ) → get wuxing_index element ≡ some i → i < 5
  index_small element i h = ground arith

  add_entries-total :
      (values : List F) (entries : List (WuxingLedgerEntry F))
      → length values ≡ 5
      → all_known entries ≡ true
      → Returns (add_entries floats values entries) (λ more. Unit {0})
  add_entries-total values [] n h = (values, refl, tt)
  add_entries-total values (entry ∷ entries) n h =
      let (this, rest) = and_true (is_known entry) (all_known entries) h in
      let (stem, element) =
        and_true (contains stems entry.stem) (known_index (get wuxing_index entry.element)) this in
      elim (Option-cases (get wuxing_index entry.element)) [
        | inl e ↦ absurd (ground arith)
        | inr (i, e) ↦
            let small : i < length values = omega (arith, index_small entry.element i e) in
            rw (e, get_elem?-get_or values i floats.zero_weight small)
              (add_entries-total
                (set values i (floats.add (get_or values i floats.zero_weight) entry.weight))
                entries (length-set values i _ ∙ n) rest)
      ]

-- What a normalized chart has of the pillars it was made from.
pub record Normal {F : Type 0} (pillars : FourPillars) (chart : NormalizedChart F) : Type 0 where
  pub same_pillars : chart.pillars ≡ pillars
  pub day_master : chart.day_master ≡ get_or stems pillars.day.stem_index ""
  pub known : all_known chart.wuxing_ledger ≡ true

stem_found : (i : ℕ) → i < 10 → get_elem? stems i ≡ some (get_or stems i "")
stem_found i h = get_elem?-get_or stems i "" (omega arith)

pub normalize_chart-Normal :
    {F : Type 0} (floats : Floats F) (pillars : FourPillars) (birth_time_known : Bool)
    (subject : String)
    → AllInRange pillars
    → Returns
        (normalize_chart floats pillars birth_time_known subject standard_bazi_2026)
        (Normal pillars)
unfolding normalize_chart wuxing_vector_from_ledger
normalize_chart-Normal floats pillars birth_time_known subject v =
    Returns-bind (build_wuxing_ledger floats standard_bazi_2026 pillars) _
      (ledger-known floats pillars v)
      (λ ledger known.
        rw
          (
            stem_found pillars.day.stem_index v.day.stem,
            stem_found pillars.month.stem_index v.month.stem,
            stem_found pillars.hour.stem_index v.hour.stem,
          )
          (Returns-bind (add_entries floats (no_weights floats) ledger) _
            (add_entries-total floats (no_weights floats) ledger refl known)
            (λ vector _.
              (_, refl, record { same_pillars = refl; day_master = refl; known = known }))))
