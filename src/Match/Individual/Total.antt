-- ===== src/Match/Individual/Total.antt =====
-- Under the shipped ruleset every normalized chart is analyzed.
use fufire_api_lunar.Prelude.{
  ℕ, ◌<◌, ◌≡◌, ◌⊎◌, refl, sym, ap, ◌∙◌, inl, inr, String, Bool, true, false, ◌&&◌, Option, none,
  some, List, [], ◌∷◌, Result, ok, err, arith, all_below, all_below_sound, get_or, ◌==◌, eq_ℕ,
  eq_String, Bool-cases,
}
use fufire_api_lunar.Prelude.Dict.{get, contains}
use fufire_api_lunar.Match.Values.{WuxingLedgerEntry, FourPillars, NormalizedChart}
use fufire_api_lunar.Match.Ruleset.{
  hidden_stems_for_branch, ten_god_for_relation, stems, wuxing_index, standard_bazi_2026,
}
use fufire_api_lunar.Match.TenGods.{
  stem_element, stem_polarity, element_relation, ten_god_for_stems,
}
use fufire_api_lunar.Match.Returns.{Returns, Returns-bind}
use fufire_api_lunar.Match.Normalize.Total.{
  AllInRange, Normal, is_known, all_known, known_index, and_true,
}
use fufire_api_lunar.Match.Individual.{
  build_derived_field_stubs, build_month_command, build_spouse_palace, occurrences_in,
  spouse_star_occurrences, spouse_star_result, computed_star, build_spouse_star, analyze_individual,
}

abbrev is_ok : {A : Type 0} → Result A → Bool
is_ok (err e) = false
is_ok (ok a) = true

is_ok-Returns : {A : Type 0} (r : Result A) → is_ok r ≡ true → Returns r (λ a. Unit {0})
is_ok-Returns (err e) h = absurd (cc h)
is_ok-Returns (ok a) h = (a, refl, tt)

-- A test that holds for each item of a list.
abbrev all_in : List String → (String → Bool) → Bool
all_in [] test = true
all_in (x ∷ xs) test = test x && all_in xs test

all_in_sound :
    (xs : List String) (test : String → Bool) (x : String)
    → all_in xs test ≡ true
    → contains xs x ≡ true
    → test x ≡ true
all_in_sound [] test x h m = absurd (cc m)
all_in_sound (y ∷ ys) test x h m =
    let (this, rest) = and_true (test y) (all_in ys test) h in
    elim (Bool-cases (y == x)) [
      | inl t ↦ rw (sym ((eq_String.beq_iff y x).0 t)) this
      | inr f ↦ all_in_sound ys test x rest (ground arith)
    ]

abbrev god_test : ℕ → String → Bool
god_test d stem = is_ok (ten_god_for_stems standard_bazi_2026 (get_or stems d "") stem)

god_table : all_below 10 (λ d. all_in stems (god_test d)) ≡ true
unfolding all_below ten_god_for_stems stem_element stem_polarity element_relation
    ten_god_for_relation
god_table = refl

god_returns :
    (d : ℕ) (stem : String)
    → d < 10
    → contains stems stem ≡ true
    → Returns (ten_god_for_stems standard_bazi_2026 (get_or stems d "") stem) (λ god. Unit {0})
god_returns d stem h m =
    is_ok-Returns (ten_god_for_stems standard_bazi_2026 (get_or stems d "") stem) (
      all_in_sound stems (god_test d) stem
        (all_below_sound 10 (λ d. all_in stems (god_test d)) d god_table h) m)

module _ {F : Type 0} where
  occurrences_in-total :
      (d : ℕ) (primary_gods : List String) (disruption_god : String)
      (ledger : List (WuxingLedgerEntry F))
      → d < 10
      → all_known ledger ≡ true
      → Returns
          (occurrences_in standard_bazi_2026 (get_or stems d "") primary_gods disruption_god ledger)
          (λ os. Unit {0})
  occurrences_in-total d primary_gods disruption_god [] h k = ([], refl, tt)
  occurrences_in-total d primary_gods disruption_god (entry ∷ ledger) h k =
      let (this, rest) = and_true (is_known entry) (all_known ledger) k in
      let (stem, element) =
        and_true (contains stems entry.stem) (known_index (get wuxing_index entry.element)) this in
      Returns-bind (ten_god_for_stems standard_bazi_2026 (get_or stems d "") entry.stem) _
        (god_returns d entry.stem h stem)
        (λ god _.
          Returns-bind
            (occurrences_in standard_bazi_2026 (get_or stems d "") primary_gods disruption_god
              ledger)
            _ (occurrences_in-total d primary_gods disruption_god ledger h rest)
            (λ os _. (_, refl, tt)))

-- The genders that a request may give, or none.
abbrev pub Accepted : Option String → Type 0
Accepted none = Unit
Accepted (some gender) = contains ("male" ∷ "female" ∷ "divers" ∷ []) gender ≡ true

module _ {F : Type 0} (chart : NormalizedChart F) where
  computed_star-total :
      (d : ℕ) (gender : String)
      → d < 10
      → chart.day_master ≡ get_or stems d ""
      → all_known chart.wuxing_ledger ≡ true
      → (gender ≡ "male") ⊎ (gender ≡ "female")
      → Returns (computed_star chart standard_bazi_2026 gender) (λ star. Unit {0})
  unfolding spouse_star_occurrences spouse_star_result
  computed_star-total d gender h m k (inl g) =
      rw (g, m)
        (Returns-bind
          (occurrences_in standard_bazi_2026 (get_or stems d "") ("DirectWealth" ∷ [])
            "IndirectWealth" chart.wuxing_ledger)
          _ (occurrences_in-total d ("DirectWealth" ∷ []) "IndirectWealth" chart.wuxing_ledger h k)
          (λ os _. (_, refl, tt)))
  computed_star-total d gender h m k (inr g) =
      rw (g, m)
        (Returns-bind
          (occurrences_in standard_bazi_2026 (get_or stems d "") ("DirectOfficer" ∷ [])
            "SevenKilling" chart.wuxing_ledger)
          _ (occurrences_in-total d ("DirectOfficer" ∷ []) "SevenKilling" chart.wuxing_ledger h k)
          (λ os _. (_, refl, tt)))

  other_gender :
      (gender : String)
      → Accepted (some gender)
      → (gender == "divers") ≡ false
      → (gender ≡ "male") ⊎ (gender ≡ "female")
  other_gender gender a n = ground (
    arith,
    eq_String.beq_iff gender "divers",
    eq_String.beq_iff "divers" gender,
    eq_String.beq_iff "male" gender,
    eq_String.beq_iff "female" gender,
  )

  star_of_divers :
      (gender : String)
      → (gender == "divers") ≡ true
      → Returns (build_spouse_star chart standard_bazi_2026 (some gender)) (λ star. Unit {0})
  unfolding build_spouse_star spouse_star_result
  star_of_divers gender t = rw (t, build_spouse_star) (_, refl, tt)

  star_of_other :
      (gender : String)
      → (gender == "divers") ≡ false
      → build_spouse_star chart standard_bazi_2026 (some gender)
        ≡ computed_star chart standard_bazi_2026 gender
  unfolding build_spouse_star
  star_of_other gender f = rw (f, build_spouse_star) refl

  build_spouse_star-total :
      (d : ℕ) (gender : Option String)
      → d < 10
      → chart.day_master ≡ get_or stems d ""
      → all_known chart.wuxing_ledger ≡ true
      → Accepted gender
      → Returns (build_spouse_star chart standard_bazi_2026 gender) (λ star. Unit {0})
  unfolding build_spouse_star spouse_star_result
  build_spouse_star-total d none h m k a = (_, refl, tt)
  build_spouse_star-total d (some gender) h m k a = elim (Bool-cases (gender == "divers")) [
    | inl t ↦ star_of_divers gender t
    | inr f ↦
        let (star, e, _) = computed_star-total d gender h m k (other_gender gender a f) in
        (star, star_of_other gender f ∙ e, tt)
  ]

  abbrev with_month : ℕ → ℕ → NormalizedChart F
  with_month s b = record chart {
    pillars = record chart.pillars { month = record { stem_index = s; branch_index = b } };
  }

  abbrev with_day : ℕ → ℕ → NormalizedChart F
  with_day s b = record chart {
    pillars = record chart.pillars { day = record { stem_index = s; branch_index = b } };
  }

  month_table :
      (s : ℕ)
      → all_below 12 (λ b. is_ok (build_month_command (with_month s b) standard_bazi_2026)) ≡ true
  unfolding all_below build_month_command hidden_stems_for_branch stem_element
  month_table s = refl

  day_table :
      (s : ℕ)
      → all_below 12 (λ b. is_ok (build_spouse_palace (with_day s b) standard_bazi_2026)) ≡ true
  unfolding all_below build_spouse_palace hidden_stems_for_branch
  day_table s = refl

element_table : all_below 10 (λ d. is_ok (stem_element (get_or stems d ""))) ≡ true
unfolding all_below stem_element
element_table = refl

pub analyze_individual-total :
    {F : Type 0} (chart : NormalizedChart F) (subject : String) (gender : Option String)
    (pillars : FourPillars)
    → AllInRange pillars
    → Normal pillars chart
    → Accepted gender
    → Returns (analyze_individual chart subject standard_bazi_2026 gender) (λ analysis.
      stem_element (get_or stems pillars.day.stem_index "") ≡ ok analysis.day_master_element)
unfolding analyze_individual build_derived_field_stubs
analyze_individual-total chart subject gender pillars v n a =
    let d = pillars.day.stem_index in
    let (element, e, _) = is_ok-Returns (stem_element (get_or stems d "")) (
      all_below_sound 10 (λ d. is_ok (stem_element (get_or stems d ""))) d element_table
        v.day.stem) in
    let month = chart.pillars.month.stem_index in
    let day = chart.pillars.day.stem_index in
    Returns-bind (stem_element chart.day_master) _ (element, ap stem_element n.day_master ∙ e, e)
      (λ el known.
        Returns-bind (build_month_command chart standard_bazi_2026) _
          (is_ok-Returns (build_month_command chart standard_bazi_2026) (
            all_below_sound 12
              (λ b. is_ok (build_month_command (with_month chart month b) standard_bazi_2026))
              chart.pillars.month.branch_index (month_table chart month)
              (rw n.same_pillars v.month.branch)))
          (λ mc _.
            Returns-bind (build_spouse_palace chart standard_bazi_2026) _
              (is_ok-Returns (build_spouse_palace chart standard_bazi_2026) (
                all_below_sound 12
                  (λ b. is_ok (build_spouse_palace (with_day chart day b) standard_bazi_2026))
                  chart.pillars.day.branch_index (day_table chart day)
                  (rw n.same_pillars v.day.branch)))
              (λ sp _.
                Returns-bind (build_spouse_star chart standard_bazi_2026 gender) _
                  (build_spouse_star-total chart d gender v.day.stem n.day_master n.known a)
                  (λ star _. (_, refl, known)))))
