-- ===== src/Dayun/Jiazi/Laws.antt =====
-- The cycle of sixty: every index has a pillar, and the steps forward and back undo one another.
use fufire_api_lunar.Prelude.{
  ℕ, ◌≡◌, refl, Bool, true, false, Result, ok, err, arith, all_below, all_below_sound, ◌==◌, eq_ℕ,
  beq_eq, ap, ◌∙◌,
}
use fufire_api_lunar.Prelude.Int.{ℤ, pos, ◌+ℤ◌, ◌-ℤ◌, floor_mod, floor_mod-lt}
use fufire_api_lunar.Dayun.Jiazi.{Jiazi, pillar_at, jiazi_at, jiazi_next, jiazi_prev}

abbrev found : Result Jiazi → ℕ → Bool
found (ok p) i = p.index60 == i
found (err e) i = false

found-ok :
    (r : Result Jiazi) (i : ℕ) → found r i ≡ true → (p : Jiazi) × (r ≡ ok p) × (p.index60 ≡ i)
found-ok (ok p) i h = (p, refl, beq_eq p.index60 i h)
found-ok (err e) i h = cc

pillars_test : all_below 60 (λ i. found (pillar_at i) i) ≡ true
unfolding all_below pillar_at
pillars_test = refl

-- Every integer index has a pillar, with its index in the cycle; a step forward and a step back from
-- there, or back and forward, lead to the same pillar.
pub jiazi_at_cycle :
    (index : ℤ)
    → (p : Jiazi) × (jiazi_at index ≡ ok p)
      × (p.index60 ≡ floor_mod index 60)
      × (jiazi_prev (pos (floor_mod (index +ℤ pos 1) 60)) ≡ ok p)
      × (jiazi_next (pos (floor_mod (index -ℤ pos 1) 60)) ≡ ok p)
unfolding jiazi_at jiazi_prev jiazi_next
jiazi_at_cycle index =
    let i = floor_mod index 60 in
    let (p, e, same) = found-ok (pillar_at i) i (
      all_below_sound 60 (λ i. found (pillar_at i) i) i pillars_test
        (floor_mod-lt index 60 (omega arith))) in
    (p, e, same, ap pillar_at (back index) ∙ e, ap pillar_at (forth index) ∙ e)
  where
    back :
        (index : ℤ)
        → floor_mod (pos (floor_mod (pos (floor_mod (index +ℤ pos 1) 60) -ℤ pos 1) 60)) 60
          ≡ floor_mod index 60
    back index = unfold ◌+ℤ◌ ◌-ℤ◌ in ground arith

    forth :
        (index : ℤ)
        → floor_mod (pos (floor_mod (pos (floor_mod (index -ℤ pos 1) 60) +ℤ pos 1) 60)) 60
          ≡ floor_mod index 60
    forth index = unfold ◌+ℤ◌ ◌-ℤ◌ in ground arith
