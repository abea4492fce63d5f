-- ===== src/Tests/Dayun.antt =====
-- The theorems on bazi_engine/dayun at concrete inputs.
use fufire_api_lunar.Prelude.{ℕ, ◌+◌, ◌%◌, ◌≡◌, ◌↔◌, refl, some, ok, true, arith, ◌==◌, eq_ℕ}
use fufire_api_lunar.Prelude.Int.{pos, negsuc, ◌+ℤ◌, ◌-ℤ◌, floor_mod}
use fufire_api_lunar.Dayun.Relation.Laws.{ten_god_inj}
use fufire_api_lunar.Dayun.Jiazi.{Jiazi, jiazi_at, jiazi_next, jiazi_prev}
use fufire_api_lunar.Dayun.Jiazi.Laws.{jiazi_at_cycle}
use fufire_api_lunar.Dayun.Interpretation.{combines, clashes, combines_clashes_lem}
use fufire_api_lunar.Dayun.Direction.{traditional_payload, resolve_direction}
use fufire_api_lunar.Dayun.Direction.Laws.{Rule, resolve_direction_iff}

resolve_direction_iff_example :
    (resolve_direction (traditional_payload (some "yin") (some "female")) ≡ ok "forward")
    ↔ Rule (traditional_payload (some "yin") (some "female")) "forward"
resolve_direction_iff_example =
    resolve_direction_iff (traditional_payload (some "yin") (some "female")) "forward"

ten_god_inj_example : let stem : ℕ = 4 in stem ≡ stem
ten_god_inj_example = ten_god_inj 8 4 4 (omega arith) (omega arith) (omega arith) refl

jiazi_at_cycle_example :
    (p : Jiazi) × (jiazi_at (negsuc 0) ≡ ok p)
    × (p.index60 ≡ floor_mod (negsuc 0) 60)
    × (jiazi_prev (pos (floor_mod (negsuc 0 +ℤ pos 1) 60)) ≡ ok p)
    × (jiazi_next (pos (floor_mod (negsuc 0 -ℤ pos 1) 60)) ≡ ok p)
jiazi_at_cycle_example = jiazi_at_cycle (negsuc 0)

combines_clashes_lem_example :
    (combines 2 11 ≡ ((2 + 11) % 12 == 1)) × ((clashes 2 11 ≡ true) ↔ ((2 + 6) % 12 ≡ 11))
combines_clashes_lem_example = combines_clashes_lem 2 11 (omega arith) (omega arith)
