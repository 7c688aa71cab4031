-- ===== src/Mem/Tests.antt =====
-- Runs of the alignment code at fixed inputs, and the instances of its theorems.
use agent_resources.Prelude.{◌⊎◌, ◌≡◌, refl, true, false, arith}
use agent_resources.Mem.{is_pow, align}
use agent_resources.Mem.Laws.{IsZeroOrPower, IsRounded, align_lem}

is_pow_runs : (is_pow 0 ≡ true) × (is_pow 16 ≡ true) × (is_pow 24 ≡ false)
unfolding is_pow
is_pow_runs = (refl, refl, refl)

align_runs : (align 5 16 ≡ 5) × (align 5 3 ≡ 5) × (align 6 3 ≡ 8)
unfolding align
align_runs = (refl, refl, refl)

align_lem_example :
    (IsZeroOrPower 24 × (align 100 24 ≡ 100))
    ⊎ ((¬ IsZeroOrPower 24) × IsRounded 100 24 (align 100 24))
align_lem_example = align_lem 100 24 (omega arith)
