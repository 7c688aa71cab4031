-- ===== src/Resources/Arm/Laws.antt =====
-- What the readers for arm64 return.
use agent_resources.Prelude.{
  ℕ, zero, suc, ◌+◌, ◌-◌, ◌*◌, ◌%◌, ◌^◌, ◌≤◌, ◌<◌, ◌≡◌, ◌≢◌, refl, arith, Option, none, some, List,
  [], ◌∷◌, ◌++◌, All, done, Bool, true, false, ◌∙◌, ap, ◌||◌, ltb, leb, ℤ, pos, to_i8,
}
use agent_resources.Parse.{not_digit}
use agent_resources.Parse.Number.{IsDigit, decimal, digit_test}
use agent_resources.Resources.{err_ok}
use agent_resources.Resources.Cpu.{Cpu}
use agent_resources.Resources.Arm.{
  core_loop, enabled_loop, larger, cpu_get_cores_enabled_arm, cpu_read_enabled_core_cpu_frequency,
  Frequencies, read_frequency, store_frequency,
}

core_loop-more :
    (fuel i count : ℕ) (last : Option ℤ)
    → i < 128
    → i ≤ count
    → core_loop (suc fuel) i count last ≡ core_loop fuel (i + 1) count (some (to_i8 i))
unfolding core_loop
core_loop-more fuel i count last small h = rw (test, next) refl
  where
    test : (leb (2 ^ 7) i || leb i count) ≡ true
    test = ground arith

    next : (i + 1) % 2 ^ 8 ≡ i + 1
    next = omega arith

to_i8-small : (i : ℕ) → i < 128 → to_i8 i ≡ pos i
to_i8-small i h = ground arith

core_loop-stop :
    (fuel i count : ℕ) (last : Option ℤ)
    → i < 128
    → count < i
    → core_loop (suc fuel) i count last ≡ some last
unfolding core_loop
core_loop-stop fuel i count last small h = rw test refl
  where
    test : (leb (2 ^ 7) i || leb i count) ≡ false
    test = ground arith

-- With `k` more cores behind `i`, the last of them is the one whose path is written last.
core_loop-ends :
    (k fuel i count : ℕ) (last : Option ℤ)
    → i + k ≡ count
    → count < 127
    → k + 2 ≤ fuel
    → core_loop fuel i count last ≡ some (some (pos count))
core_loop-ends k zero i count last e h f = absurd (omega arith)
core_loop-ends k (suc zero) i count last e h f = absurd (omega arith)
core_loop-ends zero (suc (suc fuel)) i count last e h f =
    core_loop-more (suc fuel) i count last (omega arith) (omega arith)
    ∙ core_loop-stop fuel (i + 1) count (some (to_i8 i)) (omega arith) (omega arith)
    ∙ ap (λ (c : ℤ). some (some c)) (to_i8-small i (omega arith) ∙ ap pos (omega arith))
core_loop-ends (suc k) (suc (suc fuel)) i count last e h f =
    core_loop-more (suc fuel) i count last (omega arith) (omega arith)
    ∙ core_loop-ends k (suc fuel) (i + 1) count (some (to_i8 i)) (omega arith) h (omega arith)

-- With 127 for `count` or more, no pattern of an `i8` ends the loop.
core_loop-diverges :
    (fuel i count : ℕ) (last : Option ℤ)
    → i < 256
    → 127 ≤ count
    → core_loop fuel i count last ≡ none
unfolding core_loop
core_loop-diverges zero i count last h big = refl
core_loop-diverges (suc fuel) i count last h big =
    rw test (core_loop-diverges fuel ((i + 1) % 2 ^ 8) count (some (to_i8 i)) (omega arith) big)
  where
    test : (leb (2 ^ 7) i || leb i count) ≡ true
    test = ground arith

-- With the highest core at most 126, `cpu_read_enabled_core_cpu_frequency` returns, on `count + 2`
-- rounds, and reads the file of that core alone: a frequency that is found there is printed. With
-- 127 or more it never returns, whatever the fuel: its `i8` counter cannot pass that number.
pub core_frequency_lem :
    (asserts : Bool) (files : Frequencies) (c : Cpu) (count : ℕ)
    → (count < 127
        → cpu_read_enabled_core_cpu_frequency (count + 2) asserts files (some c) count
          ≡ some (store_frequency asserts c (files (pos count))))
      × (127 ≤ count
          → (fuel : ℕ)
          → cpu_read_enabled_core_cpu_frequency fuel asserts files (some c) count ≡ none)
unfolding cpu_read_enabled_core_cpu_frequency read_frequency
core_frequency_lem asserts files c count = (
  λ h.
      rw
        (
          cpu_read_enabled_core_cpu_frequency,
          core_loop-ends count (count + 2) 0 count none (omega arith) h (omega arith),
        )
        refl,
  λ h fuel.
      rw (cpu_read_enabled_core_cpu_frequency, core_loop-diverges fuel 0 count none (omega arith) h)
        refl,
)

-- The text of numbers, each with one byte behind it that is no digit.
abbrev pub numbers_text : List (List ℕ × ℕ) → List ℕ
numbers_text [] = []
numbers_text ((ds, c) ∷ rest) = ds ++ c ∷ numbers_text rest

-- A number of digits alone, at least one, that an `int` can hold, and no digit behind it.
abbrev pub IsNumber : List ℕ × ℕ → Type 0
IsNumber (ds, c) = All IsDigit ds × ((ds ≢ []) × ((decimal 0 ds < 2 ^ 31) × (not_digit c ≡ true)))

abbrev pub largest : ℕ → List (List ℕ × ℕ) → ℕ
largest m [] = m
largest m ((ds, c) ∷ rest) = largest (larger (decimal 0 ds) m) rest

decimal-le : (ds : List ℕ) (v : ℕ) → v ≤ decimal v ds
decimal-le [] v = omega arith
decimal-le (c ∷ ds) v = omega (arith, decimal-le ds (v * 10 + (c - b'0')))

inside_number :
    (ds : List ℕ) (v m c : ℕ) (p : List ℕ)
    → All IsDigit ds
    → decimal v ds < 2 ^ 31
    → not_digit c ≡ true
    → enabled_loop (ds ++ c ∷ p) (some v) m ≡ enabled_loop p none (larger (decimal v ds) m)
unfolding enabled_loop
inside_number [] v m c p d h n = rw n refl
inside_number (x ∷ ds) v m c p d h n =
    rw (digit_test x d.0, small) (inside_number ds (v * 10 + (x - b'0')) m c p d.1 h n)
  where
    small : ltb (v * 10 + (x - b'0')) (2 ^ 31) ≡ true
    small = ground (arith, decimal-le ds (v * 10 + (x - b'0')))

one_number :
    (ds : List ℕ) (m c : ℕ) (p : List ℕ)
    → IsNumber (ds, c)
    → enabled_loop (ds ++ c ∷ p) none m ≡ enabled_loop p none (larger (decimal 0 ds) m)
unfolding enabled_loop
one_number [] m c p (d, (e, (h, n))) = absurd (e refl)
one_number (x ∷ ds) m c p (d, (e, (h, n))) =
    rw (digit_test x d.0, small) (inside_number ds (0 * 10 + (x - b'0')) m c p d.1 h n)
  where
    small : ltb (0 * 10 + (x - b'0')) (2 ^ 31) ≡ true
    small = ground (arith, decimal-le ds (0 * 10 + (x - b'0')))

enabled_loop-largest :
    (ns : List (List ℕ × ℕ)) (m : ℕ)
    → All IsNumber ns
    → enabled_loop (numbers_text ns) none m ≡ done (largest m ns)
unfolding enabled_loop
enabled_loop-largest [] m h = refl
enabled_loop-largest ((ds, c) ∷ ns) m h =
    one_number ds m c (numbers_text ns) h.0 ∙ enabled_loop-largest ns (larger (decimal 0 ds) m) h.1

-- From a text of numbers with single bytes between them, such as `0-3` and a newline,
-- `cpu_get_cores_enabled_arm` stores the largest number as the number of cores: the highest index.
pub cores_enabled_lem :
    (c : Cpu) (ns : List (List ℕ × ℕ))
    → All IsNumber ns
    → cpu_get_cores_enabled_arm true c (some (some (numbers_text ns)))
      ≡ done (err_ok, record c { cores = largest 0 ns })
unfolding cpu_get_cores_enabled_arm
cores_enabled_lem c ns h = rw (enabled_loop-largest ns 0 h) refl
