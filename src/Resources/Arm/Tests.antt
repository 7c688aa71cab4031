-- ===== src/Resources/Arm/Tests.antt =====
-- Runs of the readers for arm64 at fixed inputs, and the instances of their theorems.
use agent_resources.Prelude.{
  ℕ, ◌≤◌, ◌<◌, ◌≡◌, refl, arith, none, some, List, [], ◌∷◌, ◌++◌, length, All, done, replicate,
  true, pos, negsuc,
}
use agent_resources.Resources.{err_ok}
use agent_resources.Resources.Cpu.{Cpu}
use agent_resources.Text.{codes, before, c_string}
use agent_resources.Resources.Arm.Whole.{cpu_read_arm64_lem}
use agent_resources.Parse.Number.{IsDigit, decimal}
use agent_resources.Resources.Arm.{
  is_nul, cpu_read_arm64, Frequencies, store_frequency, cpu_read_enabled_core_cpu_frequency,
}
use agent_resources.Resources.Arm.Laws.{IsNumber, numbers_text, core_frequency_lem}

abbrev cpu : Cpu
cpu = record {
  total_time = 0;
  idle_time = 0;
  cores = 0;
  vendor = replicate 16 0;
  model = replicate 64 0;
  frequency = replicate 16 0;
}

-- Four cores.
abbrev files : Frequencies
files (pos n) = some (some 1800000)
files (negsuc n) = none

core_frequency_lem_example :
    (3 < 127
      → cpu_read_enabled_core_cpu_frequency 5 true files (some cpu) 3
        ≡ some (store_frequency true cpu (some (some 1800000))))
    × (127 ≤ 3
        → (fuel : ℕ) → cpu_read_enabled_core_cpu_frequency fuel true files (some cpu) 3 ≡ none)
core_frequency_lem_example = core_frequency_lem true files cpu 3

-- "0-3" and a newline.
abbrev numbers : List (List ℕ × ℕ)
numbers = (codes "0", b'-') ∷ (codes "3", 0x0a) ∷ []

numbers-IsNumber : All IsNumber numbers
numbers-IsNumber = (
  (omega arith, ((λ e. cc), (omega arith, refl))),
  ((omega arith, ((λ e. cc), (omega arith, refl))), tt),
)

abbrev model : List ℕ
model = codes "ortex" ++ 0 ∷ codes "A"

model_short : length (before is_nul (b'C' ∷ model)) < 64
unfolding before
model_short = omega arith

cpu_read_arm64_lem_example :
    (c' : Cpu) × (ds : List ℕ) × (cpu_read_arm64 5 true
        (some (some (numbers_text numbers)))
        (some (b'C' ∷ model))
        files
        (some cpu)
      ≡ some (done (err_ok, some c')))
    × (c'.cores ≡ 3)
    × (c_string c'.model ≡ done (before is_nul (b'C' ∷ model)))
    × (c_string c'.frequency ≡ done ds)
    × All IsDigit ds
    × (decimal 0 ds ≡ 1800000)
    × (c'.vendor ≡ replicate 16 0)
    × (c'.total_time ≡ 0)
    × (c'.idle_time ≡ 0)
cpu_read_arm64_lem_example =
    cpu_read_arm64_lem numbers b'C' model files 1800000 cpu numbers-IsNumber (omega arith)
      model_short refl (omega arith)
