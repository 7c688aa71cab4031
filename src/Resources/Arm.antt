-- ===== src/Resources/Arm.antt =====
-- The processor on arm64: `cpu_read_enabled_core_cpu_frequency`, `cpu_read_cpu_model_name_arm64`,
-- `cpu_get_cores_enabled_arm` and `cpu_read_arm64` of libres/resources.cc.
pub mod Laws
pub mod Whole
mod Tests
use agent_resources.Prelude.{
  ℕ, zero, suc, ◌+◌, ◌-◌, ◌*◌, ◌%◌, ◌^◌, Option, none, some, List, [], ◌∷◌, ◌++◌, Run, done,
  aborted, fault, ◌>>=◌, Bool, true, false, if◌then◌else◌, ◌==◌, ◌||◌, ltb, leb, length, take,
  assert_then, ℤ, to_i8,
}
use agent_resources.Checks.{check_then}
use agent_resources.Text.{before, overlay}
use agent_resources.Parse.{not_digit, write_digits}
use agent_resources.Resources.{err_ok, err_io, err_parse, err_invalid}
use agent_resources.Resources.Cpu.{Cpu}

-- The loop over the cores: `i` is the bit pattern of an `i8`, one that is negative from 128 on, and
-- `last` is the core whose path was written last. `none` is a loop that does not end within its fuel.
pub core_loop : ℕ → ℕ → ℕ → Option ℤ → Option (Option ℤ)
core_loop zero i count last = none
core_loop (suc fuel) i count last =
    let rest = core_loop fuel ((i + 1) % 2 ^ 8) count (some (to_i8 i)) in
    if leb (2 ^ 7) i || leb i count then rest else some last

-- The frequency that the file of a core holds. `none` is a file that cannot be opened; it holds
-- `none` if `fscanf` reads no number.
abbrev pub Frequencies : Type 0
Frequencies = ℤ → Option (Option ℕ)

-- `snprintf(array, 16, "%lu", freq)`
abbrev pub print_frequency : ℕ → List ℕ → List ℕ
print_frequency freq array = overlay (take 15 (write_digits 20 freq) ++ 0 ∷ []) array

pub store_frequency : Bool → Cpu → Option (Option ℕ) → Run (ℕ × Option Cpu)
store_frequency asserts c none = assert_then asserts false (done (err_io, some c))
store_frequency asserts c (some none) = assert_then asserts false (done (err_parse, some c))
store_frequency asserts c (some (some freq)) =
    done (err_ok, some (record c { frequency = print_frequency freq c.frequency }))

-- The file of the core whose path was written last is read.
pub read_frequency : Bool → Frequencies → Cpu → Option ℤ → Run (ℕ × Option Cpu)
read_frequency asserts files c none = fault
read_frequency asserts files c (some core) = store_frequency asserts c (files core)

-- `count` is not negative, as for its only caller.
pub cpu_read_enabled_core_cpu_frequency :
    ℕ → Bool → Frequencies → Option Cpu → ℕ → Option (Run (ℕ × Option Cpu))
cpu_read_enabled_core_cpu_frequency fuel asserts files none count =
    some (check_then 0 (done (err_invalid, none)))
cpu_read_enabled_core_cpu_frequency fuel asserts files (some c) count =
    elim (core_loop fuel 0 count none) [
      | none ↦ none
      | some last ↦ some (read_frequency asserts files c last)
    ]

abbrev pub is_nul : ℕ → Bool
is_nul c = c == 0

-- `memcpy(out->model, buffer, len); out->model[len] = 0`, for an array of 64 bytes.
pub copy_model : List ℕ → Cpu → Run (ℕ × Cpu)
copy_model text c =
    if ltb (length text) 64
    then done (err_ok, record c { model = overlay (text ++ 0 ∷ []) c.model })
    else fault

-- The file is the bytes that `fread` returns, at most 256.
pub cpu_read_cpu_model_name_arm64 : Bool → Cpu → Option (List ℕ) → Run (ℕ × Cpu)
cpu_read_cpu_model_name_arm64 asserts c none = assert_then asserts false (done (err_io, c))
cpu_read_cpu_model_name_arm64 asserts c (some []) = assert_then asserts false (done (err_io, c))
cpu_read_cpu_model_name_arm64 asserts c (some (b ∷ bytes)) =
    copy_model (before is_nul (b ∷ bytes)) c

abbrev pub larger : ℕ → ℕ → ℕ
larger v max_cpu = if ltb max_cpu v then v else max_cpu

-- `v` at the end of a number, if one was being read.
abbrev pub close_number : Option ℕ → ℕ → ℕ
close_number none max_cpu = max_cpu
close_number (some v) max_cpu = larger v max_cpu

abbrev pub value_so_far : Option ℕ → ℕ
value_so_far none = 0
value_so_far (some v) = v

-- Both loops over the text: `v` is the number that the inner loop is reading. An `int` that
-- overflows is undefined.
pub enabled_loop : List ℕ → Option ℕ → ℕ → Run ℕ
enabled_loop [] v max_cpu = done (close_number v max_cpu)
enabled_loop (c ∷ p) v max_cpu =
    let n = value_so_far v * 10 + (c - b'0') in
    let stop = not_digit c in
    let rest =
      enabled_loop p (if stop then none else some n)
        (if stop then close_number v max_cpu else max_cpu) in
    if stop || ltb n (2 ^ 31) then rest else fault

-- The file is the text that `fgets` returns. With `NDEBUG` the call of `fgets` is not compiled, and
-- bytes that were never written are read.
pub cpu_get_cores_enabled_arm : Bool → Cpu → Option (Option (List ℕ)) → Run (ℕ × Cpu)
cpu_get_cores_enabled_arm false c file = fault
cpu_get_cores_enabled_arm true c none = aborted
cpu_get_cores_enabled_arm true c (some none) = aborted
cpu_get_cores_enabled_arm true c (some (some text)) =
    enabled_loop text none 0 >>= λ n. done (err_ok, record c { cores = n })

-- The last step of `cpu_read_arm64`: the result of the frequency's reader is not looked at.
pub finish : Run (ℕ × Option Cpu) → Run (ℕ × Option Cpu)
finish r = r >>= λ q. done (err_ok, q.1)

pub frequency_then : ℕ → Bool → Frequencies → Run (ℕ × Cpu) → Option (Run (ℕ × Option Cpu))
frequency_then fuel asserts files aborted = some aborted
frequency_then fuel asserts files fault = some fault
frequency_then fuel asserts files (done (code, c)) =
    elim (cpu_read_enabled_core_cpu_frequency fuel asserts files (some c) c.cores) [
      | none ↦ none
      | some r ↦ some (finish r)
    ]

-- The results of the three readers are not looked at. `none` is a loop that does not end.
pub cpu_read_arm64 :
    ℕ
    → Bool
    → Option (Option (List ℕ))
    → Option (List ℕ)
    → Frequencies
    → Option Cpu
    → Option (Run (ℕ × Option Cpu))
cpu_read_arm64 fuel asserts enabled model files none =
    some (assert_then asserts false (done (err_invalid, none)))
cpu_read_arm64 fuel asserts enabled model files (some c) = frequency_then fuel asserts files (
    cpu_get_cores_enabled_arm asserts c enabled >>= λ r.
    cpu_read_cpu_model_name_arm64 asserts r.1 model)
