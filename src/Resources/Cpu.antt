-- ===== src/Resources/Cpu.antt =====
-- The processor on amd64: `cpu_create`, `cpu_read_amd64`, `cpu_read` and `cpu_read_usage` of
-- libres/resources.cc.
pub mod Info
pub mod Overflow
pub mod Reference
pub mod Sections
pub mod Whole
pub mod Usage
mod Tests
use agent_resources.Prelude.{
  ℕ, ◌+◌, ◌%◌, ◌^◌, Option, none, some, List, [], ◌∷◌, ◌++◌, Run, done, fault, ◌>>=◌, Bool, false,
  leb, if◌then◌else◌, u32, length, drop, assert_then, add64, ◌==◌,
}
use agent_resources.Memory.{Memory}
use agent_resources.Arena.{Arena, arena_alloc}
use agent_resources.Parse.{parse_u64}
use agent_resources.Text.{codes, after, before, skip, starts_with, is_newline, is_space, overlay}
use agent_resources.Resources.{File, err_ok, err_io, err_invalid}

-- `vendor`, `model` and `frequency` are arrays of 16, 64 and 16 bytes.
pub record Cpu : Type 0 where
  pub total_time : ℕ
  pub idle_time : ℕ
  pub cores : ℕ
  pub vendor : List ℕ
  pub model : List ℕ
  pub frequency : List ℕ

-- `sizeof(sys_cpu)`
abbrev pub cpu_size : ℕ
cpu_size = 120

unfoldable pub cpu_create : Option Arena → Memory → Option ℕ × Option Arena × Memory
cpu_create arena m = arena_alloc arena cpu_size m

-- `memcpy(array, val, len)` into an array of `size` bytes. No NUL is written behind the text.
pub copy_field : ℕ → List ℕ → List ℕ → Run (List ℕ)
copy_field size text array = if leb (length text) size then done (overlay text array) else fault

abbrev when : Bool → (Cpu → Run Cpu) → Cpu → Run Cpu
when test f c = if test then f c else done c

-- The value of a line: what stands behind its colon and the spaces there, up to the end of the line.
abbrev pub value_of : List ℕ → List ℕ
value_of rest = before is_newline (skip is_space rest)

-- What is done with a line that has a colon, `rest` behind it. `cpu cores` is parsed from the start
-- of the line.
pub cpu_entry : List ℕ → List ℕ → Cpu → Run Cpu
cpu_entry line rest c =
    let text = value_of rest in
    when (starts_with (codes "vendor_id") line)
      (λ c. copy_field 16 text c.vendor >>= λ v. done (record c { vendor = v })) c
    >>= when (starts_with (codes "model name") line)
        (λ c. copy_field 64 text c.model >>= λ v. done (record c { model = v }))
    >>= when (starts_with (codes "cpu MHz") line)
        (λ c. copy_field 16 text c.frequency >>= λ v. done (record c { frequency = v }))
    >>= when (starts_with (codes "cpu cores") line)
        (λ c. parse_u64 (line ++ 0 ∷ []) 512 >>= λ n. done (record c { cores = u32 n }))

pub cpu_line : List ℕ → Cpu → Run Cpu
cpu_line line c = elim (after b':' line) [ none ↦ done c | some rest ↦ cpu_entry line rest c ]

unfoldable pub cpu_lines : List (List ℕ) → Cpu → Run Cpu
cpu_lines [] c = done c
cpu_lines (line ∷ lines) c = cpu_line line c >>= cpu_lines lines

unfoldable pub cpu_read_amd64 : Bool → Option Cpu → File → Run (ℕ × Option Cpu)
cpu_read_amd64 asserts none file = assert_then asserts false (done (err_invalid, none))
cpu_read_amd64 asserts (some c) none = assert_then asserts false (done (err_io, some c))
cpu_read_amd64 asserts (some c) (some lines) = cpu_lines lines c >>= λ c'. done (err_ok, some c')

-- The result of `cpu_read_amd64` is only asserted.
unfoldable pub cpu_read : Bool → Option Cpu → File → Run (ℕ × Option Cpu)
cpu_read asserts none file = assert_then asserts false (done (err_invalid, none))
cpu_read asserts (some c) file = cpu_read_amd64 asserts (some c) file >>= λ r.
    assert_then asserts (r.0 == err_ok) (done (err_ok, r.1))

-- The eight counters of a line of /proc/stat.
pub record Times : Type 0 where
  pub user : ℕ
  pub nice : ℕ
  pub system : ℕ
  pub idle : ℕ
  pub iowait : ℕ
  pub irq : ℕ
  pub softirq : ℕ
  pub steal : ℕ

abbrev pub idle_all : Times → ℕ
idle_all t = add64 t.idle t.iowait

abbrev pub total_all : Times → ℕ
total_all t =
    add64
      (add64 (add64 (add64 (add64 (add64 (add64 t.user t.nice) t.system) t.idle) t.iowait) t.irq)
        t.softirq)
      t.steal

-- `scan text` is what `sscanf` reads from the text, if it reads all eight counters.
module _ (scan : List ℕ → Option Times) where
  pub usage_lines : List (List ℕ) → Cpu → Cpu
  usage_lines [] c = c
  usage_lines (line ∷ lines) c =
      let rest = usage_lines lines c in
      if starts_with (codes "cpu ") line
      then elim (scan (drop 4 line)) [
        | some t ↦ record c { idle_time = idle_all t; total_time = total_all t }
        | none ↦ rest
      ]
      else rest

  pub cpu_read_usage : Bool → Option Cpu → File → Run (ℕ × Option Cpu)
  cpu_read_usage asserts none file = assert_then asserts false (done (err_invalid, none))
  cpu_read_usage asserts (some c) none = assert_then asserts false (done (err_io, some c))
  cpu_read_usage asserts (some c) (some lines) = done (err_ok, some (usage_lines lines c))
