-- ===== src/Resources/Status.antt =====
-- `process_read` of libres/resources.cc: one process, from /proc/PID/status.
pub mod Laws
pub mod Whole
pub mod Reference
mod Tests
use agent_resources.Prelude.{
  ℕ, suc, ◌+◌, Option, none, some, List, [], ◌∷◌, ◌++◌, Run, done, fault, ◌>>=◌, Bool, true, false,
  ltb, leb, ◌==◌, ◌&&◌, ◌||◌, if◌then◌else◌, length, ℤ, pos, to_i8,
}
use agent_resources.Parse.{parse_u64}
use agent_resources.Text.{codes, after, before, skip, starts_with, is_newline, is_space, overlay}
use agent_resources.Resources.{File, err_ok, err_io}

-- `sys_proc_state`
pub data ProcState : Type 0 where
  undefined running sleeping disk_sleeping stopped tracing_stopped zombie dead idle : ProcState

-- `name` is an array of 16 bytes.
pub record Process : Type 0 where
  pub name : List ℕ
  pub num_threads : ℤ
  pub stime : ℕ
  pub utime : ℕ
  pub pid : ℤ
  pub state : ProcState

-- The first byte of the value that is a capital letter or `t`, or 0.
pub state_char : List ℕ → ℕ
state_char [] = 0
state_char (c ∷ s) = if (leb b'A' c && leb c b'Z') || c == b't' then c else state_char s

-- The `switch` on that byte.
pub state_of : ℕ → ProcState
state_of c =
    if c == b'R'
    then running
    else if c == b'S'
    then sleeping
    else if c == b'D'
    then disk_sleeping
    else if c == b'T'
    then sleeping
    else if c == b't'
    then tracing_stopped
    else if c == b'Z'
    then zombie
    else if c == b'X'
    then dead
    else if c == b'I'
    then idle
    else undefined

abbrev pub is_blank : ℕ → Bool
is_blank c = c == 0x20 || c == 0x09

-- `memcpy(out->name, val, len); out->name[len] = 0`
pub copy_name : List ℕ → List ℕ → Run (List ℕ)
copy_name text array = if ltb (length text) 16 then done (overlay (text ++ 0 ∷ []) array) else fault

pub read_state : List ℕ → List ℕ → Process → Run Process
read_state line val p =
    if starts_with (codes "State:") line
    then done (record p { state = state_of (state_char val) })
    else done p

-- The number of threads is read from at most `sizeof(val)` bytes, the size of a pointer.
pub read_threads : List ℕ → List ℕ → Process → Run Process
read_threads line val p =
    if starts_with (codes "Threads:") line
    then parse_u64 (val ++ 0 ∷ []) 8 >>= (λ n. done (record p { num_threads = to_i8 n }))
    else done p

pub read_name : List ℕ → List ℕ → Process → Run Process
read_name line val p =
    if starts_with (codes "Name:") line
    then copy_name (before is_newline val) p.name >>= (λ n. done (record p { name = n }))
    else done p

-- What is done with a line that has a colon, with its value behind it.
pub status_entry : List ℕ → List ℕ → Process → Run Process
status_entry line val p = read_name line val p >>= read_state line val >>= read_threads line val

pub status_line : List ℕ → Process → Run Process
status_line line p = elim (after b':' line) [
  | none ↦ done p
  | some rest ↦ status_entry line (skip is_blank rest) p
]

pub status_lines : List (List ℕ) → Process → Run Process
status_lines [] p = done p
status_lines (line ∷ lines) p = status_line line p >>= status_lines lines

-- `closed` says that `fclose` returned 0.
pub process_read : ℤ → Process → File → Bool → Run (ℕ × Process)
process_read pid out none closed = done (err_io, out)
process_read pid out (some lines) closed = status_lines lines (record out { pid = pid }) >>= λ p.
    done ((if closed then err_ok else err_io), p)
