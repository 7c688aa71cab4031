-- ===== src/Resources/Ram.antt =====
-- The memory of the machine: `ram_create` and `sys_ram_read` of libres/resources.cc.
pub mod Line
pub mod Laws
pub mod Reference
mod Tests
use agent_resources.Prelude.{
  ℕ, ◌*◌, Option, none, some, List, [], ◌∷◌, Run, done, fault, ◌>>=◌, Bool, false, if◌then◌else◌,
  ◌==◌, ◌||◌, length, assert_then,
}
use agent_resources.Memory.{Memory}
use agent_resources.Arena.{Arena, arena_create, arena_alloc, arena_destroy}
use agent_resources.Parse.{parse_u64}
use agent_resources.Text.{codes, after, before, skip, starts_with, is_space}
use agent_resources.Resources.{File, err_ok, err_io, err_invalid}

pub record SysMemory : Type 0 where
  pub total : ℕ
  pub free : ℕ

-- `sizeof(sys_memory)`
abbrev pub memory_size : ℕ
memory_size = 16

unfoldable pub ram_create : Option Arena → Memory → Option ℕ × Option Arena × Memory
ram_create arena m = arena_alloc arena memory_size m

-- The variables of the loop: the temporary arena with the memory, and the two buffers with their
-- lengths, which are `none` before they are first assigned. A buffer is its text: the blocks of an
-- arena lie apart, so nothing writes to it but the copy, and it is released unread.
pub record Buffers : Type 0 where
  pub arena : Option Arena
  pub memory : Memory
  pub total : Option (List ℕ)
  pub free : Option (List ℕ)

abbrev pub is_unit_end : ℕ → Bool
is_unit_end c = c == b'k' || c == 0x0a

-- What is done with the result of `PushArray`: the bytes are copied to it. A copy to NULL is undefined.
pub keep_copy : Buffers → (Buffers → Buffers) → Option ℕ × Option Arena × Memory → Run Buffers
keep_copy b put (none, arena, memory) = fault
keep_copy b put (some p, arena, memory) = done (put (record b { arena = arena; memory = memory }))

-- `PushArray` of as many bytes as the text has, and the copy.
pub save_text : List ℕ → Buffers → (Buffers → Buffers) → Run Buffers
save_text text b put = keep_copy b put (arena_alloc b.arena (length text) b.memory)

pub save_total : List ℕ → List ℕ → Buffers → Run Buffers
save_total line text b =
    if starts_with (codes "MemTotal") line
    then save_text text b (λ b. record b { total = some text })
    else done b

pub save_free : List ℕ → List ℕ → Buffers → Run Buffers
save_free line text b =
    if starts_with (codes "MemFree") line
    then save_text text b (λ b. record b { free = some text })
    else done b

pub ram_line : List ℕ → Buffers → Run Buffers
ram_line line b = elim (after b':' line) [
  | none ↦ done b
  | some rest ↦
      let text = before is_unit_end (skip is_space rest) in
      save_total line text b >>= save_free line text
]

pub ram_lines : List (List ℕ) → Buffers → Run Buffers
ram_lines [] b = done b
ram_lines (line ∷ lines) b = ram_line line b >>= ram_lines lines

-- `parse_u64` of a buffer that may not have been assigned.
unfoldable pub read_buffer : Option (List ℕ) → Run ℕ
read_buffer none = fault
read_buffer (some text) = parse_u64 text (length text)

-- `mapping` is what `mmap` returns for the temporary arena of 8 KiB. The last part of the result is
-- the call of `munmap` that is made.
unfoldable pub sys_ram_read :
    Bool
    → Option SysMemory
    → File
    → (ℕ → Option ℕ)
    → Memory
    → Run (ℕ × Option SysMemory × Option (ℕ × ℕ))
sys_ram_read asserts none file mapping m =
    assert_then asserts false (done (err_invalid, none, none))
sys_ram_read asserts (some out) none mapping m =
    assert_then asserts false (done (err_io, some out, none))
sys_ram_read asserts (some out) (some lines) mapping m = do
  b ←
      ram_lines lines
        (record { arena = arena_create mapping (8 * 1024); memory = m; total = none; free = none })
  total ← read_buffer b.total
  free ← read_buffer b.free
  done (err_ok, some (record { total = total; free = free }), arena_destroy b.arena)
