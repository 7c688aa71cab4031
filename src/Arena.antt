-- ===== src/Arena.antt =====
-- base/base_arena.h and base/base_arena.c: the bump allocator.
--
-- `Arena` is `mem_arena`. Its first field is where the struct itself lies: the pointer by which C
-- knows the arena, at which `mmap` placed it. The storage follows the struct. A pointer is a number,
-- and NULL is `none`. The functions that change the arena return it beside their result.
pub mod Valid
pub mod Alloc
pub mod Blocks
pub mod Scope
pub mod Resize
pub mod Calls
pub mod Owned
pub mod Refine
mod Tests
use agent_resources.Prelude.{
  ◌>>=◌, Bool, false, ℕ, ◌+◌, Option, none, some, ltb, if◌then◌else◌, add64, sub64, ◌-◌, ◌*◌, ◌/◌,
  ◌^◌, min, Run, done, fault, ◌&&◌, leb, ◌==◌, ◌||◌,
}
use agent_resources.Checks.{check_then}
use agent_resources.Mem.{is_pow, align, arena_align, minimum}
use agent_resources.Memory.{Memory, mem_set, mem_move}

pub record Arena : Type 0 where
  pub address : ℕ
  pub current_position : ℕ
  pub previous_position : ℕ
  pub capacity : ℕ
  pub base_position : ℕ

-- `sizeof(mem_arena)`: four fields of 8 bytes.
abbrev pub arena_header : ℕ
arena_header = 32

pub record TempArena : Type 0 where
  pub arena : ℕ
  pub start_position : ℕ

-- `mapping len` is the address that `mmap` returns for `len` bytes, or `none` for `MAP_FAILED`.
unfoldable pub arena_create : (ℕ → Option ℕ) → ℕ → Option Arena
arena_create mapping capacity = elim (mapping (add64 capacity arena_header)) [
  | none ↦ none
  | some address ↦ some (record {
    address = address;
    current_position = 0;
    previous_position = 0;
    capacity = capacity;
    base_position = address + arena_header;
  })
]

-- The call of `munmap` that is made: its address and its length.
unfoldable pub arena_destroy : Option Arena → Option (ℕ × ℕ)
arena_destroy none = none
arena_destroy (some a) = some (a.address, add64 a.capacity arena_header)

-- `arena_alloc` behind its test for NULL, where the `MemSet` at its end stays in the mapping, as it
-- does for every size that does not make the new position pass 2 ^ 64. The readers and the clients
-- ask for smaller sizes; `alloc_or_fault` has the other ones too.
unfoldable pub alloc : Arena → ℕ → Memory → Option ℕ × Arena × Memory
alloc a size m =
    let aligned = align a.current_position arena_align in
    let new_pos = add64 aligned size in
    if ltb a.capacity new_pos then (none, a, m) else (
      some (a.base_position + aligned),
      record a { current_position = add64 aligned size; previous_position = a.current_position },
      mem_set (a.base_position + aligned) size m,
    )

-- The block ends behind the storage, and so behind the mapping.
abbrev pub overruns : Arena → ℕ → Option ℕ → Bool
overruns a size none = false
overruns a size (some out) = ltb (a.base_position + a.capacity) (out + size)

-- The same for any size: a `MemSet` that runs past the mapping is a fault, so that nothing is
-- returned.
pub alloc_or_fault : Arena → ℕ → Memory → Run (Option ℕ × Arena × Memory)
alloc_or_fault a size m = let r = alloc a size m in if overruns a size r.0 then fault else done r

unfoldable pub arena_alloc : Option Arena → ℕ → Memory → Option ℕ × Option Arena × Memory
arena_alloc none size m = (none, none, m)
arena_alloc (some a) size m = let (out, a', m') = alloc a size m in (out, some a', m')

pub arena_pop : Arena → ℕ → Arena
arena_pop a size =
    let size' = minimum size a.current_position in
    record a { current_position = sub64 a.current_position size' }

pub arena_pop_to : Arena → ℕ → Arena
arena_pop_to a pos =
    let size = if ltb pos a.current_position then sub64 a.current_position pos else 0 in
    arena_pop a size

pub arena_clear : Arena → Arena
arena_clear a = record a { current_position = 0 }

pub temp_arena_begin : Arena → TempArena
temp_arena_begin a = record { arena = a.address; start_position = a.current_position }

pub temp_arena_end : TempArena → Arena → Arena
temp_arena_end temp a = record a { current_position = temp.start_position }

-- `x`, stored at an address with its lowest byte first, after its first `n` bytes are set to 0.
abbrev pub clear_bytes : ℕ → ℕ → ℕ
clear_bytes n x = let unit = 2 ^ (8 * min n 8) in x / unit * unit

-- `MemSet(&arena->current_position, n)`: the bytes from the first field of the struct on, and so the
-- four fields one after the other, and then the storage behind them. Past the mapping it is a fault.
pub clear_from_header : ℕ → ℕ → Arena → Memory → Run (Arena × Memory)
clear_from_header mapped_bytes n a m =
    if ltb mapped_bytes n
    then fault
    else done (
      record a {
        current_position = clear_bytes n a.current_position;
        previous_position = clear_bytes (n - 8) a.previous_position;
        capacity = clear_bytes (n - 16) a.capacity;
        base_position = clear_bytes (n - 24) a.base_position;
      },
      mem_set (a.address + arena_header) (n - arena_header) m,
    )

-- The block that `alloc` gave last, resized in place.
pub resize_last : Arena → ℕ → ℕ → ℕ → Memory → Run (Option ℕ × Arena × Memory)
resize_last a old new_size old_size m =
    let a' = record a { current_position = add64 a.previous_position new_size } in
    if ltb old_size new_size
    then (clear_from_header (a.capacity + arena_header) (sub64 new_size old_size) a' m >>= λ r.
        done (some old, r.0, r.1))
    else done (some old, a', m)

-- `memmove(new_memory, old_mem, copy_size)`, and NULL is returned. `memmove` to NULL is undefined.
pub move_block : ℕ → ℕ → Option ℕ × Arena × Memory → Run (Option ℕ × Arena × Memory)
move_block old copy_size (none, a, m) = fault
move_block old copy_size (some new_memory, a, m) =
    done (none, a, mem_move new_memory old copy_size m)

-- Any other block: its bytes are copied to a new block.
pub resize_other : Arena → ℕ → ℕ → ℕ → Memory → Run (Option ℕ × Arena × Memory)
resize_other a old new_size old_size m =
    alloc_or_fault a new_size m
    >>= move_block old (if ltb old_size new_size then old_size else new_size)

-- The arena is not NULL. The test on the alignment computes a value that nothing uses.
pub arena_resize_align : Arena → Option ℕ → ℕ → ℕ → ℕ → Memory → Run (Option ℕ × Arena × Memory)
arena_resize_align a none new_size old_size alignment m = alloc_or_fault a new_size m
arena_resize_align a (some old) new_size old_size alignment m =
    if old_size == 0
    then alloc_or_fault a new_size m
    else if leb a.base_position old && ltb old (a.base_position + a.capacity)
    then if a.base_position + a.previous_position == old
      then resize_last a old new_size old_size m
      else resize_other a old new_size old_size m
    else check_then 0 (done (none, a, m))

pub arena_resize : Arena → Option ℕ → ℕ → ℕ → Memory → Run (Option ℕ × Arena × Memory)
arena_resize a old new_size old_size m = arena_resize_align a old new_size old_size arena_align m
