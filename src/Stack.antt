-- ===== src/Stack.antt =====
-- base/base_stack.h and base/base_stack.c: the stack allocator.
--
-- `Stack` is `mem_stack`, and pointers are as in `Arena`. The header in front of a block is two
-- bytes of memory, of which only the first, the padding, is ever written or read.
pub mod Padding
pub mod Push
pub mod Pop
pub mod Refine
mod Tests
use agent_resources.Prelude.{
  ℕ, ◌+◌, ◌-◌, ◌*◌, ◌/◌, ◌%◌, ◌^◌, Option, none, some, ltb, leb, ◌==◌, if◌then◌else◌, not, ◌&&◌,
  bit_and, Run, done, fault, ◌>>=◌, u8, add64, sub64, mul64,
}
use agent_resources.Mem.{is_pow, arena_align}
use agent_resources.Memory.{Memory, mem_set, mem_move, store_byte}

pub record Stack : Type 0 where
  pub address : ℕ
  pub base_position : ℕ
  pub current_offset : ℕ
  pub capacity : ℕ

-- `sizeof(mem_stack)` and `sizeof(mem_stack_header)`
abbrev pub stack_size : ℕ
stack_size = 24

abbrev pub header_size : ℕ
header_size = 2

pub stack_create : (ℕ → Option ℕ) → ℕ → Option Stack
stack_create mapping capacity = elim (mapping (add64 capacity stack_size)) [
  | none ↦ none
  | some address ↦ some (record {
    address = address;
    base_position = address + stack_size;
    current_offset = 0;
    capacity = capacity;
  })
]

-- What is added where the padding is smaller than the header. The division by an alignment of 0 is
-- undefined.
pub header_padding : ℕ → ℕ → ℕ → Run ℕ
header_padding padding alignment header =
    let rest = sub64 header padding in
    if alignment == 0
    then fault
    else if bit_and rest (sub64 alignment 1) == 0
    then done (add64 padding (mul64 alignment (rest / alignment)))
    else done (add64 padding (mul64 alignment (1 + rest / alignment)))

pub calculate_padding : ℕ → ℕ → ℕ → Run ℕ
calculate_padding pointer alignment header =
    if not (is_pow alignment)
    then done 0
    else (let modulo = bit_and pointer (sub64 alignment 1) in
        let padding = if modulo == 0 then sub64 alignment modulo else 0 in
        if ltb padding header then header_padding padding alignment header else done padding)

-- `stack_push_align` once the padding is known.
pub push_padded : Stack → ℕ → ℕ → Memory → Option ℕ × Stack × Memory
push_padded s size padding m =
    let current_address = s.base_position + s.current_offset in
    let next_address = current_address + padding in
    if ltb s.capacity (add64 (add64 s.current_offset padding) size) then (none, s, m) else (
      some next_address,
      record s { current_offset = add64 (add64 s.current_offset padding) size },
      mem_set next_address size (store_byte (next_address - header_size) (u8 padding) m),
    )

pub stack_push_align : Stack → ℕ → ℕ → Memory → Run (Option ℕ × Stack × Memory)
stack_push_align s size alignment m = if not (is_pow alignment) then done (none, s, m) else do
  padding ←
      calculate_padding (s.base_position + s.current_offset)
        (if ltb 128 alignment then 128 else alignment) header_size
  done (push_padded s size padding m)

pub stack_push : Stack → ℕ → Memory → Run (Option ℕ × Stack × Memory)
stack_push s size m = stack_push_align s size arena_align m

-- Nothing is done for a pointer outside the storage, nor for one that is not below
-- `start + (umm)stack->base_position`.
pub stack_pop : Stack → Option ℕ → Memory → Stack
stack_pop s none m = s
stack_pop s (some pointer) m =
    let start = s.base_position in
    if not (leb start pointer && ltb pointer (add64 start s.capacity))
    then s
    else if leb (add64 start s.base_position) pointer
    then s
    else record s { current_offset = sub64 (sub64 pointer (m (pointer - header_size))) start }

-- `memmove(new_pointer, pointer, min_size); return pointer`, where `memmove` to NULL is undefined.
pub move_block : ℕ → ℕ → Option ℕ × Stack × Memory → Run (Option ℕ × Stack × Memory)
move_block pointer min_size (none, s, m) = fault
move_block pointer min_size (some new_pointer, s, m) =
    done (some pointer, s, mem_move new_pointer pointer min_size m)

pub stack_resize_align : Stack → Option ℕ → ℕ → ℕ → ℕ → Memory → Run (Option ℕ × Stack × Memory)
stack_resize_align s none old_size new_size alignment m = stack_push_align s new_size alignment m
stack_resize_align s (some pointer) old_size new_size alignment m =
    let start = s.base_position in
    let min_size = if ltb old_size new_size then old_size else new_size in
    if new_size == 0
    then done (none, stack_pop s (some pointer) m, m)
    else if not (leb start pointer && ltb pointer (add64 start s.capacity))
    then done (none, s, m)
    else if leb (add64 start s.current_offset) pointer
    then done (none, s, m)
    else if old_size == new_size
    then done (some pointer, s, m)
    else stack_push_align s new_size alignment m >>= λ pushed. move_block pointer min_size pushed

pub stack_pop_all : Stack → Stack
stack_pop_all s = record s { current_offset = 0 }

pub stack_destroy : Option Stack → Option (ℕ × ℕ)
stack_destroy none = none
stack_destroy (some s) = some (s.address, add64 s.capacity stack_size)
