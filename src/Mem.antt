-- ===== src/Mem.antt =====
-- base/base_mem.c and base/base_mem.h: alignment arithmetic on `u64`, and `MIN`.
pub mod Laws
mod Tests
use agent_resources.Prelude.{
  ℕ, ◌+◌, ◌-◌, ◌*◌, ◌^◌, ◌%◌, bit_and, Bool, ltb, ◌==◌, if◌then◌else◌, sub64, add64, not64,
}

-- `ARENA_ALIGN`, with pointers of 8 bytes.
abbrev pub arena_align : ℕ
arena_align = 2 * 8

abbrev pub minimum : ℕ → ℕ → ℕ
minimum a b = if ltb a b then a else b

unfoldable pub is_pow : ℕ → Bool
is_pow x = bit_and x (sub64 x 1) == 0

unfoldable pub align : ℕ → ℕ → ℕ
align pointer alignment =
    if bit_and alignment (sub64 alignment 1) == 0
    then pointer
    else bit_and (sub64 (add64 pointer alignment) 1) (not64 (sub64 alignment 1))
