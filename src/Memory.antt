-- ===== src/Memory.antt =====
-- Byte-addressed memory, with what `memset` to 0 and `memmove` do to it.
use agent_resources.Prelude.{
  ℕ, ◌+◌, ◌-◌, ◌≤◌, ◌<◌, ◌≡◌, ◌⊎◌, arith, ltb, leb, ◌&&◌, if◌then◌else◌, Bool, ◌==◌,
}

-- The byte at each address.
abbrev pub Memory : Type 0
Memory = ℕ → ℕ

-- `a` lies among the `len` addresses from `start` on.
abbrev pub within : ℕ → ℕ → ℕ → Bool
within start len a = leb start a && ltb a (start + len)

-- `MemSet(dest, len)`
pub mem_set : ℕ → ℕ → Memory → Memory
mem_set dest len m a = if within dest len a then 0 else m a

-- `MemCpy(dest, src, len)` and `memmove(dest, src, len)`: all bytes are read before any is written.
pub mem_move : ℕ → ℕ → ℕ → Memory → Memory
mem_move dest src len m a = if within dest len a then m (src + (a - dest)) else m a

pub store_byte : ℕ → ℕ → Memory → Memory
store_byte p v m a = if a == p then v else m a

pub mem_set_inside :
    (dest len : ℕ) (m : Memory) (i : ℕ) → i < len → mem_set dest len m (dest + i) ≡ 0
unfolding mem_set
mem_set_inside dest len m i h = ground arith

pub mem_set_within :
    (dest len : ℕ) (m : Memory) (a : ℕ) → dest ≤ a → a < dest + len → mem_set dest len m a ≡ 0
unfolding mem_set
mem_set_within dest len m a l u = ground arith

pub mem_set_outside :
    (dest len : ℕ) (m : Memory) (a : ℕ) → (a < dest) ⊎ (dest + len ≤ a) → mem_set dest len m a ≡ m a
unfolding mem_set
mem_set_outside dest len m a h = ground arith

pub mem_move_inside :
    (dest src len : ℕ) (m : Memory) (i : ℕ)
    → i < len
    → mem_move dest src len m (dest + i) ≡ m (src + i)
unfolding mem_move
mem_move_inside dest src len m i h = ground arith

pub mem_move_outside :
    (dest src len : ℕ) (m : Memory) (a : ℕ)
    → (a < dest) ⊎ (dest + len ≤ a)
    → mem_move dest src len m a ≡ m a
unfolding mem_move
mem_move_outside dest src len m a h = ground arith

pub store_byte_self : (p v : ℕ) (m : Memory) → store_byte p v m p ≡ v
unfolding store_byte
store_byte_self p v m = ground arith

pub store_byte_other : (p v : ℕ) (m : Memory) (a : ℕ) → (a < p) ⊎ (p < a) → store_byte p v m a ≡ m a
unfolding store_byte
store_byte_other p v m a h = ground arith
