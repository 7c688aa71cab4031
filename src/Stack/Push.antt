-- ===== src/Stack/Push.antt =====
-- `stack_push_align` on each of its branches, and the invariant of the stack.
use agent_resources.Prelude.{
  ℕ, ◌+◌, ◌-◌, ◌^◌, ◌≤◌, ◌<◌, ◌≡◌, ◌⊎◌, inl, inr, none, some, arith, refl, done, ◌∙◌, true, add64,
  u8, ltb, le→ltb,
}
use native.Mathlib.Nat.{pow-le-pow_right}
use agent_resources.Memory.{
  Memory, mem_set, store_byte, mem_set_inside, mem_set_outside, store_byte_self, store_byte_other,
}
use agent_resources.Mem.Laws.{is_pow-pow}
use agent_resources.Stack.{Stack, push_padded, stack_push_align, header_size}
use agent_resources.Stack.Padding.{calculate_padding-pow, two-le-pow}

-- The storage lies in the lower half of the addresses, and is not longer than its own address.
pub record IsValid (s : Stack) : Type 0 where
  pub offset_in : s.current_offset ≤ s.capacity
  pub no_wrap : s.base_position + s.base_position < 2 ^ 64
  pub low : s.capacity ≤ s.base_position
  pub behind : 2 ≤ s.base_position

-- The address at which the free part of the storage starts.
abbrev pub free_from : Stack → ℕ
free_from s = s.base_position + s.current_offset

-- The stack after a block of `size` bytes behind `padding` bytes.
abbrev pub grown : Stack → ℕ → ℕ → Stack
grown s padding size = record s { current_offset = s.current_offset + padding + size }

abbrev pub block_memory : Stack → ℕ → ℕ → Memory → Memory
block_memory s padding size m =
    mem_set (free_from s + padding) size
      (store_byte (free_from s + padding - header_size) (u8 padding) m)

pub push-small :
    (s : Stack) (size k : ℕ) (m : Memory)
    → 0 < k
    → k ≤ 7
    → stack_push_align s size (2 ^ k) m ≡ done (push_padded s size (2 ^ k) m)
unfolding stack_push_align
push-small s size k m h w =
    rw
      (
        is_pow-pow k (omega arith),
        le→ltb 128 (2 ^ k) (pow-le-pow_right {n = 2} (omega arith) {i = k} {j = 7} w),
        (calculate_padding-pow (s.base_position + s.current_offset) k h (omega arith)).0,
      )
      refl

pub push-large :
    (s : Stack) (size k : ℕ) (m : Memory)
    → 7 < k
    → k < 64
    → stack_push_align s size (2 ^ k) m ≡ done (push_padded s size 128 m)
unfolding stack_push_align
push-large s size k m h w =
    rw
      (
        is_pow-pow k w,
        over,
        (calculate_padding-pow (s.base_position + s.current_offset) 7 (omega arith)
            (omega arith)).0,
      )
      refl
  where
    over : ltb 128 (2 ^ k) ≡ true
    over = ground (arith, pow-le-pow_right {n = 2} (omega arith) {i = 8} {j = k} h)

pub push_padded-fits :
    (s : Stack) (size padding : ℕ) (m : Memory)
    → IsValid s
    → s.current_offset + padding + size ≤ s.capacity
    → push_padded s size padding m
      ≡ (some (free_from s + padding), grown s padding size, block_memory s padding size m)
unfolding push_padded
push_padded-fits s size padding m v h =
    rw (total, le→ltb s.capacity (s.current_offset + padding + size) h) refl
  where
    total : add64 (add64 s.current_offset padding) size ≡ s.current_offset + padding + size
    total = omega arith

pub push_padded-full :
    (s : Stack) (size padding : ℕ) (m : Memory)
    → s.capacity < s.current_offset + padding + size
    → s.current_offset + padding + size < 2 ^ 64
    → push_padded s size padding m ≡ (none, s, m)
unfolding push_padded
push_padded-full s size padding m h w = rw (total, over) refl
  where
    total : add64 (add64 s.current_offset padding) size ≡ s.current_offset + padding + size
    total = omega arith

    over : ltb s.capacity (s.current_offset + padding + size) ≡ true
    over = ground arith

pub block_memory-header :
    (s : Stack) (size padding : ℕ) (m : Memory)
    → 2 ≤ padding
    → padding < 256
    → block_memory s padding size m (free_from s + padding - header_size) ≡ padding
block_memory-header s size padding m h w =
    mem_set_outside _ size _ _ (inl (omega arith)) ∙ store_byte_self _ _ m ∙ omega arith

pub block_memory_outside :
    (s : Stack) (size padding : ℕ) (m : Memory) (x : ℕ)
    → 2 ≤ padding
    → (x < free_from s + padding - header_size) ⊎ (free_from s + padding + size ≤ x)
    → block_memory s padding size m x ≡ m x
block_memory_outside s size padding m x h (inl lt) =
    mem_set_outside _ size _ x (inl (omega arith)) ∙ store_byte_other _ _ m x (inl lt)
block_memory_outside s size padding m x h (inr ge) =
    mem_set_outside _ size _ x (inr ge) ∙ store_byte_other _ _ m x (inr (omega arith))

-- For an alignment of 2 ^ k bytes, 1 ≤ k ≤ 7, and sizes that do not pass 2 ^ 64: `stack_push_align`
-- gives a block that starts 2 ^ k bytes behind the current offset, records that padding in front of
-- it and moves the offset to its end, if that lies within the capacity; else it gives NULL and
-- changes nothing. The block's bytes are 0, the header's padding is 2 ^ k, and no byte in front of
-- the header and none behind the block is changed.
pub stack_push_align_lem :
    (s : Stack) (size k : ℕ) (m : Memory)
    → IsValid s
    → 0 < k
    → k ≤ 7
    → s.current_offset + 2 ^ k + size < 2 ^ 64
    → let p = free_from s + 2 ^ k in
      let m' = block_memory s (2 ^ k) size m in
      (s.current_offset + 2 ^ k + size ≤ s.capacity
        → stack_push_align s size (2 ^ k) m ≡ done (some p, grown s (2 ^ k) size, m'))
      × (s.capacity < s.current_offset + 2 ^ k + size
          → stack_push_align s size (2 ^ k) m ≡ done (none, s, m))
      × (m' (p - header_size) ≡ 2 ^ k)
      × ((i : ℕ) → i < size → m' (p + i) ≡ 0)
      × ((x : ℕ) → (x < p - header_size) ⊎ (p + size ≤ x) → m' x ≡ m x)
stack_push_align_lem s size k m v h w total = (
  λ fits. rw (push-small s size k m h w, push_padded-fits s size (2 ^ k) m v fits) refl,
  λ full. rw (push-small s size k m h w, push_padded-full s size (2 ^ k) m full total) refl,
  block_memory-header s size (2 ^ k) m (two-le-pow k h) (omega (arith, below)),
  λ i lt. mem_set_inside _ size _ i lt,
  λ x outside. block_memory_outside s size (2 ^ k) m x (two-le-pow k h) outside,
)
  where
    below : 2 ^ k ≤ 128
    below = pow-le-pow_right {n = 2} (omega arith) {i = k} {j = 7} w
