-- ===== src/Arena/Alloc.antt =====
-- `arena_alloc`, on each of its branches.
use agent_resources.Prelude.{
  done, fault, true, false, refl, Option, Bool-cases, ltb, add64, inl, inr, ℕ, ◌+◌, ◌^◌, ◌≤◌, ◌<◌,
  ◌≡◌, ◌⊎◌, none, some, arith,
}
use native.Mathlib.Decide.{dec_le, dec_lt}
use agent_resources.Memory.{Memory, mem_set, mem_set_inside, mem_set_outside}
use agent_resources.Mem.{align, arena_align}
use agent_resources.Mem.Laws.{align_sixteen}
use agent_resources.Arena.{Arena, alloc, arena_alloc, overruns, alloc_or_fault}
use agent_resources.Arena.Valid.{IsValid}

-- The arena after a block of `size` bytes has been given out.
abbrev pub advanced : Arena → ℕ → Arena
advanced a size = record a {
  current_position = a.current_position + size;
  previous_position = a.current_position;
}

-- Where the next block starts.
abbrev pub top : Arena → ℕ
top a = a.base_position + a.current_position

pub alloc-fits :
    {a : Arena} (size : ℕ) (m : Memory)
    → IsValid a
    → a.current_position + size ≤ a.capacity
    → alloc a size m ≡ (some (top a), advanced a size, mem_set (top a) size m)
unfolding alloc
alloc-fits {a} size m v h = rw (align_sixteen a.current_position) (ground arith)

pub alloc-full :
    {a : Arena} (size : ℕ) (m : Memory)
    → IsValid a
    → a.capacity < a.current_position + size
    → a.current_position + size < 2 ^ 64
    → alloc a size m ≡ (none, a, m)
unfolding alloc
alloc-full {a} size m v h k = rw (align_sixteen a.current_position) (ground arith)

pub alloc-wraps :
    {a : Arena} (size : ℕ) (m : Memory)
    → IsValid a
    → size < 2 ^ 64
    → 2 ^ 64 ≤ a.current_position + size
    → (alloc a size m).0 ≡ some (top a)
unfolding alloc
alloc-wraps {a} size m v h k = rw (align_sixteen a.current_position) (ground arith)

-- For a valid arena and a size for which the new position is below 2 ^ 64: `arena_alloc` gives the
-- block that starts at the current position and advances by the size, with the block's bytes set to
-- 0 and all others kept, if the block ends within the capacity; else it gives NULL and changes
-- nothing. No position is rounded up.
pub arena_alloc_lem :
    {a : Arena} (size : ℕ) (m : Memory)
    → IsValid a
    → a.current_position + size < 2 ^ 64
    → (a.current_position + size ≤ a.capacity
        → arena_alloc (some a) size m
          ≡ (some (top a), some (advanced a size), mem_set (top a) size m))
      × (a.capacity < a.current_position + size → arena_alloc (some a) size m ≡ (none, some a, m))
      × ((i : ℕ) → i < size → mem_set (top a) size m (top a + i) ≡ 0)
      × ((x : ℕ) → (x < top a) ⊎ (top a + size ≤ x) → mem_set (top a) size m x ≡ m x)
unfolding arena_alloc
arena_alloc_lem {a} size m v k = (
  λ h. rw (alloc-fits size m v h),
  λ h. rw (alloc-full size m v h k),
  λ i h. mem_set_inside (top a) size m i h,
  λ x h. mem_set_outside (top a) size m x h,
)

-- With room for the block, whatever the position.
pub alloc_room :
    (a : Arena) (size : ℕ) (m : Memory)
    → IsValid a
    → a.current_position + size ≤ a.capacity
    → arena_alloc (some a) size m ≡ (some (top a), some (advanced a size), mem_set (top a) size m)
alloc_room a size m v h = (arena_alloc_lem {a = a} size m v (omega (arith, v.capacity_word))).0 h

pub advanced-IsValid :
    (a : Arena) (size : ℕ)
    → IsValid a
    → a.current_position + size ≤ a.capacity
    → IsValid (advanced a size)
advanced-IsValid a size v h = record {
  current_in = h;
  previous_in = v.current_in;
  capacity_word = v.capacity_word;
  placed = v.placed;
}

-- With the fault of a `MemSet` that runs past the mapping.
pub alloc_or_fault-fits :
    {a : Arena} (size : ℕ) (m : Memory)
    → IsValid a
    → a.current_position + size ≤ a.capacity
    → alloc_or_fault a size m ≡ done (some (top a), advanced a size, mem_set (top a) size m)
unfolding alloc_or_fault
alloc_or_fault-fits {a} size m v h =
    let inside : overruns a size (some (top a)) ≡ false = ground arith in
    rw (alloc-fits size m v h, inside) refl

-- For a valid arena and any size of a `u64`, `arena_alloc` does one of three things. If the block ends
-- within the capacity, it gives the block at the current position, advances by the size, and sets the
-- block's bytes to 0. If it ends behind that and the new position is below 2 ^ 64, it gives NULL and
-- changes nothing. If the new position passes 2 ^ 64, the test on the capacity is made on the wrapped
-- sum and lets the size through, and the `MemSet` runs past the mapping. No position is rounded up.
pub arena_alloc_overflow :
    {a : Arena} (size : ℕ) (m : Memory)
    → IsValid a
    → size < 2 ^ 64
    → ((a.current_position + size ≤ a.capacity)
        × (alloc_or_fault a size m ≡ done (some (top a), advanced a size, mem_set (top a) size m)))
      ⊎ (((a.capacity < a.current_position + size)
            × (a.current_position + size < 2 ^ 64)
            × (alloc_or_fault a size m ≡ done (none, a, m)))
          ⊎ ((2 ^ 64 ≤ a.current_position + size) × (alloc_or_fault a size m ≡ fault)))
unfolding alloc_or_fault
arena_alloc_overflow {a} size m v h = elim (dec_le (a.current_position + size) a.capacity) [
  | yes fits ↦ inl (fits, alloc_or_fault-fits size m v fits)
  | no full ↦ elim (dec_lt (a.current_position + size) (2 ^ 64)) [
    | yes k ↦ inr (inl (omega arith, k, rw (alloc-full size m v (omega arith) k) refl))
    | no k ↦
        let past : overruns a size (some (top a)) ≡ true = ground arith in
        inr (inr (omega arith, rw (alloc-wraps size m v h (omega arith), past) refl))
  ]
]

alloc-none :
    (a : Arena) (size : ℕ) (m : Memory) → (alloc a size m).0 ≡ none → alloc a size m ≡ (none, a, m)
unfolding alloc
alloc-none a size m h =
    elim (Bool-cases (ltb a.capacity (add64 (align a.current_position arena_align) size))) [
      | inl full ↦ rw full refl
      | inr fits ↦ absurd (some-ne-none (rw fits at h))
    ]
  where
    some-ne-none : {x : ℕ} → ¬ (some x ≡ none)
    some-ne-none e = cc

-- A call of `arena_alloc` that gives NULL changes nothing.
pub arena_alloc-none :
    (a : Option Arena) (size : ℕ) (m : Memory)
    → (arena_alloc a size m).0 ≡ none
    → arena_alloc a size m ≡ (none, a, m)
unfolding arena_alloc
arena_alloc-none none size m h = refl
arena_alloc-none (some a) size m h = rw (alloc-none a size m h) refl
