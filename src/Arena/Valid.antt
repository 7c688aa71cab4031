-- ===== src/Arena/Valid.antt =====
-- The invariant of `mem_arena`, and the operations that keep it.
use agent_resources.Prelude.{
  ◌∙◌, refl, ℕ, ◌+◌, ◌-◌, ◌^◌, ◌≤◌, ◌<◌, ◌≡◌, Option, none, some, arith, min,
}
use agent_resources.Memory.{Memory}
use agent_resources.Mem.Laws.{align_sixteen}
use agent_resources.Arena.{
  Arena, arena_header, arena_alloc, arena_destroy, arena_create, alloc, arena_pop, arena_pop_to,
  arena_clear,
}

pub record IsValid (a : Arena) : Type 0 where
  pub current_in : a.current_position ≤ a.capacity
  pub previous_in : a.previous_position ≤ a.capacity
  pub capacity_word : a.capacity < 2 ^ 64
  pub placed : a.base_position ≡ a.address + arena_header

-- What stays as it is through the life of an arena.
pub record SameStorage (a b : Arena) : Type 0 where
  pub same_address : b.address ≡ a.address
  pub same_base : b.base_position ≡ a.base_position
  pub same_capacity : b.capacity ≡ a.capacity

pub create-IsValid :
    (mapping : ℕ → Option ℕ) (capacity : ℕ) {a : Arena}
    → capacity < 2 ^ 64
    → arena_create mapping capacity ≡ some a
    → IsValid a × (a.current_position ≡ 0) × (a.capacity ≡ capacity)
unfolding arena_create
create-IsValid mapping capacity h e = ground arith

pub alloc-IsValid : {a : Arena} (size : ℕ) (m : Memory) → IsValid a → IsValid (alloc a size m).1
unfolding alloc
alloc-IsValid {a} size m v = ground (arith, align_sixteen a.current_position)

pub pop-IsValid : {a : Arena} (size : ℕ) → IsValid a → IsValid (arena_pop a size)
unfolding arena_pop
pop-IsValid size v = ground arith

pub pop_to-IsValid : {a : Arena} (pos : ℕ) → IsValid a → IsValid (arena_pop_to a pos)
unfolding arena_pop_to
pop_to-IsValid pos v = pop-IsValid _ v

pub clear-IsValid : {a : Arena} → IsValid a → IsValid (arena_clear a)
unfolding arena_clear
clear-IsValid v = ground arith

-- `arena_pop` and `arena_pop_to` never go below 0, and `arena_pop_to` never goes forward: they leave
-- the position less the size, and the lower of the two positions, and change nothing else.
pub pop_lem :
    {a : Arena} (n : ℕ)
    → IsValid a
    → (arena_pop a n ≡ record a { current_position = a.current_position - n })
      × (arena_pop_to a n ≡ record a { current_position = min n a.current_position })
unfolding arena_pop arena_pop_to
pop_lem n v = (ground arith, ground arith)

pub same_refl : (a : Arena) → SameStorage a a
same_refl a = record { same_address = refl; same_base = refl; same_capacity = refl }

pub same_moved : (a : Arena) (n : ℕ) → SameStorage a (record a { current_position = n })
same_moved a n = record { same_address = refl; same_base = refl; same_capacity = refl }

pub same_trans : {a b c : Arena} → SameStorage a b → SameStorage b c → SameStorage a c
same_trans h k = record {
  same_address = k.same_address ∙ h.same_address;
  same_base = k.same_base ∙ h.same_base;
  same_capacity = k.same_capacity ∙ h.same_capacity;
}

pub alloc-SameStorage : (a : Arena) (size : ℕ) (m : Memory) → SameStorage a (alloc a size m).1
unfolding alloc
alloc-SameStorage a size m = ground arith

pub alloc_destroyed :
    (arena : Option Arena) (size : ℕ) (m : Memory)
    → arena_destroy (arena_alloc arena size m).1 ≡ arena_destroy arena
unfolding arena_alloc arena_destroy
alloc_destroyed none size m = refl
alloc_destroyed (some a) size m =
    let h = alloc-SameStorage a size m in rw (h.same_address, h.same_capacity) refl
