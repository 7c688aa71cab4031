-- ===== src/Arena/Scope.antt =====
-- The life of an arena: runs of operations, temporary scopes, and what is unmapped at the end.
use agent_resources.Prelude.{
  ℕ, ◌+◌, ◌^◌, ◌<◌, ◌≡◌, Option, none, some, arith, refl, List, [], ◌∷◌, add64, sym, ◌∙◌, ltb,
  if◌then◌else◌, Bool-cases, inl, inr,
}
use agent_resources.Mem.{align, arena_align}
use agent_resources.Memory.{Memory}
use agent_resources.Arena.{
  Arena, arena_header, arena_create, arena_destroy, alloc, arena_pop, arena_pop_to, arena_clear,
  temp_arena_begin, temp_arena_end,
}
use agent_resources.Arena.Valid.{
  IsValid, SameStorage, same_refl, same_moved, same_trans, alloc-SameStorage, create-IsValid,
  alloc-IsValid, pop-IsValid, pop_to-IsValid, clear-IsValid,
}

pub data Op : Type 0 where
  allocate pop pop_to : ℕ → Op
  clear : Op

pub step : Arena → Op → Memory → Arena × Memory
step a (allocate n) m = let (out, a', m') = alloc a n m in (a', m')
step a (pop n) m = (arena_pop a n, m)
step a (pop_to n) m = (arena_pop_to a n, m)
step a clear m = (arena_clear a, m)

pub run : Arena → List Op → Memory → Arena × Memory
run a [] m = (a, m)
run a (op ∷ ops) m = let (a', m') = step a op m in run a' ops m'

step-IsValid : {a : Arena} (op : Op) (m : Memory) → IsValid a → IsValid (step a op m).0
unfolding step
step-IsValid (allocate n) m v = alloc-IsValid n m v
step-IsValid (pop n) m v = pop-IsValid n v
step-IsValid (pop_to n) m v = pop_to-IsValid n v
step-IsValid clear m v = clear-IsValid v

step-SameStorage : (a : Arena) (op : Op) (m : Memory) → SameStorage a (step a op m).0
unfolding step arena_pop arena_pop_to arena_clear
step-SameStorage a (allocate n) m = alloc-SameStorage a n m
step-SameStorage a (pop n) m = same_moved a _
step-SameStorage a (pop_to n) m = same_moved a _
step-SameStorage a clear m = same_moved a _

pub run-IsValid : (a : Arena) (ops : List Op) (m : Memory) → IsValid a → IsValid (run a ops m).0
unfolding run
run-IsValid a [] m v = v
run-IsValid a (op ∷ ops) m v = run-IsValid (step a op m).0 ops (step a op m).1 (step-IsValid op m v)

pub run-SameStorage : (a : Arena) (ops : List Op) (m : Memory) → SameStorage a (run a ops m).0
unfolding run
run-SameStorage a [] m = same_refl a
run-SameStorage a (op ∷ ops) m =
    same_trans (step-SameStorage a op m) (run-SameStorage (step a op m).0 ops (step a op m).1)

pub destroy_eq : {a b : Arena} → SameStorage a b → arena_destroy (some b) ≡ arena_destroy (some a)
unfolding arena_destroy
destroy_eq s = rw (s.same_address, s.same_capacity)

alloc_place :
    (a : Arena) (size : ℕ) (m : Memory)
    → (alloc a size m).0 ≡ (
        let aligned = align a.current_position arena_align in
        if ltb a.capacity (add64 aligned size) then none else some (a.base_position + aligned))
unfolding alloc
alloc_place a size m =
    elim (Bool-cases (ltb a.capacity (add64 (align a.current_position arena_align) size))) [
      | inl full ↦ rw full
      | inr fits ↦ rw fits
    ]

-- An arena that `arena_create` returned is valid after any sequence of allocations, pops and clears,
-- and `arena_destroy` then unmaps the very address and length that were mapped.
pub create-run-destroy :
    (mapping : ℕ → Option ℕ) (capacity : ℕ) (ops : List Op) (m : Memory) {a : Arena}
    → capacity < 2 ^ 64
    → arena_create mapping capacity ≡ some a
    → IsValid (run a ops m).0
      × (mapping (add64 capacity arena_header) ≡ some a.address)
      × (arena_destroy (some (run a ops m).0) ≡ some (a.address, add64 capacity arena_header))
unfolding arena_create arena_destroy
create-run-destroy mapping capacity ops m {a} h e = (
  run-IsValid a ops m (create-IsValid mapping capacity h e).0,
  ground arith,
  destroy_eq (run-SameStorage a ops m) ∙ ground arith,
)

-- Memory that the calls in a temporary scope have written is not put back; the position is.
-- Whatever is allocated, popped or cleared in between, `temp_arena_end` puts the position back to
-- where `temp_arena_begin` found it, so that the next call of `arena_alloc` gives the block that it
-- would have given then; it leaves the storage as it is.
pub temp_arena_scope :
    (a : Arena) (ops : List Op) (m m' : Memory) (size : ℕ)
    → let b = temp_arena_end (temp_arena_begin a) (run a ops m).0 in
      (b.current_position ≡ a.current_position)
      × ((alloc b size m').0 ≡ (alloc a size m).0)
      × (arena_destroy (some b) ≡ arena_destroy (some a))
unfolding temp_arena_end temp_arena_begin
temp_arena_scope a ops m m' size = (
  refl,
  alloc_place _ size m' ∙ (rw (r.same_base, r.same_capacity) refl) ∙ sym (alloc_place a size m),
  unfold arena_destroy in rw (r.same_address, r.same_capacity),
)
  where
    r : SameStorage a (run a ops m).0
    r = run-SameStorage a ops m
