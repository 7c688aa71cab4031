-- ===== src/Arena/Tests.antt =====
-- Runs of the arena at fixed inputs, and the instances of its theorems.
use agent_resources.Prelude.{
  fault, none, ◌^◌, ◌⊎◌, ℕ, ◌+◌, ◌≤◌, ◌<◌, ◌≡◌, refl, arith, Option, some, List, [], ◌∷◌, All, done,
  add64,
}
use agent_resources.Memory.{Memory, mem_set}
use agent_resources.Mem.{align}
use agent_resources.Arena.{Arena, arena_header, arena_create, arena_destroy, alloc, alloc_or_fault}
use agent_resources.Arena.Valid.{IsValid}
use agent_resources.Arena.Alloc.{top, advanced, arena_alloc_overflow}
use agent_resources.Arena.Blocks.{alloc_all, AllApart, alloc_all-AllApart}
use agent_resources.Arena.Scope.{Op, allocate, pop, pop_to, run, create-run-destroy}

abbrev memory : Memory
memory a = a

abbrev mapping : ℕ → Option ℕ
mapping len = some 4096

abbrev fresh : Arena
fresh = record {
  address = 4096;
  current_position = 0;
  previous_position = 0;
  capacity = 1024;
  base_position = 4128;
}

-- After blocks of 10 and of 20 bytes.
abbrev used : Arena
used = record fresh { current_position = 30; previous_position = 10 }

fresh-IsValid : IsValid fresh
fresh-IsValid = omega arith

used-IsValid : IsValid used
used-IsValid = omega arith

create_runs : arena_create mapping 1024 ≡ some fresh
unfolding arena_create
create_runs = refl

abbrev sizes : List ℕ
sizes = 10 ∷ 20 ∷ 2000 ∷ 4 ∷ []

alloc_runs : (alloc fresh 10 memory).0 ≡ some 4128
unfolding alloc align
alloc_runs = refl

-- The second block does not start at a multiple of 16.
alloc_twice_runs : (alloc (alloc fresh 10 memory).1 20 memory).0 ≡ some 4138
unfolding alloc align
alloc_twice_runs = refl

abbrev script : List Op
script = allocate 10 ∷ allocate 2000 ∷ pop 3 ∷ pop_to 2 ∷ allocate 7 ∷ []

create-run-destroy_example :
    IsValid (run fresh script memory).0
    × (mapping (add64 1024 arena_header) ≡ some 4096)
    × (arena_destroy (some (run fresh script memory).0) ≡ some (4096, add64 1024 arena_header))
create-run-destroy_example =
    create-run-destroy mapping 1024 script memory {a = fresh} (omega arith) create_runs

alloc_all-AllApart_example :
    AllApart (alloc_all fresh sizes memory)
    × All (λ b. (4128 ≤ b.start) × (b.start + b.size ≤ 5152)) (alloc_all fresh sizes memory)
alloc_all-AllApart_example =
    alloc_all-AllApart sizes {a = fresh} memory fresh-IsValid (omega arith) (omega arith)

arena_alloc_overflow_example :
    ((30 + 18446744073709551600 ≤ 1024)
      × (alloc_or_fault used 18446744073709551600 memory
          ≡ done (
            some (top used),
            advanced used 18446744073709551600,
            mem_set (top used) 18446744073709551600 memory,
          )))
    ⊎ (((1024 < 30 + 18446744073709551600)
          × (30 + 18446744073709551600 < 2 ^ 64)
          × (alloc_or_fault used 18446744073709551600 memory ≡ done (none, used, memory)))
        ⊎ ((2 ^ 64 ≤ 30 + 18446744073709551600)
            × (alloc_or_fault used 18446744073709551600 memory ≡ fault)))
arena_alloc_overflow_example =
    arena_alloc_overflow {a = used} 18446744073709551600 memory used-IsValid (omega arith)
