-- ===== src/Resources/Processes/Collect.antt =====
-- `process_list_collect` on a list without an array.
use agent_resources.Prelude.{
  ◌^◌, ℕ, ◌+◌, ◌≤◌, ◌<◌, ◌≡◌, refl, arith, Option, none, some, All, done, aborted, true, length,
  take, replicate, List, Bool, ◌*◌,
}
use native.Mathlib.Nat.{zero-add}
use agent_resources.Memory.{Memory, mem_set}
use agent_resources.Arena.{Arena}
use agent_resources.Arena.Valid.{IsValid, SameStorage}
use agent_resources.Arena.Alloc.{advanced, top, arena_alloc_lem, alloc_room, advanced-IsValid}
use agent_resources.Resources.{err_ok}
use agent_resources.Resources.Status.{Process}
use agent_resources.Resources.Processes.{
  ProcList, zero_process, collect_loop, first_items, init_items, collect_into, process_list_collect,
}
use agent_resources.Resources.Processes.Grow.{Store, IsStore, collect_loop_grows}
use agent_resources.Resources.Processes.Laws.{
  IsFileName, listed, numbers, with_items, collect_loop_lem,
}

-- A list whose array is NULL.
abbrev pub no_items : ℕ → ℕ → ProcList
no_items count capacity = record { items = none; count = count; capacity = capacity }

-- The bytes of the first array.
abbrev pub first_size : ℕ
first_size = 384

collected :
    (names : List (List ℕ)) (arena : Option Arena) (m : Memory)
    → All IsFileName names
    → length names ≤ 8
    → (items : List Process) × (collect_loop names
          (with_items (replicate 8 zero_process) 0 8)
          arena
          m
        ≡ done (with_items items (length (listed names)) 8, arena, m))
      × (numbers (take (length (listed names)) items) ≡ listed names)
collected names arena m f h =
    let (items, e, k, p) =
      collect_loop_lem names (replicate 8 zero_process) 0 8 arena m f refl (omega arith)
        (omega arith) in
    (items, rw (zero-add (length (listed names))) at e, rw (zero-add (length (listed names))) at p)

-- For a list whose array is NULL, a valid arena and at most eight names, as a directory holds them:
-- if the arena has room for eight processes, `process_list_collect` returns `ERR_OK` with one
-- process for each name of digits alone, in their order, and has taken just that room; if it has
-- none, a failed `assert` ends the process.
pub process_list_collect_lem :
    (names : List (List ℕ)) (count capacity : ℕ) (a : Arena) (m : Memory)
    → IsValid a
    → a.current_position + first_size < 2 ^ 64
    → All IsFileName names
    → length names ≤ 8
    → (a.current_position + first_size ≤ a.capacity
        → (items : List Process) × (process_list_collect true
              (some names)
              (no_items count capacity)
              (some a)
              m
            ≡ done (
              err_ok,
              with_items items (length (listed names)) 8,
              some (advanced a first_size),
              mem_set (top a) first_size m,
            ))
          × (numbers (take (length (listed names)) items) ≡ listed names))
      × (a.capacity < a.current_position + first_size
          → process_list_collect true (some names) (no_items count capacity) (some a) m ≡ aborted)
unfolding process_list_collect init_items first_items collect_into
process_list_collect_lem names count capacity a m v w f h =
    let alloc = arena_alloc_lem {a = a} first_size m v w in
    (
      λ room.
          let (items, e, p) =
            collected names (some (advanced a first_size)) (mem_set (top a) first_size m) f h in
          (items, rw (alloc.0 room, first_items, collect_into, e) refl, p),
      λ full. rw (alloc.1 full, first_items, collect_into) refl,
    )

-- The first array.
abbrev first_store : Arena → Memory → Store
first_store a m = record {
  items = replicate 8 zero_process;
  capacity = 8;
  arena = advanced a first_size;
  memory = mem_set (top a) first_size m;
}

-- For a list whose array is NULL, fewer than 2 ^ 56 names, as a directory holds them, and a valid
-- arena with room for 384 bytes and 192 more for each name: `process_list_collect` ends without a
-- fault and returns `ERR_OK`, with one process for each name of digits alone, in their order,
-- however often its array has to grow. The arena stays valid and where it is.
pub process_list_collect_grows :
    (asserts : Bool) (names : List (List ℕ)) (count capacity : ℕ) (a : Arena) (m : Memory)
    → IsValid a
    → All IsFileName names
    → length names < 2 ^ 56
    → a.current_position + first_size + 192 * length names ≤ a.capacity
    → (items : List Process) × (room : ℕ) × (b : Arena) × (m' : Memory) × (process_list_collect
          asserts
          (some names)
          (no_items count capacity)
          (some a)
          m
        ≡ done (err_ok, with_items items (length (listed names)) room, some b, m'))
      × (numbers (take (length (listed names)) items) ≡ listed names)
      × IsValid b
      × SameStorage a b
unfolding process_list_collect init_items first_items collect_into
process_list_collect_grows asserts names count capacity a m v f few h =
    let (u, e, w, p, s) =
      collect_loop_grows names (length names) 0 (first_store a m) f first-IsStore (omega arith) in
    (
      u.items,
      u.capacity,
      u.arena,
      u.memory,
      rw
          (
            alloc_room a first_size m v (omega arith),
            first_items,
            collect_into,
            rw (zero-add (length (listed names))) at e,
          )
          refl,
      rw (zero-add (length (listed names))) at p,
      w.arena_valid,
      record {
        same_address = s.same_address;
        same_base = s.same_base;
        same_capacity = s.same_capacity;
      },
    )
  where
    first-IsStore : IsStore (length names) 0 (first_store a m)
    first-IsStore = record {
      arena_valid = advanced-IsValid a first_size v (omega arith);
      as_long = refl;
      count_in = omega arith;
      not_empty = omega arith;
      few = few;
      small = omega arith;
      room = omega arith;
    }
