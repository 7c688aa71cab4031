-- ===== src/Resources/Processes/Tests.antt =====
-- Runs of `process_list_collect` at fixed inputs.
use agent_resources.Prelude.{
  ℕ, ◌≡◌, refl, arith, Option, some, none, List, [], ◌∷◌, map, All, Run, done, ◌>>=◌, ℤ, pos, take,
  true,
}
use agent_resources.Memory.{Memory}
use agent_resources.Arena.Valid.{IsValid, SameStorage}
use agent_resources.Resources.Processes.Collect.{no_items, process_list_collect_grows}
use agent_resources.Arena.{Arena, alloc, arena_alloc}
use agent_resources.Parse.{is_numeric, parse_u64, parse_loop}
use agent_resources.Mem.{align}
use agent_resources.Text.{codes}
use agent_resources.Resources.Status.{Process}
use agent_resources.Resources.Processes.Laws.{IsFileName, numbers, with_items}
use agent_resources.Resources.Processes.{
  ProcList, collect_loop, collect_name, collect_into, init_items, first_items, ensure_room,
  store_in, store_process, process_list_collect,
}

abbrev memory : Memory
memory a = 0

abbrev arena : Arena
arena = record {
  address = 4096;
  current_position = 0;
  previous_position = 0;
  capacity = 8192;
  base_position = 4128;
}

abbrev empty : ProcList
empty = record { items = none; count = 0; capacity = 0 }

abbrev pids_of : Option (List Process) → ℕ → List ℤ
pids_of none count = []
pids_of (some items) count = map (λ (p : Process). p.pid) (take count items)

abbrev pids : Run (ℕ × ProcList × Option Arena × Memory) → Run (ℕ × List ℤ × ℕ)
pids r = r >>= λ q. done (q.0, pids_of q.1.items q.1.count, q.1.capacity)

-- Names that are no numbers are left out.
collect_runs :
    pids (
      process_list_collect true
        (some (codes "." ∷ codes "1" ∷ codes "cpuinfo" ∷ codes "4021" ∷ []))
        empty
        (some arena)
        memory)
    ≡ done (0, pos 1 ∷ pos 4021 ∷ [], 8)
unfolding process_list_collect collect_into collect_loop collect_name init_items first_items
    ensure_room store_in store_process is_numeric parse_u64 parse_loop alloc arena_alloc align
collect_runs = refl

abbrev names : List (List ℕ)
names = codes "1" ∷ codes "cpuinfo" ∷ codes "42" ∷ []

names-IsFileName : All IsFileName names
names-IsFileName = omega arith

arena-IsValid : IsValid arena
arena-IsValid = omega arith

-- Ten processes: the array grows to 16.
abbrev ten_names : List (List ℕ)
ten_names =
    codes "1"
    ∷ codes "2"
    ∷ codes "3"
    ∷ codes "4"
    ∷ codes "5"
    ∷ codes "6"
    ∷ codes "7"
    ∷ codes "8"
    ∷ codes "9"
    ∷ codes "10"
    ∷ []

ten-IsFileName : All IsFileName ten_names
ten-IsFileName = omega arith

process_list_collect_grows_example :
    (items : List Process) × (room : ℕ) × (b : Arena) × (m' : Memory) × (process_list_collect true
        (some ten_names)
        (no_items 5 5)
        (some arena)
        memory
      ≡ done (0, with_items items 10 room, some b, m'))
    × (numbers (take 10 items)
        ≡ pos 1 ∷ pos 2 ∷ pos 3 ∷ pos 4 ∷ pos 5 ∷ pos 6 ∷ pos 7 ∷ pos 8 ∷ pos 9 ∷ pos 10 ∷ [])
    × IsValid b
    × SameStorage arena b
process_list_collect_grows_example =
    process_list_collect_grows true ten_names 5 5 arena memory arena-IsValid ten-IsFileName
      (omega arith) (omega arith)
