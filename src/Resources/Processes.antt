-- ===== src/Resources/Processes.antt =====
-- `process_list_collect` of libres/resources.cc: the processes that /proc lists.
pub mod Laws
pub mod Grow
pub mod Collect
mod Tests
use agent_resources.Prelude.{
  ℕ, ◌-◌, ◌/◌, Option, none, some, List, [], ◌∷◌, ◌++◌, Run, done, fault, ◌>>=◌, drop, true, ◌==◌,
  if◌then◌else◌, mul64, add64, take, set, replicate, Bool, false, assert_then, pos, to_i32,
}
use agent_resources.Memory.{Memory}
use agent_resources.Arena.{Arena, arena_alloc}
use agent_resources.Parse.{parse_u64, is_numeric}
use agent_resources.Resources.{err_ok, err_io}
use agent_resources.Resources.Status.{Process, undefined}

-- `items` is the array of `capacity` processes, or NULL.
pub record ProcList : Type 0 where
  pub items : Option (List Process)
  pub count : ℕ
  pub capacity : ℕ

-- `sizeof(sys_proc)`
abbrev pub process_size : ℕ
process_size = 48

abbrev pub zero_process : Process
zero_process = record {
  name = replicate 16 0;
  num_threads = pos 0;
  stime = 0;
  utime = 0;
  pid = pos 0;
  state = undefined;
}

-- What is done with the result of the first `PushArray`. The array that the list has then is all 0.
pub first_items :
    ProcList → Option ℕ × Option Arena × Memory → Option ProcList × Option Arena × Memory
first_items l (none, arena, m) = (none, arena, m)
first_items l (some p, arena, m) =
    (some (record l { items = some (replicate l.capacity zero_process) }), arena, m)

-- The list with its array, or `none` where there is no memory for one.
pub init_items : ProcList → Option Arena → Memory → Option ProcList × Option Arena × Memory
init_items l arena m = elim l.items [
  | none ↦
      first_items (record l { count = 0; capacity = 8 })
        (arena_alloc arena (mul64 process_size 8) m)
  | some items ↦ (some l, arena, m)
]

-- `memcpy` of the whole of the old array into the new one of `new_cap` items.
abbrev pub copied_items : Option (List Process) → ℕ → ℕ → List Process
copied_items none capacity new_cap = replicate new_cap zero_process
copied_items (some items) capacity new_cap =
    take capacity items ++ replicate (new_cap - capacity) zero_process

pub grow_items :
    ProcList → ℕ → ℕ → Option ℕ × Option Arena × Memory → Option ProcList × Option Arena × Memory
grow_items l new_cap bytes (none, arena, m) = (none, arena, m)
grow_items l new_cap bytes (some np, arena, m) = (
  some (record l {
    items = some (copied_items l.items l.capacity (bytes / process_size));
    capacity = new_cap;
  }),
  arena,
  m,
)

-- The list with room for one more process, or `none` for the `break`.
pub ensure_room : ProcList → Option Arena → Memory → Option ProcList × Option Arena × Memory
ensure_room l arena m =
    if l.count == l.capacity
    then (let new_cap = mul64 l.capacity 2 in
        let bytes = mul64 process_size new_cap in
        grow_items l new_cap bytes (arena_alloc arena bytes m))
    else (some l, arena, m)

-- The fields of a process that `old` was before: only the first byte of the name is set.
abbrev pub process_at : Process → ℕ → Process
process_at old n = record {
  name = 0 ∷ drop 1 old.name;
  num_threads = pos 0;
  stime = 0;
  utime = 0;
  pid = to_i32 n;
  state = undefined;
}

-- `&list->items[list->count++]`, and the fields of that process. Behind the array is a fault.
pub store_process : ProcList → List Process → ℕ → Run ProcList
store_process l items n = elim (drop l.count items) [
  | [] ↦ fault
  | old ∷ more ↦
      done
        (record l { items = some (set items l.count (process_at old n)); count = add64 l.count 1 })
]

pub store_in : ProcList → ℕ → Run ProcList
store_in l n = elim l.items [ none ↦ fault | some items ↦ store_process l items n ]

-- `e->d_name`: an array of 256 bytes, with a NUL behind the name.
abbrev pub d_name : List ℕ → List ℕ
d_name name = name ++ 0 ∷ []

-- What is done with a name that is numeric: the `break`, or the next process and `rest` of the loop.
pub collect_name :
    ProcList
    → List ℕ
    → (ProcList → Option Arena → Memory → Run (ProcList × Option Arena × Memory))
    → Option ProcList × Option Arena × Memory
    → Run (ProcList × Option Arena × Memory)
collect_name l name rest (none, arena, m) = done (l, arena, m)
collect_name l name rest (some l', arena, m) =
    parse_u64 (d_name name) 256 >>= λ pid. store_in l' pid >>= λ l''. rest l'' arena m

-- `names` is what the calls of `readdir` return.
pub collect_loop :
    List (List ℕ) → ProcList → Option Arena → Memory → Run (ProcList × Option Arena × Memory)
collect_loop [] l arena m = done (l, arena, m)
collect_loop (name ∷ names) l arena m = is_numeric (d_name name) >>= λ n. elim (n == 0) [
  | true ↦ collect_loop names l arena m
  | false ↦ collect_name l name (collect_loop names) (ensure_room l arena m)
]

pub collect_into :
    Bool
    → ProcList
    → List (List ℕ)
    → Option ProcList × Option Arena × Memory
    → Run (ℕ × ProcList × Option Arena × Memory)
collect_into asserts l names (none, arena, m) =
    assert_then asserts false
      (done (err_io, record l { items = none; count = 0; capacity = 8 }, arena, m))
collect_into asserts l names (some l', arena, m) =
    collect_loop names l' arena m >>= λ r. done (err_ok, r.0, r.1, r.2)

-- `none` is a directory that cannot be opened.
pub process_list_collect :
    Bool
    → Option (List (List ℕ))
    → ProcList
    → Option Arena
    → Memory
    → Run (ℕ × ProcList × Option Arena × Memory)
process_list_collect asserts none l arena m = assert_then asserts false (done (err_io, l, arena, m))
process_list_collect asserts (some names) l arena m =
    collect_into asserts l names (init_items l arena m)
