-- ===== src/Resources/Disk.antt =====
-- The partitions: `disk_create`, `disk_push_partition` and `disk_read` of libres/resources.cc.
pub mod Array
pub mod Push
pub mod Read
pub mod Storage
mod Tests
use agent_resources.Prelude.{
  ℕ, ◌+◌, ◌-◌, ◌*◌, ◌/◌, ◌%◌, Option, none, some, List, [], ◌∷◌, ◌++◌, Run, done, fault, ◌>>=◌, ltb,
  leb, ◌==◌, if◌then◌else◌, mul64, add64, u32, take, replicate, set, length, Bool, false,
  assert_then,
}
use agent_resources.Memory.{Memory}
use agent_resources.Arena.{Arena, arena_alloc}
use agent_resources.Resources.{File, err_ok, err_io, err_invalid}

-- The name is the text that the array holds up to its NUL.
pub record Partition : Type 0 where
  pub blocks : ℕ
  pub major : ℕ
  pub minor : ℕ
  pub name : List ℕ

-- `partitions` is the array of `part_capacity` items, or NULL.
pub record Disk : Type 0 where
  pub partitions : Option (List Partition)
  pub part_count : ℕ
  pub part_capacity : ℕ

-- `sizeof(sys_partition)` and `sizeof(sys_disk)`
abbrev pub partition_size : ℕ
partition_size = 48

abbrev pub disk_size : ℕ
disk_size = 24

abbrev pub zero_partition : Partition
zero_partition = record { blocks = 0; major = 0; minor = 0; name = [] }

unfoldable pub disk_create : Option Arena → Memory → Option ℕ × Option Arena × Memory
disk_create arena m = arena_alloc arena disk_size m

-- `d->partitions[d->part_count++] = p`
pub store_partition : Disk → Partition → Run Disk
store_partition d p = elim d.partitions [
  | none ↦ fault
  | some items ↦
      if ltb d.part_count (length items)
      then done (record d {
        partitions = some (set items d.part_count p);
        part_count = add64 d.part_count 1;
      })
      else fault
]

-- The new array of `room` items, all 0 but for those copied from the old array.
abbrev pub moved : Option (List Partition) → ℕ → ℕ → List Partition
moved none count room = replicate room zero_partition
moved (some items) count room = take count items ++ replicate (room - count) zero_partition

abbrev pub next_capacity : ℕ → ℕ
next_capacity capacity = if capacity == 0 then 8 else mul64 capacity 2

-- What is done with the result of `PushArray`: `bytes` were asked for.
pub grow_disk :
    Disk → Partition → ℕ → ℕ → Option ℕ × Option Arena × Memory → Run (Disk × Option Arena × Memory)
grow_disk d p new_cap bytes (none, arena, m) = done (d, arena, m)
grow_disk d p new_cap bytes (some np, arena, m) =
    store_partition
      (record d {
        partitions = some (moved d.partitions d.part_count (bytes / partition_size));
        part_capacity = new_cap;
      })
      p
    >>= λ d'. done (d', arena, m)

pub disk_push_partition :
    Disk → Partition → Option Arena → Memory → Run (Disk × Option Arena × Memory)
disk_push_partition d p arena m =
    if d.part_count == d.part_capacity
    then (let new_cap = next_capacity d.part_capacity in
        let bytes = mul64 partition_size new_cap in
        grow_disk d p new_cap bytes (arena_alloc arena bytes m))
    else store_partition d p >>= λ d'. done (d', arena, m)

-- The four values that `sscanf` reads from a line.
pub record Scanned : Type 0 where
  pub major : ℕ
  pub minor : ℕ
  pub blocks : ℕ
  pub name : List ℕ

abbrev pub partition_of : Scanned → Partition
partition_of s = record {
  blocks = s.blocks;
  major = s.major;
  minor = s.minor;
  name = take (if leb 32 (length s.name) then 31 else length s.name) s.name;
}

-- `scan line` is what `sscanf(buf, "%d %d %lu %255s", …)` reads, if it reads all four values.
module _ (scan : List ℕ → Option Scanned) where
  pub disk_lines : List (List ℕ) → Disk → Option Arena → Memory → Run (Disk × Option Arena × Memory)
  disk_lines [] d arena m = done (d, arena, m)
  disk_lines (line ∷ lines) d arena m = elim (scan line) [
    | none ↦ disk_lines lines d arena m
    | some s ↦ disk_push_partition d (partition_of s) arena m >>= λ r. disk_lines lines r.0 r.1 r.2
  ]

  pub disk_read :
      Bool
      → Option Disk
      → Option Arena
      → Memory
      → File
      → Run (ℕ × Option Disk × Option Arena × Memory)
  disk_read asserts none arena m file =
      assert_then asserts false (done (err_invalid, none, arena, m))
  disk_read asserts (some d) arena m none =
      assert_then asserts false (done (err_io, some d, arena, m))
  disk_read asserts (some d) arena m (some lines) =
      disk_lines lines d arena m >>= λ r. done (err_ok, some r.0, r.1, r.2)
