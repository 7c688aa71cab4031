-- ===== src/Handlers/Create.antt =====
-- The arena and the structs with which a call of the service starts.
use agent_resources.Prelude.{ℕ, ◌+◌, ◌≡◌, ◌≤◌, refl, arith, Option, some}
use agent_resources.Memory.{Memory, mem_set}
use agent_resources.Arena.{Arena, arena_create, arena_destroy, arena_alloc, arena_header}
use agent_resources.Arena.Valid.{IsValid, SameStorage}
use agent_resources.Arena.Alloc.{arena_alloc_lem}
use agent_resources.Resources.Cpu.{cpu_create, cpu_size}
use agent_resources.Resources.Ram.{ram_create, memory_size}
use agent_resources.Resources.Disk.{disk_create, disk_size}
use agent_resources.Resources.Device.{device_create, device_size}
use agent_resources.Handlers.{arena_bytes, create_structs}

-- The arena of 8 MiB that was mapped at `address`.
abbrev pub fresh : ℕ → Arena
fresh address = record {
  address = address;
  current_position = 0;
  previous_position = 0;
  capacity = arena_bytes;
  base_position = address + arena_header;
}

-- It is valid with `n` bytes given out, the last of them behind `k`.
abbrev pub filled : ℕ → ℕ → ℕ → Arena
filled address k n = record (fresh address) { current_position = n; previous_position = k }

pub filled-IsValid :
    (address k n : ℕ) → k ≤ arena_bytes → n ≤ arena_bytes → IsValid (filled address k n)
filled-IsValid address k n h h' = omega arith

pub create_fresh :
    (mapping : ℕ → Option ℕ) (address : ℕ)
    → mapping (arena_bytes + arena_header) ≡ some address
    → arena_create mapping arena_bytes ≡ some (fresh address)
unfolding arena_create
create_fresh mapping address e = rw (e, arena_create) refl

pub destroy_fresh :
    (address : ℕ) {b : Arena}
    → SameStorage (fresh address) b
    → arena_destroy (some b) ≡ some (address, arena_bytes + arena_header)
unfolding arena_destroy
destroy_fresh address {b} h = rw (h.same_address, h.same_capacity) refl

pub same_filled : (address k n : ℕ) → SameStorage (fresh address) (filled address k n)
same_filled address k n = record { same_address = refl; same_base = refl; same_capacity = refl }

pub alloc_filled :
    (address k n size : ℕ) (m : Memory)
    → k ≤ arena_bytes
    → n + size ≤ arena_bytes
    → arena_alloc (some (filled address k n)) size m ≡ (
      some (address + arena_header + n),
      some (filled address n (n + size)),
      mem_set (address + arena_header + n) size m,
    )
alloc_filled address k n size m h h' =
    (arena_alloc_lem {a = filled address k n} size m (filled-IsValid address k n h (omega arith))
        (omega arith)).0
      h'

-- The memory behind the four structs.
abbrev pub memory_behind : ℕ → Memory → Memory
memory_behind address m =
    let start = address + arena_header in
    mem_set (start + 160) device_size (
      mem_set (start + 136) disk_size
        (mem_set (start + 120) memory_size (mem_set (start + 0) cpu_size m)))

pub create_structs-fresh :
    (address : ℕ) (m : Memory)
    → create_structs (some (fresh address)) m ≡ record {
      cpu = some (address + arena_header + 0);
      ram = some (address + arena_header + 120);
      disk = some (address + arena_header + 136);
      device = some (address + arena_header + 160);
      arena = some (filled address 160 704);
      memory = memory_behind address m;
    }
unfolding create_structs cpu_create ram_create disk_create device_create
create_structs-fresh address m =
    rw
      (
        alloc_filled address 0 0 cpu_size m (omega arith) (omega arith),
        alloc_filled address 0 120 memory_size _ (omega arith) (omega arith),
        alloc_filled address 120 136 disk_size _ (omega arith) (omega arith),
        alloc_filled address 136 160 device_size _ (omega arith) (omega arith),
      )
      refl
