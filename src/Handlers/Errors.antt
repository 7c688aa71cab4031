-- ===== src/Handlers/Errors.antt =====
-- The handlers where the kernel maps no arena, a file cannot be opened, or a text in it is too long.
use agent_resources.Prelude.{
  ℕ, fault, List, Bool, All, arith, ◌+◌, ◌≡◌, refl, ◌⊎◌, inl, inr, Option, none, some, aborted,
  true, false,
}
use agent_resources.Memory.{Memory}
use agent_resources.Arena.{arena_header, arena_create, arena_alloc}
use agent_resources.Resources.{placed}
use agent_resources.Resources.Cpu.{cpu_size, cpu_create, cpu_read, cpu_read_amd64}
use agent_resources.Resources.Cpu.Info.{Fits}
use agent_resources.Resources.Cpu.Overflow.{cpu_read_amd64-overflow}
use agent_resources.Handlers.Create.{create_fresh, alloc_filled, create_structs-fresh}
use agent_resources.Resources.Ram.{ram_create, sys_ram_read}
use agent_resources.Resources.Disk.{disk_create}
use agent_resources.Resources.Device.{device_create}
use agent_resources.Handlers.{
  System, late, arena_bytes, zero_cpu, zero_memory, create_structs, gather, answer_cpu, answer_ram,
  get_system_resources_impl, get_cpu_impl, get_ram_impl,
}

cpu_read-unopened : (p : Option ℕ) → cpu_read true (placed p zero_cpu) none ≡ aborted
unfolding cpu_read cpu_read_amd64
cpu_read-unopened none = refl
cpu_read-unopened (some p) = refl

ram_read-unopened :
    (p : Option ℕ) (mapping : ℕ → Option ℕ) (m : Memory)
    → sys_ram_read true (placed p zero_memory) none mapping m ≡ aborted
unfolding sys_ram_read
ram_read-unopened none mapping m = refl
ram_read-unopened (some p) mapping m = refl

create_none :
    (s : System)
    → s.mapping (arena_bytes + arena_header) ≡ none
    → arena_create s.mapping arena_bytes ≡ none
unfolding arena_create
create_none s e = rw (e, arena_create) refl

-- In a build with assertions, and for a call that is neither cancelled nor late at first: if the
-- kernel maps no arena, or /proc/cpuinfo cannot be opened, the calls of `GetCpu` and of
-- `GetSystemResources` return no status: they end the process, and the server with it.
pub cpu_missing_lem :
    (s : System)
    → s.asserts ≡ true
    → s.cancelled ≡ false
    → late s 0 ≡ false
    → (s.mapping (arena_bytes + arena_header) ≡ none) ⊎ (s.cpuinfo ≡ none)
    → (get_cpu_impl s ≡ aborted) × (get_system_resources_impl s ≡ aborted)
unfolding get_cpu_impl answer_cpu get_system_resources_impl gather create_structs cpu_create
    ram_create disk_create device_create arena_alloc cpu_read
cpu_missing_lem s a c l (inl e) =
    (rw (c, l, create_none s e, a) refl, rw (c, l, create_none s e, a) refl)
cpu_missing_lem s a c l (inr e) =
    (rw (c, l, a, e, cpu_read-unopened) refl, rw (c, l, a, e, cpu_read-unopened) refl)

-- In a build with assertions, and for a call that is neither cancelled nor late at first: if the
-- kernel maps no arena, or /proc/meminfo cannot be opened, the call of `GetMemory` returns no
-- status: it ends the process, and the server with it.
pub ram_missing_lem :
    (s : System)
    → s.asserts ≡ true
    → s.cancelled ≡ false
    → late s 0 ≡ false
    → (s.mapping (arena_bytes + arena_header) ≡ none) ⊎ (s.meminfo ≡ none)
    → get_ram_impl s ≡ aborted
unfolding get_ram_impl answer_ram ram_create arena_alloc sys_ram_read
ram_missing_lem s a c l (inl e) = rw (c, l, create_none s e, a) refl
ram_missing_lem s a c l (inr e) = rw (c, l, a, e, ram_read-unopened) refl

cpu_read-overflow :
    (asserts : Bool) (lines : List (List ℕ))
    → ¬ All Fits lines
    → cpu_read asserts (some zero_cpu) (some lines) ≡ fault
unfolding cpu_read
cpu_read-overflow asserts lines h = rw ((cpu_read_amd64-overflow asserts lines zero_cpu).1 h) refl

-- For a call that is neither cancelled nor late at first, and a kernel that maps the arena: if
-- /proc/cpuinfo has a line with a text that does not fit the array it is copied to, the calls of
-- `GetCpu` and of `GetSystemResources` run past that array.
pub cpu_overflow_lem :
    (s : System) (address : ℕ) (lines : List (List ℕ))
    → s.cancelled ≡ false
    → late s 0 ≡ false
    → s.mapping (arena_bytes + arena_header) ≡ some address
    → s.cpuinfo ≡ some lines
    → ¬ All Fits lines
    → (get_cpu_impl s ≡ fault) × (get_system_resources_impl s ≡ fault)
unfolding get_cpu_impl answer_cpu get_system_resources_impl gather cpu_create
cpu_overflow_lem s address lines c l maps e h = (
  rw
      (
        c,
        l,
        create_fresh s.mapping address maps,
        alloc_filled address 0 0 cpu_size s.memory (omega arith) (omega arith),
        e,
        cpu_read-overflow s.asserts lines h,
      )
      refl,
  rw
      (
        c,
        l,
        create_fresh s.mapping address maps,
        create_structs-fresh address s.memory,
        e,
        cpu_read-overflow s.asserts lines h,
      )
      refl,
)
