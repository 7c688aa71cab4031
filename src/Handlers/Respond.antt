-- ===== src/Handlers/Respond.antt =====
-- `get_system_resources_impl`: which status it returns, what it answers, and what it leaves mapped.
use agent_resources.Prelude.{
  ℕ, ◌+◌, ◌<◌, ◌^◌, ◌≡◌, refl, arith, Option, some, none, List, [], ◌∷◌, ◌++◌, Bool, true, false,
  not, ◌&&◌, ◌||◌, if◌then◌else◌, done, length,
}
use agent_resources.Memory.{Memory}
use agent_resources.Arena.{Arena, arena_header}
use agent_resources.Arena.Valid.{SameStorage}
use agent_resources.Resources.{err_ok}
use agent_resources.Resources.Cpu.{Cpu, cpu_read}
use agent_resources.Resources.Ram.{SysMemory, sys_ram_read}
use agent_resources.Resources.Disk.Array.{IsValid}
use agent_resources.Resources.Disk.Read.{parsed}
use agent_resources.Resources.Disk.Storage.{disk_read-SameStorage}
use agent_resources.Resources.Device.{Device, device_read}
use agent_resources.Arena.Calls.{Call, mapped, unmapped, live, release_last}
use agent_resources.Handlers.{
  System, ok, CpuMessage, MemoryMessage, Response, Structs, late, in_time, arena_bytes, zero_cpu,
  zero_memory, zero_disk, cpu_message, memory_message, answer, gather, get_system_resources_impl,
  deadline_exceeded, cancelled, refused,
}
use agent_resources.Resources.Device.{zero_device}
use agent_resources.Handlers.Accept.{Gives}
use agent_resources.Handlers.Create.{
  fresh, filled, memory_behind, create_fresh, create_structs-fresh, destroy_fresh,
}

-- The kernel maps the arena, and every reader returns.
pub record Readable (s : System) : Type 0 where
  pub address : ℕ
  pub maps : s.mapping (arena_bytes + arena_header) ≡ some address
  pub cpu : Cpu
  pub cpu_returns : cpu_read s.asserts (some zero_cpu) s.cpuinfo ≡ done (err_ok, some cpu)
  pub message : CpuMessage
  pub message_reads : cpu_message (some cpu) ≡ done message
  pub ram : SysMemory
  pub ram_address : ℕ
  pub ram_length : ℕ
  pub ram_returns :
      (m : Memory)
      → sys_ram_read s.asserts (some zero_memory) s.meminfo s.mapping m
        ≡ done (err_ok, some ram, some (ram_address, ram_length))
  pub lines : List (List ℕ)
  pub lines_open : s.partitions ≡ some lines
  pub few : length (parsed s.scan lines) < 2 ^ 54
  pub device : ℕ × Option Device
  pub device_returns : device_read s.asserts (some zero_device) s.os_release s.uptime ≡ done device

-- A reading of the clock behind the first one lies behind the deadline.
abbrev pub any_late : System → Bool
any_late s = late s 1 || late s 2 || late s 3 || late s 4

abbrev pub arena_mapping : {s : System} → Readable s → ℕ × ℕ
arena_mapping r = (r.address, arena_bytes + arena_header)

zero_disk-IsValid : IsValid zero_disk
zero_disk-IsValid = record { count_in = omega arith; not_wasted = omega arith; array = refl }

same_storage :
    {address k n : ℕ} {b : Arena}
    → SameStorage (filled address k n) b
    → SameStorage (fresh address) b
same_storage h = record {
  same_address = h.same_address;
  same_base = h.same_base;
  same_capacity = h.same_capacity;
}

module _ (s : System) (r : Readable s) where
  abbrev calls : List Call
  calls = mapped r.address (arena_bytes + arena_header) ∷ []

  abbrev calls' : List Call
  calls' =
      mapped r.address (arena_bytes + arena_header)
      ∷ mapped r.ram_address r.ram_length
      ∷ unmapped r.ram_address r.ram_length
      ∷ []

  abbrev answered : Response
  answered = record {
    status = ok;
    cpu = some r.message;
    memory = some (record { total = r.ram.total; free = r.ram.free });
    calls = calls' ++ unmapped r.address (arena_bytes + arena_header) ∷ [];
  }

  abbrev structs : Structs
  structs = record {
    cpu = some (r.address + arena_header + 0);
    ram = some (r.address + arena_header + 120);
    disk = some (r.address + arena_header + 136);
    device = some (r.address + arena_header + 160);
    arena = some (filled r.address 160 704);
    memory = memory_behind r.address s.memory;
  }

  -- With the readers' results put in, the tests of the deadline are left.
  gathered :
      gather s calls structs
      ≡ in_time s 1 calls
          (in_time s 2 calls' (in_time s 3 calls' (in_time s 4 calls' (done answered))))
  unfolding gather answer memory_message
  gathered =
      let (d, b, m, e, h) =
        disk_read-SameStorage s.scan s.asserts r.lines zero_disk (filled r.address 160 704)
          (memory_behind r.address s.memory) zero_disk-IsValid (omega (arith, r.few)) in
      rw
        (
          r.cpu_returns,
          r.ram_returns,
          r.lines_open,
          e,
          r.device_returns,
          r.message_reads,
          destroy_fresh r.address {b = b} (same_storage h),
        )
        refl

  live-calls' : live calls' ≡ arena_mapping r ∷ []
  live-calls' = release_last r.ram_address r.ram_length (arena_mapping r ∷ [])

  live_answered : live answered.calls ≡ []
  live_answered =
      rw (release_last r.ram_address r.ram_length (arena_mapping r ∷ []))
        (release_last r.address (arena_bytes + arena_header) [])

-- Neither cancelled nor late at any reading of the clock.
abbrev pub on_time : System → Bool
on_time s = not (s.cancelled || late s 0 || any_late s)

abbrev pub memory_of : SysMemory → MemoryMessage
memory_of ram = record { total = ram.total; free = ram.free }

module _ (s : System) (r : Readable s) where
  -- The tests in the order of the code, with their values for variables.
  sort_out :
      (c l0 l1 l2 l3 l4 : Bool)
      → let in_order = not (c || l0 || (l1 || l2 || l3 || l4)) in
        (p : Response) × ((if c
            then done (refused cancelled [])
            else if l0
            then done (refused deadline_exceeded [])
            else if l1
            then done (refused deadline_exceeded (calls s r))
            else if l2
            then done (refused deadline_exceeded (calls' s r))
            else if l3
            then done (refused deadline_exceeded (calls' s r))
            else if l4
            then done (refused deadline_exceeded (calls' s r))
            else done (answered s r))
          ≡ done p)
        × Gives p
            (if c
              then cancelled
              else if l0 || (l1 || l2 || l3 || l4)
              then deadline_exceeded
              else ok)
            (if in_order then some r.message else none)
            (if in_order then some (memory_of r.ram) else none)
            (if not c && not l0 && (l1 || l2 || l3 || l4) then arena_mapping r ∷ [] else [])
  sort_out true l0 l1 l2 l3 l4 =
      (_, refl, record { has_status = refl; has_cpu = refl; has_memory = refl; holds = refl })
  sort_out false true l1 l2 l3 l4 =
      (_, refl, record { has_status = refl; has_cpu = refl; has_memory = refl; holds = refl })
  sort_out false false true l2 l3 l4 =
      (_, refl, record { has_status = refl; has_cpu = refl; has_memory = refl; holds = refl })
  sort_out false false false true l3 l4 = (
    _,
    refl,
    record { has_status = refl; has_cpu = refl; has_memory = refl; holds = live-calls' s r },
  )
  sort_out false false false false true l4 = (
    _,
    refl,
    record { has_status = refl; has_cpu = refl; has_memory = refl; holds = live-calls' s r },
  )
  sort_out false false false false false true = (
    _,
    refl,
    record { has_status = refl; has_cpu = refl; has_memory = refl; holds = live-calls' s r },
  )
  sort_out false false false false false false = (
    _,
    refl,
    record { has_status = refl; has_cpu = refl; has_memory = refl; holds = live_answered s r },
  )

  -- Where the kernel maps the arena and every reader returns, `get_system_resources_impl` returns
  -- too: `CANCELLED` for a call that was cancelled, else `DEADLINE_EXCEEDED` if any of the five
  -- readings of the clock lies behind the deadline, else `OK`. It answers in the last case alone,
  -- with what the readers of the processor and of the memory gave. Nothing stays mapped, but the
  -- whole arena does where the first reading was in time and a later one was not.
  pub get_system_resources_lem :
      (p : Response) × (get_system_resources_impl s ≡ done p)
      × Gives p
          (if s.cancelled
            then cancelled
            else if late s 0 || any_late s
            then deadline_exceeded
            else ok)
          (if on_time s then some r.message else none)
          (if on_time s then some (memory_of r.ram) else none)
          (if not s.cancelled && not (late s 0) && any_late s then arena_mapping r ∷ [] else [])
  unfolding get_system_resources_impl
  get_system_resources_lem =
      let (p, e, g) = sort_out s.cancelled (late s 0) (late s 1) (late s 2) (late s 3) (late s 4) in
      (
        p,
        rw
            (
              create_fresh s.mapping r.address r.maps,
              create_structs-fresh r.address s.memory,
              gathered s r,
            )
            e,
        g,
      )
