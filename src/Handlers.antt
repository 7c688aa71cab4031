-- ===== src/Handlers.antt =====
-- grpc/handlers/resource_handler.cc: the answers of the service.
--
-- The types `cpu`, `memory`, `disk` and `device` and the function `ram_read`, which the file names
-- and the library does not define, are read as `sys_cpu` and so on and as `sys_ram_read`. What gRPC
-- and the kernel give to a call is a `System`. `calls` are the calls of `mmap` and `munmap` that
-- are made.
pub mod Create
pub mod Accept
pub mod Respond
pub mod GetRam
pub mod Reference
pub mod GetCpu
pub mod Files
pub mod Kept
pub mod Errors
pub mod Answers
mod Tests
use agent_resources.Prelude.{
  ℕ, ◌*◌, Option, none, some, List, [], ◌∷◌, ◌++◌, Run, done, fault, ◌>>=◌, Bool, if◌then◌else◌,
  ltb, add64, replicate, ℤ,
}
use agent_resources.Memory.{Memory}
use agent_resources.Arena.{Arena, arena_header, arena_create, arena_destroy}
use agent_resources.Arena.Calls.{Call, mapped, unmapped, map_calls, unmap_calls}
use agent_resources.Text.{c_string}
use agent_resources.Resources.{File, placed}
use agent_resources.Resources.Cpu.{Cpu, cpu_create, cpu_read}
use agent_resources.Resources.Ram.{SysMemory, ram_create, sys_ram_read}
use agent_resources.Resources.Disk.{Disk, Scanned, disk_create, disk_read}
use agent_resources.Resources.Device.{Device, zero_device, device_create, device_read}

-- `now k` is the time at the reading `k` of the clock. `mapping` is `mmap`, and `scan` is `sscanf`.
pub record System : Type 0 where
  pub asserts : Bool
  pub cancelled : Bool
  pub deadline : ℕ
  pub now : ℕ → ℕ
  pub mapping : ℕ → Option ℕ
  pub memory : Memory
  pub cpuinfo : File
  pub meminfo : File
  pub partitions : File
  pub scan : List ℕ → Option Scanned
  pub os_release : File
  pub uptime : Option (Option ℤ)

-- The codes of `grpc::Status`. The handlers return the first three; the last is what the class that
-- is generated from the protocol returns for a method that is not overridden.
pub data Status : Type 0 where
  ok cancelled deadline_exceeded unimplemented : Status

-- The messages of the protocol, with the fields that are set.
pub record CpuMessage : Type 0 where
  pub vendor : List ℕ
  pub model : List ℕ
  pub frequency : List ℕ
  pub total_time : ℕ
  pub idle_time : ℕ
  pub cores : ℕ

pub record MemoryMessage : Type 0 where
  pub total : ℕ
  pub free : ℕ

pub record Response : Type 0 where
  pub status : Status
  pub cpu : Option CpuMessage
  pub memory : Option MemoryMessage
  pub calls : List Call

abbrev pub refused : Status → List Call → Response
refused status calls = record { status = status; cpu = none; memory = none; calls = calls }

-- `deadline < std::chrono::system_clock::now()`
abbrev pub late : System → ℕ → Bool
late s k = ltb s.deadline (s.now k)

-- The tests with which a handler starts.
abbrev pub accept : System → Run Response → Run Response
accept s rest =
    if s.cancelled
    then done (refused cancelled [])
    else if late s 0
    then done (refused deadline_exceeded [])
    else rest

-- A later test of the deadline, behind the calls that have been made.
abbrev pub in_time : System → ℕ → List Call → Run Response → Run Response
in_time s k calls rest = if late s k then done (refused deadline_exceeded calls) else rest

-- `MiB(8)`
abbrev pub arena_bytes : ℕ
arena_bytes = 8388608

-- The temporary arena of `sys_ram_read`, which is unmapped at once.
abbrev pub ram_calls : Option (ℕ × ℕ) → List Call
ram_calls none = []
ram_calls (some (address, len)) = mapped address len ∷ unmapped address len ∷ []

abbrev pub zero_cpu : Cpu
zero_cpu = record {
  total_time = 0;
  idle_time = 0;
  cores = 0;
  vendor = replicate 16 0;
  model = replicate 64 0;
  frequency = replicate 16 0;
}

abbrev pub zero_memory : SysMemory
zero_memory = record { total = 0; free = 0 }

abbrev pub zero_disk : Disk
zero_disk = record { partitions = none; part_count = 0; part_capacity = 0 }

-- The `set_` calls; those of a text read it up to its NUL.
pub cpu_message : Option Cpu → Run CpuMessage
cpu_message none = fault
cpu_message (some c) = do
  vendor ← c_string c.vendor
  model ← c_string c.model
  frequency ← c_string c.frequency
  done (record {
    vendor = vendor;
    model = model;
    frequency = frequency;
    total_time = c.total_time;
    idle_time = c.idle_time;
    cores = c.cores;
  })

pub memory_message : Option SysMemory → Run MemoryMessage
memory_message none = fault
memory_message (some r) = done (record { total = r.total; free = r.free })

-- The structs of a call, and the arena behind them.
pub record Structs : Type 0 where
  pub cpu : Option ℕ
  pub ram : Option ℕ
  pub disk : Option ℕ
  pub device : Option ℕ
  pub arena : Option Arena
  pub memory : Memory

pub create_structs : Option Arena → Memory → Structs
create_structs arena m =
    let c = cpu_create arena m in
    let r = ram_create c.1 c.2 in
    let d = disk_create r.1 r.2 in
    let v = device_create d.1 d.2 in
    record { cpu = c.0; ram = r.0; disk = d.0; device = v.0; arena = v.1; memory = v.2 }

-- The end of `get_system_resources_impl`: the message, and the arena's release.
pub answer : List Call → Option Cpu → Option SysMemory → Option Arena → Run Response
answer calls c r arena = do
  cpu ← cpu_message c
  memory ← memory_message r
  done (record {
    status = ok;
    cpu = some cpu;
    memory = some memory;
    calls = calls ++ unmap_calls (arena_destroy arena);
  })

-- The readers in their order, with the deadline tested behind each. Their codes are not looked at.
pub gather : System → List Call → Structs → Run Response
gather s calls t = cpu_read s.asserts (placed t.cpu zero_cpu) s.cpuinfo >>= λ c. in_time s 1 calls (
    sys_ram_read s.asserts (placed t.ram zero_memory) s.meminfo s.mapping t.memory >>= λ r.
    let calls' = calls ++ ram_calls r.2 in
    in_time s 2 calls' (
      disk_read s.scan s.asserts (placed t.disk zero_disk) t.arena t.memory s.partitions >>= λ d.
      in_time s 3 calls' (
        device_read s.asserts (placed t.device zero_device) s.os_release s.uptime >>= λ v.
        in_time s 4 calls' (answer calls' c.1 r.1 d.2))))

pub get_system_resources_impl : System → Run Response
get_system_resources_impl s =
    let arena = arena_create s.mapping arena_bytes in
    accept s (gather s (map_calls arena) (create_structs arena s.memory))

pub answer_cpu : System → Option Arena → Option ℕ × Option Arena × Memory → Run Response
answer_cpu s arena (p, arena', m) = do
  c ← cpu_read s.asserts (placed p zero_cpu) s.cpuinfo
  cpu ← cpu_message c.1
  done (record {
    status = ok;
    cpu = some cpu;
    memory = none;
    calls = map_calls arena ++ unmap_calls (arena_destroy arena');
  })

pub get_cpu_impl : System → Run Response
get_cpu_impl s =
    let arena = arena_create s.mapping arena_bytes in
    accept s (answer_cpu s arena (cpu_create arena s.memory))

pub answer_ram : System → Option Arena → Option ℕ × Option Arena × Memory → Run Response
answer_ram s arena (p, arena', m) = do
  r ← sys_ram_read s.asserts (placed p zero_memory) s.meminfo s.mapping m
  memory ← memory_message r.1
  done (record {
    status = ok;
    cpu = none;
    memory = some memory;
    calls = map_calls arena ++ ram_calls r.2 ++ unmap_calls (arena_destroy arena');
  })

pub get_ram_impl : System → Run Response
get_ram_impl s =
    let arena = arena_create s.mapping arena_bytes in
    accept s (answer_ram s arena (ram_create arena s.memory))

pub get_device_impl : Run Response
get_device_impl = done (refused ok [])
