-- ===== src/Handlers/Files.antt =====
-- `get_system_resources_impl` from what the system's files hold.
use agent_resources.Prelude.{
  ℕ, ◌+◌, ◌%◌, ◌^◌, ◌≤◌, ◌<◌, ◌≡◌, some, none, List, [], ◌∷◌, ◌++◌, All, not, ◌&&◌, ◌||◌,
  if◌then◌else◌, done, length, pos,
}
use agent_resources.Text.{codes, overlay}
use agent_resources.Resources.{err_ok}
use agent_resources.Resources.Fs.{uptime_text}
use agent_resources.Arena.{arena_header}
use agent_resources.Parse.Number.{IsDigit, decimal}
use agent_resources.Resources.Cpu.Sections.{Section, IsSection}
use agent_resources.Resources.Cpu.Whole.{HasLengths, file_lines, last_section}
use agent_resources.Resources.Ram.Line.{size_line, AreSpaces, Other as OtherSize}
use agent_resources.Resources.Ram.Laws.{sys_ram_read_lem}
use agent_resources.Resources.Disk.Read.{parsed}
use agent_resources.Resources.Device.Laws.{
  name_line, Other as OtherName, IsQuotable, device_read-name,
}
use agent_resources.Handlers.{
  System, ok, cancelled, deadline_exceeded, MemoryMessage, Response, late, arena_bytes, zero_memory,
  get_system_resources_impl,
}
use agent_resources.Resources.Device.{zero_device}
use agent_resources.Handlers.Accept.{Gives}
use agent_resources.Handlers.GetCpu.{message_of, read_message}
use agent_resources.Handlers.Respond.{Readable, any_late, on_time, get_system_resources_lem}

-- /proc/cpuinfo with a section for each processor.
pub record CpuFile (s : System) : Type 0 where
  pub section : Section
  pub sections : List Section
  pub cpu_opens : s.cpuinfo ≡ some (file_lines (section ∷ sections))
  pub are_sections : All IsSection (section ∷ sections)
  pub same_lengths : All (HasLengths section) sections

-- /proc/meminfo with the total and the free memory in its first two lines.
pub record RamFile (s : System) : Type 0 where
  pub spaces : List ℕ
  pub first : ℕ
  pub digits : List ℕ
  pub unit : List ℕ
  pub spaces' : List ℕ
  pub first' : ℕ
  pub digits' : List ℕ
  pub unit' : List ℕ
  pub others : List (List ℕ)
  pub ram_opens :
      s.meminfo
      ≡ some (
          size_line (codes "MemTotal") spaces first digits unit
          ∷ size_line (codes "MemFree") spaces' first' digits' unit'
          ∷ others)
  pub are_spaces : AreSpaces spaces
  pub are_spaces' : AreSpaces spaces'
  pub are_digits : All IsDigit (first ∷ digits)
  pub are_digits' : All IsDigit (first' ∷ digits')
  pub short : length digits + length digits' + 4 ≤ 8192
  pub no_sizes : All OtherSize others

-- /proc/partitions, /etc/os-release with one line for the name, and the uptime.
pub record DeviceFiles (s : System) : Type 0 where
  pub partitions : List (List ℕ)
  pub partitions_open : s.partitions ≡ some partitions
  pub few : length (parsed s.scan partitions) < 2 ^ 54
  pub early : List (List ℕ)
  pub late_lines : List (List ℕ)
  pub name : List ℕ
  pub rest : List ℕ
  pub os_opens : s.os_release ≡ some (early ++ name_line name rest ∷ late_lines)
  pub no_names : All OtherName early
  pub no_names' : All OtherName late_lines
  pub quotable : IsQuotable name
  pub name_short : length name < 256
  pub seconds : ℕ
  pub uptime_reads : s.uptime ≡ some (some (pos seconds))

abbrev pub ram_message : {s : System} → RamFile s → MemoryMessage
ram_message f = record {
  total = decimal 0 (f.first ∷ f.digits) % 2 ^ 64;
  free = decimal 0 (f.first' ∷ f.digits') % 2 ^ 64;
}

abbrev readable :
    (s : System) (address address' : ℕ)
    → s.mapping (arena_bytes + arena_header) ≡ some address
    → s.mapping (8192 + arena_header) ≡ some address'
    → CpuFile s
    → RamFile s
    → DeviceFiles s
    → Readable s
readable s address address' maps maps' c r d =
    let (cpu, cpu_returns, message) =
      read_message s c.section c.sections c.cpu_opens c.are_sections c.same_lengths in
    record {
      address = address;
      maps = maps;
      cpu = cpu;
      cpu_returns = cpu_returns;
      message = message_of (last_section c.section c.sections);
      message_reads = message;
      ram = record { total = (ram_message r).total; free = (ram_message r).free };
      ram_address = address';
      ram_length = 8192 + arena_header;
      ram_returns = λ m. rw r.ram_opens (
          sys_ram_read_lem s.asserts s.mapping address' m zero_memory r.spaces r.spaces' r.first
            r.digits r.first' r.digits' r.unit r.unit' r.others maps' r.are_spaces r.are_spaces'
            r.are_digits r.are_digits' r.short r.no_sizes);
      lines = d.partitions;
      lines_open = d.partitions_open;
      few = d.few;
      device = (
        err_ok,
        some (record zero_device {
          os_version = overlay (d.name ++ 0 ∷ []) zero_device.os_version;
          uptime = uptime_text (pos d.seconds);
        }),
      );
      device_returns =
          rw (d.os_opens, d.uptime_reads)
            (device_read-name s.asserts d.early d.late_lines d.name d.rest d.seconds zero_device
              d.no_names d.no_names' d.quotable d.name_short);
    }

-- For a kernel that maps the two arenas, and files as a Linux system has them (one or more
-- processors whose texts fit the arrays and have the same lengths, the sizes of the memory in the
-- first two lines of /proc/meminfo, fewer than 2 ^ 54 partitions, one name in /etc/os-release, and
-- an uptime that is not negative): `get_system_resources_impl` returns `CANCELLED` for a call that
-- was cancelled, else `DEADLINE_EXCEEDED` if any of the five readings of the clock lies behind the
-- deadline, else `OK`. In the last case alone it answers: the texts of the last processor, with 0
-- for its cores and times, and the two sizes of the memory modulo 2 ^ 64. Nothing stays mapped, but
-- the whole arena does where the first reading was in time and a later one was not.
pub system_resources_lem :
    (s : System) (address address' : ℕ)
    → s.mapping (arena_bytes + arena_header) ≡ some address
    → s.mapping (8192 + arena_header) ≡ some address'
    → (c : CpuFile s) → (r : RamFile s) → DeviceFiles s
    → (p : Response) × (get_system_resources_impl s ≡ done p)
      × Gives p
          (if s.cancelled
            then cancelled
            else if late s 0 || any_late s
            then deadline_exceeded
            else ok)
          (if on_time s then some (message_of (last_section c.section c.sections)) else none)
          (if on_time s then some (ram_message r) else none)
          (if not s.cancelled && not (late s 0) && any_late s
            then (address, arena_bytes + arena_header) ∷ []
            else [])
system_resources_lem s address address' maps maps' c r d =
    get_system_resources_lem s (readable s address address' maps maps' c r d)
