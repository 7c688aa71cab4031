-- ===== src/Handlers/GetCpu.antt =====
-- `get_cpu_impl`: its answer for a file of the processors.
use agent_resources.Prelude.{
  ℕ, ◌+◌, ◌≡◌, refl, arith, some, none, List, [], ◌∷◌, All, Run, Bool, true, false, ◌||◌,
  if◌then◌else◌, done, assert_then,
}
use agent_resources.Arena.{arena_header}
use agent_resources.Arena.Calls.{mapped, unmapped, release_last}
use agent_resources.Resources.{err_ok}
use agent_resources.Resources.Cpu.{Cpu, cpu_create, cpu_size, cpu_read}
use agent_resources.Resources.Cpu.Sections.{Section, IsSection}
use agent_resources.Resources.Cpu.Whole.{
  HasLengths, file_lines, last_section, cpu_read_sections_lem,
}
use agent_resources.Handlers.{
  System, ok, cancelled, deadline_exceeded, CpuMessage, Response, late, arena_bytes, zero_cpu,
  cpu_message, answer_cpu, get_cpu_impl,
}
use agent_resources.Handlers.Create.{filled, create_fresh, alloc_filled, same_filled, destroy_fresh}
use agent_resources.Handlers.Accept.{Gives, accepted, without_memory}

abbrev pub message_of : Section → CpuMessage
message_of s = record {
  vendor = s.vendor.value;
  model = s.model.value;
  frequency = s.frequency.value;
  total_time = 0;
  idle_time = 0;
  cores = 0;
}

pub assert_passes :
    {A : Type 0} (asserts : Bool) (rest : Run A) → assert_then asserts true rest ≡ rest
assert_passes true rest = refl
assert_passes false rest = refl

pub read_message :
    (s : System) (section : Section) (sections : List Section)
    → s.cpuinfo ≡ some (file_lines (section ∷ sections))
    → All IsSection (section ∷ sections)
    → All (HasLengths section) sections
    → (c : Cpu) × (cpu_read s.asserts (some zero_cpu) s.cpuinfo ≡ done (err_ok, some c))
      × (cpu_message (some c) ≡ done (message_of (last_section section sections)))
unfolding cpu_read cpu_message
read_message s section sections f v e =
    let (c, r, vendor, model, frequency, cores, total, idle) =
      cpu_read_sections_lem s.asserts section sections zero_cpu v e refl refl refl in
    (
      c,
      rw (f, r) (assert_passes s.asserts (done (err_ok, some c))),
      rw (vendor, model, frequency, cores, total, idle) refl,
    )

-- For a kernel that maps the arena, and a file /proc/cpuinfo with a section for each of one or more
-- processors, whose texts fit the arrays and have the same lengths in all sections: `get_cpu_impl`
-- returns `CANCELLED` for a call that was cancelled, else `DEADLINE_EXCEEDED` if it starts behind
-- the deadline, else `OK` with the vendor, the model and the frequency of the last section; the
-- number of cores and the two times that it answers are always 0. It leaves nothing mapped.
pub get_cpu_lem :
    (s : System) (address : ℕ) (section : Section) (sections : List Section)
    → s.mapping (arena_bytes + arena_header) ≡ some address
    → s.cpuinfo ≡ some (file_lines (section ∷ sections))
    → All IsSection (section ∷ sections)
    → All (HasLengths section) sections
    → (p : Response) × (get_cpu_impl s ≡ done p)
      × Gives p
          (if s.cancelled then cancelled else if late s 0 then deadline_exceeded else ok)
          (if s.cancelled || late s 0
            then none
            else some (message_of (last_section section sections)))
          none
          []
unfolding get_cpu_impl answer_cpu cpu_create
get_cpu_lem s address section sections maps f v e =
    let (c, read, message) = read_message s section sections f v e in
    let (p, q, g) = accepted s answered (record {
      has_status = refl;
      has_cpu = refl;
      has_memory = refl;
      holds = release_last address (arena_bytes + arena_header) [];
    }) in
    (
      p,
      rw
          (
            create_fresh s.mapping address maps,
            alloc_filled address 0 0 cpu_size s.memory (omega arith) (omega arith),
            read,
            message,
            destroy_fresh address {b = filled address 0 cpu_size} (same_filled address 0 cpu_size),
          )
          q,
      without_memory (s.cancelled || late s 0) g,
    )
  where
    answered : Response
    answered = record {
      status = ok;
      cpu = some (message_of (last_section section sections));
      memory = none;
      calls =
          mapped address (arena_bytes + arena_header)
          ∷ unmapped address (arena_bytes + arena_header)
          ∷ [];
    }
