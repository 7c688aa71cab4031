-- ===== src/Handlers/GetRam.antt =====
-- `get_ram_impl`, down to the lines of /proc/meminfo.
use agent_resources.Prelude.{
  ℕ, ◌+◌, ◌≤◌, ◌%◌, ◌^◌, ◌≡◌, refl, sym, arith, some, none, List, [], ◌∷◌, ◌||◌, if◌then◌else◌, All,
  done, length,
}
use agent_resources.Memory.{mem_set}
use agent_resources.Arena.{arena_header}
use agent_resources.Parse.Number.{IsDigit, decimal}
use agent_resources.Text.{codes}
use agent_resources.Resources.Ram.{ram_create, memory_size}
use agent_resources.Resources.Ram.Line.{size_line, AreSpaces, Other}
use agent_resources.Resources.Ram.Laws.{sys_ram_read_lem}
use agent_resources.Arena.Calls.{mapped, unmapped, release_last}
use agent_resources.Handlers.{
  System, ok, cancelled, deadline_exceeded, Response, late, arena_bytes, zero_memory,
  memory_message, answer_ram, get_ram_impl,
}
use agent_resources.Handlers.Create.{create_fresh, destroy_fresh, alloc_filled, filled, same_filled}
use agent_resources.Handlers.Accept.{Gives, accepted, without_cpu}

-- For a file /proc/meminfo as `sys_ram_read` expects it, and a kernel that maps both arenas:
-- `get_ram_impl` returns `CANCELLED` for a call that was cancelled, else `DEADLINE_EXCEEDED` if it
-- starts behind the deadline, else `OK` with the two numbers of the file, modulo 2 ^ 64. It leaves
-- nothing mapped.
pub get_ram_lem :
    (s : System) (address address' : ℕ) (spaces spaces' : List ℕ) (c : ℕ) (ds : List ℕ) (c' : ℕ)
    (ds' unit unit' : List ℕ) (lines : List (List ℕ))
    → s.mapping (arena_bytes + arena_header) ≡ some address
    → s.mapping (8192 + arena_header) ≡ some address'
    → s.meminfo
      ≡ some (
          size_line (codes "MemTotal") spaces c ds unit
          ∷ size_line (codes "MemFree") spaces' c' ds' unit'
          ∷ lines)
    → AreSpaces spaces
    → AreSpaces spaces'
    → All IsDigit (c ∷ ds)
    → All IsDigit (c' ∷ ds')
    → length ds + length ds' + 4 ≤ 8192
    → All Other lines
    → (p : Response) × (get_ram_impl s ≡ done p)
      × Gives p
          (if s.cancelled then cancelled else if late s 0 then deadline_exceeded else ok)
          none
          (if s.cancelled || late s 0
            then none
            else some (record {
              total = decimal 0 (c ∷ ds) % 2 ^ 64;
              free = decimal 0 (c' ∷ ds') % 2 ^ 64;
            }))
          []
unfolding get_ram_impl answer_ram memory_message ram_create
get_ram_lem s address address' spaces spaces' c ds c' ds' unit unit' lines e e' f sp sp' d d' h o =
    let read = rw (sym f) at (
      sys_ram_read_lem s.asserts s.mapping address'
        (mem_set (address + arena_header + 0) memory_size s.memory) zero_memory spaces spaces' c ds
        c' ds' unit unit' lines e' sp sp' d d' h o) in
    let (p, q, g) = accepted s answered answered-Gives in
    (
      p,
      rw
          (
            create_fresh s.mapping address e,
            alloc_filled address 0 0 memory_size s.memory (omega arith) (omega arith),
            read,
            destroy_fresh address {b = filled address 0 16} (same_filled address 0 16),
          )
          q,
      without_cpu (s.cancelled || late s 0) g,
    )
  where
    answered : Response
    answered = record {
      status = ok;
      cpu = none;
      memory =
          some
            (record { total = decimal 0 (c ∷ ds) % 2 ^ 64; free = decimal 0 (c' ∷ ds') % 2 ^ 64 });
      calls =
          mapped address (arena_bytes + arena_header)
          ∷ mapped address' (8192 + arena_header)
          ∷ unmapped address' (8192 + arena_header)
          ∷ unmapped address (arena_bytes + arena_header)
          ∷ [];
    }

    answered-Gives : Gives answered ok none answered.memory []
    answered-Gives = record {
      has_status = refl;
      has_cpu = refl;
      has_memory = refl;
      holds =
          rw
            (release_last address' (8192 + arena_header)
              ((address, arena_bytes + arena_header) ∷ []))
            (release_last address (arena_bytes + arena_header) []);
    }
