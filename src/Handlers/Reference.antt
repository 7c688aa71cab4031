-- ===== src/Handlers/Reference.antt =====
-- `get_cpu_impl` and `get_ram_impl` on any file, from what the lines of the files stand for.
mod Tests
use agent_resources.Prelude.{
  sym, ◌∙◌, ◌++◌, ◌==◌, ◌||◌, ◌%◌, ◌^◌, Option, length, length-append, if◌then◌else◌, ℕ, ◌+◌, ◌≡◌,
  ◌≤◌, refl, ◌∙◌, ap, arith, some, none, List, [], ◌∷◌, All, Run, done, aborted, fault, ◌>>=◌, Bool,
  true, false,
}
use agent_resources.Memory.{mem_set}
use agent_resources.Arena.{arena_header}
use agent_resources.Arena.Calls.{mapped, unmapped}
use agent_resources.Text.{codes}
use agent_resources.Resources.{err_ok}
use agent_resources.Resources.Cpu.{cpu_create, cpu_size, cpu_read}
use agent_resources.Resources.Cpu.Info.{Fits}
use agent_resources.Resources.Cpu.Reference.{cpu_of, cpu_read_amd64-Fits}
use agent_resources.Resources.Ram.{SysMemory, ram_create, memory_size, read_buffer}
use agent_resources.Resources.Ram.Reference.{last_text, text_bytes, ram_of, sys_ram_read_reference}
use agent_resources.Handlers.{
  System, ok, Response, accept, arena_bytes, zero_cpu, zero_memory, cpu_message, memory_message,
  answer_cpu, answer_ram, get_cpu_impl, get_ram_impl,
}
use agent_resources.Handlers.Create.{create_fresh, destroy_fresh, alloc_filled, filled, same_filled}
use agent_resources.Handlers.GetCpu.{assert_passes}
use agent_resources.Text.{starts_with, c_string, c_string-append}
use agent_resources.Parse.Number.{IsDigit, decimal, Stops, parse_u64_lem}
use agent_resources.Resources.Named.{named_value, named_values}
use agent_resources.Resources.Cpu.Reference.{text_of, no_cores}
use agent_resources.Arena.Calls.{release_last}
use agent_resources.Handlers.{cancelled, deadline_exceeded, late, CpuMessage}
use agent_resources.Handlers.Accept.{Gives, accepted, without_memory, without_cpu}

-- The array holds the text with a NUL behind it.
pub record HoldsText (text array : List ℕ) : Type 0 where
  pub behind : List ℕ
  pub ends : array ≡ text ++ 0 ∷ behind
  pub no_nul : All (λ x. (x == 0) ≡ false) text

-- The text starts with the digits of a number.
pub record IsNumber (text : Option (List ℕ)) (n : ℕ) : Type 0 where
  pub digits : List ℕ
  pub behind : List ℕ
  pub reads : text ≡ some (digits ++ behind)
  pub are_digits : All IsDigit digits
  pub stops : Stops (length behind) behind
  pub value : n ≡ decimal 0 digits % 2 ^ 64

cpu_read-Fits :
    (asserts : Bool) (lines : List (List ℕ))
    → All Fits lines
    → cpu_read asserts (some zero_cpu) (some lines) ≡ done (err_ok, some (cpu_of lines zero_cpu))
unfolding cpu_read
cpu_read-Fits asserts lines fits =
    rw (cpu_read_amd64-Fits asserts lines zero_cpu fits) (assert_passes asserts _)

cores_zero : (lines : List (List ℕ)) → named_values text_of (codes "cpu cores") no_cores lines 0 ≡ 0
cores_zero [] = refl
cores_zero (line ∷ lines) =
    rw (same (starts_with (codes "cpu cores") line) (text_of line)) (cores_zero lines)
  where
    same : (named : Bool) (text : Option (List ℕ)) → named_value named text no_cores 0 ≡ 0
    same false text = refl
    same true none = refl
    same true (some text) = refl

c_string-HoldsText : {text array : List ℕ} → HoldsText text array → c_string array ≡ done text
c_string-HoldsText {text} h = rw h.ends (c_string-append text h.behind h.no_nul)

read_buffer-IsNumber :
    {text : Option (List ℕ)} {n : ℕ} → IsNumber text n → read_buffer text ≡ done n
unfolding read_buffer
read_buffer-IsNumber h =
    rw (h.reads, length-append h.digits h.behind, h.value)
      (parse_u64_lem h.digits h.behind (length h.behind) h.are_digits h.stops)

ram_of-IsNumber :
    (address' : ℕ) (lines : List (List ℕ)) (total free : ℕ)
    → IsNumber (last_text (codes "MemTotal") none lines) total
    → IsNumber (last_text (codes "MemFree") none lines) free
    → ram_of address' lines
      ≡ done (
        err_ok,
        some (record { total = total; free = free }),
        some (address', 8192 + arena_header),
      )
ram_of-IsNumber address' lines total free t f =
    rw (read_buffer-IsNumber t, read_buffer-IsNumber f) refl

cpu_answer_lem :
    (s : System) (address : ℕ) (lines : List (List ℕ)) (vendor model frequency : List ℕ)
    → s.mapping (arena_bytes + arena_header) ≡ some address
    → s.cpuinfo ≡ some lines
    → All Fits lines
    → HoldsText vendor (cpu_of lines zero_cpu).vendor
    → HoldsText model (cpu_of lines zero_cpu).model
    → HoldsText frequency (cpu_of lines zero_cpu).frequency
    → (p : Response) × (get_cpu_impl s ≡ done p)
      × Gives p
          (if s.cancelled then cancelled else if late s 0 then deadline_exceeded else ok)
          (if s.cancelled || late s 0
            then none
            else some (record {
              vendor = vendor;
              model = model;
              frequency = frequency;
              total_time = 0;
              idle_time = 0;
              cores = 0;
            }))
          none
          []
unfolding get_cpu_impl answer_cpu cpu_create cpu_message
cpu_answer_lem s address lines vendor model frequency maps f fits hv hm hf =
    let (p, q, g) = accepted s answered (record {
      has_status = refl;
      has_cpu = refl;
      has_memory = refl;
      holds = release_last address (arena_bytes + arena_header) [];
    }) in
    let read : cpu_read s.asserts (some zero_cpu) s.cpuinfo
        ≡ done (err_ok, some (cpu_of lines zero_cpu)) =
      rw f (cpu_read-Fits s.asserts lines fits) in
    (
      p,
      rw
          (
            create_fresh s.mapping address maps,
            alloc_filled address 0 0 cpu_size s.memory (omega arith) (omega arith),
            read,
            c_string-HoldsText hv,
            c_string-HoldsText hm,
            c_string-HoldsText hf,
            cores_zero lines,
            destroy_fresh address {b = filled address 0 cpu_size} (same_filled address 0 cpu_size),
          )
          q,
      without_memory (s.cancelled || late s 0) g,
    )
  where
    answered : Response
    answered = record {
      status = ok;
      cpu = some (record {
        vendor = vendor;
        model = model;
        frequency = frequency;
        total_time = 0;
        idle_time = 0;
        cores = 0;
      });
      memory = none;
      calls =
          mapped address (arena_bytes + arena_header)
          ∷ unmapped address (arena_bytes + arena_header)
          ∷ [];
    }

ram_answer_lem :
    (s : System) (address address' : ℕ) (lines : List (List ℕ)) (total free : ℕ)
    → s.mapping (arena_bytes + arena_header) ≡ some address
    → s.mapping (8192 + arena_header) ≡ some address'
    → s.meminfo ≡ some lines
    → text_bytes lines ≤ 8192
    → IsNumber (last_text (codes "MemTotal") none lines) total
    → IsNumber (last_text (codes "MemFree") none lines) free
    → (p : Response) × (get_ram_impl s ≡ done p)
      × Gives p
          (if s.cancelled then cancelled else if late s 0 then deadline_exceeded else ok)
          none
          (if s.cancelled || late s 0 then none else some (record { total = total; free = free }))
          []
unfolding get_ram_impl answer_ram ram_create memory_message
ram_answer_lem s address address' lines total free maps maps' f room t fr =
    let read =
      sys_ram_read_reference s.asserts s.mapping address'
        (mem_set (address + arena_header + 0) memory_size s.memory) zero_memory lines maps' room in
    let read' = rw (sym f) at read in
    let (p, q, g) = accepted s answered answered-Gives in
    (
      p,
      rw
          (
            create_fresh s.mapping address maps,
            alloc_filled address 0 0 memory_size s.memory (omega arith) (omega arith),
            read' ∙ ram_of-IsNumber address' lines total free t fr,
            destroy_fresh address {b = filled address 0 16} (same_filled address 0 16),
          )
          q,
      without_cpu (s.cancelled || late s 0) g,
    )
  where
    answered : Response
    answered = record {
      status = ok;
      cpu = none;
      memory = some (record { total = total; free = free });
      calls =
          mapped address (arena_bytes + arena_header)
          ∷ mapped address' (8192 + arena_header)
          ∷ unmapped address' (8192 + arena_header)
          ∷ unmapped address (arena_bytes + arena_header)
          ∷ [];
    }

    answered-Gives : Gives answered ok none answered.memory []
    answered-Gives = record {
      has_status = refl;
      has_cpu = refl;
      has_memory = refl;
      holds =
          rw
            (release_last address' (8192 + arena_header)
              ((address, arena_bytes + arena_header) ∷ []))
            (release_last address (arena_bytes + arena_header) []);
    }

-- For a kernel that maps the arenas, any file /proc/cpuinfo whose values fit the arrays that they are
-- copied to, where the three arrays, with the values of the lines of their names copied over each
-- other, hold texts with a NUL behind them; and any file /proc/meminfo whose texts for the two sizes
-- have at most 8192 bytes together, where the last text of either starts with digits that end in it.
-- `get_cpu_impl` and `get_ram_impl` return `CANCELLED` for a call that was cancelled, else
-- `DEADLINE_EXCEEDED` if it starts behind the deadline, else `OK`: the first with the three texts in
-- their places and 0 for the cores and the times, the other with the two numbers, modulo 2 ^ 64. They
-- leave nothing mapped.
pub answers_lem :
    (s : System) (address address' : ℕ) (cpu_lines ram_lines : List (List ℕ))
    (vendor model frequency : List ℕ) (total free : ℕ)
    → s.mapping (arena_bytes + arena_header) ≡ some address
    → s.mapping (8192 + arena_header) ≡ some address'
    → s.cpuinfo ≡ some cpu_lines
    → s.meminfo ≡ some ram_lines
    → All Fits cpu_lines
    → HoldsText vendor (cpu_of cpu_lines zero_cpu).vendor
    → HoldsText model (cpu_of cpu_lines zero_cpu).model
    → HoldsText frequency (cpu_of cpu_lines zero_cpu).frequency
    → text_bytes ram_lines ≤ 8192
    → IsNumber (last_text (codes "MemTotal") none ram_lines) total
    → IsNumber (last_text (codes "MemFree") none ram_lines) free
    → let status = if s.cancelled then cancelled else if late s 0 then deadline_exceeded else ok in
      let refused = s.cancelled || late s 0 in
      ((p : Response) × (get_cpu_impl s ≡ done p)
        × Gives p status
            (if refused
              then none
              else some (record {
                vendor = vendor;
                model = model;
                frequency = frequency;
                total_time = 0;
                idle_time = 0;
                cores = 0;
              }))
            none
            [])
      × ((p : Response) × (get_ram_impl s ≡ done p)
          × Gives p status none
              (if refused then none else some (record { total = total; free = free }))
              [])
answers_lem s address address' cpu_lines ram_lines vendor model frequency total free maps maps' f f'
      fits hv hm hf room t fr =
    (
      cpu_answer_lem s address cpu_lines vendor model frequency maps f fits hv hm hf,
      ram_answer_lem s address address' ram_lines total free maps maps' f' room t fr,
    )
