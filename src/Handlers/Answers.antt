-- ===== src/Handlers/Answers.antt =====
-- Which status and which messages the handlers return, whatever the files hold and the kernel gives.
use agent_resources.Prelude.{
  ℕ, ◌≡◌, refl, sym, Option, none, some, List, Run, done, Returns, bind-Returns, Bool, true, false,
  ◌&&◌, ◌||◌, if◌then◌else◌,
}
use agent_resources.Arena.Calls.{Call}
use agent_resources.Arena.{Arena}
use agent_resources.Resources.{placed}
use agent_resources.Resources.Cpu.{Cpu, cpu_read}
use agent_resources.Resources.Ram.{SysMemory, sys_ram_read}
use agent_resources.Resources.Disk.{disk_read}
use agent_resources.Resources.Device.{zero_device, device_read}
use agent_resources.Handlers.{
  System, Status, ok, cancelled, deadline_exceeded, Response, Structs, refused, late, accept,
  in_time, zero_cpu, zero_memory, zero_disk, cpu_message, memory_message, answer, gather,
  get_system_resources_impl, answer_cpu, get_cpu_impl, answer_ram, get_ram_impl,
}
use agent_resources.Handlers.Respond.{any_late}

abbrev pub is_some {ℓ} : {A : Type ℓ} → Option A → Bool
is_some none = false
is_some (some a) = true

abbrev pub is_ok : Status → Bool
is_ok ok = true
is_ok _ = false

-- The status of a response; the messages of its kind are set exactly if it is `OK`.
pub record Answers (cpu memory : Bool) (status : Status) (p : Response) : Type 0 where
  pub has_status : p.status ≡ status
  pub has_cpu : is_some p.cpu ≡ (is_ok p.status && cpu)
  pub has_memory : is_some p.memory ≡ (is_ok p.status && memory)

module _ (cpu memory : Bool) where
  -- A test that ends a call early.
  guarded :
      (test : Bool) (early : Status) (calls : List Call) (status : Status) (rest : Run Response)
      → is_ok early ≡ false
      → Returns (Answers cpu memory status) rest
      → Returns
          (Answers cpu memory (if test then early else status))
          (if test then done (refused early calls) else rest)
  guarded true early calls status rest e h = record {
    has_status = refl;
    has_cpu = rw e refl;
    has_memory = rw e refl;
  }
  guarded false early calls status rest e h = h

  accept-Answers :
      (s : System) (status : Status) (rest : Run Response)
      → Returns (Answers cpu memory status) rest
      → Returns
          (Answers cpu memory
            (if s.cancelled then cancelled else if late s 0 then deadline_exceeded else status))
          (accept s rest)
  accept-Answers s status rest h =
      guarded s.cancelled cancelled _ _ _ refl
        (guarded (late s 0) deadline_exceeded _ status rest refl h)

  in_time-Answers :
      (s : System) (k : ℕ) (calls : List Call) (status : Status) (rest : Run Response)
      → Returns (Answers cpu memory status) rest
      → Returns
          (Answers cpu memory (if late s k then deadline_exceeded else status))
          (in_time s k calls rest)
  in_time-Answers s k calls status rest h =
      guarded (late s k) deadline_exceeded calls status rest refl h

pub get_cpu-Answers :
    (s : System)
    → Returns
        (Answers true false
          (if s.cancelled then cancelled else if late s 0 then deadline_exceeded else ok))
        (get_cpu_impl s)
unfolding get_cpu_impl answer_cpu
get_cpu-Answers s = accept-Answers true false s ok _ (
    bind-Returns _ (cpu_read s.asserts _ s.cpuinfo) _ (λ c _.
      bind-Returns _ (cpu_message c.1) _
        (λ _ _. record { has_status = refl; has_cpu = refl; has_memory = refl })))

pub get_ram-Answers :
    (s : System)
    → Returns
        (Answers false true
          (if s.cancelled then cancelled else if late s 0 then deadline_exceeded else ok))
        (get_ram_impl s)
unfolding get_ram_impl answer_ram
get_ram-Answers s = accept-Answers false true s ok _ (
    bind-Returns _ (sys_ram_read s.asserts _ s.meminfo s.mapping _) _ (λ r _.
      bind-Returns _ (memory_message r.1) _
        (λ _ _. record { has_status = refl; has_cpu = refl; has_memory = refl })))

module _ (s : System) (calls : List Call) (t : Structs) where
  answer-Answers :
      (calls : List Call) (c : Option Cpu) (r : Option SysMemory) (arena : Option Arena)
      → Returns (Answers true true ok) (answer calls c r arena)
  unfolding answer
  answer-Answers calls c r arena = bind-Returns _ (cpu_message c) _ (λ _ _.
      bind-Returns _ (memory_message r) _
        (λ _ _. record { has_status = refl; has_cpu = refl; has_memory = refl }))

  -- The tests of the deadline, one behind the other.
  abbrev behind_readers : Status
  behind_readers =
      if late s 1
      then deadline_exceeded
      else if late s 2
      then deadline_exceeded
      else if late s 3
      then deadline_exceeded
      else if late s 4
      then deadline_exceeded
      else ok

  gather-Answers : Returns (Answers true true behind_readers) (gather s calls t)
  unfolding gather
  gather-Answers = bind-Returns _ (cpu_read s.asserts (placed t.cpu zero_cpu) s.cpuinfo) _ (λ c _.
      in_time-Answers true true s 1 _ _ _ (
        bind-Returns _
          (sys_ram_read s.asserts (placed t.ram zero_memory) s.meminfo s.mapping t.memory) _
          (λ r _. in_time-Answers true true s 2 _ _ _ (
            bind-Returns _
              (disk_read s.scan s.asserts (placed t.disk zero_disk) t.arena t.memory s.partitions) _
              (λ d _. in_time-Answers true true s 3 _ _ _ (
                bind-Returns _
                  (device_read s.asserts (placed t.device zero_device) s.os_release s.uptime) _
                  (λ v _. in_time-Answers true true s 4 _ _ _ (answer-Answers _ c.1 r.1 d.2))))))))

one_test :
    (a b c d : Bool)
    → (if a
        then deadline_exceeded
        else if b
        then deadline_exceeded
        else if c
        then deadline_exceeded
        else if d
        then deadline_exceeded
        else ok)
      ≡ (if a || b || c || d then deadline_exceeded else ok)
one_test true b c d = refl
one_test false true c d = refl
one_test false false true d = refl
one_test false false false d = refl

pub get_system_resources-Answers :
    (s : System)
    → Returns
        (Answers true true (
          if s.cancelled
          then cancelled
          else if late s 0
          then deadline_exceeded
          else if any_late s
          then deadline_exceeded
          else ok))
        (get_system_resources_impl s)
unfolding get_system_resources_impl
get_system_resources-Answers s =
    accept-Answers true true s _ _
      (rw (sym (one_test (late s 1) (late s 2) (late s 3) (late s 4))) (gather-Answers s _ _))
