-- ===== src/Handlers/Kept.antt =====
-- What the handlers unmap and what they leave mapped, whatever the files hold and the kernel gives.
use agent_resources.Prelude.{
  arith, ℕ, ◌+◌, ◌≡◌, refl, sym, ◌∙◌, Option, none, some, List, [], ◌∷◌, ◌++◌, Run, done, Returns,
  bind-Returns, Bool, true, false, not, ◌&&◌, ◌||◌, if◌then◌else◌, Bool-cases, Option-cases, inl,
  inr,
}
use mathlib.Core.List.{append-nil}
use agent_resources.Memory.{Memory}
use agent_resources.Arena.{Arena, arena_header, arena_alloc, arena_create, arena_destroy}
use agent_resources.Arena.Calls.{Call, mapped, Mappings, map_calls, unmap_calls}
use agent_resources.Arena.Owned.{
  Leaves, opened, open_mapping, opened-Leaves, passing, passing-Leaves, closed-Leaves,
}
use agent_resources.Arena.Valid.{alloc_destroyed}
use agent_resources.Resources.{placed}
use agent_resources.Resources.Cpu.{Cpu, cpu_size, cpu_create, cpu_read}
use agent_resources.Resources.Ram.{SysMemory, memory_size, ram_create, sys_ram_read}
use agent_resources.Resources.Disk.{disk_create, disk_read}
use agent_resources.Resources.Disk.Storage.{disk_read-SameEnd}
use agent_resources.Resources.Device.{zero_device, device_create, device_read}
use agent_resources.Handlers.{
  System, Response, Structs, ram_calls, late, accept, in_time, arena_bytes, zero_cpu, zero_memory,
  zero_disk, create_structs, cpu_message, memory_message, answer, gather, get_system_resources_impl,
  answer_cpu, get_cpu_impl, answer_ram, get_ram_impl, refused, deadline_exceeded,
}
use agent_resources.Handlers.Create.{create_fresh, create_structs-fresh}
use agent_resources.Handlers.Respond.{any_late}

abbrev pub Keeps : Mappings → Run Response → Type 0
Keeps kept r = Returns (λ p. Leaves p.calls kept) r

ram_calls_eq : (q : Option (ℕ × ℕ)) → ram_calls q ≡ passing q
ram_calls_eq none = refl
ram_calls_eq (some _) = refl

-- `in_time`, with what is kept where it is late.
in_time-Keeps :
    (s : System) (k : ℕ) (calls : List Call) (kept : Mappings) (later : Bool) (rest : Run Response)
    → Leaves calls kept
    → Keeps (if later then kept else []) rest
    → Keeps (if late s k || later then kept else []) (in_time s k calls rest)
in_time-Keeps s k calls kept later rest h h' = elim (Bool-cases (late s k)) [
  | inl l ↦ rw l h
  | inr l ↦ rw l h'
]

last-Keeps :
    (s : System) (k : ℕ) (calls : List Call) (kept : Mappings) (rest : Run Response)
    → Leaves calls kept
    → Keeps [] rest
    → Keeps (if late s k then kept else []) (in_time s k calls rest)
last-Keeps s k calls kept rest h h' = elim (Bool-cases (late s k)) [
  | inl l ↦ rw l h
  | inr l ↦ rw l h'
]

or_right : (a b c d : Bool) → (a || b || c || d) ≡ (a || (b || (c || d)))
or_right true b c d = refl
or_right false true c d = refl
or_right false false true d = refl
or_right false false false d = refl

module _ (s : System) (o : Option (ℕ × ℕ)) (t : Structs) where
  -- The arena behind `disk_read` is the one that was created.
  abbrev DiskKeeps : Type 0
  DiskKeeps =
      Returns (λ r. arena_destroy r.2 ≡ o)
        (disk_read s.scan s.asserts (placed t.disk zero_disk) t.arena t.memory s.partitions)

  answer-Keeps :
      (q : Option (ℕ × ℕ)) (c : Option Cpu) (r : Option SysMemory) (arena : Option Arena)
      → arena_destroy arena ≡ o
      → Keeps [] (answer (opened o ++ ram_calls q) c r arena)
  unfolding answer
  answer-Keeps q c r arena e = bind-Returns _ (cpu_message c) _ (λ _ _.
      bind-Returns _ (memory_message r) _ (λ _ _. rw (e, ram_calls_eq q) (closed-Leaves o q)))

  gather-Keeps :
      DiskKeeps → Keeps (if any_late s then open_mapping o else []) (gather s (opened o) t)
  unfolding gather
  gather-Keeps h = rw (or_right (late s 1) (late s 2) (late s 3) (late s 4)) (
      bind-Returns _ (cpu_read s.asserts (placed t.cpu zero_cpu) s.cpuinfo) _ (λ c _.
        in_time-Keeps s 1 _ (open_mapping o) (late s 2 || (late s 3 || late s 4)) _
          (opened-Leaves o)
          (bind-Returns _
            (sys_ram_read s.asserts (placed t.ram zero_memory) s.meminfo s.mapping t.memory) _
            (λ r _.
              let held = rw (sym (ram_calls_eq r.2)) at (passing-Leaves o r.2) in
              in_time-Keeps s 2 _ (open_mapping o) (late s 3 || late s 4) _ held (
                bind-Returns _
                  (disk_read s.scan s.asserts (placed t.disk zero_disk) t.arena t.memory
                    s.partitions)
                  _
                  (λ d e. in_time-Keeps s 3 _ (open_mapping o) (late s 4) _ held (
                    bind-Returns _
                      (device_read s.asserts (placed t.device zero_device) s.os_release s.uptime) _
                      (λ v _.
                        last-Keeps s 4 _ (open_mapping o) _ held
                          (answer-Keeps r.2 c.1 r.1 d.2 (rw e at h))))))))))

-- The arena of a call: its address and its length, if the kernel maps it.
abbrev pub arena_of : System → Option (ℕ × ℕ)
arena_of s = elim (s.mapping (arena_bytes + arena_header)) [
  | none ↦ none
  | some address ↦ some (address, arena_bytes + arena_header)
]

arena_calls : (s : System) → map_calls (arena_create s.mapping arena_bytes) ≡ opened (arena_of s)
unfolding arena_create
arena_calls s = elim (Option-cases (s.mapping (arena_bytes + arena_header))) [
  | inl e ↦ rw (arena_of, e, arena_create) refl
  | inr (address, e) ↦ rw (arena_of, e, arena_create) refl
]

arena_destroyed : (s : System) → arena_destroy (arena_create s.mapping arena_bytes) ≡ arena_of s
unfolding arena_create arena_destroy
arena_destroyed s = elim (Option-cases (s.mapping (arena_bytes + arena_header))) [
  | inl e ↦ rw (arena_of, e, arena_create) refl
  | inr (address, e) ↦ rw (arena_of, e, arena_create) refl
]

structs_destroyed :
    (arena : Option Arena) (m : Memory)
    → arena_destroy (create_structs arena m).arena ≡ arena_destroy arena
unfolding create_structs cpu_create ram_create disk_create device_create
structs_destroyed arena m =
    alloc_destroyed _ _ _
    ∙ alloc_destroyed _ _ _
    ∙ alloc_destroyed _ _ _
    ∙ alloc_destroyed arena _ m

structs-DiskKeeps :
    (s : System)
    → DiskKeeps s (arena_of s) (create_structs (arena_create s.mapping arena_bytes) s.memory)
structs-DiskKeeps s =
    let arena = arena_create s.mapping arena_bytes in
    rw (sym (arena_destroyed s), sym (structs_destroyed arena s.memory))
      (disk_read-SameEnd s.scan s.asserts _ _ _ s.partitions)

pub nothing-Leaves : Leaves [] []
nothing-Leaves = record { owns = tt; leaves = refl; few = omega arith }

accept-Keeps :
    (s : System) (kept : Mappings) (rest : Run Response)
    → Keeps kept rest
    → Keeps (if not s.cancelled && not (late s 0) then kept else []) (accept s rest)
accept-Keeps s kept rest h = elim (Bool-cases s.cancelled) [
  | inl c ↦ rw c nothing-Leaves
  | inr c ↦ rw c (elim (Bool-cases (late s 0)) [ inl l ↦ rw l nothing-Leaves | inr l ↦ rw l h ])
]

accept-nothing : (s : System) (rest : Run Response) → Keeps [] rest → Keeps [] (accept s rest)
accept-nothing s rest h = elim (Bool-cases s.cancelled) [
  | inl c ↦ rw c nothing-Leaves
  | inr c ↦ rw c (elim (Bool-cases (late s 0)) [ inl l ↦ rw l nothing-Leaves | inr l ↦ rw l h ])
]

-- The arena alone, and only where the call was in time first and late then.
pub get_system_resources-Keeps :
    (s : System)
    → Keeps
        (if not s.cancelled && not (late s 0)
          then (if any_late s then open_mapping (arena_of s) else [])
          else [])
        (get_system_resources_impl s)
unfolding get_system_resources_impl
get_system_resources-Keeps s =
    accept-Keeps s (if any_late s then open_mapping (arena_of s) else []) _
      (rw (arena_calls s) (gather-Keeps s (arena_of s) _ (structs-DiskKeeps s)))

-- The calls of a handler that maps its arena, lets `sys_ram_read` map and unmap, and unmaps it.
closed-Keeps :
    (s : System) (q : Option (ℕ × ℕ)) (size : ℕ)
    → let arena = arena_create s.mapping arena_bytes in
      Leaves
        (map_calls arena
          ++ ram_calls q
          ++ unmap_calls (arena_destroy (arena_alloc arena size s.memory).1))
        []
closed-Keeps s q size =
    rw
      (
        alloc_destroyed (arena_create s.mapping arena_bytes) size s.memory,
        arena_destroyed s,
        arena_calls s,
        ram_calls_eq q,
      )
      (closed-Leaves (arena_of s) q)

pub get_cpu-Keeps : (s : System) → Keeps [] (get_cpu_impl s)
unfolding get_cpu_impl answer_cpu cpu_create
get_cpu-Keeps s = accept-nothing s _ (
    bind-Returns _ (cpu_read s.asserts _ s.cpuinfo) _ (λ c _.
      bind-Returns _ (cpu_message c.1) _ (λ _ _.
        rw (append-nil (map_calls (arena_create s.mapping arena_bytes))) at
          (closed-Keeps s none cpu_size))))

pub get_ram-Keeps : (s : System) → Keeps [] (get_ram_impl s)
unfolding get_ram_impl answer_ram ram_create
get_ram-Keeps s = accept-nothing s _ (
    bind-Returns _ (sys_ram_read s.asserts _ s.meminfo s.mapping _) _
      (λ r _. bind-Returns _ (memory_message r.1) _ (λ _ _. closed-Keeps s r.2 memory_size)))

-- A call that is late as soon as the processor has been read.
pub late_lem :
    (s : System) (address : ℕ) {c : ℕ × Option Cpu}
    → s.mapping (arena_bytes + arena_header) ≡ some address
    → cpu_read s.asserts (some zero_cpu) s.cpuinfo ≡ done c
    → s.cancelled ≡ false
    → late s 0 ≡ false
    → late s 1 ≡ true
    → get_system_resources_impl s
      ≡ done (refused deadline_exceeded (mapped address (arena_bytes + arena_header) ∷ []))
unfolding get_system_resources_impl gather
late_lem s address maps e c l l' =
    rw (c, l, create_fresh s.mapping address maps, create_structs-fresh address s.memory, e, l')
      refl
