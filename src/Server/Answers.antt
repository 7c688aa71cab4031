-- ===== src/Server/Answers.antt =====
-- The answers of the service, by what is known of a call before it is looked at.
use agent_resources.Prelude.{
  ◌≡◌, refl, sym, Run, done, Returns, Bool, true, false, ◌&&◌, ◌||◌, if◌then◌else◌,
}
use agent_resources.Handlers.{
  System, Status, ok, cancelled, deadline_exceeded, unimplemented, Response, late,
}
use agent_resources.Handlers.Respond.{any_late}
use agent_resources.Handlers.Answers.{
  is_some, is_ok, Answers, get_system_resources-Answers, get_cpu-Answers, get_ram-Answers,
}
use agent_resources.Server.{
  Method, get_system_resources, get_cpu, get_memory, get_device, get_disks, get_file_systems,
  get_processes, process_action, serve, IsGenerated,
}

-- The methods that a call can be answered for, and the messages that their answers have.
abbrev pub is_overridden : Method → Bool
is_overridden get_system_resources = true
is_overridden get_cpu = true
is_overridden get_memory = true
is_overridden _ = false

abbrev pub sends_cpu : Method → Bool
sends_cpu get_system_resources = true
sends_cpu get_cpu = true
sends_cpu _ = false

abbrev pub sends_memory : Method → Bool
sends_memory get_system_resources = true
sends_memory get_memory = true
sends_memory _ = false

-- Whether a reading of the clock lies behind the deadline.
abbrev pub is_late : Method → System → Bool
is_late get_system_resources s = late s 0 || any_late s
is_late _ s = late s 0

abbrev pub status_of : Method → System → Status
status_of m s =
    if is_overridden m
    then (if s.cancelled then cancelled else if is_late m s then deadline_exceeded else ok)
    else unimplemented

one_test :
    (a b : Bool)
    → (if a then deadline_exceeded else if b then deadline_exceeded else ok)
      ≡ (if a || b then deadline_exceeded else ok)
one_test true b = refl
one_test false b = refl

serve-Answers :
    (base : Method → System → Run Response)
    → IsGenerated base
    → (m : Method) (s : System)
    → Returns (Answers (sends_cpu m) (sends_memory m) (status_of m s)) (serve base m s)
unfolding serve
serve-Answers base g get_system_resources s =
    rw (sym (one_test (late s 0) (any_late s))) (get_system_resources-Answers s)
serve-Answers base g get_cpu s = get_cpu-Answers s
serve-Answers base g get_memory s = get_ram-Answers s
serve-Answers base g get_device s =
    rw (g.answers get_device s) (record { has_status = refl; has_cpu = refl; has_memory = refl })
serve-Answers base g get_disks s =
    rw (g.answers get_disks s) (record { has_status = refl; has_cpu = refl; has_memory = refl })
serve-Answers base g get_file_systems s =
    rw (g.answers get_file_systems s)
      (record { has_status = refl; has_cpu = refl; has_memory = refl })
serve-Answers base g get_processes s =
    rw (g.answers get_processes s) (record { has_status = refl; has_cpu = refl; has_memory = refl })
serve-Answers base g process_action s =
    rw (g.answers process_action s)
      (record { has_status = refl; has_cpu = refl; has_memory = refl })

-- For a class that is generated as gRPC documents it, and whatever the files hold and the kernel
-- gives: a call that returns has the status `UNIMPLEMENTED` for the five methods that are not
-- overridden; for the other three it has `CANCELLED` if it was cancelled, else `DEADLINE_EXCEEDED`
-- if its first reading of the clock, or for `GetSystemResources` any of its five, lies behind the
-- deadline, else `OK`. The processor is in the answer exactly if the status is `OK` and the method is
-- `GetSystemResources` or `GetCpu`, and the memory exactly if it is `OK` and the method is
-- `GetSystemResources` or `GetMemory`.
pub serve_lem :
    (base : Method → System → Run Response) (m : Method) (s : System) {p : Response}
    → IsGenerated base
    → serve base m s ≡ done p
    → (p.status ≡ status_of m s)
      × (is_some p.cpu ≡ (is_ok p.status && sends_cpu m))
      × (is_some p.memory ≡ (is_ok p.status && sends_memory m))
serve_lem base m s {p} g e =
    let a : Answers (sends_cpu m) (sends_memory m) (status_of m s) p =
      rw e at (serve-Answers base g m s) in
    (a.has_status, a.has_cpu, a.has_memory)
