-- ===== src/Server/Tests.antt =====
-- Runs of the server at fixed inputs, and the instances of its theorems.
use agent_resources.Prelude.{
  ℕ, ◌&&◌, ◌+◌, ◌*◌, ◌≤◌, length, ◌≡◌, refl, some, none, [], ◌∷◌, Mem, Perm, Pairwise, All, Run,
  done, fault, true, false,
}
use mathlib.Core.List.{not-mem-nil, mem-singleton}
use agent_resources.Arena.Calls.{mapped}
use agent_resources.Arena.Owned.{Owns}
use agent_resources.Resources.Cpu.{cpu_read, cpu_read_amd64, cpu_lines}
use agent_resources.Handlers.{System, Response, unimplemented, deadline_exceeded, refused, zero_cpu}
use agent_resources.Handlers.Kept.{late_lem}
use agent_resources.Server.{
  Method, get_system_resources, get_disks, serve, IsGenerated, server_setup, grpc_server_setup,
}
use agent_resources.Server.Traffic.{
  Thread, Traffic, IsApart, next_mapped, another, arrive, advance, Reach, start, later, holdings,
  all_kept,
}
use agent_resources.Server.Serial.{serial, serial_lem}
use agent_resources.Handlers.Answers.{is_some, is_ok}
use agent_resources.Server.Answers.{status_of, sends_cpu, sends_memory, serve_lem}
use agent_resources.Server.Bound.{calls_made, calls_left, steps_lem}
use agent_resources.Server.Laws.{reach_lem, ended_lem}

-- The server starts, or the port is taken.
setup_runs : grpc_server_setup (λ setup. some 4096) ≡ done server_setup
unfolding grpc_server_setup
setup_runs = refl

taken_runs : grpc_server_setup (λ setup. none) ≡ fault
unfolding grpc_server_setup
taken_runs = refl

abbrev generated : Method → System → Run Response
generated m s = done (refused unimplemented [])

generated-IsGenerated : IsGenerated generated
generated-IsGenerated = record { answers = λ m s. refl }

-- A call with a deadline of 40 at a time of 40, and one more at each reading.
abbrev system : ℕ → System
system address = record {
  asserts = true;
  cancelled = false;
  deadline = 40;
  now = λ k. 40 + k;
  mapping = λ len. some address;
  memory = λ a. 0;
  cpuinfo = some [];
  meminfo = none;
  partitions = none;
  scan = λ line. none;
  os_release = none;
  uptime = none;
}

cpu_reads : cpu_read true (some zero_cpu) (some []) ≡ done (0, some zero_cpu)
unfolding cpu_read cpu_read_amd64 cpu_lines
cpu_reads = refl

abbrev late_response : ℕ → Response
late_response address = refused deadline_exceeded (mapped address 8388640 ∷ [])

late_served :
    (address : ℕ)
    → serve generated get_system_resources (system address) ≡ done (late_response address)
unfolding serve
late_served address = late_lem (system address) address refl cpu_reads refl refl refl

disks_served : serve generated get_disks (system 0) ≡ done (refused unimplemented [])
unfolding serve
disks_served = refl

abbrev ended : ℕ → Thread
ended address = record {
  method = get_system_resources;
  system = system address;
  held = (address, 8388640) ∷ [];
  left = [];
}

abbrev disks_ended : Thread
disks_ended = record { method = get_disks; system = system 0; held = []; left = [] }

-- Two such calls and one of `GetDisks` arrive; the first call maps its arena last.
abbrev traffic : Traffic
traffic = record {
  live = (16777216, 8388640) ∷ (65536, 8388640) ∷ [];
  threads = disks_ended ∷ ended 65536 ∷ ended 16777216 ∷ [];
}

alone-IsApart : (r : ℕ × ℕ) → Mem r ((65536, 8388640) ∷ []) → IsApart (16777216, 8388640) r
alone-IsApart r h = rw ((mem-singleton {A = ℕ × ℕ} hlevel).0 h) refl

reached : Reach generated traffic
reached =
    later
      (later
        (later
          (later
            (later start (arrive get_system_resources (system 16777216) _ (late_served 16777216)))
            (arrive get_system_resources (system 65536) _ (late_served 65536)))
          (advance (next_mapped 65536 8388640 [] refl (λ r h. absurd (not-mem-nil h)))))
        (advance (another (next_mapped 16777216 8388640 [] refl alone-IsApart))))
      (arrive get_disks (system 0) _ disks_served)

reach_lem_example :
    Perm traffic.live (holdings traffic.threads)
    × Pairwise IsApart (holdings traffic.threads)
    × All (λ t. Owns t.held t.left) traffic.threads
reach_lem_example = reach_lem generated generated-IsGenerated reached

ended_lem_example : Perm traffic.live (all_kept traffic.threads)
ended_lem_example = ended_lem generated generated-IsGenerated reached (refl, (refl, (refl, tt)))

serial_lem_example : Perm traffic.live (serial generated traffic.threads)
serial_lem_example = serial_lem generated generated-IsGenerated reached (refl, (refl, (refl, tt)))

steps_lem_example : calls_made reached + calls_left traffic.threads ≤ 4 * length traffic.threads
steps_lem_example = steps_lem reached generated-IsGenerated

serve_lem_example :
    let p = late_response 65536 in
    (p.status ≡ status_of get_system_resources (system 65536))
    × (is_some p.cpu ≡ (is_ok p.status && sends_cpu get_system_resources))
    × (is_some p.memory ≡ (is_ok p.status && sends_memory get_system_resources))
serve_lem_example =
    serve_lem generated get_system_resources (system 65536) generated-IsGenerated
      (late_served 65536)
