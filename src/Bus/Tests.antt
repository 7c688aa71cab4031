-- ===== src/Bus/Tests.antt =====
-- Runs of the functions on the buses.
use agent_resources.Prelude.{◌≡◌, refl, none, some, done, fault, ◌==◌, if◌then◌else◌, length}
use agent_resources.Bus.{
  AddObject, create_session_bus_connection, create_system_bus_connection, create_systemd_object,
  create_logind_object,
}

-- A failure is passed on as a pointer without a value.
session_runs : create_session_bus_connection none ≡ fault
unfolding create_session_bus_connection
session_runs = refl

system_runs : create_system_bus_connection (some 4096) ≡ done 4096
unfolding create_system_bus_connection
system_runs = refl

-- A bus that takes objects at paths of 23 bytes.
abbrev add_object : AddObject
add_object bus path interface vtable = if length path == 23 then some 8192 else none

logind_runs : create_logind_object add_object 4096 64 ≡ some 8192
unfolding create_logind_object
logind_runs = refl

systemd_runs : create_systemd_object add_object 4096 64 ≡ none
unfolding create_systemd_object
systemd_runs = refl
