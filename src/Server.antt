-- ===== src/Server.antt =====
-- grpc/server/server.cc and core/core.cc: the service, and the server that offers it.
--
-- gRPC and what is generated from the protocol are parameters: `base` is the generated class
-- `ResourcesService::Service`, which answers a method that is not overridden.
pub mod Traffic
pub mod Laws
pub mod Serial
pub mod Bound
pub mod Answers
mod Tests
use agent_resources.Prelude.{ℕ, Option, none, some, List, [], ◌∷◌, Run, done, fault, ◌>>=◌, ◌≡◌}
use agent_resources.Text.{codes}
use agent_resources.Handlers.{
  System, Response, unimplemented, refused, get_system_resources_impl, get_cpu_impl, get_ram_impl,
}

-- The methods of the protocol's service.
pub data Method : Type 0 where
  get_system_resources get_cpu get_memory get_device get_disks get_file_systems get_processes
        process_action :
      Method

-- `ResourcesServiceImpl`, which overrides three methods.
module _ (base : Method → System → Run Response) where
  pub serve : Method → System → Run Response
  serve get_system_resources s = get_system_resources_impl s
  serve get_cpu s = get_cpu_impl s
  serve get_memory s = get_ram_impl s
  serve get_device s = base get_device s
  serve get_disks s = base get_disks s
  serve get_file_systems s = base get_file_systems s
  serve get_processes s = base get_processes s
  serve process_action s = base process_action s

-- What the generated class documents: each of its methods returns `UNIMPLEMENTED`.
pub record IsGenerated (base : Method → System → Run Response) : Type 0 where
  pub answers : (m : Method) (s : System) → base m s ≡ done (refused unimplemented [])

-- The calls of gRPC that set the server up. The port has no credentials.
pub data Setup : Type 0 where
  default_health_check proto_reflection register_service : Setup
  listening_port : List ℕ → Setup

abbrev pub server_setup : List Setup
server_setup =
    default_health_check
    ∷ proto_reflection
    ∷ listening_port (codes "0.0.0.0:5000")
    ∷ register_service
    ∷ []

-- What is done with the result of `BuildAndStart`: `Wait`, which for NULL is a fault. The result is
-- the set-up of the server that is waited for.
abbrev pub wait_for : List Setup → Option ℕ → Run (List Setup)
wait_for setup none = fault
wait_for setup (some server) = done setup

-- `build_and_start` is the server that gRPC starts with a set-up, or `none` for NULL.
pub grpc_server_setup : (List Setup → Option ℕ) → Run (List Setup)
grpc_server_setup build_and_start = wait_for server_setup (build_and_start server_setup)
