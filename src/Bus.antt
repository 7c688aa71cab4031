-- ===== src/Bus.antt =====
-- dbus/dbushandler.cc and dbus/dbushandler.h: connections to the buses of D-Bus, and objects on them.
--
-- A pointer is a number, and NULL is `none`. What libsystemd gives is an argument: the bus that
-- `sd_bus_default_user` or `sd_bus_default_system` stores, and the slot that
-- `sd_bus_add_object_vtable` stores, `none` where the call fails and stores nothing. Nothing uses
-- the structs.
mod Tests
use agent_resources.Prelude.{ℕ, Option, none, some, List, Run, done, fault}
use agent_resources.Text.{codes}

pub record BusConnection : Type 0 where
  pub conn : Option ℕ

pub record Process : Type 0 where
  pub name : Option ℕ
  pub id : ℕ

pub record Service : Type 0 where
  pub name : Option ℕ
  pub id : ℕ
  pub owner : Option ℕ

pub record System : Type 0 where
  pub os : Option ℕ
  pub processes : Option ℕ
  pub process_count : ℕ
  pub services : Option ℕ
  pub service_count : ℕ

-- The struct `Unit`.
pub record BusUnit : Type 0 where
  pub name : Option ℕ
  pub state : Option ℕ

pub record LoadedUnit : Type 0 where
  pub name : Option ℕ
  pub description : Option ℕ
  pub load_state : Option ℕ
  pub sub_state : Option ℕ
  pub active_state : Option ℕ
  pub dep_unit : Option ℕ
  pub object_path : Option ℕ
  pub queued_job : ℕ
  pub job_type : Option ℕ
  pub job_path : Option ℕ

pub record UnitFileChange : Type 0 where
  pub type_of_change : Option ℕ
  pub file_name_symlink : Option ℕ
  pub destination_symlink : Option ℕ

-- `return bus`: where nothing was stored, the variable has no value.
abbrev pub stored : Option ℕ → Run ℕ
stored none = fault
stored (some bus) = done bus

pub create_session_bus_connection : Option ℕ → Run ℕ
create_session_bus_connection default_user = stored default_user

pub create_system_bus_connection : Option ℕ → Run ℕ
create_system_bus_connection default_system = stored default_system

-- `sd_bus_add_object_vtable` of a bus, a path, an interface and a vtable.
abbrev pub AddObject : Type 0
AddObject = ℕ → List ℕ → List ℕ → ℕ → Option ℕ

pub create_systemd_object : AddObject → ℕ → ℕ → Option ℕ
create_systemd_object add_object_vtable bus vtable =
    add_object_vtable bus (codes "/org/freedesktop/systemd1")
      (codes "org.freedesktop.systemd1.Manager") vtable

pub create_logind_object : AddObject → ℕ → ℕ → Option ℕ
create_logind_object add_object_vtable bus vtable =
    add_object_vtable bus (codes "/org/freedesktop/login1") (codes "org.freedesktop.login1") vtable
