-- ===== src/Resources/Device.antt =====
-- The machine's system: `device_create` and `device_read` of libres/resources.cc.
pub mod Laws
mod Tests
use agent_resources.Prelude.{
  replicate, ℕ, Option, none, some, List, [], ◌∷◌, ◌++◌, Run, done, ◌>>=◌, Bool, false,
  if◌then◌else◌, ◌==◌, ltb, length, assert_then, ℤ,
}
use agent_resources.Memory.{Memory}
use agent_resources.Arena.{Arena, arena_alloc}
use agent_resources.Text.{codes, after, before, starts_with, overlay}
use agent_resources.Resources.{File, err_ok, err_io, err_invalid}
use agent_resources.Resources.Fs.{device_up_time}
use agent_resources.Resources.Processes.{ProcList}

-- `os_version` is an array of 256 bytes; `uptime` is the text that its array holds; `port` is a
-- pointer.
pub record Device : Type 0 where
  pub os_version : List ℕ
  pub uptime : List ℕ
  pub processes : ProcList
  pub port : Option ℕ

abbrev pub zero_device : Device
zero_device = record {
  os_version = replicate 256 0;
  uptime = [];
  processes = record { items = none; count = 0; capacity = 0 };
  port = none;
}

-- `sizeof(sys_device)`
abbrev pub device_size : ℕ
device_size = 544

unfoldable pub device_create : Option Arena → Memory → Option ℕ × Option Arena × Memory
device_create arena m = arena_alloc arena device_size m

abbrev pub is_quote : ℕ → Bool
is_quote c = c == 0x22

-- What is done with the text `start` behind the first quotation mark, if there is one.
pub copy_quoted : Option (List ℕ) → List ℕ → List ℕ
copy_quoted none array = array
copy_quoted (some start) array = elim (after 0x22 start) [
  | none ↦ array
  | some end ↦
      let text = before is_quote start in
      if ltb (length text) 256 then overlay (text ++ 0 ∷ []) array else array
]

pub os_line : List ℕ → List ℕ → List ℕ
os_line line array =
    if starts_with (codes "NAME=") line then copy_quoted (after 0x22 line) array else array

pub os_lines : List (List ℕ) → List ℕ → List ℕ
os_lines [] array = array
os_lines (line ∷ lines) array = os_lines lines (os_line line array)

-- The result of `device_up_time` is not looked at.
pub device_read : Bool → Option Device → File → Option (Option ℤ) → Run (ℕ × Option Device)
device_read asserts none file uptime = assert_then asserts false (done (err_invalid, none))
device_read asserts (some out) none uptime = done (err_io, some out)
device_read asserts (some out) (some lines) uptime =
    device_up_time asserts (some out.uptime) uptime >>= λ r. done (
      err_ok,
      some (record out {
        os_version = os_lines lines out.os_version;
        uptime = elim r.1 [ none ↦ out.uptime | some text ↦ text ];
      }),
    )
