-- ===== src/Resources/Ram/Tests.antt =====
-- The instance of the theorem on `sys_ram_read`.
use agent_resources.Prelude.{true, ℕ, ◌≡◌, ◌≤◌, refl, arith, Option, some, List, [], ◌∷◌, done}
use agent_resources.Memory.{Memory}
use agent_resources.Parse.{parse_u64, parse_loop}
use agent_resources.Text.{codes, starts_with, after, before, skip}
use agent_resources.Resources.{err_ok}
use agent_resources.Resources.Ram.{SysMemory, sys_ram_read, read_buffer}
use agent_resources.Resources.Ram.Reference.{text_bytes, ram_of, sys_ram_read_reference}

abbrev memory : Memory
memory a = 0

abbrev zero : SysMemory
zero = record { total = 0; free = 0 }

abbrev mapping : ℕ → Option ℕ
mapping len = some 4096

-- A line of another name, one without a colon, and two for the total, of which the last one counts.
abbrev file : List (List ℕ)
file =
    codes "Cached: 7 kB"
    ∷ codes "MemTotal"
    ∷ codes "MemTotal: 99 kB"
    ∷ codes "MemFree:5"
    ∷ codes "MemTotal:   16303112 kB"
    ∷ []

file_numbers :
    ram_of 4096 file
    ≡ done (err_ok, some (record { total = 16303112; free = 5 }), some (4096, 8224))
unfolding starts_with after before skip read_buffer parse_u64 parse_loop
file_numbers = refl

file-fits : text_bytes file ≤ 8192
unfolding starts_with after before skip
file-fits = omega arith

sys_ram_read_reference_example :
    sys_ram_read true (some zero) (some file) mapping memory ≡ ram_of 4096 file
sys_ram_read_reference_example =
    sys_ram_read_reference true mapping 4096 memory zero file refl file-fits
