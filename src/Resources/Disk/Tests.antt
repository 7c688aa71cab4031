-- ===== src/Resources/Disk/Tests.antt =====
-- Runs of the disk's operations at fixed inputs, and the instances of their theorems.
use agent_resources.Prelude.{
  ℕ, ◌+◌, ◌^◌, ◌<◌, ◌≡◌, ◌⊎◌, refl, arith, Option, some, none, List, [], ◌∷◌, true, if◌then◌else◌,
  ◌==◌, Run, done, length, take,
}
use agent_resources.Memory.{Memory}
use agent_resources.Resources.{err_ok}
use agent_resources.Arena.{Arena}
use agent_resources.Arena.Valid
use agent_resources.Text.{codes}
use agent_resources.Resources.Disk.{Disk, Partition, Scanned, disk_read}
use agent_resources.Resources.Disk.Array.{IsValid, contents}
use agent_resources.Resources.Disk.Push.{NoRoom}
use agent_resources.Resources.Disk.Read.{parsed, disk_read_lem}

abbrev memory : Memory
memory a = 0

abbrev arena : Arena
arena = record {
  address = 4096;
  current_position = 0;
  previous_position = 0;
  capacity = 1024;
  base_position = 4128;
}

abbrev empty : Disk
empty = record { partitions = none; part_count = 0; part_capacity = 0 }

abbrev root : Partition
root = record { blocks = 500; major = 259; minor = 1; name = codes "nvme0n1p1" }

arena-IsValid : Valid.IsValid arena
arena-IsValid = omega arith

empty-IsValid : IsValid empty
empty-IsValid = record { count_in = omega arith; not_wasted = omega arith; array = refl }

-- Reads the name of a line that does not start as the head of the file does.
abbrev scan : List ℕ → Option Scanned
scan [] = none
scan (c ∷ s) =
    if c == b'm' then none else some (record { major = 8; minor = 1; blocks = 64; name = c ∷ s })

abbrev lines : List (List ℕ)
lines = codes "major minor  #blocks  name" ∷ [] ∷ codes "sda" ∷ codes "sda1" ∷ []

read_runs :
    (r : Run (ℕ × Option Disk × Option Arena × Memory)) × (disk_read scan true
        (some empty)
        (some arena)
        memory
        (some lines)
      ≡ r)
    × (parsed scan lines
        ≡ record { blocks = 64; major = 8; minor = 1; name = codes "sda" }
          ∷ record { blocks = 64; major = 8; minor = 1; name = codes "sda1" }
          ∷ [])
unfolding parsed
read_runs = (_, refl, refl)

disk_read_lem_example :
    (d' : Disk) × (a' : Option Arena) × (m' : Memory) × (k : ℕ) × (disk_read scan true
        (some empty)
        (some arena)
        memory
        (some lines)
      ≡ done (err_ok, some d', a', m'))
    × IsValid d'
    × (contents d' ≡ take k (parsed scan lines))
    × ((k ≡ length (parsed scan lines)) ⊎ NoRoom d' a' m')
disk_read_lem_example = disk_read_lem scan true lines empty (some arena) memory empty-IsValid few
  where
    few : 0 + length (parsed scan lines) < 2 ^ 54
    few = unfold parsed in (omega arith)
