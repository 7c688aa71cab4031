-- ===== src/Net/Tests.antt =====
-- Runs of the readers of the ports, and the instance of their theorem.
use agent_resources.Prelude.{ℕ, ◌≡◌, refl, arith, Option, some, List, [], ◌∷◌, done}
use agent_resources.Memory.{Memory}
use agent_resources.Text.{codes}
use agent_resources.Arena.Calls.{Call}
use agent_resources.Resources.Device.{zero_device}
use agent_resources.Net.{port_read_tcp4}
use agent_resources.Net.Laws.{with_live, outcome, port_read_lem}

abbrev mapping : ℕ → Option ℕ
mapping len = some 4096

abbrev zeros : Memory
zeros address = 0

-- Two newlines, and a line.
abbrev files : List ℕ → Option (List ℕ)
files path = some (0x0a ∷ 0x0a ∷ b'0' ∷ 0x0a ∷ [])

port_read_lem_example :
    (r : Option (ℕ × List Call)) × (port_read_tcp4 mapping files 5 (some zero_device) zeros
      ≡ done r)
    × (with_live r ≡ outcome (4096, 8224) (files (codes "/etc/tcp")))
port_read_lem_example =
    port_read_lem (codes "/etc/tcp") mapping 4096 files 5 zero_device zeros refl (omega arith)
