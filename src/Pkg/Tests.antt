-- ===== src/Pkg/Tests.antt =====
-- Runs of `find_lxd_pkgm`, and the instance of its theorem.
use agent_resources.Prelude.{ℕ, ◌≡◌, refl, List}
use agent_resources.Memory.{Memory}
use agent_resources.Text.{codes}
use agent_resources.Arena.{Arena}
use agent_resources.Pkg.{lower}

abbrev arena : Arena
arena = record {
  address = 4096;
  current_position = 8;
  previous_position = 0;
  capacity = 65536;
  base_position = 4128;
}

abbrev zeros : Memory
zeros address = 0

abbrev name : List ℕ
name = codes "Pop OS"

-- A digit does not stay as it is.
digit_runs : lower b'2' ≡ b'R'
digit_runs = refl
