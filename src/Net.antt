-- ===== src/Net.antt =====
-- libnet/net.cc: the two readers of the ports. They read their file byte by byte and store nothing.
--
-- The loop has no bound of its own: `rounds` is the number of rounds that are looked at, and the
-- result is `none` while the loop still runs. The loop makes one round for each byte of the file
-- that it reads.
pub mod Laws
mod Tests
use agent_resources.Prelude.{
  ℕ, zero, suc, Option, none, some, List, [], ◌∷◌, ◌++◌, Run, done, fault, ◌>>=◌, if◌then◌else◌,
  ◌==◌, set, replicate, ℤ,
}
use agent_resources.Memory.{Memory}
use agent_resources.Parse.{compare_string}
use agent_resources.Text.{codes}
use agent_resources.Arena.{Arena, arena_create, arena_alloc, arena_destroy}
use agent_resources.Arena.Calls.{Call, map_calls, unmap_calls}
use agent_resources.Resources.{err_ok, err_io, err_invalid}
use agent_resources.Resources.Device.{Device}

-- The enum and the struct of libnet/net.h. An array of characters is the text that it holds.
pub data TransportLayerType : Type 0 where
  transport_tcp transport_udp transport_sctp : TransportLayerType

pub record Port : Type 0 where
  pub name : List ℕ
  pub port : ℤ
  pub type : TransportLayerType
  pub alias : List ℕ
  pub comment : List ℕ

-- `endofline`, with its NUL.
abbrev pub endofline : List ℕ
endofline = 0x0a ∷ 0 ∷ []

-- `read(file, buffer, 1)`: what is left of the file, and the buffer. At the end the buffer stays.
abbrev pub read_byte : List ℕ → List ℕ → List ℕ × List ℕ
read_byte [] buffer = ([], buffer)
read_byte (c ∷ file) buffer = (file, set buffer 0 c)

-- The loop; its result is what has not been read of the file.
pub read_loop : ℕ → List ℕ → List ℕ → Run (Option (List ℕ))
read_loop zero file buffer = done none
read_loop (suc rounds) file buffer =
    let next = read_byte file buffer in
    let rest = read_loop rounds next.0 next.1 in
    compare_string next.1 endofline >>= λ differs. if differs == 0 then rest else done (some next.0)

-- Behind the loop.
abbrev pub close_port : List Call → Option Arena → Option (List ℕ) → Option (ℕ × List Call)
close_port calls arena none = none
close_port calls arena (some file) = some (err_ok, calls ++ unmap_calls (arena_destroy arena))

-- With the buffer. `read` fails for a buffer that is NULL, and then the comparison reads it.
pub read_port :
    ℕ → List ℕ → List Call → Option ℕ × Option Arena × Memory → Run (Option (ℕ × List Call))
read_port rounds file calls (none, arena, m) = fault
read_port rounds file calls (some p, arena, m) =
    read_loop rounds file (replicate 128 0) >>= λ r. done (close_port calls arena r)

-- Behind `open`.
pub read_opened : ℕ → Option Arena → Memory → Option (List ℕ) → Run (Option (ℕ × List Call))
read_opened rounds arena m none = done (some (err_io, map_calls arena))
read_opened rounds arena m (some file) =
    read_port rounds file (map_calls arena) (arena_alloc arena 128 m)

-- `files path` is `none` if `open` fails. The result has the code and the calls that map and unmap.
pub port_read :
    List ℕ
    → (ℕ → Option ℕ)
    → (List ℕ → Option (List ℕ))
    → ℕ
    → Option Device
    → Memory
    → Run (Option (ℕ × List Call))
port_read path mapping files rounds none m = done (some (err_invalid, []))
port_read path mapping files rounds (some device) m =
    read_opened rounds (arena_create mapping 8192) m (files path)

abbrev pub port_read_tcp4 :
    (ℕ → Option ℕ)
    → (List ℕ → Option (List ℕ))
    → ℕ
    → Option Device
    → Memory
    → Run (Option (ℕ × List Call))
port_read_tcp4 = port_read (codes "/etc/tcp")

abbrev pub port_read_tcp6 :
    (ℕ → Option ℕ)
    → (List ℕ → Option (List ℕ))
    → ℕ
    → Option Device
    → Memory
    → Run (Option (ℕ × List Call))
port_read_tcp6 = port_read (codes "/etc/tcp6")
