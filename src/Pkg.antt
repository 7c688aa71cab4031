-- ===== src/Pkg.antt =====
-- libpkg/pkg.c: the name of the distribution, from which the package manager is to be found.
--
-- The type `device`, which the file names and the library does not define, is read as `sys_device`.
pub mod Laws
pub mod Dnf
pub mod Distro
mod Tests
use agent_resources.Prelude.{
  ℕ, ◌+◌, Option, none, some, List, [], ◌∷◌, Run, done, fault, ◌>>=◌, Bool, if◌then◌else◌, ltb, leb,
  ◌||◌, ◌==◌, u8, replicate, ℤ,
}
use agent_resources.Memory.{Memory}
use agent_resources.Text.{is_space}
use agent_resources.Arena.{Arena, arena_alloc}
use agent_resources.Resources.{File, placed}
use agent_resources.Resources.Device.{Device, zero_device, device_create, device_read}

-- `c < 'a'`, and then `c += 'a' - 'A'`. A `char` is signed: a byte of 128 or more is negative.
abbrev pub lower : ℕ → ℕ
lower c = if ltb c b'a' || leb 128 c then u8 (c + 32) else c

-- `buffer[word_idx] = distro_unparsed[word_idx]` behind the change; for a space the byte of the
-- buffer stays.
abbrev pub put_letter : ℕ → ℕ → ℕ
put_letter c old = if is_space c then old else lower c

-- The loop on what is left of `distro_unparsed` and of `buffer`, and the NUL behind it.
pub lower_loop : List ℕ → List ℕ → Run (List ℕ)
lower_loop [] buffer = fault
lower_loop (c ∷ distro) [] = fault
lower_loop (c ∷ distro) (b ∷ buffer) =
    if c == 0
    then done (0 ∷ buffer)
    else lower_loop distro buffer >>= λ out. done (put_letter c b ∷ out)

-- The two arrays of 256 bytes. `memcpy` to NULL, and a write to a buffer that is NULL, are faults.
pub lower_into : List ℕ → Option ℕ × Option Arena × Memory → Run (List ℕ × Option Arena × Memory)
lower_into distro_unparsed (none, arena, m) = fault
lower_into distro_unparsed (some buffer, arena, m) =
    lower_loop distro_unparsed (replicate 256 0) >>= λ out. done (out, arena, m)

pub lower_copy : List ℕ → Option ℕ × Option Arena × Memory → Run (List ℕ × Option Arena × Memory)
lower_copy os_version (none, arena, m) = fault
lower_copy os_version (some distro_unparsed, arena, m) =
    lower_into os_version (arena_alloc arena 256 m)

pub find_name : Option Device → Option Arena × Memory → Run (List ℕ × Option Arena × Memory)
find_name none rest = fault
find_name (some dev) (arena, m) = lower_copy dev.os_version (arena_alloc arena 256 m)

-- The buffer that is returned, with the arena and the memory behind it.
pub find_lxd_pkgm :
    Bool → File → Option (Option ℤ) → Option Arena → Memory → Run (List ℕ × Option Arena × Memory)
find_lxd_pkgm asserts os_release uptime arena m =
    let dev = device_create arena m in
    device_read asserts (placed dev.0 zero_device) os_release uptime >>= λ r.
    find_name r.1 (dev.1, dev.2)
