-- ===== src/Pkg/Laws.antt =====
-- What `find_lxd_pkgm` returns.
use agent_resources.Prelude.{ℕ, ◌+◌, ◌-◌, ◌≡◌, List, Bool, true, ◌&&◌, ◌||◌, leb, if◌then◌else◌}
use agent_resources.Memory.{Memory}
use agent_resources.Text.{is_space, before}
use agent_resources.Arena.{Arena}
use agent_resources.Arena.Alloc.{advanced}
use agent_resources.Resources.Device.{device_size}

abbrev pub is_upper : ℕ → Bool
is_upper c = leb b'A' c && leb c b'Z'

abbrev pub is_lower : ℕ → Bool
is_lower c = leb b'a' c && leb c b'z'

abbrev pub IsLetter : ℕ → Type 0
IsLetter c = (is_upper c || is_lower c) ≡ true

-- The lower case of ASCII: an upper case letter becomes the letter that stands 32 behind it.
abbrev pub to_lower : ℕ → ℕ
to_lower c = if is_upper c then c + (b'a' - b'A') else c

-- The text in front of its first space.
abbrev pub first_word : List ℕ → List ℕ
first_word name = before is_space name

-- The bytes of the struct and of the two arrays.
abbrev pub name_size : ℕ
name_size = device_size + 256 + 256

abbrev pub taken : Arena → Arena
taken a = advanced (advanced (advanced a device_size) 256) 256
