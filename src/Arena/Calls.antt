-- ===== src/Arena/Calls.antt =====
-- The calls of `mmap` and `munmap` that a run makes, and what they leave mapped.
use agent_resources.Prelude.{
  ℕ, ◌≡◌, refl, List, [], ◌∷◌, ◌==◌, ◌&&◌, if◌then◌else◌, ==_iff, Option, some, none, add64,
}
use agent_resources.Arena.{Arena, arena_header}

-- With the address and the length.
pub data Call : Type 0 where
  mapped unmapped : ℕ → ℕ → Call

-- Those of `arena_create` and of `arena_destroy`.
abbrev pub map_calls : Option Arena → List Call
map_calls none = []
map_calls (some a) = mapped a.address (add64 a.capacity arena_header) ∷ []

abbrev pub unmap_calls : Option (ℕ × ℕ) → List Call
unmap_calls none = []
unmap_calls (some (address, len)) = unmapped address len ∷ []

-- A mapping is its address and its length.
abbrev pub Mappings : Type 0
Mappings = List (ℕ × ℕ)

-- Without the mapping that `munmap` names.
abbrev pub release : ℕ → ℕ → Mappings → Mappings
release a len [] = []
release a len ((b, k) ∷ rest) = if a == b && len == k then rest else (b, k) ∷ release a len rest

-- `held` is what is mapped before the calls.
abbrev pub live_from : Mappings → List Call → Mappings
live_from held [] = held
live_from held (mapped a len ∷ calls) = live_from ((a, len) ∷ held) calls
live_from held (unmapped a len ∷ calls) = live_from (release a len held) calls

abbrev pub live : List Call → Mappings
live calls = live_from [] calls

pub release_last : (a len : ℕ) (held : Mappings) → release a len ((a, len) ∷ held) ≡ held
release_last a len held = rw ((==_iff a a).1 refl, (==_iff len len).1 refl) refl
