-- ===== src/Arena/Refine.antt =====
-- The arena against a stack of blocks with their bytes: what its clients see.
pub mod Contents
pub mod Standing
pub mod Laws
pub mod Temporary
pub mod Tests
use agent_resources.Prelude.{
  ℕ, zero, suc, ◌+◌, ◌-◌, ◌^◌, ◌≤◌, ◌<◌, ◌≡◌, refl, ◌∙◌, arith, ap, Option, none, some, List, [],
  ◌∷◌, length, length-replicate, replicate, set, length-set, ltb, leb, if◌then◌else◌, Bool-cases,
  ◌⊎◌, inl, inr,
}
use agent_resources.Memory.{
  Memory, mem_set, store_byte, mem_set_inside, mem_set_outside, store_byte_self, store_byte_other,
}
use agent_resources.Arena.{Arena, alloc, arena_pop, arena_pop_to, arena_clear}

-- `allocate n` is `arena_alloc` of `n` bytes; `store k j v` writes the byte `j` of a block, if it has
-- one, `k` being how many blocks were given out behind it; `pop` is `arena_pop` of the last block's
-- size, and `release k` is `arena_pop_to` the place of a block.
pub data Op : Type 0 where
  allocate : ℕ → Op
  store : ℕ → ℕ → ℕ → Op
  pop clear : Op
  release : ℕ → Op

-- The arena, the blocks that have been given out and not taken back, the last one first, by their
-- pointers and sizes, and the memory.
pub record Client : Type 0 where
  pub arena : Arena
  pub blocks : List (ℕ × ℕ)
  pub memory : Memory

abbrev pub below {ℓ} : {A : Type ℓ} → List A → ℕ → Option (A × List A)
below [] k = none
below (x ∷ xs) zero = some (x, xs)
below (x ∷ xs) (suc k) = below xs k

pub store_at : List (ℕ × ℕ) → ℕ → ℕ → ℕ → Memory → Memory
store_at [] k j v m = m
store_at ((p, n) ∷ blocks) zero j v m = if ltb j n then store_byte (p + j) v m else m
store_at (_ ∷ blocks) (suc k) j v m = store_at blocks k j v m

abbrev allocated : ℕ → List (ℕ × ℕ) → Option ℕ × Arena × Memory → Client
allocated n blocks (none, a, m) = record { arena = a; blocks = blocks; memory = m }
allocated n blocks (some p, a, m) = record { arena = a; blocks = (p, n) ∷ blocks; memory = m }

abbrev pub popped : Client → Option ((ℕ × ℕ) × List (ℕ × ℕ)) → Client
popped t none = t
popped t (some ((p, n), blocks)) = record t { arena = arena_pop t.arena n; blocks = blocks }

abbrev pub released : Client → Option ((ℕ × ℕ) × List (ℕ × ℕ)) → Client
released t none = t
released t (some ((p, n), blocks)) = record t {
  arena = arena_pop_to t.arena (p - t.arena.base_position);
  blocks = blocks;
}

pub step : Op → Client → Client
step (allocate n) t = allocated n t.blocks (alloc t.arena n t.memory)
step (store k j v) t = record t { memory = store_at t.blocks k j v t.memory }
step pop t = popped t (below t.blocks 0)
step (release k) t = released t (below t.blocks k)
step clear t = record t { arena = arena_clear t.arena; blocks = [] }

pub run : List Op → Client → Client
run [] t = t
run (op ∷ ops) t = run ops (step op t)

-- The abstract arena is the list of its blocks, the last one first, each the list of its bytes.
abbrev pub Blocks : Type 0
Blocks = List (List ℕ)

abbrev pub used_bytes : Blocks → ℕ
used_bytes [] = 0
used_bytes (b ∷ bs) = used_bytes bs + length b

abbrev pub store_block : Blocks → ℕ → ℕ → ℕ → Blocks
store_block [] k j v = []
store_block (b ∷ bs) zero j v = set b j v ∷ bs
store_block (b ∷ bs) (suc k) j v = b ∷ store_block bs k j v

abbrev pub kept_blocks : Blocks → Option (List ℕ × Blocks) → Blocks
kept_blocks bs none = bs
kept_blocks bs (some (b, rest)) = rest

abbrev pub release_block : Blocks → ℕ → Blocks
release_block bs k = kept_blocks bs (below bs k)

abbrev pub abstract_step : ℕ → Op → Blocks → Blocks
abstract_step capacity (allocate n) bs =
    if leb (used_bytes bs + n) capacity then replicate n 0 ∷ bs else bs
abstract_step capacity (store k j v) bs = store_block bs k j v
abstract_step capacity pop bs = release_block bs 0
abstract_step capacity (release k) bs = release_block bs k
abstract_step capacity clear bs = []

abbrev pub abstract_run : ℕ → List Op → Blocks → Blocks
abstract_run capacity [] bs = bs
abstract_run capacity (op ∷ ops) bs = abstract_run capacity ops (abstract_step capacity op bs)
