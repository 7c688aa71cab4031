-- ===== src/Arena/Blocks.antt =====
-- Blocks given out one after the other.
use agent_resources.Prelude.{
  ℕ, ◌+◌, ◌^◌, ◌≤◌, ◌<◌, ◌⊎◌, inl, Option, none, some, arith, List, [], ◌∷◌, All,
}
use agent_resources.Memory.{Memory}
use agent_resources.Arena.{Arena, alloc}
use agent_resources.Arena.Valid.{IsValid, alloc-IsValid}
use agent_resources.Arena.Alloc.{alloc-fits, alloc-full, advanced, top}
use native.Mathlib.Decide.{dec_le}

-- A block that was given out: its first address and its size.
pub record Block : Type 0 where
  pub start : ℕ
  pub size : ℕ

abbrev cons_block : Option ℕ → ℕ → List Block → List Block
cons_block none size bs = bs
cons_block (some p) size bs = record { start = p; size = size } ∷ bs

-- The blocks that a run of `arena_alloc` calls gives out; a refused call gives none.
pub alloc_all : Arena → List ℕ → Memory → List Block
alloc_all a [] m = []
alloc_all a (size ∷ sizes) m =
    let (out, a', m') = alloc a size m in cons_block out size (alloc_all a' sizes m')

-- The blocks follow one another without overlap, within the addresses from `lo` to `hi`.
abbrev pub LaidOut : ℕ → ℕ → List Block → Type 0
LaidOut lo hi [] = Unit {0}
LaidOut lo hi (b ∷ bs) = (lo ≤ b.start) × (b.start + b.size ≤ hi) × LaidOut (b.start + b.size) hi bs

abbrev pub Apart : Block → Block → Type 0
Apart b c = (b.start + b.size ≤ c.start) ⊎ (c.start + c.size ≤ b.start)

abbrev pub AllApart : List Block → Type 0
AllApart [] = Unit {0}
AllApart (b ∷ bs) = All (Apart b) bs × AllApart bs

LaidOut-weaken : (lo lo' hi : ℕ) (bs : List Block) → lo' ≤ lo → LaidOut lo hi bs → LaidOut lo' hi bs
LaidOut-weaken lo lo' hi [] h l = tt
LaidOut-weaken lo lo' hi (b ∷ bs) h l = (omega arith, l.1, l.2)

pub alloc_all-LaidOut :
    (sizes : List ℕ) {a : Arena} (m : Memory)
    → IsValid a
    → a.capacity < 2 ^ 63
    → All (λ s. s < 2 ^ 63) sizes
    → LaidOut (top a) (a.base_position + a.capacity) (alloc_all a sizes m)
unfolding alloc_all
alloc_all-LaidOut [] m v c h = tt
alloc_all-LaidOut (s ∷ sizes) {a} m v c h = elim (dec_le (a.current_position + s) a.capacity) [
  | yes fits ↦ rw (alloc-fits s m v fits) (
    omega arith,
    omega arith,
    LaidOut-weaken (top (advanced a s)) (top a + s) _ _ (omega arith)
        (alloc_all-LaidOut sizes _ (rw (alloc-fits s m v fits) at (alloc-IsValid s m v)) c h.1),
  )
  | no full ↦ rw (alloc-full s m v (omega arith) (omega arith)) (alloc_all-LaidOut sizes m v c h.1)
]

pub LaidOut-within :
    (lo hi : ℕ) (bs : List Block)
    → LaidOut lo hi bs
    → All (λ b. (lo ≤ b.start) × (b.start + b.size ≤ hi)) bs
LaidOut-within lo hi [] l = tt
LaidOut-within lo hi (b ∷ bs) l =
    ((l.0, l.1), LaidOut-within lo hi bs (LaidOut-weaken _ lo hi bs (omega arith) l.2))

LaidOut-behind :
    (b : Block) (lo hi : ℕ) (bs : List Block)
    → b.start + b.size ≤ lo
    → LaidOut lo hi bs
    → All (Apart b) bs
LaidOut-behind b lo hi [] h l = tt
LaidOut-behind b lo hi (c ∷ bs) h l =
    (inl (omega arith), LaidOut-behind b (c.start + c.size) hi bs (omega arith) l.2)

pub LaidOut-AllApart : (lo hi : ℕ) (bs : List Block) → LaidOut lo hi bs → AllApart bs
LaidOut-AllApart lo hi [] l = tt
LaidOut-AllApart lo hi (b ∷ bs) l =
    (LaidOut-behind b _ hi bs (omega arith) l.2, LaidOut-AllApart (b.start + b.size) hi bs l.2)

-- In a valid arena of less than 2 ^ 63 bytes, whatever sizes below 2 ^ 63 are asked for, the blocks
-- that `arena_alloc` gives out lie within the storage, and no two of them overlap.
pub alloc_all-AllApart :
    (sizes : List ℕ) {a : Arena} (m : Memory)
    → IsValid a
    → a.capacity < 2 ^ 63
    → All (λ s. s < 2 ^ 63) sizes
    → AllApart (alloc_all a sizes m)
      × All
          (λ b. (a.base_position ≤ b.start) × (b.start + b.size ≤ a.base_position + a.capacity))
          (alloc_all a sizes m)
alloc_all-AllApart sizes {a} m v c h =
    let l = alloc_all-LaidOut sizes m v c h in
    let hi = a.base_position + a.capacity in
    (
      LaidOut-AllApart (top a) hi _ l,
      LaidOut-within a.base_position hi _
          (LaidOut-weaken (top a) a.base_position hi _ (omega arith) l),
    )
