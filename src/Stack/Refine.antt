-- ===== src/Stack/Refine.antt =====
-- The stack allocator against a stack of blocks: sequences of pushes and pops.
use agent_resources.Prelude.{
  ℕ, ◌+◌, ◌-◌, ◌^◌, ◌≤◌, ◌<◌, ◌≡◌, inl, none, some, arith, refl, Run, done, Option, List, [], ◌∷◌,
  All, ◌>>=◌, ◌∙◌, if◌then◌else◌, leb, true, false,
}
use native.Mathlib.Decide.{dec_le}
use agent_resources.Memory.{Memory}
use agent_resources.Stack.{Stack, stack_push, stack_pop, header_size}
use agent_resources.Stack.Push.{
  IsValid, free_from, grown, block_memory, block_memory-header, block_memory_outside,
}
use agent_resources.Stack.Pop.{push-fits, push-full, pop_block}

-- `pop` takes back the block that was given last.
pub data Op : Type 0 where
  push : ℕ → Op
  pop : Op

-- The stack, the pointers that have been given and not taken back, the last one first, and the memory.
pub record Client : Type 0 where
  pub stack : Stack
  pub pointers : List ℕ
  pub memory : Memory

pub add_pointer : List ℕ → Option ℕ × Stack × Memory → Client
add_pointer ps (none, s, m) = record { stack = s; pointers = ps; memory = m }
add_pointer ps (some p, s, m) = record { stack = s; pointers = p ∷ ps; memory = m }

pub pop_pointer : Stack → List ℕ → Memory → Client
pop_pointer s [] m = record { stack = s; pointers = []; memory = m }
pop_pointer s (p ∷ ps) m = record { stack = stack_pop s (some p) m; pointers = ps; memory = m }

pub step : Op → Client → Run Client
step (push size) t = stack_push t.stack size t.memory >>= λ out. done (add_pointer t.pointers out)
step pop t = done (pop_pointer t.stack t.pointers t.memory)

pub run : List Op → Client → Run Client
run [] t = done t
run (op ∷ ops) t = step op t >>= run ops

-- The bytes that blocks of these sizes take, with a header's 16 bytes for each.
abbrev pub used_bytes : List ℕ → ℕ
used_bytes [] = 0
used_bytes (n ∷ blocks) = used_bytes blocks + 16 + n

-- The abstract stack is the list of the sizes of its blocks. It refuses a block that does not fit.
abbrev pub abstract_step : ℕ → Op → List ℕ → List ℕ
abstract_step capacity (push n) blocks =
    if leb (used_bytes blocks + 16 + n) capacity then n ∷ blocks else blocks
abstract_step capacity pop [] = []
abstract_step capacity pop (n ∷ blocks) = blocks

abbrev pub abstract_run : ℕ → List Op → List ℕ → List ℕ
abstract_run capacity [] blocks = blocks
abstract_run capacity (op ∷ ops) blocks =
    abstract_run capacity ops (abstract_step capacity op blocks)

-- Where the blocks lie.
abbrev pub places : ℕ → List ℕ → List ℕ
places base [] = []
places base (n ∷ blocks) = (base + used_bytes blocks + 16) ∷ places base blocks

abbrev pub HasHeaders : ℕ → Memory → List ℕ → Type 0
HasHeaders base m [] = Unit
HasHeaders base m (n ∷ blocks) =
    (m (base + used_bytes blocks + 16 - header_size) ≡ 16) × HasHeaders base m blocks

-- The state stands for the blocks.
pub record StandsFor (t : Client) (blocks : List ℕ) : Type 0 where
  pub valid : IsValid t.stack
  pub offset : t.stack.current_offset ≡ used_bytes blocks
  pub pointers_at : t.pointers ≡ places t.stack.base_position blocks
  pub headers : HasHeaders t.stack.base_position t.memory blocks
  pub sizes : All (λ n. 0 < n) blocks

abbrev pub IsSmall : Op → Type 0
IsSmall (push n) = (0 < n) × (n < 2 ^ 62)
IsSmall pop = Unit

headers_kept :
    (base : ℕ) (m m' : Memory) (blocks : List ℕ)
    → ((x : ℕ) → x < base + used_bytes blocks → m' x ≡ m x)
    → HasHeaders base m blocks
    → HasHeaders base m' blocks
headers_kept base m m' [] kept h = tt
headers_kept base m m' (n ∷ blocks) kept h = (
  kept (base + used_bytes blocks + 16 - header_size) (omega arith) ∙ h.0,
  headers_kept base m m' blocks (λ x lt. kept x (omega arith)) h.1,
)

-- What a step does to the storage itself.
pub record SamePlace (t t' : Client) : Type 0 where
  pub same_base : t'.stack.base_position ≡ t.stack.base_position
  pub same_capacity : t'.stack.capacity ≡ t.stack.capacity

push_fits :
    (t : Client) (n : ℕ) (blocks : List ℕ)
    → StandsFor t blocks
    → 0 < n
    → t.stack.current_offset + 16 + n ≤ t.stack.capacity
    → (t' : Client) × (step (push n) t ≡ done t') × StandsFor t' (n ∷ blocks) × SamePlace t t'
unfolding step add_pointer
push_fits t n blocks r pos fits =
    let m' = block_memory t.stack 16 n t.memory in
    (
      record {
        stack = grown t.stack 16 n;
        pointers = (free_from t.stack + 16) ∷ t.pointers;
        memory = m';
      },
      rw (push-fits t.stack n t.memory r.valid fits) refl,
      record {
        valid = record {
          offset_in = fits;
          no_wrap = r.valid.no_wrap;
          low = r.valid.low;
          behind = r.valid.behind;
        };
        offset = rw r.offset refl;
        pointers_at = rw (r.offset, r.pointers_at) refl;
        headers = (
          rw (← r.offset) (block_memory-header t.stack n 16 t.memory (omega arith) (omega arith)),
          headers_kept t.stack.base_position t.memory m' blocks
              (λ x lt.
                block_memory_outside t.stack n 16 t.memory x (omega arith)
                  (inl (omega (arith, r.offset))))
              r.headers,
        );
        sizes = (pos, r.sizes);
      },
      record { same_base = refl; same_capacity = refl },
    )

push_full :
    (t : Client) (n : ℕ) (blocks : List ℕ)
    → StandsFor t blocks
    → n < 2 ^ 62
    → t.stack.capacity < t.stack.current_offset + 16 + n
    → step (push n) t ≡ done t
unfolding step add_pointer
push_full t n blocks r small full =
    rw
      (push-full t.stack n t.memory full
        (omega (arith, r.valid.offset_in, r.valid.low, r.valid.no_wrap)))
      refl

pop_some :
    (t : Client) (n : ℕ) (blocks : List ℕ)
    → StandsFor t (n ∷ blocks)
    → (t' : Client) × (step pop t ≡ done t') × StandsFor t' blocks × SamePlace t t'
unfolding step pop_pointer
pop_some t n blocks r =
    let s = record t.stack { current_offset = used_bytes blocks } in
    let p = t.stack.base_position + used_bytes blocks + 16 in
    (
      record { stack = s; pointers = places t.stack.base_position blocks; memory = t.memory },
      rw
          (
            r.pointers_at,
            pop_pointer,
            pop_block s t.stack p 16 t.memory r.valid refl refl
                (omega (arith, r.offset, r.sizes.0, r.valid.offset_in)) r.headers.0,
          )
          refl,
      record {
        valid = record {
          offset_in = omega (arith, r.offset, r.valid.offset_in);
          no_wrap = r.valid.no_wrap;
          low = r.valid.low;
          behind = r.valid.behind;
        };
        offset = refl;
        pointers_at = refl;
        headers = r.headers.1;
        sizes = r.sizes.1;
      },
      record { same_base = refl; same_capacity = refl },
    )

pop_none : (t : Client) → StandsFor t [] → step pop t ≡ done t
unfolding step pop_pointer
pop_none t r = rw (r.pointers_at, pop_pointer) refl

same_here : (t : Client) → SamePlace t t
same_here t = record { same_base = refl; same_capacity = refl }

step_refines :
    (op : Op) (t : Client) (blocks : List ℕ)
    → StandsFor t blocks
    → IsSmall op
    → (t' : Client) × (step op t ≡ done t')
      × StandsFor t' (abstract_step t.stack.capacity op blocks)
      × SamePlace t t'
step_refines (push n) t blocks r small =
    elim (dec_le (t.stack.current_offset + 16 + n) t.stack.capacity) [
      | yes fits ↦
          let room : leb (used_bytes blocks + 16 + n) t.stack.capacity ≡ true =
            rw (← r.offset) (ground arith) in
          rw room (push_fits t n blocks r small.0 fits)
      | no full ↦
          let room : leb (used_bytes blocks + 16 + n) t.stack.capacity ≡ false =
            rw (← r.offset) (ground arith) in
          (t, push_full t n blocks r small.1 (omega arith), rw room r, same_here t)
    ]
step_refines pop t [] r small = (t, pop_none t r, r, same_here t)
step_refines pop t (n ∷ blocks) r small = pop_some t n blocks r

-- From a client that stands for a list of blocks, whatever pushes of more than 0 and fewer than 2 ^
-- 62 bytes and pops are made in whatever order: the run has no fault, and its end stands for the
-- blocks that the same operations make of the list: a push that fits puts its size in front, one
-- that does not changes nothing, and a pop drops the size in front. So the offset is the sum of the
-- sizes and headers, and the pointers are where the blocks lie. The storage stays where it is.
pub run_refines :
    (ops : List Op) (t : Client) (blocks : List ℕ)
    → StandsFor t blocks
    → All IsSmall ops
    → (t' : Client) × (run ops t ≡ done t')
      × StandsFor t' (abstract_run t.stack.capacity ops blocks)
      × SamePlace t t'
unfolding run
run_refines [] t blocks r small = (t, refl, r, same_here t)
run_refines (op ∷ ops) t blocks r small =
    let (t1, e1, r1, s1) = step_refines op t blocks r small.0 in
    let (t2, e2, r2, s2) =
      run_refines ops t1 (abstract_step t.stack.capacity op blocks) r1 small.1 in
    (
      t2,
      rw e1 e2,
      rw s1.same_capacity at r2,
      record {
        same_base = s2.same_base ∙ s1.same_base;
        same_capacity = s2.same_capacity ∙ s1.same_capacity;
      },
    )
