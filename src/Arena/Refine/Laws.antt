-- ===== src/Arena/Refine/Laws.antt =====
-- That the arena does what the stack of blocks does.
use agent_resources.Prelude.{
  ℕ, ◌+◌, ◌-◌, ◌^◌, ◌≤◌, ◌<◌, ◌≡◌, refl, sym, ap, ◌∙◌, arith, Option, List, [], ◌∷◌, All, length,
  length-replicate, replicate, leb, true, false, min, inl, inr,
}
use native.Mathlib.Decide.{dec_le}
use agent_resources.Memory.{mem_set, mem_set_outside}
use agent_resources.Arena.{arena_clear}
use agent_resources.Arena.Valid.{IsValid, same_refl, pop_lem}
use agent_resources.Arena.Alloc.{top, alloc-fits, alloc-full, advanced-IsValid}
use agent_resources.Arena.Refine.{
  Op, allocate, store, pop, release, clear, Client, below, step, run, Blocks, used_bytes,
  store_block, kept_blocks, release_block, popped, released, abstract_step, abstract_run,
}
use agent_resources.Arena.Refine.Contents.{
  bytes_at-mem_set, store_at-outside, HasBytes-same, HasBytes-store_at, used_bytes-store_block,
  places-store_block,
}
use agent_resources.Arena.Refine.Standing.{
  StandsFor, StaysInside, stays_here, stays_trans, below_cases, cut_refines,
}

abbrev pub IsSmall : Op → Type 0
IsSmall (allocate n) = n < 2 ^ 63
IsSmall _ = Unit

allocate_fits :
    (t : Client) (bs : Blocks) (n : ℕ)
    → StandsFor t bs
    → t.arena.current_position + n ≤ t.arena.capacity
    → StandsFor (step (allocate n) t) (replicate n 0 ∷ bs) × StaysInside t (step (allocate n) t)
unfolding step
allocate_fits t bs n r fits =
    let len : length (replicate {A = ℕ} n 0) ≡ n = length-replicate n 0 in
    let base = t.arena.base_position in
    rw (alloc-fits n t.memory r.valid fits) (
      record {
        valid = advanced-IsValid t.arena n r.valid fits;
        position = omega (arith, len, r.position);
        blocks_at = rw (len, r.position, r.blocks_at) refl;
        has_bytes = (
          rw (len, r.position) (bytes_at-mem_set t.memory (base + used_bytes bs) n),
          HasBytes-same base t.memory (mem_set (top t.arena) n t.memory) bs
              (λ x l u.
                mem_set_outside (top t.arena) n t.memory x (inl (omega (arith, r.position))))
              r.has_bytes,
        );
      },
      record {
        same = record { same_address = refl; same_base = refl; same_capacity = refl };
        outside = λ x o. mem_set_outside (top t.arena) n t.memory x (ground arith);
      },
    )

allocate_full :
    (t : Client) (n : ℕ)
    → IsValid t.arena
    → t.arena.capacity < t.arena.current_position + n
    → t.arena.current_position + n < 2 ^ 64
    → step (allocate n) t ≡ t
unfolding step
allocate_full t n v full k = rw (alloc-full n t.memory v full k) refl

store_refines :
    (t : Client) (bs : Blocks) (k j v : ℕ)
    → StandsFor t bs
    → StandsFor (step (store k j v) t) (store_block bs k j v) × StaysInside t (step (store k j v) t)
unfolding step
store_refines t bs k j v r =
    let base = t.arena.base_position in
    (
      record {
        valid = r.valid;
        position = r.position ∙ sym (used_bytes-store_block bs k j v);
        blocks_at = r.blocks_at ∙ sym (places-store_block base bs k j v);
        has_bytes = rw (r.blocks_at) (HasBytes-store_at base t.memory bs k j v r.has_bytes);
      },
      record {
        same = same_refl t.arena;
        outside = λ x o. rw (r.blocks_at) (
            store_at-outside base bs k j v t.memory x
              (ground (arith, r.position, r.valid.current_in)));
      },
    )

step-pop :
    (t : Client) {x : Option ((ℕ × ℕ) × List (ℕ × ℕ))}
    → below t.blocks 0 ≡ x
    → step pop t ≡ popped t x
unfolding step
step-pop t e = ap (popped t) e

step-release :
    (t : Client) (k : ℕ) {x : Option ((ℕ × ℕ) × List (ℕ × ℕ))}
    → below t.blocks k ≡ x
    → step (release k) t ≡ released t x
unfolding step
step-release t k e = ap (released t) e

pop_refines :
    (t : Client) (bs : Blocks)
    → StandsFor t bs
    → StandsFor (step pop t) (release_block bs 0) × StaysInside t (step pop t)
pop_refines t [] r = rw (step-pop t (ap (λ blocks. below blocks 0) r.blocks_at)) (r, stays_here t)
pop_refines t (b ∷ bs) r =
    let less : t.arena.current_position - length b ≡ used_bytes bs = omega (arith, r.position) in
    rw
      (
        step-pop t (ap (λ blocks. below blocks 0) r.blocks_at),
        (pop_lem {a = t.arena} (length b) r.valid).0,
        less,
      )
      (cut_refines t bs r.valid (omega (arith, r.position)) r.has_bytes.1)

release_refines :
    (t : Client) (bs : Blocks) (k : ℕ)
    → StandsFor t bs
    → StandsFor (step (release k) t) (release_block bs k) × StaysInside t (step (release k) t)
release_refines t bs k r = elim (below_cases t.arena.base_position t.memory bs k r.has_bytes) [
  | inl (here, there) ↦
      rw
        (
          step-release t k (ap (λ blocks. below blocks k) r.blocks_at ∙ there),
          ap (kept_blocks bs) here,
        )
        (r, stays_here t)
  | inr (b, rest, here, there, l) ↦
      let base = t.arena.base_position in
      let place : min (base + used_bytes rest - base) t.arena.current_position ≡ used_bytes rest =
        omega (arith, r.position, l.not_longer) in
      rw
        (
          step-release t k (ap (λ blocks. below blocks k) r.blocks_at ∙ there),
          ap (kept_blocks bs) here,
          (pop_lem {a = t.arena} (base + used_bytes rest - base) r.valid).1,
          place,
        )
        (cut_refines t rest r.valid (omega (arith, r.position, l.not_longer)) l.rest_bytes)
]

clear_refines :
    (t : Client) (bs : Blocks)
    → StandsFor t bs
    → StandsFor (step clear t) [] × StaysInside t (step clear t)
unfolding step arena_clear
clear_refines t bs r = cut_refines t [] r.valid (omega arith) tt

step_refines :
    (op : Op) (t : Client) (bs : Blocks)
    → StandsFor t bs
    → t.arena.capacity < 2 ^ 63
    → IsSmall op
    → StandsFor (step op t) (abstract_step t.arena.capacity op bs) × StaysInside t (step op t)
step_refines (allocate n) t bs r c small =
    elim (dec_le (t.arena.current_position + n) t.arena.capacity) [
      | yes fits ↦
          let room : leb (used_bytes bs + n) t.arena.capacity ≡ true =
            rw (← r.position) (ground arith) in
          rw room (allocate_fits t bs n r fits)
      | no full ↦
          let room : leb (used_bytes bs + n) t.arena.capacity ≡ false =
            rw (← r.position) (ground arith) in
          let refused : step (allocate n) t ≡ t =
            allocate_full t n r.valid (omega arith) (omega (arith, r.valid.current_in)) in
          rw (room, refused) (r, stays_here t)
    ]
step_refines (store k j v) t bs r c small = store_refines t bs k j v r
step_refines pop t bs r c small = pop_refines t bs r
step_refines (release k) t bs r c small = release_refines t bs k r
step_refines clear t bs r c small = clear_refines t bs r

-- From a client of an arena of fewer than 2 ^ 63 bytes that stands for a list of blocks, whatever
-- allocations of fewer than 2 ^ 63 bytes, writes to its blocks, pops, pops to a block's place and
-- clears are made in whatever order: the end stands for the blocks that the same operations make of
-- the list. There, an allocation that fits puts a block of zeros in front and one that does not
-- changes nothing, a write changes one byte of one block, and the others drop the blocks in front, or
-- all of them. So each block has the bytes that were last written to it, and no operation but a write
-- to it changes them. Outside of the storage no byte changes.
pub client_run_refines :
    (ops : List Op) (t : Client) (bs : Blocks)
    → StandsFor t bs
    → t.arena.capacity < 2 ^ 63
    → All IsSmall ops
    → StandsFor (run ops t) (abstract_run t.arena.capacity ops bs) × StaysInside t (run ops t)
unfolding run step
client_run_refines [] t bs r c small = (r, stays_here t)
client_run_refines (op ∷ ops) t bs r c small =
    let (r1, s1) = step_refines op t bs r c small.0 in
    let (r2, s2) =
      client_run_refines ops (step op t) (abstract_step t.arena.capacity op bs) r1
        (rw s1.same.same_capacity c) small.1 in
    (rw s1.same.same_capacity at r2, stays_trans s1 s2)
