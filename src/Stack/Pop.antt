-- ===== src/Stack/Pop.antt =====
-- `stack_pop` against `stack_push`, blocks freed in the reverse order, and what `stack_resize_align`
-- returns.
use agent_resources.Prelude.{
  ℕ, ◌+◌, ◌-◌, ◌^◌, ◌≤◌, ◌<◌, ◌≡◌, ◌≢◌, inl, none, some, arith, refl, Run, done, true, false, ◌&&◌,
  add64, sub64, ltb, leb, ◌==◌, List, [], ◌∷◌, All, ◌>>=◌, ◌∙◌, min, ap, if◌then◌else◌,
}
use native.Mathlib.Decide.{dec_le}
use agent_resources.Memory.{Memory, mem_move}
use agent_resources.Stack.{
  Stack, stack_push, stack_pop, header_size, stack_resize_align, move_block,
}
use agent_resources.Stack.Push.{
  IsValid, free_from, grown, block_memory, block_memory-header, block_memory_outside, push-small,
  push_padded-fits, push_padded-full,
}

-- A pointer into the storage is never refused: the offset becomes what the header in front of it
-- says, also where the pointer lies at or behind the current offset.
pop_inside :
    (s : Stack) (p : ℕ) (m : Memory)
    → IsValid s
    → s.base_position ≤ p
    → p < s.base_position + s.capacity
    → stack_pop s (some p) m
      ≡ record s { current_offset = sub64 (sub64 p (m (p - header_size))) s.base_position }
unfolding stack_pop
pop_inside s p m v lo hi = rw (inside, below) refl
  where
    inside : (leb s.base_position p && ltb p (add64 s.base_position s.capacity)) ≡ true
    inside = ground arith

    below : leb (add64 s.base_position s.base_position) p ≡ false
    below = ground arith

-- Taking back the block that was pushed onto `s`, from a stack `t` over the same storage.
pub pop_block :
    (s t : Stack) (p padding : ℕ) (m : Memory)
    → IsValid t
    → t.base_position ≡ s.base_position
    → p ≡ free_from s + padding
    → p < t.base_position + t.capacity
    → m (p - header_size) ≡ padding
    → stack_pop t (some p) m ≡ record t { current_offset = s.current_offset }
pop_block s t p padding m v b e hi h = pop_inside t p m v (omega arith) hi ∙ rw h (rw back refl)
  where
    back : sub64 (sub64 p padding) t.base_position ≡ s.current_offset
    back = omega arith

-- Push a block for each size, and then pop all of them, the last first.
pub nested : Stack → List ℕ → Memory → Run (Stack × Memory)
nested s [] m = done (s, m)
nested s (size ∷ sizes) m = stack_push s size m >>= λ pushed.
    nested pushed.1 sizes pushed.2 >>= λ inner. done (stack_pop inner.0 pushed.0 inner.1, inner.1)

pub push-fits :
    (s : Stack) (size : ℕ) (m : Memory)
    → IsValid s
    → s.current_offset + 16 + size ≤ s.capacity
    → stack_push s size m
      ≡ done (some (free_from s + 16), grown s 16 size, block_memory s 16 size m)
unfolding stack_push
push-fits s size m v h =
    push-small s size 4 m (omega arith) (omega arith) ∙ ap done (push_padded-fits s size 16 m v h)

pub push-full :
    (s : Stack) (size : ℕ) (m : Memory)
    → s.capacity < s.current_offset + 16 + size
    → s.current_offset + 16 + size < 2 ^ 64
    → stack_push s size m ≡ done (none, s, m)
unfolding stack_push
push-full s size m h w =
    push-small s size 4 m (omega arith) (omega arith) ∙ ap done (push_padded-full s size 16 m h w)

pop-none : (s : Stack) (m : Memory) → stack_pop s none m ≡ s
unfolding stack_pop
pop-none s m = refl

-- On a valid stack, for any sizes above 0 and below 2 ^ 62: pushing a block for each of them and
-- then popping all, the last first, runs through, leaves the stack as it was, and changes no byte
-- below its free part. Pushes that find no room give NULL, which pops nothing.
pub nested_lem :
    (sizes : List ℕ) (s : Stack) (m : Memory)
    → IsValid s
    → All (λ n. (0 < n) × (n < 2 ^ 62)) sizes
    → (m' : Memory) × (nested s sizes m ≡ done (s, m')) × ((x : ℕ) → x < free_from s → m' x ≡ m x)
unfolding nested
nested_lem [] s m v h = (m, refl, λ x lt. refl)
nested_lem (size ∷ sizes) s m v h = elim (dec_le (s.current_offset + 16 + size) s.capacity) [
  | yes fits ↦
      let t = grown s 16 size in
      let p = free_from s + 16 in
      let b = block_memory s 16 size m in
      let (m', e, kept) = nested_lem sizes t b (valid fits) h.1 in
      (
        m',
        rw (push-fits s size m v fits, e)
            (ap (λ (u : Stack). done (u, m'))
              (pop_block s t p 16 m' (valid fits) refl refl (omega arith) (
                kept (p - header_size) (omega arith)
                ∙ block_memory-header s size 16 m (omega arith) (omega arith)))),
        λ x lt.
            kept x (omega arith)
            ∙ block_memory_outside s size 16 m x (omega arith) (inl (omega arith)),
      )
  | no full ↦
      let (m', e, kept) = nested_lem sizes s m v h.1 in
      (
        m',
        rw (push-full s size m (omega arith) (omega arith), e)
            (ap (λ (u : Stack). done (u, m')) (pop-none s m')),
        kept,
      )
]
  where
    valid : s.current_offset + 16 + size ≤ s.capacity → IsValid (grown s 16 size)
    valid fits = record { offset_in = fits; no_wrap = v.no_wrap; low = v.low; behind = v.behind }

-- A live block that is to get another size above 0: the bytes that both sizes have are copied to a
-- new block, and the offset moves behind that block, but the pointer returned is the old one.
pub stack_resize_align_lem :
    (s : Stack) (p old_size new_size : ℕ) (m : Memory)
    → IsValid s
    → s.base_position ≤ p
    → p < free_from s
    → new_size ≢ 0
    → old_size ≢ new_size
    → s.current_offset + 16 + new_size ≤ s.capacity
    → stack_resize_align s (some p) old_size new_size 16 m
      ≡ done (
        some p,
        grown s 16 new_size,
        mem_move (free_from s + 16) p (min old_size new_size) (block_memory s 16 new_size m),
      )
unfolding stack_resize_align move_block
stack_resize_align_lem s p old_size new_size m v lo hi nz ne fits =
    rw
      (
        nonzero,
        inside,
        live,
        other,
        push-small s new_size 4 m (omega arith) (omega arith),
        push_padded-fits s new_size 16 m v fits,
      )
      (rw (← copied) refl)
  where
    nonzero : (new_size == 0) ≡ false
    nonzero = ground arith

    inside : (leb s.base_position p && ltb p (add64 s.base_position s.capacity)) ≡ true
    inside = ground arith

    live : leb (add64 s.base_position s.current_offset) p ≡ false
    live = ground arith

    other : (old_size == new_size) ≡ false
    other = ground arith

    copied : (if ltb old_size new_size then old_size else new_size) ≡ min old_size new_size
    copied = ground arith
