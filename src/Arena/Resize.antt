-- ===== src/Arena/Resize.antt =====
-- `arena_resize` on each of its branches.
use agent_resources.Prelude.{
  ℕ, ◌+◌, ◌^◌, ◌≤◌, ◌<◌, ◌≡◌, ◌≢◌, none, some, arith, refl, add64, min, done, ltb, leb, ◌==◌, ◌&&◌,
  true, false, if◌then◌else◌,
}
use agent_resources.Memory.{Memory, mem_move, mem_set}
use agent_resources.Arena.{
  Arena, arena_resize, arena_resize_align, resize_last, resize_other, move_block,
}
use agent_resources.Arena.Valid.{IsValid}
use agent_resources.Arena.Alloc.{alloc_or_fault-fits, advanced, top}

not_empty : {n : ℕ} → n ≢ 0 → (n == 0) ≡ false
not_empty p = ground arith

-- `old` is the block that was given last.
abbrev pub IsLast : Arena → ℕ → Type 0
IsLast a old = (a.base_position + a.previous_position ≡ old) × (a.previous_position < a.capacity)

resize-last :
    (a : Arena) (old new_size old_size : ℕ) (m : Memory)
    → IsLast a old
    → old_size ≢ 0
    → arena_resize a (some old) new_size old_size m ≡ resize_last a old new_size old_size m
unfolding arena_resize arena_resize_align
resize-last a old new_size old_size m l p = rw (not_empty p, inside, last_test) refl
  where
    inside : (leb a.base_position old && ltb old (a.base_position + a.capacity)) ≡ true
    inside = ground arith

    last_test : (a.base_position + a.previous_position == old) ≡ true
    last_test = ground arith

-- The last block, made smaller or kept at its size, stays in place with its bytes, and the position
-- moves to its new end.
resize_shrink :
    {a : Arena} (old new_size old_size : ℕ) (m : Memory)
    → IsValid a
    → IsLast a old
    → old_size ≢ 0
    → new_size ≤ old_size
    → a.previous_position + new_size < 2 ^ 64
    → arena_resize a (some old) new_size old_size m
      ≡ done (some old, record a { current_position = a.previous_position + new_size }, m)
resize_shrink {a} old new_size old_size m v l p h w =
    rw (resize-last a old new_size old_size m l p)
      (unfold resize_last in rw (no_growth, no_wrap) refl)
  where
    no_growth : ltb old_size new_size ≡ false
    no_growth = ground arith

    no_wrap : add64 a.previous_position new_size ≡ a.previous_position + new_size
    no_wrap = omega arith

resize_other_fits :
    {a : Arena} (old new_size old_size : ℕ) (m : Memory)
    → IsValid a
    → a.current_position + new_size ≤ a.capacity
    → resize_other a old new_size old_size m
      ≡ done (
        none,
        advanced a new_size,
        mem_move (top a) old (min old_size new_size) (mem_set (top a) new_size m),
      )
unfolding resize_other move_block
resize_other_fits {a} old new_size old_size m v fits =
    rw (alloc_or_fault-fits new_size m v fits) (rw (← copied) refl)
  where
    copied : (if ltb old_size new_size then old_size else new_size) ≡ min old_size new_size
    copied = ground arith

-- Any other block of the storage, where the new size still fits: a new block is given out, the bytes
-- that both sizes have are copied to it, and NULL is returned in its place.
resize_other_lem :
    {a : Arena} (old new_size old_size : ℕ) (m : Memory)
    → IsValid a
    → a.base_position ≤ old
    → old < a.base_position + a.capacity
    → a.base_position + a.previous_position ≢ old
    → old_size ≢ 0
    → a.current_position + new_size ≤ a.capacity
    → arena_resize a (some old) new_size old_size m
      ≡ done (
        none,
        advanced a new_size,
        mem_move (top a) old (min old_size new_size) (mem_set (top a) new_size m),
      )
unfolding arena_resize arena_resize_align
resize_other_lem {a} old new_size old_size m v lo hi ne p fits =
    rw (not_empty p, inside, other) (resize_other_fits old new_size old_size m v fits)
  where
    inside : (leb a.base_position old && ltb old (a.base_position + a.capacity)) ≡ true
    inside = ground arith

    other : (a.base_position + a.previous_position == old) ≡ false
    other = ground arith
