-- ===== src/Arena/Refine/Temporary.antt =====
-- `temp_arena_begin` and `temp_arena_end` around a client's operations.
use agent_resources.Prelude.{
  ℕ, ◌-◌, ◌^◌, ◌≤◌, ◌<◌, ◌≡◌, refl, sym, ◌∙◌, ap, ap₂, suc, arith, List, [], ◌∷◌, ◌++◌, All, length,
  length-append, drop,
}
use agent_resources.Memory.{Memory}
use agent_resources.Arena.{temp_arena_begin, temp_arena_end}
use agent_resources.Arena.Refine.{Op, Client, run, Blocks, used_bytes, abstract_run}
use agent_resources.Arena.Refine.Contents.{places, HasBytes}
use agent_resources.Arena.Refine.Standing.{StandsFor, StaysInside, stays_trans, cut_refines, cut_at}
use agent_resources.Arena.Refine.Laws.{IsSmall, client_run_refines}

-- The operations between the two calls, after which the client has as many blocks as before.
pub in_scope : List Op → Client → Client
in_scope ops t =
    let u = run ops t in
    record u {
      arena = temp_arena_end (temp_arena_begin t.arena) u.arena;
      blocks = drop (length u.blocks - length t.blocks) u.blocks;
    }

length-places : (base : ℕ) (bs : Blocks) → length (places base bs) ≡ length bs
length-places base [] = refl
length-places base (b ∷ bs) = ap suc (length-places base bs)

places-append :
    (base : ℕ) (new old : Blocks) → drop (length new) (places base (new ++ old)) ≡ places base old
places-append base [] old = refl
places-append base (b ∷ new) old = places-append base new old

HasBytes-append :
    (base : ℕ) (m : Memory) (new old : Blocks) → HasBytes base m (new ++ old) → HasBytes base m old
HasBytes-append base m [] old h = h
HasBytes-append base m (b ∷ new) old h = HasBytes-append base m new old h.1

used_bytes-append : (new old : Blocks) → used_bytes old ≤ used_bytes (new ++ old)
used_bytes-append [] old = omega arith
used_bytes-append (b ∷ new) old = omega (arith, used_bytes-append new old)

-- What is left, where the new blocks stand in front of as many as before.
in_scope-cut_at :
    (ops : List Op) (t : Client) (bs new old : Blocks)
    → t.blocks ≡ places t.arena.base_position bs
    → t.arena.current_position ≡ used_bytes bs
    → (run ops t).blocks ≡ places (run ops t).arena.base_position (new ++ old)
    → length old ≡ length bs
    → used_bytes old ≡ used_bytes bs
    → in_scope ops t
      ≡ cut_at (run ops t) (used_bytes old) (places (run ops t).arena.base_position old)
unfolding in_scope temp_arena_begin temp_arena_end
in_scope-cut_at ops t bs new old before position behind len used =
    ap₂ (cut_at (run ops t)) (position ∙ sym used) kept
  where
    base : ℕ
    base = (run ops t).arena.base_position

    count : length (run ops t).blocks - length t.blocks ≡ length new
    count = omega (
      arith,
      len,
      ap length behind,
      ap length before,
      length-places base (new ++ old),
      length-places t.arena.base_position bs,
      length-append new old,
    )

    kept : drop (length (run ops t).blocks - length t.blocks) (run ops t).blocks ≡ places base old
    kept = ap₂ drop count behind ∙ places-append base new old

-- From a client of an arena of fewer than 2 ^ 63 bytes that stands for a list of blocks, whatever
-- operations are made between `temp_arena_begin` and `temp_arena_end`, with allocations of fewer than
-- 2 ^ 63 bytes: if the blocks at their end are new ones in front of as many blocks as at the start,
-- with as many bytes, then behind `temp_arena_end` the client stands for those older blocks, with the
-- bytes that they have then; the new ones are taken back. Outside of the storage no byte changes.
pub in_scope_lem :
    (ops : List Op) (t : Client) (bs new old : Blocks)
    → StandsFor t bs
    → t.arena.capacity < 2 ^ 63
    → All IsSmall ops
    → abstract_run t.arena.capacity ops bs ≡ new ++ old
    → length old ≡ length bs
    → used_bytes old ≡ used_bytes bs
    → StandsFor (in_scope ops t) old × StaysInside t (in_scope ops t)
in_scope_lem ops t bs new old r c small e len used =
    let (r1, s1) = client_run_refines ops t bs r c small in
    let r2 : StandsFor (run ops t) (new ++ old) = rw e at r1 in
    let base = (run ops t).arena.base_position in
    let (r3, s3) =
      cut_refines (run ops t) old r2.valid (omega (arith, r2.position, used_bytes-append new old))
        (HasBytes-append base (run ops t).memory new old r2.has_bytes) in
    rw (in_scope-cut_at ops t bs new old r.blocks_at r.position r2.blocks_at len used)
      (r3, stays_trans s1 s3)
