-- ===== src/Parse/ProcFile/Whole.antt =====
-- The whole of `parse_proc_files`, on a file of lines.
use agent_resources.Prelude.{
  ℕ, ◌+◌, ◌≤◌, ◌<◌, ◌≡◌, refl, arith, some, List, [], ◌∷◌, done, ◌>>=◌, length,
}
use agent_resources.Memory.{Memory, mem_set}
use agent_resources.Arena.{Arena, arena_alloc}
use agent_resources.Arena.Valid.{IsValid}
use agent_resources.Arena.Alloc.{top, advanced, alloc_room, advanced-IsValid}
use agent_resources.Parse.ProcFile.{read_file, scan_file, scan_loop, first_scan}

-- The buffer of 4 KiB, the struct and the 256 entries.
abbrev pub file_size : ℕ
file_size = 4096 + 16 + 8192

-- What has been given out for them.
abbrev pub taken : Arena → Arena
taken a = advanced (advanced (advanced a 4096) 16) 8192

-- With the three blocks given out.
pub read_taken :
    (a : Arena) (m : Memory) (text : List ℕ)
    → IsValid a
    → a.current_position + file_size ≤ a.capacity
    → 0 < length text
    → (m' : Memory) × (read_file (some text) (arena_alloc (some a) 4096 m) ≡ (
        scan_loop text text 0 (first_scan (some (top a + 4096 + 16))) >>= λ s.
        done (some (record { count = s.count; entries = s.entries }), some (taken a), m')))
unfolding read_file scan_file
read_taken a m [] v h pos = absurd (omega arith)
read_taken a m (c ∷ text) v h pos =
    let b = advanced a 4096 in
    let vb = advanced-IsValid a 4096 v (omega arith) in
    let m1 = mem_set (top a) 4096 m in
    let m2 = mem_set (top b) 16 m1 in
    (
      mem_set (top (advanced b 16)) 8192 m2,
      rw
          (
            alloc_room a 4096 m v (omega arith),
            alloc_room b 16 m1 vb (omega arith),
            alloc_room (advanced b 16) 8192 m2 (advanced-IsValid b 16 vb (omega arith))
                (omega arith),
          )
          refl,
    )
