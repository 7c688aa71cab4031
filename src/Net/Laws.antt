-- ===== src/Net/Laws.antt =====
-- When the readers of the ports end, and what they leave mapped.
use agent_resources.Prelude.{
  ℕ, zero, suc, ◌+◌, ◌≤◌, ◌<◌, ◌≡◌, refl, arith, Option, none, some, List, [], ◌∷◌, done, Bool,
  true, false, ◌&&◌, ◌==◌, length, inl, inr, Bool-cases, replicate, not, if◌then◌else◌,
}
use agent_resources.Memory.{Memory, mem_set}
use agent_resources.Arena.Alloc.{top, advanced, arena_alloc_lem}
use agent_resources.Parse.{compare_string, compare_loop}
use agent_resources.Arena.{Arena, arena_header, arena_create, arena_alloc, arena_destroy}
use agent_resources.Arena.Calls.{Call, Mappings, live, mapped, release_last}
use agent_resources.Resources.{err_ok, err_io}
use agent_resources.Resources.Device.{Device}
use agent_resources.Net.{endofline, read_loop, read_port, read_opened, close_port, port_read}

abbrev pub all_newlines : List ℕ → Bool
all_newlines [] = true
all_newlines (c ∷ file) = c == 0x0a && all_newlines file

and_true : (a b : Bool) → (a && b) ≡ true → (a ≡ true) × (b ≡ true)
and_true true b h = (refl, h)
and_true false b h = ground arith

compare_newline :
    (c : ℕ) (more : List ℕ) → (c == 0x0a) ≡ true → compare_string (c ∷ 0 ∷ more) endofline ≡ done 0
unfolding compare_string compare_loop
compare_newline c more h = rw h refl

compare_plain :
    (c : ℕ) (more : List ℕ)
    → (c == 0x0a) ≡ false
    → compare_string (c ∷ 0 ∷ more) endofline ≡ done 255
unfolding compare_string compare_loop
compare_plain c more h = rw h refl

-- A newline that stands in the buffer stays there at the end of the file.
loop_endless :
    (rounds : ℕ) (file : List ℕ) (c : ℕ) (more : List ℕ)
    → all_newlines (c ∷ file) ≡ true
    → read_loop rounds file (c ∷ 0 ∷ more) ≡ done none
unfolding read_loop
loop_endless zero file c more h = refl
loop_endless (suc rounds) [] c more h =
    rw (compare_newline c more (and_true _ _ h).0) (loop_endless rounds [] c more h)
loop_endless (suc rounds) (d ∷ file) c more h =
    let (first, others) = and_true (c == 0x0a) (all_newlines (d ∷ file)) h in
    rw (compare_newline d more (and_true (d == 0x0a) (all_newlines file) others).0)
      (loop_endless rounds file d more others)

-- A byte that is no newline ends the loop.
loop_ends :
    (rounds : ℕ) (file : List ℕ) (c : ℕ) (more : List ℕ)
    → all_newlines file ≡ false
    → length file ≤ rounds
    → (rest : List ℕ) × (read_loop rounds file (c ∷ 0 ∷ more) ≡ done (some rest))
unfolding read_loop
loop_ends rounds [] c more h k = ground arith
loop_ends zero (d ∷ file) c more h k = absurd (omega arith)
loop_ends (suc rounds) (d ∷ file) c more h k = elim (Bool-cases (d == 0x0a)) [
  | inl newline ↦
      let h' : all_newlines file ≡ false = rw newline at h in
      let (rest, e) = loop_ends rounds file d more h' (omega arith) in
      (rest, rw (compare_newline d more newline) e)
  | inr plain ↦ (file, rw (compare_plain d more plain) refl)
]

-- Some bytes, and all of them newlines.
abbrev pub only_newlines : List ℕ → Bool
only_newlines [] = false
only_newlines (c ∷ file) = all_newlines (c ∷ file)

-- What is to come out: the code and what stays mapped, or `none` for a call that does not end.
abbrev pub outcome : ℕ × ℕ → Option (List ℕ) → Option (ℕ × Mappings)
outcome arena none = some (err_io, arena ∷ [])
outcome arena (some file) = if only_newlines file then none else some (err_ok, [])

abbrev pub file_length : Option (List ℕ) → ℕ
file_length none = 0
file_length (some file) = length file

abbrev pub with_live : Option (ℕ × List Call) → Option (ℕ × Mappings)
with_live none = none
with_live (some (code, calls)) = some (code, live calls)

abbrev ended : Option (List ℕ) → Bool
ended none = false
ended (some rest) = true

-- The loop from the buffer of zeros.
loop_first :
    (rounds : ℕ) (file : List ℕ)
    → length file < rounds
    → (r : Option (List ℕ)) × (read_loop rounds file (replicate 128 0) ≡ done r)
      × (ended r ≡ not (only_newlines file))
unfolding read_loop
loop_first zero file h = absurd (omega arith)
loop_first (suc rounds) [] h = (some [], rw (compare_plain 0 (replicate 126 0) refl) refl, refl)
loop_first (suc rounds) (c ∷ file) h = elim (Bool-cases (all_newlines (c ∷ file))) [
  | inl all ↦ (
    none,
    rw (compare_newline c (replicate 126 0) (and_true _ _ all).0)
        (loop_endless rounds file c (replicate 126 0) all),
    rw all refl,
  )
  | inr some_plain ↦
      let (rest, e) =
        loop_ends (suc rounds) (c ∷ file) 0 (replicate 126 0) some_plain (omega arith) in
      (some rest, e, rw some_plain refl)
]

-- The arena of the readers.
abbrev fresh : ℕ → Arena
fresh address = record {
  address = address;
  current_position = 0;
  previous_position = 0;
  capacity = 8192;
  base_position = address + arena_header;
}

alloc_fresh :
    (address : ℕ) (m : Memory)
    → arena_alloc (some (fresh address)) 128 m ≡ (
      some (top (fresh address)),
      some (advanced (fresh address) 128),
      mem_set (top (fresh address)) 128 m,
    )
alloc_fresh address m =
    (arena_alloc_lem {a = fresh address} 128 m (omega arith) (omega arith)).0 (omega arith)

read_opened_lem :
    (address rounds : ℕ) (m : Memory) (file : Option (List ℕ))
    → file_length file < rounds
    → (r : Option (ℕ × List Call)) × (read_opened rounds (some (fresh address)) m file ≡ done r)
      × (with_live r ≡ outcome (address, 8192 + arena_header) file)
unfolding read_opened read_port arena_destroy
read_opened_lem address rounds m none h = (_, refl, refl)
read_opened_lem address rounds m (some file) h =
    let (r, e, f) = loop_first rounds file h in
    let calls = mapped address (8192 + arena_header) ∷ [] in
    (
      close_port calls (some (advanced (fresh address) 128)) r,
      rw (alloc_fresh address m, e) refl,
      closed r (only_newlines file) f,
    )
  where
    closed :
        (r : Option (List ℕ)) (only : Bool)
        → ended r ≡ not only
        → with_live (
            close_port
              (mapped address (8192 + arena_header) ∷ [])
              (some (advanced (fresh address) 128))
              r)
          ≡ (if only then none else some (err_ok, []))
    closed none true e = refl
    closed none false e = ground arith
    closed (some rest) true e = ground arith
    closed (some rest) false e = rw (release_last address (8192 + arena_header) []) refl

-- For a mapping of the arena that succeeds, and more rounds than the file has bytes: a reader of
-- the ports whose file cannot be opened returns `ERR_IO` and leaves the arena mapped; with a file
-- that holds nothing but newlines, and at least one, the loop still runs, whatever the number of
-- rounds; and with every other file the reader returns `ERR_OK` and leaves nothing mapped.
pub port_read_lem :
    (path : List ℕ) (mapping : ℕ → Option ℕ) (address : ℕ) (files : List ℕ → Option (List ℕ))
    (rounds : ℕ) (device : Device) (m : Memory)
    → mapping (8192 + arena_header) ≡ some address
    → file_length (files path) < rounds
    → (r : Option (ℕ × List Call)) × (port_read path mapping files rounds (some device) m ≡ done r)
      × (with_live r ≡ outcome (address, 8192 + arena_header) (files path))
unfolding port_read arena_create
port_read_lem path mapping address files rounds device m maps h =
    let (r, e, f) = read_opened_lem address rounds m (files path) h in
    (r, rw (maps, arena_create) e, f)
