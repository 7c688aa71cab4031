-- ===== src/Resources/Ram/Laws.antt =====
-- What `sys_ram_read` makes of the lines of /proc/meminfo.
use agent_resources.Prelude.{
  ℕ, ◌+◌, ◌≤◌, ◌%◌, ◌^◌, ◌≡◌, refl, arith, Option, some, none, List, [], ◌∷◌, All, Bool, done,
  length, length-append,
}
use agent_resources.Memory.{Memory, mem_set}
use agent_resources.Arena.{Arena, arena_create, arena_destroy, arena_header}
use agent_resources.Arena.Valid.{IsValid}
use agent_resources.Arena.Alloc.{advanced, top}
use agent_resources.Parse.Number.{IsDigit, decimal}
use agent_resources.Text.{codes}
use agent_resources.Resources.{err_ok}
use agent_resources.Resources.Ram.{SysMemory, ram_lines, sys_ram_read}
use agent_resources.Resources.Ram.Line.{
  size_line, buffered, AreSpaces, Other, read_buffered, holding, ram_line-total, ram_line-free,
  ram_lines-Other,
}

abbrev pub fresh : ℕ → Arena
fresh address = record {
  address = address;
  current_position = 0;
  previous_position = 0;
  capacity = 8192;
  base_position = address + arena_header;
}

pub fresh-advanced-IsValid :
    (address n : ℕ) → n ≤ 8192 → IsValid (fresh address) × IsValid (advanced (fresh address) n)
fresh-advanced-IsValid address n h = (omega arith, omega arith)

pub create_fresh :
    (mapping : ℕ → Option ℕ) (address : ℕ)
    → mapping (8192 + arena_header) ≡ some address
    → arena_create mapping 8192 ≡ some (fresh address)
unfolding arena_create
create_fresh mapping address e = rw (e, arena_create) refl

destroy_fresh :
    (address n n' : ℕ)
    → arena_destroy (some (advanced (advanced (fresh address) n) n'))
      ≡ some (address, 8192 + arena_header)
unfolding arena_destroy
destroy_fresh address n n' = refl

-- The loop, on the two lines that matter and others behind them.
ram_lines-two :
    (address : ℕ) (m : Memory) (spaces spaces' : List ℕ) (c : ℕ) (ds : List ℕ) (c' : ℕ)
    (ds' unit unit' : List ℕ) (lines : List (List ℕ))
    → AreSpaces spaces
    → AreSpaces spaces'
    → All IsDigit (c ∷ ds)
    → All IsDigit (c' ∷ ds')
    → length ds + length ds' + 4 ≤ 8192
    → All Other lines
    → let n = length (buffered c ds) in
      let n' = length (buffered c' ds') in
      (m' : Memory) × (ram_lines
          (size_line (codes "MemTotal") spaces c ds unit
            ∷ size_line (codes "MemFree") spaces' c' ds' unit'
            ∷ lines)
          (holding (fresh address) m none none)
        ≡ done (
            holding
              (advanced (advanced (fresh address) n) n')
              m'
              (some (buffered c ds))
              (some (buffered c' ds'))))
unfolding ram_lines
ram_lines-two address m spaces spaces' c ds c' ds' unit unit' lines s s' d d' h o =
    let n = length (buffered c ds) in
    let v = fresh-advanced-IsValid address n (omega (arith, length-append ds (0x20 ∷ []))) in
    let m' = mem_set (top (fresh address)) n m in
    (
      mem_set (top (advanced (fresh address) n)) (length (buffered c' ds')) m',
      rw
          (
            ram_line-total spaces c ds unit (fresh address) m none none s d v.0
                (omega (arith, length-append ds (0x20 ∷ []))),
            ram_line-free spaces' c' ds' unit' (advanced (fresh address) n) m'
                (some (buffered c ds)) none s' d' v.1
                (omega (arith, length-append ds (0x20 ∷ []), length-append ds' (0x20 ∷ []))),
          )
          (ram_lines-Other lines _ o),
    )

-- From a file whose first line holds the total and whose second the free memory, in decimal digits
-- behind spaces and in front of a unit, with no further line for either: if the temporary arena is
-- mapped and the texts fit into it, `sys_ram_read` returns `ERR_OK` with the two numbers as the
-- file has them, modulo 2 ^ 64, and unmaps the whole of the arena.
pub sys_ram_read_lem :
    (asserts : Bool) (mapping : ℕ → Option ℕ) (address : ℕ) (m : Memory) (out : SysMemory)
    (spaces spaces' : List ℕ) (c : ℕ) (ds : List ℕ) (c' : ℕ) (ds' unit unit' : List ℕ)
    (lines : List (List ℕ))
    → mapping (8192 + arena_header) ≡ some address
    → AreSpaces spaces
    → AreSpaces spaces'
    → All IsDigit (c ∷ ds)
    → All IsDigit (c' ∷ ds')
    → length ds + length ds' + 4 ≤ 8192
    → All Other lines
    → sys_ram_read asserts
        (some out)
        (some (
          size_line (codes "MemTotal") spaces c ds unit
          ∷ size_line (codes "MemFree") spaces' c' ds' unit'
          ∷ lines))
        mapping
        m
      ≡ done (
        err_ok,
        some (record { total = decimal 0 (c ∷ ds) % 2 ^ 64; free = decimal 0 (c' ∷ ds') % 2 ^ 64 }),
        some (address, 8192 + arena_header),
      )
unfolding sys_ram_read
sys_ram_read_lem asserts mapping address m out spaces spaces' c ds c' ds' unit unit' lines e s s' d
      d' h o =
    let (m', l) =
      ram_lines-two address m spaces spaces' c ds c' ds' unit unit' lines s s' d d' h o in
    rw
      (
        create_fresh mapping address e,
        l,
        read_buffered c ds d,
        read_buffered c' ds' d',
        destroy_fresh address (length (buffered c ds)) (length (buffered c' ds')),
      )
      refl
