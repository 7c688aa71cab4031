-- ===== src/Resources/Ram/Line.antt =====
-- What `sys_ram_read` makes of one line of /proc/meminfo, and of a buffer.
use agent_resources.Prelude.{
  inl, Option-cases, inr, ℕ, ◌+◌, ◌≤◌, ◌%◌, ◌^◌, ◌≡◌, refl, arith, Option, some, List, [], ◌∷◌,
  ◌++◌, All, true, false, Run, done, length, length-append, ap, ◌==◌,
}
use agent_resources.Memory.{Memory, mem_set}
use agent_resources.Arena.{Arena}
use agent_resources.Arena.Valid.{IsValid}
use agent_resources.Arena.Alloc.{advanced, top, arena_alloc_lem}
use agent_resources.Parse.Number.{IsDigit, decimal, parse_u64_lem}
use agent_resources.Text.{
  codes, after, before, skip, starts_with, is_space, after-append, skip-append,
}
use agent_resources.Resources.Ram.{
  Buffers, is_unit_end, save_text, save_total, save_free, keep_copy, ram_line, ram_lines,
  read_buffer,
}

-- A line of the file: a name, a colon, spaces, digits and the unit.
abbrev pub size_line : List ℕ → List ℕ → ℕ → List ℕ → List ℕ → List ℕ
size_line name spaces c ds rest = name ++ b':' ∷ (spaces ++ c ∷ (ds ++ 0x20 ∷ b'k' ∷ rest))

-- The digits with the space behind them: what is copied to a buffer.
abbrev pub buffered : ℕ → List ℕ → List ℕ
buffered c ds = c ∷ (ds ++ 0x20 ∷ [])

abbrev pub AreSpaces : List ℕ → Type 0
AreSpaces spaces = All (λ x. is_space x ≡ true) spaces

abbrev pub Other : List ℕ → Type 0
Other line =
    (starts_with (codes "MemTotal") line ≡ false) × (starts_with (codes "MemFree") line ≡ false)

before_unit :
    (ds rest : List ℕ)
    → All IsDigit ds
    → before is_unit_end (ds ++ 0x20 ∷ b'k' ∷ rest) ≡ ds ++ 0x20 ∷ []
unfolding before
before_unit [] rest d = refl
before_unit (c ∷ ds) rest d =
    rw (no_unit_end c d.0) (ap (λ (t : List ℕ). c ∷ t) (before_unit ds rest d.1))
  where
    no_unit_end : (c : ℕ) → IsDigit c → is_unit_end c ≡ false
    no_unit_end c d = ground arith

line_text :
    (name spaces : List ℕ) (c : ℕ) (ds rest : List ℕ)
    → All (λ x. (x == b':') ≡ false) name
    → AreSpaces spaces
    → All IsDigit (c ∷ ds)
    → (after b':' (size_line name spaces c ds rest)
        ≡ some (spaces ++ c ∷ (ds ++ 0x20 ∷ b'k' ∷ rest)))
      × (before is_unit_end (skip is_space (spaces ++ c ∷ (ds ++ 0x20 ∷ b'k' ∷ rest)))
          ≡ buffered c ds)
line_text name spaces c ds rest n s d = (
  after-append b':' name _ n,
  rw (skip-append is_space spaces c (ds ++ 0x20 ∷ b'k' ∷ rest) s (no_space c d.0))
      (before_unit (c ∷ ds) rest d),
)
  where
    no_space : (c : ℕ) → IsDigit c → is_space c ≡ false
    no_space c d = ground arith

pub read_buffered :
    (c : ℕ) (ds : List ℕ)
    → All IsDigit (c ∷ ds)
    → read_buffer (some (buffered c ds)) ≡ done (decimal 0 (c ∷ ds) % 2 ^ 64)
unfolding read_buffer
read_buffered c ds d = rw (← len) (parse_u64_lem (c ∷ ds) (0x20 ∷ []) 1 d (inr refl))
  where
    len : length (c ∷ ds) + 1 ≡ length (buffered c ds)
    len = omega (arith, length-append ds (0x20 ∷ []))

-- The variables of the loop, with an arena that was mapped.
abbrev pub holding : Arena → Memory → Option (List ℕ) → Option (List ℕ) → Buffers
holding a m t f = record { arena = some a; memory = m; total = t; free = f }

pub save_text-fits :
    (text : List ℕ) (a : Arena) (m : Memory) (t f : Option (List ℕ)) (put : Buffers → Buffers)
    → IsValid a
    → a.current_position + length text ≤ a.capacity
    → save_text text (holding a m t f) put
      ≡ done (put (holding (advanced a (length text)) (mem_set (top a) (length text) m) t f))
unfolding save_text keep_copy
save_text-fits text a m t f put v h =
    rw ((arena_alloc_lem {a = a} (length text) m v (omega (arith, v.capacity_word))).0 h) refl

total_name : All (λ x. (x == b':') ≡ false) (codes "MemTotal")
total_name = (refl, (refl, (refl, (refl, (refl, (refl, (refl, (refl, tt))))))))

free_name : All (λ x. (x == b':') ≡ false) (codes "MemFree")
free_name = (refl, (refl, (refl, (refl, (refl, (refl, (refl, tt)))))))

-- What a line leaves behind it in the arena and in the memory, for a text of `n` bytes.
abbrev kept : Arena → Memory → ℕ → Option (List ℕ) → Option (List ℕ) → Run Buffers
kept a m n t f = done (holding (advanced a n) (mem_set (top a) n m) t f)

pub ram_line-total :
    (spaces : List ℕ) (c : ℕ) (ds rest : List ℕ) (a : Arena) (m : Memory) (t f : Option (List ℕ))
    → AreSpaces spaces
    → All IsDigit (c ∷ ds)
    → IsValid a
    → a.current_position + length (buffered c ds) ≤ a.capacity
    → ram_line (size_line (codes "MemTotal") spaces c ds rest) (holding a m t f)
      ≡ kept a m (length (buffered c ds)) (some (buffered c ds)) f
unfolding ram_line save_total save_free starts_with
ram_line-total spaces c ds rest a m t f s d v h =
    let l = line_text (codes "MemTotal") spaces c ds rest total_name s d in
    rw (l.0, ram_line, l.1, save_text-fits (buffered c ds) a m t f _ v h) refl

pub ram_line-free :
    (spaces : List ℕ) (c : ℕ) (ds rest : List ℕ) (a : Arena) (m : Memory) (t f : Option (List ℕ))
    → AreSpaces spaces
    → All IsDigit (c ∷ ds)
    → IsValid a
    → a.current_position + length (buffered c ds) ≤ a.capacity
    → ram_line (size_line (codes "MemFree") spaces c ds rest) (holding a m t f)
      ≡ kept a m (length (buffered c ds)) t (some (buffered c ds))
unfolding ram_line save_total save_free starts_with
ram_line-free spaces c ds rest a m t f s d v h =
    let l = line_text (codes "MemFree") spaces c ds rest free_name s d in
    rw (l.0, ram_line, l.1, save_text-fits (buffered c ds) a m t f _ v h) refl

ram_line-Other : (line : List ℕ) (b : Buffers) → Other line → ram_line line b ≡ done b
unfolding ram_line save_total save_free
ram_line-Other line b o = elim (Option-cases (after b':' line)) [
  | inl e ↦ rw (e, ram_line) refl
  | inr (rest, e) ↦ rw (e, ram_line, o.0, o.1) refl
]

pub ram_lines-Other :
    (lines : List (List ℕ)) (b : Buffers) → All Other lines → ram_lines lines b ≡ done b
unfolding ram_lines
ram_lines-Other [] b o = refl
ram_lines-Other (line ∷ lines) b o =
    rw (ram_line-Other line b o.0, ram_lines) (ram_lines-Other lines b o.1)
