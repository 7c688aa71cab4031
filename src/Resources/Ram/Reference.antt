-- ===== src/Resources/Ram/Reference.antt =====
-- What `sys_ram_read` reads from any file: a definition without the loop, the buffers and the arena.
use agent_resources.Prelude.{
  ℕ, ◌+◌, ◌≤◌, ◌≡◌, refl, arith, Option, Option-cases, some, none, inl, inr, List, [], ◌∷◌, Bool,
  Bool-cases, true, false, Run, done, ◌>>=◌, length,
}
use agent_resources.Memory.{Memory, mem_set}
use agent_resources.Arena.{Arena, arena_destroy, arena_header}
use agent_resources.Arena.Valid.{IsValid, SameStorage, same_refl, same_trans}
use agent_resources.Arena.Alloc.{advanced, top, advanced-IsValid}
use agent_resources.Text.{codes, after, before, skip, starts_with, is_space}
use agent_resources.Resources.{err_ok}
use agent_resources.Resources.Named.{named_value, named_value-none, named_values}
use agent_resources.Resources.Ram.{
  SysMemory, Buffers, is_unit_end, save_total, save_free, ram_line, ram_lines, read_buffer,
  sys_ram_read,
}
use agent_resources.Resources.Ram.Line.{holding, save_text-fits}
use agent_resources.Resources.Ram.Laws.{fresh, fresh-advanced-IsValid, create_fresh}

abbrev value_text : Option (List ℕ) → Option (List ℕ)
value_text none = none
value_text (some rest) = some (before is_unit_end (skip is_space rest))

-- What stands behind the colon of a line, up to its unit, if there is a colon.
abbrev pub text_of : List ℕ → Option (List ℕ)
text_of line = value_text (after b':' line)

-- The text of the last line with a colon that starts with the name.
abbrev later : Bool → Option (List ℕ) → Option (List ℕ) → Option (List ℕ)
later named text last = named_value named text (λ text last. some text) last

abbrev pub last_text : List ℕ → Option (List ℕ) → List (List ℕ) → Option (List ℕ)
last_text name last lines = named_values text_of name (λ text last. some text) lines last

abbrev named_bytes : Bool → Option (List ℕ) → ℕ
named_bytes false text = 0
named_bytes true none = 0
named_bytes true (some text) = length text

-- How many bytes the texts of the lines for the total and for the free memory have together.
abbrev pub text_bytes : List (List ℕ) → ℕ
text_bytes [] = 0
text_bytes (line ∷ lines) =
    named_bytes (starts_with (codes "MemTotal") line) (text_of line)
    + named_bytes (starts_with (codes "MemFree") line) (text_of line)
    + text_bytes lines

-- The two numbers of a file, and the release of the arena.
abbrev pub ram_of : ℕ → List (List ℕ) → Run (ℕ × Option SysMemory × Option (ℕ × ℕ))
ram_of address lines = do
  total ← read_buffer (last_text (codes "MemTotal") none lines)
  free ← read_buffer (last_text (codes "MemFree") none lines)
  done (err_ok, some (record { total = total; free = free }), some (address, 8192 + arena_header))

-- The arena after `n` bytes have been given out.
record Moved (a : Arena) (n : ℕ) (a' : Arena) : Type 0 where
  pub valid : IsValid a'
  pub same : SameStorage a a'
  pub position : a'.current_position ≡ a.current_position + n

Moved-trans : {a b c : Arena} (n k : ℕ) → Moved a n b → Moved b k c → Moved a (n + k) c
Moved-trans n k h l = record {
  valid = l.valid;
  same = same_trans h.same l.same;
  position = omega (arith, h.position, l.position);
}

-- The variables of the loop after some of it, with two texts, when it gave out `n` bytes.
abbrev Reads : Arena → Run Buffers → ℕ → Option (List ℕ) → Option (List ℕ) → Type 0
Reads a r n t f = (a' : Arena) × (m' : Memory) × (r ≡ done (holding a' m' t f)) × Moved a n a'

Reads-here :
    (a : Arena) (m : Memory) (t f : Option (List ℕ))
    → IsValid a
    → Reads a (done (holding a m t f)) 0 t f
Reads-here a m t f v =
    (a, m, refl, record { valid = v; same = same_refl a; position = omega arith })

Reads-block :
    (a : Arena) (m : Memory) (n : ℕ) (t f : Option (List ℕ))
    → IsValid a
    → a.current_position + n ≤ a.capacity
    → Reads a (done (holding (advanced a n) (mem_set (top a) n m) t f)) n t f
Reads-block a m n t f v room = (
  advanced a n,
  mem_set (top a) n m,
  refl,
  record {
    valid = advanced-IsValid a n v room;
    same = record { same_address = refl; same_base = refl; same_capacity = refl };
    position = refl;
  },
)

Reads-then :
    (a : Arena) {r : Run Buffers} (next : Buffers → Run Buffers) (n k : ℕ)
    {t f t' f' : Option (List ℕ)}
    → Reads a r n t f
    → ((a' : Arena) (m' : Memory) → Moved a n a' → Reads a' (next (holding a' m' t f)) k t' f')
    → Reads a (r >>= next) (n + k) t' f'
Reads-then a next n k (a1, m1, e1, h1) go =
    let (a2, m2, e2, h2) = go a1 m1 h1 in (a2, m2, rw e1 e2, Moved-trans n k h1 h2)

bytes_none : (named : Bool) → named_bytes named none ≡ 0
bytes_none false = refl
bytes_none true = refl

save_total_lem :
    (line text : List ℕ) (a : Arena) (m : Memory) (t f : Option (List ℕ))
    → IsValid a
    → let named = starts_with (codes "MemTotal") line in
      a.current_position + named_bytes named (some text) ≤ a.capacity
      → Reads a
          (save_total line text (holding a m t f))
          (named_bytes named (some text))
          (later named (some text) t)
          f
unfolding save_total
save_total_lem line text a m t f v room = elim (Bool-cases (starts_with (codes "MemTotal") line)) [
  | inl e ↦
      let fits = rw e at room in
      rw (e, save_text-fits text a m t f (λ b. record b { total = some text }) v fits)
        (Reads-block a m (length text) (some text) f v fits)
  | inr e ↦ rw e (Reads-here a m t f v)
]

save_free_lem :
    (line text : List ℕ) (a : Arena) (m : Memory) (t f : Option (List ℕ))
    → IsValid a
    → let named = starts_with (codes "MemFree") line in
      a.current_position + named_bytes named (some text) ≤ a.capacity
      → Reads a
          (save_free line text (holding a m t f))
          (named_bytes named (some text))
          t
          (later named (some text) f)
unfolding save_free
save_free_lem line text a m t f v room = elim (Bool-cases (starts_with (codes "MemFree") line)) [
  | inl e ↦
      let fits = rw e at room in
      rw (e, save_text-fits text a m t f (λ b. record b { free = some text }) v fits)
        (Reads-block a m (length text) t (some text) v fits)
  | inr e ↦ rw e (Reads-here a m t f v)
]

ram_line_lem :
    (line : List ℕ) (a : Arena) (m : Memory) (t f : Option (List ℕ))
    → IsValid a
    → let total = starts_with (codes "MemTotal") line in
      let free = starts_with (codes "MemFree") line in
      let n = named_bytes total (text_of line) + named_bytes free (text_of line) in
      a.current_position + n ≤ a.capacity
      → Reads a
          (ram_line line (holding a m t f))
          n
          (later total (text_of line) t)
          (later free (text_of line) f)
unfolding ram_line
ram_line_lem line a m t f v room = elim (Option-cases (after b':' line)) [
  | inl e ↦
      rw
        (
          e,
          ram_line,
          named_value-none (starts_with (codes "MemTotal") line) (λ text last. some text) t,
          named_value-none (starts_with (codes "MemFree") line) (λ text last. some text) f,
          bytes_none (starts_with (codes "MemTotal") line),
          bytes_none (starts_with (codes "MemFree") line),
        )
        (Reads-here a m t f v)
  | inr (rest, e) ↦
      let text = before is_unit_end (skip is_space rest) in
      let fits = rw e at room in
      rw (e, ram_line)
        (Reads-then a (save_free line text) _ _
          (save_total_lem line text a m t f v (omega (arith, fits)))
          (λ a' m' h.
            save_free_lem line text a' m' _ f h.valid
              (omega (arith, fits, h.position, h.same.same_capacity))))
]

ram_lines_lem :
    (lines : List (List ℕ)) (a : Arena) (m : Memory) (t f : Option (List ℕ))
    → IsValid a
    → a.current_position + text_bytes lines ≤ a.capacity
    → Reads a
        (ram_lines lines (holding a m t f))
        (text_bytes lines)
        (last_text (codes "MemTotal") t lines)
        (last_text (codes "MemFree") f lines)
unfolding ram_lines
ram_lines_lem [] a m t f v room = Reads-here a m t f v
ram_lines_lem (line ∷ lines) a m t f v room =
    Reads-then a (ram_lines lines) _ _ (ram_line_lem line a m t f v (omega (arith, room)))
      (λ a' m' h.
        ram_lines_lem lines a' m' _ _ h.valid
          (omega (arith, room, h.position, h.same.same_capacity)))

destroy-Moved :
    (address n : ℕ) {a : Arena}
    → Moved (fresh address) n a
    → arena_destroy (some a) ≡ some (address, 8192 + arena_header)
unfolding arena_destroy
destroy-Moved address n h = rw (h.same.same_address, h.same.same_capacity) refl

-- For any file, if the temporary arena is mapped and the texts of the lines that start with
-- `MemTotal` or `MemFree` have at most 8192 bytes together: `sys_ram_read` does what its definition
-- without the loop, the buffers and the arena does. A text is what stands behind a line's first
-- colon, without the spaces at its front and up to its first `k` or newline. The result is
-- `ERR_OK` with the numbers of the last such text of either name and the arena unmapped; where a
-- name has no text, or `parse_u64` faults on one, so does the call.
pub sys_ram_read_reference :
    (asserts : Bool) (mapping : ℕ → Option ℕ) (address : ℕ) (m : Memory) (out : SysMemory)
    (lines : List (List ℕ))
    → mapping (8192 + arena_header) ≡ some address
    → text_bytes lines ≤ 8192
    → sys_ram_read asserts (some out) (some lines) mapping m ≡ ram_of address lines
unfolding sys_ram_read
sys_ram_read_reference asserts mapping address m out lines e room =
    let valid = (fresh-advanced-IsValid address 0 (omega arith)).0 in
    let (a, m', l, h) =
      ram_lines_lem lines (fresh address) m none none valid (omega (arith, room)) in
    rw (create_fresh mapping address e, l, destroy-Moved address (text_bytes lines) h) refl
