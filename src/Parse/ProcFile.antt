-- ===== src/Parse/ProcFile.antt =====
-- `parse_proc_files` of base/base_parse.c: a file of lines with a key, a colon and a value.
pub mod Entry
pub mod Laws
pub mod Whole
pub mod Lines
pub mod Stored
pub mod Overflow
mod Tests
use agent_resources.Prelude.{
  ℕ, ◌+◌, ◌-◌, Option, none, some, List, [], ◌∷◌, ◌++◌, Run, done, fault, ◌>>=◌, Bool, true, false,
  ltb, ◌==◌, ◌||◌, if◌then◌else◌, take, drop, set, replicate,
}
use agent_resources.Memory.{Memory}
use agent_resources.Arena.{Arena, arena_alloc}
use agent_resources.Text.{overlay}

-- Two arrays of 16 bytes.
pub record ProcEntry : Type 0 where
  pub value : List ℕ
  pub key : List ℕ

pub record ProcFile : Type 0 where
  pub count : ℕ
  pub entries : List ProcEntry

abbrev pub zero_entry : ProcEntry
zero_entry = record { value = replicate 16 0; key = replicate 16 0 }

-- The variables of the loop, and what it has written. `delim` is `none` for the `-1` of the source.
-- `entries` is the array; it is empty if there was no memory for it, so that a write is a fault.
pub record Scan : Type 0 where
  pub line_start : ℕ
  pub delim : Option ℕ
  pub entry_index : ℕ
  pub count : ℕ
  pub entries : List ProcEntry

abbrev pub is_blank : ℕ → Bool
is_blank c = c == 0x20 || c == 0x09

-- Lengths that do not fit are cut to 15.
abbrev pub cut : ℕ → ℕ
cut len = if ltb len 16 then len else 15

-- The bytes of the buffer from an index on.
abbrev pub slice : List ℕ → ℕ → ℕ → List ℕ
slice buffer start len = take len (drop start buffer)

-- The rounds of the loop that skips the blanks: it stops at the end of the line.
pub leading_blanks : List ℕ → ℕ
leading_blanks [] = 0
leading_blanks (c ∷ s) = let rest = leading_blanks s in if is_blank c then rest + 1 else 0

-- `MemCpy` of `len - 1` bytes, and the NUL at `len`. With a length of 0 that wraps around, which is a
-- copy behind the array.
pub copy_key : List ℕ → ℕ → ℕ → List ℕ → Run (List ℕ)
copy_key buffer line_start key_len array =
    if key_len == 0
    then fault
    else done (set (overlay (slice buffer line_start (key_len - 1)) array) key_len 0)

abbrev pub copy_value : List ℕ → ℕ → ℕ → List ℕ → List ℕ
copy_value buffer val_start val_len array =
    set (overlay (slice buffer val_start val_len) array) val_len 0

-- The entry of the line that ends at `index`, with its colon at `delim`.
pub make_entry : List ℕ → ℕ → ℕ → ℕ → ProcEntry → Run ProcEntry
make_entry buffer line_start delim index old =
    let val_start = delim + 1 + leading_blanks (slice buffer (delim + 1) (index - (delim + 1))) in
    copy_key buffer line_start (cut (delim - line_start)) old.key >>= λ key.
    done (record {
      value = copy_value buffer val_start (cut (index - val_start)) old.value;
      key = key;
    })

-- The last argument is the array from the entry on: an index behind it is a fault.
pub put_entry : List ℕ → ℕ → ℕ → Scan → List ProcEntry → Run Scan
put_entry buffer delim index s [] = fault
put_entry buffer delim index s (old ∷ more) =
    make_entry buffer s.line_start delim index old >>= λ entry. done (record s {
      entries = set s.entries s.entry_index entry;
      count = s.count + 1;
      entry_index = s.entry_index + 1;
    })

pub add_entry : List ℕ → ℕ → ℕ → Scan → Run Scan
add_entry buffer delim index s = put_entry buffer delim index s (drop s.entry_index s.entries)

pub end_line : List ℕ → ℕ → Scan → Run Scan
end_line buffer index s =
    elim s.delim [ none ↦ done s | some delim ↦ add_entry buffer delim index s ] >>= λ s'.
    done (record s' { line_start = index + 1; delim = none })

-- The first colon of a line is kept.
abbrev pub first_colon : Option ℕ → ℕ → Option ℕ
first_colon none index = some index
first_colon (some delim) index = some delim

-- The body of the loop, at the byte `c`. A colon is no newline.
pub scan_byte : List ℕ → ℕ → ℕ → Scan → Run Scan
scan_byte buffer c index s =
    if c == b':'
    then done (record s { delim = first_colon s.delim index })
    else if c == 0x0a
    then end_line buffer index s
    else done s

pub scan_loop : List ℕ → List ℕ → ℕ → Scan → Run Scan
scan_loop buffer [] index s = done s
scan_loop buffer (c ∷ rest) index s =
    scan_byte buffer c index s >>= scan_loop buffer rest (index + 1)

abbrev pub first_scan : Option ℕ → Scan
first_scan none = record { line_start = 0; delim = none; entry_index = 0; count = 0; entries = [] }
first_scan (some p) = record {
  line_start = 0;
  delim = none;
  entry_index = 0;
  count = 0;
  entries = replicate 256 zero_entry;
}

-- The part behind the read, with the struct's pointer. A write through NULL is a fault.
pub scan_file :
    List ℕ → Option ℕ × Option Arena × Memory → Run (Option ProcFile × Option Arena × Memory)
scan_file buffer (none, arena, m) = fault
scan_file buffer (some p, arena, m) =
    let e = arena_alloc arena 8192 m in
    scan_loop buffer buffer 0 (first_scan e.0) >>= λ s.
    done (some (record { count = s.count; entries = s.entries }), e.1, e.2)

-- What is done with the buffer. `none` is a `read` that fails: its `-1` is then taken for the number of
-- bytes, and a buffer that is NULL makes it fail.
pub read_file :
    Option (List ℕ)
    → Option ℕ × Option Arena × Memory
    → Run (Option ProcFile × Option Arena × Memory)
read_file none out = fault
read_file (some []) (p, arena, m) = done (none, arena, m)
read_file (some (c ∷ text)) (none, arena, m) = fault
read_file (some (c ∷ text)) (some p, arena, m) = scan_file (c ∷ text) (arena_alloc arena 16 m)

-- `open path` is `none` if `open` fails, else what `read` returns for up to 4 KiB. The buffer is
-- the text that was read: nothing else is written to its block.
pub parse_proc_files :
    (List ℕ → Option (Option (List ℕ)))
    → Option (List ℕ)
    → Option Arena
    → Memory
    → Run (Option ProcFile × Option Arena × Memory)
parse_proc_files files none arena m = done (none, arena, m)
parse_proc_files files (some path) none m = done (none, none, m)
parse_proc_files files (some path) (some arena) m = elim (files path) [
  | none ↦ done (none, some arena, m)
  | some bytes ↦ read_file bytes (arena_alloc (some arena) 4096 m)
]
