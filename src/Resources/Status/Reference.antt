-- ===== src/Resources/Status/Reference.antt =====
-- What `process_read` reads from any file: a definition without the loop and the copies.
use agent_resources.Prelude.{
  not, leb, ◌==◌, ◌&&◌, ◌||◌, ℕ, zero, suc, ◌-◌, ◌+◌, ◌*◌, ◌%◌, ◌^◌, ◌<◌, ◌≡◌, ◌⊎◌, refl, arith,
  Option, some, none, inl, inr, List, [], ◌∷◌, ◌++◌, All, Bool, Bool-cases, true, false,
  if◌then◌else◌, ltb, Run, done, fault, ◌>>=◌, length, take, u64, ℤ, to_i8,
}
use agent_resources.Parse.{not_digit, parse_loop, parse_u64}
use agent_resources.Parse.Number.{decimal}
use agent_resources.Text.{codes, after, before, skip, starts_with, is_newline, overlay}
use agent_resources.Resources.{err_ok, err_io}
use agent_resources.Resources.Named.{named_value, named_value-none, named_values}
use agent_resources.Resources.Status.{
  Process, state_char, state_of, is_blank, copy_name, read_name, read_state, read_threads,
  status_entry, status_line, status_lines, process_read, ProcState, undefined, running, sleeping,
  disk_sleeping, tracing_stopped, zombie, dead, idle,
}

abbrev value_text : Option (List ℕ) → Option (List ℕ)
value_text none = none
value_text (some rest) = some (skip is_blank rest)

-- What stands behind the colon of a line and the blanks there, if there is a colon.
abbrev pub value_of : List ℕ → Option (List ℕ)
value_of line = value_text (after b':' line)

abbrev name_text : List ℕ → List ℕ
name_text value = before is_newline value

abbrev put_name : List ℕ → List ℕ → List ℕ
put_name value array = overlay (name_text value ++ 0 ∷ []) array

-- The letters that stand for a state, with the state that is stored for them.
abbrev known_letters : List (ℕ × ProcState)
known_letters =
    (b'R', running)
    ∷ (b'S', sleeping)
    ∷ (b'D', disk_sleeping)
    ∷ (b'T', sleeping)
    ∷ (b't', tracing_stopped)
    ∷ (b'Z', zombie)
    ∷ (b'X', dead)
    ∷ (b'I', idle)
    ∷ []

abbrev look_up : List (ℕ × ProcState) → ℕ → ProcState
look_up [] c = undefined
look_up ((x, s) ∷ letters) c = if c == x then s else look_up letters c

-- A to Z, and t.
abbrev can_stand : ℕ → Bool
can_stand c = (ltb 64 c && ltb c 91) || c == 116

abbrev first_or_zero : List ℕ → ℕ
first_or_zero [] = 0
first_or_zero (c ∷ value) = c

-- By the first byte that is a capital letter or `t`.
abbrev put_state : List ℕ → ProcState → ProcState
put_state value s = look_up known_letters (first_or_zero (skip (λ c. not (can_stand c)) value))

-- The digits that the first eight bytes of the value start with.
abbrev put_threads : List ℕ → ℤ → ℤ
put_threads value n = to_i8 (decimal 0 (before not_digit (take 8 value)) % 2 ^ 64)

-- A line for the name has a text of fewer than 16 bytes.
abbrev IsShortValue : Bool → Option (List ℕ) → Type 0
IsShortValue true (some value) = length (name_text value) < 16
IsShortValue _ _ = Unit

abbrev pub IsShortLine : List ℕ → Type 0
IsShortLine line = IsShortValue (starts_with (codes "Name:") line) (value_of line)

-- Each field by the lines of its name alone, of which the last one counts; the texts for the name are
-- copied over each other.
abbrev pub process_of : ℤ → List (List ℕ) → Process → Process
process_of pid lines p = record p {
  pid = pid;
  name = named_values value_of (codes "Name:") put_name lines p.name;
  state = named_values value_of (codes "State:") put_state lines p.state;
  num_threads = named_values value_of (codes "Threads:") put_threads lines p.num_threads;
}

parse_leading :
    (n v : ℕ) (value : List ℕ)
    → parse_loop (v % 2 ^ 64) n (value ++ 0 ∷ [])
      ≡ done (decimal v (before not_digit (take n value)) % 2 ^ 64)
unfolding parse_loop before
parse_leading zero v value = refl
parse_leading (suc n) v [] = refl
parse_leading (suc n) v (c ∷ value) = elim (Bool-cases (not_digit c)) [
  | inl e ↦ rw e refl
  | inr e ↦ rw (e, carried) (parse_leading n (v * 10 + (c - b'0')) value)
]
  where
    carried : u64 (v % 2 ^ 64 * 10 + (c - b'0')) ≡ (v * 10 + (c - b'0')) % 2 ^ 64
    carried = omega arith

parse_threads :
    (value : List ℕ)
    → parse_u64 (value ++ 0 ∷ []) 8 ≡ done (decimal 0 (before not_digit (take 8 value)) % 2 ^ 64)
unfolding parse_u64
parse_threads value = parse_leading 8 0 value

abbrev name_step : Bool → List ℕ → Process → Run Process
name_step named value p =
    if named
    then copy_name (name_text value) p.name >>= (λ n. done (record p { name = n }))
    else done p

name_cases :
    (line value : List ℕ) (p : Process)
    → let named = starts_with (codes "Name:") line in
      (IsShortValue named (some value)
        × (read_name line value p
            ≡ done (record p { name = named_value named (some value) put_name p.name })))
      ⊎ ((¬ IsShortValue named (some value)) × (read_name line value p ≡ fault))
unfolding read_name copy_name
name_cases line value p = at (starts_with (codes "Name:") line)
  where
    at :
        (named : Bool)
        → (IsShortValue named (some value)
            × (name_step named value p
                ≡ done (record p { name = named_value named (some value) put_name p.name })))
          ⊎ ((¬ IsShortValue named (some value)) × (name_step named value p ≡ fault))
    at false = inl (tt, refl)
    at true = elim (Bool-cases (ltb (length (name_text value)) 16)) [
      | inl e ↦ inl (ground arith, rw e refl)
      | inr e ↦ inr ((λ h. ground arith), rw e refl)
    ]

letter_test : (c : ℕ) → ((leb b'A' c && leb c b'Z') || c == b't') ≡ can_stand c
letter_test c = ground arith

first_letter :
    (value : List ℕ) → state_char value ≡ first_or_zero (skip (λ c. not (can_stand c)) value)
unfolding state_char skip
first_letter [] = refl
first_letter (c ∷ value) = elim (Bool-cases (can_stand c)) [
  | inl e ↦ rw (letter_test c, e) refl
  | inr e ↦ rw (letter_test c, e) (first_letter value)
]

stored_state : (value : List ℕ) (s : ProcState) → state_of (state_char value) ≡ put_state value s
unfolding state_of
stored_state value s = rw (first_letter value) refl

read_state_lem :
    (line value : List ℕ) (p : Process)
    → read_state line value p
      ≡ done (record p {
        state = named_value (starts_with (codes "State:") line) (some value) put_state p.state;
      })
unfolding read_state
read_state_lem line value p = elim (Bool-cases (starts_with (codes "State:") line)) [
  | inl e ↦ rw (e, stored_state value p.state) refl
  | inr e ↦ rw e refl
]

read_threads_lem :
    (line value : List ℕ) (p : Process)
    → read_threads line value p
      ≡ done (record p {
        num_threads =
            named_value
              (starts_with (codes "Threads:") line)
              (some value)
              put_threads
              p.num_threads;
      })
unfolding read_threads
read_threads_lem line value p = elim (Bool-cases (starts_with (codes "Threads:") line)) [
  | inl e ↦ rw (e, parse_threads value) refl
  | inr e ↦ rw e refl
]

-- What one line makes of the process, with the text behind its colon given.
abbrev read_value : List ℕ → Option (List ℕ) → Process → Process
read_value line value p = record p {
  name = named_value (starts_with (codes "Name:") line) value put_name p.name;
  state = named_value (starts_with (codes "State:") line) value put_state p.state;
  num_threads = named_value (starts_with (codes "Threads:") line) value put_threads p.num_threads;
}

entry_cases :
    (line value : List ℕ) (p : Process)
    → (IsShortValue (starts_with (codes "Name:") line) (some value)
        × (status_entry line value p ≡ done (read_value line (some value) p)))
      ⊎ ((¬ IsShortValue (starts_with (codes "Name:") line) (some value))
          × (status_entry line value p ≡ fault))
unfolding status_entry
entry_cases line value p = elim (name_cases line value p) [
  | inl (short, e) ↦
      inl (short, rw (e, read_state_lem line value _, read_threads_lem line value _) refl)
  | inr (long, e) ↦ inr (long, rw e refl)
]

short_none : (named : Bool) → IsShortValue named none
short_none false = tt
short_none true = tt

line_cases :
    (line : List ℕ) (p : Process)
    → (IsShortLine line × (status_line line p ≡ done (read_value line (value_of line) p)))
      ⊎ ((¬ IsShortLine line) × (status_line line p ≡ fault))
unfolding status_line
line_cases line p = at (after b':' line)
  where
    at :
        (o : Option (List ℕ))
        → (IsShortValue (starts_with (codes "Name:") line) (value_text o)
            × ((elim o [ none ↦ done p | some rest ↦ status_entry line (skip is_blank rest) p ])
                ≡ done (read_value line (value_text o) p)))
          ⊎ ((¬ IsShortValue (starts_with (codes "Name:") line) (value_text o))
              × ((elim o [ none ↦ done p | some rest ↦ status_entry line (skip is_blank rest) p ])
                  ≡ fault))
    at none = inl (
      short_none (starts_with (codes "Name:") line),
      rw
          (
            named_value-none (starts_with (codes "Name:") line) put_name p.name,
            named_value-none (starts_with (codes "State:") line) put_state p.state,
            named_value-none (starts_with (codes "Threads:") line) put_threads p.num_threads,
          )
          refl,
    )
    at (some rest) = entry_cases line (skip is_blank rest) p

lines_cases :
    (lines : List (List ℕ)) (p : Process)
    → (All IsShortLine lines × (status_lines lines p ≡ done (process_of p.pid lines p)))
      ⊎ ((¬ All IsShortLine lines) × (status_lines lines p ≡ fault))
unfolding status_lines
lines_cases [] p = inl (tt, refl)
lines_cases (line ∷ lines) p = elim (line_cases line p) [
  | inr (long, e) ↦ inr ((λ h. long h.0), rw e refl)
  | inl (short, e) ↦ elim (lines_cases lines (read_value line (value_of line) p)) [
    | inl (shorts, f) ↦ inl ((short, shorts), rw (e, f) refl)
    | inr (long, f) ↦ inr ((λ h. long h.1), rw (e, f) refl)
  ]
]

-- For any file of /proc/PID/status that can be opened: if each line for the name has a text of fewer
-- than 16 bytes, `process_read` stores the number that it was called with, and makes of each field
-- what the lines of its name make of it, one after the other: the text of a name is copied to the
-- array, with a NUL behind it; the state is the one that stands in the table for the value's first
-- capital letter or `t`, which is `sleeping` for S and for T, and `undefined` for a letter that is not
-- there; and the number of threads is what the digits at the front of the value stand for, at most
-- eight of them, as an `i8`. It returns `ERR_OK`, or `ERR_IO` if the file cannot be closed. Is any of
-- the names longer, it runs past the array.
pub process_read_reference :
    (pid : ℤ) (out : Process) (lines : List (List ℕ)) (closed : Bool)
    → (All IsShortLine lines
        × (process_read pid out (some lines) closed
            ≡ done ((if closed then err_ok else err_io), process_of pid lines out)))
      ⊎ ((¬ All IsShortLine lines) × (process_read pid out (some lines) closed ≡ fault))
unfolding process_read
process_read_reference pid out lines closed = elim (lines_cases lines (record out { pid = pid })) [
  | inl (short, e) ↦ inl (short, rw e refl)
  | inr (long, e) ↦ inr (long, rw e refl)
]
