-- ===== src/Resources/Status/Whole.antt =====
-- What `process_read` makes of a whole file.
use agent_resources.Prelude.{
  ℕ, ◌<◌, ◌%◌, ◌^◌, ◌≡◌, ◌≢◌, refl, arith, Option-cases, some, List, [], ◌∷◌, ◌++◌, All, Bool, true,
  false, inl, inr, done, length, ltb, ◌==◌, if◌then◌else◌, to_i8, ℤ, ◌∙◌, ap,
}
use mathlib.Core.List.{append_assoc, append-nil}
use agent_resources.Parse.Number.{IsDigit, decimal}
use agent_resources.Text.{
  codes, after, starts_with, overlay, c_string, is_newline, before-append, c_string-append,
}
use agent_resources.Resources.{err_ok, err_io}
use agent_resources.Resources.Status.{
  Process, ProcState, undefined, copy_name, is_blank, read_name, read_state, read_threads,
  status_entry, status_line, status_lines, process_read,
}
use agent_resources.Resources.Status.Laws.{
  letter, stored_as, entry, IsName, AreBlank, status_line-entry, status_line-state,
  status_line-threads,
}

-- A line that `process_read` does not look at.
abbrev pub Other : List ℕ → Type 0
Other line =
    (starts_with (codes "Name:") line ≡ false)
    × (starts_with (codes "State:") line ≡ false)
    × (starts_with (codes "Threads:") line ≡ false)

status_line-Other : (line : List ℕ) (p : Process) → Other line → status_line line p ≡ done p
unfolding status_line status_entry read_name read_state read_threads
status_line-Other line p o = elim (Option-cases (after b':' line)) [
  | inl e ↦ rw (e, status_line) refl
  | inr (rest, e) ↦ rw (e, status_line, o.0, o.1, o.2) refl
]

status_lines-Other :
    (skipped lines : List (List ℕ)) (p : Process)
    → All Other skipped
    → status_lines (skipped ++ lines) p ≡ status_lines lines p
unfolding status_lines
status_lines-Other [] lines p o = refl
status_lines-Other (line ∷ skipped) lines p o =
    rw (status_line-Other line p o.0, status_lines) (status_lines-Other skipped lines p o.1)

-- A name that fits: shorter than 16 bytes, no newline and no NUL, and no blank at its start.
abbrev pub IsShort : ℕ → List ℕ → Type 0
IsShort c cs =
    (is_blank c ≡ false)
    × All (λ x. is_newline x ≡ false) (c ∷ cs)
    × All (λ x. (x == 0) ≡ false) (c ∷ cs)
    × (length cs < 15)

heading-IsName : IsName (codes "Name")
heading-IsName = (refl, (refl, (refl, (refl, tt))))

status_line-name :
    (blanks : List ℕ) (c : ℕ) (cs : List ℕ) (p : Process)
    → AreBlank blanks
    → IsShort c cs
    → status_line (entry (codes "Name") blanks c (cs ++ 0x0a ∷ [])) p
      ≡ done (record p { name = overlay ((c ∷ cs) ++ 0 ∷ []) p.name })
unfolding status_entry read_name read_state read_threads starts_with copy_name
status_line-name blanks c cs p b s =
    status_line-entry (codes "Name") blanks c (cs ++ 0x0a ∷ []) p heading-IsName b s.0
    ∙ rw (before-append is_newline (c ∷ cs) 0x0a [] s.1 refl, fits) refl
  where
    fits : ltb (length (c ∷ cs)) 16 ≡ true
    fits = ground (arith, s.3)

-- From a file with a line for the name, one for the state and one for the number of threads, in
-- this order, each with its value behind blanks, and other lines before, between and behind them,
-- where the name has 1 to 15 bytes, no newline, no NUL and no blank at its start, the state's value
-- starts with the letter of a state, and the number of threads has at most seven digits:
-- `process_read` stores the number that it was called with, a name that reads as the one in the file,
-- the state of the letter, but a sleeping one for a stopped one, and the number of threads as an
-- `i8`. It returns `ERR_OK`, or `ERR_IO` if the file cannot be closed.
pub process_read_lem :
    (pid : ℤ) (out : Process) (closed : Bool) (skipped skipped' skipped'' rest : List (List ℕ))
    (blanks blanks' blanks'' : List ℕ) (c : ℕ) (cs : List ℕ) (s : ProcState) (value : List ℕ)
    (t : ℕ) (ts : List ℕ)
    → All Other skipped
    → All Other skipped'
    → All Other skipped''
    → All Other rest
    → AreBlank blanks
    → AreBlank blanks'
    → AreBlank blanks''
    → IsShort c cs
    → s ≢ undefined
    → All IsDigit (t ∷ ts)
    → length ts < 7
    → (p : Process) × (process_read pid out
          (some (
            skipped
            ++ entry (codes "Name") blanks c (cs ++ 0x0a ∷ [])
              ∷ (skipped'
                  ++ entry (codes "State") blanks' (letter s) value
                    ∷ (skipped'' ++ entry (codes "Threads") blanks'' t (ts ++ 0x0a ∷ []) ∷ rest))))
          closed
        ≡ done ((if closed then err_ok else err_io), p))
      × (c_string p.name ≡ done (c ∷ cs))
      × (p.pid ≡ pid)
      × (p.state ≡ stored_as s)
      × (p.num_threads ≡ to_i8 (decimal 0 (t ∷ ts) % 2 ^ 64))
unfolding process_read status_lines
process_read_lem pid out closed skipped skipped' skipped'' rest blanks blanks' blanks'' c cs s value
      t ts o o' o'' r b b' b'' short known digits few =
    let p0 = record out { pid = pid } in
    let p1 = record p0 { name = overlay ((c ∷ cs) ++ 0 ∷ []) out.name } in
    let p2 = record p1 { state = stored_as s } in
    let p3 = record p2 { num_threads = to_i8 (decimal 0 (t ∷ ts) % 2 ^ 64) } in
    (
      p3,
      rw
          (
            status_lines-Other skipped _ p0 o,
            status_lines,
            status_line-name blanks c cs p0 b short,
            status_lines-Other skipped' _ p1 o',
            status_lines,
            status_line-state blanks' s value p1 b' known,
            status_lines-Other skipped'' _ p2 o'',
            status_lines,
            status_line-threads blanks'' t ts p2 b'' digits few,
            rest_skipped p3,
          )
          refl,
      ap c_string (append_assoc (c ∷ cs) (0 ∷ []) _) ∙ c_string-append (c ∷ cs) _ short.2,
      refl,
      refl,
      refl,
    )
  where
    rest_skipped : (p : Process) → status_lines rest p ≡ done p
    rest_skipped p = rw (append-nil rest) at (status_lines-Other rest [] p r)
