-- ===== src/Parse/ProcFile/Overflow.antt =====
-- Where `parse_proc_files` runs past its arrays, for any text.
use agent_resources.Prelude.{
  ℕ, ◌+◌, ◌≤◌, ◌<◌, ◌≡◌, refl, sym, ◌∙◌, arith, Option, Option-cases, some, none, inl, inr, ◌⊎◌,
  List, [], ◌∷◌, ◌++◌, All, Bool-cases, true, false, if◌then◌else◌, ◌==◌, Run, done, fault, length,
  length-append, length-set,
}
use agent_resources.Memory.{Memory}
use agent_resources.Arena.{Arena}
use agent_resources.Arena.Valid.{IsValid}
use agent_resources.Arena.Alloc.{top}
use agent_resources.Parse.ProcFile.{
  ProcFile, Scan, end_line, first_colon, scan_byte, scan_loop, first_scan, parse_proc_files,
}
use agent_resources.Parse.ProcFile.Whole.{file_size, taken, read_taken}
use agent_resources.Parse.ProcFile.Lines.{
  lines_from, has_colon, HasKey, colon_lines, lines_of, Fits, Colon, first_has, Colon-other,
  Colon-first_colon,
}
use agent_resources.Parse.ProcFile.Stored.{stored, add_cases}

-- The lines that are still to be read have keys, and the array has room for their entries.
abbrev FitsBehind : ℕ → List (List ℕ) → Type 0
FitsBehind n lines = All HasKey lines × (n + colon_lines lines ≤ 256)

-- The scan is at `index`, behind the front of a line, and has stored `n` entries.
record Scans (s : Scan) (front : List ℕ) (index n : ℕ) : Type 0 where
  pub start : s.line_start + length front ≡ index
  pub colon : Colon s.line_start front s.delim
  pub stored : s.entry_index ≡ n
  pub counted : s.count ≡ n
  pub room : length s.entries ≡ 256
  pub few : n ≤ 256

abbrev entries_of : List ℕ → ℕ
entries_of line = if has_colon line then 1 else 0

-- What the end of a line does: it stores an entry or nothing, or it is a fault.
end_line_cases :
    (buffer : List ℕ) (index : ℕ) (s : Scan) (front : List ℕ) (n : ℕ)
    → Scans s front index n
    → (HasKey front
        × (n + entries_of front ≤ 256)
        × ((s' : Scan) × (end_line buffer index s ≡ done s')
            × Scans s' [] (index + 1) (n + entries_of front)))
      ⊎ ((HasKey front → n + entries_of front ≤ 256 → ⊥) × (end_line buffer index s ≡ fault))
unfolding end_line
end_line_cases buffer index s front n h = elim (Option-cases s.delim) [
  | inl e ↦
      let plain : has_colon front ≡ false = rw e at h.colon in
      rw (e, plain)
        (inl (
          first_has front plain,
          omega (arith, h.few),
          (
            record s { line_start = index + 1; delim = none },
            refl,
            record {
              start = omega arith;
              colon = refl;
              stored = omega (arith, h.stored);
              counted = omega (arith, h.counted);
              room = h.room;
              few = omega (arith, h.few);
            },
          ),
        ))
  | inr (delim, e) ↦
      let (has, le, first) : Colon s.line_start front (some delim) = rw e at h.colon in
      elim (add_cases buffer delim index s n h.stored h.room le) [
        | inl (room, key, (entry, r)) ↦
            rw (e, has, r)
              (inl (
                sym first ∙ key,
                omega (arith, room),
                (
                  record (stored s entry) { line_start = index + 1; delim = none },
                  refl,
                  record {
                    start = omega arith;
                    colon = refl;
                    stored = omega (arith, h.stored);
                    counted = omega (arith, h.counted);
                    room = length-set s.entries s.entry_index entry ∙ h.room;
                    few = omega (arith, room);
                  },
                ),
              ))
        | inr (inl full, r) ↦ rw (e, has, r) (inr ((λ k le. omega (arith, full, le)), refl))
        | inr (inr empty, r) ↦
            rw (e, has, r)
              (inr ((λ k le. let clash : true ≡ false = sym (sym first ∙ empty) ∙ k in cc), refl))
      ]
]

-- How the scan of the rest of a text ends, for the lines that are still to be read.
abbrev Ends : ℕ → List (List ℕ) → Run Scan → Type 0
Ends n lines r =
    (FitsBehind n lines × ((s : Scan) × (r ≡ done s) × (s.count ≡ n + colon_lines lines)))
    ⊎ ((¬ FitsBehind n lines) × (r ≡ fault))

-- A line that was read, in front of the rest.
Ends-line :
    (front : List ℕ) (lines : List (List ℕ)) (n : ℕ) {r : Run Scan}
    → HasKey front
    → Ends (n + entries_of front) lines r
    → Ends n (front ∷ lines) r
Ends-line front lines n key (inl ((keys, room), (s, e, count))) =
    inl (((key, keys), omega (arith, room)), (s, e, omega (arith, count)))
Ends-line front lines n key (inr (bad, e)) =
    inr ((λ fits. bad (fits.0.1, omega (arith, fits.1))), e)

scan_loop-Ends :
    (buffer rest : List ℕ) (s : Scan) (front : List ℕ) (index n : ℕ)
    → Scans s front index n
    → Ends n (lines_from front rest) (scan_loop buffer rest index s)
unfolding scan_loop scan_byte end_line
scan_loop-Ends buffer [] s front index n h =
    inl ((tt, omega (arith, h.few)), (s, refl, omega (arith, h.counted)))
scan_loop-Ends buffer (c ∷ rest) s front index n h = elim (Bool-cases (c == b':')) [
  | inl e ↦
      let not_end : (c == 0x0a) ≡ false = ground arith in
      rw (e, not_end)
        (scan_loop-Ends buffer rest (record s { delim = first_colon s.delim index })
          (front ++ c ∷ []) (index + 1) n
          (record {
            start = omega (arith, h.start, length-append front (c ∷ []));
            colon = Colon-first_colon s.line_start index front s.delim c e h.start h.colon;
            stored = h.stored;
            counted = h.counted;
            room = h.room;
            few = h.few;
          }))
  | inr e ↦ elim (Bool-cases (c == 0x0a)) [
    | inl f ↦
        rw (e, f)
          (elim (end_line_cases buffer index s front n h) [
            | inl (key, room, (s1, r, h1)) ↦ rw r (
                Ends-line front (lines_from [] rest) n key
                  (scan_loop-Ends buffer rest s1 [] (index + 1) (n + entries_of front) h1))
            | inr (bad, r) ↦ rw r (inr ((λ fits. bad fits.0.0 (omega (arith, fits.1))), refl))
          ])
    | inr f ↦
        rw (e, f)
          (scan_loop-Ends buffer rest s (front ++ c ∷ []) (index + 1) n (record {
            start = omega (arith, h.start, length-append front (c ∷ []));
            colon = Colon-other s.line_start front s.delim c e h.colon;
            stored = h.stored;
            counted = h.counted;
            room = h.room;
            few = h.few;
          }))
  ]
]

-- For a path of a file whose bytes, at least one, are read, and a valid arena with room for the
-- 12,304 bytes that the function takes: if no line of the text starts with a colon and at most 256
-- have one, where a line is one that ends with a newline, then `parse_proc_files` ends without a
-- fault, with as many entries as lines that have a colon. Otherwise it runs past an array: a key of
-- no bytes makes the length of its copy wrap around, and the 257th entry lies behind the array.
pub parse_proc_files_overflow :
    (files : List ℕ → Option (Option (List ℕ))) (path text : List ℕ) (a : Arena) (m : Memory)
    → files path ≡ some (some text)
    → 0 < length text
    → IsValid a
    → a.current_position + file_size ≤ a.capacity
    → (Fits text
        × ((file : ProcFile) × (m' : Memory) × (parse_proc_files files (some path) (some a) m
              ≡ done (some file, some (taken a), m'))
            × (file.count ≡ colon_lines (lines_of text))))
      ⊎ ((¬ Fits text) × (parse_proc_files files (some path) (some a) m ≡ fault))
unfolding parse_proc_files
parse_proc_files_overflow files path text a m f pos v room =
    let (m', r) = read_taken a m text v room pos in
    elim (scan_loop-Ends text text (first_scan (some (top a + 4096 + 16))) [] 0 0 (record {
      start = refl;
      colon = refl;
      stored = refl;
      counted = refl;
      room = refl;
      few = omega arith;
    })) [
      | inl (fits, (s, e, count)) ↦ inl (
        (fits.0, omega (arith, fits.1)),
        (
          record { count = s.count; entries = s.entries },
          m',
          rw (f, parse_proc_files, r, e) refl,
          omega (arith, count),
        ),
      )
      | inr (bad, e) ↦
          inr ((λ fits. bad (fits.0, omega (arith, fits.1))), rw (f, parse_proc_files, r, e) refl)
    ]
