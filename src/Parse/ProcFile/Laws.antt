-- ===== src/Parse/ProcFile/Laws.antt =====
-- The loop of `parse_proc_files`, and the whole of it.
use agent_resources.Prelude.{
  ℕ, zero, suc, ◌+◌, ◌-◌, ◌≤◌, ◌≡◌, refl, ap, ◌∙◌, arith, none, some, List, [], ◌∷◌, ◌++◌, All,
  true, false, done, ◌==◌, length, length-append, drop-length-append, set, replicate, Bool-cases,
  inl, inr,
}
use mathlib.Core.List.{append_assoc, append-nil}
use agent_resources.Parse.ProcFile.{
  ProcEntry, zero_entry, Scan, is_blank, add_entry, end_line, put_entry, scan_byte, scan_loop,
}
use agent_resources.Parse.ProcFile.Entry.{
  Line, IsLine, line_length, placed, ReadsAs, make_entry_lem,
}

abbrev pub file_text : List Line → List ℕ
file_text [] = []
file_text (l ∷ ls) = l.key ++ b':' ∷ (l.blanks ++ (l.value ++ 0x0a ∷ file_text ls))

-- The entries read as the lines do, one for each.
abbrev pub AllRead : List ProcEntry → List Line → Type 0
AllRead [] [] = Unit
AllRead (e ∷ es) (l ∷ ls) = ReadsAs e l × AllRead es ls
AllRead [] (l ∷ ls) = ⊥
AllRead (e ∷ es) [] = ⊥

-- Between two lines: what has been written, and the entries that are left.
abbrev pub between : ℕ → List ProcEntry → ℕ → Scan
between start written n = record {
  line_start = start;
  delim = none;
  entry_index = length written;
  count = length written;
  entries = written ++ replicate n zero_entry;
}

plus_zero : (i : ℕ) → i + 0 ≡ i
plus_zero i = omega arith

minus_zero : (n : ℕ) → n - 0 ≡ n
minus_zero n = omega arith

plus_suc : (i n : ℕ) → i + 1 + n ≡ i + suc n
plus_suc i n = omega arith

-- In a key nothing happens.
key_run :
    (buffer xs ys : List ℕ) (i : ℕ) (s : Scan)
    → All (λ c. ((c == b':') ≡ false) × ((c == 0x0a) ≡ false)) xs
    → scan_loop buffer (xs ++ ys) i s ≡ scan_loop buffer ys (i + length xs) s
unfolding scan_loop scan_byte
key_run buffer [] ys i s h = rw (plus_zero i)
key_run buffer (c ∷ xs) ys i s h =
    rw (h.0.0, h.0.1) (rw (plus_suc i (length xs)) at (key_run buffer xs ys (i + 1) s h.1))

-- Behind the colon nothing happens either, up to the newline: a further colon is not looked at.
value_byte :
    (buffer : List ℕ) (c i d : ℕ) (s : Scan)
    → (c == 0x0a) ≡ false
    → scan_byte buffer c i (record s { delim = some d }) ≡ done (record s { delim = some d })
unfolding scan_byte
value_byte buffer c i d s h = elim (Bool-cases (c == b':')) [
  | inl colon ↦ rw colon refl
  | inr other ↦ rw (other, h) refl
]

value_run :
    (buffer xs ys : List ℕ) (i d : ℕ) (s : Scan)
    → All (λ c. (c == 0x0a) ≡ false) xs
    → scan_loop buffer (xs ++ ys) i (record s { delim = some d })
      ≡ scan_loop buffer ys (i + length xs) (record s { delim = some d })
unfolding scan_loop
value_run buffer [] ys i d s h = rw (plus_zero i)
value_run buffer (c ∷ xs) ys i d s h =
    rw (value_byte buffer c i d s h.0)
      (rw (plus_suc i (length xs)) at (value_run buffer xs ys (i + 1) d s h.1))

-- The entry that is written next.
set-length-append :
    (written rest : List ProcEntry) (old e : ProcEntry)
    → set (written ++ old ∷ rest) (length written) e ≡ (written ++ e ∷ []) ++ rest
set-length-append [] rest old e = refl
set-length-append (x ∷ written) rest old e =
    ap (λ (t : List ProcEntry). x ∷ t) (set-length-append written rest old e)

blank_plain : (xs : List ℕ) → All (λ c. is_blank c ≡ true) xs → All (λ c. (c == 0x0a) ≡ false) xs
blank_plain [] h = tt
blank_plain (c ∷ xs) h = (plain c h.0, blank_plain xs h.1)
  where
    plain : (c : ℕ) → is_blank c ≡ true → (c == 0x0a) ≡ false
    plain c h = ground arith

-- The state behind the colon of a line.
abbrev inside : ℕ → ℕ → List ProcEntry → ℕ → Scan
inside start d written n = record (between start written n) { delim = some d }

-- Up to the newline of a line.
line_run :
    (before : List ℕ) (l : Line) (rest : List ℕ) (written : List ProcEntry) (n : ℕ)
    (buffer : List ℕ)
    → IsLine l
    → scan_loop buffer
        (placed [] l (0x0a ∷ rest))
        (length before)
        (between (length before) written n)
      ≡ scan_loop buffer
          (0x0a ∷ rest)
          (length before + line_length l)
          (inside (length before) (length before + length l.key) written n)
line_run before l rest written n buffer v =
    let i = length before in
    let d = i + length l.key in
    let at_colon =
      key_run buffer l.key (b':' ∷ (l.blanks ++ (l.value ++ 0x0a ∷ rest))) i (between i written n)
        v.key_plain in
    let colon : scan_loop buffer (b':' ∷ (l.blanks ++ (l.value ++ 0x0a ∷ rest))) d
          (between i written n)
        ≡ scan_loop buffer (l.blanks ++ (l.value ++ 0x0a ∷ rest)) (d + 1) (inside i d written n) =
      unfold scan_loop scan_byte in refl in
    let at_value =
      value_run buffer l.blanks (l.value ++ 0x0a ∷ rest) (d + 1) d (between i written n)
        (blank_plain l.blanks v.blanks_blank) in
    let at_end =
      value_run buffer l.value (0x0a ∷ rest) (d + 1 + length l.blanks) d (between i written n)
        v.value_plain in
    let sum : d + 1 + length l.blanks + length l.value ≡ i + line_length l = omega arith in
    at_colon ∙ colon ∙ at_value ∙ (rw sum at at_end)

-- The newline: the entry is written.
newline_run :
    (before : List ℕ) (l : Line) (rest : List ℕ) (written : List ProcEntry) (n : ℕ)
    → IsLine l
    → (e : ProcEntry) × (scan_byte
          (placed before l (0x0a ∷ rest))
          0x0a
          (length before + line_length l)
          (inside (length before) (length before + length l.key) written (suc n))
        ≡ done (between (length before + line_length l + 1) (written ++ e ∷ []) n))
      × ReadsAs e l
unfolding scan_byte end_line add_entry put_entry
newline_run before l rest written n v =
    let (e, f, r) = make_entry_lem before l (0x0a ∷ rest) v in
    (
      e,
      rw
          (
            drop-length-append written (replicate (suc n) zero_entry),
            f,
            set-length-append written (replicate n zero_entry) zero_entry e,
            ← counted e,
          )
          refl,
      r,
    )
  where
    counted : (e : ProcEntry) → length (written ++ e ∷ []) ≡ length written + 1
    counted e = omega (arith, length-append written (e ∷ []))

-- One line.
line_step :
    (before : List ℕ) (l : Line) (ls : List Line) (written : List ProcEntry) (n : ℕ)
    → IsLine l
    → let buffer = before ++ file_text (l ∷ ls) in
      let next = length before + line_length l + 1 in
      (e : ProcEntry) × (scan_loop buffer
          (file_text (l ∷ ls))
          (length before)
          (between (length before) written (suc n))
        ≡ scan_loop buffer (file_text ls) next (between next (written ++ e ∷ []) n))
      × ReadsAs e l
line_step before l ls written n v =
    let (e, f, r) = newline_run before l (file_text ls) written n v in
    let i = length before + line_length l in
    let ended : scan_loop (before ++ file_text (l ∷ ls)) (0x0a ∷ file_text ls) i
          (inside (length before) (length before + length l.key) written (suc n))
        ≡ scan_loop (before ++ file_text (l ∷ ls)) (file_text ls) (i + 1)
            (between (i + 1) (written ++ e ∷ []) n) =
      unfold scan_loop in rw f refl in
    (
      e,
      line_run before l (file_text ls) written (suc n) (before ++ file_text (l ∷ ls)) v ∙ ended,
      r,
    )

-- The text up to and with the newline of a line.
abbrev with_line : List ℕ → Line → List ℕ
with_line before l = before ++ (l.key ++ b':' ∷ (l.blanks ++ (l.value ++ 0x0a ∷ [])))

length-with_line :
    (before : List ℕ) (l : Line) → length (with_line before l) ≡ length before + line_length l + 1
length-with_line before l = omega (
  arith,
  length-append before (l.key ++ b':' ∷ (l.blanks ++ (l.value ++ 0x0a ∷ []))),
  length-append l.key (b':' ∷ (l.blanks ++ (l.value ++ 0x0a ∷ []))),
  length-append l.blanks (l.value ++ 0x0a ∷ []),
  length-append l.value (0x0a ∷ []),
)

with_line-append :
    (before : List ℕ) (l : Line) (ls : List Line)
    → with_line before l ++ file_text ls ≡ before ++ file_text (l ∷ ls)
with_line-append before l ls = simp append_assoc

joined :
    (last : ℕ) (written es : List ProcEntry) (e : ProcEntry) (n k : ℕ)
    → between last ((written ++ e ∷ []) ++ es) (n - k)
      ≡ between last (written ++ e ∷ es) (suc n - suc k)
joined last written es e n k =
    let less : suc n - suc k ≡ n - k = omega arith in
    rw (less, append_assoc written (e ∷ []) es) refl

-- All the lines.
pub scan_lines :
    (lines : List Line) (before : List ℕ) (written : List ProcEntry) (n : ℕ)
    → length lines ≤ n
    → All IsLine lines
    → (es : List ProcEntry) × (last : ℕ) × (scan_loop
          (before ++ file_text lines)
          (file_text lines)
          (length before)
          (between (length before) written n)
        ≡ done (between last (written ++ es) (n - length lines)))
      × AllRead es lines
scan_lines [] before written n h v =
    ([], length before, unfold scan_loop in rw (append-nil, minus_zero n) refl, tt)
scan_lines (l ∷ ls) before written zero h v = absurd (omega arith)
scan_lines (l ∷ ls) before written (suc n) h v =
    let (e, step, r) = line_step before l ls written n v.0 in
    let (es, last, rest, rs) =
      rw (length-with_line before l, with_line-append before l ls) at
        (scan_lines ls (with_line before l) (written ++ e ∷ []) n (omega arith) v.1) in
    (e ∷ es, last, step ∙ rest ∙ ap done (joined last written es e n (length ls)), (r, rs))
