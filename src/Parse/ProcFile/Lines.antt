-- ===== src/Parse/ProcFile/Lines.antt =====
-- The lines of a file's text, and where the first colon of a line stands.
use agent_resources.Prelude.{
  ℕ, ◌+◌, ◌≤◌, ◌≡◌, refl, arith, Option, some, none, inl, inr, List, [], ◌∷◌, ◌++◌, All, Bool,
  Bool-cases, true, false, if◌then◌else◌, ◌==◌, ◌||◌, length,
}
use agent_resources.Parse.ProcFile.{first_colon}

-- The lines of a text that end with a newline, the first one behind what is given.
abbrev pub lines_from : List ℕ → List ℕ → List (List ℕ)
lines_from front [] = []
lines_from front (c ∷ text) =
    if c == 0x0a then front ∷ lines_from [] text else lines_from (front ++ c ∷ []) text

abbrev pub has_colon : List ℕ → Bool
has_colon [] = false
has_colon (c ∷ line) = c == b':' || has_colon line

abbrev pub starts_with_colon : List ℕ → Bool
starts_with_colon [] = false
starts_with_colon (c ∷ line) = c == b':'

abbrev pub HasKey : List ℕ → Type 0
HasKey line = starts_with_colon line ≡ false

abbrev pub colon_lines : List (List ℕ) → ℕ
colon_lines [] = 0
colon_lines (line ∷ lines) = (if has_colon line then 1 else 0) + colon_lines lines

-- The lines of the text, its last one only if it ends with a newline.
abbrev pub lines_of : List ℕ → List (List ℕ)
lines_of text = lines_from [] text

-- No line starts with a colon, and at most 256 have one.
abbrev pub Fits : List ℕ → Type 0
Fits text = All HasKey (lines_of text) × (colon_lines (lines_of text) ≤ 256)

or-false : (b : Bool) → (b || false) ≡ b
or-false true = refl
or-false false = refl

has_colon-append :
    (front : List ℕ) (c : ℕ) → has_colon (front ++ c ∷ []) ≡ (has_colon front || c == b':')
has_colon-append [] c = or-false (c == b':')
has_colon-append (x ∷ front) c = elim (Bool-cases (x == b':')) [
  | inl e ↦ rw e refl
  | inr e ↦ rw e (has_colon-append front c)
]

-- What is known of the place of the line's first colon.
abbrev pub Colon : ℕ → List ℕ → Option ℕ → Type 0
Colon start front none = has_colon front ≡ false
Colon start front (some delim) =
    (has_colon front ≡ true) × (start ≤ delim) × ((delim == start) ≡ starts_with_colon front)

first_behind :
    (front : List ℕ) (c : ℕ)
    → (c == b':') ≡ false
    → starts_with_colon (front ++ c ∷ []) ≡ starts_with_colon front
first_behind [] c e = e
first_behind (x ∷ front) c e = refl

-- A line that starts with a colon has one.
pub first_has : (front : List ℕ) → has_colon front ≡ false → starts_with_colon front ≡ false
first_has [] h = refl
first_has (x ∷ front) h = elim (Bool-cases (x == b':')) [
  | inl e ↦ let clash : true ≡ false = rw e at h in cc
  | inr e ↦ e
]

pub Colon-other :
    (start : ℕ) (front : List ℕ) (d : Option ℕ) (c : ℕ)
    → (c == b':') ≡ false
    → Colon start front d
    → Colon start (front ++ c ∷ []) d
Colon-other start front none c e h = rw (has_colon-append front c, h) e
Colon-other start front (some d) c e (h, le, k) =
    (rw (has_colon-append front c, h) refl, le, rw (first_behind front c e) k)

pub Colon-first_colon :
    (start index : ℕ) (front : List ℕ) (d : Option ℕ) (c : ℕ)
    → (c == b':') ≡ true
    → start + length front ≡ index
    → Colon start front d
    → Colon start (front ++ c ∷ []) (first_colon d index)
Colon-first_colon start index [] none c e i h =
    (rw e refl, omega (arith, i), rw e (ground (arith, i)))
Colon-first_colon start index (x ∷ front) none c e i h = (
  rw (has_colon-append (x ∷ front) c, h, e) refl,
  omega (arith, i),
  rw (first_has (x ∷ front) h) later,
)
  where
    later : (index == start) ≡ false
    later = ground (arith, i)
Colon-first_colon start index [] (some d) c e i (h, le, k) = cc
Colon-first_colon start index (x ∷ front) (some d) c e i (h, le, k) =
    (rw (has_colon-append (x ∷ front) c, h) refl, le, k)
