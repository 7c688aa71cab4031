-- ===== src/Parse/ProcFile/Entry.antt =====
-- One entry of `parse_proc_files`: what its key and its value read as.
use agent_resources.Prelude.{
  ℕ, zero, suc, ◌+◌, ◌-◌, ◌≤◌, ◌<◌, ◌≡◌, refl, ap, ◌∙◌, arith, List, [], ◌∷◌, ◌++◌, All, Bool, true,
  false, done, ◌==◌, length, length-append, drop-length-append, drop-replicate, take, set,
  replicate, take-append, length-take,
}
use mathlib.Core.List.{append_assoc}
use agent_resources.Text.{overlay, c_string}
use agent_resources.Parse.ProcFile.{
  ProcEntry, zero_entry, is_blank, cut, slice, leading_blanks, copy_key, make_entry,
}

-- A line of the file. The value does not start with a blank.
pub record Line : Type 0 where
  pub key : List ℕ
  pub blanks : List ℕ
  pub value : List ℕ

-- Behind the key.
abbrev pub tail_of : Line → List ℕ
tail_of l = b':' ∷ (l.blanks ++ l.value)

abbrev pub line_text : Line → List ℕ
line_text l = l.key ++ tail_of l

abbrev pub IsText : List ℕ → Type 0
IsText s = All (λ c. (c == 0) ≡ false) s

abbrev pub starts_blank : List ℕ → Bool
starts_blank [] = false
starts_blank (c ∷ s) = is_blank c

pub record IsLine (l : Line) : Type 0 where
  pub key_pos : 0 < length l.key
  pub key_short : length l.key < 16
  pub key_text : IsText l.key
  pub key_plain : All (λ c. ((c == b':') ≡ false) × ((c == 0x0a) ≡ false)) l.key
  pub blanks_blank : All (λ c. is_blank c ≡ true) l.blanks
  pub value_start : starts_blank l.value ≡ false
  pub value_short : length l.value < 16
  pub value_text : IsText l.value
  pub value_plain : All (λ c. (c == 0x0a) ≡ false) l.value

-- All but the last byte.
abbrev pub but_last : List ℕ → List ℕ
but_last s = take (length s - 1) s

-- The bytes that stand between what is before and what is behind.
pub slice_between :
    (before between behind : List ℕ) (start n : ℕ)
    → start ≡ length before
    → n ≤ length between
    → slice (before ++ (between ++ behind)) start n ≡ take n between
slice_between before between behind start n e h =
    rw (e, drop-length-append before (between ++ behind)) (take-append n between behind h)

pub leading_blanks-append :
    (blanks value : List ℕ)
    → All (λ c. is_blank c ≡ true) blanks
    → starts_blank value ≡ false
    → leading_blanks (blanks ++ value) ≡ length blanks
unfolding leading_blanks
leading_blanks-append [] [] h e = refl
leading_blanks-append [] (c ∷ value) h e = rw e refl
leading_blanks-append (c ∷ blanks) value h e =
    rw (h.0, leading_blanks-append blanks value h.1 e) (omega arith)

-- A NUL at or behind the end of a text that a NUL ends leaves the text.
c_string-set :
    (s rest : List ℕ) (k : ℕ)
    → IsText s
    → length s ≤ k
    → c_string (set (s ++ 0 ∷ rest) k 0) ≡ done s
unfolding c_string
c_string-set [] rest zero t h = refl
c_string-set [] rest (suc k) t h = refl
c_string-set (c ∷ s) rest zero t h = absurd (omega arith)
c_string-set (c ∷ s) rest (suc k) t h = rw (t.0, c_string-set s rest k t.1 (omega arith)) refl

-- What a text reads as that is copied to an array of 16 zeros, with a NUL behind it.
c_string-copied :
    (s : List ℕ) (k : ℕ)
    → IsText s
    → length s ≤ k
    → length s < 16
    → c_string (set (overlay s (replicate 16 0)) k 0) ≡ done s
c_string-copied s k t h short =
    rw (drop-replicate {A = ℕ} 0 16 (length s) short) (c_string-set s _ k t h)

take-length : (xs : List ℕ) → take (length xs) xs ≡ xs
take-length [] = refl
take-length (x ∷ xs) = ap (λ t. x ∷ t) (take-length xs)

not_zero : (n : ℕ) → 0 < n → (n == 0) ≡ false
not_zero n h = ground arith

take-IsText : (n : ℕ) (xs : List ℕ) → IsText xs → IsText (take n xs)
take-IsText zero xs h = tt
take-IsText (suc n) [] h = tt
take-IsText (suc n) (x ∷ xs) h = (h.0, take-IsText n xs h.1)

cut_short : (n : ℕ) → n < 16 → cut n ≡ n
cut_short n h = ground arith

-- The buffer around a line.
abbrev pub placed : List ℕ → Line → List ℕ → List ℕ
placed before l behind = before ++ (l.key ++ b':' ∷ (l.blanks ++ (l.value ++ behind)))

abbrev pub line_length : Line → ℕ
line_length l = length l.key + 1 + length l.blanks + length l.value

-- What the program reads in an entry.
abbrev pub ReadsAs : ProcEntry → Line → Type 0
ReadsAs e l = (c_string e.key ≡ done (but_last l.key)) × (c_string e.value ≡ done l.value)

module _ (before : List ℕ) (l : Line) (behind : List ℕ) (v : IsLine l) where
  key_slice :
      (n : ℕ) → n ≤ length l.key → slice (placed before l behind) (length before) n ≡ take n l.key
  key_slice n h = slice_between before l.key _ (length before) n refl h

  blanks_slice :
      slice
        (placed before l behind)
        (length before + length l.key + 1)
        (length l.blanks + length l.value)
      ≡ l.blanks ++ l.value
  blanks_slice =
      let e : placed before l behind
          ≡ (before ++ (l.key ++ b':' ∷ [])) ++ ((l.blanks ++ l.value) ++ behind) =
        simp append_assoc in
      rw e (
        slice_between (before ++ (l.key ++ b':' ∷ [])) (l.blanks ++ l.value) behind _ _
          (omega
            (arith, length-append before (l.key ++ b':' ∷ []), length-append l.key (b':' ∷ [])))
          (omega (arith, length-append l.blanks l.value))
        ∙ rw (← length-append l.blanks l.value) (take-length (l.blanks ++ l.value)))

  value_slice :
      slice
        (placed before l behind)
        (length before + length l.key + 1 + length l.blanks)
        (length l.value)
      ≡ l.value
  value_slice =
      let e : placed before l behind
          ≡ (before ++ (l.key ++ b':' ∷ l.blanks)) ++ (l.value ++ behind) =
        simp append_assoc in
      rw e (
        slice_between (before ++ (l.key ++ b':' ∷ l.blanks)) l.value behind _ _
          (omega (
            arith,
            length-append before (l.key ++ b':' ∷ l.blanks),
            length-append l.key (b':' ∷ l.blanks),
          ))
          (omega arith)
        ∙ take-length l.value)

  pub make_entry_lem :
      (e : ProcEntry) × (make_entry
          (placed before l behind)
          (length before)
          (length before + length l.key)
          (length before + line_length l)
          zero_entry
        ≡ done e)
      × ReadsAs e l
  unfolding make_entry copy_key
  make_entry_lem = (
    record {
      value = set (overlay l.value (replicate 16 0)) (length l.value) 0;
      key = set (overlay (but_last l.key) (replicate 16 0)) (length l.key) 0;
    },
    rw
        (
          to_end,
          blanks_slice,
          leading_blanks-append l.blanks l.value v.blanks_blank v.value_start,
          key_cut,
          key_pos,
          key_slice (length l.key - 1) (omega arith),
          behind_blanks,
          cut_short (length l.value) v.value_short,
          value_slice,
        )
        refl,
    (
      c_string-copied (but_last l.key) (length l.key)
          (take-IsText (length l.key - 1) l.key v.key_text)
          (omega (arith, length-take (length l.key - 1) l.key))
          (omega (arith, length-take (length l.key - 1) l.key, v.key_short)),
      c_string-copied l.value (length l.value) v.value_text (omega arith) v.value_short,
    ),
  )
    where
      to_end :
          length before + line_length l - (length before + length l.key + 1)
          ≡ length l.blanks + length l.value
      to_end = omega arith

      behind_blanks :
          length before + line_length l - (length before + length l.key + 1 + length l.blanks)
          ≡ length l.value
      behind_blanks = omega arith

      key_cut : cut (length before + length l.key - length before) ≡ length l.key
      key_cut =
          let e : length before + length l.key - length before ≡ length l.key = omega arith in
          rw e (cut_short (length l.key) v.key_short)

      key_pos : (length l.key == 0) ≡ false
      key_pos = not_zero (length l.key) v.key_pos
