-- ===== src/Parse/ProcFile/Stored.antt =====
-- Storing the entry of a line: where that is a fault.
use agent_resources.Prelude.{
  ℕ, zero, suc, ◌+◌, ◌-◌, ◌≤◌, ◌<◌, ◌≡◌, refl, ◌∙◌, arith, inl, inr, ◌⊎◌, List, [], ◌∷◌, Bool-cases,
  true, false, ◌==◌, done, fault, length, drop, set,
}
use agent_resources.Text.{overlay}
use agent_resources.Parse.ProcFile.{
  ProcEntry, Scan, leading_blanks, slice, copy_value, cut, copy_key, make_entry, put_entry,
  add_entry,
}

key_cases :
    (buffer : List ℕ) (start delim : ℕ) (array : List ℕ)
    → start ≤ delim
    → (((delim == start) ≡ false)
        × ((key : List ℕ) × (copy_key buffer start (cut (delim - start)) array ≡ done key)))
      ⊎ (((delim == start) ≡ true) × (copy_key buffer start (cut (delim - start)) array ≡ fault))
unfolding copy_key
key_cases buffer start delim array h = elim (Bool-cases (delim == start)) [
  | inl e ↦
      let none_left : (cut (delim - start) == 0) ≡ true = ground arith in inr (e, rw none_left refl)
  | inr e ↦
      let some_left : (cut (delim - start) == 0) ≡ false = ground arith in
      inl (
        e,
        (
          set (overlay (slice buffer start (cut (delim - start) - 1)) array) (cut (delim - start))
              0,
          rw some_left refl,
        ),
      )
]

length-drop {ℓ} : {A : Type ℓ} (n : ℕ) (xs : List A) → length (drop n xs) ≡ length xs - n
length-drop zero xs = omega arith
length-drop (suc n) [] = omega arith
length-drop (suc n) (x ∷ xs) = length-drop n xs ∙ omega arith

-- The scan after an entry was stored.
abbrev pub stored : Scan → ProcEntry → Scan
stored s entry = record s {
  entries = set s.entries s.entry_index entry;
  count = s.count + 1;
  entry_index = s.entry_index + 1;
}

put_cases :
    (buffer : List ℕ) (delim index : ℕ) (s : Scan) (more : List ProcEntry)
    → s.line_start ≤ delim
    → ((0 < length more)
        × ((delim == s.line_start) ≡ false)
        × ((entry : ProcEntry) × (put_entry buffer delim index s more ≡ done (stored s entry))))
      ⊎ (((length more ≡ 0) ⊎ ((delim == s.line_start) ≡ true))
          × (put_entry buffer delim index s more ≡ fault))
unfolding put_entry make_entry
put_cases buffer delim index s [] h = inr (inl refl, refl)
put_cases buffer delim index s (old ∷ more) h =
    elim (key_cases buffer s.line_start delim old.key h) [
      | inl (e, (key, k)) ↦
          let start = delim + 1 + leading_blanks (slice buffer (delim + 1) (index - (delim + 1))) in
          let value = copy_value buffer start (cut (index - start)) old.value in
          inl (omega arith, e, (record { value = value; key = key }, rw k refl))
      | inr (e, k) ↦ inr (inr e, rw k refl)
    ]

pub add_cases :
    (buffer : List ℕ) (delim index : ℕ) (s : Scan) (n : ℕ)
    → s.entry_index ≡ n
    → length s.entries ≡ 256
    → s.line_start ≤ delim
    → ((n < 256)
        × ((delim == s.line_start) ≡ false)
        × ((entry : ProcEntry) × (add_entry buffer delim index s ≡ done (stored s entry))))
      ⊎ (((256 ≤ n) ⊎ ((delim == s.line_start) ≡ true)) × (add_entry buffer delim index s ≡ fault))
unfolding add_entry
add_cases buffer delim index s n i l h =
    let left : length (drop s.entry_index s.entries) ≡ 256 - n =
      omega (arith, l, i, length-drop s.entry_index s.entries) in
    elim (put_cases buffer delim index s (drop s.entry_index s.entries) h) [
      | inl (room, e, r) ↦ inl (omega (arith, left, room), e, r)
      | inr (inl full, f) ↦ inr (inl (omega (arith, left, full)), f)
      | inr (inr e, f) ↦ inr (inr e, f)
    ]
