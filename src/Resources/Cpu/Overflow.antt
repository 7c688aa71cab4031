-- ===== src/Resources/Cpu/Overflow.antt =====
-- The copies of `cpu_read_amd64` that run past their arrays.
use agent_resources.Prelude.{
  ℕ, ◌≤◌, ◌≡◌, refl, ◌↔◌, ◌⊎◌, inl, inr, Option, none, some, List, [], ◌∷◌, All, done, fault, ◌>>=◌,
  Bool, true, false, leb, leb→le, length, Bool-cases,
}
use agent_resources.Text.{codes, after, starts_with, overlay}
use agent_resources.Resources.Cpu.{
  Cpu, copy_field, when, value_of, cpu_entry, cpu_line, cpu_lines, cpu_read_amd64,
}
use agent_resources.Resources.Cpu.Info.{
  FitsEntry, Fits, copy_field-fits, cpu_line-Leaves, cpu_read_amd64_lem,
}

-- The text fits, or the copy is a fault.
field_cases :
    (test : Bool) (size : ℕ) (text : List ℕ) (get : Cpu → List ℕ) (put : Cpu → List ℕ → Cpu)
    → (test ≡ true → length text ≤ size)
      ⊎ ((c : Cpu)
          → when test (λ c. copy_field size text (get c) >>= λ v. done (put c v)) c ≡ fault)
unfolding copy_field
field_cases false size text get put = inl (λ e. cc)
field_cases true size text get put = elim (Bool-cases (leb (length text) size)) [
  | inl e ↦ inl (λ _. leb→le (length text) size e)
  | inr e ↦ inr (λ c. rw e refl)
]

-- A field that fits is stored, and the run goes on.
stored :
    (test : Bool) (size : ℕ) (text : List ℕ) (get : Cpu → List ℕ) (put : Cpu → List ℕ → Cpu)
    → (test ≡ true → length text ≤ size)
    → (c : Cpu)
    → (c' : Cpu) × (when test (λ c. copy_field size text (get c) >>= λ v. done (put c v)) c
        ≡ done c')
unfolding copy_field
stored false size text get put h c = (c, refl)
stored true size text get put h c =
    (put c (overlay text (get c)), rw (copy_field-fits size text (get c) (h refl)) refl)

entry_cases :
    (line rest : List ℕ) (c : Cpu) → FitsEntry line (some rest) ⊎ (cpu_entry line rest c ≡ fault)
unfolding cpu_entry
entry_cases line rest c =
    let text = value_of rest in
    let put_vendor : Cpu → List ℕ → Cpu = λ c v. record c { vendor = v } in
    let put_model : Cpu → List ℕ → Cpu = λ c v. record c { model = v } in
    let put_frequency : Cpu → List ℕ → Cpu = λ c v. record c { frequency = v } in
    elim (field_cases (starts_with (codes "vendor_id") line) 16 text (λ c. c.vendor) put_vendor) [
      | inr f ↦ inr (rw (f c) refl)
      | inl hv ↦
          let (c1, e1) =
            stored (starts_with (codes "vendor_id") line) 16 text (λ c. c.vendor) put_vendor hv c in
          elim (field_cases (starts_with (codes "model name") line) 64 text (λ c. c.model)
            put_model) [
              | inr f ↦ inr (rw (e1, f c1) refl)
              | inl hm ↦
                  let (c2, e2) =
                    stored (starts_with (codes "model name") line) 64 text (λ c. c.model) put_model
                      hm c1 in
                  elim (field_cases (starts_with (codes "cpu MHz") line) 16 text (λ c. c.frequency)
                    put_frequency) [
                      | inr f ↦ inr (rw (e1, e2, f c2) refl)
                      | inl hf ↦ inl (hv, hm, hf)
                    ]
            ]
    ]

line_cases : (line : List ℕ) (c : Cpu) → Fits line ⊎ (cpu_line line c ≡ fault)
unfolding cpu_line
line_cases line c = at (after b':' line)
  where
    at :
        (o : Option (List ℕ))
        → FitsEntry line o ⊎ (elim o [ none ↦ done c | some rest ↦ cpu_entry line rest c ] ≡ fault)
    at none = inl tt
    at (some rest) = entry_cases line rest c

pub lines_cases : (lines : List (List ℕ)) (c : Cpu) → All Fits lines ⊎ (cpu_lines lines c ≡ fault)
unfolding cpu_lines
lines_cases [] c = inl tt
lines_cases (line ∷ lines) c = elim (line_cases line c) [
  | inr f ↦ inr (rw f refl)
  | inl h ↦
      let (c', e, _) = cpu_line-Leaves line c h in
      elim (lines_cases lines c') [ inr f ↦ inr (rw (e, f) refl) | inl hs ↦ inl (h, hs) ]
]

-- For any text of /proc/cpuinfo, `cpu_read_amd64` runs past an array of the struct exactly if some
-- line with a colon starts with `vendor_id`, `model name` or `cpu MHz` and has a value, behind the
-- colon and the spaces there, of more than 16, 64 or 16 bytes.
pub cpu_read_amd64-overflow :
    (asserts : Bool) (lines : List (List ℕ)) (c : Cpu)
    → (cpu_read_amd64 asserts (some c) (some lines) ≡ fault) ↔ (¬ All Fits lines)
unfolding cpu_read_amd64
cpu_read_amd64-overflow asserts lines c = (
  λ f h. let (c', e, _) = cpu_read_amd64_lem asserts lines c h in cc,
  λ n. elim (lines_cases lines c) [ inl h ↦ absurd (n h) | inr f ↦ rw f refl ],
)
