-- ===== src/Resources/Cpu/Sections.antt =====
-- What `cpu_read_amd64` makes of a file /proc/cpuinfo with a section for each processor.
use agent_resources.Prelude.{
  ℕ, ◌<◌, ◌≡◌, refl, arith, Option, none, some, List, [], ◌∷◌, ◌++◌, All, done, Bool, true, false,
  not, ◌&&◌, Bool-cases, inl, inr, length, ◌==◌,
}
use agent_resources.Text.{
  codes, after, skip, starts_with, overlay, is_space, is_newline, after-append, before-append,
  skip-append,
}
use agent_resources.Resources.Cpu.{Cpu, value_of, cpu_entry, cpu_line, cpu_lines}
use agent_resources.Resources.Cpu.Info.{copy_field-fits, parse_cores}

-- A field: the blanks in front of its colon, the spaces behind it, and the value.
pub record Field : Type 0 where
  pub gap : List ℕ
  pub spaces : List ℕ
  pub value : List ℕ

abbrev pub field_line : List ℕ → Field → List ℕ
field_line key f = (key ++ f.gap) ++ b':' ∷ (f.spaces ++ (f.value ++ 0x0a ∷ []))

abbrev pub starts_space : List ℕ → Bool
starts_space [] = false
starts_space (c ∷ s) = is_space c

-- A value for an array of `size` bytes, with room for a NUL.
pub record IsField (size : ℕ) (f : Field) : Type 0 where
  pub gap_plain : All (λ c. (c == b':') ≡ false) f.gap
  pub spaces_only : All (λ c. is_space c ≡ true) f.spaces
  pub value_start : starts_space f.value ≡ false
  pub value_plain : All (λ c. is_newline c ≡ false) f.value
  pub value_text : All (λ c. (c == 0) ≡ false) f.value
  pub value_fits : length f.value < size

-- A line of another field.
abbrev pub Other : List ℕ → Type 0
Other line =
    (starts_with (codes "vendor_id") line ≡ false)
    × (starts_with (codes "model name") line ≡ false)
    × (starts_with (codes "cpu MHz") line ≡ false)
    × (starts_with (codes "cpu cores") line ≡ false)

-- The lines of one processor, in the order of the kernel.
pub record Section : Type 0 where
  pub lines0 : List (List ℕ)
  pub vendor : Field
  pub lines1 : List (List ℕ)
  pub model : Field
  pub lines2 : List (List ℕ)
  pub frequency : Field
  pub lines3 : List (List ℕ)
  pub cores : Field
  pub lines4 : List (List ℕ)

pub record IsSection (s : Section) : Type 0 where
  pub others0 : All Other s.lines0
  pub vendor_is : IsField 16 s.vendor
  pub others1 : All Other s.lines1
  pub model_is : IsField 64 s.model
  pub others2 : All Other s.lines2
  pub frequency_is : IsField 16 s.frequency
  pub others3 : All Other s.lines3
  pub cores_is : IsField 16 s.cores
  pub others4 : All Other s.lines4

abbrev pub section_lines : Section → List (List ℕ) → List (List ℕ)
section_lines s rest =
    s.lines0
    ++ field_line (codes "vendor_id") s.vendor
      ∷ (s.lines1
          ++ field_line (codes "model name") s.model
            ∷ (s.lines2
                ++ field_line (codes "cpu MHz") s.frequency
                  ∷ (s.lines3 ++ field_line (codes "cpu cores") s.cores ∷ (s.lines4 ++ rest))))

-- The struct with the values of a section. The number of cores is 0.
abbrev pub shown : Section → Cpu → Cpu
shown s c = record c {
  vendor = overlay s.vendor.value c.vendor;
  model = overlay s.model.value c.model;
  frequency = overlay s.frequency.value c.frequency;
  cores = 0;
}

cpu_line-Other : (line : List ℕ) (c : Cpu) → Other line → cpu_line line c ≡ done c
unfolding cpu_line cpu_entry
cpu_line-Other line c o = rest_of (after b':' line)
  where
    rest_of :
        (r : Option (List ℕ))
        → elim r [ none ↦ done c | some rest ↦ cpu_entry line rest c ] ≡ done c
    rest_of none = refl
    rest_of (some rest) = rw (o.0, o.1, o.2, o.3) refl

cpu_lines-Other :
    (lines rest : List (List ℕ)) (c : Cpu)
    → All Other lines
    → cpu_lines (lines ++ rest) c ≡ cpu_lines rest c
unfolding cpu_lines
cpu_lines-Other [] rest c h = refl
cpu_lines-Other (line ∷ lines) rest c h =
    rw (cpu_line-Other line c h.0) (cpu_lines-Other lines rest c h.1)

-- The value of a field's line.
value_of-field :
    {size : ℕ} (f : Field)
    → IsField size f
    → value_of (f.spaces ++ (f.value ++ 0x0a ∷ [])) ≡ f.value
value_of-field f v =
    rw (skipped f.value v.value_start) (before-append is_newline f.value 0x0a [] v.value_plain refl)
  where
    skipped :
        (value : List ℕ)
        → starts_space value ≡ false
        → skip is_space (f.spaces ++ (value ++ 0x0a ∷ [])) ≡ value ++ 0x0a ∷ []
    skipped [] e = skip-append is_space f.spaces 0x0a [] v.spaces_only refl
    skipped (c ∷ value) e = skip-append is_space f.spaces c (value ++ 0x0a ∷ []) v.spaces_only e

abbrev no_colon : List ℕ → Bool
no_colon [] = true
no_colon (c ∷ s) = not (c == b':') && no_colon s

no_colon_all : (s : List ℕ) → no_colon s ≡ true → All (λ c. (c == b':') ≡ false) s
no_colon_all [] h = tt
no_colon_all (c ∷ s) h = elim (Bool-cases (c == b':')) [
  | inl colon ↦ absurd (false_true (rw colon at h))
  | inr plain ↦ (plain, no_colon_all s (rw plain at h))
]
  where
    false_true : false ≡ true → ⊥
    false_true e = ground arith

after-field :
    {size : ℕ} (key : List ℕ) (f : Field)
    → no_colon key ≡ true
    → IsField size f
    → after b':' (field_line key f) ≡ some (f.spaces ++ (f.value ++ 0x0a ∷ []))
after-field key f k v =
    after-append b':' (key ++ f.gap) (f.spaces ++ (f.value ++ 0x0a ∷ []))
      (both key (no_colon_all key k))
  where
    both :
        (key : List ℕ)
        → All (λ c. (c == b':') ≡ false) key
        → All (λ c. (c == b':') ≡ false) (key ++ f.gap)
    both [] k = v.gap_plain
    both (c ∷ key) k = (k.0, both key k.1)

-- The line of each of the four fields.
vendor-line :
    (f : Field) (c : Cpu)
    → IsField 16 f
    → cpu_line (field_line (codes "vendor_id") f) c
      ≡ done (record c { vendor = overlay f.value c.vendor })
unfolding cpu_line cpu_entry starts_with after
vendor-line f c v =
    rw
      (
        after-field (codes "vendor_id") f refl v,
        cpu_entry,
        value_of-field f v,
        copy_field-fits 16 f.value c.vendor (omega (arith, v.value_fits)),
      )
      refl

model-line :
    (f : Field) (c : Cpu)
    → IsField 64 f
    → cpu_line (field_line (codes "model name") f) c
      ≡ done (record c { model = overlay f.value c.model })
unfolding cpu_line cpu_entry starts_with after
model-line f c v =
    rw
      (
        after-field (codes "model name") f refl v,
        cpu_entry,
        value_of-field f v,
        copy_field-fits 64 f.value c.model (omega (arith, v.value_fits)),
      )
      refl

frequency-line :
    (f : Field) (c : Cpu)
    → IsField 16 f
    → cpu_line (field_line (codes "cpu MHz") f) c
      ≡ done (record c { frequency = overlay f.value c.frequency })
unfolding cpu_line cpu_entry starts_with after
frequency-line f c v =
    rw
      (
        after-field (codes "cpu MHz") f refl v,
        cpu_entry,
        value_of-field f v,
        copy_field-fits 16 f.value c.frequency (omega (arith, v.value_fits)),
      )
      refl

cores-line :
    (f : Field) (c : Cpu)
    → IsField 16 f
    → cpu_line (field_line (codes "cpu cores") f) c ≡ done (record c { cores = 0 })
unfolding cpu_line cpu_entry starts_with after
cores-line f c v =
    rw
      (
        after-field (codes "cpu cores") f refl v,
        cpu_entry,
        parse_cores (field_line (codes "cpu cores") f) refl,
      )
      refl

-- One section.
pub section-lines :
    (s : Section) (rest : List (List ℕ)) (c : Cpu)
    → IsSection s
    → cpu_lines (section_lines s rest) c ≡ cpu_lines rest (shown s c)
unfolding cpu_lines
section-lines s rest c v =
    rw
      (
        cpu_lines-Other s.lines0 _ c v.others0,
        cpu_lines,
        vendor-line s.vendor c v.vendor_is,
        cpu_lines-Other s.lines1 _ _ v.others1,
        model-line s.model _ v.model_is,
        cpu_lines-Other s.lines2 _ _ v.others2,
        frequency-line s.frequency _ v.frequency_is,
        cpu_lines-Other s.lines3 _ _ v.others3,
        cores-line s.cores _ v.cores_is,
      )
      (cpu_lines-Other s.lines4 rest (shown s c) v.others4)
