-- ===== src/Resources/Cpu/Whole.antt =====
-- `cpu_read_amd64` on the file of a machine with one or more processors.
use agent_resources.Prelude.{
  ℕ, ◌<◌, ◌≡◌, refl, sym, some, List, [], ◌∷◌, ◌++◌, All, done, Bool, length, drop, ap, ◌∙◌,
  replicate, drop-length-append, drop-replicate, ◌==◌, false, ◌-◌,
}
use agent_resources.Text.{overlay, c_string, c_string-append}
use agent_resources.Resources.{err_ok}
use agent_resources.Resources.Cpu.{Cpu, cpu_lines, cpu_read_amd64}
use agent_resources.Resources.Cpu.Sections.{Section, IsSection, section_lines, shown, section-lines}

abbrev pub file_lines : List Section → List (List ℕ)
file_lines [] = []
file_lines (s ∷ sections) = section_lines s (file_lines sections)

abbrev pub last_section : Section → List Section → Section
last_section s [] = s
last_section s (t ∷ sections) = last_section t sections

-- The texts have the lengths of those of `r`.
abbrev pub HasLengths : Section → Section → Type 0
HasLengths r s =
    (length s.vendor.value ≡ length r.vendor.value)
    × (length s.model.value ≡ length r.model.value)
    × (length s.frequency.value ≡ length r.frequency.value)

-- One text over another that is equally long.
overlay_twice :
    (xs ys array : List ℕ)
    → length ys ≡ length xs
    → overlay ys (overlay xs array) ≡ overlay ys array
overlay_twice xs ys array e =
    rw e (ap (λ t. ys ++ t) (drop-length-append xs (drop (length xs) array)))

shown_twice :
    (r s t : Section) (c : Cpu) → HasLengths r s → HasLengths r t → shown t (shown s c) ≡ shown t c
shown_twice r s t c e f =
    rw
      (
        overlay_twice s.vendor.value t.vendor.value c.vendor (f.0 ∙ sym e.0),
        overlay_twice s.model.value t.model.value c.model (f.1 ∙ sym e.1),
        overlay_twice s.frequency.value t.frequency.value c.frequency (f.2 ∙ sym e.2),
      )
      refl

last-HasLengths :
    (r s : Section) (sections : List Section)
    → HasLengths r s
    → All (HasLengths r) sections
    → HasLengths r (last_section s sections)
last-HasLengths r s [] e es = e
last-HasLengths r s (t ∷ sections) e es = last-HasLengths r t sections es.0 es.1

sections_lines :
    (r s : Section) (sections : List Section) (c : Cpu)
    → All IsSection (s ∷ sections)
    → HasLengths r s
    → All (HasLengths r) sections
    → cpu_lines (file_lines (s ∷ sections)) c ≡ done (shown (last_section s sections) c)
unfolding cpu_lines
sections_lines r s [] c v e es = section-lines s [] c v.0
sections_lines r s (t ∷ sections) c v e es =
    section-lines s (file_lines (t ∷ sections)) c v.0
    ∙ sections_lines r t sections (shown s c) v.1 es.0 es.1
    ∙ ap done
        (shown_twice r s (last_section t sections) c e (last-HasLengths r t sections es.0 es.1))

last-IsSection :
    (s : Section) (sections : List Section)
    → All IsSection (s ∷ sections)
    → IsSection (last_section s sections)
last-IsSection s [] v = v.0
last-IsSection s (t ∷ sections) v = last-IsSection t sections v.1

-- A text in an array of zeros that is longer.
copied_text :
    (n : ℕ) (text : List ℕ)
    → All (λ c. (c == 0) ≡ false) text
    → length text < n
    → c_string (overlay text (replicate n 0)) ≡ done text
copied_text n text t h =
    rw (drop-replicate {A = ℕ} 0 n (length text) h)
      (c_string-append text (replicate (n - length text - 1) 0) t)

-- The text of a file with one section at least, whose texts fit their arrays with a NUL, and have
-- the same lengths in all sections: from a struct with arrays of zeros, `cpu_read_amd64` returns
-- `ERR_OK` with the vendor, the model and the frequency of the last section, and a number of cores
-- of 0; the times stay.
pub cpu_read_sections_lem :
    (asserts : Bool) (s : Section) (sections : List Section) (c : Cpu)
    → All IsSection (s ∷ sections)
    → All (HasLengths s) sections
    → c.vendor ≡ replicate 16 0
    → c.model ≡ replicate 64 0
    → c.frequency ≡ replicate 16 0
    → (c' : Cpu) × (cpu_read_amd64 asserts (some c) (some (file_lines (s ∷ sections)))
        ≡ done (err_ok, some c'))
      × (c_string c'.vendor ≡ done (last_section s sections).vendor.value)
      × (c_string c'.model ≡ done (last_section s sections).model.value)
      × (c_string c'.frequency ≡ done (last_section s sections).frequency.value)
      × (c'.cores ≡ 0)
      × (c'.total_time ≡ c.total_time)
      × (c'.idle_time ≡ c.idle_time)
unfolding cpu_read_amd64
cpu_read_sections_lem asserts s sections c v e zv zm zf =
    let l = last_section s sections in
    let is = last-IsSection s sections v in
    (
      shown l c,
      rw (sections_lines s s sections c v (refl, refl, refl) e) refl,
      rw zv (copied_text 16 l.vendor.value is.vendor_is.value_text is.vendor_is.value_fits),
      rw zm (copied_text 64 l.model.value is.model_is.value_text is.model_is.value_fits),
      rw zf
          (copied_text 16 l.frequency.value is.frequency_is.value_text is.frequency_is.value_fits),
      refl,
      refl,
      refl,
    )
