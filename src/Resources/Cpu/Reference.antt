-- ===== src/Resources/Cpu/Reference.antt =====
-- What `cpu_read_amd64` reads from any file: a definition without the loop and the bounds.
use agent_resources.Prelude.{
  ◌⊎◌, inl, inr, ℕ, ◌≤◌, ◌≡◌, refl, Option, some, none, List, [], ◌∷◌, ◌++◌, All, Bool, true, false,
  done, fault, ◌>>=◌, length, u32,
}
use agent_resources.Parse.{parse_u64}
use agent_resources.Text.{codes, after, starts_with, overlay}
use agent_resources.Resources.{err_ok}
use agent_resources.Resources.Named.{named_value, named_value-none, named_values}
use agent_resources.Resources.Cpu.{
  Cpu, copy_field, when, value_of, cpu_entry, cpu_line, cpu_lines, cpu_read_amd64,
}
use agent_resources.Resources.Cpu.Overflow.{lines_cases, cpu_read_amd64-overflow}
use agent_resources.Resources.Cpu.Info.{FitsEntry, Fits, copy_field-fits, parse_cores}

abbrev value_text : Option (List ℕ) → Option (List ℕ)
value_text none = none
value_text (some rest) = some (value_of rest)

-- What stands behind the colon of a line and the spaces there, up to its end, if there is a colon.
abbrev pub text_of : List ℕ → Option (List ℕ)
text_of line = value_text (after b':' line)

abbrev pub no_cores : List ℕ → ℕ → ℕ
no_cores text n = 0

-- Each field by the lines of its name alone, of which the last one counts; the texts are copied over
-- each other. The number of cores is 0 once a line has its name.
abbrev pub cpu_of : List (List ℕ) → Cpu → Cpu
cpu_of lines c = record c {
  vendor = named_values text_of (codes "vendor_id") overlay lines c.vendor;
  model = named_values text_of (codes "model name") overlay lines c.model;
  frequency = named_values text_of (codes "cpu MHz") overlay lines c.frequency;
  cores = named_values text_of (codes "cpu cores") no_cores lines c.cores;
}

-- What one line makes of the struct, with the text behind its colon given.
abbrev read_text : List ℕ → Option (List ℕ) → Cpu → Cpu
read_text line text c = record c {
  vendor = named_value (starts_with (codes "vendor_id") line) text overlay c.vendor;
  model = named_value (starts_with (codes "model name") line) text overlay c.model;
  frequency = named_value (starts_with (codes "cpu MHz") line) text overlay c.frequency;
  cores = named_value (starts_with (codes "cpu cores") line) text no_cores c.cores;
}

field_lem :
    (named : Bool) (size : ℕ) (text : List ℕ) (get : Cpu → List ℕ) (put : Cpu → List ℕ → Cpu)
    (c : Cpu)
    → put c (get c) ≡ c
    → (named ≡ true → length text ≤ size)
    → when named (λ c. copy_field size text (get c) >>= λ v. done (put c v)) c
      ≡ done (put c (named_value named (some text) overlay (get c)))
field_lem true size text get put c same fits =
    rw (copy_field-fits size text (get c) (fits refl)) refl
field_lem false size text get put c same fits = rw same refl

cores_lem :
    (named : Bool) (line text : List ℕ) (c : Cpu)
    → (named ≡ true → parse_u64 (line ++ 0 ∷ []) 512 ≡ done 0)
    → when named (λ c. parse_u64 (line ++ 0 ∷ []) 512 >>= λ n. done (record c { cores = u32 n })) c
      ≡ done (record c { cores = named_value named (some text) no_cores c.cores })
cores_lem true line text c h = rw (h refl) refl
cores_lem false line text c h = refl

cpu_entry_lem :
    (line rest : List ℕ) (c : Cpu)
    → FitsEntry line (some rest)
    → cpu_entry line rest c ≡ done (read_text line (some (value_of rest)) c)
unfolding cpu_entry
cpu_entry_lem line rest c (v, m, f) =
    let text = value_of rest in
    let vendor = named_value (starts_with (codes "vendor_id") line) (some text) overlay c.vendor in
    let model = named_value (starts_with (codes "model name") line) (some text) overlay c.model in
    let frequency =
      named_value (starts_with (codes "cpu MHz") line) (some text) overlay c.frequency in
    let c1 = record c { vendor = vendor } in
    let c2 = record c1 { model = model } in
    let c3 = record c2 { frequency = frequency } in
    rw
      (
        field_lem (starts_with (codes "vendor_id") line) 16 text (λ c. c.vendor)
            (λ c v. record c { vendor = v }) c refl v,
        field_lem (starts_with (codes "model name") line) 64 text (λ c. c.model)
            (λ c v. record c { model = v }) c1 refl m,
        field_lem (starts_with (codes "cpu MHz") line) 16 text (λ c. c.frequency)
            (λ c v. record c { frequency = v }) c2 refl f,
        cores_lem (starts_with (codes "cpu cores") line) line text c3 (parse_cores line),
      )
      refl

cpu_line_lem :
    (line : List ℕ) (c : Cpu) → Fits line → cpu_line line c ≡ done (read_text line (text_of line) c)
unfolding cpu_line
cpu_line_lem line c fits = at (after b':' line) fits
  where
    at :
        (o : Option (List ℕ))
        → FitsEntry line o
        → (elim o [ none ↦ done c | some rest ↦ cpu_entry line rest c ])
          ≡ done (read_text line (value_text o) c)
    at none fits =
        rw
          (
            named_value-none (starts_with (codes "vendor_id") line) overlay c.vendor,
            named_value-none (starts_with (codes "model name") line) overlay c.model,
            named_value-none (starts_with (codes "cpu MHz") line) overlay c.frequency,
            named_value-none (starts_with (codes "cpu cores") line) no_cores c.cores,
          )
          refl
    at (some rest) fits = cpu_entry_lem line rest c fits

cpu_lines_lem :
    (lines : List (List ℕ)) (c : Cpu) → All Fits lines → cpu_lines lines c ≡ done (cpu_of lines c)
unfolding cpu_lines
cpu_lines_lem [] c fits = refl
cpu_lines_lem (line ∷ lines) c fits =
    rw (cpu_line_lem line c fits.0) (cpu_lines_lem lines (read_text line (text_of line) c) fits.1)

pub cpu_read_amd64-Fits :
    (asserts : Bool) (lines : List (List ℕ)) (c : Cpu)
    → All Fits lines
    → cpu_read_amd64 asserts (some c) (some lines) ≡ done (err_ok, some (cpu_of lines c))
unfolding cpu_read_amd64
cpu_read_amd64-Fits asserts lines c fits = rw (cpu_lines_lem lines c fits) refl

cpu_read_amd64-fault :
    (asserts : Bool) (lines : List (List ℕ)) (c : Cpu)
    → cpu_lines lines c ≡ fault
    → cpu_read_amd64 asserts (some c) (some lines) ≡ fault
unfolding cpu_read_amd64
cpu_read_amd64-fault asserts lines c f = rw f refl

-- For any text of /proc/cpuinfo: if the values of its lines fit the arrays that they are copied to,
-- `cpu_read_amd64` returns `ERR_OK` and makes of each field what the lines of its name with a colon
-- make of it, one after the other. The vendor, the model and the frequency have the values copied to
-- the start of their arrays, with no NUL behind them, so that the last line of the name counts and
-- what was there stays behind its value; the number of cores is set to 0 by every such line; the two
-- times stay. If some value does not fit, the call runs past the array.
pub cpu_read_amd64_reference :
    (asserts : Bool) (lines : List (List ℕ)) (c : Cpu)
    → (All Fits lines
        × (cpu_read_amd64 asserts (some c) (some lines) ≡ done (err_ok, some (cpu_of lines c))))
      ⊎ ((¬ All Fits lines) × (cpu_read_amd64 asserts (some c) (some lines) ≡ fault))
cpu_read_amd64_reference asserts lines c = elim (lines_cases lines c) [
  | inl fits ↦ inl (fits, cpu_read_amd64-Fits asserts lines c fits)
  | inr f ↦
      let long : ¬ All Fits lines =
        (cpu_read_amd64-overflow asserts lines c).0 (cpu_read_amd64-fault asserts lines c f) in
      inr (long, cpu_read_amd64-fault asserts lines c f)
]
