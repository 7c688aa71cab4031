-- ===== src/Resources/Cpu/Info.antt =====
-- What `cpu_read_amd64` makes of the lines of /proc/cpuinfo.
use agent_resources.Prelude.{
  ℕ, ◌≤◌, ◌≡◌, refl, arith, Option, none, some, List, [], ◌∷◌, ◌++◌, All, Run, done, ◌>>=◌, Bool,
  true, false, leb, if◌then◌else◌, length, inr, ◌∙◌, ◌||◌, u32,
}
use agent_resources.Parse.{parse_u64}
use agent_resources.Parse.Number.{parse_u64_lem}
use agent_resources.Text.{codes, after, starts_with, starts_with-head, overlay}
use agent_resources.Resources.{err_ok}
use agent_resources.Resources.Cpu.{
  Cpu, copy_field, when, value_of, cpu_entry, cpu_line, cpu_lines, cpu_read_amd64,
}

-- The text of a line fits the array that it is copied to, `rest` being what stands behind its colon.
abbrev pub FitsEntry : List ℕ → Option (List ℕ) → Type 0
FitsEntry line none = Unit {0}
FitsEntry line (some rest) =
    (starts_with (codes "vendor_id") line ≡ true → length (value_of rest) ≤ 16)
    × (starts_with (codes "model name") line ≡ true → length (value_of rest) ≤ 64)
    × (starts_with (codes "cpu MHz") line ≡ true → length (value_of rest) ≤ 16)

abbrev pub Fits : List ℕ → Type 0
Fits line = FitsEntry line (after b':' line)

-- The line has a colon and names the number of cores.
abbrev pub names_cores : List ℕ → Bool
names_cores line = elim (after b':' line) [
  | none ↦ false
  | some rest ↦ starts_with (codes "cpu cores") line
]

abbrev pub any_names_cores : List (List ℕ) → Bool
any_names_cores [] = false
any_names_cores (line ∷ lines) = names_cores line || any_names_cores lines

-- The step returns, and leaves `n` as the number of cores.
abbrev pub Leaves : Run Cpu → ℕ → Type 0
Leaves r n = (c : Cpu) × (r ≡ done c) × (c.cores ≡ n)

>>=-Leaves :
    (r : Run Cpu) (f : Cpu → Run Cpu) (n k : ℕ)
    → Leaves r n
    → ((c : Cpu) → c.cores ≡ n → Leaves (f c) k)
    → Leaves (r >>= f) k
>>=-Leaves r f n k (c, e, h) g = let (c', e', h') = g c h in (c', rw e e', h')

when-Leaves :
    (test : Bool) (f : Cpu → Run Cpu) (c : Cpu) (n : ℕ)
    → c.cores ≡ n
    → (test ≡ true → Leaves (f c) n)
    → Leaves (when test f c) n
when-Leaves true f c n e h = h refl
when-Leaves false f c n e h = (c, refl, e)

pub copy_field-fits :
    (size : ℕ) (text array : List ℕ)
    → length text ≤ size
    → copy_field size text array ≡ done (overlay text array)
unfolding copy_field
copy_field-fits size text array h = rw test refl
  where
    test : leb (length text) size ≡ true
    test = ground arith

-- The text that is parsed for the number of cores starts with a letter.
pub parse_cores :
    (line : List ℕ)
    → starts_with (codes "cpu cores") line ≡ true
    → parse_u64 (line ++ 0 ∷ []) 512 ≡ done 0
parse_cores line h =
    let (t, e) = starts_with-head b'c' (codes "pu cores") line h in
    rw e (parse_u64_lem [] (b'c' ∷ (t ++ 0 ∷ [])) 512 tt (inr refl))

cores-Leaves :
    (test : Bool) (line : List ℕ) (c : Cpu) (n : ℕ)
    → c.cores ≡ n
    → (test ≡ true → parse_u64 (line ++ 0 ∷ []) 512 ≡ done 0)
    → Leaves
        (when test
          (λ c. parse_u64 (line ++ 0 ∷ []) 512 >>= λ n. done (record c { cores = u32 n }))
          c)
        (if test then 0 else n)
cores-Leaves true line c n e h = (record c { cores = 0 }, rw (h refl) refl, refl)
cores-Leaves false line c n e h = (c, refl, e)

-- A field that is no number of cores is copied.
field-Leaves :
    (test : Bool) (size : ℕ) (text : List ℕ) (get : Cpu → List ℕ) (put : Cpu → List ℕ → Cpu)
    (c : Cpu) (n : ℕ)
    → ((c : Cpu) (v : List ℕ) → (put c v).cores ≡ c.cores)
    → c.cores ≡ n
    → (test ≡ true → length text ≤ size)
    → Leaves (when test (λ c. copy_field size text (get c) >>= λ v. done (put c v)) c) n
field-Leaves true size text get put c n keep e h = (
  put c (overlay text (get c)),
  rw (copy_field-fits size text (get c) (h refl)) refl,
  keep c (overlay text (get c)) ∙ e,
)
field-Leaves false size text get put c n keep e h = (c, refl, e)

-- The first three copies of `cpu_entry`, one after the other.
abbrev vendor_step : List ℕ → List ℕ → Cpu → Run Cpu
vendor_step line rest c =
    when (starts_with (codes "vendor_id") line)
      (λ c. copy_field 16 (value_of rest) c.vendor >>= λ v. done (record c { vendor = v })) c

abbrev model_step : List ℕ → List ℕ → Cpu → Run Cpu
model_step line rest c =
    vendor_step line rest c
    >>= when (starts_with (codes "model name") line)
        (λ c. copy_field 64 (value_of rest) c.model >>= λ v. done (record c { model = v }))

abbrev frequency_step : List ℕ → List ℕ → Cpu → Run Cpu
frequency_step line rest c =
    model_step line rest c
    >>= when (starts_with (codes "cpu MHz") line)
        (λ c. copy_field 16 (value_of rest) c.frequency >>= λ v. done (record c { frequency = v }))

model_step-Leaves :
    (line rest : List ℕ) (c : Cpu)
    → FitsEntry line (some rest)
    → Leaves (model_step line rest c) c.cores
model_step-Leaves line rest c fits =
    >>=-Leaves _ _ c.cores c.cores
      (field-Leaves (starts_with (codes "vendor_id") line) 16 (value_of rest) (λ c. c.vendor)
        (λ c v. record c { vendor = v }) c c.cores (λ c v. refl) refl fits.0)
      λ c' e.
        field-Leaves (starts_with (codes "model name") line) 64 (value_of rest) (λ c. c.model)
          (λ c v. record c { model = v }) c' c.cores (λ c v. refl) e fits.1

cpu_entry-Leaves :
    (line rest : List ℕ) (c : Cpu)
    → FitsEntry line (some rest)
    → Leaves (cpu_entry line rest c) (if starts_with (codes "cpu cores") line then 0 else c.cores)
unfolding cpu_entry
cpu_entry-Leaves line rest c fits =
    >>=-Leaves (frequency_step line rest c) _ c.cores _
      (>>=-Leaves (model_step line rest c) _ c.cores c.cores (model_step-Leaves line rest c fits)
        λ c' e.
          field-Leaves (starts_with (codes "cpu MHz") line) 16 (value_of rest) (λ c. c.frequency)
            (λ c v. record c { frequency = v }) c' c.cores (λ c v. refl) e fits.2)
      (λ c' e. cores-Leaves _ line c' _ e (parse_cores line))

pub cpu_line-Leaves :
    (line : List ℕ) (c : Cpu)
    → Fits line
    → Leaves (cpu_line line c) (if names_cores line then 0 else c.cores)
unfolding cpu_line
cpu_line-Leaves line c fits = at (after b':' line) fits
  where
    at :
        (o : Option (List ℕ))
        → FitsEntry line o
        → Leaves
            (elim o [ none ↦ done c | some rest ↦ cpu_entry line rest c ])
            (if elim o [ none ↦ false | some rest ↦ starts_with (codes "cpu cores") line ]
              then 0
              else c.cores)
    at none fits = (c, refl, refl)
    at (some rest) fits = cpu_entry-Leaves line rest c fits

join :
    (b b' : Bool) (x n k : ℕ)
    → k ≡ (if b then 0 else n)
    → x ≡ (if b' then 0 else k)
    → x ≡ (if b || b' then 0 else n)
join true true x n k e h = h
join true false x n k e h = h ∙ e
join false true x n k e h = h
join false false x n k e h = h ∙ e

cpu_lines-Leaves :
    (lines : List (List ℕ)) (c : Cpu)
    → All Fits lines
    → Leaves (cpu_lines lines c) (if any_names_cores lines then 0 else c.cores)
unfolding cpu_lines
cpu_lines-Leaves [] c fits = (c, refl, refl)
cpu_lines-Leaves (line ∷ lines) c fits = >>=-Leaves _ _ _ _ (cpu_line-Leaves line c fits.0) λ c' e.
    let (c'', f, h) = cpu_lines-Leaves lines c' fits.1 in
    (c'', f, join (names_cores line) (any_names_cores lines) c''.cores c.cores c'.cores e h)

-- On lines whose texts fit their arrays, `cpu_read_amd64` returns `ERR_OK`, and the number of cores
-- is 0 if any line with a colon starts with `cpu cores`; else it is what it was before.
pub cpu_read_amd64_lem :
    (asserts : Bool) (lines : List (List ℕ)) (c : Cpu)
    → All Fits lines
    → (c' : Cpu) × (cpu_read_amd64 asserts (some c) (some lines) ≡ done (err_ok, some c'))
      × (c'.cores ≡ (if any_names_cores lines then 0 else c.cores))
unfolding cpu_read_amd64
cpu_read_amd64_lem asserts lines c fits =
    let (c', e, h) = cpu_lines-Leaves lines c fits in (c', rw e refl, h)
