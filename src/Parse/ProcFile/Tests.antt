-- ===== src/Parse/ProcFile/Tests.antt =====
-- A run of `parse_proc_files`, and the theorem at a concrete file.
use agent_resources.Prelude.{
  ◌⊎◌, ℕ, ◌≡◌, refl, arith, Option, some, List, [], ◌∷◌, ◌++◌, done, fault, true, false,
}
use agent_resources.Memory.{Memory}
use agent_resources.Arena.{Arena}
use agent_resources.Arena.Valid.{IsValid}
use agent_resources.Text.{codes}
use agent_resources.Parse.ProcFile.{ProcFile, parse_proc_files}
use agent_resources.Parse.ProcFile.Entry.{Line}
use agent_resources.Parse.ProcFile.Lines.{Fits, colon_lines, lines_of}
use agent_resources.Parse.ProcFile.Overflow.{parse_proc_files_overflow}
use agent_resources.Parse.ProcFile.Laws.{file_text}
use agent_resources.Parse.ProcFile.Whole.{taken}

abbrev lines : List Line
lines =
    record { key = codes "Pid"; blanks = 0x09 ∷ []; value = codes "7" }
    ∷ record { key = codes "Name"; blanks = 0x20 ∷ 0x09 ∷ []; value = codes "a b:c" }
    ∷ []

abbrev files : List ℕ → Option (Option (List ℕ))
files path = some (some (file_text lines))

abbrev arena : Arena
arena = record {
  address = 4096;
  current_position = 0;
  previous_position = 0;
  capacity = 65536;
  base_position = 4128;
}

abbrev memory : Memory
memory address = 0

arena-IsValid : IsValid arena
arena-IsValid = omega arith

-- A line without a colon, one with two, and one that no newline ends.
abbrev text : List ℕ
text = codes "cpu" ++ 0x0a ∷ (codes "a: b:c" ++ 0x0a ∷ codes ":d")

text-Fits : Fits text × (colon_lines (lines_of text) ≡ 1)
text-Fits = (((refl, (refl, tt)), omega arith), refl)

-- A second line of a colon alone.
no_key-Fits : ¬ Fits (codes "a:b" ++ 0x0a ∷ 0x3a ∷ 0x0a ∷ [])
no_key-Fits h = let clash : true ≡ false = h.0.1.0 in cc

abbrev text_files : List ℕ → Option (Option (List ℕ))
text_files path = some (some text)

parse_proc_files_overflow_example :
    (Fits text
      × ((file : ProcFile) × (m' : Memory) × (parse_proc_files text_files
              (some [])
              (some arena)
              memory
            ≡ done (some file, some (taken arena), m'))
          × (file.count ≡ colon_lines (lines_of text))))
    ⊎ ((¬ Fits text) × (parse_proc_files text_files (some []) (some arena) memory ≡ fault))
parse_proc_files_overflow_example =
    parse_proc_files_overflow text_files [] text arena memory refl (omega arith) arena-IsValid
      (omega arith)
