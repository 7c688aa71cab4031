-- ===== src/Resources/Status/Tests.antt =====
-- Runs of `process_read` at fixed inputs, and the instances of its theorems.
use agent_resources.Prelude.{
  ◌⊎◌, ℕ, ◌≡◌, refl, arith, some, List, [], ◌∷◌, ◌++◌, All, done, replicate, pos, negsuc, to_i8,
  true, fault,
}
use agent_resources.Text.{codes, starts_with, after, before, skip, c_string}
use agent_resources.Resources.Status.{
  Process, process_read, undefined, sleeping, state_of, state_char, disk_sleeping,
}
use agent_resources.Resources.{err_ok}
use agent_resources.Resources.Status.Whole.{Other, IsShort, process_read_lem}
use agent_resources.Resources.Status.Reference.{IsShortLine, process_of, process_read_reference}
use agent_resources.Resources.Status.Laws.{entry, AreBlank}

abbrev process : Process
process = record {
  name = replicate 16 0;
  num_threads = pos 0;
  stime = 0;
  utime = 0;
  pid = pos 42;
  state = undefined;
}

abbrev tab : List ℕ
tab = 0x09 ∷ []

tab-AreBlank : AreBlank tab
tab-AreBlank = (refl, tt)

threads_runs : to_i8 200 ≡ negsuc 55
threads_runs = refl

umask-Other : All Other (codes "Umask: 0022" ∷ [])
unfolding starts_with
umask-Other = ((refl, refl, refl), tt)

bash-IsShort : IsShort b'b' (codes "ash")
bash-IsShort =
    (refl, (refl, (refl, (refl, (refl, tt)))), (refl, (refl, (refl, (refl, tt)))), omega arith)

process_read_lem_example :
    (p : Process) × (process_read
        (pos 7)
        process
        (some (
          entry (codes "Name") tab b'b' (codes "ash" ++ 0x0a ∷ [])
          ∷ codes "Umask: 0022"
          ∷ entry (codes "State") tab b'S' (codes " (sleeping)")
          ∷ entry (codes "Threads") tab b'3' (0x0a ∷ [])
          ∷ []))
        true
      ≡ done (err_ok, p))
    × (c_string p.name ≡ done (codes "bash"))
    × (p.pid ≡ pos 7)
    × (p.state ≡ sleeping)
    × (p.num_threads ≡ to_i8 3)
process_read_lem_example =
    process_read_lem (pos 7) process true [] (codes "Umask: 0022" ∷ []) [] [] tab tab tab b'b'
      (codes "ash") sleeping (codes " (sleeping)") b'3' [] tt umask-Other tt tt tab-AreBlank
      tab-AreBlank tab-AreBlank bash-IsShort (λ e. cc) (omega arith) (omega arith)

-- A second name in place of the first, a line without a colon, and 200 threads.
abbrev file : List (List ℕ)
file =
    (codes "Name:" ++ tab ++ codes "kthreadd" ++ 0x0a ∷ [])
    ∷ codes "Name: sh"
    ∷ codes "State"
    ∷ codes "State: D (disk sleep)"
    ∷ codes "Threads: 200"
    ∷ []

file-IsShort : All IsShortLine file
unfolding starts_with after before skip
file-IsShort = (omega arith, (omega arith, (tt, (tt, (tt, tt)))))

abbrev read_file : Process
read_file = record process {
  name = codes "sh" ++ 0 ∷ (codes "readd" ++ replicate 8 0);
  num_threads = negsuc 55;
  pid = pos 7;
  state = disk_sleeping;
}

file_runs : process_of (pos 7) file process ≡ read_file
unfolding starts_with after before skip state_of state_char
file_runs = refl

process_read_reference_example :
    (All IsShortLine file
      × (process_read (pos 7) process (some file) true
          ≡ done (err_ok, process_of (pos 7) file process)))
    ⊎ ((¬ All IsShortLine file) × (process_read (pos 7) process (some file) true ≡ fault))
process_read_reference_example = process_read_reference (pos 7) process file true
