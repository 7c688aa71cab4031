-- ===== src/Resources/Status/Laws.antt =====
-- What `process_read` makes of the lines of /proc/PID/status.
use agent_resources.Prelude.{
  ◌-◌, inr, ℕ, suc, ◌+◌, ◌<◌, ◌%◌, ◌^◌, ◌≡◌, ◌≢◌, refl, arith, List, [], ◌∷◌, ◌++◌, All, true,
  false, done, ◌==◌, length, to_i8, ◌∙◌, ap,
}
use mathlib.Core.List.{append_assoc}
use agent_resources.Parse.{parse_u64}
use agent_resources.Parse.Number.{IsDigit, decimal, parse_u64_lem}
use agent_resources.Text.{codes, starts_with, after-append, skip-append}
use agent_resources.Resources.Status.{
  Process, ProcState, undefined, running, sleeping, disk_sleeping, stopped, tracing_stopped, zombie,
  dead, idle, state_char, state_of, status_line, status_entry, read_state, read_threads, read_name,
  is_blank,
}

-- The letter by which /proc shows a state; `undefined` has none.
abbrev pub letter : ProcState → ℕ
letter undefined = b'?'
letter running = b'R'
letter sleeping = b'S'
letter disk_sleeping = b'D'
letter stopped = b'T'
letter tracing_stopped = b't'
letter zombie = b'Z'
letter dead = b'X'
letter idle = b'I'

-- The state that is stored for a letter: a stopped process is stored as sleeping.
abbrev pub stored_as : ProcState → ProcState
stored_as stopped = sleeping
stored_as s = s

state_of-letter : (s : ProcState) → state_of (letter s) ≡ stored_as s
unfolding state_of
state_of-letter undefined = refl
state_of-letter running = refl
state_of-letter sleeping = refl
state_of-letter disk_sleeping = refl
state_of-letter stopped = refl
state_of-letter tracing_stopped = refl
state_of-letter zombie = refl
state_of-letter dead = refl
state_of-letter idle = refl

-- A line of the file: a name and a colon, blanks, and the value.
abbrev pub entry : List ℕ → List ℕ → ℕ → List ℕ → List ℕ
entry name blanks c value = name ++ b':' ∷ (blanks ++ c ∷ value)

abbrev pub IsName : List ℕ → Type 0
IsName name = All (λ x. (x == b':') ≡ false) name

abbrev pub AreBlank : List ℕ → Type 0
AreBlank blanks = All (λ x. is_blank x ≡ true) blanks

pub status_line-entry :
    (name blanks : List ℕ) (c : ℕ) (value : List ℕ) (p : Process)
    → IsName name
    → AreBlank blanks
    → is_blank c ≡ false
    → status_line (entry name blanks c value) p
      ≡ status_entry (entry name blanks c value) (c ∷ value) p
unfolding status_line
status_line-entry name blanks c value p n b e =
    rw
      (
        after-append b':' name (blanks ++ c ∷ value) n,
        status_line,
        skip-append is_blank blanks c value b e,
      )
      refl

state_char-letter :
    (s : ProcState) (value : List ℕ)
    → s ≢ undefined
    → (state_char (letter s ∷ value) ≡ letter s) × (is_blank (letter s) ≡ false)
unfolding state_char
state_char-letter undefined value h = absurd (h refl)
state_char-letter running value h = (refl, refl)
state_char-letter sleeping value h = (refl, refl)
state_char-letter disk_sleeping value h = (refl, refl)
state_char-letter stopped value h = (refl, refl)
state_char-letter tracing_stopped value h = (refl, refl)
state_char-letter zombie value h = (refl, refl)
state_char-letter dead value h = (refl, refl)
state_char-letter idle value h = (refl, refl)

state-IsName : IsName (codes "State")
state-IsName = (refl, (refl, (refl, (refl, (refl, tt)))))

threads-IsName : IsName (codes "Threads")
threads-IsName = (refl, (refl, (refl, (refl, (refl, (refl, (refl, tt)))))))

-- The line for the state, with blanks behind the colon: the state is the one of its first capital
-- letter or `t`, and nothing else of the process changes.
pub status_line-state :
    (blanks : List ℕ) (s : ProcState) (value : List ℕ) (p : Process)
    → AreBlank blanks
    → s ≢ undefined
    → status_line (entry (codes "State") blanks (letter s) value) p
      ≡ done (record p { state = stored_as s })
unfolding status_entry read_name read_state read_threads starts_with
status_line-state blanks s value p b h =
    status_line-entry (codes "State") blanks (letter s) value p state-IsName b
      (state_char-letter s value h).1
    ∙ ap (λ (c : ℕ). done (record p { state = state_of c })) (state_char-letter s value h).0
    ∙ ap (λ (t : ProcState). done (record p { state = t })) (state_of-letter s)

digit_blank : (c : ℕ) → IsDigit c → is_blank c ≡ false
digit_blank c d = ground arith

-- The line for the number of threads, with blanks behind the colon and at most seven digits: the
-- number that they stand for, as an `i8`, so 128 threads and more are read as another number;
-- nothing else of the process changes.
pub status_line-threads :
    (blanks : List ℕ) (c : ℕ) (ds : List ℕ) (p : Process)
    → AreBlank blanks
    → All IsDigit (c ∷ ds)
    → length ds < 7
    → status_line (entry (codes "Threads") blanks c (ds ++ 0x0a ∷ [])) p
      ≡ done (record p { num_threads = to_i8 (decimal 0 (c ∷ ds) % 2 ^ 64) })
unfolding status_entry read_name read_state read_threads starts_with
status_line-threads blanks c ds p b d h =
    status_line-entry (codes "Threads") blanks c (ds ++ 0x0a ∷ []) p threads-IsName b
      (digit_blank c d.0)
    ∙ (rw (append_assoc ds (0x0a ∷ []) (0 ∷ []), parsed) refl)
  where
    parsed : parse_u64 (c ∷ (ds ++ 0x0a ∷ 0 ∷ [])) 8 ≡ done (decimal 0 (c ∷ ds) % 2 ^ 64)
    parsed =
        let e : suc (length ds) + (7 - length ds) ≡ 8 = omega arith in
        rw e at (parse_u64_lem (c ∷ ds) (0x0a ∷ 0 ∷ []) (7 - length ds) d (inr refl))
