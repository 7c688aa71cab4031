-- ===== src/Journal/Tests.antt =====
-- A journal as a list, and the instance of the theorem on `logs`.
use agent_resources.Prelude.{
  ℕ, ◌≡◌, refl, arith, Option, none, some, List, [], ◌∷◌, Bool, true, false, if◌then◌else◌,
}
use agent_resources.Text.{codes}
use agent_resources.Journal.{
  Library, journal_field_pid, parse_unit_name, journal_field_hostname, logs,
}
use agent_resources.Journal.Laws.{has_equals, IsLawful, logs_lem}

-- The entries that are still to be read, the message of the one that was read, and the matches.
pub record ListState : Type 0 where
  pub ahead : List (Option ℕ)
  pub current : Option ℕ
  pub matches : List (List ℕ)

abbrev next_of : List (Option ℕ) → ListState → Bool × ListState
next_of [] j = (false, j)
next_of (e ∷ es) j = (true, record j { ahead = es; current = e })

abbrev list_library : List (Option ℕ) → Library
list_library entries = record {
  State = ListState;
  opened = record { ahead = []; current = none; matches = [] };
  seek_head = λ j. record j { ahead = entries };
  next = λ j. next_of j.ahead j;
  add_match = λ j text. if has_equals text then record j { matches = text ∷ j.matches } else j;
  get_data = λ j field. j.current;
  close = λ j. record j { ahead = []; current = none };
}

list_library-IsLawful : (entries : List (Option ℕ)) → IsLawful (list_library entries) entries
list_library-IsLawful entries = record {
  ahead = λ j. j.ahead;
  current = λ j. j.current;
  seeks = refl;
  next_end = λ j e. rw e refl;
  next_entry = λ j e. rw e (refl, refl, refl);
  refuses = λ j text e. rw e refl;
  reads = λ j. refl;
}

-- Three entries, the last of which has no message.
abbrev entries : List (Option ℕ)
entries = some 4096 ∷ some 8192 ∷ none ∷ []

-- The variable holds an address.
abbrev bytes : ℕ → List ℕ
bytes k = 0x10 ∷ 0x7f ∷ 0 ∷ []

unit_runs : parse_unit_name (codes "sshd") ≡ journal_field_hostname
unfolding parse_unit_name
unit_runs = refl

logs_lem_example :
    (j : ListState) × (logs (list_library entries) 4 bytes (codes "sshd") [] journal_field_pid
      ≡ some ((list_library entries).close j, some 8192))
logs_lem_example =
    logs_lem (list_library entries) 4 bytes (codes "sshd") [] journal_field_pid
      (list_library-IsLawful entries) (λ k. refl) (omega arith)
