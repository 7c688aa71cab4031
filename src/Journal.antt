-- ===== src/Journal.antt =====
-- journal/journald.cc and journal/journald.h: the messages of the system's journal.
--
-- The journal's library, libsystemd, is a `Library`. A pointer to the data of a field is a number,
-- and NULL is `none`. `garbage` are the bytes of the local variable `data`, which has no value, at
-- each round of the loop. The loop has no bound of its own: `rounds` is the number of rounds that are
-- looked at, and the result is `none` while the loop still runs.
pub mod Laws
mod Tests
use agent_resources.Prelude.{ℕ, zero, suc, Option, none, some, List, Bool, if◌then◌else◌, ◌==◌}
use agent_resources.Text.{codes}

pub data JournalField : Type 0 where
  journal_field_priority journal_field_message journal_field_timestamp : JournalField
  journal_field_pid journal_field_uid journal_field_gid journal_field_comm : JournalField
  journal_field_exe journal_field_systemd_unit journal_field_systemd_user_unit : JournalField
  journal_field_boot_id journal_field_machine_id journal_field_hostname : JournalField
  journal_field_transport journal_field_count : JournalField

-- The state of a journal is NULL where it could not be opened. `next` is whether its result is above
-- 0, and the state behind it. `get_data` is the pointer that a result of 0 gives for a field.
pub record Library : Type 1 where
  pub State : Type 0
  pub opened : State
  pub seek_head : State → State
  pub next : State → Bool × State
  pub add_match : State → List ℕ → State
  pub get_data : State → List ℕ → Option ℕ
  pub close : State → State

pub parse_unit_name : List ℕ → JournalField
parse_unit_name unit = journal_field_hostname

-- `msg` behind the call of `sd_journal_get_data`.
abbrev pub newer : Option ℕ → Option ℕ → Option ℕ
newer none msg = msg
newer (some data_pointer) msg = some data_pointer

module _ (L : Library) where
  -- The loop: the journal's state behind it, and `msg`.
  pub logs_loop : ℕ → (ℕ → List ℕ) → L.State → Option ℕ → Option (L.State × Option ℕ)
  logs_loop zero garbage journal msg = none
  logs_loop (suc rounds) garbage journal msg =
      let n = L.next journal in
      let matched = L.add_match n.1 (garbage rounds) in
      let rest =
        logs_loop rounds garbage matched (newer (L.get_data matched (codes "MESSAGE")) msg) in
      if n.0 then rest else some (n.1, msg)

  abbrev pub close_logs : Option (L.State × Option ℕ) → Option (L.State × Option ℕ)
  close_logs none = none
  close_logs (some (journal, msg)) = some (L.close journal, msg)

  -- The journal's state and the pointer that is returned.
  pub logs : ℕ → (ℕ → List ℕ) → List ℕ → List ℕ → JournalField → Option (L.State × Option ℕ)
  logs rounds garbage unit time jf =
      close_logs (logs_loop rounds garbage (L.seek_head L.opened) none)
