-- ===== src/Journal/Laws.antt =====
-- What `logs` returns.
use agent_resources.Prelude.{
  ℕ, zero, suc, ◌<◌, ◌≡◌, refl, arith, Option, none, some, List, [], ◌∷◌, Bool, true, false, ◌||◌,
  ◌==◌, length,
}
use agent_resources.Text.{codes}
use agent_resources.Journal.{Library, JournalField, newer, logs_loop, logs}

abbrev pub has_equals : List ℕ → Bool
has_equals [] = false
has_equals (c ∷ text) = c == b'=' || has_equals text

-- What the library documents of a journal. `entries` has the pointer of the field `MESSAGE` of each
-- entry, if there is one, from the oldest on. `ahead` is what of them a state has still to be read,
-- and `current` is the field of the entry that was read last.
pub record IsLawful (L : Library) (entries : List (Option ℕ)) : Type 0 where
  pub ahead : L.State → List (Option ℕ)
  pub current : L.State → Option ℕ
  pub seeks : ahead (L.seek_head L.opened) ≡ entries
  pub next_end : (j : L.State) → ahead j ≡ [] → (L.next j).0 ≡ false
  pub next_entry :
      (j : L.State) {e : Option ℕ} {es : List (Option ℕ)}
      → ahead j ≡ e ∷ es
      → ((L.next j).0 ≡ true) × (ahead (L.next j).1 ≡ es) × (current (L.next j).1 ≡ e)
  -- A match without an equals sign is refused.
  pub refuses : (j : L.State) (text : List ℕ) → has_equals text ≡ false → L.add_match j text ≡ j
  pub reads : (j : L.State) → L.get_data j (codes "MESSAGE") ≡ current j

-- The message of the last entry that has one.
abbrev pub last_message : List (Option ℕ) → Option ℕ → Option ℕ
last_message [] msg = msg
last_message (e ∷ es) msg = last_message es (newer e msg)

module _ (L : Library) {entries : List (Option ℕ)} (law : IsLawful L entries) (garbage : ℕ → List ℕ)
    (plain : (k : ℕ) → has_equals (garbage k) ≡ false) where
  loop_lem :
      (es : List (Option ℕ)) (rounds : ℕ) (j : L.State) (msg : Option ℕ)
      → law.ahead j ≡ es
      → length es < rounds
      → (j' : L.State) × (logs_loop L rounds garbage j msg ≡ some (j', last_message es msg))
  unfolding logs_loop
  loop_lem es zero j msg e h = absurd (omega arith)
  loop_lem [] (suc rounds) j msg e h = ((L.next j).1, rw (law.next_end j e) refl)
  loop_lem (m ∷ es) (suc rounds) j msg e h =
      let (more, behind, here) = law.next_entry j e in
      let (j', r) = loop_lem es rounds (L.next j).1 (newer m msg) behind (omega arith) in
      (j', rw (more, law.refuses (L.next j).1 (garbage rounds) (plain rounds), law.reads, here) r)

-- For a library as it documents itself, where the bytes of the variable without a value hold no
-- equals sign: `logs` ends after one round more than the journal has entries, whatever its three
-- arguments are; it returns the message of the last entry that has one, and NULL if there is none,
-- and it closes the journal.
pub logs_lem :
    (L : Library) {entries : List (Option ℕ)} (rounds : ℕ) (garbage : ℕ → List ℕ)
    (unit time : List ℕ) (jf : JournalField)
    → IsLawful L entries
    → ((k : ℕ) → has_equals (garbage k) ≡ false)
    → length entries < rounds
    → (j : L.State) × (logs L rounds garbage unit time jf
        ≡ some (L.close j, last_message entries none))
unfolding logs
logs_lem L {entries} rounds garbage unit time jf law plain h =
    let (j, r) = loop_lem L law garbage plain entries rounds _ none law.seeks h in (j, rw r refl)
