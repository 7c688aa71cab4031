-- ===== src/Resources/Processes/Laws.antt =====
-- What `process_list_collect` makes of the names in /proc.
use agent_resources.Prelude.{
  ℕ, zero, suc, ◌+◌, ◌-◌, ◌%◌, ◌^◌, ◌≤◌, ◌<◌, ◌≡◌, refl, sym, arith, Option, some, List, [], ◌∷◌,
  ◌++◌, map, All, done, Bool, Bool-cases, true, false, not, ◌&&◌, if◌then◌else◌, ◌==◌, ℤ, to_i32,
  length, take, drop, set, length-set, take-set, add64, ◌∙◌, ap, inl, inr,
}
use native.Mathlib.Numerals.{add-one}
use mathlib.Core.List.{append-nil, append_assoc, map-append}
use agent_resources.Memory.{Memory}
use agent_resources.Arena.{Arena}
use agent_resources.Parse.{not_digit, is_numeric, parse_u64}
use agent_resources.Parse.Number.{IsDigit, decimal, parse_u64_lem}
use agent_resources.Resources.Status.{Process}
use agent_resources.Resources.Processes.{
  ProcList, collect_loop, collect_name, d_name, process_at, store_in, store_process, ensure_room,
}

-- Every byte is a digit.
abbrev pub digits_only : List ℕ → Bool
digits_only [] = true
digits_only (c ∷ s) = not (not_digit c) && digits_only s

-- The numbers of the processes that the names stand for, in their order.
abbrev pub listed : List (List ℕ) → List ℤ
listed [] = []
listed (name ∷ names) =
    if digits_only name then to_i32 (decimal 0 name % 2 ^ 64) ∷ listed names else listed names

-- A name that a directory can hold.
abbrev pub IsFileName : List ℕ → Type 0
IsFileName name = All (λ c. 0 < c) name × (length name ≤ 255)

abbrev pub numbers : List Process → List ℤ
numbers items = map (λ (p : Process). p.pid) items

-- A list of processes with its array.
abbrev pub with_items : List Process → ℕ → ℕ → ProcList
with_items items count capacity = record { items = some items; count = count; capacity = capacity }

pub is_numeric-digits :
    (name : List ℕ)
    → All (λ c. 0 < c) name
    → is_numeric (d_name name) ≡ done (if digits_only name then 1 else 0)
unfolding is_numeric
is_numeric-digits [] h = refl
is_numeric-digits (c ∷ name) h = elim (Bool-cases (not_digit c)) [
  | inl other ↦ rw (not_nul h.0, other) refl
  | inr digit ↦ rw (not_nul h.0, digit) (is_numeric-digits name h.1)
]
  where
    not_nul : {c : ℕ} → 0 < c → (c == 0) ≡ false
    not_nul h = ground arith

digits_only-IsDigit : (name : List ℕ) → digits_only name ≡ true → All IsDigit name
digits_only-IsDigit [] h = tt
digits_only-IsDigit (c ∷ name) h = elim (Bool-cases (not_digit c)) [
  | inl other ↦ absurd (clash (rw other at h))
  | inr digit ↦ (IsDigit-of c digit, digits_only-IsDigit name (rw digit at h))
]
  where
    clash : ¬ (false ≡ true)
    clash e = cc

    IsDigit-of : (c : ℕ) → not_digit c ≡ false → IsDigit c
    IsDigit-of c t = ground arith

pub parse_name :
    (name : List ℕ)
    → IsFileName name
    → digits_only name ≡ true
    → parse_u64 (d_name name) 256 ≡ done (decimal 0 name % 2 ^ 64)
parse_name name f h =
    let e : length name + (256 - length name) ≡ 256 = omega (arith, f.1) in
    rw e at
      (parse_u64_lem name (0 ∷ []) (256 - length name) (digits_only-IsDigit name h) (inr refl))

drop-cons :
    (k : ℕ) (items : List Process)
    → k < length items
    → (old : Process) × (more : List Process) × (drop k items ≡ old ∷ more)
drop-cons k [] h = absurd (omega arith)
drop-cons zero (x ∷ items) h = (x, items, refl)
drop-cons (suc k) (x ∷ items) h = drop-cons k items (omega arith)

-- A process that is stored in an array with room: only the array and the count change.
pub store_in-room :
    (items : List Process) (count capacity n : ℕ)
    → count < length items
    → length items < 2 ^ 60
    → (items' : List Process) × (store_in (with_items items count capacity) n
        ≡ done (with_items items' (count + 1) capacity))
      × (length items' ≡ length items)
      × (numbers (take (count + 1) items') ≡ numbers (take count items) ++ to_i32 n ∷ [])
unfolding store_in store_process
store_in-room items count capacity n h small =
    let (old, more, e) = drop-cons count items h in
    (
      set items count (process_at old n),
      rw (e, counted) refl,
      length-set items count (process_at old n),
      ap numbers (rw add-one (take-set count items (process_at old n) h))
          ∙ map-append (λ (p : Process). p.pid) (take count items) (process_at old n ∷ []),
    )
  where
    counted : add64 count 1 ≡ count + 1
    counted = omega arith

pub room_left :
    (items : List Process) (count capacity : ℕ) (arena : Option Arena) (m : Memory)
    → count < capacity
    → ensure_room (with_items items count capacity) arena m
      ≡ (some (with_items items count capacity), arena, m)
unfolding ensure_room
room_left items count capacity arena m h = rw test refl
  where
    test : (count == capacity) ≡ false
    test = ground arith

-- For an array as long as its capacity, below 2 ^ 60, with room for all names, and names as a directory
-- holds them: the loop of `process_list_collect` returns, without a further allocation, and stores one
-- process for each name of digits alone, in their order, behind those that the list holds.
pub collect_loop_lem :
    (names : List (List ℕ)) (items : List Process) (count capacity : ℕ) (arena : Option Arena)
    (m : Memory)
    → All IsFileName names
    → length items ≡ capacity
    → count + length names ≤ capacity
    → capacity < 2 ^ 60
    → (items' : List Process) × (collect_loop names (with_items items count capacity) arena m
        ≡ done (with_items items' (count + length (listed names)) capacity, arena, m))
      × (length items' ≡ capacity)
      × (numbers (take (count + length (listed names)) items')
          ≡ numbers (take count items) ++ listed names)
unfolding collect_loop collect_name
collect_loop_lem [] items count capacity arena m f l h small =
    rw (add_zero count) (items, refl, l, sym (append-nil _))
  where
    add_zero : (n : ℕ) → n + 0 ≡ n
    add_zero n = omega arith
collect_loop_lem (name ∷ names) items count capacity arena m f l h small =
    elim (Bool-cases (digits_only name)) [
      | inr other ↦
          rw (is_numeric-digits name f.0.0, other, collect_loop)
            (collect_loop_lem names items count capacity arena m f.1 l (omega arith) small)
      | inl number ↦
          let n = decimal 0 name % 2 ^ 64 in
          let room = room_left items count capacity arena m (omega arith) in
          let (items', e, k, p) =
            store_in-room items count capacity n (omega arith) (omega arith) in
          let (items'', e', k', p') =
            collect_loop_lem names items' (count + 1) capacity arena m f.1 (k ∙ l) (omega arith)
              small in
          rw
            (
              is_numeric-digits name f.0.0,
              number,
              collect_loop,
              room,
              collect_name,
              parse_name name f.0 number,
              e,
            )
            (
              items'',
              rw (plus_one (length (listed names))) at e',
              k',
              (rw (plus_one (length (listed names))) at p')
                  ∙ ap (λ (t : List ℤ). t ++ listed names) p
                  ∙ append_assoc (numbers (take count items)) (to_i32 n ∷ []) (listed names),
            )
    ]
  where
    plus_one : (n : ℕ) → count + 1 + n ≡ count + suc n
    plus_one n = omega arith
