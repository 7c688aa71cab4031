-- ===== src/Resources/Processes/Grow.antt =====
-- The loop of `process_list_collect` where its array grows.
use agent_resources.Prelude.{
  ℕ, suc, ◌+◌, ◌-◌, ◌*◌, ◌/◌, ◌%◌, ◌^◌, ◌≤◌, ◌<◌, ◌≡◌, refl, sym, arith, some, List, [], ◌∷◌, ◌++◌,
  All, done, Bool-cases, true, ◌==◌, ℤ, to_i32, length, length-append, length-replicate, take,
  take-append, replicate, mul64, ◌∙◌, ap, inl, inr,
}
use mathlib.Core.List.{append-nil, append_assoc}
use native.Mathlib.Decide.{dec_lt}
use agent_resources.Memory.{Memory, mem_set}
use agent_resources.Arena.{Arena}
use agent_resources.Arena.Valid.{IsValid, SameStorage, same_refl, same_trans}
use agent_resources.Arena.Alloc.{top, advanced, alloc_room, advanced-IsValid}
use agent_resources.Parse.Number.{decimal}
use agent_resources.Resources.Status.{Process}
use agent_resources.Resources.Processes.{
  ProcList, zero_process, process_size, collect_loop, collect_name, ensure_room, grow_items,
  store_in,
}
use agent_resources.Resources.Processes.Laws.{
  digits_only, listed, IsFileName, numbers, with_items, is_numeric-digits, parse_name,
  store_in-room, room_left,
}

-- The arena has room for the arrays that are still to be made, for `total` processes in all.
abbrev pub HasRoom : ℕ → ℕ → Arena → Type 0
HasRoom total capacity a =
    a.current_position + process_size * (4 * total - 2 * capacity) ≤ a.capacity

-- The array, its capacity, the arena and the memory.
pub record Store : Type 0 where
  pub items : List Process
  pub capacity : ℕ
  pub arena : Arena
  pub memory : Memory

-- For `count` processes in the array, and `total` in the end.
pub record IsStore (total count : ℕ) (t : Store) : Type 0 where
  pub arena_valid : IsValid t.arena
  pub as_long : length t.items ≡ t.capacity
  pub count_in : count ≤ t.capacity
  pub not_empty : 0 < t.capacity
  pub few : total < 2 ^ 56
  pub small : t.capacity < 2 ^ 58
  pub room : HasRoom total t.capacity t.arena

abbrev pub list_of : Store → ℕ → ProcList
list_of t count = with_items t.items count t.capacity

take_all : (items : List Process) → take (length items) items ≡ items
take_all [] = refl
take_all (x ∷ items) = ap (λ t. x ∷ t) (take_all items)

-- The array that is twice as long.
abbrev grown : Store → Store
grown t = record {
  items = t.items ++ replicate t.capacity zero_process;
  capacity = t.capacity * 2;
  arena = advanced t.arena (process_size * (t.capacity * 2));
  memory = mem_set (top t.arena) (process_size * (t.capacity * 2)) t.memory;
}

ensure_room-grown :
    (total count : ℕ) (t : Store)
    → IsStore total count t
    → count < total
    → count ≡ t.capacity
    → ensure_room (list_of t count) (some t.arena) t.memory
      ≡ (some (list_of (grown t) count), some (grown t).arena, (grown t).memory)
unfolding ensure_room grow_items
ensure_room-grown total count t v h e =
    rw
      (
        full,
        twice,
        bytes,
        alloc_room t.arena (process_size * (t.capacity * 2)) t.memory v.arena_valid
            (omega (arith, v.room, e)),
        grow_items,
        twice,
        bytes,
        entries,
        more,
        copied,
      )
      refl
  where
    full : (count == t.capacity) ≡ true
    full = ground arith

    twice : mul64 t.capacity 2 ≡ t.capacity * 2
    twice = omega (arith, v.small)

    bytes : mul64 process_size (t.capacity * 2) ≡ process_size * (t.capacity * 2)
    bytes = omega (arith, v.small)

    entries : process_size * (t.capacity * 2) / process_size ≡ t.capacity * 2
    entries = omega arith

    more : t.capacity * 2 - t.capacity ≡ t.capacity
    more = omega arith

    copied : take t.capacity t.items ≡ t.items
    copied = rw (← v.as_long) (take_all t.items)

-- Room for one more process: as it is, or in a new array.
room_made :
    (total count : ℕ) (t : Store)
    → IsStore total count t
    → count < total
    → (u : Store) × (ensure_room (list_of t count) (some t.arena) t.memory
        ≡ (some (list_of u count), some u.arena, u.memory))
      × IsStore total count u
      × (count < u.capacity)
      × (take count u.items ≡ take count t.items)
      × SameStorage t.arena u.arena
room_made total count t v h = elim (dec_lt count t.capacity) [
  | yes left ↦ (
    t,
    room_left t.items count t.capacity (some t.arena) t.memory left,
    v,
    left,
    refl,
    same_refl t.arena,
  )
  | no full ↦
      let e : count ≡ t.capacity = omega (arith, v.count_in) in
      (
        grown t,
        ensure_room-grown total count t v h e,
        record {
          arena_valid =
              advanced-IsValid t.arena (process_size * (t.capacity * 2)) v.arena_valid
                (omega (arith, v.room, e));
          as_long = omega (
            arith,
            length-append t.items (replicate t.capacity zero_process),
            length-replicate t.capacity zero_process,
            v.as_long,
          );
          count_in = omega (arith, e);
          not_empty = omega (arith, v.not_empty);
          few = v.few;
          small = omega (arith, v.few, e);
          room = omega (arith, v.room, e);
        },
        omega (arith, e, v.not_empty),
        take-append count t.items (replicate t.capacity zero_process) (omega (arith, v.as_long, e)),
        record { same_address = refl; same_base = refl; same_capacity = refl },
      )
]

-- A further process in the array.
stored :
    (total count n : ℕ) (t : Store)
    → IsStore total count t
    → count < t.capacity
    → (items : List Process) × (store_in (list_of t count) n
        ≡ done (list_of (record t { items = items }) (count + 1)))
      × IsStore total (count + 1) (record t { items = items })
      × (numbers (take (count + 1) items) ≡ numbers (take count t.items) ++ to_i32 n ∷ [])
stored total count n t v h =
    let (items, e, k, p) =
      store_in-room t.items count t.capacity n (omega (arith, v.as_long))
        (omega (arith, v.as_long, v.small)) in
    (
      items,
      e,
      record {
        arena_valid = v.arena_valid;
        as_long = k ∙ v.as_long;
        count_in = omega arith;
        not_empty = v.not_empty;
        few = v.few;
        small = v.small;
        room = v.room;
      },
      p,
    )

-- For an array as long as its capacity, and an arena with room for all the arrays that can be
-- needed for `total` processes, those that the list holds and one for each name: the loop of
-- `process_list_collect` returns, growing the array as often as it has to, and stores one process
-- for each name of digits alone, in their order, behind those that the list holds. The arena stays
-- where it is.
pub collect_loop_grows :
    (names : List (List ℕ)) (total count : ℕ) (t : Store)
    → All IsFileName names
    → IsStore total count t
    → count + length names ≤ total
    → (u : Store) × (collect_loop names (list_of t count) (some t.arena) t.memory
        ≡ done (list_of u (count + length (listed names)), some u.arena, u.memory))
      × IsStore total (count + length (listed names)) u
      × (numbers (take (count + length (listed names)) u.items)
          ≡ numbers (take count t.items) ++ listed names)
      × SameStorage t.arena u.arena
unfolding collect_loop collect_name
collect_loop_grows [] total count t f v h =
    rw (add_zero count) (t, refl, v, sym (append-nil _), same_refl t.arena)
  where
    add_zero : (n : ℕ) → n + 0 ≡ n
    add_zero n = omega arith
collect_loop_grows (name ∷ names) total count t f v h = elim (Bool-cases (digits_only name)) [
  | inr other ↦
      rw (is_numeric-digits name f.0.0, other, collect_loop)
        (collect_loop_grows names total count t f.1 v (omega arith))
  | inl number ↦
      let n = decimal 0 name % 2 ^ 64 in
      let (t1, e1, v1, left, same, s1) = room_made total count t v (omega arith) in
      let (items, e2, v2, p2) = stored total count n t1 v1 left in
      let (u, e3, v3, p3, s3) =
        collect_loop_grows names total (count + 1) (record t1 { items = items }) f.1 v2
          (omega arith) in
      let before = p2 ∙ ap (λ xs. numbers xs ++ to_i32 n ∷ []) same in
      rw
        (
          is_numeric-digits name f.0.0,
          number,
          collect_loop,
          e1,
          collect_name,
          parse_name name f.0 number,
          e2,
        )
        (
          u,
          rw (plus_one (length (listed names))) at e3,
          rw (plus_one (length (listed names))) at v3,
          (rw (plus_one (length (listed names))) at p3)
              ∙ ap (λ (z : List ℤ). z ++ listed names) before
              ∙ append_assoc (numbers (take count t.items)) (to_i32 n ∷ []) (listed names),
          same_trans s1 s3,
        )
]
  where
    plus_one : (n : ℕ) → count + 1 + n ≡ count + suc n
    plus_one n = omega arith
