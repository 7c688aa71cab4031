-- ===== src/Resources/Disk/Push.antt =====
-- `disk_push_partition` appends, or finds no room and changes nothing.
use agent_resources.Prelude.{
  ℕ, ◌+◌, ◌*◌, ◌^◌, ◌≤◌, ◌<◌, ◌≡◌, ◌⊎◌, inl, inr, refl, arith, Option, none, some, [], ◌∷◌, ◌++◌,
  done, true, ◌==◌, ap, ◌∙◌, Option-cases, sym,
}
use agent_resources.Memory.{Memory}
use native.Mathlib.Decide.{ℕ_discrete}
use agent_resources.Arena.{Arena, arena_alloc}
use agent_resources.Arena.Alloc.{arena_alloc-none, arena_alloc_lem, top}
use agent_resources.Arena.Valid
use agent_resources.Resources.Disk.Array.{
  IsValid, Appended, contents, Holds, stored, push_inside, grow_done, asked, pushed_disk,
}
use agent_resources.Resources.Disk.{
  Disk, Partition, disk_push_partition, grow_disk, next_capacity, partition_size,
}

grow_call :
    (d : Disk) (p : Partition) (a : Option Arena) (m : Memory)
    → d.part_count ≡ d.part_capacity
    → disk_push_partition d p a m
      ≡ grow_disk d p (next_capacity d.part_capacity) (asked d) (arena_alloc a (asked d) m)
unfolding disk_push_partition
grow_call d p a m full = rw test refl
  where
    test : (d.part_count == d.part_capacity) ≡ true
    test = ground arith

-- The array is full, and the arena has no room for a larger one.
abbrev pub NoRoom : Disk → Option Arena → Memory → Type 0
NoRoom d a m = (d.part_count ≡ d.part_capacity) × ((arena_alloc a (asked d) m).0 ≡ none)

-- What a call of `disk_push_partition` comes to: the partition is appended, or there is no room.
pub data Pushed (d : Disk) (p : Partition) (a : Option Arena) (m : Memory) : Type 0 where
  appended :
      (d' : Disk) (a' : Option Arena) (m' : Memory)
      → disk_push_partition d p a m ≡ done (d', a', m')
      → Appended d p d'
      → Pushed d p a m
  no_room : NoRoom d a m → Pushed d p a m

-- A push that finds no room changes nothing at all.
pub push-NoRoom :
    (d : Disk) (p : Partition) (a : Option Arena) (m : Memory)
    → NoRoom d a m
    → disk_push_partition d p a m ≡ done (d, a, m)
unfolding grow_disk
push-NoRoom d p a m n = grow_call d p a m n.0 ∙ rw (arena_alloc-none a (asked d) m n.1) refl

grow-Pushed :
    (d : Disk) (p : Partition) (np : ℕ) (a : Option Arena) (m : Memory)
    → IsValid d
    → d.part_count ≡ d.part_capacity
    → d.part_count < 2 ^ 54
    → (arena_alloc a (asked d) m).0 ≡ some np
    → Pushed d p a m
unfolding grow_disk
grow-Pushed d p np a m v full small e =
    let r = arena_alloc a (asked d) m in
    let (f, k) = grow_done d p np r.1 r.2 v full small in
    appended (pushed_disk d p) r.1 r.2 (grow_call d p a m full ∙ rw (e, grow_disk) f) k

inside-Pushed :
    (d : Disk) (p : Partition) (a : Option Arena) (m : Memory)
    → IsValid d
    → d.part_count < d.part_capacity
    → d.part_count < 2 ^ 54
    → Pushed d p a m
inside-Pushed d p a m v h small = elim (Option-cases d.partitions) [
  | inl e ↦ absurd (omega (arith, no_array e v.array))
  | inr (items, e) ↦
      let (f, k) = push_inside d items p a m v e h small in appended (stored d items p) a m f k
]
  where
    no_array : d.partitions ≡ none → Holds d.partitions d.part_capacity → d.part_capacity ≡ 0
    no_array e k = rw e at k

pub push-Pushed :
    (d : Disk) (p : Partition) (a : Option Arena) (m : Memory)
    → IsValid d
    → d.part_count < 2 ^ 54
    → Pushed d p a m
push-Pushed d p a m v small = elim (ℕ_discrete d.part_count d.part_capacity) [
  | yes full ↦ elim (Option-cases (arena_alloc a (asked d) m).0) [
    | inl e ↦ no_room (full, e)
    | inr (np, e) ↦ grow-Pushed d p np a m v full small e
  ]
  | no free ↦ inside-Pushed d p a m v (omega arith) small
]

asked-fits :
    (d : Disk) (a : Arena) (m : Memory)
    → Valid.IsValid a
    → a.current_position + partition_size * next_capacity d.part_capacity ≤ a.capacity
    → (arena_alloc (some a) (asked d) m).0 ≡ some (top a)
asked-fits d a m va h =
    ap (λ (r : Option ℕ × Option Arena × Memory). r.0)
      ((arena_alloc_lem {a = a} (asked d) m va (omega arith)).0 (omega arith))

-- On a valid disk of fewer than 2 ^ 54 partitions, if the array has room, or the arena has room for
-- an array of twice its length (of 8 at first), `disk_push_partition` appends the partition behind
-- the contents, and the disk stays valid.
disk_push_partition_lem :
    (d : Disk) (p : Partition) (a : Arena) (m : Memory)
    → IsValid d
    → d.part_count < 2 ^ 54
    → Valid.IsValid a
    → (d.part_count < d.part_capacity)
      ⊎ (a.current_position + partition_size * next_capacity d.part_capacity ≤ a.capacity)
    → (d' : Disk) × (a' : Option Arena) × (m' : Memory) × (disk_push_partition d p (some a) m
        ≡ done (d', a', m'))
      × IsValid d'
      × (contents d' ≡ contents d ++ p ∷ [])
disk_push_partition_lem d p a m v small va room = elim (push-Pushed d p (some a) m v small) [
  | appended d' a' m' e k ↦ (d', a', m', e, k.valid, k.same_items)
  | no_room n ↦ absurd (full n room)
]
  where
    full :
        NoRoom d (some a) m
        → ((d.part_count < d.part_capacity)
            ⊎ (a.current_position + partition_size * next_capacity d.part_capacity ≤ a.capacity))
        → ⊥
    full n (inl h) = omega arith
    full n (inr h) = none-ne-some (sym n.1 ∙ asked-fits d a m va h)
      where
        none-ne-some : {x : ℕ} → ¬ (none ≡ some x)
        none-ne-some e = cc
