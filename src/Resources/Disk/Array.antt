-- ===== src/Resources/Disk/Array.antt =====
-- The array of partitions: what is stored and what is moved when it grows.
use agent_resources.Prelude.{
  ℕ, ◌+◌, ◌-◌, ◌*◌, ◌/◌, ◌^◌, ◌≤◌, ◌<◌, ◌≡◌, refl, arith, Option, none, some, List, [], ◌∷◌, ◌++◌,
  done, true, false, length, take, replicate, set, length-take, length-set, length-append,
  length-replicate, take-set, take-append, take-take, mul64, add64, ◌==◌, ltb, ◌∙◌,
}
use native.Mathlib.Numerals.{add-one}
use agent_resources.Memory.{Memory}
use agent_resources.Arena.{Arena}
use agent_resources.Resources.Disk.{
  Disk, Partition, disk_push_partition, store_partition, grow_disk, moved, next_capacity,
  partition_size, zero_partition,
}

-- The array has as many items as the capacity says.
abbrev pub Holds : Option (List Partition) → ℕ → Type 0
Holds none capacity = capacity ≡ 0
Holds (some items) capacity = length items ≡ capacity

pub record IsValid (d : Disk) : Type 0 where
  pub count_in : d.part_count ≤ d.part_capacity
  pub not_wasted : d.part_capacity ≤ 8 + 2 * d.part_count
  pub array : Holds d.partitions d.part_capacity

abbrev pub items_of : Option (List Partition) → List Partition
items_of none = []
items_of (some items) = items

-- The partitions that the disk holds.
abbrev pub contents : Disk → List Partition
contents d = take d.part_count (items_of d.partitions)

-- `d'` is valid and holds what `d` holds, and then `p`.
pub record Appended (d : Disk) (p : Partition) (d' : Disk) : Type 0 where
  pub valid : IsValid d'
  pub counted : d'.part_count ≡ d.part_count + 1
  pub same_items : contents d' ≡ contents d ++ p ∷ []

abbrev pub stored : Disk → List Partition → Partition → Disk
stored d items p = record d {
  partitions = some (set items d.part_count p);
  part_count = d.part_count + 1;
}

pub store_partition-set :
    (d : Disk) (items : List Partition) (p : Partition)
    → d.partitions ≡ some items
    → d.part_count < length items
    → d.part_count < 2 ^ 60
    → store_partition d p ≡ done (stored d items p)
unfolding store_partition
store_partition-set d items p e h small = rw (e, in_range, counted) refl
  where
    in_range : ltb d.part_count (length items) ≡ true
    in_range = ground arith

    counted : add64 d.part_count 1 ≡ d.part_count + 1
    counted = omega arith

pub stored-Appended :
    (d : Disk) (items before : List Partition) (p : Partition)
    → d.part_count < d.part_capacity
    → d.part_capacity ≤ 8 + 2 * (d.part_count + 1)
    → length items ≡ d.part_capacity
    → take d.part_count items ≡ before
    → IsValid (stored d items p)
      × (take (d.part_count + 1) (set items d.part_count p) ≡ before ++ p ∷ [])
stored-Appended d items before p h w e t = (
  record { count_in = omega arith; not_wasted = w; array = length-set items d.part_count p ∙ e },
  rw (add-one, ← t) (take-set d.part_count items p (omega arith)),
)

pub length-moved :
    (o : Option (List Partition)) (count capacity room : ℕ)
    → Holds o capacity
    → count ≤ capacity
    → count ≤ room
    → (length (moved o count room) ≡ room)
      × (take count (moved o count room) ≡ take count (items_of o))
length-moved none count capacity room h c r =
    let z : count ≡ 0 = omega arith in (length-replicate room zero_partition, rw z refl)
length-moved (some items) count capacity room h c r = (
  length-append (take count items) (replicate (room - count) zero_partition)
      ∙ omega (arith, length-take count items, length-replicate (room - count) zero_partition),
  take-append count (take count items) _ (omega (arith, length-take count items))
      ∙ take-take count items,
)

-- Room in the array: no memory is asked for.
pub push_inside :
    (d : Disk) (items : List Partition) (p : Partition) (a : Option Arena) (m : Memory)
    → IsValid d
    → d.partitions ≡ some items
    → d.part_count < d.part_capacity
    → d.part_count < 2 ^ 54
    → (disk_push_partition d p a m ≡ done (stored d items p, a, m))
      × Appended d p (stored d items p)
unfolding disk_push_partition
push_inside d items p a m v e h small = (
  rw (not_full, store_partition-set d items p e (omega (arith, full_length)) (omega arith)) refl,
  record { valid = both.0; counted = refl; same_items = both.1 },
)
  where
    full_length : length items ≡ d.part_capacity
    full_length = rw e at v.array

    not_full : (d.part_count == d.part_capacity) ≡ false
    not_full = ground arith

    both :
        IsValid (stored d items p)
        × (take (d.part_count + 1) (set items d.part_count p) ≡ contents d ++ p ∷ [])
    both = stored-Appended d items (contents d) p h (omega arith) full_length (rw e refl)

abbrev pub asked : Disk → ℕ
asked d = mul64 partition_size (next_capacity d.part_capacity)

pub room_lem :
    (d : Disk)
    → d.part_count ≡ d.part_capacity
    → d.part_count < 2 ^ 54
    → (asked d / partition_size ≡ next_capacity d.part_capacity)
      × (d.part_count < next_capacity d.part_capacity)
      × (next_capacity d.part_capacity ≤ 8 + 2 * (d.part_count + 1))
room_lem d full small = (ground arith, ground arith, ground arith)

abbrev pub moved_disk : Disk → Disk
moved_disk d = record d {
  partitions = some (moved d.partitions d.part_count (asked d / partition_size));
  part_capacity = next_capacity d.part_capacity;
}

abbrev pub pushed_disk : Disk → Partition → Disk
pushed_disk d p =
    stored (moved_disk d) (moved d.partitions d.part_count (asked d / partition_size)) p

-- The array is full, and memory for a larger one is there.
pub grow_done :
    (d : Disk) (p : Partition) (np : ℕ) (a : Option Arena) (m : Memory)
    → IsValid d
    → d.part_count ≡ d.part_capacity
    → d.part_count < 2 ^ 54
    → (grow_disk d p (next_capacity d.part_capacity) (asked d) (some np, a, m)
        ≡ done (pushed_disk d p, a, m))
      × Appended d p (pushed_disk d p)
unfolding grow_disk
grow_done d p np a m v full small = (
  rw
      (store_partition-set (moved_disk d)
        (moved d.partitions d.part_count (asked d / partition_size)) p refl
        (omega (arith, sizes.0, room.0, room.1)) (omega arith))
      refl,
  record { valid = both.0; counted = refl; same_items = both.1 },
)
  where
    room :
        (asked d / partition_size ≡ next_capacity d.part_capacity)
        × (d.part_count < next_capacity d.part_capacity)
        × (next_capacity d.part_capacity ≤ 8 + 2 * (d.part_count + 1))
    room = room_lem d full small

    sizes :
        (length (moved d.partitions d.part_count (asked d / partition_size))
          ≡ asked d / partition_size)
        × (take d.part_count (moved d.partitions d.part_count (asked d / partition_size))
            ≡ contents d)
    sizes =
        length-moved d.partitions d.part_count d.part_capacity _ v.array v.count_in
          (omega (arith, room.0, room.1))

    both :
        IsValid (pushed_disk d p)
        × (take
              (d.part_count + 1)
              (set (moved d.partitions d.part_count (asked d / partition_size)) d.part_count p)
            ≡ contents d ++ p ∷ [])
    both = stored-Appended (moved_disk d) _ (contents d) p room.1 room.2 (sizes.0 ∙ room.0) sizes.1
