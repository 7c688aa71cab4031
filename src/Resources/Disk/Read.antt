-- ===== src/Resources/Disk/Read.antt =====
-- `disk_read`: which lines of /proc/partitions end up in the disk.
use agent_resources.Prelude.{
  ap, inr, inl, ◌⊎◌, ◌∙◌, Option-cases, sym, ℕ, suc, ◌+◌, ◌^◌, ◌<◌, ◌≡◌, refl, arith, Option, none,
  some, List, [], ◌∷◌, ◌++◌, Bool, Run, done, length, take,
}
use mathlib.Core.List.{append_assoc, append-nil}
use agent_resources.Memory.{Memory}
use agent_resources.Arena.{Arena}
use agent_resources.Resources.{err_ok}
use agent_resources.Resources.Disk.{Disk, Partition, Scanned, partition_of, disk_lines, disk_read}
use agent_resources.Resources.Disk.Array.{IsValid, contents}
use agent_resources.Resources.Disk.Push.{appended, no_room, NoRoom, push-Pushed, push-NoRoom}

-- What the lines leave: a valid disk with the first `k` partitions behind what it held; they are
-- all partitions, or there is no room left.
pub record Filled (ps : List Partition) (d : Disk) (result : Run (Disk × Option Arena × Memory))
    : Type 0 where
  pub disk : Disk
  pub arena : Option Arena
  pub memory : Memory
  pub k : ℕ
  pub returns : result ≡ done (disk, arena, memory)
  pub valid : IsValid disk
  pub same_items : contents disk ≡ contents d ++ take k ps
  pub complete : (k ≡ length ps) ⊎ NoRoom disk arena memory

Filled-none :
    (ps : List Partition) (d : Disk) (a : Option Arena) (m : Memory)
    → IsValid d
    → NoRoom d a m
    → Filled ps d (done (d, a, m))
Filled-none ps d a m v n = record {
  disk = d;
  arena = a;
  memory = m;
  k = 0;
  returns = refl;
  valid = v;
  same_items = sym (append-nil (contents d));
  complete = inr n;
}

Filled-cons :
    (p : Partition) (ps : List Partition) (d d' : Disk)
    (result : Run (Disk × Option Arena × Memory))
    → contents d' ≡ contents d ++ p ∷ []
    → Filled ps d' result
    → Filled (p ∷ ps) d result
Filled-cons p ps d d' result e r = record {
  disk = r.disk;
  arena = r.arena;
  memory = r.memory;
  k = suc r.k;
  returns = r.returns;
  valid = r.valid;
  same_items =
      r.same_items
      ∙ ap (λ (t : List Partition). t ++ take r.k ps) e
      ∙ append_assoc (contents d) (p ∷ []) (take r.k ps);
  complete = elim r.complete [ inl all ↦ inl (ap suc all) | inr n ↦ inr n ];
}

module _ (scan : List ℕ → Option Scanned) where
  -- The partitions that the lines name, without the lines that `sscanf` does not read.
  unfoldable pub parsed : List (List ℕ) → List Partition
  parsed [] = []
  parsed (line ∷ lines) = elim (scan line) [
    | none ↦ parsed lines
    | some s ↦ partition_of s ∷ parsed lines
  ]

  -- With no room for one partition, there is none for any further one.
  lines-NoRoom :
      (lines : List (List ℕ)) (d : Disk) (a : Option Arena) (m : Memory)
      → NoRoom d a m
      → disk_lines scan lines d a m ≡ done (d, a, m)
  unfolding disk_lines
  lines-NoRoom [] d a m n = refl
  lines-NoRoom (line ∷ lines) d a m n = elim (Option-cases (scan line)) [
    | inl e ↦ rw (e, disk_lines) (lines-NoRoom lines d a m n)
    | inr (s, e) ↦
        rw (e, disk_lines, push-NoRoom d (partition_of s) a m n) (lines-NoRoom lines d a m n)
  ]

  pub lines-Filled :
      (lines : List (List ℕ)) (d : Disk) (a : Option Arena) (m : Memory)
      → IsValid d
      → d.part_count + length (parsed lines) < 2 ^ 54
      → Filled (parsed lines) d (disk_lines scan lines d a m)
  unfolding disk_lines parsed
  lines-Filled [] d a m v h = record {
    disk = d;
    arena = a;
    memory = m;
    k = 0;
    returns = refl;
    valid = v;
    same_items = sym (append-nil (contents d));
    complete = inl refl;
  }
  lines-Filled (line ∷ lines) d a m v h = elim (Option-cases (scan line)) [
    | inl e ↦ rw (e, disk_lines, parsed) (lines-Filled lines d a m v (rw (e, parsed) at h))
    | inr (s, e) ↦ elim (push-Pushed d (partition_of s) a m v (omega arith)) [
      | appended d' a' m' f k ↦
          rw (e, disk_lines, parsed, f)
            (Filled-cons (partition_of s) (parsed lines) d d' _ k.same_items (
              lines-Filled lines d' a' m' k.valid (
                let h' : d.part_count + suc (length (parsed lines)) < 2 ^ 54 =
                  rw (e, parsed) at h in
                omega (arith, k.counted))))
      | no_room n ↦
          rw
            (
              e,
              disk_lines,
              parsed,
              push-NoRoom d (partition_of s) a m n,
              lines-NoRoom lines d a m n,
            )
            (Filled-none (partition_of s ∷ parsed lines) d a m v n)
    ]
  ]

  -- `disk_read` on a valid disk and a file that it can open, with fewer than 2 ^ 54 partitions in both
  -- together, returns `ERR_OK`, and leaves a valid disk with the partitions of the first `k` lines
  -- that `sscanf` reads, in order, behind those it held. It leaves out none, unless the arena has no
  -- room for a larger array.
  pub disk_read_lem :
      (asserts : Bool) (lines : List (List ℕ)) (d : Disk) (a : Option Arena) (m : Memory)
      → IsValid d
      → d.part_count + length (parsed lines) < 2 ^ 54
      → (d' : Disk) × (a' : Option Arena) × (m' : Memory) × (k : ℕ) × (disk_read scan asserts
            (some d)
            a
            m
            (some lines)
          ≡ done (err_ok, some d', a', m'))
        × IsValid d'
        × (contents d' ≡ contents d ++ take k (parsed lines))
        × ((k ≡ length (parsed lines)) ⊎ NoRoom d' a' m')
  unfolding disk_read
  disk_read_lem asserts lines d a m v h =
      let r = lines-Filled lines d a m v h in
      (r.disk, r.arena, r.memory, r.k, rw r.returns refl, r.valid, r.same_items, r.complete)
