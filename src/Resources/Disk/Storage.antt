-- ===== src/Resources/Disk/Storage.antt =====
-- The arena through `disk_read`: it stays where it is, and as long as it is.
use agent_resources.Prelude.{
  refl, ◌∙◌, true, false, Returns, bind-Returns, ◌≡◌, ℕ, ◌+◌, ◌<◌, ◌^◌, length, Bool, Option,
  Option-cases, none, some, List, [], ◌∷◌, Run, done, aborted, fault, ◌>>=◌, ◌==◌, Bool-cases, inl,
  inr,
}
use agent_resources.Memory.{Memory}
use agent_resources.Arena.{Arena, arena_alloc, arena_destroy}
use agent_resources.Arena.Valid.{
  SameStorage, same_refl, same_trans, alloc-SameStorage, alloc_destroyed,
}
use agent_resources.Resources.Disk.{
  Disk, Partition, Scanned, partition_of, store_partition, grow_disk, disk_push_partition,
  disk_lines, disk_read,
}
use agent_resources.Resources.{File, err_ok}
use agent_resources.Resources.Disk.Array.{asked, IsValid}
use agent_resources.Resources.Disk.Read.{parsed, lines-Filled}

-- If the operation returns, then with the storage of `a`.
abbrev pub Keeps : Arena → Run (Disk × Option Arena × Memory) → Type 0
Keeps a (done (d, some b, m)) = SameStorage a b
Keeps a (done (d, none, m)) = ⊥
Keeps a aborted = Unit
Keeps a fault = Unit

bind-Keeps :
    (a b : Arena) (m : Memory) (r : Run Disk)
    → SameStorage a b
    → Keeps a (r >>= λ d. done (d, some b, m))
bind-Keeps a b m (done d) h = h
bind-Keeps a b m aborted h = tt
bind-Keeps a b m fault h = tt

grow-Keeps :
    (d : Disk) (p : Partition) (c n : ℕ) (a b : Arena) (out : Option ℕ) (m : Memory)
    → SameStorage a b
    → Keeps a (grow_disk d p c n (out, some b, m))
unfolding grow_disk
grow-Keeps d p c n a b none m h = h
grow-Keeps d p c n a b (some np) m h = bind-Keeps a b m _ h

pub push-Keeps :
    (d : Disk) (p : Partition) (a : Arena) (m : Memory)
    → Keeps a (disk_push_partition d p (some a) m)
unfolding disk_push_partition arena_alloc
push-Keeps d p a m = elim (Bool-cases (d.part_count == d.part_capacity)) [
  | inl full ↦ rw full (grow-Keeps d p _ _ a _ _ _ (alloc-SameStorage a (asked d) m))
  | inr free ↦ rw free (bind-Keeps a a m (store_partition d p) (same_refl a))
]

module _ (scan : List ℕ → Option Scanned) where
  pub lines-Keeps :
      (lines : List (List ℕ)) (d : Disk) (a : Arena) (m : Memory)
      → Keeps a (disk_lines scan lines d (some a) m)
  unfolding disk_lines
  lines-Keeps [] d a m = same_refl a
  lines-Keeps (line ∷ lines) d a m = elim (Option-cases (scan line)) [
    | inl e ↦ rw (e, disk_lines) (lines-Keeps lines d a m)
    | inr (s, e) ↦
        rw (e, disk_lines)
          (after (disk_push_partition d (partition_of s) (some a) m)
            (push-Keeps d (partition_of s) a m) (lines-Keeps lines))
  ]
    where
      farther :
          (a b : Arena) (r : Run (Disk × Option Arena × Memory))
          → SameStorage a b
          → Keeps b r
          → Keeps a r
      farther a b (done (d, some c, m)) h k = same_trans h k
      farther a b (done (d, none, m)) h k = elim k [ ]
      farther a b aborted h k = tt
      farther a b fault h k = tt

      after :
          (r : Run (Disk × Option Arena × Memory))
          → Keeps a r
          → ((d : Disk) (b : Arena) (m : Memory) → Keeps b (disk_lines scan lines d (some b) m))
          → Keeps a (r >>= λ r. disk_lines scan lines r.0 r.1 r.2)
      after (done (d, some b, m)) h all = farther a b _ h (all d b m)
      after (done (d, none, m)) h all = elim h [ ]
      after aborted h all = tt
      after fault h all = tt

-- `disk_read` on a file that it can open returns with an arena over the same storage.
pub disk_read-SameStorage :
    (scan : List ℕ → Option Scanned) (asserts : Bool) (lines : List (List ℕ)) (d : Disk) (a : Arena)
    (m : Memory)
    → IsValid d
    → d.part_count + length (parsed scan lines) < 2 ^ 54
    → (d' : Disk) × (b : Arena) × (m' : Memory) × (disk_read scan asserts
          (some d)
          (some a)
          m
          (some lines)
        ≡ done (err_ok, some d', some b, m'))
      × SameStorage a b
unfolding disk_read
disk_read-SameStorage scan asserts lines d a m v few =
    let r = lines-Filled scan lines d (some a) m v few in
    read_back r.disk r.arena r.memory r.returns
  where
    read_back :
        (d' : Disk) (o : Option Arena) (m' : Memory)
        → disk_lines scan lines d (some a) m ≡ done (d', o, m')
        → (d' : Disk) × (b : Arena) × (m' : Memory) × (disk_read scan asserts
              (some d)
              (some a)
              m
              (some lines)
            ≡ done (err_ok, some d', some b, m'))
          × SameStorage a b
    read_back d' none m' e = absurd (rw e at (lines-Keeps scan lines d a m))
    read_back d' (some b) m' e = (d', b, m', rw e refl, rw e at (lines-Keeps scan lines d a m))

-- Whatever the file and the arena are, the arena that `disk_read` returns is over the same storage.
module _ (arena : Option Arena) where
  abbrev SameEnd : Option Arena → Type 0
  SameEnd arena' = arena_destroy arena' ≡ arena_destroy arena

  grow_end :
      (d : Disk) (p : Partition) (c n : ℕ) (r : Option ℕ × Option Arena × Memory)
      → SameEnd r.1
      → Returns (λ r. SameEnd r.1) (grow_disk d p c n r)
  unfolding grow_disk
  grow_end d p c n (none, b, m) h = h
  grow_end d p c n (some np, b, m) h = bind-Returns _ (store_partition _ p) _ (λ _ _. h)

  push_end :
      (d : Disk) (p : Partition) (m : Memory)
      → Returns (λ r. SameEnd r.1) (disk_push_partition d p arena m)
  unfolding disk_push_partition
  push_end d p m = elim (Bool-cases (d.part_count == d.part_capacity)) [
    | inl full ↦
        rw full
          (grow_end d p _ _ (arena_alloc arena (asked d) m) (alloc_destroyed arena (asked d) m))
    | inr free ↦ rw free (bind-Returns _ (store_partition d p) _ (λ _ _. refl))
  ]

module _ (scan : List ℕ → Option Scanned) where
  lines_end :
      (lines : List (List ℕ)) (d : Disk) (arena arena' : Option Arena) (m : Memory)
      → SameEnd arena arena'
      → Returns (λ r. SameEnd arena r.1) (disk_lines scan lines d arena' m)
  unfolding disk_lines
  lines_end [] d arena arena' m h = h
  lines_end (line ∷ lines) d arena arena' m h = elim (Option-cases (scan line)) [
    | inl e ↦ rw (e, disk_lines) (lines_end lines d arena arena' m h)
    | inr (s, e) ↦
        rw (e, disk_lines)
          (let first = disk_push_partition d (partition_of s) arena' m in
            bind-Returns _ first _ (λ r e'.
              lines_end lines r.0 arena r.1 r.2
                ((rw e' at (push_end arena' d (partition_of s) m)) ∙ h)))
  ]

  pub disk_read-SameEnd :
      (asserts : Bool) (d : Option Disk) (arena : Option Arena) (m : Memory) (file : File)
      → Returns (λ r. SameEnd arena r.2) (disk_read scan asserts d arena m file)
  unfolding disk_read
  disk_read-SameEnd true none arena m file = tt
  disk_read-SameEnd false none arena m file = refl
  disk_read-SameEnd true (some d) arena m none = tt
  disk_read-SameEnd false (some d) arena m none = refl
  disk_read-SameEnd asserts (some d) arena m (some lines) =
      bind-Returns _ (disk_lines scan lines d arena m) _
        (λ r e. rw e at (lines_end lines d arena arena m refl))
