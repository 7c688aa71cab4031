-- ===== src/Arena/Refine/Contents.antt =====
-- The bytes of the blocks in the memory.
use agent_resources.Prelude.{
  ℕ, zero, suc, ◌+◌, ◌≤◌, ◌<◌, ◌≡◌, refl, sym, ◌∙◌, arith, ap, ap₂, List, [], ◌∷◌, length,
  replicate, set, length-set, ltb, Bool-cases, ltb→lt, ◌⊎◌, inl, inr, true, false,
}
use mathlib.Core.Path.{subst}
use agent_resources.Memory.{
  Memory, mem_set, store_byte, mem_set_within, store_byte_self, store_byte_other,
}
use agent_resources.Arena.Refine.{Blocks, used_bytes, store_at, store_block}

-- The `n` bytes from an address on.
abbrev pub bytes_at : Memory → ℕ → ℕ → List ℕ
bytes_at m p zero = []
bytes_at m p (suc n) = m p ∷ bytes_at m (p + 1) n

pub bytes_at-same :
    (m m' : Memory) (p n : ℕ)
    → ((x : ℕ) → p ≤ x → x < p + n → m' x ≡ m x)
    → bytes_at m' p n ≡ bytes_at m p n
bytes_at-same m m' p zero h = refl
bytes_at-same m m' p (suc n) h =
    ap₂ ◌∷◌ (h p (omega arith) (omega arith))
      (bytes_at-same m m' (p + 1) n (λ x l u. h x (omega arith) (omega arith)))

bytes_at-zeros :
    (m : Memory) (p n : ℕ)
    → ((x : ℕ) → p ≤ x → x < p + n → m x ≡ 0)
    → bytes_at m p n ≡ replicate n 0
bytes_at-zeros m p zero h = refl
bytes_at-zeros m p (suc n) h =
    ap₂ ◌∷◌ (h p (omega arith) (omega arith))
      (bytes_at-zeros m (p + 1) n (λ x l u. h x (omega arith) (omega arith)))

pub bytes_at-mem_set : (m : Memory) (p n : ℕ) → bytes_at (mem_set p n m) p n ≡ replicate n 0
bytes_at-mem_set m p n = bytes_at-zeros (mem_set p n m) p n (λ x l u. mem_set_within p n m x l u)

pub bytes_at-store_byte :
    (m : Memory) (q p n j v : ℕ)
    → q ≡ p + j
    → j < n
    → bytes_at (store_byte q v m) p n ≡ set (bytes_at m p n) j v
bytes_at-store_byte m q p zero j v e h = absurd (omega arith)
bytes_at-store_byte m q p (suc n) zero v e h =
    ap₂ ◌∷◌ (let same : p ≡ q = omega arith in rw same (store_byte_self q v m)) (
      bytes_at-same m (store_byte q v m) (p + 1) n
        (λ x l u. store_byte_other q v m x (inr (omega arith))))
bytes_at-store_byte m q p (suc n) (suc j) v e h =
    ap₂ ◌∷◌ (store_byte_other q v m p (inl (omega arith)))
      (bytes_at-store_byte m q (p + 1) n j v (omega arith) (omega arith))

-- A write to a block leaves the addresses behind all blocks, and in front of them, as they are.
abbrev pub places : ℕ → Blocks → List (ℕ × ℕ)
places base [] = []
places base (b ∷ bs) = (base + used_bytes bs, length b) ∷ places base bs

pub store_at-outside :
    (base : ℕ) (bs : Blocks) (k j v : ℕ) (m : Memory) (x : ℕ)
    → (x < base) ⊎ (base + used_bytes bs ≤ x)
    → store_at (places base bs) k j v m x ≡ m x
unfolding store_at
store_at-outside base [] k j v m x h = refl
store_at-outside base (b ∷ bs) zero j v m x h = elim (Bool-cases (ltb j (length b))) [
  | inl e ↦
      rw e
        (store_byte_other (base + used_bytes bs + j) v m x (ground (arith, ltb→lt j (length b) e)))
  | inr e ↦ rw e refl
]
store_at-outside base (b ∷ bs) (suc k) j v m x h = store_at-outside base bs k j v m x (ground arith)

-- The memory has the bytes of the blocks.
abbrev pub HasBytes : ℕ → Memory → Blocks → Type 0
HasBytes base m [] = Unit
HasBytes base m (b ∷ bs) = (bytes_at m (base + used_bytes bs) (length b) ≡ b) × HasBytes base m bs

pub HasBytes-same :
    (base : ℕ) (m m' : Memory) (bs : Blocks)
    → ((x : ℕ) → base ≤ x → x < base + used_bytes bs → m' x ≡ m x)
    → HasBytes base m bs
    → HasBytes base m' bs
HasBytes-same base m m' [] same h = tt
HasBytes-same base m m' (b ∷ bs) same (e, h) = (
  bytes_at-same m m' (base + used_bytes bs) (length b) (λ x l u. same x (omega arith) (omega arith))
      ∙ e,
  HasBytes-same base m m' bs (λ x l u. same x l (omega arith)) h,
)

set_outside : (b : List ℕ) (j v : ℕ) → length b ≤ j → set b j v ≡ b
set_outside [] j v h = refl
set_outside (c ∷ b) zero v h = absurd (omega arith)
set_outside (c ∷ b) (suc j) v h = ap (λ t. c ∷ t) (set_outside b j v (omega arith))

pub used_bytes-store_block :
    (bs : Blocks) (k j v : ℕ) → used_bytes (store_block bs k j v) ≡ used_bytes bs
used_bytes-store_block [] k j v = refl
used_bytes-store_block (b ∷ bs) zero j v = rw (length-set b j v) refl
used_bytes-store_block (b ∷ bs) (suc k) j v = rw (used_bytes-store_block bs k j v) refl

pub places-store_block :
    (base : ℕ) (bs : Blocks) (k j v : ℕ) → places base (store_block bs k j v) ≡ places base bs
places-store_block base [] k j v = refl
places-store_block base (b ∷ bs) zero j v = rw (length-set b j v) refl
places-store_block base (b ∷ bs) (suc k) j v =
    rw (used_bytes-store_block bs k j v, places-store_block base bs k j v) refl

store_at-first :
    (p n j v : ℕ) (blocks : List (ℕ × ℕ)) (m : Memory)
    → ltb j n ≡ true
    → store_at ((p, n) ∷ blocks) 0 j v m ≡ store_byte (p + j) v m
unfolding store_at
store_at-first p n j v blocks m e = rw e refl

store_at-past :
    (p n j v : ℕ) (blocks : List (ℕ × ℕ)) (m : Memory)
    → ltb j n ≡ false
    → store_at ((p, n) ∷ blocks) 0 j v m ≡ m
unfolding store_at
store_at-past p n j v blocks m e = rw e refl

HasBytes-store_byte :
    (base : ℕ) (m : Memory) (b : List ℕ) (bs : Blocks) (j v : ℕ)
    → j < length b
    → HasBytes base m (b ∷ bs)
    → HasBytes base (store_byte (base + used_bytes bs + j) v m) (set b j v ∷ bs)
HasBytes-store_byte base m b bs j v h (e, r) =
    let q = base + used_bytes bs + j in
    (
      rw (length-set b j v) (
          bytes_at-store_byte m q (base + used_bytes bs) (length b) j v refl h
          ∙ ap (λ t. set t j v) e),
      HasBytes-same base m (store_byte q v m) bs
          (λ x l u. store_byte_other q v m x (inl (omega arith))) r,
    )

-- A write to a block is a write to that block's bytes, and to no other's.
pub HasBytes-store_at :
    (base : ℕ) (m : Memory) (bs : Blocks) (k j v : ℕ)
    → HasBytes base m bs
    → HasBytes base (store_at (places base bs) k j v m) (store_block bs k j v)
unfolding store_at
HasBytes-store_at base m [] k j v h = tt
HasBytes-store_at base m (b ∷ bs) zero j v h =
    let p = base + used_bytes bs in
    let rest = places base bs in
    elim (Bool-cases (ltb j (length b))) [
      | inl i ↦
          subst (λ m'. HasBytes base m' (set b j v ∷ bs))
            (sym (store_at-first p (length b) j v rest m i))
            (HasBytes-store_byte base m b bs j v (ltb→lt j (length b) i) h)
      | inr i ↦
          let past : length b ≤ j = ground arith in
          subst (λ m'. HasBytes base m' (set b j v ∷ bs))
            (sym (store_at-past p (length b) j v rest m i)) (rw (set_outside b j v past) h)
    ]
HasBytes-store_at base m (b ∷ bs) (suc k) j v (e, h) = (
  rw (used_bytes-store_block bs k j v) (
      bytes_at-same m (store_at (places base bs) k j v m) (base + used_bytes bs) (length b)
        (λ x l u. store_at-outside base bs k j v m x (inr l))
      ∙ e),
  HasBytes-store_at base m bs k j v h,
)
