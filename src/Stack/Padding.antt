-- ===== src/Stack/Padding.antt =====
-- What `calculate_padding` returns for the header of a block.
use agent_resources.Prelude.{
  ℕ, zero, suc, ◌+◌, ◌-◌, ◌/◌, ◌%◌, ◌^◌, ◌≤◌, ◌<◌, ◌≡◌, ◌≢◌, arith, refl, done, fault, sub64,
  bit_and, bit_and_mask, ◌==◌, false, le→ltb, ==_iff, Bool-cases, inl, inr, ap, bit_and-zero,
}
use native.Mathlib.Nat.{pow-suc, mod-eq_of_lt, add-mod_right, div-eq_of_lt}
use native.Mathlib.Decide.{ℕ_discrete}
use agent_resources.Mem.Laws.{is_pow-pow, is_pow-zero, sub64-one, pow-pos, pow-lt}
use agent_resources.Stack.{calculate_padding, header_padding, header_size}

mask64 : (k p : ℕ) → k < 64 → bit_and p (sub64 (2 ^ k) 1) ≡ p % 2 ^ k
mask64 k p h = rw (sub64-one (2 ^ k) (pow-pos k) (pow-lt k h)) (bit_and_mask k p)

pub two-le-pow : (k : ℕ) → 0 < k → 2 ≤ 2 ^ k
two-le-pow zero h = absurd (omega arith)
two-le-pow (suc k) h = omega (arith, pow-suc 2 k, pow-pos k)

four-le-pow : (k : ℕ) → 1 < k → 4 ≤ 2 ^ k
four-le-pow zero h = absurd (omega arith)
four-le-pow (suc k) h = omega (arith, pow-suc 2 k, two-le-pow k (omega arith))

header_padding-pow : (k : ℕ) → 0 < k → k < 64 → header_padding 0 (2 ^ k) header_size ≡ done (2 ^ k)
unfolding header_padding
header_padding-pow k h w = elim (ℕ_discrete k 1) [
  | yes e ↦ rw e refl
  | no ne ↦ rw (nonzero, rest ne, none_over ne) (ap done (omega (arith, pow-lt k w)))
]
  where
    nonzero : (2 ^ k == 0) ≡ false
    nonzero = ground (arith, pow-pos k)

    rest : k ≢ 1 → (bit_and 2 (sub64 (2 ^ k) 1) == 0) ≡ false
    rest ne =
        rw
          (
            mask64 k 2 w,
            mod-eq_of_lt {n = 2} {m = 2 ^ k} (omega (arith, four-le-pow k (omega arith))),
          )
          refl

    none_over : k ≢ 1 → 2 / 2 ^ k ≡ 0
    none_over ne = div-eq_of_lt {n = 2} {m = 2 ^ k} (omega (arith, four-le-pow k (omega arith)))

-- For the header of two bytes and an alignment of 2 ^ k bytes, 1 ≤ k < 64, `calculate_padding` returns
-- the alignment itself, whatever the pointer: the header fits in front of the block, and the block
-- is as far from the alignment as the pointer was.
pub calculate_padding-pow :
    (p k : ℕ)
    → 0 < k
    → k < 64
    → (calculate_padding p (2 ^ k) header_size ≡ done (2 ^ k))
      × (header_size ≤ 2 ^ k)
      × ((p + 2 ^ k) % 2 ^ k ≡ p % 2 ^ k)
unfolding calculate_padding
calculate_padding-pow p k h w = (
  rw (is_pow-pow k w) (elim (ℕ_discrete (p % 2 ^ k) 0) [
    | yes aligned ↦ rw (mask64 k p w, aligned) (rw (back, le→ltb (2 ^ k) 2 (two-le-pow k h)) refl)
    | no off ↦ rw (off_test off) (header_padding-pow k h w)
  ]),
  two-le-pow k h,
  add-mod_right p (2 ^ k),
)
  where
    back : (2 ^ k + 2 ^ 64 - 0) % 2 ^ 64 ≡ 2 ^ k
    back = omega (arith, pow-lt k w)

    off_test : p % 2 ^ k ≢ 0 → (bit_and p (sub64 (2 ^ k) 1) == 0) ≡ false
    off_test off = rw (mask64 k p w) (ground arith)

-- An alignment of 1 is padded by the header's two bytes; one of 0, which `is_pow` accepts, divides
-- by 0 at every pointer.
pub calculate_padding_small :
    (p : ℕ)
    → (calculate_padding p 1 header_size ≡ done 2) × (calculate_padding p 0 header_size ≡ fault)
unfolding calculate_padding header_padding
calculate_padding_small p = (
  rw (is_pow-pow 0 (omega arith), bit_and-zero p) refl,
  elim (Bool-cases (bit_and p (sub64 0 1) == 0)) [
    | inl aligned ↦ rw (is_pow-zero, (==_iff _ _).0 aligned) refl
    | inr off ↦ rw (is_pow-zero, off) refl
  ],
)
