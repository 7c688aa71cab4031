-- ===== src/Mem/Laws.antt =====
-- What `is_pow` decides, and what `align` returns on either branch.
use agent_resources.Prelude.{
  zero, suc, ◌+◌, ◌%◌, ◌≤◌, add64, bit_and_split, bit_and_le, sym, ◌∙◌, Bool-cases, refl, ℕ, ◌-◌,
  ◌^◌, ◌<◌, ◌≡◌, ◌↔◌, ◌⊎◌, inl, inr, arith, bit_and, true, false, sub64, ==_iff, pow_bit_and,
  pow_of_bit_and, bit_and_not,
}
use native.Mathlib.Nat.{one-le-pow, pow-le-pow_right}
use native.Mathlib.Decide.{ℕ_discrete, dec_lt}
use agent_resources.Mem.{is_pow, align, arena_align}

pub sub64-one : (x : ℕ) → 0 < x → x < 2 ^ 64 → sub64 x 1 ≡ x - 1
sub64-one x h k = omega arith

pub pow-lt : (k : ℕ) → k < 64 → 2 ^ k < 2 ^ 64
pow-lt k h = omega (arith, pow-le-pow_right {n = 2} (omega arith) {i = k} {j = 63} (omega arith))

pub pow-pos : (k : ℕ) → 0 < 2 ^ k
pow-pos k = one-le-pow k 2 (omega arith)

pub bit_and_pow_pred : (k : ℕ) → k < 64 → bit_and (2 ^ k) (sub64 (2 ^ k) 1) ≡ 0
bit_and_pow_pred k h = rw (sub64-one (2 ^ k) (pow-pos k) (pow-lt k h)) (pow_bit_and k)

pub is_pow-pow : (k : ℕ) → k < 64 → is_pow (2 ^ k) ≡ true
unfolding is_pow
is_pow-pow k h = rw (bit_and_pow_pred k h)

is_pow_sound : (x : ℕ) → x < 2 ^ 64 → is_pow x ≡ true → (x ≡ 0) ⊎ ((k : ℕ) × (x ≡ 2 ^ k))
unfolding is_pow
is_pow_sound x h t = elim (ℕ_discrete x 0) [
  | yes z ↦ inl z
  | no nz ↦ inr (
      pow_of_bit_and x (omega arith)
        (rw (sub64-one x (omega arith) h) at ((==_iff (bit_and x (sub64 x 1)) 0).0 t)))
]

pow-inj_lt : (k : ℕ) → 2 ^ k < 2 ^ 64 → k < 64
pow-inj_lt k h = elim (dec_lt k 64) [
  | yes p ↦ p
  | no p ↦
      absurd (omega (arith, pow-le-pow_right {n = 2} (omega arith) {i = 64} {j = k} (omega arith)))
]

is_pow_complete : (x : ℕ) → x < 2 ^ 64 → ((x ≡ 0) ⊎ ((k : ℕ) × (x ≡ 2 ^ k))) → is_pow x ≡ true
unfolding is_pow
is_pow_complete x h (inl z) = rw z
is_pow_complete x h (inr (k, e)) = rw e (unfold is_pow in is_pow-pow k (pow-inj_lt k (rw e at h)))

pub is_pow-zero : is_pow 0 ≡ true
is_pow-zero = is_pow_complete 0 (omega arith) (inl refl)

-- On a `u64`, `is_pow` accepts 0 and the powers of two, and nothing else.
pub is_pow_iff : (x : ℕ) → x < 2 ^ 64 → (is_pow x ≡ true) ↔ ((x ≡ 0) ⊎ ((k : ℕ) × (x ≡ 2 ^ k)))
is_pow_iff x h = (is_pow_sound x h, is_pow_complete x h)

pub align-pow : (p k : ℕ) → k < 64 → align p (2 ^ k) ≡ p
unfolding align
align-pow p k h = rw (bit_and_pow_pred k h)

pub align_sixteen : (p : ℕ) → align p arena_align ≡ p
align_sixteen p = align-pow p 4 (omega arith)

abbrev pub IsZeroOrPower : ℕ → Type 0
IsZeroOrPower a = (a ≡ 0) ⊎ ((k : ℕ) × (a ≡ 2 ^ k))

align-is_pow : (p a : ℕ) → is_pow a ≡ true → align p a ≡ p
unfolding align is_pow
align-is_pow p a t = rw t

-- Rounded up: the sum with `a - 1`, without the ones that it has in common with `a - 1`.
abbrev pub IsRounded : ℕ → ℕ → ℕ → Type 0
IsRounded p a r =
    let total = (p + (a - 1)) % 2 ^ 64 in
    (r + bit_and total (a - 1) ≡ total)
    × (bit_and r (a - 1) ≡ 0)
    × ((2 ^ 64 ≤ p + (a - 1)) ⊎ (p ≤ r))

rounded_total : (p a : ℕ) → 0 < a → a < 2 ^ 64 → sub64 (add64 p a) 1 ≡ (p + (a - 1)) % 2 ^ 64
rounded_total p a h k = omega arith

IsRounded-masked :
    (p a : ℕ)
    → 0 < a
    → a < 2 ^ 64
    → IsRounded p a (bit_and ((p + (a - 1)) % 2 ^ 64) (2 ^ 64 - 1 - (a - 1)))
IsRounded-masked p a h k =
    let total = (p + (a - 1)) % 2 ^ 64 in
    let split : bit_and total (2 ^ 64 - 1 - (a - 1)) + bit_and total (a - 1) ≡ total =
      bit_and_split 64 total (a - 1) (omega arith) ∙ omega arith in
    (
      split,
      bit_and_not 64 total (a - 1) (omega arith),
      elim (dec_lt (p + (a - 1)) (2 ^ 64)) [
        | yes small ↦ inr (omega (arith, split, bit_and_le 64 total (a - 1) (omega arith)))
        | no large ↦ inl (omega arith)
      ],
    )

align-IsRounded : (p a : ℕ) → 0 < a → a < 2 ^ 64 → is_pow a ≡ false → IsRounded p a (align p a)
unfolding align is_pow
align-IsRounded p a h k t =
    rw (t, rounded_total p a h k, sub64-one a h k) (IsRounded-masked p a h k)

is_pow-positive : (a : ℕ) → is_pow a ≡ false → 0 < a
unfolding is_pow
is_pow-positive zero t = let clash : true ≡ false = t in cc
is_pow-positive (suc a) t = omega arith

-- For an alignment that is 0 or a power of two, `align` returns the pointer as it is. For any other,
-- it returns the sum of the pointer and the alignment less 1, modulo 2 ^ 64, without the binary ones
-- that this sum has in common with the alignment less 1; so it has none in common with it, and it
-- is no lower than the pointer if the sum does not wrap around.
pub align_lem :
    (p a : ℕ)
    → a < 2 ^ 64
    → (IsZeroOrPower a × (align p a ≡ p)) ⊎ ((¬ IsZeroOrPower a) × IsRounded p a (align p a))
align_lem p a h = elim (Bool-cases (is_pow a)) [
  | inl t ↦ inl (is_pow_sound a h t, align-is_pow p a t)
  | inr f ↦ inr (
    (λ z. let clash : true ≡ false = sym (is_pow_complete a h z) ∙ f in cc),
    align-IsRounded p a (is_pow-positive a f) h f,
  )
]
