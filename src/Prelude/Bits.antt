-- ===== src/Prelude/Bits.antt =====
-- `&` at variables: its equation for the lowest binary digit, low masks, and `x & (x - 1)`.
use Prim.Native.Nat.{
  ℕ, zero, suc, ◌+◌, ◌-◌, ◌*◌, ◌/◌, ◌%◌, ◌^◌, ◌≤◌, ◌<◌, min, bit_and, digits, bit_and-bitwise,
}
use mathlib.Core.Path.{◌≡◌, sym, ap, ◌∙◌}
use mathlib.Core.Logic.{◌≢◌}
use native.Mathlib.Nat.{pow-suc, one-le-pow, mod_self}
use native.Mathlib.Decide.{ℕ_discrete}
use native.Mathlib.Omega.{arith}

-- What `bit_and` stands for, with a count `n` of digits to go.
abbrev conjunction : ℕ → ℕ → ℕ → ℕ
conjunction = digits (λ x. zero) min

-- Every count that is high enough gives the same; `k` bounds the recursion.
conjunction-eq : (k n a b : ℕ) → n ≤ k → a ≤ n → conjunction n a b ≡ bit_and a b
conjunction-eq k zero zero b p q = sym (bit_and-bitwise 0 b)
conjunction-eq k zero (suc a) b p q = absurd (omega arith)
conjunction-eq k (suc n) zero b p q = sym (bit_and-bitwise 0 b)
conjunction-eq zero (suc n) (suc a) b p q = absurd (omega arith)
conjunction-eq (suc k) (suc n) (suc a) b p q =
    let left = conjunction-eq k n (suc a / 2) (b / 2) (omega arith) (omega arith) in
    let right = conjunction-eq k a (suc a / 2) (b / 2) (omega arith) (omega arith) in
    omega (arith, left, right, bit_and-bitwise (suc a) b)

-- The lowest digit of `x & y`, and the digits above it.
pub lowest_digit : (x y : ℕ) → bit_and x y ≡ bit_and (x / 2) (y / 2) * 2 + min (x % 2) (y % 2)
lowest_digit zero y = omega (arith, bit_and-bitwise 0 y, bit_and-bitwise 0 (y / 2))
lowest_digit (suc x) y =
    let above = conjunction-eq x x (suc x / 2) (y / 2) (omega arith) (omega arith) in
    omega (arith, above, bit_and-bitwise (suc x) y)

-- Induction from the half of a number to the number.
halves_below :
    (P : ℕ → Type 0) → P 0 → ((x : ℕ) → P (suc x / 2) → P (suc x)) → (n x : ℕ) → x ≤ n → P x
halves_below P base step n zero h = base
halves_below P base step zero (suc x) h = absurd (omega arith)
halves_below P base step (suc n) (suc x) h =
    step x (halves_below P base step n (suc x / 2) (omega arith))

by_halves : (P : ℕ → Type 0) → P 0 → ((x : ℕ) → P (suc x / 2) → P (suc x)) → (x : ℕ) → P x
by_halves P base step x = halves_below P base step x x (omega arith)

pub bit_and-zero : (x : ℕ) → bit_and x 0 ≡ 0
bit_and-zero =
    by_halves (λ x. bit_and x 0 ≡ 0) (bit_and-bitwise 0 0)
      (λ x h. omega (arith, lowest_digit (suc x) 0, h))

mod_double : (a p : ℕ) → 1 ≤ p → a % (2 * p) ≡ a / 2 % p * 2 + a % 2
mod_double a p h = grind arith

mask_double :
    (a p : ℕ) → 1 ≤ p → bit_and (a / 2) (p - 1) ≡ a / 2 % p → bit_and a (2 * p - 1) ≡ a % (2 * p)
mask_double a p h e =
    omega
      (arith, lowest_digit a (2 * p - 1), ap (λ (t : ℕ). bit_and (a / 2) t) half, mod_double a p h)
  where
    half : (2 * p - 1) / 2 ≡ p - 1
    half = omega arith

-- A mask of `k` low ones is the remainder by `2 ^ k`.
pub bit_and_mask : (k a : ℕ) → bit_and a (2 ^ k - 1) ≡ a % 2 ^ k
bit_and_mask zero a = rw bit_and-zero (omega arith)
bit_and_mask (suc k) a =
    let e : 2 ^ suc k ≡ 2 * 2 ^ k = omega (arith, pow-suc 2 k) in
    rw e (mask_double a (2 ^ k) (one-le-pow k 2 (omega arith)) (bit_and_mask k (a / 2)))

pub bit_and_self : (x : ℕ) → bit_and x x ≡ x
bit_and_self =
    by_halves (λ x. bit_and x x ≡ x) (bit_and-bitwise 0 0)
      (λ x h. omega (arith, lowest_digit (suc x) (suc x), h))

-- Masking out the ones of `m` leaves nothing of them.
pub bit_and_not : (k a m : ℕ) → m < 2 ^ k → bit_and (bit_and a (2 ^ k - 1 - m)) m ≡ 0
bit_and_not zero a m h = let e : m ≡ 0 = omega arith in rw e (bit_and-zero _)
bit_and_not (suc k) a m h = omega (
  arith,
  lowest_digit (bit_and a (2 ^ suc k - 1 - m)) m,
  lowest_digit a (2 ^ suc k - 1 - m),
  ap (λ (t : ℕ). bit_and t (m / 2)) inner,
  pow-suc 2 k,
  bit_and_not k (a / 2) (m / 2) (omega (arith, pow-suc 2 k)),
)
  where
    inner : bit_and a (2 ^ suc k - 1 - m) / 2 ≡ bit_and (a / 2) (2 ^ k - 1 - m / 2)
    inner =
        omega (arith, lowest_digit a (2 ^ suc k - 1 - m), ap (λ (t : ℕ). bit_and (a / 2) t) half)
      where
        half : (2 ^ suc k - 1 - m) / 2 ≡ 2 ^ k - 1 - m / 2
        half = omega (arith, pow-suc 2 k)

-- A number of `k` digits is its part outside of `m` and its part in `m`.
pub bit_and_split : (k a m : ℕ) → m < 2 ^ k → bit_and a (2 ^ k - 1 - m) + bit_and a m ≡ a % 2 ^ k
bit_and_split zero a m h = let e : m ≡ 0 = omega arith in rw (e, bit_and-zero a) (omega arith)
bit_and_split (suc k) a m h = omega (
  arith,
  lowest_digit a (2 ^ suc k - 1 - m),
  lowest_digit a m,
  ap (λ (t : ℕ). bit_and (a / 2) t) half,
  pow-suc 2 k,
  ap (λ (t : ℕ). a % t) doubled ∙ mod_double a (2 ^ k) (one-le-pow k 2 (omega arith)),
  bit_and_split k (a / 2) (m / 2) (omega (arith, pow-suc 2 k)),
)
  where
    half : (2 ^ suc k - 1 - m) / 2 ≡ 2 ^ k - 1 - m / 2
    half = omega (arith, pow-suc 2 k)

    doubled : 2 ^ suc k ≡ 2 * 2 ^ k
    doubled = omega (arith, pow-suc 2 k)

-- `a & m` is at most `m`.
pub bit_and_le : (k a m : ℕ) → m < 2 ^ k → bit_and a m ≤ m
bit_and_le zero a m h = let e : m ≡ 0 = omega arith in rw (e, bit_and-zero a) (omega arith)
bit_and_le (suc k) a m h =
    omega (arith, lowest_digit a m, bit_and_le k (a / 2) (m / 2) (omega (arith, pow-suc 2 k)))

-- `x & (x - 1)` of a power of two.
pub pow_bit_and : (k : ℕ) → bit_and (2 ^ k) (2 ^ k - 1) ≡ 0
pow_bit_and k = bit_and_mask k (2 ^ k) ∙ mod_self (2 ^ k)

pow_of_bit_and_fuel : (n x : ℕ) → x < n → bit_and (suc x) x ≡ 0 → (k : ℕ) × (suc x ≡ 2 ^ k)
pow_of_bit_and_fuel zero x h e = absurd (omega arith)
pow_of_bit_and_fuel (suc n) x h e = elim (ℕ_discrete (x % 2) 0) [
  | yes even ↦ (0, omega (arith, lowest_digit (suc x) x, bit_and_self (x / 2), same even))
  | no odd ↦
      let (k, p) = pow_of_bit_and_fuel n (x / 2) (omega arith) (halved odd) in
      (suc k, omega (arith, pow-suc 2 k, p))
]
  where
    same : x % 2 ≡ 0 → bit_and (suc x / 2) (x / 2) ≡ bit_and (x / 2) (x / 2)
    same even = ap (λ (t : ℕ). bit_and t (x / 2)) (omega arith)

    halved : x % 2 ≢ 0 → bit_and (suc (x / 2)) (x / 2) ≡ 0
    halved odd =
        omega (arith, e, lowest_digit (suc x) x, ap (λ (t : ℕ). bit_and t (x / 2)) (half odd))
      where
        half : x % 2 ≢ 0 → suc x / 2 ≡ suc (x / 2)
        half odd = omega arith

pub pow_of_bit_and : (x : ℕ) → 0 < x → bit_and x (x - 1) ≡ 0 → (k : ℕ) × (x ≡ 2 ^ k)
pow_of_bit_and zero h e = absurd (omega arith)
pow_of_bit_and (suc x) h e = pow_of_bit_and_fuel (suc x) x (omega arith) (rw pred at e)
  where
    pred : suc x - 1 ≡ x
    pred = omega arith
