-- ===== src/Parse/Number.antt =====
-- What `parse_u64` reads, and that it reads back what `write_int` prints.
use agent_resources.Prelude.{
  ℕ, zero, suc, ◌+◌, ◌-◌, ◌*◌, ◌/◌, ◌%◌, ◌^◌, ◌≤◌, ◌<◌, ◌≡◌, ◌⊎◌, inl, inr, refl, arith, List, [],
  ◌∷◌, ◌++◌, All, length, done, true, false, u64, pos, negsuc, leb, Bool-cases, ap, ◌∙◌,
}
use native.Mathlib.Nat.{pow-suc, zero-add, suc-add}
use agent_resources.Parse.{not_digit, parse_loop, parse_u64, write_digits, write_int}

abbrev pub IsDigit : ℕ → Type 0
IsDigit c = (b'0' ≤ c) × (c ≤ b'9')

-- The number that decimal digits stand for, read from the left behind `v`.
abbrev pub decimal : ℕ → List ℕ → ℕ
decimal v [] = v
decimal v (c ∷ cs) = decimal (v * 10 + (c - b'0')) cs

-- What follows the digits ends the reading: either nothing more is to be looked at, or the next
-- byte is no digit.
abbrev pub Stops : ℕ → List ℕ → Type 0
Stops left [] = left ≡ 0
Stops left (c ∷ cs) = (left ≡ 0) ⊎ (not_digit c ≡ true)

parse_loop_stop : (v left : ℕ) (rest : List ℕ) → Stops left rest → parse_loop v left rest ≡ done v
unfolding parse_loop
parse_loop_stop v zero rest s = refl
parse_loop_stop v (suc left) [] s = absurd (omega arith)
parse_loop_stop v (suc left) (c ∷ rest) (inl z) = absurd (omega arith)
parse_loop_stop v (suc left) (c ∷ rest) (inr n) = rw n refl

pub digit_test : (c : ℕ) → IsDigit c → not_digit c ≡ false
digit_test c d = ground arith

parse_loop_digits :
    (ds : List ℕ) (v left : ℕ) (rest : List ℕ)
    → All IsDigit ds
    → Stops left rest
    → parse_loop (v % 2 ^ 64) (length ds + left) (ds ++ rest) ≡ done (decimal v ds % 2 ^ 64)
unfolding parse_loop
parse_loop_digits [] v left rest d s = rw (zero-add left) (parse_loop_stop (v % 2 ^ 64) left rest s)
parse_loop_digits (c ∷ ds) v left rest d s =
    rw (suc-add (length ds) left, digit_test c d.0, carried)
      (parse_loop_digits ds (v * 10 + (c - b'0')) left rest d.1 s)
  where
    carried : u64 (v % 2 ^ 64 * 10 + (c - b'0')) ≡ (v * 10 + (c - b'0')) % 2 ^ 64
    carried = omega arith

-- `parse_u64` reads the digits at the start of its text, as many as there are but at most `len`, and
-- returns the number that they stand for, modulo 2 ^ 64.
pub parse_u64_lem :
    (ds rest : List ℕ) (left : ℕ)
    → All IsDigit ds
    → Stops left rest
    → parse_u64 (ds ++ rest) (length ds + left) ≡ done (decimal 0 ds % 2 ^ 64)
unfolding parse_u64
parse_u64_lem ds rest left d s = parse_loop_digits ds 0 left rest d s

decimal-append : (xs ys : List ℕ) (v : ℕ) → decimal v (xs ++ ys) ≡ decimal (decimal v xs) ys
decimal-append [] ys v = refl
decimal-append (x ∷ xs) ys v = decimal-append xs ys (v * 10 + (x - b'0'))

All-append : (P : ℕ → Type 0) (xs ys : List ℕ) → All P xs → All P ys → All P (xs ++ ys)
All-append P [] ys h k = k
All-append P (x ∷ xs) ys h k = (h.0, All-append P xs ys h.1 k)

leb→gt : (a b : ℕ) → leb a b ≡ false → b < a
leb→gt a b h = ground arith

-- With fuel for all its digits, `write_int` prints decimal digits that stand for the number.
pub write_digits_lem :
    (fuel n : ℕ)
    → n < 10 ^ fuel
    → All IsDigit (write_digits fuel n) × (decimal 0 (write_digits fuel n) ≡ n)
unfolding write_digits
write_digits_lem zero n h = (tt, omega arith)
write_digits_lem (suc fuel) n h = elim (Bool-cases (leb 10 n)) [
  | inl more ↦
      let (d, e) = write_digits_lem fuel (n / 10) (omega (arith, pow-suc 10 fuel)) in
      rw more (
        All-append IsDigit (write_digits fuel (n / 10)) _ d (omega arith),
        decimal-append (write_digits fuel (n / 10)) _ 0 ∙ omega arith,
      )
  | inr last ↦ rw last (omega (arith, leb→gt 10 n last), omega (arith, leb→gt 10 n last))
]

-- `parse_u64` reads back the number that `write_int` prints for an `i32` that is not negative,
-- whatever follows it that is no digit, and 0 from what `write_int` prints for a negative one above
-- the lowest.
pub parse_u64-write_int :
    (n k left : ℕ) (rest : List ℕ)
    → n < 2 ^ 31
    → k < 2 ^ 31 - 1
    → Stops left rest
    → ((ds : List ℕ) × (write_int (pos n) ≡ done ds)
        × (parse_u64 (ds ++ rest) (length ds + left) ≡ done n))
      × ((ds : List ℕ) × (write_int (negsuc k) ≡ done ds)
          × (parse_u64 (ds ++ rest) (length ds + left) ≡ done 0))
unfolding write_int
parse_u64-write_int n k left rest h l s =
    let (d, e) = write_digits_lem 10 n (omega arith) in
    let above : leb 2147483647 k ≡ false = ground arith in
    let ds = b'-' ∷ write_digits 10 (k + 1) in
    (
      (
        write_digits 10 n,
        refl,
        parse_u64_lem (write_digits 10 n) rest left d s ∙ ap done (omega arith),
      ),
      (ds, rw above refl, minus),
    )
  where
    minus :
        parse_u64
          (b'-' ∷ (write_digits 10 (k + 1) ++ rest))
          (length (b'-' ∷ write_digits 10 (k + 1)) + left)
        ≡ done 0
    minus = rw (zero-add (length (b'-' ∷ write_digits 10 (k + 1)) + left)) at (
        parse_u64_lem [] (b'-' ∷ (write_digits 10 (k + 1) ++ rest))
          (length (b'-' ∷ write_digits 10 (k + 1)) + left) tt (inr refl))
