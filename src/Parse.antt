-- ===== src/Parse.antt =====
-- base/base_parse.c and base/base_parse.h: comparing, recognising and reading text; and `write_int` of
-- base/base_test.c, which prints a number.
--
-- A `char *` is the list of the bytes from the pointer to the end of the array that it points into.
-- Reading past that end is a fault. A byte is a number below 256: a `char` that is negative in C is
-- one of 128 and more here, and is no digit either way.
pub mod Number
pub mod Text
pub mod ProcFile
mod Tests
use agent_resources.Prelude.{
  ℕ, zero, suc, ◌+◌, ◌-◌, ◌*◌, ◌/◌, ◌%◌, List, [], ◌∷◌, ◌++◌, Run, done, fault, ◌>>=◌, ltb, leb,
  ◌==◌, ◌||◌, if◌then◌else◌, u8, u64, Bool, true, false, ℤ, pos, negsuc,
}

-- The loop of `compare_string` with so many rounds left. `-1` is returned as a `b8`, so it is 255.
unfoldable pub compare_loop : ℕ → List ℕ → List ℕ → Run ℕ
compare_loop zero c1 c2 = done 0
compare_loop (suc left) [] c2 = fault
compare_loop (suc left) (x ∷ c1) [] = fault
compare_loop (suc left) (x ∷ c1) (y ∷ c2) = if x == y then compare_loop left c1 c2 else done 255

-- `word_idx` runs from 0 to `sizeof(*c1)`, which is 1.
unfoldable pub compare_string : List ℕ → List ℕ → Run ℕ
compare_string c1 c2 = compare_loop 2 c1 c2

-- The test of `parse_u64` and of `is_numeric`.
abbrev pub not_digit : ℕ → Bool
not_digit c = ltb c b'0' || ltb b'9' c

-- The loop of `parse_u64` with so many bytes left to look at.
unfoldable pub parse_loop : ℕ → ℕ → List ℕ → Run ℕ
parse_loop value zero buf = done value
parse_loop value (suc left) [] = fault
parse_loop value (suc left) (c ∷ buf) =
    if not_digit c then done value else parse_loop (u64 (value * 10 + (c - b'0'))) left buf

unfoldable pub parse_u64 : List ℕ → ℕ → Run ℕ
parse_u64 buf len = parse_loop 0 len buf

unfoldable pub is_numeric : List ℕ → Run ℕ
is_numeric [] = fault
is_numeric (c ∷ s) = if c == 0 then done 1 else if not_digit c then done 0 else is_numeric s

-- `write_int` on a number that is not negative: the calls are as deep as the number has digits.
unfoldable pub write_digits : ℕ → ℕ → List ℕ
write_digits zero num = []
write_digits (suc fuel) num =
    (if leb 10 num then write_digits fuel (num / 10) else []) ++ (b'0' + num % 10) ∷ []

-- The bytes that `write_int` writes. Ten digits are enough for an `i32`. The negation of the lowest
-- `i32`, `negsuc 2147483647`, is undefined.
pub write_int : ℤ → Run (List ℕ)
write_int (pos num) = done (write_digits 10 num)
write_int (negsuc num) =
    if leb 2147483647 num then fault else done (b'-' ∷ write_digits 10 (num + 1))
