-- ===== src/Parse/Tests.antt =====
-- Runs of the text functions at fixed inputs, and the instances of their theorems.
use agent_resources.Prelude.{
  ℕ, ◌+◌, ◌≡◌, inr, refl, arith, List, [], ◌∷◌, ◌++◌, length, done, pos, negsuc,
}
use agent_resources.Parse.{
  compare_string, compare_loop, parse_u64, parse_loop, write_int, write_digits,
}
use agent_resources.Parse.Number.{parse_u64-write_int}

-- "407" and a space.
abbrev digits : List ℕ
digits = b'4' ∷ b'0' ∷ b'7' ∷ []

abbrev kilobytes : List ℕ
kilobytes = 0x20 ∷ b'k' ∷ []

parse_runs : parse_u64 (digits ++ kilobytes) 5 ≡ done 407
unfolding parse_u64 parse_loop
parse_runs = refl

write_runs :
    (write_int (pos 407) ≡ done digits)
    × (write_int (pos 0) ≡ done (b'0' ∷ []))
    × (write_int (negsuc 406) ≡ done (b'-' ∷ digits))
unfolding write_int write_digits
write_runs = (refl, refl, refl)

compare_runs : compare_string (b'c' ∷ b'p' ∷ b'u' ∷ 0 ∷ []) (b'c' ∷ b'p' ∷ b'0' ∷ 0 ∷ []) ≡ done 0
unfolding compare_string compare_loop
compare_runs = refl

parse_u64-write_int_example :
    ((ds : List ℕ) × (write_int (pos 407) ≡ done ds)
      × (parse_u64 (ds ++ kilobytes) (length ds + 2) ≡ done 407))
    × ((ds : List ℕ) × (write_int (negsuc 11) ≡ done ds)
        × (parse_u64 (ds ++ kilobytes) (length ds + 2) ≡ done 0))
parse_u64-write_int_example =
    parse_u64-write_int 407 11 2 kilobytes (omega arith) (omega arith) (inr refl)
