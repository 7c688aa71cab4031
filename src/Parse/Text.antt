-- ===== src/Parse/Text.antt =====
-- What `compare_string` and `is_numeric` decide.
use agent_resources.Prelude.{
  ℕ, ◌<◌, ◌≡◌, ◌≢◌, refl, arith, List, [], ◌∷◌, ◌++◌, All, done, true, false, ◌==◌, ==_iff, ◌⊎◌,
  Bool-cases, inl, inr,
}
use agent_resources.Parse.{compare_loop, compare_string, is_numeric, not_digit}
use agent_resources.Parse.Number.{IsDigit}

ne_of_test : (a b : ℕ) → (a == b) ≡ false → a ≢ b
ne_of_test a b t = ground arith

not_nul : {c : ℕ} → 0 < c → (c == 0) ≡ false
not_nul h = ground arith

IsDigit-of_test : (c : ℕ) → not_digit c ≡ false → IsDigit c
IsDigit-of_test c t = ground arith

other-IsDigit : (c : ℕ) → not_digit c ≡ true → ¬ IsDigit c
other-IsDigit c t d = ground arith

-- `compare_string` looks at two bytes of each text, whatever they are, a NUL included: it returns 0
-- if both agree, and 255 if one does not.
pub compare_string_lem :
    (a b c d : ℕ) (s t : List ℕ)
    → ((compare_string (a ∷ b ∷ s) (c ∷ d ∷ t) ≡ done 0) × (a ≡ c) × (b ≡ d))
      ⊎ ((compare_string (a ∷ b ∷ s) (c ∷ d ∷ t) ≡ done 255) × ((a ≢ c) ⊎ (b ≢ d)))
unfolding compare_string compare_loop
compare_string_lem a b c d s t = elim (Bool-cases (a == c)) [
  | inr first ↦ inr (rw first refl, inl (ne_of_test a c first))
  | inl first ↦ elim (Bool-cases (b == d)) [
    | inl second ↦ inl (rw (first, second) refl, (==_iff a c).0 first, (==_iff b d).0 second)
    | inr second ↦ inr (rw (first, second) refl, inr (ne_of_test b d second))
  ]
]

-- On a text without NUL that a NUL ends, `is_numeric` returns 1 if every byte is a digit, and 0 if
-- one is not. The empty text counts as numeric.
pub is_numeric_lem :
    (s rest : List ℕ)
    → All (λ c. 0 < c) s
    → ((is_numeric (s ++ 0 ∷ rest) ≡ done 1) × All IsDigit s)
      ⊎ ((is_numeric (s ++ 0 ∷ rest) ≡ done 0) × ¬ (All IsDigit s))
unfolding is_numeric
is_numeric_lem [] rest h = inl (refl, tt)
is_numeric_lem (c ∷ s) rest h = elim (Bool-cases (not_digit c)) [
  | inr digit ↦ elim (is_numeric_lem s rest h.1) [
    | inl (e, d) ↦ inl (rw (not_nul h.0, digit) e, (IsDigit-of_test c digit, d))
    | inr (e, n) ↦ inr (rw (not_nul h.0, digit) e, λ all. n all.1)
  ]
  | inl other ↦ inr (rw (not_nul h.0, other) refl, λ all. other-IsDigit c other all.0)
]
