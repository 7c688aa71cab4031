-- ===== src/Resources/Arm/Whole.antt =====
-- `cpu_read_arm64` as a whole.
use agent_resources.Prelude.{
  ℕ, zero, suc, ◌+◌, ◌/◌, ◌%◌, ◌^◌, ◌≤◌, ◌<◌, ◌≡◌, refl, arith, some, List, [], ◌∷◌, ◌++◌, All,
  done, true, false, length, length-append, take, ◌∙◌, ap, inl, inr, Bool-cases, leb, ltb, ◌==◌,
  pos,
}
use mathlib.Core.List.{append_assoc}
use native.Mathlib.Nat.{pow-suc}
use agent_resources.Text.{before, overlay, c_string, c_string-append}
use agent_resources.Parse.{write_digits}
use agent_resources.Parse.Number.{IsDigit, decimal, write_digits_lem}
use agent_resources.Resources.{err_ok}
use agent_resources.Resources.Cpu.{Cpu}
use agent_resources.Resources.Arm.{
  Frequencies, is_nul, print_frequency, store_frequency, copy_model, cpu_read_cpu_model_name_arm64,
  finish, frequency_then, cpu_read_arm64,
}
use agent_resources.Resources.Arm.Laws.{
  IsNumber, numbers_text, largest, cores_enabled_lem, core_frequency_lem,
}

length-write_digits : (fuel k n : ℕ) → n < 10 ^ suc k → length (write_digits fuel n) ≤ suc k
unfolding write_digits
length-write_digits zero k n h = omega arith
length-write_digits (suc fuel) zero n h = rw (small) (omega arith)
  where
    small : leb 10 n ≡ false
    small = ground arith
length-write_digits (suc fuel) (suc k) n h = elim (Bool-cases (leb 10 n)) [
  | inl more ↦ rw more (
      omega (
        arith,
        length-append (write_digits fuel (n / 10)) ((b'0' + n % 10) ∷ []),
        length-write_digits fuel k (n / 10) (omega (arith, pow-suc 10 (suc k))),
      ))
  | inr last ↦ rw last (omega arith)
]

digits_text : (ds : List ℕ) → All IsDigit ds → All (λ c. (c == 0) ≡ false) ds
digits_text [] h = tt
digits_text (c ∷ ds) h = (plain c h.0, digits_text ds h.1)
  where
    plain : (c : ℕ) → IsDigit c → (c == 0) ≡ false
    plain c h = ground arith

take_all : (n : ℕ) (xs : List ℕ) → length xs ≤ n → take n xs ≡ xs
take_all zero [] h = refl
take_all (suc n) [] h = refl
take_all zero (x ∷ xs) h = absurd (omega arith)
take_all (suc n) (x ∷ xs) h = ap (λ t. x ∷ t) (take_all n xs (omega arith))

-- The text that is printed.
printed :
    (freq : ℕ) (array : List ℕ)
    → freq < 10 ^ 15
    → c_string (print_frequency freq array) ≡ done (write_digits 20 freq)
printed freq array h =
    rw
      (
        take_all 15 (write_digits 20 freq) (length-write_digits 20 14 freq h),
        append_assoc (write_digits 20 freq) (0 ∷ []) _,
      )
      (c_string-append (write_digits 20 freq) _
        (digits_text (write_digits 20 freq) (write_digits_lem 20 freq (omega arith)).0))

before_text : (s : List ℕ) → All (λ c. (c == 0) ≡ false) (before is_nul s)
unfolding before
before_text [] = tt
before_text (c ∷ s) = elim (Bool-cases (is_nul c)) [
  | inl nul ↦ rw nul tt
  | inr plain ↦ rw plain (plain, before_text s)
]

-- Where `asserts` is on, from numbers of cores of which the largest is at most 126, a file of at
-- least one byte for the model, whose text is shorter than 64 bytes, and a frequency of at most 15
-- digits in the file of the core with the largest number: `cpu_read_arm64` returns `ERR_OK` within
-- as many rounds of its loop as that number and two more. The number of cores is the largest
-- number; the model reads as the text of its file up to a NUL; the frequency reads as decimal
-- digits that stand for the one in the file; the vendor and the times stay.
pub cpu_read_arm64_lem :
    (ns : List (List ℕ × ℕ)) (b : ℕ) (bytes : List ℕ) (files : Frequencies) (freq : ℕ) (c : Cpu)
    → All IsNumber ns
    → largest 0 ns < 127
    → length (before is_nul (b ∷ bytes)) < 64
    → files (pos (largest 0 ns)) ≡ some (some freq)
    → freq < 10 ^ 15
    → (c' : Cpu) × (ds : List ℕ) × (cpu_read_arm64
          (largest 0 ns + 2)
          true
          (some (some (numbers_text ns)))
          (some (b ∷ bytes))
          files
          (some c)
        ≡ some (done (err_ok, some c')))
      × (c'.cores ≡ largest 0 ns)
      × (c_string c'.model ≡ done (before is_nul (b ∷ bytes)))
      × (c_string c'.frequency ≡ done ds)
      × All IsDigit ds
      × (decimal 0 ds ≡ freq)
      × (c'.vendor ≡ c.vendor)
      × (c'.total_time ≡ c.total_time)
      × (c'.idle_time ≡ c.idle_time)
unfolding cpu_read_arm64 frequency_then cpu_read_cpu_model_name_arm64 copy_model finish
    store_frequency
cpu_read_arm64_lem ns b bytes files freq c v small short found few =
    let text = before is_nul (b ∷ bytes) in
    let c1 = record c { cores = largest 0 ns; model = overlay (text ++ 0 ∷ []) c.model } in
    let (digits, value) = write_digits_lem 20 freq (omega arith) in
    (
      record c1 { frequency = print_frequency freq c.frequency },
      write_digits 20 freq,
      rw
          (
            cores_enabled_lem c ns v,
            fits,
            frequency_then,
            (core_frequency_lem true files c1 (largest 0 ns)).0 small,
            found,
          )
          refl,
      refl,
      ap c_string (append_assoc text (0 ∷ []) _) ∙ c_string-append text _ (before_text (b ∷ bytes)),
      printed freq c.frequency few,
      digits,
      value,
      refl,
      refl,
      refl,
    )
  where
    fits : ltb (length (before is_nul (b ∷ bytes))) 64 ≡ true
    fits = ground arith
