-- ===== src/Prelude/Int.antt =====
-- Signed integers, `negsuc n` being -(n + 1), with the conversions and the division of C.
use Prim.Native.Nat.{ℕ, ◌+◌, ◌-◌, ◌/◌, ◌%◌, ◌^◌}
use agent_resources.Prelude.Tests.{ltb, if◌then◌else◌, ◌==◌}

pub data ℤ : Type 0 where
  pos : ℕ → ℤ
  negsuc : ℕ → ℤ

-- The signed integer of `half + half` values whose bit pattern is `n`.
abbrev pub signed : ℕ → ℕ → ℤ
signed half n =
    let r = n % (half + half) in if ltb r half then pos r else negsuc (half + half - 1 - r)

abbrev pub to_i8 : ℕ → ℤ
to_i8 n = signed (2 ^ 7) n

abbrev pub to_i32 : ℕ → ℤ
to_i32 n = signed (2 ^ 31) n

abbrev pub minus : ℕ → ℤ
minus n = if n == 0 then pos 0 else negsuc (n - 1)

-- `a / n` and `a % n`, rounded towards 0.
abbrev pub quot : ℤ → ℕ → ℤ
quot (pos a) n = pos (a / n)
quot (negsuc a) n = minus ((a + 1) / n)

abbrev pub rem : ℤ → ℕ → ℤ
rem (pos a) n = pos (a % n)
rem (negsuc a) n = minus ((a + 1) % n)
