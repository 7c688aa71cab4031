-- ===== src/Resources/Fs/Laws.antt =====
-- What `fs_read`, `device_up_time` and `process_kill` return.
use agent_resources.Prelude.{
  Bool, sym, inl, Option-cases, ◌==◌, inr, ℕ, ◌+◌, ◌-◌, ◌*◌, ◌/◌, ◌%◌, ◌^◌, ◌≤◌, ◌<◌, ◌≡◌, ◌≢◌, ◌↔◌,
  refl, arith, Option, some, none, List, [], ◌∷◌, ◌++◌, true, false, Run, done, length, ℤ, pos,
  negsuc, sub64, ap, ◌∙◌,
}
use native.Mathlib.Decide.{ℕ_discrete}
use agent_resources.Parse.{write_digits, parse_u64}
use agent_resources.Parse.Number.{parse_u64_lem, write_digits_lem}
use agent_resources.Resources.{err_ok, err_invalid}
use agent_resources.Resources.Fs.{
  StatFs, FileSystem, fs_read, uptime_text, device_up_time, print_long, process_kill, kill_error,
}

mul_le : (a b c : ℕ) → a ≤ b → a * c ≤ b * c
mul_le a b c h = grind arith

sub-mul-add : (a b c : ℕ) → b ≤ a → (a - b) * c + b * c ≡ a * c
sub-mul-add a b c h =
    let e : a ≡ (a - b) + b = omega arith in omega (arith, ap (λ (t : ℕ). t * c) e)

-- For what a file system reports, with fewer than 2 ^ 64 blocks, no more free blocks than blocks,
-- no more available than free ones, and a size in bytes below 2 ^ 64: `fs_read` returns `ERR_OK`
-- and the sizes in bytes, of which used and free make up the total, and available is no more than
-- free.
pub fs_read_lem :
    (s : StatFs) (fs : FileSystem)
    → s.f_bfree ≤ s.f_blocks
    → s.f_bavail ≤ s.f_bfree
    → s.f_blocks * s.f_bsize < 2 ^ 64
    → s.f_blocks < 2 ^ 64
    → let r = fs_read (some s) fs in
      (r.0 ≡ err_ok)
      × (r.1.total ≡ s.f_blocks * s.f_bsize)
      × (r.1.used + r.1.free ≡ r.1.total)
      × (r.1.available ≤ r.1.free)
unfolding fs_read
fs_read_lem s fs free avail small words = (
  refl,
  omega arith,
  rw blocks (omega (arith, parts, frees)),
  omega (arith, frees, mul_le s.f_bavail s.f_bfree s.f_bsize avail),
)
  where
    blocks : sub64 s.f_blocks s.f_bfree ≡ s.f_blocks - s.f_bfree
    blocks = omega arith

    parts : (s.f_blocks - s.f_bfree) * s.f_bsize + s.f_bfree * s.f_bsize ≡ s.f_blocks * s.f_bsize
    parts = sub-mul-add s.f_blocks s.f_bfree s.f_bsize free

    frees : s.f_bfree * s.f_bsize ≤ s.f_blocks * s.f_bsize
    frees = mul_le s.f_bfree s.f_blocks s.f_bsize free

-- For an uptime of `s` seconds, not negative and below 2 ^ 63: the text of `device_up_time` is the
-- days, hours and minutes in decimal, with their letters; they are the whole minutes of `s`, with
-- fewer than 24 hours and 60 minutes; and `parse_u64` reads the days back from the text.
pub uptime_text_lem :
    (s : ℕ)
    → s < 2 ^ 63
    → (day hour minutes : ℕ) × (uptime_text (pos s)
        ≡ write_digits 20 day
          ++ b'd'
            ∷ 0x20
            ∷ (write_digits 20 hour ++ b'h' ∷ 0x20 ∷ (write_digits 20 minutes ++ b'm' ∷ [])))
      × ((day * 24 + hour) * 60 + minutes ≡ s / 60)
      × (hour < 24)
      × (minutes < 60)
      × (parse_u64 (uptime_text (pos s)) (length (write_digits 20 day) + 1) ≡ done day)
unfolding uptime_text print_long
uptime_text_lem s h =
    let (d, e) = write_digits_lem 20 (s / 86400) (omega arith) in
    (
      s / 86400,
      s % 86400 / 3600,
      s % 3600 / 60,
      refl,
      omega arith,
      omega arith,
      omega arith,
      parse_u64_lem (write_digits 20 (s / 86400)) _ 1 d (inr refl) ∙ ap done (omega (arith, e)),
    )

pub device_up_time-ok :
    (asserts : Bool) (out : List ℕ) (s : ℤ)
    → device_up_time asserts (some out) (some (some s)) ≡ done (err_ok, some (uptime_text s))
unfolding device_up_time
device_up_time-ok asserts out s = refl

kill_error_pos : (errno : ℕ) → kill_error errno ≢ 0
unfolding kill_error
kill_error_pos errno e = ground arith

done-injective :
    {a b : ℕ} {x y : List (ℤ × ℤ)}
    → ◌≡◌ {A = Run (ℕ × List (ℤ × ℤ))} (done (a, x)) (done (b, y))
    → a ≡ b
done-injective e = cc

some-ne-none : {x : ℕ} → ¬ (some x ≡ none)
some-ne-none e = cc

module _ (kill : ℤ → ℤ → Option ℕ) where
  -- The call is made, and succeeds.
  abbrev pub Sent : ℤ → ℤ → Type 0
  Sent (pos pid) signal = (pid ≢ 0) × (kill (pos pid) signal ≡ none)
  Sent (negsuc n) signal = ⊥

  -- Where a failed `assert` ends the process, `process_kill` returns only if the process number is
  -- above 0 and the signal was sent, and then `ERR_OK`: it never returns an error code. Built with
  -- `NDEBUG` it always returns, and `ERR_OK` exactly then.
  pub process_kill_lem :
      (pid signal : ℤ)
      → ((code : ℕ) (calls : List (ℤ × ℤ))
          → process_kill kill true pid signal ≡ done (code, calls)
          → (code ≡ err_ok) × Sent pid signal)
        × ((code : ℕ) × (calls : List (ℤ × ℤ)) × (process_kill kill false pid signal
              ≡ done (code, calls))
            × ((code ≡ err_ok) ↔ Sent pid signal))
  unfolding process_kill
  process_kill_lem (negsuc n) signal =
      (λ code calls e. cc, (err_invalid, [], refl, (λ e. absurd (omega arith), λ x. absurd x)))
  process_kill_lem (pos pid) signal = elim (ℕ_discrete pid 0) [
    | yes z ↦ rw z (
      λ code calls e. cc,
      (err_invalid, [], refl, (λ e. absurd (omega arith), λ x. absurd (x.0 refl))),
    )
    | no nz ↦ elim (Option-cases (kill (pos pid) signal)) [
      | inl sent ↦
          rw (positive nz, sent)
            (
              λ code calls e. (sym (done-injective e), (nz, refl)),
              (err_ok, _, refl, (λ e. (nz, refl), λ x. refl)),
            )
      | inr (errno, failed) ↦
          rw (positive nz, failed)
            (
              λ code calls e. cc,
              (
                kill_error errno,
                _,
                refl,
                (λ e. absurd (kill_error_pos errno e), λ x. absurd (some-ne-none x.1)),
              ),
            )
    ]
  ]
    where
      positive : pid ≢ 0 → (pid == 0) ≡ false
      positive h = ground arith
