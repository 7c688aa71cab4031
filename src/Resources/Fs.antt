-- ===== src/Resources/Fs.antt =====
-- File systems, uptime and signals: `fs_read`, `device_up_time` and `process_kill` of
-- libres/resources.cc. The calls of the kernel are arguments: what they return.
pub mod Laws
mod Tests
use agent_resources.Prelude.{
  ℕ, ◌+◌, ◌-◌, ◌*◌, ◌/◌, ◌%◌, ◌^◌, Option, none, some, List, [], ◌∷◌, ◌++◌, Run, done, Bool, true,
  false, if◌then◌else◌, ◌==◌, u64, mul64, sub64, assert_then, ℤ, pos, negsuc, quot, rem,
}
use agent_resources.Memory.{Memory}
use agent_resources.Arena.{Arena, arena_alloc}
use agent_resources.Parse.{write_digits}
use agent_resources.Resources.{err_ok, err_io, err_perm, err_invalid}

-- What `statfs` fills in, as the `u64` that the code casts each field to.
pub record StatFs : Type 0 where
  pub f_bsize : ℕ
  pub f_blocks : ℕ
  pub f_bfree : ℕ
  pub f_bavail : ℕ

pub record FileSystem : Type 0 where
  pub total : ℕ
  pub free : ℕ
  pub available : ℕ
  pub used : ℕ

-- `sizeof(sys_fs)`
abbrev pub fs_size : ℕ
fs_size = 32

pub fs_create : Option Arena → Memory → Option ℕ × Option Arena × Memory
fs_create arena m = arena_alloc arena fs_size m

-- `none` is a `statfs` that does not return 0.
pub fs_read : Option StatFs → FileSystem → ℕ × FileSystem
fs_read none fs = (err_io, fs)
fs_read (some s) fs = (
  err_ok,
  record {
    total = mul64 s.f_blocks s.f_bsize;
    free = mul64 s.f_bfree s.f_bsize;
    available = mul64 s.f_bavail s.f_bsize;
    used = mul64 (sub64 s.f_blocks s.f_bfree) s.f_bsize;
  },
)

-- `%ld`: twenty digits are enough for an `i64`.
pub print_long : ℤ → List ℕ
print_long (pos n) = write_digits 20 n
print_long (negsuc n) = b'-' ∷ write_digits 20 (n + 1)

-- The text that `sprintf` puts into `out->uptime`.
pub uptime_text : ℤ → List ℕ
uptime_text s =
    let day = quot s 86400 in
    let hour = quot (rem s 86400) 3600 in
    let minutes = quot (rem s 3600) 60 in
    print_long day
    ++ b'd' ∷ 0x20 ∷ (print_long hour ++ b'h' ∷ 0x20 ∷ (print_long minutes ++ b'm' ∷ []))

-- The file is `none` if it cannot be opened, and holds `none` if `fscanf` reads no number. `out` is
-- the field `uptime` of the device, if the device is not NULL.
pub device_up_time : Bool → Option (List ℕ) → Option (Option ℤ) → Run (ℕ × Option (List ℕ))
device_up_time asserts none file = assert_then asserts false (done (err_invalid, none))
device_up_time asserts (some out) none = assert_then asserts false (done (err_io, some out))
device_up_time asserts (some out) (some none) = assert_then asserts false (done (err_io, some out))
device_up_time asserts (some out) (some (some s)) = done (err_ok, some (uptime_text s))

-- The `errno` values that the code tells apart, as Linux numbers them.
abbrev pub eperm : ℕ
eperm = 1

abbrev pub esrch : ℕ
esrch = 3

-- The code that a failed `kill` is turned into.
pub kill_error : ℕ → ℕ
kill_error errno =
    if errno == eperm then err_perm else if errno == esrch then err_invalid else err_io

-- `kill pid signal` is the `errno` of the call, if it returns -1. The list holds the calls made.
pub process_kill : (ℤ → ℤ → Option ℕ) → Bool → ℤ → ℤ → Run (ℕ × List (ℤ × ℤ))
process_kill kill asserts (negsuc n) signal = assert_then asserts false (done (err_invalid, []))
process_kill kill asserts (pos pid) signal =
    if pid == 0
    then assert_then asserts false (done (err_invalid, []))
    else elim (kill (pos pid) signal) [
      | none ↦ done (err_ok, (pos pid, signal) ∷ [])
      | some errno ↦ assert_then asserts false (done (kill_error errno, (pos pid, signal) ∷ []))
    ]
