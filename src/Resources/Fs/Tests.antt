-- ===== src/Resources/Fs/Tests.antt =====
-- Runs of the file system, the uptime and the signals at fixed inputs, and the instances of their
-- theorems.
use agent_resources.Prelude.{
  ℕ, ◌+◌, ◌*◌, ◌/◌, ◌<◌, ◌≡◌, ◌↔◌, refl, arith, Option, some, none, List, [], ◌∷◌, ◌++◌, true,
  false, if◌then◌else◌, ◌==◌, done, length, ℤ, pos, negsuc,
}
use agent_resources.Parse.{write_digits, parse_u64}
use agent_resources.Text.{codes}
use agent_resources.Resources.{err_ok}
use agent_resources.Resources.Fs.{StatFs, FileSystem, uptime_text, print_long, process_kill, eperm}
use agent_resources.Resources.Fs.Laws.{uptime_text_lem, process_kill_lem, Sent}

abbrev stat : StatFs
stat = record { f_bsize = 4096; f_blocks = 1000; f_bfree = 300; f_bavail = 250 }

abbrev empty : FileSystem
empty = record { total = 0; free = 0; available = 0; used = 0 }

uptime_runs : uptime_text (pos 183845) ≡ codes "2d 3h 4m"
unfolding uptime_text print_long write_digits
uptime_runs = refl

uptime_text_lem_example :
    (day hour minutes : ℕ) × (uptime_text (pos 183845)
      ≡ write_digits 20 day
        ++ b'd'
          ∷ 0x20
          ∷ (write_digits 20 hour ++ b'h' ∷ 0x20 ∷ (write_digits 20 minutes ++ b'm' ∷ [])))
    × ((day * 24 + hour) * 60 + minutes ≡ 183845 / 60)
    × (hour < 24)
    × (minutes < 60)
    × (parse_u64 (uptime_text (pos 183845)) (length (write_digits 20 day) + 1) ≡ done day)
uptime_text_lem_example = uptime_text_lem 183845 (omega arith)

-- A call that is allowed for the process 7 only.
abbrev kill : ℤ → ℤ → Option ℕ
kill (pos n) signal = if n == 7 then none else some eperm
kill (negsuc n) signal = some eperm

process_kill_lem_example :
    ((code : ℕ) (calls : List (ℤ × ℤ))
      → process_kill kill true (pos 7) (pos 15) ≡ done (code, calls)
      → (code ≡ err_ok) × Sent kill (pos 7) (pos 15))
    × ((code : ℕ) × (calls : List (ℤ × ℤ)) × (process_kill kill false (pos 7) (pos 15)
          ≡ done (code, calls))
        × ((code ≡ err_ok) ↔ Sent kill (pos 7) (pos 15)))
process_kill_lem_example = process_kill_lem kill (pos 7) (pos 15)
