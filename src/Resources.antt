-- ===== src/Resources.antt =====
-- libres/resources.h and libres/resources.cc: what the readers of the system share.
--
-- A file that is read by `fopen` and `fgets` is what these calls return: `none` if it cannot be
-- opened, else the texts that the calls of `fgets` put into the buffer, one after the other. The
-- files are closed on every path of the readers but where a reader says otherwise. `asserts` says
-- that the build leaves `NDEBUG` undefined, as the Makefile does, so that a failed `assert` ends the
-- process.
pub mod Named
pub mod Disk
pub mod Cpu
pub mod Fs
pub mod Status
pub mod Ram
pub mod Device
pub mod Arm
pub mod Processes
use agent_resources.Prelude.{ℕ, List, Option, none, some}

-- `ERR_OK` and so on, of base/base.h.
abbrev pub err_ok : ℕ
err_ok = 0

abbrev pub err_io : ℕ
err_io = 1

abbrev pub err_parse : ℕ
err_parse = 2

abbrev pub err_perm : ℕ
err_perm = 3

abbrev pub err_invalid : ℕ
err_invalid = 4

-- The result of `fopen`, with the texts that `fgets` returns.
abbrev pub File : Type 0
File = Option (List (List ℕ))

-- The struct at a pointer that an allocation returned: all its bytes are 0.
abbrev pub placed : {A : Type 0} → Option ℕ → A → Option A
placed none zeros = none
placed (some p) zeros = some zeros
