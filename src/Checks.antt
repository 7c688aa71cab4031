-- ===== src/Checks.antt =====
-- The macros of base/base_test.h. Both end the process by `_exit(1)` when their argument is not 0;
-- `check` reports either way and `test` only then. The reports on standard error are not modelled.
use agent_resources.Prelude.{ℕ, ◌==◌, if◌then◌else◌, Run, aborted}

-- `check(expr); rest`
abbrev pub check_then {ℓ} : {A : Type ℓ} → ℕ → Run A → Run A
check_then expr rest = if expr == 0 then rest else aborted

-- `test(expr); rest`
abbrev pub test_then {ℓ} : {A : Type ℓ} → ℕ → Run A → Run A
test_then expr rest = if expr == 0 then rest else aborted
