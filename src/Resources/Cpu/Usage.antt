-- ===== src/Resources/Cpu/Usage.antt =====
-- What `cpu_read_usage` makes of the lines of /proc/stat.
use agent_resources.Prelude.{
  ◌∙◌, ap, Bool-cases, inr, ◌⊎◌, true, false, inl, ℕ, ◌+◌, ◌≤◌, ◌<◌, ◌^◌, ◌≡◌, refl, arith, Option,
  some, none, List, [], ◌∷◌, ◌++◌, All, Bool, done, drop,
}
use mathlib.Core.List.{append-nil}
use agent_resources.Text.{codes, starts_with}
use agent_resources.Resources.{err_ok}
use agent_resources.Resources.Cpu.{Cpu, Times, usage_lines, cpu_read_usage, idle_all, total_all}

abbrev sum_of : Times → ℕ
sum_of t = t.user + t.nice + t.system + t.idle + t.iowait + t.irq + t.softirq + t.steal

module _ (scan : List ℕ → Option Times) where
  -- The line is not one of eight counters for all processors.
  abbrev pub Other : List ℕ → Type 0
  Other line = (starts_with (codes "cpu ") line ≡ false) ⊎ (scan (drop 4 line) ≡ none)

  usage_lines-append :
      (skipped lines : List (List ℕ)) (c : Cpu)
      → All Other skipped
      → usage_lines scan (skipped ++ lines) c ≡ usage_lines scan lines c
  unfolding usage_lines
  usage_lines-append [] lines c h = refl
  usage_lines-append (line ∷ skipped) lines c (inl e, h) =
      rw (e, usage_lines) (usage_lines-append skipped lines c h)
  usage_lines-append (line ∷ skipped) lines c (inr e, h) =
      elim (Bool-cases (starts_with (codes "cpu ") line)) [
        | inl t ↦ rw (t, e, usage_lines) (usage_lines-append skipped lines c h)
        | inr f ↦ rw (f, usage_lines) (usage_lines-append skipped lines c h)
      ]

  usage_lines-first :
      (line : List ℕ) (rest : List (List ℕ)) (t : Times) (c : Cpu)
      → starts_with (codes "cpu ") line ≡ true
      → scan (drop 4 line) ≡ some t
      → sum_of t < 2 ^ 64
      → usage_lines scan (line ∷ rest) c
        ≡ record c { idle_time = t.idle + t.iowait; total_time = sum_of t }
  unfolding usage_lines
  usage_lines-first line rest t c s e small = rw (s, e, usage_lines) (rw (idle, total) refl)
    where
      idle : idle_all t ≡ t.idle + t.iowait
      idle = omega arith

      total : total_all t ≡ sum_of t
      total = omega arith

  -- `cpu_read_usage` returns `ERR_OK` and takes its times from the first line that starts with
  -- `cpu` and a space and holds eight counters: if their sum is below 2 ^ 64, the total is that
  -- sum, and the idle time is the sum of the two idle counters and no more than the total. The
  -- other fields stay. Where there is no such line, it returns `ERR_OK` and the times stay too.
  pub cpu_read_usage_lem :
      (asserts : Bool) (skipped rest : List (List ℕ)) (line : List ℕ) (t : Times) (c : Cpu)
      → All Other skipped
      → starts_with (codes "cpu ") line ≡ true
      → scan (drop 4 line) ≡ some t
      → sum_of t < 2 ^ 64
      → (cpu_read_usage scan asserts (some c) (some (skipped ++ line ∷ rest))
          ≡ done (err_ok, some (record c { idle_time = t.idle + t.iowait; total_time = sum_of t })))
        × (t.idle + t.iowait ≤ sum_of t)
        × (cpu_read_usage scan asserts (some c) (some skipped) ≡ done (err_ok, some c))
  unfolding cpu_read_usage
  cpu_read_usage_lem asserts skipped rest line t c h s e small = (
    ap (λ (x : Cpu). done (err_ok, some x))
        (usage_lines-append skipped (line ∷ rest) c h ∙ usage_lines-first line rest t c s e small),
    omega arith,
    ap (λ (x : Cpu). done (err_ok, some x)) none_found,
  )
    where
      none_found : usage_lines scan skipped c ≡ c
      none_found =
          unfold usage_lines in (rw (append-nil skipped) at (usage_lines-append skipped [] c h))
