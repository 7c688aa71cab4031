-- ===== src/Resources/Cpu/Tests.antt =====
-- Runs of the readers of the processor at fixed inputs, and the instances of their theorems.
use agent_resources.Prelude.{
  ◌⊎◌, ◌++◌, fault, ℕ, ◌≤◌, ◌≡◌, inl, refl, arith, Option, some, none, List, [], ◌∷◌, All, true,
  done, replicate,
}
use agent_resources.Resources.{err_ok}
use agent_resources.Text.{codes, starts_with, after, before, skip}
use agent_resources.Resources.Cpu.{Cpu, Times, cpu_read_usage, cpu_read_amd64}
use agent_resources.Resources.Cpu.Info.{Fits, any_names_cores}
use agent_resources.Resources.Cpu.Usage.{Other, cpu_read_usage_lem}
use agent_resources.Resources.Cpu.Reference.{cpu_of, cpu_read_amd64_reference}

abbrev cpu : Cpu
cpu = record {
  total_time = 0;
  idle_time = 0;
  cores = 4;
  vendor = replicate 16 0;
  model = replicate 64 0;
  frequency = replicate 16 0;
}

abbrev lines : List (List ℕ)
lines = codes "vendor_id : AuthenticAMD" ∷ codes "cpu MHz : 3600.1" ∷ codes "cpu cores : 8" ∷ []

lines-Fits : All Fits lines
lines-Fits = unfold after before skip starts_with in (ground arith)

-- The line names the cores, so 8 cores are read as 0.
cores_runs : any_names_cores lines ≡ true
unfolding after starts_with
cores_runs = refl

abbrev times : Times
times = record {
  user = 100;
  nice = 2;
  system = 30;
  idle = 400;
  iowait = 5;
  irq = 0;
  softirq = 7;
  steal = 0;
}

abbrev scan : List ℕ → Option Times
scan [] = none
scan (c ∷ s) = some times

abbrev usage_line : List ℕ
usage_line = codes "cpu  100 2 30 400 5 0 7 0"

usage_starts : starts_with (codes "cpu ") usage_line ≡ true
unfolding starts_with
usage_starts = refl

btime-Other : All (Other scan) (codes "btime 1" ∷ [])
unfolding starts_with
btime-Other = (inl refl, tt)

cpu_read_usage_lem_example :
    (cpu_read_usage scan true (some cpu) (some (codes "btime 1" ∷ usage_line ∷ []))
      ≡ done (err_ok, some (record cpu { idle_time = 405; total_time = 544 })))
    × (405 ≤ 544)
    × (cpu_read_usage scan true (some cpu) (some (codes "btime 1" ∷ [])) ≡ done (err_ok, some cpu))
cpu_read_usage_lem_example =
    cpu_read_usage_lem scan true (codes "btime 1" ∷ []) [] usage_line times cpu btime-Other
      usage_starts refl (omega arith)

-- A vendor of 17 bytes.
abbrev long_lines : List (List ℕ)
long_lines = codes "cpu cores : 8" ∷ codes "vendor_id : GenuineIntelIntel" ∷ []

long_overflows : ¬ All Fits long_lines
long_overflows = unfold after before skip starts_with in λ h. absurd (omega (arith, h.1.0.0 refl))

-- The second vendor is shorter, so the first one's last letters stay behind it.
abbrev two_vendors : List (List ℕ)
two_vendors =
    codes "vendor_id : GenuineIntel"
    ∷ codes "model name"
    ∷ codes "cpu cores : 8"
    ∷ codes "vendor_id : AMD"
    ∷ []

two_vendors-Fits : All Fits two_vendors
two_vendors-Fits = unfold after before skip starts_with in (ground arith)

two_vendors_read :
    cpu_of two_vendors cpu
    ≡ record cpu { cores = 0; vendor = codes "AMDuineIntel" ++ replicate 4 0 }
unfolding after before skip starts_with
two_vendors_read = refl

cpu_read_amd64_reference_example :
    (All Fits two_vendors
      × (cpu_read_amd64 true (some cpu) (some two_vendors)
          ≡ done (err_ok, some (cpu_of two_vendors cpu))))
    ⊎ ((¬ All Fits two_vendors) × (cpu_read_amd64 true (some cpu) (some two_vendors) ≡ fault))
cpu_read_amd64_reference_example = cpu_read_amd64_reference true two_vendors cpu
