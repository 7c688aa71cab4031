-- ===== src/Handlers/Reference/Tests.antt =====
-- The answers of the handlers at fixed files, and the instance of their theorem.
use agent_resources.Prelude.{
  replicate, inr, ℕ, ◌+◌, ◌≡◌, ◌≤◌, refl, arith, some, none, List, [], ◌∷◌, All, done, true, false,
  ◌==◌, if◌then◌else◌, pos,
}
use agent_resources.Text.{codes, after, before, skip, starts_with}
use agent_resources.Resources.Cpu.Info.{Fits}
use agent_resources.Resources.Ram.Reference.{text_bytes}
use agent_resources.Handlers.{System, get_cpu_impl, get_ram_impl}
use agent_resources.Handlers.Reference.{HoldsText, IsNumber, answers_lem}
use agent_resources.Handlers.Accept.{Gives}
use agent_resources.Resources.Cpu.Reference.{cpu_of}
use agent_resources.Resources.Ram.Reference.{last_text}
use agent_resources.Handlers.{zero_cpu, ok, Response}

-- Two processors, the second of another vendor and with no model.
abbrev cpu_lines : List (List ℕ)
cpu_lines =
    codes "vendor_id : Intel"
    ∷ codes "model name: i5"
    ∷ codes ""
    ∷ codes "vendor_id : AMD"
    ∷ codes "cpu cores : 8"
    ∷ []

abbrev ram_lines : List (List ℕ)
ram_lines = codes "MemFree: 512 kB" ∷ codes "MemTotal: 9 kB" ∷ codes "MemTotal: 1024 kB" ∷ []

abbrev system : System
system = record {
  asserts = true;
  cancelled = false;
  deadline = 100;
  now = λ k. 40 + k;
  mapping = λ len. some (if len == 8224 then 65536 else 131072);
  memory = λ a. 0;
  cpuinfo = some cpu_lines;
  meminfo = some ram_lines;
  partitions = none;
  scan = λ line. none;
  os_release = none;
  uptime = some (some (pos 60));
}

lines-Fits : All Fits cpu_lines
lines-Fits = unfold after before skip starts_with in (ground arith)

lines-fit : text_bytes ram_lines ≤ 8192
unfolding starts_with after before skip
lines-fit = omega arith

-- The last letters of the first vendor stay behind the second.
vendor_text : HoldsText (codes "AMDel") (cpu_of cpu_lines zero_cpu).vendor
unfolding after before skip starts_with
vendor_text = record {
  behind = replicate 10 0;
  ends = refl;
  no_nul = (refl, (refl, (refl, (refl, (refl, tt)))));
}

model_text : HoldsText (codes "i5") (cpu_of cpu_lines zero_cpu).model
unfolding after before skip starts_with
model_text = record { behind = replicate 61 0; ends = refl; no_nul = (refl, (refl, tt)) }

frequency_text : HoldsText [] (cpu_of cpu_lines zero_cpu).frequency
unfolding after before skip starts_with
frequency_text = record { behind = replicate 15 0; ends = refl; no_nul = tt }

total-IsNumber : IsNumber (last_text (codes "MemTotal") none ram_lines) 1024
unfolding after before skip starts_with
total-IsNumber = record {
  digits = codes "1024";
  behind = 0x20 ∷ [];
  reads = refl;
  are_digits = omega arith;
  stops = inr refl;
  value = refl;
}

free-IsNumber : IsNumber (last_text (codes "MemFree") none ram_lines) 512
unfolding after before skip starts_with
free-IsNumber = record {
  digits = codes "512";
  behind = 0x20 ∷ [];
  reads = refl;
  are_digits = omega arith;
  stops = inr refl;
  value = refl;
}

answers_lem_example :
    ((p : Response) × (get_cpu_impl system ≡ done p)
      × Gives p ok
          (some (record {
            vendor = codes "AMDel";
            model = codes "i5";
            frequency = [];
            total_time = 0;
            idle_time = 0;
            cores = 0;
          }))
          none
          [])
    × ((p : Response) × (get_ram_impl system ≡ done p)
        × Gives p ok none (some (record { total = 1024; free = 512 })) [])
answers_lem_example =
    answers_lem system 131072 65536 cpu_lines ram_lines (codes "AMDel") (codes "i5") [] 1024 512
      refl refl refl refl lines-Fits vendor_text model_text frequency_text lines-fit total-IsNumber
      free-IsNumber
