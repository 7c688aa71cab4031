-- ===== src/Handlers/Tests.antt =====
-- Runs of the handlers at fixed inputs, and the instances of their theorems.
use agent_resources.Prelude.{
  ℕ, ◌+◌, ◌^◌, ◌<◌, ◌≡◌, refl, arith, some, none, List, [], ◌∷◌, All, true, false, if◌then◌else◌,
  ◌==◌, done, fault, aborted, inr, length, pos,
}
use agent_resources.Text.{after, before, skip, codes, is_newline, is_space, starts_with}
use agent_resources.Resources.Cpu.Info.{Fits}
use agent_resources.Parse.Number.{IsDigit}
use agent_resources.Resources.Ram.Line.{size_line, AreSpaces}
use agent_resources.Resources.Disk.Read.{parsed}
use agent_resources.Handlers.{
  get_cpu_impl, deadline_exceeded, System, ok, Response, get_system_resources_impl, get_ram_impl,
}
use agent_resources.Handlers.Accept.{Gives}
use agent_resources.Handlers.Files.{CpuFile, RamFile, DeviceFiles, system_resources_lem}
use agent_resources.Resources.Device.Laws.{name_line}
use agent_resources.Resources.Cpu.Sections.{Field, IsField, Section, IsSection, Other, starts_space}
use agent_resources.Resources.Cpu.Whole.{file_lines}
use agent_resources.Handlers.GetCpu.{message_of, get_cpu_lem}
use agent_resources.Handlers.Errors.{cpu_missing_lem, cpu_overflow_lem}
use agent_resources.Handlers.GetRam.{get_ram_lem}

abbrev spaces : List ℕ
spaces = 0x20 ∷ []

-- A call with a deadline of 100 at a time of 40, and one more at each reading.
abbrev system : System
system = record {
  asserts = true;
  cancelled = false;
  deadline = 100;
  now = λ k. 40 + k;
  mapping = λ len. some (if len == 8224 then 65536 else 131072);
  memory = λ a. 0;
  cpuinfo = some (codes "vendor_id : Intel" ∷ codes "cpu cores : 8" ∷ []);
  meminfo = some (
      size_line (codes "MemTotal") spaces b'1' (codes "024") (codes "B")
      ∷ size_line (codes "MemFree") spaces b'5' (codes "12") (codes "B")
      ∷ []);
  partitions = some (codes "major" ∷ []);
  scan = λ line. none;
  os_release = some [];
  uptime = some (some (pos 60));
}

spaces-AreSpaces : AreSpaces spaces
spaces-AreSpaces = (refl, tt)

total-IsDigit : All IsDigit (codes "1024")
total-IsDigit = omega arith

free-IsDigit : All IsDigit (codes "512")
free-IsDigit = omega arith

few_lines : length (parsed system.scan (codes "major" ∷ [])) < 2 ^ 54
unfolding parsed
few_lines = omega arith

get_ram_lem_example :
    (p : Response) × (get_ram_impl system ≡ done p)
    × Gives p ok none (some (record { total = 1024; free = 512 })) []
get_ram_lem_example =
    get_ram_lem system 131072 65536 spaces spaces b'1' (codes "024") b'5' (codes "12") (codes "B")
      (codes "B") [] refl refl refl spaces-AreSpaces spaces-AreSpaces total-IsDigit free-IsDigit
      (omega arith) tt

-- Two processors, one with a line of another field in front.
abbrev field : List ℕ → Field
field value = record { gap = 0x09 ∷ []; spaces = 0x20 ∷ []; value = value }

abbrev first_section : Section
first_section = record {
  lines0 = codes "processor: 0" ∷ [];
  vendor = field (codes "AMD");
  lines1 = [];
  model = field (codes "Zen: 4");
  lines2 = [];
  frequency = field (codes "800.0");
  lines3 = [];
  cores = field (codes "2");
  lines4 = [];
}

abbrev second_section : Section
second_section = record first_section { lines0 = []; frequency = field (codes "900.0") }

abbrev two_processors : System
two_processors = record system { cpuinfo = some (file_lines (first_section ∷ second_section ∷ [])) }

plain-IsField :
    (size : ℕ) (value : List ℕ)
    → starts_space value ≡ false
    → All (λ c. is_newline c ≡ false) value
    → All (λ c. (c == 0) ≡ false) value
    → length value < size
    → IsField size (field value)
plain-IsField size value e newline text h = record {
  gap_plain = (refl, tt);
  spaces_only = (refl, tt);
  value_start = e;
  value_plain = newline;
  value_text = text;
  value_fits = h;
}

plain-IsSection :
    (lines : List (List ℕ)) (frequency : Field)
    → All Other lines
    → IsField 16 frequency
    → IsSection (record second_section { lines0 = lines; frequency = frequency })
plain-IsSection lines frequency o f = record {
  others0 = o;
  vendor_is =
      plain-IsField 16 (codes "AMD") refl (refl, (refl, (refl, tt))) (refl, (refl, (refl, tt)))
        (omega arith);
  others1 = tt;
  model_is =
      plain-IsField 64 (codes "Zen: 4") refl (refl, (refl, (refl, (refl, (refl, (refl, tt))))))
        (refl, (refl, (refl, (refl, (refl, (refl, tt)))))) (omega arith);
  others2 = tt;
  frequency_is = f;
  others3 = tt;
  cores_is = plain-IsField 16 (codes "2") refl (refl, tt) (refl, tt) (omega arith);
  others4 = tt;
}

processor-Other : All Other (codes "processor: 0" ∷ [])
unfolding starts_with
processor-Other = ((refl, refl, refl, refl), tt)

frequency-IsField :
    (c : ℕ)
    → (c == 0) ≡ false
    → is_newline c ≡ false
    → is_space c ≡ false
    → IsField 16 (field (c ∷ codes "00.0"))
frequency-IsField c z n s =
    plain-IsField 16 (c ∷ codes "00.0") s (n, (refl, (refl, (refl, (refl, tt)))))
      (z, (refl, (refl, (refl, (refl, tt))))) (omega arith)

two-IsSection : All IsSection (first_section ∷ second_section ∷ [])
two-IsSection = (
  plain-IsSection (codes "processor: 0" ∷ []) (field (codes "800.0")) processor-Other
      (frequency-IsField b'8' refl refl refl),
  (plain-IsSection [] (field (codes "900.0")) tt (frequency-IsField b'9' refl refl refl), tt),
)

get_cpu_lem_example :
    (p : Response) × (get_cpu_impl two_processors ≡ done p)
    × Gives p ok (some (message_of second_section)) none []
get_cpu_lem_example =
    get_cpu_lem two_processors 131072 first_section (second_section ∷ []) refl refl two-IsSection
      ((refl, refl, refl), tt)

-- The deadline is passed at the third reading behind the first, and the arena stays mapped.
abbrev late_system : System
late_system = record two_processors {
  deadline = 42;
  os_release = some (name_line (codes "Deb") [] ∷ []);
}

abbrev cpu_file : CpuFile late_system
cpu_file = record {
  section = first_section;
  sections = second_section ∷ [];
  cpu_opens = refl;
  are_sections = two-IsSection;
  same_lengths = ((refl, refl, refl), tt);
}

abbrev ram_file : RamFile late_system
ram_file = record {
  spaces = spaces;
  first = b'1';
  digits = codes "024";
  unit = codes "B";
  spaces' = spaces;
  first' = b'5';
  digits' = codes "12";
  unit' = codes "B";
  others = [];
  ram_opens = refl;
  are_spaces = spaces-AreSpaces;
  are_spaces' = spaces-AreSpaces;
  are_digits = total-IsDigit;
  are_digits' = free-IsDigit;
  short = omega arith;
  no_sizes = tt;
}

abbrev device_files : DeviceFiles late_system
device_files = record {
  partitions = codes "major" ∷ [];
  partitions_open = refl;
  few = few_lines;
  early = [];
  late_lines = [];
  name = codes "Deb";
  rest = [];
  os_opens = refl;
  no_names = tt;
  no_names' = tt;
  quotable = ((refl, (refl, (refl, tt))), (refl, (refl, (refl, tt))));
  name_short = omega arith;
  seconds = 60;
  uptime_reads = refl;
}

system_resources_lem_example :
    (p : Response) × (get_system_resources_impl late_system ≡ done p)
    × Gives p deadline_exceeded none none ((131072, 8388640) ∷ [])
system_resources_lem_example =
    system_resources_lem late_system 131072 65536 refl refl cpu_file ram_file device_files

-- /proc/cpuinfo cannot be opened.
abbrev no_cpuinfo : System
no_cpuinfo = record system { cpuinfo = none }

cpu_missing_lem_example :
    (get_cpu_impl no_cpuinfo ≡ aborted) × (get_system_resources_impl no_cpuinfo ≡ aborted)
cpu_missing_lem_example = cpu_missing_lem no_cpuinfo refl refl refl (inr refl)

-- A vendor of 17 bytes.
abbrev long_lines : List (List ℕ)
long_lines = codes "vendor_id : GenuineIntelIntel" ∷ []

long_overflows : ¬ All Fits long_lines
long_overflows = unfold after before skip starts_with in λ h. absurd (omega (arith, h.0.0 refl))

abbrev long_vendor : System
long_vendor = record system { cpuinfo = some long_lines }

cpu_overflow_lem_example :
    (get_cpu_impl long_vendor ≡ fault) × (get_system_resources_impl long_vendor ≡ fault)
cpu_overflow_lem_example =
    cpu_overflow_lem long_vendor 131072 long_lines refl refl refl refl long_overflows
