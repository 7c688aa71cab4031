-- ===== src/Stack/Tests.antt =====
-- Runs of the stack at fixed inputs, and the instances of its theorems.
use agent_resources.Prelude.{ℕ, ◌+◌, ◌<◌, ◌≡◌, refl, arith, List, [], ◌∷◌, done}
use agent_resources.Memory.{Memory}
use agent_resources.Mem.{is_pow}
use agent_resources.Stack.{Stack, calculate_padding, header_padding, header_size}
use agent_resources.Stack.Push.{IsValid}
use agent_resources.Stack.Refine.{
  Op, push, pop, Client, StandsFor, SamePlace, run, abstract_run, run_refines,
}
use agent_resources.Stack.Pop.{nested, nested_lem}

abbrev memory : Memory
memory a = 7

abbrev used : Stack
used = record { address = 8168; base_position = 8192; current_offset = 30; capacity = 1024 }

used-IsValid : IsValid used
used-IsValid = omega arith

-- The pointer 8192 is a multiple of 16, and 8222 is not; the padding is 16 for both.
padding_runs :
    (calculate_padding 8192 16 header_size ≡ done 16)
    × (calculate_padding 8222 16 header_size ≡ done 16)
    × (calculate_padding 8222 24 header_size ≡ done 0)
unfolding calculate_padding header_padding is_pow
padding_runs = (refl, refl, refl)

nested_lem_example :
    (m' : Memory) × (nested used (100 ∷ 2000 ∷ 50 ∷ []) memory ≡ done (used, m'))
    × ((x : ℕ) → x < 8192 + 30 → m' x ≡ memory x)
nested_lem_example = nested_lem (100 ∷ 2000 ∷ 50 ∷ []) used memory used-IsValid (omega arith)

-- Two blocks fit, a third does not, and one is taken back.
abbrev script : List Op
script = push 100 ∷ push 200 ∷ push 5000 ∷ pop ∷ push 50 ∷ []

abbrev empty_client : Client
empty_client = record { stack = record used { current_offset = 0 }; pointers = []; memory = memory }

empty-StandsFor : StandsFor empty_client []
empty-StandsFor = record {
  valid = omega arith;
  offset = refl;
  pointers_at = refl;
  headers = tt;
  sizes = tt;
}

run_refines_example :
    (t' : Client) × (run script empty_client ≡ done t')
    × StandsFor t' (abstract_run 1024 script [])
    × SamePlace empty_client t'
run_refines_example = run_refines script empty_client [] empty-StandsFor (
  (omega arith, omega arith),
  (
    (omega arith, omega arith),
    ((omega arith, omega arith), (tt, ((omega arith, omega arith), tt))),
  ),
)

script_runs : abstract_run 1024 script [] ≡ 50 ∷ 100 ∷ []
script_runs = refl
