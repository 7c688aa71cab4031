-- ===== src/Arena/Refine/Tests.antt =====
-- Runs of a client of the arena at fixed inputs, and the instances of the theorems on them.
use agent_resources.Prelude.{◌≡◌, refl, arith, List, [], ◌∷◌, ◌==◌, if◌then◌else◌}
use agent_resources.Arena.Refine.{Op, allocate, store, pop, Client, run, abstract_run}
use agent_resources.Arena.Refine.Temporary.{in_scope, in_scope_lem}
use agent_resources.Arena.Refine.Standing.{StandsFor, StaysInside}
use agent_resources.Arena.Refine.Laws.{client_run_refines}

abbrev client : Client
client = record {
  arena = record {
    address = 4096;
    current_position = 0;
    previous_position = 0;
    capacity = 16;
    base_position = 4128;
  };
  blocks = [];
  memory = λ a. a;
}

-- The third allocation does not fit, and the last one takes the place of the second.
abbrev script : List Op
script =
    allocate 2
    ∷ store 0 1 7
    ∷ allocate 3
    ∷ store 0 2 9
    ∷ allocate 12
    ∷ pop
    ∷ allocate 1
    ∷ store 1 0 5
    ∷ []

abstract_runs : abstract_run 16 script [] ≡ (0 ∷ []) ∷ (5 ∷ 7 ∷ []) ∷ []
abstract_runs = refl

client_stands : StandsFor client []
client_stands = record { valid = omega arith; position = refl; blocks_at = refl; has_bytes = tt }

client_run_refines_example :
    StandsFor (run script client) (abstract_run 16 script [])
    × StaysInside client (run script client)
client_run_refines_example =
    client_run_refines script client [] client_stands (omega arith)
      (omega arith, (tt, (omega arith, (tt, (omega arith, (tt, (omega arith, (tt, tt))))))))

-- A block of two bytes has been given out.
abbrev one_block : Client
one_block = record {
  arena = record client.arena { current_position = 2 };
  blocks = (4128, 2) ∷ [];
  memory = λ a. if a == 4129 then 7 else 0;
}

one_block_stands : StandsFor one_block ((0 ∷ 7 ∷ []) ∷ [])
one_block_stands = record {
  valid = omega arith;
  position = refl;
  blocks_at = refl;
  has_bytes = (refl, tt);
}

-- A block for the time of the scope, and a write to the one before.
in_scope_lem_example :
    StandsFor (in_scope (allocate 3 ∷ store 1 0 5 ∷ []) one_block) ((5 ∷ 7 ∷ []) ∷ [])
    × StaysInside one_block (in_scope (allocate 3 ∷ store 1 0 5 ∷ []) one_block)
in_scope_lem_example =
    in_scope_lem (allocate 3 ∷ store 1 0 5 ∷ []) one_block ((0 ∷ 7 ∷ []) ∷ [])
      ((0 ∷ 0 ∷ 0 ∷ []) ∷ []) ((5 ∷ 7 ∷ []) ∷ []) one_block_stands (omega arith)
      (omega arith, (tt, tt)) refl refl refl
