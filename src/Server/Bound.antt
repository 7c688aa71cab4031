-- ===== src/Server/Bound.antt =====
-- How many steps the calls take that are answered at the same time.
use agent_resources.Prelude.{
  ℕ, ap, suc, ◌+◌, ◌*◌, ◌≤◌, ◌≡◌, refl, arith, List, [], ◌∷◌, Run, length,
}
use agent_resources.Arena.Calls.{Mappings}
use agent_resources.Arena.Owned.{Leaves}
use agent_resources.Handlers.{System, Response}
use agent_resources.Server.{Method, IsGenerated}
use agent_resources.Server.Traffic.{
  Thread, Traffic, Advance, next_mapped, next_unmapped, another, arrive, advance, Reach, start,
  later, kept,
}
use agent_resources.Server.Laws.{serve-Keeps}

-- The calls of `mmap` and `munmap` that are left to be made.
abbrev pub calls_left : List Thread → ℕ
calls_left [] = 0
calls_left (t ∷ threads) = length t.left + calls_left threads

Advance-calls_left :
    {l l' : Mappings} {ts ts' : List Thread}
    → Advance l ts l' ts'
    → calls_left ts ≡ suc (calls_left ts')
Advance-calls_left (next_mapped a len left e h) = rw e (omega arith)
Advance-calls_left (next_unmapped a len left e) = rw e (omega arith)
Advance-calls_left (another {t = t} m) = omega (arith, Advance-calls_left m)

Advance-length :
    {l l' : Mappings} {ts ts' : List Thread} → Advance l ts l' ts' → length ts ≡ length ts'
Advance-length (next_mapped a len left e h) = refl
Advance-length (next_unmapped a len left e) = refl
Advance-length (another m) = ap suc (Advance-length m)

module _ {base : Method → System → Run Response} where
  -- The calls of `mmap` and `munmap` that were made on the way to a state.
  abbrev pub calls_made : {t : Traffic} → Reach base t → ℕ
  calls_made start = 0
  calls_made (later r (arrive m s p e)) = calls_made r
  calls_made (later r (advance m)) = suc (calls_made r)

  -- For a class that is generated as gRPC documents it: however the calls that arrive and return
  -- are interleaved, those that were made of `mmap` and `munmap` and those that are left are
  -- together at most four for each call that arrived.
  pub steps_lem :
      {t : Traffic} (r : Reach base t)
      → IsGenerated base
      → calls_made r + calls_left t.threads ≤ 4 * length t.threads
  steps_lem start g = omega arith
  steps_lem (later r (arrive m s p e)) g =
      let leaves : Leaves p.calls (kept m s) = rw e at (serve-Keeps base g m s) in
      omega (arith, leaves.few, steps_lem r g)
  steps_lem (later r (advance m)) g =
      omega (arith, Advance-calls_left m, Advance-length m, steps_lem r g)
