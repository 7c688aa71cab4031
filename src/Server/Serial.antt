-- ===== src/Server/Serial.antt =====
-- Calls that are answered at the same time, against calls that are answered one after the other.
use agent_resources.Prelude.{◌≡◌, refl, List, [], ◌∷◌, Perm, Run, done, aborted, fault, All}
use agent_resources.Arena.Calls.{Mappings, live_from}
use agent_resources.Arena.Owned.{Leaves, live_from-append}
use agent_resources.Handlers.{System, Response}
use agent_resources.Server.{Method, serve, IsGenerated}
use agent_resources.Server.Traffic.{
  Thread, Traffic, Advance, next_mapped, next_unmapped, another, arrive, advance, Reach, start,
  later, kept, all_kept,
}
use agent_resources.Server.Laws.{serve-Keeps, ended_lem}

-- What is mapped behind a call that has the process for itself.
abbrev pub behind : Mappings → Run Response → Mappings
behind mappings (done p) = live_from mappings p.calls
behind mappings aborted = mappings
behind mappings fault = mappings

module _ (base : Method → System → Run Response) where
  -- The calls one after the other, from the one that arrived first.
  pub serial : List Thread → Mappings
  serial [] = []
  serial (t ∷ threads) = behind (serial threads) (serve base t.method t.system)

  HasReturned : Thread → Type 0
  HasReturned t = (p : Response) × (serve base t.method t.system ≡ done p)

  Advance-HasReturned :
      {l l' : Mappings} {ts ts' : List Thread}
      → Advance l ts l' ts'
      → All HasReturned ts
      → All HasReturned ts'
  unfolding HasReturned
  Advance-HasReturned (next_mapped a len left e h) (r, rs) = (r, rs)
  Advance-HasReturned (next_unmapped a len left e) (r, rs) = (r, rs)
  Advance-HasReturned (another m) (r, rs) = (r, Advance-HasReturned m rs)

  Reach-HasReturned : {t : Traffic} → Reach base t → All HasReturned t.threads
  unfolding HasReturned
  Reach-HasReturned start = tt
  Reach-HasReturned (later r (arrive m s p e)) = ((p, e), Reach-HasReturned r)
  Reach-HasReturned (later r (advance m)) = Advance-HasReturned m (Reach-HasReturned r)

  serial_kept :
      (threads : List Thread)
      → IsGenerated base
      → All HasReturned threads
      → serial threads ≡ all_kept threads
  unfolding serial HasReturned
  serial_kept [] g rs = refl
  serial_kept (t ∷ threads) g ((p, e), rs) =
      let leaves : Leaves p.calls (kept t.method t.system) =
        rw e at (serve-Keeps base g t.method t.system) in
      rw
        (
          e,
          serial_kept threads g rs,
          live_from-append [] (all_kept threads) p.calls leaves.owns,
          leaves.leaves,
        )
        refl

-- For a class that is generated as gRPC documents it: when all calls that arrived and return have
-- ended, however they were interleaved, the mappings are, up to their order, those that are left
-- where each call is answered from its start to its end before the next one starts.
pub serial_lem :
    (base : Method → System → Run Response) {t : Traffic}
    → IsGenerated base
    → Reach base t
    → All (λ t. t.left ≡ []) t.threads
    → Perm t.live (serial base t.threads)
serial_lem base {t} g r e =
    rw (serial_kept base t.threads g (Reach-HasReturned base r)) (ended_lem base g r e)
