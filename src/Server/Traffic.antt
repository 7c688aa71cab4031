-- ===== src/Server/Traffic.antt =====
-- Calls that the server answers at the same time, interleaved in any order.
--
-- The handlers share nothing but the process's mappings, so that a step is a call of `mmap` or
-- `munmap` by one of them.
use agent_resources.Prelude.{
  ℕ, ◌+◌, ◌≡◌, List, [], ◌∷◌, ◌++◌, Run, done, true, not, ◌&&◌, ◌||◌, leb, if◌then◌else◌, Mem,
}
use agent_resources.Arena.Calls.{Call, mapped, unmapped, Mappings, release}
use agent_resources.Arena.Owned.{open_mapping}
use agent_resources.Handlers.{System, Response, late}
use agent_resources.Handlers.Respond.{any_late}
use agent_resources.Handlers.Kept.{arena_of}
use agent_resources.Server.{Method, get_system_resources, serve}

-- A call of the service: what it has mapped and not unmapped, and what is left of its calls.
pub record Thread : Type 0 where
  pub method : Method
  pub system : System
  pub held : Mappings
  pub left : List Call

pub record Traffic : Type 0 where
  pub live : Mappings
  pub threads : List Thread

-- Two mappings that share no address.
abbrev pub IsApart : ℕ × ℕ → ℕ × ℕ → Type 0
IsApart (a, len) (b, k) = (leb (a + len) b || leb (b + k) a) ≡ true

-- The next call of one of the threads. The kernel maps only what is not mapped.
pub data Advance : Mappings → List Thread → Mappings → List Thread → Type 0 where
  next_mapped :
      {live : Mappings} {t : Thread} {threads : List Thread} (a len : ℕ) (left : List Call)
      → t.left ≡ mapped a len ∷ left
      → ((r : ℕ × ℕ) → Mem r live → IsApart (a, len) r)
      → Advance live
          (t ∷ threads)
          ((a, len) ∷ live)
          (record t { held = (a, len) ∷ t.held; left = left } ∷ threads)
  next_unmapped :
      {live : Mappings} {t : Thread} {threads : List Thread} (a len : ℕ) (left : List Call)
      → t.left ≡ unmapped a len ∷ left
      → Advance live
          (t ∷ threads)
          (release a len live)
          (record t { held = release a len t.held; left = left } ∷ threads)
  another :
      {live live' : Mappings} {t : Thread} {threads threads' : List Thread}
      → Advance live threads live' threads'
      → Advance live (t ∷ threads) live' (t ∷ threads')

module _ (base : Method → System → Run Response) where
  -- A call that returns arrives, or one that has arrived goes on.
  pub data Step (t : Traffic) : Traffic → Type 0 where
    arrive :
        (m : Method) (s : System) (p : Response)
        → serve base m s ≡ done p
        → Step t (record t {
          threads = record { method = m; system = s; held = []; left = p.calls } ∷ t.threads;
        })
    advance :
        {live : Mappings} {threads : List Thread}
        → Advance t.live t.threads live threads
        → Step t (record { live = live; threads = threads })

  pub data Reach : Traffic → Type 0 where
    start : Reach (record { live = []; threads = [] })
    later : {t u : Traffic} → Reach t → Step t u → Reach u

-- What all of them hold together.
abbrev pub holdings : List Thread → Mappings
holdings [] = []
holdings (t ∷ threads) = t.held ++ holdings threads

-- What a call is to leave mapped: its arena, if it asks for all resources, was neither cancelled nor
-- late at first, and is late behind that.
abbrev pub kept : Method → System → Mappings
kept get_system_resources s =
    if not s.cancelled && not (late s 0)
    then (if any_late s then open_mapping (arena_of s) else [])
    else []
kept _ s = []

abbrev pub all_kept : List Thread → Mappings
all_kept [] = []
all_kept (t ∷ threads) = kept t.method t.system ++ all_kept threads
