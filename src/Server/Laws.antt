-- ===== src/Server/Laws.antt =====
-- What stays mapped while the service answers, and behind that.
use agent_resources.Prelude.{
  ℕ, ◌≡◌, refl, sym, List, [], ◌∷◌, ◌++◌, Mem, Perm, Pairwise, Run, inl, inr, All, arith,
}
use mathlib.Core.List.{mem-append_left, mem-append_right, append_assoc, perm_middle}
use mathlib.Core.List.Perm
use mathlib.Core.List.Pairwise
use mathlib.Core.Bool.{Bool-set}
use agent_resources.Arena.Calls.{Mappings, release, live_from}
use agent_resources.Arena.Owned.{Owns, Leaves, release-perm, release-cases}
use agent_resources.Handlers.{System, Response}
use agent_resources.Handlers.Kept.{
  Keeps, get_system_resources-Keeps, get_cpu-Keeps, get_ram-Keeps, nothing-Leaves,
}
use agent_resources.Server.{
  Method, get_system_resources, get_cpu, get_memory, get_device, get_disks, get_file_systems,
  get_processes, process_action, serve, IsGenerated,
}
use agent_resources.Server.Traffic.{
  Thread, Traffic, IsApart, Advance, next_mapped, next_unmapped, another, Step, arrive, advance,
  Reach, start, later, holdings, kept, all_kept,
}

-- A thread unmaps what it holds, and ends with what its method keeps.
pub record IsOwner (t : Thread) : Type 0 where
  pub owns : Owns t.held t.left
  pub ends : live_from t.held t.left ≡ kept t.method t.system

pub record IsSound (t : Traffic) : Type 0 where
  pub holds : Perm t.live (holdings t.threads)
  pub apart : Pairwise IsApart t.live
  pub owners : All IsOwner t.threads

pub serve-Keeps :
    (base : Method → System → Run Response)
    → IsGenerated base
    → (m : Method) (s : System) → Keeps (kept m s) (serve base m s)
unfolding serve
serve-Keeps base g get_system_resources s = get_system_resources-Keeps s
serve-Keeps base g get_cpu s = get_cpu-Keeps s
serve-Keeps base g get_memory s = get_ram-Keeps s
serve-Keeps base g get_device s = rw (g.answers get_device s) nothing-Leaves
serve-Keeps base g get_disks s = rw (g.answers get_disks s) nothing-Leaves
serve-Keeps base g get_file_systems s = rw (g.answers get_file_systems s) nothing-Leaves
serve-Keeps base g get_processes s = rw (g.answers get_processes s) nothing-Leaves
serve-Keeps base g process_action s = rw (g.answers process_action s) nothing-Leaves

-- What one step does, with what others hold in front.
Advance-perm :
    {l l' : Mappings} {ts ts' : List Thread} (rest : Mappings)
    → Advance l ts l' ts'
    → All IsOwner ts
    → Perm l (rest ++ holdings ts)
    → Perm l' (rest ++ holdings ts')
Advance-perm rest (next_mapped {t = t} {threads = threads} a len left e h) os p =
    Perm.trans (Perm.cons (a, len) p) (Perm.symm (perm_middle rest (t.held ++ holdings threads)))
Advance-perm rest (next_unmapped {live = l} {t = t} {threads = threads} a len left e) (o, os) p =
    let owned : Mem (a, len) t.held = (rw e at o.owns).0 in
    let own =
      Perm.append_left rest
        (Perm.append_right (holdings threads) (release-perm a len t.held owned)) in
    let there : Mem (a, len) l =
      Perm.subset (Perm.symm p) (a, len)
        (mem-append_right rest (mem-append_left (holdings threads) owned)) in
    Perm.cons_inv {a = (a, len)} (
      Perm.trans (Perm.symm (release-perm a len l there)) (
        Perm.trans p
          (Perm.trans own (perm_middle rest (release a len t.held ++ holdings threads)))))
Advance-perm rest (another {t = t} {threads = threads} {threads' = threads'} m) (o, os) p =
    rw (append_assoc rest t.held (holdings threads')) at (
      Advance-perm (rest ++ t.held) m os
        (rw (sym (append_assoc rest t.held (holdings threads))) at p))

Advance-owners :
    {l l' : Mappings} {ts ts' : List Thread}
    → Advance l ts l' ts'
    → All IsOwner ts
    → All IsOwner ts'
Advance-owners (next_mapped a len left e h) (o, os) =
    (record { owns = rw e at o.owns; ends = rw e at o.ends }, os)
Advance-owners (next_unmapped a len left e) (o, os) =
    (record { owns = (rw e at o.owns).1; ends = rw e at o.ends }, os)
Advance-owners (another m) (o, os) = (o, Advance-owners m os)

IsApart-prop : (p q : ℕ × ℕ) → IsProp (IsApart p q)
IsApart-prop p q = Bool-set _ _

IsApart-sym : (p q : ℕ × ℕ) → IsApart p q → IsApart q p
IsApart-sym (a, len) (b, k) h = ground arith

Advance-IsApart :
    {l l' : Mappings} {ts ts' : List Thread}
    → Advance l ts l' ts'
    → Pairwise IsApart l
    → Pairwise IsApart l'
Advance-IsApart (next_mapped a len left e h) p = Pairwise.cons h p
Advance-IsApart (next_unmapped {live = l} a len left e) p = elim (release-cases a len l) [
  | inl q ↦ Pairwise.of_cons (Perm.pairwise IsApart-prop IsApart-sym q p)
  | inr e' ↦ rw e' p
]
Advance-IsApart (another m) p = Advance-IsApart m p

module _ (base : Method → System → Run Response) (g : IsGenerated base) where
  pub Step-IsSound : {t u : Traffic} → Step base t u → IsSound t → IsSound u
  Step-IsSound (arrive m s p e) h =
      let leaves : Leaves p.calls (kept m s) = rw e at (serve-Keeps base g m s) in
      record {
        holds = h.holds;
        apart = h.apart;
        owners = (record { owns = leaves.owns; ends = leaves.leaves }, h.owners);
      }
  Step-IsSound (advance m) h = record {
    holds = Advance-perm [] m h.owners h.holds;
    apart = Advance-IsApart m h.apart;
    owners = Advance-owners m h.owners;
  }

  Reach-IsSound : {t : Traffic} → Reach base t → IsSound t
  Reach-IsSound start = record { holds = Perm.nil; apart = Pairwise.nil; owners = tt }
  Reach-IsSound (later r s) = Step-IsSound s (Reach-IsSound r)

ended_perm :
    (ts : List Thread) → All IsOwner ts → All (λ t. t.left ≡ []) ts → holdings ts ≡ all_kept ts
ended_perm [] os es = refl
ended_perm (t ∷ ts) (o, os) (e, es) =
    let held : t.held ≡ kept t.method t.system = rw e at o.ends in
    rw (held, ended_perm ts os es) refl

-- For a class that is generated as gRPC documents it: however the calls that arrive at the service
-- and return are interleaved, whatever they ask for and the files hold, and for a kernel that maps
-- only what is not mapped: at every moment what is mapped is, up to its order, what the calls hold,
-- no two mappings share an address, and each call unmaps only what it holds itself.
pub reach_lem :
    (base : Method → System → Run Response) {t : Traffic}
    → IsGenerated base
    → Reach base t
    → Perm t.live (holdings t.threads)
      × Pairwise IsApart (holdings t.threads)
      × All (λ t. Owns t.held t.left) t.threads
reach_lem base g r =
    let h = Reach-IsSound base g r in
    (h.holds, Perm.pairwise IsApart-prop IsApart-sym h.holds h.apart, all_owns _ h.owners)
  where
    all_owns : (ts : List Thread) → All IsOwner ts → All (λ t. Owns t.held t.left) ts
    all_owns [] os = tt
    all_owns (t ∷ ts) (o, os) = (o.owns, all_owns ts os)

-- For a class that is generated as gRPC documents it: when all calls that arrived and return have
-- ended, however they were interleaved, the mappings that are left are, up to their order, the whole
-- arenas of the calls of `GetSystemResources` that were neither cancelled nor late at the first
-- reading of the clock and were late at a later one, one for each such call whose arena the kernel
-- mapped. All other calls leave nothing.
pub ended_lem :
    (base : Method → System → Run Response) {t : Traffic}
    → IsGenerated base
    → Reach base t
    → All (λ t. t.left ≡ []) t.threads
    → Perm t.live (all_kept t.threads)
ended_lem base {t} g r e =
    let h = Reach-IsSound base g r in rw (ended_perm t.threads h.owners e) at h.holds
