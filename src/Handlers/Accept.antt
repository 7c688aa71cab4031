-- ===== src/Handlers/Accept.antt =====
-- What a handler returns, and the two tests with which it starts.
use agent_resources.Prelude.{
  ℕ, ◌≡◌, refl, ◌∙◌, Option, none, List, [], Bool, true, false, ◌||◌, if◌then◌else◌, done,
}
use agent_resources.Arena.Calls.{live}
use agent_resources.Handlers.{
  System, Status, ok, cancelled, deadline_exceeded, CpuMessage, MemoryMessage, Response, refused,
  late, accept,
}

-- What a handler returns: the status, the messages and what is left mapped.
pub record Gives (p : Response) (status : Status) (cpu : Option CpuMessage)
    (memory : Option MemoryMessage) (held : List (ℕ × ℕ)) : Type 0 where
  pub has_status : p.status ≡ status
  pub has_cpu : p.cpu ≡ cpu
  pub has_memory : p.memory ≡ memory
  pub holds : live p.calls ≡ held

if_same : {A : Type 0} (b : Bool) (x : A) → (if b then x else x) ≡ x
if_same true x = refl
if_same false x = refl

-- What a handler gives that makes the first tests alone, by its answer.
pub accepted :
    (s : System) (a : Response) {cpu : Option CpuMessage} {memory : Option MemoryMessage}
    → Gives a ok cpu memory []
    → (p : Response) × (accept s (done a) ≡ done p)
      × Gives p
          (if s.cancelled then cancelled else if late s 0 then deadline_exceeded else ok)
          (if s.cancelled || late s 0 then none else cpu)
          (if s.cancelled || late s 0 then none else memory)
          []
accepted s a {cpu} {memory} g = sort_out s.cancelled (late s 0)
  where
    sort_out :
        (c l : Bool)
        → (p : Response) × ((if c
              then done (refused cancelled [])
              else if l
              then done (refused deadline_exceeded [])
              else done a)
            ≡ done p)
          × Gives p
              (if c then cancelled else if l then deadline_exceeded else ok)
              (if c || l then none else cpu)
              (if c || l then none else memory)
              []
    sort_out true l =
        (_, refl, record { has_status = refl; has_cpu = refl; has_memory = refl; holds = refl })
    sort_out false true =
        (_, refl, record { has_status = refl; has_cpu = refl; has_memory = refl; holds = refl })
    sort_out false false = (a, refl, g)

pub without_memory :
    {p : Response} {status : Status} {cpu : Option CpuMessage} (b : Bool)
    → Gives p status cpu (if b then none else none) []
    → Gives p status cpu none []
without_memory b g = record {
  has_status = g.has_status;
  has_cpu = g.has_cpu;
  has_memory = g.has_memory ∙ if_same b none;
  holds = g.holds;
}

pub without_cpu :
    {p : Response} {status : Status} {memory : Option MemoryMessage} (b : Bool)
    → Gives p status (if b then none else none) memory []
    → Gives p status none memory []
without_cpu b g = record {
  has_status = g.has_status;
  has_cpu = g.has_cpu ∙ if_same b none;
  has_memory = g.has_memory;
  holds = g.holds;
}
