-- ===== src/Arena/Refine/Standing.antt =====
-- When the arena with its memory stands for a list of blocks, and what is left behind a cut.
use agent_resources.Prelude.{
  ℕ, zero, suc, ◌+◌, ◌≤◌, ◌<◌, ◌≡◌, refl, ◌∙◌, arith, none, some, List, [], ◌∷◌, length, ◌⊎◌, inl,
  inr,
}
use agent_resources.Memory.{Memory}
use agent_resources.Arena.Valid.{IsValid, SameStorage, same_refl, same_trans, same_moved}
use agent_resources.Arena.Refine.{Client, below, Blocks, used_bytes}
use agent_resources.Arena.Refine.Contents.{places, HasBytes}

-- The client's blocks are those of the list, one behind the other from the start of the storage, and
-- the memory has their bytes there.
pub record StandsFor (t : Client) (bs : Blocks) : Type 0 where
  pub valid : IsValid t.arena
  pub position : t.arena.current_position ≡ used_bytes bs
  pub blocks_at : t.blocks ≡ places t.arena.base_position bs
  pub has_bytes : HasBytes t.arena.base_position t.memory bs

-- What lies outside of the storage stays as it is, and so does the storage's place.
pub record StaysInside (t t' : Client) : Type 0 where
  pub same : SameStorage t.arena t'.arena
  pub outside :
      (x : ℕ)
      → (x < t.arena.base_position) ⊎ (t.arena.base_position + t.arena.capacity ≤ x)
      → t'.memory x ≡ t.memory x

pub stays_here : (t : Client) → StaysInside t t
stays_here t = record { same = same_refl t.arena; outside = λ x h. refl }

pub stays_trans : {t u w : Client} → StaysInside t u → StaysInside u w → StaysInside t w
stays_trans {t} {u} {w} h k = record {
  same = same_trans h.same k.same;
  outside = λ x o. k.outside x (rw (h.same.same_base, h.same.same_capacity) o) ∙ h.outside x o;
}

-- What is left below a block, on both sides.
pub record Below (base : ℕ) (m : Memory) (bs rest : Blocks) (b : List ℕ) : Type 0 where
  pub not_longer : used_bytes rest + length b ≤ used_bytes bs
  pub rest_bytes : HasBytes base m rest

pub below_cases :
    (base : ℕ) (m : Memory) (bs : Blocks) (k : ℕ)
    → HasBytes base m bs
    → ((below bs k ≡ none) × (below (places base bs) k ≡ none))
      ⊎ ((b : List ℕ) × (rest : Blocks) × (below bs k ≡ some (b, rest))
          × (below (places base bs) k ≡ some ((base + used_bytes rest, length b), places base rest))
          × Below base m bs rest b)
below_cases base m [] k h = inl (refl, refl)
below_cases base m (b ∷ bs) zero (e, h) =
    inr (b, bs, refl, refl, record { not_longer = omega arith; rest_bytes = h })
below_cases base m (b ∷ bs) (suc k) (e, h) = elim (below_cases base m bs k h) [
  | inl gone ↦ inl gone
  | inr (c, rest, here, there, l) ↦ inr (
    c,
    rest,
    here,
    there,
    record { not_longer = omega (arith, l.not_longer); rest_bytes = l.rest_bytes },
  )
]

-- The client with the blocks from some place on taken back.
abbrev pub cut_at : Client → ℕ → List (ℕ × ℕ) → Client
cut_at t position blocks = record t {
  arena = record t.arena { current_position = position };
  blocks = blocks;
}

pub cut_refines :
    (t : Client) (rest : Blocks)
    → IsValid t.arena
    → used_bytes rest ≤ t.arena.current_position
    → HasBytes t.arena.base_position t.memory rest
    → let u = cut_at t (used_bytes rest) (places t.arena.base_position rest) in
      StandsFor u rest × StaysInside t u
cut_refines t rest v h bytes = (
  record {
    valid = record {
      current_in = omega (arith, v.current_in);
      previous_in = v.previous_in;
      capacity_word = v.capacity_word;
      placed = v.placed;
    };
    position = refl;
    blocks_at = refl;
    has_bytes = bytes;
  },
  record { same = same_moved t.arena (used_bytes rest); outside = λ x o. refl },
)
