-- ===== src/Arena/Owned.antt =====
-- Sequences of calls that unmap only what they have mapped.
use agent_resources.Prelude.{
  length, ◌≤◌, ℕ, ◌≡◌, ◌⊎◌, refl, Option, none, some, List, [], ◌∷◌, ◌++◌, Mem, Perm, ◌==◌, ◌&&◌,
  Bool-cases, inl, inr, ap, arith, false,
}
use mathlib.Core.List.Perm
use mathlib.Core.List.{mem-cons_self, mem_of_ne_of_mem, not-mem-nil}
use agent_resources.Arena.Calls.{
  Call, mapped, unmapped, unmap_calls, Mappings, release, live_from, live, release_last,
}

-- Each mapping that is unmapped is held then, with `held` at the start.
abbrev pub Owns : Mappings → List Call → Type 0
Owns held [] = Unit
Owns held (mapped a len ∷ calls) = Owns ((a, len) ∷ held) calls
Owns held (unmapped a len ∷ calls) = Mem (a, len) held × Owns (release a len held) calls

-- The calls of a run that starts with nothing mapped, what it leaves mapped, and how many they are.
pub record Leaves (calls : List Call) (kept : Mappings) : Type 0 where
  pub owns : Owns [] calls
  pub leaves : live calls ≡ kept
  pub few : length calls ≤ 4

other_region : {a len b k : ℕ} → (a == b && len == k) ≡ false → ¬ (Path (ℕ × ℕ) (a, len) (b, k))
other_region {a} {len} {b} {k} other e =
    let first : a ≡ b = ap (λ (p : ℕ × ℕ). p.0) e in
    let second : len ≡ k = ap (λ (p : ℕ × ℕ). p.1) e in ground arith

pub release-perm :
    (a len : ℕ) (held : Mappings) → Mem (a, len) held → Perm held ((a, len) ∷ release a len held)
release-perm a len [] h = absurd (not-mem-nil h)
release-perm a len ((b, k) ∷ held) h = elim (Bool-cases (a == b && len == k)) [
  | inl same ↦
      let e : a ≡ b = ground arith in
      let e' : len ≡ k = ground arith in rw (same, e, e') (Perm.refl _)
  | inr other ↦ rw other (
      Perm.trans
        (Perm.cons (b, k) (release-perm a len held (mem_of_ne_of_mem (other_region other) h)))
        (Perm.swap (a, len) (b, k) _))
]

-- `munmap` of what is not mapped changes nothing.
pub release-cases :
    (a len : ℕ) (held : Mappings)
    → Perm held ((a, len) ∷ release a len held) ⊎ (release a len held ≡ held)
release-cases a len [] = inr refl
release-cases a len ((b, k) ∷ held) = elim (Bool-cases (a == b && len == k)) [
  | inl same ↦
      let e : a ≡ b = ground arith in
      let e' : len ≡ k = ground arith in rw (same, e, e') (inl (Perm.refl _))
  | inr other ↦ rw other (elim (release-cases a len held) [
    | inl p ↦ inl (Perm.trans (Perm.cons (b, k) p) (Perm.swap (a, len) (b, k) _))
    | inr e ↦ inr (ap (λ l. (b, k) ∷ l) e)
  ])
]

-- What others hold is not touched.
release-append :
    (a len : ℕ) (held others : Mappings)
    → Mem (a, len) held
    → release a len (held ++ others) ≡ release a len held ++ others
release-append a len [] others h = absurd (not-mem-nil h)
release-append a len ((b, k) ∷ held) others h = elim (Bool-cases (a == b && len == k)) [
  | inl same ↦ rw same refl
  | inr other ↦ rw other (
      ap (λ l. (b, k) ∷ l)
        (release-append a len held others (mem_of_ne_of_mem (other_region other) h)))
]

pub live_from-append :
    (held others : Mappings) (calls : List Call)
    → Owns held calls
    → live_from (held ++ others) calls ≡ live_from held calls ++ others
live_from-append held others [] h = refl
live_from-append held others (mapped a len ∷ calls) h =
    live_from-append ((a, len) ∷ held) others calls h
live_from-append held others (unmapped a len ∷ calls) (h, hs) =
    rw (release-append a len held others h) (live_from-append (release a len held) others calls hs)

abbrev pub opened : Option (ℕ × ℕ) → List Call
opened none = []
opened (some (address, len)) = mapped address len ∷ []

abbrev pub open_mapping : Option (ℕ × ℕ) → Mappings
open_mapping none = []
open_mapping (some (address, len)) = (address, len) ∷ []

pub opened-Leaves : (o : Option (ℕ × ℕ)) → Leaves (opened o) (open_mapping o)
opened-Leaves none = record { owns = tt; leaves = refl; few = omega arith }
opened-Leaves (some _) = record { owns = tt; leaves = refl; few = omega arith }

-- A mapping that is released at once, behind the first.
abbrev pub passing : Option (ℕ × ℕ) → List Call
passing q = opened q ++ unmap_calls q

pub passing-Leaves : (o q : Option (ℕ × ℕ)) → Leaves (opened o ++ passing q) (open_mapping o)
passing-Leaves none none = record { owns = tt; leaves = refl; few = omega arith }
passing-Leaves (some _) none = record { owns = tt; leaves = refl; few = omega arith }
passing-Leaves none (some (b, k)) = record {
  owns = (mem-cons_self, tt);
  leaves = release_last b k [];
  few = omega arith;
}
passing-Leaves (some _) (some (b, k)) = record {
  owns = (mem-cons_self, tt);
  leaves = release_last b k _;
  few = omega arith;
}

-- And the first one released at the end.
pub closed-Leaves : (o q : Option (ℕ × ℕ)) → Leaves (opened o ++ passing q ++ unmap_calls o) []
closed-Leaves none none = record { owns = tt; leaves = refl; few = omega arith }
closed-Leaves (some (a, n)) none = record {
  owns = (mem-cons_self, tt);
  leaves = release_last a n [];
  few = omega arith;
}
closed-Leaves none (some (b, k)) = record {
  owns = (mem-cons_self, tt);
  leaves = release_last b k [];
  few = omega arith;
}
closed-Leaves (some (a, n)) (some (b, k)) = record {
  owns = (mem-cons_self, rw (release_last b k ((a, n) ∷ [])) (mem-cons_self, tt));
  leaves = rw (release_last b k ((a, n) ∷ [])) (release_last a n []);
  few = omega arith;
}
