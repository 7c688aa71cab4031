-- ===== src/Text.antt =====
-- The C library's text functions that the readers call, on texts without NUL: a text is the list of
-- its bytes, and the NUL that ends it is not written.
use Prim.Native.Char.{code}
use Prim.Native.String.{String}
use agent_resources.Prelude.{
  Run, done, fault, ◌>>=◌, ℕ, ◌≡◌, refl, arith, List, [], ◌∷◌, ◌++◌, All, Option, none, some, Bool,
  true, false, ◌==◌, ◌&&◌, if◌then◌else◌, length, drop, ap,
}

-- The bytes of a literal.
abbrev pub codes : String → List ℕ
codes String.[] = []
codes (String.◌∷◌ c s) = code c ∷ codes s

-- `strchr(s, c) + 1`: what stands behind the first `c`.
unfoldable pub after : ℕ → List ℕ → Option (List ℕ)
after c [] = none
after c (x ∷ s) = if x == c then some s else after c s

-- What stands in front of the first byte that passes the test: for `strcspn`, and for the text
-- between two quotation marks.
unfoldable pub before : (ℕ → Bool) → List ℕ → List ℕ
before test [] = []
before test (x ∷ s) = if test x then [] else x ∷ before test s

-- `while (test(*s)) s++`
unfoldable pub skip : (ℕ → Bool) → List ℕ → List ℕ
skip test [] = []
skip test (x ∷ s) = if test x then skip test s else x ∷ s

-- `!strncmp(s, prefix, strlen(prefix))`
unfoldable pub starts_with : List ℕ → List ℕ → Bool
starts_with [] s = true
starts_with (p ∷ ps) [] = false
starts_with (p ∷ ps) (x ∷ s) = x == p && starts_with ps s

abbrev pub is_newline : ℕ → Bool
is_newline c = c == 0x0a

abbrev pub is_space : ℕ → Bool
is_space c = c == 0x20

-- The text that an array of bytes holds, up to its first NUL; reading behind the array is a fault.
unfoldable pub c_string : List ℕ → Run (List ℕ)
c_string [] = fault
c_string (c ∷ array) = if c == 0 then done [] else c_string array >>= λ s. done (c ∷ s)

-- `memcpy` of a text to the start of an array.
abbrev pub overlay : List ℕ → List ℕ → List ℕ
overlay text array = text ++ drop (length text) array

pub before-append :
    (test : ℕ → Bool) (s : List ℕ) (c : ℕ) (rest : List ℕ)
    → All (λ x. test x ≡ false) s
    → test c ≡ true
    → before test (s ++ c ∷ rest) ≡ s
unfolding before
before-append test [] c rest h e = rw e refl
before-append test (x ∷ s) c rest h e = rw h.0 (ap (λ t. x ∷ t) (before-append test s c rest h.1 e))

pub after-append :
    (c : ℕ) (s rest : List ℕ) → All (λ x. (x == c) ≡ false) s → after c (s ++ c ∷ rest) ≡ some rest
unfolding after
after-append c [] rest h = ground arith
after-append c (x ∷ s) rest h = rw h.0 (after-append c s rest h.1)

pub skip-append :
    (test : ℕ → Bool) (s : List ℕ) (c : ℕ) (rest : List ℕ)
    → All (λ x. test x ≡ true) s
    → test c ≡ false
    → skip test (s ++ c ∷ rest) ≡ c ∷ rest
unfolding skip
skip-append test [] c rest h e = rw e refl
skip-append test (x ∷ s) c rest h e = rw h.0 (skip-append test s c rest h.1 e)

pub starts_with-append : (p s : List ℕ) → starts_with p (p ++ s) ≡ true
unfolding starts_with
starts_with-append [] s = refl
starts_with-append (x ∷ p) s = ground (arith, starts_with-append p s)

-- The first byte of a text that starts with a prefix.
pub starts_with-head :
    (p : ℕ) (ps s : List ℕ) → starts_with (p ∷ ps) s ≡ true → (t : List ℕ) × (s ≡ p ∷ t)
unfolding starts_with
starts_with-head p ps [] h = cc
starts_with-head p ps (x ∷ s) h = (s, ap (λ y. y ∷ s) (ground arith))

pub c_string-append :
    (s rest : List ℕ) → All (λ c. (c == 0) ≡ false) s → c_string (s ++ 0 ∷ rest) ≡ done s
unfolding c_string
c_string-append [] rest h = refl
c_string-append (c ∷ s) rest h = rw (h.0, c_string-append s rest h.1) refl
