-- ===== src/Resources/Named.antt =====
-- Files whose lines have a name in front of a colon: what is made of their values, name by name.
use agent_resources.Prelude.{ℕ, ◌≡◌, refl, Option, none, some, List, [], ◌∷◌, Bool, true, false}
use agent_resources.Text.{starts_with}

-- A value is used if the line has the name and there is one.
abbrev pub named_value {ℓ} : {A : Type ℓ} → Bool → Option (List ℕ) → (List ℕ → A → A) → A → A
named_value false value put x = x
named_value true none put x = x
named_value true (some text) put x = put text x

pub named_value-none {ℓ} :
    {A : Type ℓ} (named : Bool) (put : List ℕ → A → A) (x : A) → named_value named none put x ≡ x
named_value-none false put x = refl
named_value-none true put x = refl

-- All lines of the name, from the first one on.
abbrev pub named_values {ℓ} :
    {A : Type ℓ} → (List ℕ → Option (List ℕ)) → List ℕ → (List ℕ → A → A) → List (List ℕ) → A → A
named_values value name put [] x = x
named_values value name put (line ∷ lines) x =
    named_values value name put lines (named_value (starts_with name line) (value line) put x)
