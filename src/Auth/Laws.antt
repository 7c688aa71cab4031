-- ===== src/Auth/Laws.antt =====
-- What `generate` writes, and the objects that it leaves allocated.
use agent_resources.Prelude.{
  ℕ, ◌*◌, ◌==◌, ◌≡◌, Option, none, some, List, [], ◌∷◌, ◌++◌, Bool, true, false, if◌then◌else◌,
}
use agent_resources.Auth.{
  set_version, set_serial, set_not_before, set_not_after, set_issuer, set_pubkey, add_entry,
  subject_name, Object, context, key, certificate, Event, created, freed, Openssl, Certificate,
  set_up,
}

abbrev pub same_object : Object → Object → Bool
same_object (context a) (context b) = a == b
same_object (key a) (key b) = a == b
same_object (certificate a) (certificate b) = a == b
same_object _ _ = false

abbrev pub remove : Object → List Object → List Object
remove o [] = []
remove o (p ∷ held) = if same_object o p then held else p ∷ remove o held

abbrev pub allocated_from : List Object → List Event → List Object
allocated_from held [] = held
allocated_from held (created o ∷ events) = allocated_from (o ∷ held) events
allocated_from held (freed o ∷ events) = allocated_from (remove o held) events

abbrev pub allocated : List Event → List Object
allocated events = allocated_from [] events

-- The key that is made, if every step succeeds.
abbrev pub made_key : Option ℕ → Bool → Option ℕ → Option ℕ
made_key (some ctx) true keygen = keygen
made_key ctx set_up keygen = none

abbrev pub key_of : Openssl → Option ℕ
key_of o = made_key o.ctx_new_id (set_up o) o.keygen

-- The context of a key that is not made.
abbrev pub lost_context : Option ℕ → Option ℕ → List Object
lost_context (some ctx) none = context ctx ∷ []
lost_context ctx pkey = []

-- The certificate that is not signed.
abbrev pub lost_cert : Option ℕ → Bool → List Object
lost_cert (some x509) false = certificate x509 ∷ []
lost_cert x509 signed = []

-- What a key holds while it is there.
abbrev key_objects : Option ℕ → List Object
key_objects none = []
key_objects (some pkey) = key pkey ∷ []

-- The entries that were added, in their order.
abbrev pub added : Openssl → List (List ℕ × List ℕ) → List (List ℕ × List ℕ)
added o [] = []
added o (entry ∷ entries) =
    if o.succeeds (add_entry entry.0) then entry ∷ added o entries else added o entries

-- A certificate of version 3 with serial number 1 for the key, by the one it is for, and for a year, where the calls succeed.
pub record IsSelfSigned (o : Openssl) (pkey : Option ℕ) (cert : Certificate) : Type 0 where
  pub third : cert.version ≡ (if o.succeeds set_version then 2 else 0)
  pub first_serial : cert.serial ≡ (if o.succeeds set_serial then 1 else 0)
  pub for_key : cert.pubkey ≡ (if o.succeeds (set_pubkey pkey) then pkey else none)
  pub for_subject : cert.subject ≡ added o subject_name
  pub by_itself : cert.issuer ≡ (if o.succeeds set_issuer then cert.subject else [])
  pub starts : cert.not_before ≡ (if o.succeeds set_not_before then some 0 else none)
  pub ends : cert.not_after ≡ (if o.succeeds set_not_after then some (365 * 86400) else none)

abbrev pub Holds : Openssl → Option ℕ → Option ℕ → Bool → Option Certificate → Type 0
Holds o pkey (some x509) true (some cert) = (cert.pointer ≡ x509) × IsSelfSigned o pkey cert
Holds o pkey (some x509) true none = ⊥
Holds o pkey x509 signed none = Unit
Holds o pkey x509 signed (some cert) = ⊥

-- What adding the entries leaves, and what it adds.
record Adds (o : Openssl) (entries : List (List ℕ × List ℕ)) (c c' : Certificate) : Type 0 where
  pub same_pointer : c'.pointer ≡ c.pointer
  pub same_version : c'.version ≡ c.version
  pub same_serial : c'.serial ≡ c.serial
  pub same_pubkey : c'.pubkey ≡ c.pubkey
  pub same_issuer : c'.issuer ≡ c.issuer
  pub same_start : c'.not_before ≡ c.not_before
  pub same_end : c'.not_after ≡ c.not_after
  pub more : c'.subject ≡ c.subject ++ added o entries
