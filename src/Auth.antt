-- ===== src/Auth.antt =====
-- auth/auth.cc: a key and a certificate that is signed with it.
--
-- What OpenSSL and `fopen` give is an `Openssl`: a pointer is a number, and `none` is NULL. The
-- events are the calls that create and free an object. The calls that fill the certificate may fail,
-- which the code does not look at: the field then stays as `X509_new` leaves it.
pub mod Laws
mod Tests
use agent_resources.Prelude.{
  ◌>>=◌, ℕ, ◌*◌, ◌==◌, Option, none, some, List, [], ◌∷◌, ◌++◌, Run, done, fault, Bool, true, false,
  ◌&&◌, if◌then◌else◌,
}
use agent_resources.Text.{codes}

pub data Object : Type 0 where
  context key certificate : ℕ → Object

pub data Event : Type 0 where
  created freed : Object → Event

-- The calls that fill a certificate: `add_entry` with the name of its field.
pub data Call : Type 0 where
  set_version set_serial set_not_before set_not_after set_issuer : Call
  set_pubkey : Option ℕ → Call
  add_entry : List ℕ → Call

-- The two times are seconds from now.
pub record Certificate : Type 0 where
  pub pointer : ℕ
  pub version : ℕ
  pub serial : ℕ
  pub not_before : Option ℕ
  pub not_after : Option ℕ
  pub pubkey : Option ℕ
  pub subject : List (List ℕ × List ℕ)
  pub issuer : List (List ℕ × List ℕ)

-- A `Bool` of a call is `true` for a result above 0. `keygen` is the key that `EVP_PKEY_keygen`
-- makes, or `none` for a result of 0 or below. `sign` is the result of `X509_sign` with a key.
-- `write_key` and `write_cert` are the two `PEM_write` calls, with what the file then holds, if
-- anything; what they do with NULL is not documented, so it may be a fault.
pub record Openssl : Type 0 where
  pub ctx_new_id : Option ℕ
  pub keygen_init : Bool
  pub set_rsa_keygen_bits : ℕ → Bool
  pub keygen : Option ℕ
  pub x509_new : Option ℕ
  pub succeeds : Call → Bool
  pub sign : Option ℕ → Bool
  pub write_key : Option ℕ → Run (Option ℕ)
  pub write_cert : Option Certificate → Run (Option Certificate)
  pub key_opens : Bool
  pub cert_opens : Bool

-- The context, whether its two set-up calls succeed, and the key. The context is freed behind the last
-- step.
pub run_keygen : Option ℕ → Bool → Option ℕ → Option ℕ × List Event
run_keygen none set_up keygen = (none, [])
run_keygen (some ctx) false keygen = (none, created (context ctx) ∷ [])
run_keygen (some ctx) true none = (none, created (context ctx) ∷ [])
run_keygen (some ctx) true (some pkey) =
    (some pkey, created (context ctx) ∷ created (key pkey) ∷ freed (context ctx) ∷ [])

abbrev pub set_up : Openssl → Bool
set_up o = o.keygen_init && o.set_rsa_keygen_bits 2048

pub generate_key : Openssl → Option ℕ × List Event
generate_key o = run_keygen o.ctx_new_id (set_up o) o.keygen

-- Country, organisation and name.
abbrev pub subject_name : List (List ℕ × List ℕ)
subject_name =
    (codes "C", codes "BE")
    ∷ (codes "O", codes "paradigm-ehb")
    ∷ (codes "CN", codes "localhost")
    ∷ []

-- A certificate as `X509_new` makes it.
abbrev pub empty_cert : ℕ → Certificate
empty_cert x509 = record {
  pointer = x509;
  version = 0;
  serial = 0;
  not_before = none;
  not_after = none;
  pubkey = none;
  subject = [];
  issuer = [];
}

-- Each call sets its field if it succeeds.
pub add_entries : Openssl → List (List ℕ × List ℕ) → Certificate → Certificate
add_entries o [] c = c
add_entries o (entry ∷ entries) c = add_entries o entries (record c {
  subject = if o.succeeds (add_entry entry.0) then c.subject ++ entry ∷ [] else c.subject;
})

pub fill_cert : Openssl → ℕ → Option ℕ → Certificate
fill_cert o x509 pkey =
    let c = empty_cert x509 in
    let c1 = record c { version = if o.succeeds set_version then 2 else c.version } in
    let c2 = record c1 { serial = if o.succeeds set_serial then 1 else c1.serial } in
    let c3 = record c2 {
      not_before = if o.succeeds set_not_before then some 0 else c2.not_before;
    } in
    let year = 60 * 60 * 24 * 365 in
    let c4 = record c3 {
      not_after = if o.succeeds set_not_after then some year else c3.not_after;
    } in
    let c5 = record c4 { pubkey = if o.succeeds (set_pubkey pkey) then pkey else c4.pubkey } in
    let c6 = add_entries o subject_name c5 in
    record c6 { issuer = if o.succeeds set_issuer then c6.subject else c6.issuer }

pub sign_cert : Openssl → Option ℕ → Bool → Option ℕ → Option Certificate × List Event
sign_cert o none signed pkey = (none, [])
sign_cert o (some x509) false pkey = (none, created (certificate x509) ∷ [])
sign_cert o (some x509) true pkey = (some (fill_cert o x509 pkey), created (certificate x509) ∷ [])

pub generate_cert : Openssl → Option ℕ → Option Certificate × List Event
generate_cert o pkey = sign_cert o o.x509_new (o.sign pkey) pkey

-- `X509_free` and `EVP_PKEY_free`. They take NULL.
abbrev pub free_cert : Option Certificate → List Event
free_cert none = []
free_cert (some cert) = freed (certificate cert.pointer) ∷ []

abbrev pub free_key : Option ℕ → List Event
free_key none = []
free_key (some pkey) = freed (key pkey) ∷ []

-- What key.pem and cert.pem hold.
pub record Written : Type 0 where
  pub key_file : Option ℕ
  pub cert_file : Option Certificate
  pub events : List Event

-- A file that does not open is NULL, and `fclose` of NULL is a fault.
abbrev pub on_file : {A : Type 0} → Bool → Run A → Run A
on_file opens write = if opens then write else fault

pub generate : Openssl → Run Written
generate o =
    let k = generate_key o in
    let c = generate_cert o k.0 in
    on_file o.key_opens (o.write_key k.0) >>= λ key_file.
    on_file o.cert_opens (o.write_cert c.0) >>= λ cert_file. done (record {
      key_file = key_file;
      cert_file = cert_file;
      events = k.1 ++ c.1 ++ free_cert c.0 ++ free_key k.0;
    })
