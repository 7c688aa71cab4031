-- ===== src/Auth/Tests.antt =====
-- The instance of the theorem on `generate`, where the certificate is signed without an issuer.
use agent_resources.Prelude.{fault, none, some, done, true, false}
use agent_resources.Auth.{
  set_version, set_serial, set_not_before, set_not_after, set_issuer, set_pubkey, add_entry,
  Openssl,
}

-- The issuer is not set. A PEM write of NULL is a fault.
abbrev openssl : Openssl
openssl = record {
  ctx_new_id = some 1;
  keygen_init = true;
  set_rsa_keygen_bits = λ bits. true;
  keygen = some 2;
  x509_new = some 3;
  succeeds = λ call. elim call [
    | set_version ↦ true
    | set_serial ↦ true
    | set_not_before ↦ true
    | set_not_after ↦ true
    | set_issuer ↦ false
    | set_pubkey pkey ↦ true
    | add_entry field ↦ true
  ];
  sign = λ pkey. elim pkey [ none ↦ false | some k ↦ true ];
  write_key = λ pkey. elim pkey [ none ↦ fault | some k ↦ done (some k) ];
  write_cert = λ cert. elim cert [ none ↦ fault | some c ↦ done (some c) ];
  key_opens = true;
  cert_opens = true;
}
