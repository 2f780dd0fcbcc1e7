-- ===== src/Commands/Tests.antt =====
-- A root, an agency and a node, with certificates that are lists of numbers.
use crosshub.Prelude.{
  ℕ, ◌==◌, ◌≡◌, refl, sym, ap, ◌∙◌, Bool, true, false, ◌&&◌, Bytes, [], ◌∷◌, Option, none, some, ok,
  arith,
}
use crosshub.Swarm.Certs.{X509, parse_cert, check_certs}
use crosshub.Commands.Keys.{Template, Pki, IsPki}
use crosshub.Commands.Certs.{
  block_bytes, read_key, read_cert, read_request, generate_cert, priv_command, ca_command,
  csr_command, issue_command, verify_command, split, get_file_name,
}
use crosshub.Commands.Accepted.{issued-check_certs}

record Cert : Type 0 where
  begins : ℕ
  ends : ℕ
  ca_bit : ℕ
  key : ℕ
  signer : ℕ

abbrev bit : Bool → ℕ
bit true = 1
bit false = 0

bit_lem : (b : Bool) → (bit b == 1) ≡ b
bit_lem true = refl
bit_lem false = refl

abbrev to_bytes : Cert → Bytes
to_bytes c = c.begins ∷ c.ends ∷ c.ca_bit ∷ c.key ∷ c.signer ∷ []

abbrev of_bytes : Bytes → Option Cert
of_bytes (b ∷ e ∷ i ∷ k ∷ s ∷ []) =
    some (record { begins = b; ends = e; ca_bit = i; key = k; signer = s })
of_bytes _ = none

abbrev one_byte : Bytes → Option ℕ
one_byte (k ∷ []) = some k
one_byte _ = none

abbrev lists : X509
lists = record {
  Certificate = Cert;
  decode_pem = λ b. some b;
  parse_certificate = of_bytes;
  check_signature_from = λ c ca. (ca.ca_bit == 1) && (c.signer == ca.key);
  not_before = λ c. c.begins;
  not_after = λ c. c.ends;
  now = 2000;
}

abbrev filled : Template Bytes ℕ → ℕ → ℕ → Cert
filled t p k = record {
  begins = t.begins;
  ends = t.ends;
  ca_bit = bit t.is_ca;
  key = p;
  signer = k;
}

abbrev commands : Pki lists
commands = record {
  Private = ℕ;
  Public = ℕ;
  Name = Bytes;
  Request = ℕ;
  cert_name = λ o. [];
  csr_name = λ o. [];
  subject_of = λ c. [];
  public_of = λ k. k;
  marshal_key = λ k. some (k ∷ []);
  parse_key = one_byte;
  encode_pem = λ t b. b;
  struct_of = λ t. filled t 0 0;
  create_certificate = λ t parent p k. some (to_bytes (filled t p k));
  create_request = λ n k. some (k ∷ []);
  parse_request = one_byte;
  request_signed = λ r. true;
  request_subject = λ r. [];
  request_public = λ r. r;
}

some-injective : {A : Type 0} {x y : A} → some x ≡ some y → x ≡ y
some-injective h = cc

signed_by_key :
    (c ca : Cert) (k : ℕ)
    → c.signer ≡ k
    → (ca.ca_bit == 1) ≡ true
    → ca.key ≡ k
    → ((ca.ca_bit == 1) && (c.signer == ca.key)) ≡ true
signed_by_key c ca k a b d = ground arith

commands-IsPki : IsPki commands
commands-IsPki = record {
  is_ca = λ c. c.ca_bit == 1;
  key_in = λ c. c.key;
  decode-encode_pem = λ t b k. refl;
  parse-marshal_key = λ k e. ap one_byte (sym (some-injective e));
  made = λ t parent p k e.
      (filled t p k, ap of_bytes (sym (some-injective e)), refl, refl, bit_lem t.is_ca, refl);
  stands_behind = λ t parent p k {b} {c} ca e h bit_set key.
      signed_by_key c ca k
        (ap (λ (x : Cert). x.signer)
          (some-injective (sym h ∙ ap of_bytes (sym (some-injective e)))))
        bit_set key;
  request_made = λ n k e. (k, ap one_byte (sym (some-injective e)), refl, refl);
}

abbrev ca_file : Bytes
ca_file = 700 ∷ 1576800700 ∷ 1 ∷ 7 ∷ 7 ∷ []

abbrev agency_file : Bytes
agency_file = 800 ∷ 1576800800 ∷ 1 ∷ 8 ∷ 7 ∷ []

abbrev node_file : Bytes
node_file = 900 ∷ 1576800900 ∷ 0 ∷ 9 ∷ 8 ∷ []

ca_run : ca_command lists commands (some 7) (some 1) 1000 ≡ ok (7 ∷ [], ca_file)
unfolding ca_command generate_cert
ca_run = refl

priv_run : (k : ℕ) → priv_command lists commands (some k) ≡ ok (k ∷ [])
unfolding priv_command
priv_run k = refl

csr_run : (k : ℕ) → csr_command lists commands (some (k ∷ [])) "org" ≡ ok (k ∷ [])
unfolding csr_command read_key block_bytes
csr_run k = refl

agency_run :
    issue_command lists commands (some (8 ∷ [])) true (some (7 ∷ [])) (some ca_file) (some 2) 1100
    ≡ ok agency_file
unfolding issue_command read_key read_cert read_request block_bytes
agency_run = refl

node_run :
    issue_command lists commands
      (some (9 ∷ []))
      false
      (some (8 ∷ []))
      (some agency_file)
      (some 3)
      1200
    ≡ ok node_file
unfolding issue_command read_key read_cert read_request block_bytes
node_run = refl

file_name_run : get_file_name (b'a' ∷ b'.' ∷ b'c' ∷ []) ≡ b'a' ∷ []
unfolding get_file_name split
file_name_run = refl

issued-check_certs_example :
    (ca : Cert) × (parse_cert lists (some ca_file) ≡ ok ca)
    × (check_certs lists (some node_file) (some agency_file) ca ≡ ok tt)
    × (verify_command lists commands (some agency_file) (some ca_file) ≡ ok tt)
issued-check_certs_example =
    issued-check_certs lists commands commands-IsPki 7 8 9 (some 1) (some 2) (some 3) 1000 1100 1200
      "org" "org" false ca_run (priv_run 8) (csr_run 8) agency_run (priv_run 9) (csr_run 9) node_run
      (omega arith) (omega arith) (omega arith) (omega arith)
