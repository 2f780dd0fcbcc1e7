-- ===== src/Commands/Keys.antt =====
-- What the certificate commands call: crypto/x509, pem, ecdsa and the file system, and what is documented
-- of them.
use crosshub.Prelude.{ℕ, ◌≡◌, ◌⊎◌, Bool, true, Bytes, String, Option, some}
use crosshub.Swarm.Certs.{X509}

-- The fields of a certificate template that differ between the commands. SubjectKeyId, a hash of the key,
-- is left out.
pub record Template (Name Public : Type 0) : Type 0 where
  pub serial : ℕ
  pub begins : ℕ
  pub ends : ℕ
  pub is_ca : Bool
  pub issuer : Option Name
  pub subject : Name
  pub public_key : Option Public

-- Names are pkix.Name with the constants of the source in all fields but the organization.
pub record Pki (x509 : X509) : Type 1 where
  pub Private : Type 0
  pub Public : Type 0
  pub Name : Type 0
  pub Request : Type 0
  pub cert_name : String → Name
  pub csr_name : String → Name
  pub subject_of : x509.Certificate → Name
  pub public_of : Private → Public
  pub marshal_key : Private → Option Bytes
  pub parse_key : Bytes → Option Private
  pub encode_pem : String → Bytes → Bytes
  pub struct_of : Template Name Public → x509.Certificate
  pub create_certificate : Template Name Public → x509.Certificate → Public → Private → Option Bytes
  pub create_request : Name → Private → Option Bytes
  pub parse_request : Bytes → Option Request
  pub request_signed : Request → Bool
  pub request_subject : Request → Name
  pub request_public : Request → Public

-- The types of the PEM blocks that the commands write.
abbrev pub IsBlockType : String → Type 0
IsBlockType t = (t ≡ "EC PRIVATE KEY") ⊎ ((t ≡ "CERTIFICATE") ⊎ (t ≡ "CSR"))

-- A certificate that was made has the times, the key and the CA bit of its template, and a certificate
-- whose CA bit is set stands behind what its key has signed.
pub record IsPki {x509 : X509} (pki : Pki x509) : Type 0 where
  pub is_ca : x509.Certificate → Bool
  pub key_in : x509.Certificate → pki.Public
  pub decode-encode_pem :
      (t : String) (b : Bytes) → IsBlockType t → x509.decode_pem (pki.encode_pem t b) ≡ some b
  pub parse-marshal_key :
      (k : pki.Private) {b : Bytes} → pki.marshal_key k ≡ some b → pki.parse_key b ≡ some k
  pub made :
      (t : Template pki.Name pki.Public) (parent : x509.Certificate) (p : pki.Public)
      (k : pki.Private) {b : Bytes}
      → pki.create_certificate t parent p k ≡ some b
      → (c : x509.Certificate) × (x509.parse_certificate b ≡ some c)
        × (x509.not_before c ≡ t.begins)
        × (x509.not_after c ≡ t.ends)
        × (is_ca c ≡ t.is_ca)
        × (key_in c ≡ p)
  pub stands_behind :
      (t : Template pki.Name pki.Public) (parent : x509.Certificate) (p : pki.Public)
      (k : pki.Private) {b : Bytes} {c : x509.Certificate} (ca : x509.Certificate)
      → pki.create_certificate t parent p k ≡ some b
      → x509.parse_certificate b ≡ some c
      → is_ca ca ≡ true
      → key_in ca ≡ pki.public_of k
      → x509.check_signature_from c ca ≡ true
  pub request_made :
      (n : pki.Name) (k : pki.Private) {b : Bytes}
      → pki.create_request n k ≡ some b
      → (r : pki.Request) × (pki.parse_request b ≡ some r)
        × (pki.request_signed r ≡ true)
        × (pki.request_public r ≡ pki.public_of k)
