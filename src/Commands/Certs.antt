-- ===== src/Commands/Certs.antt =====
-- cmd/crosshub/cert.go: ca, csr, issue, parse, priv and verify; and GenerateCert of cert/cert.go. A command gives
-- the contents of the files that it leaves when it succeeds, and the file system takes them; where a block
-- is nil its Bytes panic.
use crosshub.Prelude.{
  ℕ, ◌+◌, ◌-◌, ◌*◌, ◌==◌, Bool, true, Bytes, List, [], ◌∷◌, ◌++◌, String, Option, none, some, Run,
  ok, err, panic, ◌>>=◌, or_else, if◌then◌else◌,
}
use crosshub.Swarm.Certs.{X509}
use crosshub.Commands.Keys.{Template, Pki}

pub data CommandError : Type 0 where
  no_key no_file bad_private_key bad_cert bad_request wrong_csr_sign not_made : CommandError
  not_signed : CommandError

-- `time.Now().Add(-5 * time.Minute)` and the 50 years behind it, in seconds.
abbrev pub not_before_at : ℕ → ℕ
not_before_at now = now - 300

abbrev pub fifty_years : ℕ
fifty_years = 50 * 365 * 24 * 3600

abbrev pub ca_organization : String
ca_organization = "Hyperchain"

-- strings.Split by one byte.
unfoldable pub split : ℕ → Bytes → Bytes → List Bytes
split sep part [] = part ∷ []
split sep part (c ∷ cs) =
    let next = split sep [] cs in
    let more = split sep (part ++ (c ∷ [])) cs in if c == sep then part ∷ next else more

-- getFileName, behind filepath.Base: the default is "default".
abbrev pub name_of : List Bytes → Bytes
name_of (a ∷ b ∷ []) = a
name_of _ = b'd' ∷ b'e' ∷ b'f' ∷ b'a' ∷ b'u' ∷ b'l' ∷ b't' ∷ []

unfoldable pub get_file_name : Bytes → Bytes
get_file_name base = name_of (split b'.' [] base)

module _ (x509 : X509) (pki : Pki x509) where
  abbrev Result : Type 0 → Type 0
  Result A = Run CommandError A

  -- `block, _ := pem.Decode(data)` and `block.Bytes`.
  unfoldable pub block_bytes : Bytes → Result Bytes
  block_bytes contents = or_else (x509.decode_pem contents) panic

  -- A private key of a file.
  unfoldable pub read_key : Option Bytes → Result pki.Private
  read_key file = do
    contents ← or_else file (err no_file)
    bytes ← block_bytes contents
    or_else (pki.parse_key bytes) (err bad_private_key)

  -- A certificate of a file.
  unfoldable pub read_cert : Option Bytes → Result x509.Certificate
  read_cert file = do
    contents ← or_else file (err no_file)
    bytes ← block_bytes contents
    or_else (x509.parse_certificate bytes) (err bad_cert)

  -- GenerateCert, with the serial number that rand gave and the time.
  unfoldable pub generate_cert :
      Bool → String → Option ℕ → ℕ → Result (Template pki.Name pki.Public)
  generate_cert is_ca organization serial now = do
    sn ← or_else serial (err no_key)
    ok (record {
      serial = sn;
      begins = not_before_at now;
      ends = not_before_at now + fifty_years;
      is_ca = is_ca;
      issuer = none;
      subject = pki.cert_name organization;
      public_key = none;
    })

  -- priv: the file of a key that GenerateKey gave.
  unfoldable pub priv_command : Option pki.Private → Result Bytes
  priv_command generated = do
    key ← or_else generated (err no_key)
    bytes ← or_else (pki.marshal_key key) (err not_made)
    ok (pki.encode_pem "EC PRIVATE KEY" bytes)

  -- ca: the files ca.priv and ca.cert.
  unfoldable pub ca_command : Option pki.Private → Option ℕ → ℕ → Result (Bytes × Bytes)
  ca_command generated serial now = do
    key ← or_else generated (err no_key)
    key_bytes ← or_else (pki.marshal_key key) (err not_made)
    c ← generate_cert true ca_organization serial now
    cert_bytes ←
        or_else (pki.create_certificate c (pki.struct_of c) (pki.public_of key) key) (err not_made)
    ok (pki.encode_pem "EC PRIVATE KEY" key_bytes, pki.encode_pem "CERTIFICATE" cert_bytes)

  -- csr: the file of the request.
  unfoldable pub csr_command : Option Bytes → String → Result Bytes
  csr_command key_file org = do
    key ← read_key key_file
    bytes ← or_else (pki.create_request (pki.csr_name org) key) (err not_made)
    ok (pki.encode_pem "CSR" bytes)

  -- The template of issue.
  abbrev pub issued_template :
      pki.Request → x509.Certificate → Bool → ℕ → ℕ → Template pki.Name pki.Public
  issued_template csr ca_cert is_ca serial now = record {
    serial = serial;
    begins = not_before_at now;
    ends = not_before_at now + fifty_years;
    is_ca = is_ca;
    issuer = some (pki.subject_of ca_cert);
    subject = pki.request_subject csr;
    public_key = some (pki.request_public csr);
  }

  unfoldable pub read_request : Option Bytes → Result pki.Request
  read_request file = do
    contents ← or_else file (err no_file)
    bytes ← block_bytes contents
    or_else (pki.parse_request bytes) (err bad_request)

  -- issue: the file of the certificate.
  unfoldable pub issue_command :
      Option Bytes → Bool → Option Bytes → Option Bytes → Option ℕ → ℕ → Result Bytes
  issue_command csr_file is_ca key_file cert_file serial now = do
    key ← read_key key_file
    ca_cert ← read_cert cert_file
    csr ← read_request csr_file
    u ← (if pki.request_signed csr then ok (tt {0}) else err wrong_csr_sign)
    sn ← or_else serial (err no_key)
    bytes ←
        or_else
          (pki.create_certificate (issued_template csr ca_cert is_ca sn now) ca_cert
            (pki.request_public csr) key)
          (err not_made)
    ok (pki.encode_pem "CERTIFICATE" bytes)

  -- parse, whose output is the certificate as JSON.
  unfoldable pub parse_command : Option Bytes → Result x509.Certificate
  parse_command file = read_cert file

  -- verify
  unfoldable pub verify_command : Option Bytes → Option Bytes → Result (Unit {0})
  verify_command sub_file ca_file = do
    sub_cert ← read_cert sub_file
    ca_cert ← read_cert ca_file
    if x509.check_signature_from sub_cert ca_cert then ok tt else err not_signed
