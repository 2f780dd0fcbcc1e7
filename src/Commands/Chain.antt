-- ===== src/Commands/Chain.antt =====
-- The certificates that the commands make are those that the hubs accept of one another.
use crosshub.Prelude.{
  inl, inr, ℕ, ◌+◌, ◌≡◌, refl, sym, ap, ◌∙◌, subst, Bool, true, Bytes, String, Option, none, some,
  Run, ok, err, panic, >>=-ok, ok-injective, or_else, or_else-eq-ok, if◌then◌else◌,
}
use crosshub.Swarm.Certs.{X509, parse_cert}
use crosshub.Commands.Keys.{Template, Pki, IsPki}
use crosshub.Commands.Certs.{
  CommandError, no_key, wrong_csr_sign, not_made, not_before_at, fifty_years, ca_organization,
  block_bytes, read_key, read_cert, generate_cert, priv_command, ca_command, csr_command,
  issued_template, read_request, issue_command,
}

or_else-panic {ℓ} :
    {A : Type ℓ} (o : Option A) {a : A}
    → ◌≡◌ {A = Run CommandError A} (or_else o panic) (ok a)
    → o ≡ some a
or_else-panic none h = absurd (cc)
or_else-panic (some b) h = cc

module _ (x509 : X509) (pki : Pki x509) (laws : IsPki pki) where
  abbrev pub KeyFile : pki.Private → Bytes → Type 0
  KeyFile k file = read_key x509 pki (some file) ≡ ok k

  pem_key-KeyFile :
      (k : pki.Private) {b : Bytes}
      → pki.marshal_key k ≡ some b
      → KeyFile k (pki.encode_pem "EC PRIVATE KEY" b)
  unfolding read_key block_bytes
  pem_key-KeyFile k {b} e =
      rw (laws.decode-encode_pem "EC PRIVATE KEY" b (inl refl))
        (rw (laws.parse-marshal_key k e) refl)

  pub priv_command-KeyFile :
      (k : pki.Private) {file : Bytes} → priv_command x509 pki (some k) ≡ ok file → KeyFile k file
  unfolding priv_command
  priv_command-KeyFile k h = >>=-ok (or_else (pki.marshal_key k) (err not_made)) _ h λ b e h1.
      subst (KeyFile k) (ok-injective h1)
        (pem_key-KeyFile k (or_else-eq-ok (pki.marshal_key k) not_made e))

  -- A file with a certificate, and what the certificate has.
  pub record Made (t : Template pki.Name pki.Public) (p : pki.Public) (k : pki.Private)
      (file : Bytes) : Type 0 where
    pub cert : x509.Certificate
    pub read : read_cert x509 pki (some file) ≡ ok cert
    pub parsed : parse_cert x509 (some file) ≡ ok cert
    pub begins : x509.not_before cert ≡ t.begins
    pub ends : x509.not_after cert ≡ t.ends
    pub ca_bit : laws.is_ca cert ≡ t.is_ca
    pub has_key : laws.key_in cert ≡ p
    pub stands_behind :
        (ca : x509.Certificate)
        → laws.is_ca ca ≡ true
        → laws.key_in ca ≡ pki.public_of k
        → x509.check_signature_from cert ca ≡ true

  pem_cert-Made :
      (t : Template pki.Name pki.Public) (parent : x509.Certificate) (p : pki.Public)
      (k : pki.Private) {b : Bytes}
      → pki.create_certificate t parent p k ≡ some b
      → Made t p k (pki.encode_pem "CERTIFICATE" b)
  unfolding read_cert block_bytes parse_cert
  pem_cert-Made t parent p k {b} e =
      let (c, parsed, begins, ends, bit, key) = laws.made t parent p k e in
      let pem = laws.decode-encode_pem "CERTIFICATE" b (inr (inl refl)) in
      record {
        cert = c;
        read = rw pem (rw parsed refl);
        parsed = rw pem (rw parsed refl);
        begins = begins;
        ends = ends;
        ca_bit = bit;
        has_key = key;
        stands_behind = λ ca. laws.stands_behind t parent p k ca e parsed;
      }

  -- The template of ca.
  abbrev ca_template : ℕ → ℕ → Template pki.Name pki.Public
  ca_template serial now = record {
    serial = serial;
    begins = not_before_at now;
    ends = not_before_at now + fifty_years;
    is_ca = true;
    issuer = none;
    subject = pki.cert_name ca_organization;
    public_key = none;
  }

  pub ca_command-Made :
      (k : pki.Private) (serial : Option ℕ) (now : ℕ) {files : Bytes × Bytes}
      → ca_command x509 pki (some k) serial now ≡ ok files
      → KeyFile k files.0 × ((sn : ℕ) × Made (ca_template sn now) (pki.public_of k) k files.1)
  unfolding ca_command generate_cert
  ca_command-Made k none now h =
      >>=-ok (or_else (pki.marshal_key k) (err not_made)) _ h λ b e h1. absurd (cc)
  ca_command-Made k (some sn) now {files} h =
      >>=-ok (or_else (pki.marshal_key k) (err not_made)) _ h λ b e h1.
        let t = ca_template sn now in
        >>=-ok
          (or_else (pki.create_certificate t (pki.struct_of t) (pki.public_of k) k) (err not_made))
          _ h1
          λ cb f h2.
            let out = ok-injective h2 in
            (
              subst (KeyFile k) (ap (λ r. r.0) out)
                  (pem_key-KeyFile k (or_else-eq-ok (pki.marshal_key k) not_made e)),
              (
                sn,
                subst (Made t (pki.public_of k) k) (ap (λ r. r.1) out) (
                    pem_cert-Made t (pki.struct_of t) (pki.public_of k) k (
                      or_else-eq-ok (pki.create_certificate t (pki.struct_of t) (pki.public_of k) k)
                        not_made f)),
              ),
            )

  -- A file with a request that the key signed.
  pub record Requested (k : pki.Private) (file : Bytes) : Type 0 where
    pub request : pki.Request
    pub read : read_request x509 pki (some file) ≡ ok request
    pub has_key : pki.request_public request ≡ pki.public_of k

  pem_request-Requested :
      (n : pki.Name) (k : pki.Private) {b : Bytes}
      → pki.create_request n k ≡ some b
      → Requested k (pki.encode_pem "CSR" b)
  unfolding read_request block_bytes
  pem_request-Requested n k {b} e =
      let (r, parsed, signed, key) = laws.request_made n k e in
      record {
        request = r;
        read = rw (laws.decode-encode_pem "CSR" b (inr (inr refl))) (rw parsed refl);
        has_key = key;
      }

  pub csr_command-Requested :
      (k : pki.Private) (key_file : Bytes) (org : String) {file : Bytes}
      → KeyFile k key_file
      → csr_command x509 pki (some key_file) org ≡ ok file
      → Requested k file
  unfolding csr_command
  csr_command-Requested k key_file org r h =
      >>=-ok (read_key x509 pki (some key_file)) _ h λ key e h1.
        let n = pki.csr_name org in
        >>=-ok (or_else (pki.create_request n key) (err not_made)) _ h1 λ b f h2.
          subst (Requested k) (ok-injective h2) (
            pem_request-Requested n k (
              ap (λ (x : pki.Private). pki.create_request n x) (ok-injective (sym r ∙ e))
              ∙ or_else-eq-ok (pki.create_request n key) not_made f))

  Made-subst :
      (t : Template pki.Name pki.Public) {p p' : pki.Public} {k k' : pki.Private}
      {file file' : Bytes}
      → p ≡ p'
      → k ≡ k'
      → file ≡ file'
      → Made t p k file
      → Made t p' k' file'
  Made-subst t {p' = p'} {k = k} {k' = k'} {file = file} a b c m =
      subst (Made t p' k') c (subst (λ x. Made t p' x file) b (subst (λ x. Made t x k file) a m))

  -- The CA bit, the times and the key of a certificate that issue makes.
  pub record Issued (is_ca : Bool) (now : ℕ) (p : pki.Public) (k : pki.Private) (file : Bytes)
      : Type 0 where
    pub template : Template pki.Name pki.Public
    pub made : Made template p k file
    pub begins : template.begins ≡ not_before_at now
    pub ends : template.ends ≡ not_before_at now + fifty_years
    pub ca_bit : template.is_ca ≡ is_ca

  pub issue_command-Issued :
      (asker : pki.Private) (k : pki.Private) (csr_file key_file cert_file : Bytes) (is_ca : Bool)
      (serial : Option ℕ) (now : ℕ) {file : Bytes}
      → Requested asker csr_file
      → KeyFile k key_file
      → issue_command x509 pki (some csr_file) is_ca (some key_file) (some cert_file) serial now
        ≡ ok file
      → Issued is_ca now (pki.public_of asker) k file
  unfolding issue_command
  issue_command-Issued asker k csr_file key_file cert_file is_ca serial now q r h =
      >>=-ok (read_key x509 pki (some key_file)) _ h λ key e h1.
        >>=-ok (read_cert x509 pki (some cert_file)) _ h1 λ parent e1 h2.
          >>=-ok (read_request x509 pki (some csr_file)) _ h2 λ csr e2 h3.
            >>=-ok (if pki.request_signed csr then ok (tt {0}) else err wrong_csr_sign) _ h3
              λ u e3 h4. >>=-ok (or_else serial (err no_key)) _ h4 λ sn e4 h5.
                let t = issued_template x509 pki csr parent is_ca sn now in
                let p = pki.request_public csr in
                >>=-ok (or_else (pki.create_certificate t parent p key) (err not_made)) _ h5
                  λ b f h6. record {
                    template = t;
                    made =
                        Made-subst t
                          (ap pki.request_public (ok-injective (sym e2 ∙ q.read)) ∙ q.has_key)
                          (ok-injective (sym e ∙ r)) (ok-injective h6)
                          (pem_cert-Made t parent p key
                            (or_else-eq-ok (pki.create_certificate t parent p key) not_made f));
                    begins = refl;
                    ends = refl;
                    ca_bit = refl;
                  }
