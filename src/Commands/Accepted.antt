-- ===== src/Commands/Accepted.antt =====
-- The way from ca over priv, csr and issue to the check that a hub makes of another (cmd/crosshub/cert.go,
-- cert/cert.go, swarm/handle.go).
use crosshub.Prelude.{
  ℕ, ◌+◌, ◌≤◌, ◌≡◌, refl, ◌∙◌, Bool, true, false, ltb, ◌||◌, Bytes, String, Option, some, ok, arith,
}
use crosshub.Swarm.Certs.{X509, parse_cert, verify_sign, verify_chain, check_certs}
use crosshub.Commands.Keys.{Pki, IsPki}
use crosshub.Commands.Certs.{
  not_before_at, fifty_years, priv_command, ca_command, csr_command, issue_command, verify_command,
}
use crosshub.Commands.Chain.{
  Issued, priv_command-KeyFile, ca_command-Made, csr_command-Requested, issue_command-Issued,
}

not_expired :
    (now begins ends : ℕ) → begins ≤ now → now ≤ ends → (ltb now begins || ltb ends now) ≡ false
not_expired now begins ends a b = ground arith

module _ (x509 : X509) (pki : Pki x509) (laws : IsPki pki) where
  verify_sign-true :
      (c ca : x509.Certificate)
      → x509.check_signature_from c ca ≡ true
      → x509.not_before c ≤ x509.now
      → x509.now ≤ x509.not_after c
      → verify_sign x509 c ca ≡ ok tt
  unfolding verify_sign
  verify_sign-true c ca s a b =
      rw (s, not_expired x509.now (x509.not_before c) (x509.not_after c) a b) refl

  Issued-verify_sign :
      {is_ca : Bool} {at : ℕ} {p : pki.Public} {k : pki.Private} {file : Bytes}
      (i : Issued x509 pki laws is_ca at p k file) (ca : x509.Certificate)
      → laws.is_ca ca ≡ true
      → laws.key_in ca ≡ pki.public_of k
      → not_before_at at ≤ x509.now
      → x509.now ≤ not_before_at at + fifty_years
      → verify_sign x509 i.made.cert ca ≡ ok tt
  Issued-verify_sign i ca bit key a b =
      let begins = i.made.begins ∙ i.begins in
      let ends = i.made.ends ∙ i.ends in
      verify_sign-true i.made.cert ca (i.made.stands_behind ca bit key) (rw begins a) (rw ends b)

  -- The files of a network: ca makes those of the root; priv, csr and issue with the root's files make an
  -- agency's with the CA bit; priv, csr and issue with the agency's files make a node's. Where each command
  -- succeeds, and the check is made within fifty years after five minutes before each issue, then a hub that
  -- has loaded the root's certificate accepts the node's and the agency's, and verify says so of the agency's.
  pub issued-check_certs :
      (root agency node : pki.Private) (serial agency_serial node_serial : Option ℕ)
      (ca_at agency_at node_at : ℕ) (agency_org node_org : String) (node_is_ca : Bool)
      {ca_files : Bytes × Bytes}
      {agency_key agency_csr agency_file node_key node_csr node_file : Bytes}
      → ca_command x509 pki (some root) serial ca_at ≡ ok ca_files
      → priv_command x509 pki (some agency) ≡ ok agency_key
      → csr_command x509 pki (some agency_key) agency_org ≡ ok agency_csr
      → issue_command x509 pki
          (some agency_csr)
          true
          (some ca_files.0)
          (some ca_files.1)
          agency_serial
          agency_at
        ≡ ok agency_file
      → priv_command x509 pki (some node) ≡ ok node_key
      → csr_command x509 pki (some node_key) node_org ≡ ok node_csr
      → issue_command x509 pki
          (some node_csr)
          node_is_ca
          (some agency_key)
          (some agency_file)
          node_serial
          node_at
        ≡ ok node_file
      → not_before_at agency_at ≤ x509.now
      → x509.now ≤ not_before_at agency_at + fifty_years
      → not_before_at node_at ≤ x509.now
      → x509.now ≤ not_before_at node_at + fifty_years
      → (ca : x509.Certificate) × (parse_cert x509 (some ca_files.1) ≡ ok ca)
        × (check_certs x509 (some node_file) (some agency_file) ca ≡ ok tt)
        × (verify_command x509 pki (some agency_file) (some ca_files.1) ≡ ok tt)
  unfolding check_certs verify_chain verify_command
  issued-check_certs root agency node serial agency_serial node_serial ca_at agency_at node_at
        agency_org node_org node_is_ca {ca_files} {agency_key} {agency_csr} {agency_file} {node_key}
        {node_csr} h1 h2 h3 h4 h5 h6 h7 a b c d =
      let (root_key, made_root) = ca_command-Made x509 pki laws root serial ca_at h1 in
      let m = made_root.1 in
      let key_a = priv_command-KeyFile x509 pki laws agency h2 in
      let csr_a = csr_command-Requested x509 pki laws agency agency_key agency_org key_a h3 in
      let ia =
        issue_command-Issued x509 pki laws agency root agency_csr ca_files.0 ca_files.1 true _
          agency_at csr_a root_key h4 in
      let key_n = priv_command-KeyFile x509 pki laws node h5 in
      let csr_n = csr_command-Requested x509 pki laws node node_key node_org key_n h6 in
      let i =
        issue_command-Issued x509 pki laws node agency node_csr agency_key agency_file _ _ node_at
          csr_n key_a h7 in
      let by_root = Issued-verify_sign ia m.cert m.ca_bit m.has_key a b in
      let by_agency =
        Issued-verify_sign i ia.made.cert (ia.made.ca_bit ∙ ia.ca_bit) ia.made.has_key c d in
      (
        m.cert,
        m.parsed,
        rw (i.made.parsed, ia.made.parsed, by_root, by_agency) refl,
        rw (ia.made.read, m.read, ia.made.stands_behind m.cert m.ca_bit m.has_key) refl,
      )
