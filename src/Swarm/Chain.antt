-- ===== src/Swarm/Chain.antt =====
-- What certificates stand behind a check that succeeds.
use crosshub.Prelude.{
  ◌≤◌, ◌≡◌, true, ltb, tests, Bool-cases, inl, inr, ok, map_err, map_err-ok, >>=-ok, arith,
}
use crosshub.Swarm.Certs.{
  X509, parse_cert, verify_sign, verify_chain, check_certs, node_cert, agency_cert, verify_certs,
  verify_agency, verify_node,
}
use crosshub.Swarm.Messages.{CertsMessage}

module _ (x509 : X509) where
  -- The one certificate is signed by the other, and its time has come and is not over.
  pub record IsSigned (sub_cert ca_cert : x509.Certificate) : Type 0 where
    pub signature : x509.check_signature_from sub_cert ca_cert ≡ true
    pub begun : x509.not_before sub_cert ≤ x509.now
    pub not_over : x509.now ≤ x509.not_after sub_cert

  -- The certificates of a message can be read, and the authority's certificate stands behind them.
  pub record IsChain (certs : CertsMessage) (ca_cert : x509.Certificate) : Type 0 where
    pub node : x509.Certificate
    pub agency : x509.Certificate
    pub node_read : parse_cert x509 certs.node_cert ≡ ok node
    pub agency_read : parse_cert x509 certs.agency_cert ≡ ok agency
    pub node_signed : IsSigned node agency
    pub agency_signed : IsSigned agency ca_cert

  verify_sign-IsSigned :
      (sub_cert ca_cert : x509.Certificate)
      → verify_sign x509 sub_cert ca_cert ≡ ok tt
      → IsSigned sub_cert ca_cert
  unfolding verify_sign
  verify_sign-IsSigned sub_cert ca_cert h =
      elim (Bool-cases (x509.check_signature_from sub_cert ca_cert)) [
        | inl s ↦ elim (Bool-cases (ltb x509.now (x509.not_before sub_cert))) [
          | inl early ↦ absurd (ground (arith, s, early))
          | inr begun ↦ elim (Bool-cases (ltb (x509.not_after sub_cert) x509.now)) [
            | inl late ↦ absurd (ground (arith, s, begun, late))
            | inr fine ↦ record { signature = s; begun = grind tests; not_over = grind tests }
          ]
        ]
        | inr s ↦ absurd (ground (arith, s))
      ]

  pub check_certs-IsChain :
      (certs : CertsMessage) (ca_cert : x509.Certificate)
      → check_certs x509 certs.node_cert certs.agency_cert ca_cert ≡ ok tt
      → IsChain certs ca_cert
  unfolding check_certs verify_chain
  check_certs-IsChain certs ca_cert h =
      >>=-ok (map_err node_cert (parse_cert x509 certs.node_cert)) _ h (λ node a h1.
        >>=-ok (map_err agency_cert (parse_cert x509 certs.agency_cert)) _ h1 (λ agency b h2.
          let chain = map_err-ok verify_certs (verify_chain x509 node agency ca_cert) h2 in
          >>=-ok (map_err verify_agency (verify_sign x509 agency ca_cert)) _ chain (λ u c h3.
            record {
              node = node;
              agency = agency;
              node_read = map_err-ok node_cert (parse_cert x509 certs.node_cert) a;
              agency_read = map_err-ok agency_cert (parse_cert x509 certs.agency_cert) b;
              node_signed =
                  verify_sign-IsSigned node agency
                    (map_err-ok verify_node (verify_sign x509 node agency) h3);
              agency_signed =
                  verify_sign-IsSigned agency ca_cert
                    (map_err-ok verify_agency (verify_sign x509 agency ca_cert) c);
            })))
