-- ===== src/Swarm/Certs.antt =====
-- cert/cert.go and swarm/handle.go: certificates and their chain.
use crosshub.Prelude.{
  ℕ, Bool, ltb, ◌||◌, Bytes, Option, Run, ok, err, ◌>>=◌, map_err, or_else, if◌then◌else◌,
}

-- crypto/x509 and encoding/pem, and the time of the check. A nil slice is `none`.
pub record X509 : Type 1 where
  pub Certificate : Type 0
  pub decode_pem : Bytes → Option Bytes
  pub parse_certificate : Bytes → Option Certificate
  pub check_signature_from : Certificate → Certificate → Bool
  pub not_before : Certificate → ℕ
  pub not_after : Certificate → ℕ
  pub now : ℕ

pub data CertError : Type 0 where
  empty_data empty_block bad_certificate bad_private_key check_sign cert_expired : CertError
  node_cert agency_cert verify_agency verify_node verify_certs : CertError → CertError
  bad_message wrong_id send_failed disconnect_failed : CertError

module _ (x509 : X509) where
  -- ParseCert
  unfoldable pub parse_cert : Option Bytes → Run CertError x509.Certificate
  parse_cert input = do
    bytes ← or_else input (err empty_data)
    block ← or_else (x509.decode_pem bytes) (err empty_block)
    or_else (x509.parse_certificate block) (err bad_certificate)

  -- VerifySign
  unfoldable pub verify_sign : x509.Certificate → x509.Certificate → Run CertError (Unit {0})
  verify_sign sub_cert ca_cert =
      if x509.check_signature_from sub_cert ca_cert
      then (if ltb x509.now (x509.not_before sub_cert) || ltb (x509.not_after sub_cert) x509.now
          then err cert_expired
          else ok tt)
      else err check_sign

  -- verifyCerts
  unfoldable pub verify_chain :
      x509.Certificate → x509.Certificate → x509.Certificate → Run CertError (Unit {0})
  verify_chain node agency ca_cert = do
    u ← map_err verify_agency (verify_sign agency ca_cert)
    map_err verify_node (verify_sign node agency)

  -- The certificates of a message, parsed and verified, as handleMessage and verifyCert do.
  unfoldable pub check_certs :
      Option Bytes → Option Bytes → x509.Certificate → Run CertError (Unit {0})
  check_certs node_data agency_data ca_cert = do
    node ← map_err node_cert (parse_cert node_data)
    agency ← map_err agency_cert (parse_cert agency_data)
    map_err verify_certs (verify_chain node agency ca_cert)
