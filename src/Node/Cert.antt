-- ===== src/Node/Cert.antt =====
-- node/cert.go, requestCert. Whether a file is there, and whether the ACME client and the key
-- generator fail, are arguments; the flag of a result is the error.
use yav2bx.Base.{Bool, true, false, not, ◌&&◌, ◌||◌, [], if◌then◌else◌}
use yav2bx.Keys.{Str, str_beq}
use yav2bx.Text.{bytes}

-- conf.CertConfig, as far as requestCert reads it.
pub record CertConfig : Type 0 where
  pub cert_mode : Str
  pub cert_domain : Str
  pub cert_file : Str
  pub key_file : Str

-- The calls that make a certificate: NewLego, CreateCert, and generateSelfSslCertificate.
pub record Issuer : Type 0 where
  pub new_lego : CertConfig → Bool
  pub create_cert : CertConfig → Bool
  pub generate_self : Str → Str → Str → Bool

abbrev pub has_paths : CertConfig → Bool
has_paths c = not (str_beq c.cert_file [] || str_beq c.key_file [])

unfoldable pub request_cert : (Str → Bool) → Issuer → CertConfig → Bool
request_cert is_exist issuer c =
    let mode = λ (s : Str). str_beq c.cert_mode s in
    let present = is_exist c.cert_file && is_exist c.key_file in
    if mode (bytes "none") || mode []
    then false
    else if mode (bytes "file")
    then not (has_paths c)
    else if mode (bytes "dns") || mode (bytes "http")
    then (if not (has_paths c)
        then true
        else if present
        then false
        else if issuer.new_lego c
        then true
        else issuer.create_cert c)
    else if mode (bytes "self")
    then (if not (has_paths c)
        then true
        else if present
        then false
        else issuer.generate_self c.cert_domain c.cert_file c.key_file)
    else true
