-- ===== src/Client/Tls.antt =====
-- Which server certificates the client of src/client.rs accepts: `parse_client_config_and_domain`
-- with the verifiers that it chooses, under the name that `select_sni_name` sends. rustls, webpki
-- and the files are parameters.
use rstun.Base.{
  ℕ, Bool, true, false, ◌&&◌, Option, none, some, List, [], ◌∷◌, if◌then◌else◌, Result, ok, err,
  is_some,
}
use rstun.Net.{Text, SocketAddr}
use rstun.Config.Create.{ServerName, dns_name, ip_address, not_a_name}
use rstun.Client.Address.{split_at_last_colon}
use rstun.Client.Timing.{select_sni_name}

-- `CertificateDer`.
abbrev pub Certificate : Type 0
Certificate = List ℕ

-- What a server shows: its certificate, then the intermediate ones.
pub record Presented : Type 0 where
  pub end_entity : Certificate
  pub intermediates : List Certificate

-- What a certificate is verified against: the roots of the platform, or those of a file.
pub data Trust : Type 0 where
  platform : Trust
  roots : List Certificate → Trust

pub data TlsError : Type 0 where
  no_platform_verifier no_certificate_file no_certificates bad_root no_verifier
        invalid_server_name :
      TlsError

pub record Library : Type 0 where
  pub parse_socket_addr : Text → Option SocketAddr
  pub parse_server_name : Text → ServerName
  -- `load_certificates_from_pem`, and whether a root store takes a certificate.
  pub load_certificates : Text → Option (List Certificate)
  pub addable : Certificate → Bool
  -- Whether a verifier can be built.
  pub builds : Trust → Bool
  -- `verify_server_cert` of the library's verifiers, under a name.
  pub verifies : Trust → Presented → Text → Bool

-- A verifier of the library, `CustomSniVerifier` around one with its real name, or
-- `InsecureCertVerifier`.
pub data Verifier : Type 0 where
  plain : Trust → Verifier
  custom_sni : Trust → Text → Verifier
  insecure : Verifier

-- "localhost"
abbrev pub localhost : Text
localhost = 108 ∷ 111 ∷ 99 ∷ 97 ∷ 108 ∷ 104 ∷ 111 ∷ 115 ∷ 116 ∷ []

before_colon : Option (Text × Text) → Text → Text
before_colon (some (before, after)) server_addr = before
before_colon none server_addr = server_addr

unfoldable pub domain_of : Text → Text
unfolding before_colon
domain_of server_addr = before_colon (split_at_last_colon server_addr) server_addr

abbrev pub is_server_name : ServerName → Bool
is_server_name dns_name = true
is_server_name ip_address = true
is_server_name not_a_name = false

abbrev pub named : Result TlsError Verifier → Text → Result TlsError (Verifier × Text)
named (ok v) name = ok (v, name)
named (err e) name = err e

module _ (lib : Library) where
  unfoldable pub wrap_with_custom_sni_verifier : Trust → Text → Result TlsError Verifier
  wrap_with_custom_sni_verifier t verify_name =
      if is_server_name (lib.parse_server_name verify_name)
      then ok (custom_sni t verify_name)
      else err invalid_server_name

  -- Without a certificate file and with a domain.
  unfoldable pub platform_verifier : List Text → Text → Result TlsError Verifier
  platform_verifier [] domain =
      if lib.builds platform then ok (plain platform) else err no_platform_verifier
  platform_verifier (n ∷ sni_names) domain =
      if lib.builds platform
      then wrap_with_custom_sni_verifier platform domain
      else err no_platform_verifier

  unfoldable pub all_addable : List Certificate → Bool
  all_addable [] = true
  all_addable (c ∷ certs) = lib.addable c && all_addable certs

  unfoldable pub roots_verifier : List Text → List Certificate → Text → Result TlsError Verifier
  roots_verifier [] certs domain = ok (plain (roots certs))
  roots_verifier (n ∷ sni_names) certs domain =
      if lib.builds (roots certs)
      then wrap_with_custom_sni_verifier (roots certs) domain
      else err no_verifier

  unfoldable pub from_file : List Text → Option (List Certificate) → Text → Result TlsError Verifier
  unfolding roots_verifier all_addable
  from_file sni_names none domain = err no_certificate_file
  from_file sni_names (some []) domain = err no_certificates
  from_file sni_names (some (c ∷ certs)) domain =
      if all_addable (c ∷ certs) then roots_verifier sni_names (c ∷ certs) domain else err bad_root

  unfoldable pub parse_client_config_and_domain :
      Text → Text → List Text → Result TlsError (Verifier × Text)
  unfolding platform_verifier from_file
  parse_client_config_and_domain [] server_addr sni_names =
      if is_some (lib.parse_socket_addr server_addr)
      then ok (insecure, localhost)
      else named (platform_verifier sni_names (domain_of server_addr)) (domain_of server_addr)
  parse_client_config_and_domain (x ∷ cert_path) server_addr sni_names =
      named (from_file sni_names (lib.load_certificates (x ∷ cert_path)) (domain_of server_addr))
        (domain_of server_addr)

  -- `verify_server_cert`, given the name on the wire.
  unfoldable pub verify_server_cert : Verifier → Presented → Text → Bool
  verify_server_cert (plain t) p wire_name = lib.verifies t p wire_name
  verify_server_cert (custom_sni t real_name) p wire_name = lib.verifies t p real_name
  verify_server_cert insecure p wire_name = true

  -- `endpoint.connect`: it refuses what is no name.
  unfoldable pub connect : Verifier → Option Text → Presented → Bool
  connect v none p = false
  connect v (some sni_name) p =
      if is_server_name (lib.parse_server_name sni_name)
      then verify_server_cert v p sni_name
      else false

  unfoldable pub under_config : Result TlsError (Verifier × Text) → List Text → ℕ → Presented → Bool
  unfolding connect
  under_config (err e) sni_names sni_rotation p = false
  under_config (ok (v, verify_name)) sni_names sni_rotation p =
      connect v (select_sni_name sni_names verify_name sni_rotation).name p

  -- `prepare_login_config` and the connect stage of `login`: whether the server's certificate is
  -- accepted. The check of its handshake signature is left to the library.
  unfoldable pub accepts : Text → Text → List Text → ℕ → Presented → Bool
  unfolding under_config
  accepts cert_path server_addr sni_names sni_rotation p =
      under_config (parse_client_config_and_domain cert_path server_addr sni_names) sni_names
        sni_rotation p
