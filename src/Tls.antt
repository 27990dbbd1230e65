-- ===== src/Tls.antt =====
-- internal/tlsconfig/loader.go: the transport credentials of the server.
pub mod Policy
use database_router.Shared.{
  ℕ, Bool, true, false, ◌||◌, not, Option, none, some, List, [], ◌∷◌, ◌++◌, if◌then◌else◌,
}
use database_router.Shared.Action.{Result, ok, err}
use database_router.Text.{Text, codes, text_eq, is_empty}
use database_router.Value.{Runtime}
use database_router.Config.{TlsConfig}
use database_router.Fault.{GoError, message, error_text}

-- crypto/tls and crypto/x509, with the files that they read: certificates and pools are handles.
pub record Crypto : Type 0 where
  -- tls.LoadX509KeyPair
  pub load_key_pair : Text → Text → Result GoError ℕ
  -- tls.X509KeyPair
  pub key_pair : List ℕ → List ℕ → Result GoError ℕ
  -- os.ReadFile
  pub read_file : Text → Result GoError (List ℕ)
  -- a new pool with the certificates of a PEM text, or `none` if AppendCertsFromPEM finds none
  pub pool_of_pem : List ℕ → Option ℕ

-- tls.ClientAuthType, in the order of its values
pub data ClientAuth : Type 0 where
  no_client_cert request_client_cert require_any_client_cert verify_client_cert_if_given :
      ClientAuth
  require_and_verify_client_cert : ClientAuth

-- tls.VersionTLS12 and tls.VersionTLS13
abbrev pub version_tls12 : ℕ
version_tls12 = 0x0303

abbrev pub version_tls13 : ℕ
version_tls13 = 0x0304

-- The fields of tls.Config that the server sets.
pub record ServerTls : Type 0 where
  pub certificate : ℕ
  pub min_version : ℕ
  pub client_cas : Option ℕ
  pub client_auth : ClientAuth

pub data Credentials : Type 0 where
  insecure : Credentials
  tls : ServerTls → Credentials

pub parse_client_auth : Text → ClientAuth
parse_client_auth s =
    if text_eq s (codes "none")
    then no_client_cert
    else if text_eq s (codes "request")
    then request_client_cert
    else if text_eq s (codes "require")
    then require_and_verify_client_cert
    else require_and_verify_client_cert

abbrev fail : {A : Type 0} → Text → Result GoError A
fail text = err (message text)

-- Loader: the TLS section of the configuration.
pub record Loader : Type 0 where
  pub cfg : TlsConfig

abbrev pub new_loader : TlsConfig → Loader
new_loader cfg = record { cfg = cfg }

-- The part of Build behind the certificate of the server.
module _ (c : Crypto) (rt : Runtime) (l : Loader) where
  with_pool : ℕ → Option ℕ → Result GoError Credentials
  with_pool cert none =
      fail
        (codes "CA file " ++ rt.quoted l.cfg.ca_file ++ codes " contains no valid PEM certificates")
  with_pool cert (some pool) = ok (
      tls (record {
        certificate = cert;
        min_version = version_tls13;
        client_cas = some pool;
        client_auth = parse_client_auth l.cfg.client_auth;
      }))

  with_ca : ℕ → Result GoError (List ℕ) → Result GoError Credentials
  with_ca cert (err e) =
      fail (codes "reading CA file " ++ rt.quoted l.cfg.ca_file ++ codes ": " ++ error_text e)
  with_ca cert (ok pem) = with_pool cert (c.pool_of_pem pem)

  with_certificate : Result GoError ℕ → Result GoError Credentials
  with_certificate (err e) = fail (codes "loading server certificate: " ++ error_text e)
  with_certificate (ok cert) =
      if is_empty l.cfg.ca_file
      then ok (
          tls (record {
            certificate = cert;
            min_version = version_tls13;
            client_cas = none;
            client_auth = no_client_cert;
          }))
      else with_ca cert (c.read_file l.cfg.ca_file)

  unfoldable pub build : Result GoError Credentials
  unfolding with_certificate with_ca with_pool parse_client_auth
  build =
      if not l.cfg.enabled
      then ok insecure
      else if is_empty l.cfg.cert_file || is_empty l.cfg.key_file
      then fail (codes "tls.cert_file and tls.key_file are required when TLS is enabled")
      else with_certificate (c.load_key_pair l.cfg.cert_file l.cfg.key_file)

unfoldable pub mode : Loader → Text
mode l =
    if not l.cfg.enabled
    then codes "plain-text (TLS disabled)"
    else if is_empty l.cfg.ca_file
    then codes "server-side TLS"
    else codes "mTLS (client-auth=" ++ l.cfg.client_auth ++ codes ")"
