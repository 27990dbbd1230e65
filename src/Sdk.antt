-- ===== src/Sdk.antt =====
-- sdk/go/client.go: the connection of a client to the router.
pub mod Trust
use database_router.Shared.{
  ℕ, Bool, true, false, ◌&&◌, not, Option, none, some, List, [], ◌∷◌, ◌++◌, if◌then◌else◌,
}
use database_router.Shared.Action.{Result, ok, err}
use database_router.Text.{Text, codes, is_empty}
use database_router.Fault.{GoError, message, error_text}
use database_router.Tls.{Crypto, version_tls12}

pub record Options : Type 0 where
  pub host : Text
  pub cert_file : Text
  pub key_file : Text
  pub ca_file : Text
  pub cert_data : List ℕ
  pub key_data : List ℕ
  pub ca_data : List ℕ
  pub insecure : Bool

-- The fields of tls.Config that the client sets.
pub record ClientTls : Type 0 where
  pub certificate : ℕ
  pub min_version : ℕ
  pub root_cas : Option ℕ

-- The option that Connect dials with: WithTransportCredentials of one or the other.
pub data DialOption : Type 0 where
  insecure_transport : DialOption
  tls_transport : ClientTls → DialOption

-- A client: its connection, and the four stubs, each of which is the connection that it calls over.
pub record Client : Type 0 where
  pub conn : ℕ
  pub health : ℕ
  pub postgres : ℕ
  pub mongo : ℕ
  pub redis : ℕ

abbrev wrapped : {A : Type 0} → Text → GoError → Result GoError A
wrapped text e = err (message (text ++ error_text e))

module _ (c : Crypto) where
  with_root_cas : ℕ → Option ℕ → Result GoError ClientTls
  with_root_cas cert none = err (message (codes "failed to parse CA certificate"))
  with_root_cas cert (some pool) =
      ok (record { certificate = cert; min_version = version_tls12; root_cas = some pool })

  with_ca_data : ℕ → List ℕ → Result GoError ClientTls
  with_ca_data cert ca_data =
      if is_empty ca_data
      then ok (record { certificate = cert; min_version = version_tls12; root_cas = none })
      else with_root_cas cert (c.pool_of_pem ca_data)

  with_ca_file : ℕ → Result GoError (List ℕ) → Result GoError ClientTls
  with_ca_file cert (err e) = wrapped (codes "reading CA file: ") e
  with_ca_file cert (ok ca_data) = with_ca_data cert ca_data

  with_certificate : Options → Result GoError ℕ → Result GoError ClientTls
  with_certificate opts (err e) = wrapped (codes "loading client cert: ") e
  with_certificate opts (ok cert) =
      if not (is_empty opts.ca_data)
      then with_ca_data cert opts.ca_data
      else if not (is_empty opts.ca_file)
      then with_ca_file cert (c.read_file opts.ca_file)
      else with_ca_data cert []

  unfoldable pub build_tls_config : Options → Result GoError ClientTls
  unfolding with_certificate with_ca_file with_ca_data with_root_cas
  build_tls_config opts =
      if not (is_empty opts.cert_data) && not (is_empty opts.key_data)
      then with_certificate opts (c.key_pair opts.cert_data opts.key_data)
      else if not (is_empty opts.cert_file) && not (is_empty opts.key_file)
      then with_certificate opts (c.load_key_pair opts.cert_file opts.key_file)
      else err (message (codes "either CertFile/KeyFile or CertData/KeyData must be provided"))

  -- `dial` is grpc.NewClient.
  dial_with :
      (Text → DialOption → Result GoError ℕ)
      → Text
      → Result GoError DialOption
      → Result GoError Client
  dial_with dial host (err e) = wrapped (codes "tls config: ") e
  dial_with dial host (ok option) = elim (dial host option) [
    | ok conn ↦
        ok (record { conn = conn; health = conn; postgres = conn; mongo = conn; redis = conn })
    | err e ↦ wrapped (codes "grpc dial: ") e
  ]

  tls_option : Result GoError ClientTls → Result GoError DialOption
  tls_option (ok cfg) = ok (tls_transport cfg)
  tls_option (err e) = err e

  unfoldable pub connect : (Text → DialOption → Result GoError ℕ) → Options → Result GoError Client
  unfolding build_tls_config dial_with tls_option
  connect dial opts =
      dial_with dial opts.host
        (if opts.insecure then ok insecure_transport else tls_option (build_tls_config opts))

-- `close_conn` is ClientConn.Close.
pub close :
    {W : Type 0}
    → (ℕ → W → Result GoError (Unit {0}) × W)
    → Client
    → W
    → Result GoError (Unit {0}) × W
close close_conn c = close_conn c.conn
