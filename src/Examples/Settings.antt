-- ===== src/Examples/Settings.antt =====
-- Examples for the configuration and for TLS.
use database_router.Shared.{◌≡◌, ◌≢◌, ◌↔◌, refl, true, none, some, [], arith}
use database_router.Shared.Action.{ok}
use database_router.Text.{text_eq}
use database_router.Tls.{
  version_tls13, ServerTls, tls, build, require_and_verify_client_cert, new_loader,
}
use database_router.Tls.Policy.{build-tls, build-strict}
use database_router.Examples.World.{tls_config, crypto, runtime}

abbrev server_tls : ServerTls
server_tls = record {
  certificate = 11;
  min_version = version_tls13;
  client_cas = some 13;
  client_auth = require_and_verify_client_cert;
}

built : build crypto runtime (new_loader tls_config) ≡ ok (tls server_tls)
unfolding build text_eq
built = refl

build-tls_example :
    (tls_config.enabled ≡ true)
    × (tls_config.cert_file ≢ [])
    × (tls_config.key_file ≢ [])
    × (server_tls.min_version ≡ version_tls13)
    × ((server_tls.client_cas ≢ none) ↔ (tls_config.ca_file ≢ []))
build-tls_example = build-tls crypto runtime tls_config server_tls built

build-strict_example : server_tls.client_auth ≡ require_and_verify_client_cert
build-strict_example =
    build-strict crypto runtime tls_config server_tls built (λ e. ground arith) (λ e. ground arith)
      (λ e. ground arith)
