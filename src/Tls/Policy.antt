-- ===== src/Tls/Policy.antt =====
-- What the credentials of the server demand.
use database_router.Shared.{◌≡◌, ◌↔◌, ◌≢◌, true, none, [], arith}
use database_router.Shared.Action.{ok}
use database_router.Text.{Text, codes}
use database_router.Text.Laws.{text_eq_iff}
use database_router.Value.{Runtime}
use database_router.Config.{TlsConfig}
use database_router.Tls.{
  Crypto, version_tls13, ServerTls, tls, parse_client_auth, build, require_and_verify_client_cert,
  new_loader,
}

-- Only the words "none" and "request" weaken the demand for a verified client certificate.
parse_client_auth-strict :
    (s : Text)
    → s ≢ codes "none"
    → s ≢ codes "request"
    → parse_client_auth s ≡ require_and_verify_client_cert
unfolding parse_client_auth
parse_client_auth-strict s h k =
    ground (arith, text_eq_iff s (codes "none"), text_eq_iff s (codes "request"))

module _ (c : Crypto) (rt : Runtime) (cfg : TlsConfig) where
  -- Whenever Build gives TLS credentials, TLS is enabled with a certificate and a key, the minimum is
  -- TLS 1.3, and the pool for client certificates is there exactly if a CA file is configured.
  pub build-tls :
      (t : ServerTls)
      → build c rt (new_loader cfg) ≡ ok (tls t)
      → (cfg.enabled ≡ true)
        × (cfg.cert_file ≢ [])
        × (cfg.key_file ≢ [])
        × (t.min_version ≡ version_tls13)
        × ((t.client_cas ≢ none) ↔ (cfg.ca_file ≢ []))
  unfolding build
  build-tls t h = (
    ground arith,
    λ e. ground arith,
    λ e. ground arith,
    ground arith,
    (λ e. λ f. ground arith, λ e. λ f. ground arith),
  )

  -- With a CA file, credentials that Build gives require a verified client certificate, unless the
  -- policy is the word "none" or "request".
  pub build-strict :
      (t : ServerTls)
      → build c rt (new_loader cfg) ≡ ok (tls t)
      → cfg.ca_file ≢ []
      → cfg.client_auth ≢ codes "none"
      → cfg.client_auth ≢ codes "request"
      → t.client_auth ≡ require_and_verify_client_cert
  unfolding build
  build-strict t h ca no_none no_request =
      ground (arith, parse_client_auth-strict cfg.client_auth no_none no_request)
