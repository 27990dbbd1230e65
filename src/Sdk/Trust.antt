-- ===== src/Sdk/Trust.antt =====
-- Which servers a client trusts.
use database_router.Shared.{◌≡◌, ◌≢◌, none, [], arith}
use database_router.Shared.Action.{ok}
use database_router.Tls.{Crypto}
use database_router.Sdk.{Options, ClientTls, build_tls_config}

module _ (c : Crypto) (opts : Options) where
  -- A CA file that is there and empty is ignored: the configuration has no pool of its own, so the
  -- client trusts the roots of the system.
  build_tls_config-empty_ca_file :
      (cfg : ClientTls)
      → opts.ca_data ≡ []
      → opts.ca_file ≢ []
      → c.read_file opts.ca_file ≡ ok []
      → build_tls_config c opts ≡ ok cfg
      → cfg.root_cas ≡ none
  unfolding build_tls_config
  build_tls_config-empty_ca_file cfg h k r e = ground arith
