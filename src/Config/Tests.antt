-- ===== src/Config/Tests.antt =====
-- The configuration that README.md makes, and the theorem at it.
use multiplexing_server.Base.{◌≡◌, some, [], ◌∷◌, ok, fault, arith}
use multiplexing_server.Wire.{be_bytes}
use multiplexing_server.Config.{
  create_config, get_config, configured, get_config-create_config, get_config_short,
}

get_config-create_config_example :
    configured (some (create_config 8080 (b'f' ∷ [])))
    ≡ ok (127 ∷ 0 ∷ 0 ∷ 1 ∷ [], be_bytes 2 8080, b'f' ∷ [])
get_config-create_config_example =
    get_config-create_config 8080 (b'f' ∷ []) (omega arith) (omega arith) ((λ e. cc), tt)

get_config_short_run : get_config (some (127 ∷ 0 ∷ 0 ∷ [])) ≡ fault
get_config_short_run = get_config_short (127 ∷ 0 ∷ 0 ∷ []) (omega arith)
