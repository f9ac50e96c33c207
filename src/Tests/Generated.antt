-- ===== src/Tests/Generated.antt =====
-- Runs of genconfig: a gateway, over tools that make every key of a seed.
use opt.Base.{
  ℕ, ◌≡◌, ◌↔◌, refl, List, [], ◌∷◌, Option, none, some, true, false, Bytes, All, bytes_eq,
  bytes_eq_refl, arith, if◌then◌else◌,
}
use opt.Base.Int.{pos}
use opt.Base.Texts.{bytes_of}
use opt.Base.Outcome.{ok}
use opt.Genconfig.Network.{NetworkInfo, debug_client1_of, debug_client2_of, debug_server_of}
use opt.Genconfig.Types.{
  Tools, ReadsOwn, Content, Key, toml, text, public_pem, private_pem, NodeConfig, Katzenpost,
  PinnedGateway,
}
use opt.Genconfig.Disk.{World}
use opt.Genconfig.Identifier.{identifier_is_valid, IsIdentifier, identifier_is_valid_iff}
use opt.Genconfig.Input.{GenconfigInput}
use opt.Genconfig.Run.{generate, pin_gateways}
use opt.Genconfig.Nodes.{address, node_config}
use opt.Genconfig.OnDisk.{OnDisk}
use opt.Genconfig.Pinned.{Apart, pin_gateways-OnDisk}
use opt.Genconfig.Written.{Written}

abbrev key_in : Bytes → Content → Option Key
key_in scheme (public_pem name key) = if bytes_eq name scheme then some key else none
key_in scheme (toml c) = none
key_in scheme (text b) = none
key_in scheme (private_pem key) = none

abbrev first_byte : Bytes → ℕ
first_byte [] = 0
first_byte (c ∷ cs) = c

abbrev tools : Tools
tools = record {
  creatable = λ p. true;
  encodes = λ c. true;
  kem_known = λ n. true;
  nike_known = λ n. true;
  sign_by_name = λ n. some n;
  nike_geometry = λ n size hops. [];
  kem_geometry = λ n size hops. [];
  sign_key = λ scheme seed. (seed ∷ [], seed ∷ 1 ∷ []);
  kem_key = λ scheme seed. some (seed ∷ [], seed ∷ 1 ∷ []);
  read_public = λ scheme c. key_in scheme c;
  sum256 = first_byte;
  fixup_and_validate = λ c. some c;
}

reads_own : ReadsOwn tools
reads_own name scheme seed h = ground (arith, bytes_eq_refl scheme)

abbrev input : GenconfigInput
input = record {
  addr = bytes_of "1.2.3.4";
  addr_bind = [];
  base_dir = bytes_of "/opt";
  base_port = pos 8080;
  bin_prefix = [];
  bin_suffix = [];
  cfg_type = bytes_of "gateway";
  identifier = bytes_of "gate-1";
  log_level = bytes_of "INFO";
  metrics = [];
  transport = bytes_of "tcp";
}

abbrev info : NetworkInfo
info = record {
  build_datetime = [];
  kp_client_debug_disable_decoy_traffic = false;
  kp_client_debug_enable_time_sync = false;
  kp_client_debug_initial_max_pki_delay = pos 0;
  kp_client_debug_polling_interval = pos 0;
  kp_client_debug_session_dial_timeout = pos 0;
  kp_config_kem = bytes_of "kyber";
  kp_config_lambda_d = 0;
  kp_config_lambda_d_max_delay = 0;
  kp_config_lambda_g_max_delay = 0;
  kp_config_lambda_l = 0;
  kp_config_lambda_l_max_delay = 0;
  kp_config_lambda_m = 0;
  kp_config_lambda_m_max_delay = 0;
  kp_config_lambda_p = 0;
  kp_config_lambda_p_max_delay = 0;
  kp_config_log_level = [];
  kp_config_mu = 0;
  kp_config_mu_max_delay = 0;
  kp_config_nike = [];
  kp_config_ratchet_nike = bytes_of "x25519";
  kp_config_pki_signature_scheme = bytes_of "ed25519";
  kp_config_send_rate_per_minute = 0;
  kp_config_user_forward_payload_length = pos 0;
  kp_config_wirekem = bytes_of "xwing";
  kp_debug_connect_timeout = pos 0;
  kp_debug_decoy_slack = pos 0;
  kp_debug_disable_rate_limit = false;
  kp_debug_gateway_delay = pos 0;
  kp_debug_generate_only = false;
  kp_debug_handshake_timeout = pos 0;
  kp_debug_kaetzchen_delay = pos 0;
  kp_debug_num_gateway_workers = pos 0;
  kp_debug_num_kaetzchen_workers = pos 0;
  kp_debug_num_service_workers = pos 0;
  kp_debug_num_sphinx_workers = pos 0;
  kp_debug_reauth_interval = pos 0;
  kp_debug_scheduler_external_memory_queue = false;
  kp_debug_scheduler_max_burst = pos 0;
  kp_debug_scheduler_queue_size = pos 0;
  kp_debug_scheduler_slack = pos 0;
  kp_debug_send_decoy_traffic = false;
  kp_debug_send_slack = pos 0;
  kp_debug_service_delay = pos 0;
  kp_debug_unwrap_delay = pos 0;
  kp_misc_topology_layers = pos 3;
  kp_misc_transport = [];
  kp_plugin_max_concurrency = pos 0;
  network_id = [];
  version_deployer = [];
  version_katzenpost = [];
  version_zkn_opt = [];
}

abbrev blank : World
blank = record { files = []; seed = 7 }

-- The world after the run.
after_run : World
after_run = (generate tools input info blank).1

identifier_is_valid_iff_example :
    (identifier_is_valid (bytes_of "gate-1") ≡ true) ↔ IsIdentifier (bytes_of "gate-1")
identifier_is_valid_iff_example = identifier_is_valid_iff (bytes_of "gate-1")

gate_valid : identifier_is_valid (bytes_of "gate-1") ≡ true
unfolding identifier_is_valid
gate_valid = refl

mix_too_short : identifier_is_valid (bytes_of "mix") ≡ false
unfolding identifier_is_valid
mix_too_short = refl

abbrev run : Katzenpost
run = record {
  base_dir = [];
  bin_prefix = [];
  bin_suffix = [];
  log_level = [];
  ratchet_nike_scheme = [];
  wire_kem_scheme = bytes_of "xwing";
  pki_signature_scheme = bytes_of "ed25519";
  sphinx_geometry = [];
  voting_auth_configs = [];
  authorities = [];
  node_configs = [];
  base_port = 8080;
  last_port = 8081;
  addr = bytes_of "1.2.3.4";
  addr_bind = [];
  node_idx = 0;
  client_idx = 0;
  gateway_idx = 0;
  service_node_idx = 0;
  has_panda = false;
  has_proxy = false;
  transport = bytes_of "tcp";
  metrics = [];
  debug_config_client1 = debug_client1_of info;
  debug_config_client2 = debug_client2_of info;
  debug_config_server = debug_server_of info;
}

-- Two gateways in folders of their own.
abbrev gateways : List NodeConfig
gateways =
    node_config tools run (bytes_of "gate-1") true false true
    ∷ node_config tools run (bytes_of "gate-2") true false true
    ∷ []

pinned : List PinnedGateway
pinned =
    record {
      pki_signature_scheme = bytes_of "ed25519";
      wire_kem_scheme = bytes_of "xwing";
      name = bytes_of "gate-1";
      identity_key = 7 ∷ [];
      link_key = 8 ∷ [];
      addresses = address (bytes_of "tcp") (bytes_of "1.2.3.4") 8080 ∷ [];
    }
    ∷ record {
      pki_signature_scheme = bytes_of "ed25519";
      wire_kem_scheme = bytes_of "xwing";
      name = bytes_of "gate-2";
      identity_key = 9 ∷ [];
      link_key = 10 ∷ [];
      addresses = address (bytes_of "tcp") (bytes_of "1.2.3.4") 8080 ∷ [];
    }
    ∷ []

after_pins : World
after_pins = (pin_gateways tools run gateways blank).1

pinned-run : pin_gateways tools run gateways blank ≡ (ok pinned, after_pins)
unfolding pin_gateways node_config pinned after_pins bytes_eq
pinned-run = refl

apart : Apart gateways
unfolding node_config bytes_eq
apart = ((refl, tt), (tt, tt))

pin_gateways-OnDisk_example :
    All (λ g. OnDisk tools after_pins.files g.name g.identity_key g.link_key) pinned
pin_gateways-OnDisk_example =
    pin_gateways-OnDisk tools (λ p. refl) reads_own run gateways blank after_pins pinned apart
      pinned-run
