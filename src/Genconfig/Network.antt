-- ===== src/Genconfig/Network.antt =====
-- What genconfig reads: genconfig/config/network.go, and the parts of Genconfig that hand the network's
-- parameters on. An int is an integer, a string the list of its bytes.
use opt.Base.{ℕ, Bool, Bytes}
use opt.Base.Int.{ℤ}
use opt.Authority.Types.{Float64, Parameters}

pub record NetworkInfo : Type 0 where
  pub build_datetime : Bytes
  pub kp_client_debug_disable_decoy_traffic : Bool
  pub kp_client_debug_enable_time_sync : Bool
  pub kp_client_debug_initial_max_pki_delay : ℤ
  pub kp_client_debug_polling_interval : ℤ
  pub kp_client_debug_session_dial_timeout : ℤ
  pub kp_config_kem : Bytes
  pub kp_config_lambda_d : Float64
  pub kp_config_lambda_d_max_delay : ℕ
  pub kp_config_lambda_g_max_delay : ℕ
  pub kp_config_lambda_l : Float64
  pub kp_config_lambda_l_max_delay : ℕ
  pub kp_config_lambda_m : Float64
  pub kp_config_lambda_m_max_delay : ℕ
  pub kp_config_lambda_p : Float64
  pub kp_config_lambda_p_max_delay : ℕ
  pub kp_config_log_level : Bytes
  pub kp_config_mu : Float64
  pub kp_config_mu_max_delay : ℕ
  pub kp_config_nike : Bytes
  pub kp_config_ratchet_nike : Bytes
  pub kp_config_pki_signature_scheme : Bytes
  pub kp_config_send_rate_per_minute : ℕ
  pub kp_config_user_forward_payload_length : ℤ
  pub kp_config_wirekem : Bytes
  pub kp_debug_connect_timeout : ℤ
  pub kp_debug_decoy_slack : ℤ
  pub kp_debug_disable_rate_limit : Bool
  pub kp_debug_gateway_delay : ℤ
  pub kp_debug_generate_only : Bool
  pub kp_debug_handshake_timeout : ℤ
  pub kp_debug_kaetzchen_delay : ℤ
  pub kp_debug_num_gateway_workers : ℤ
  pub kp_debug_num_kaetzchen_workers : ℤ
  pub kp_debug_num_service_workers : ℤ
  pub kp_debug_num_sphinx_workers : ℤ
  pub kp_debug_reauth_interval : ℤ
  pub kp_debug_scheduler_external_memory_queue : Bool
  pub kp_debug_scheduler_max_burst : ℤ
  pub kp_debug_scheduler_queue_size : ℤ
  pub kp_debug_scheduler_slack : ℤ
  pub kp_debug_send_decoy_traffic : Bool
  pub kp_debug_send_slack : ℤ
  pub kp_debug_service_delay : ℤ
  pub kp_debug_unwrap_delay : ℤ
  pub kp_misc_topology_layers : ℤ
  pub kp_misc_transport : Bytes
  pub kp_plugin_max_concurrency : ℤ
  pub network_id : Bytes
  pub version_deployer : Bytes
  pub version_katzenpost : Bytes
  pub version_zkn_opt : Bytes

pub record ClientDebug : Type 0 where
  pub disable_decoy_traffic : Bool
  pub session_dial_timeout : ℤ
  pub initial_max_pki_retrieval_delay : ℤ
  pub polling_interval : ℤ

pub record Client2Debug : Type 0 where
  pub disable_decoy_traffic : Bool
  pub session_dial_timeout : ℤ
  pub initial_max_pki_retrieval_delay : ℤ
  pub polling_interval : ℤ
  pub enable_time_sync : Bool

pub record ServerDebug : Type 0 where
  pub connect_timeout : ℤ
  pub decoy_slack : ℤ
  pub disable_rate_limit : Bool
  pub gateway_delay : ℤ
  pub generate_only : Bool
  pub handshake_timeout : ℤ
  pub kaetzchen_delay : ℤ
  pub num_gateway_workers : ℤ
  pub num_kaetzchen_workers : ℤ
  pub num_service_workers : ℤ
  pub num_sphinx_workers : ℤ
  pub reauth_interval : ℤ
  pub scheduler_external_memory_queue : Bool
  pub scheduler_max_burst : ℤ
  pub scheduler_queue_size : ℤ
  pub scheduler_slack : ℤ
  pub send_decoy_traffic : Bool
  pub send_slack : ℤ
  pub service_delay : ℤ
  pub unwrap_delay : ℤ

unfoldable pub parameters_of : NetworkInfo → Parameters
parameters_of n = record {
  send_rate_per_minute = n.kp_config_send_rate_per_minute;
  mu = n.kp_config_mu;
  mu_max_delay = n.kp_config_mu_max_delay;
  lambda_p = n.kp_config_lambda_p;
  lambda_p_max_delay = n.kp_config_lambda_p_max_delay;
  lambda_l = n.kp_config_lambda_l;
  lambda_l_max_delay = n.kp_config_lambda_l_max_delay;
  lambda_d = n.kp_config_lambda_d;
  lambda_d_max_delay = n.kp_config_lambda_d_max_delay;
  lambda_m = n.kp_config_lambda_m;
  lambda_m_max_delay = n.kp_config_lambda_m_max_delay;
  lambda_g_max_delay = n.kp_config_lambda_g_max_delay;
}

unfoldable pub debug_client1_of : NetworkInfo → ClientDebug
debug_client1_of n = record {
  disable_decoy_traffic = n.kp_client_debug_disable_decoy_traffic;
  session_dial_timeout = n.kp_client_debug_session_dial_timeout;
  initial_max_pki_retrieval_delay = n.kp_client_debug_initial_max_pki_delay;
  polling_interval = n.kp_client_debug_polling_interval;
}

unfoldable pub debug_client2_of : NetworkInfo → Client2Debug
debug_client2_of n = record {
  disable_decoy_traffic = n.kp_client_debug_disable_decoy_traffic;
  session_dial_timeout = n.kp_client_debug_session_dial_timeout;
  initial_max_pki_retrieval_delay = n.kp_client_debug_initial_max_pki_delay;
  polling_interval = n.kp_client_debug_polling_interval;
  enable_time_sync = n.kp_client_debug_enable_time_sync;
}

unfoldable pub debug_server_of : NetworkInfo → ServerDebug
debug_server_of n = record {
  connect_timeout = n.kp_debug_connect_timeout;
  decoy_slack = n.kp_debug_decoy_slack;
  disable_rate_limit = n.kp_debug_disable_rate_limit;
  gateway_delay = n.kp_debug_gateway_delay;
  generate_only = n.kp_debug_generate_only;
  handshake_timeout = n.kp_debug_handshake_timeout;
  kaetzchen_delay = n.kp_debug_kaetzchen_delay;
  num_gateway_workers = n.kp_debug_num_gateway_workers;
  num_kaetzchen_workers = n.kp_debug_num_kaetzchen_workers;
  num_service_workers = n.kp_debug_num_service_workers;
  num_sphinx_workers = n.kp_debug_num_sphinx_workers;
  reauth_interval = n.kp_debug_reauth_interval;
  scheduler_external_memory_queue = n.kp_debug_scheduler_external_memory_queue;
  scheduler_max_burst = n.kp_debug_scheduler_max_burst;
  scheduler_queue_size = n.kp_debug_scheduler_queue_size;
  scheduler_slack = n.kp_debug_scheduler_slack;
  send_decoy_traffic = n.kp_debug_send_decoy_traffic;
  send_slack = n.kp_debug_send_slack;
  service_delay = n.kp_debug_service_delay;
  unwrap_delay = n.kp_debug_unwrap_delay;
}
