-- ===== src/Genconfig/Input.antt =====
-- The input of genconfig: its checks, and the state that a run starts with.
use opt.Base.{
  ℕ, ◌-◌, ◌+◌, ◌%◌, [], ◌∷◌, Option, none, some, Bool, true, false, not, ◌&&◌, Bytes, bytes_eq,
  if◌then◌else◌,
}
use opt.Base.Int.{ℤ, pos, negsuc, pos_part, neg_part, sub_ℕ}
use opt.Base.Texts.{bytes_of}
use opt.Base.Outcome.{Outcome, ok, err, panics}
use opt.Genconfig.Network.{NetworkInfo, debug_client1_of, debug_client2_of, debug_server_of}
use opt.Genconfig.Identifier.{identifier_is_valid}
use opt.Genconfig.Types.{Tools, Geometry, Katzenpost}

-- GenconfigInput.
pub record GenconfigInput : Type 0 where
  pub addr : Bytes
  pub addr_bind : Bytes
  pub base_dir : Bytes
  pub base_port : ℤ
  pub bin_prefix : Bytes
  pub bin_suffix : Bytes
  pub cfg_type : Bytes
  pub identifier : Bytes
  pub log_level : Bytes
  pub metrics : Bytes
  pub transport : Bytes

-- The kinds of configuration: what the flag -type names.
pub data Kind : Type 0 where
  mix gateway servicenode client1_kind client2_kind : Kind

unfoldable pub kind_of : Bytes → Option Kind
kind_of s =
    if bytes_eq s (bytes_of "mix")
    then some mix
    else if bytes_eq s (bytes_of "gateway")
    then some gateway
    else if bytes_eq s (bytes_of "servicenode")
    then some servicenode
    else if bytes_eq s (bytes_of "client1")
    then some client1_kind
    else if bytes_eq s (bytes_of "client2")
    then some client2_kind
    else none

abbrev pub is_empty : Bytes → Bool
is_empty [] = true
is_empty (c ∷ s) = false

infixl 65 ◌+ℤ◌
abbrev ◌+ℤ◌ : ℤ → ℤ → ℤ
a +ℤ b = sub_ℕ (pos_part a + pos_part b) (neg_part a + neg_part b)

-- uint16(basePort): the low 16 bits.
unfoldable pub to_uint16 : ℤ → ℕ
to_uint16 (pos n) = n % 65536
to_uint16 (negsuc n) = 65535 - n % 65536

-- The checks of the input, in their order, and the kind that it asks for.
unfoldable pub check_input : GenconfigInput → NetworkInfo → Outcome Kind
unfolding identifier_is_valid kind_of
check_input gi net =
    if is_empty net.kp_config_wirekem
    then err "wire KEM must be set"
    else if is_empty net.kp_config_kem && is_empty net.kp_config_nike
    then err "either nike or kem must be set"
    else if not (is_empty net.kp_config_kem) && not (is_empty net.kp_config_nike)
    then err "nike and kem flags cannot both be set"
    else if is_empty net.kp_config_ratchet_nike
    then err "ratchetNike must be set"
    else if is_empty net.kp_config_pki_signature_scheme
    then err "pkiSignatureScheme must be set"
    else if not (is_empty gi.identifier) && not (identifier_is_valid gi.identifier)
    then err "Invalid identifier"
    else elim (kind_of gi.cfg_type) [
      | none ↦ err (if is_empty gi.cfg_type then "type must be set" else "invalid type")
      | some kind ↦ ok kind
    ]

-- The Sphinx geometry, by the NIKE or the KEM that is set.
unfoldable pub geometry_of : Tools → NetworkInfo → Outcome Geometry
geometry_of t net =
    let hops = net.kp_misc_topology_layers +ℤ pos 2 in
    let size = net.kp_config_user_forward_payload_length in
    if is_empty net.kp_config_nike
    then (if is_empty net.kp_config_kem
        then ok []
        else if t.kem_known net.kp_config_kem
        then ok (t.kem_geometry net.kp_config_kem size hops)
        else err "failed to resolve kem scheme")
    else if t.nike_known net.kp_config_nike
    then (if is_empty net.kp_config_kem
        then ok (t.nike_geometry net.kp_config_nike size hops)
        else if t.kem_known net.kp_config_kem
        then ok (t.kem_geometry net.kp_config_kem size hops)
        else err "failed to resolve kem scheme")
    else err "failed to resolve nike scheme"

-- The state that the run starts with.
unfoldable pub start_state : Tools → GenconfigInput → NetworkInfo → Outcome Katzenpost
unfolding geometry_of to_uint16 debug_client1_of debug_client2_of debug_server_of
start_state t gi net =
    if t.kem_known net.kp_config_wirekem
    then elim (geometry_of t net) [
      | err e ↦ err e
      | panics ↦ panics
      | ok geometry ↦ elim (t.sign_by_name net.kp_config_pki_signature_scheme) [
        | none ↦ err "failed to resolve pki signature scheme"
        | some scheme ↦ ok record {
          base_dir = gi.base_dir;
          bin_prefix = gi.bin_prefix;
          bin_suffix = gi.bin_suffix;
          log_level = gi.log_level;
          ratchet_nike_scheme = net.kp_config_ratchet_nike;
          wire_kem_scheme = net.kp_config_wirekem;
          pki_signature_scheme = scheme;
          sphinx_geometry = geometry;
          voting_auth_configs = [];
          authorities = [];
          node_configs = [];
          base_port = to_uint16 gi.base_port;
          last_port = (to_uint16 gi.base_port + 1) % 65536;
          addr = gi.addr;
          addr_bind = gi.addr_bind;
          node_idx = 0;
          client_idx = 0;
          gateway_idx = 0;
          service_node_idx = 0;
          has_panda = false;
          has_proxy = false;
          transport = gi.transport;
          metrics = gi.metrics;
          debug_config_client1 = debug_client1_of net;
          debug_config_client2 = debug_client2_of net;
          debug_config_server = debug_server_of net;
        }
      ]
    ]
    else err "invalid wire KEM scheme"

abbrev pub is_voting : Kind → Bool
is_voting mix = true
is_voting gateway = true
is_voting servicenode = true
is_voting client1_kind = false
is_voting client2_kind = false
