-- ===== src/Genconfig/Run.antt =====
-- genClientCfg, genClient2Cfg, genAuthorizedNodes, and Genconfig itself.
use opt.Base.{
  ◌+◌, List, [], ◌∷◌, ◌++◌, map, Option, none, some, Bool, true, false, not, ◌&&◌, Bytes,
  if◌then◌else◌,
}
use opt.Base.Texts.{bytes_of}
use opt.Base.Outcome.{Outcome}
use opt.Genconfig.Network.{NetworkInfo, parameters_of}
use opt.Genconfig.Types.{
  Tools, Config, client, client2, node, authority, Node, NodeConfig, AuthorityConfig, PinnedGateway,
  Katzenpost,
}
use opt.Genconfig.Disk.{M, ◌>>=◌, ◌>>◌, pure, fail, save_cfg, cfg_id_key, cfg_link_key}
use opt.Genconfig.Nodes.{sort_by_id, sorted_peers, gen_node_config, gen_voting_authorities_cfg}
use opt.Genconfig.Input.{
  GenconfigInput, Kind, mix, gateway, servicenode, client1_kind, client2_kind, is_empty,
  check_input, start_state, is_voting,
}

-- The gateways, the service nodes and the mixes among the nodes.
abbrev pub listed_node : NodeConfig → Node
listed_node c = record {
  identifier = c.identifier;
  identity_public_key_pem = bytes_of ".." ∷ c.identifier ∷ bytes_of "identity.public.pem" ∷ [];
}

unfoldable pub nodes_where : (NodeConfig → Bool) → List NodeConfig → List Node
nodes_where p [] = []
nodes_where p (c ∷ cs) = (if p c then listed_node c ∷ [] else []) ++ nodes_where p cs

unfoldable pub gen_authorized_nodes : List NodeConfig → List Node × List Node × List Node
unfolding nodes_where sort_by_id
gen_authorized_nodes cs = (
  sort_by_id (λ n. n.identifier) (nodes_where (λ c. c.is_gateway_node) cs),
  sort_by_id (λ n. n.identifier) (nodes_where (λ c. not c.is_gateway_node && c.is_service_node) cs),
  sort_by_id (λ n. n.identifier)
      (nodes_where (λ c. not c.is_gateway_node && not c.is_service_node) cs),
)

module _ (t : Tools) where
  unfoldable pub gen_client_cfg : Katzenpost → M Katzenpost
  unfolding sorted_peers save_cfg
  gen_client_cfg s = do
    save_cfg t (
        client record {
          ratchet_nike_scheme = s.ratchet_nike_scheme;
          wire_kem_scheme = s.wire_kem_scheme;
          pki_signature_scheme = s.pki_signature_scheme;
          sphinx_geometry = s.sphinx_geometry;
          log_level = s.log_level;
          peers = sorted_peers s.authorities;
          debug = s.debug_config_client1;
        })
    pure record s { client_idx = s.client_idx + 1 }

  -- A gateway with its keys: the link keys are made anew.
  unfoldable pub pin_gateway : Katzenpost → NodeConfig → M PinnedGateway
  unfolding cfg_id_key cfg_link_key
  pin_gateway s c = do
    id_key ← cfg_id_key t c.identifier c.pki_signature_scheme
    link_key ← cfg_link_key t c.identifier s.wire_kem_scheme
    pure record {
      pki_signature_scheme = s.pki_signature_scheme;
      wire_kem_scheme = s.wire_kem_scheme;
      name = c.identifier;
      identity_key = id_key;
      link_key = link_key;
      addresses = c.addresses;
    }

  unfoldable pub pin_gateways : Katzenpost → List NodeConfig → M (List PinnedGateway)
  unfolding pin_gateway
  pin_gateways s [] = pure []
  pin_gateways s (c ∷ cs) =
      let rest = pin_gateways s cs in
      if c.gateway then (do g ← pin_gateway s c; others ← rest; pure (g ∷ others)) else rest

  unfoldable pub gen_client2_cfg : Katzenpost → M (Unit {0})
  unfolding sorted_peers save_cfg pin_gateways
  gen_client2_cfg s = do
    gateways ← pin_gateways s s.node_configs
    save_cfg t (
        client2 record {
          listen_network = bytes_of "tcp";
          listen_address = bytes_of "localhost:64331";
          pki_signature_scheme = s.pki_signature_scheme;
          wire_kem_scheme = s.wire_kem_scheme;
          sphinx_geometry = s.sphinx_geometry;
          log_level = bytes_of "DEBUG";
          peers = sorted_peers s.authorities;
          debug = s.debug_config_client2;
          pinned_gateways = gateways;
        })

  unfoldable pub save_all : List Config → M (Unit {0})
  unfolding save_cfg
  save_all [] = pure tt
  save_all (c ∷ cs) = do save_cfg t c; save_all cs

abbrev pub lift : {A : Type 0} → Outcome A → M A
lift r w = (r, w)

module _ (t : Tools) where
  -- The loops over the gateways, the service nodes and the mixes, of which one runs once.
  unfoldable pub gen_nodes : Kind → Katzenpost → Bytes → M Katzenpost
  unfolding gen_node_config
  gen_nodes mix s id = gen_node_config t s id false false true
  gen_nodes gateway s id = gen_node_config t s id true false true
  gen_nodes servicenode s id = gen_node_config t s id false true true
  gen_nodes client1_kind s id = pure s
  gen_nodes client2_kind s id = pure s

  unfoldable pub gen_authority_of : Kind → Katzenpost → Bytes → NetworkInfo → M Katzenpost
  unfolding gen_voting_authorities_cfg parameters_of
  gen_authority_of kind s id net =
      if is_voting kind
      then gen_voting_authorities_cfg t s (id ++ bytes_of "-auth") 1 (parameters_of net)
          net.kp_misc_topology_layers net.kp_config_wirekem
      else pure s

  -- An authority's configuration with the nodes, by their roles.
  abbrev pub with_nodes : List NodeConfig → AuthorityConfig → AuthorityConfig
  with_nodes cs c =
      let lists = gen_authorized_nodes cs in
      record c { mixes = lists.2; gateway_nodes = lists.0; service_nodes = lists.1 }

  unfoldable pub save_authorities : Kind → Katzenpost → M (Unit {0})
  unfolding gen_authorized_nodes save_all
  save_authorities kind s =
      if is_voting kind
      then save_all t (
          map (λ (c : AuthorityConfig). authority (with_nodes s.node_configs c))
            s.voting_auth_configs)
      else pure tt

  -- The authorities' configurations name the nodes, and are written before the nodes' own.
  unfoldable pub save_nodes : Kind → Katzenpost → M (Unit {0})
  unfolding save_authorities save_all
  save_nodes kind s = do save_authorities kind s; save_all t (map node s.node_configs)

  unfoldable pub save_clients : Kind → Katzenpost → M (Unit {0})
  unfolding gen_client_cfg gen_client2_cfg
  save_clients gateway s = do s' ← gen_client_cfg t s; gen_client2_cfg t s'
  save_clients client1_kind s = do gen_client_cfg t s; pure tt
  save_clients client2_kind s = gen_client2_cfg t s
  save_clients mix s = pure tt
  save_clients servicenode s = pure tt

  -- From the check of the input on; without an identifier the type is the identifier.
  unfoldable pub generate : GenconfigInput → NetworkInfo → M (Unit {0})
  unfolding check_input start_state gen_authority_of gen_nodes save_nodes save_clients
  generate gi net = do
    kind ← lift (check_input gi net)
    s ← lift (start_state t gi net)
    let id = if is_empty gi.identifier then gi.cfg_type else gi.identifier
    with_authority ← gen_authority_of kind s id net
    with_node ← gen_nodes kind with_authority id
    save_nodes kind with_node
    save_clients kind with_node

  -- The network's file cannot be read or decoded, or holds the network's parameters.
  unfoldable pub genconfig : GenconfigInput → Option NetworkInfo → M (Unit {0})
  unfolding generate
  genconfig gi none = fail "Error reading or decoding the network info"
  genconfig gi (some net) = generate gi net
