-- ===== src/Genconfig/Nodes.antt =====
-- The configuration of a node (genNodeConfig) and of its authority (genVotingAuthoritiesCfg), from
-- genconfig/genconfig.go.
use opt.Base.{
  bytes_less, ℕ, zero, suc, ◌+◌, ◌%◌, List, [], ◌∷◌, ◌++◌, map, none, some, Bool, true, not, ◌||◌,
  Bytes, Map, insert, if◌then◌else◌, ◌&&◌,
}
use opt.Base.Int.{ℤ, pos}
use opt.Base.Texts.{bytes_of, itoa}
use opt.Authority.Types.{Parameters}
use opt.Genconfig.Types.{Tools, Peer, NodeConfig, AuthorityConfig, Katzenpost, Key}
use opt.Genconfig.Disk.{M, ◌>>=◌, ◌>>◌, pure, fail, save_file_contents, cfg_id_key, cfg_link_key}
use opt.Genconfig.Plugins.{plugins_of}

-- sort.Sort by the identifier: AuthById and NodeById.
module _ {A : Type 0} (id_of : A → Bytes) where
  unfoldable pub insert_by_id : A → List A → List A
  insert_by_id x [] = x ∷ []
  insert_by_id x (y ∷ ys) =
      if bytes_less (id_of y) (id_of x) then y ∷ insert_by_id x ys else x ∷ y ∷ ys

  unfoldable pub sort_by_id : List A → List A
  unfolding insert_by_id
  sort_by_id [] = []
  sort_by_id (x ∷ xs) = insert_by_id x (sort_by_id xs)

-- The peers of the authority, in the order of their identifiers.
unfoldable pub sorted_peers : Map Peer → List Peer
sorted_peers m = sort_by_id (λ p. p.identifier) (map (λ e. e.1) m)

-- fmt.Sprintf("%s://%s:%d", transport, host, port)
unfoldable pub address : Bytes → Bytes → ℕ → Bytes
address transport host port = transport ++ (bytes_of "://" ++ (host ++ (bytes_of ":" ++ itoa port)))

module _ (t : Tools) where
  -- The configuration before keys and validation.
  unfoldable pub node_config : Katzenpost → Bytes → Bool → Bool → Bool → NodeConfig
  unfolding plugins_of sorted_peers address
  node_config s id is_gateway is_service is_voting = record {
    sphinx_geometry = s.sphinx_geometry;
    wire_kem = s.wire_kem_scheme;
    pki_signature_scheme = s.pki_signature_scheme;
    identifier = id;
    addresses = address s.transport s.addr s.base_port ∷ [];
    bind_addresses = elim s.addr_bind [
      | [] ↦ []
      | c ∷ cs ↦ address s.transport (c ∷ cs) s.base_port ∷ []
    ];
    data_dir = s.base_dir ∷ id ∷ [];
    is_gateway_node = is_gateway;
    is_service_node = is_service;
    management = is_gateway || is_service;
    metrics_address = s.metrics;
    debug = s.debug_config_server;
    voting = if is_voting then some (sorted_peers s.authorities) else none;
    log_file = bytes_of "katzenpost.log";
    log_level = s.log_level;
    service_node =
        if is_service
        then some record {
          plugins = plugins_of s id;
          kaetzchen =
              (bytes_of "echo", bytes_of "+echo")
              ∷ (bytes_of "testdest", bytes_of "+testdest")
              ∷ [];
        }
        else none;
    gateway = not is_service && is_gateway;
  }

  -- The first service node: its workers are four, and the plugin's file names no network. The debug
  -- section is shared with the run's own.
  unfoldable pub with_proxy_file : Katzenpost → Bytes → NodeConfig → M (Katzenpost × NodeConfig)
  unfolding save_file_contents
  with_proxy_file s id cfg =
      let debug = record (s.debug_config_server) { num_kaetzchen_workers = pos 4 } in
      do
        save_file_contents t (id, bytes_of "http_proxy_config.toml") (bytes_of "[Networks]\n")
        pure (
          record s { has_panda = true; has_proxy = true; debug_config_server = debug },
          record cfg { debug = debug },
        )

  -- The counters, and what a service node adds.
  unfoldable pub count_node :
      Katzenpost → Bytes → Bool → Bool → NodeConfig → M (Katzenpost × NodeConfig)
  unfolding with_proxy_file
  count_node s id is_gateway is_service cfg =
      if is_service
      then (let s' = record s { service_node_idx = s.service_node_idx + 1 } in
          if s.has_panda then pure (s', cfg) else with_proxy_file s' id cfg)
      else pure (
          if is_gateway
          then (record s { gateway_idx = s.gateway_idx + 1 }, cfg)
          else (record s { node_idx = s.node_idx + 1 }, cfg))

  -- genNodeConfig: FixupAndValidate sees the configuration that the list holds.
  unfoldable pub gen_node_config : Katzenpost → Bytes → Bool → Bool → Bool → M Katzenpost
  unfolding node_config count_node cfg_id_key cfg_link_key
  gen_node_config s id is_gateway is_service is_voting = do
    counted ←
        count_node s id is_gateway is_service (node_config s id is_gateway is_service is_voting)
    cfg_id_key t id (counted.1).pki_signature_scheme
    cfg_link_key t id s.wire_kem_scheme
    elim (t.fixup_and_validate counted.1) [
      | none ↦ fail "node config is not valid"
      | some cfg ↦ pure record (counted.0) { node_configs = (counted.0).node_configs ++ (cfg ∷ []) }
    ]

  abbrev pub authority_addresses : Katzenpost → List Bytes
  unfolding address
  authority_addresses s = address s.transport (bytes_of "127.0.0.1") s.last_port ∷ []

  -- What the others are told of an authority.
  unfoldable pub new_peer : Katzenpost → Bytes → Bytes → Key → Key → Peer
  unfolding address
  new_peer s id wirekem id_key link_key = record {
    identifier = id;
    identity_public_key = id_key;
    link_public_key = link_key;
    wire_kem_scheme = wirekem;
    pki_signature_scheme = s.pki_signature_scheme;
    addresses = authority_addresses s;
  }

  unfoldable pub new_authority_config : Katzenpost → Bytes → Parameters → ℤ → AuthorityConfig
  unfolding address
  new_authority_config s id parameters layers = record {
    sphinx_geometry = s.sphinx_geometry;
    wire_kem_scheme = s.wire_kem_scheme;
    pki_signature_scheme = s.pki_signature_scheme;
    identifier = id;
    addresses = authority_addresses s;
    data_dir = s.base_dir ∷ id ∷ [];
    log_file = bytes_of "katzenpost.log";
    log_level = s.log_level;
    parameters = parameters;
    layers = layers;
    min_nodes_per_layer = 1;
    authorities = [];
    mixes = [];
    gateway_nodes = [];
    service_nodes = [];
  }

  -- One round of the first loop of genVotingAuthoritiesCfg: the authority's keys and its port.
  unfoldable pub gen_authority :
      Katzenpost → Bytes → Parameters → ℤ → Bytes → M (Katzenpost × AuthorityConfig)
  unfolding cfg_id_key cfg_link_key new_peer new_authority_config
  gen_authority s id parameters layers wirekem = do
    id_key ← cfg_id_key t id s.pki_signature_scheme
    link_key ← cfg_link_key t id wirekem
    pure (
      record s {
        last_port = (s.last_port + 1) % 65536;
        authorities =
            insert (t.sum256 id_key) (new_peer s id wirekem id_key link_key) s.authorities;
      },
      new_authority_config s id parameters layers,
    )

  unfoldable pub gen_authorities :
      ℕ
      → Katzenpost
      → List AuthorityConfig
      → Bytes
      → Parameters
      → ℤ
      → Bytes
      → M (Katzenpost × List AuthorityConfig)
  unfolding gen_authority
  gen_authorities zero s configs id parameters layers wirekem = pure (s, configs)
  gen_authorities (suc n) s configs id parameters layers wirekem = do
    made ← gen_authority s id parameters layers wirekem
    gen_authorities n made.0 (configs ++ (made.1 ∷ [])) id parameters layers wirekem

  unfoldable pub gen_voting_authorities_cfg :
      Katzenpost → Bytes → ℕ → Parameters → ℤ → Bytes → M Katzenpost
  unfolding gen_authorities sorted_peers
  gen_voting_authorities_cfg s id n parameters layers wirekem = do
    made ← gen_authorities n record s { authorities = [] } [] id parameters layers wirekem
    pure record (made.0) {
      voting_auth_configs =
          map
            (λ (c : AuthorityConfig). record c { authorities = sorted_peers (made.0).authorities })
            made.1;
    }
