-- ===== src/Genconfig/Elsewhere.antt =====
-- What the steps of a run of Genconfig leave of the authority's files.
use opt.Base.{
  ◌+◌, ◌≡◌, sym, ap, ◌∙◌, List, [], ◌∷◌, ◌++◌, map, none, some, Bool, true, false, Bytes, bytes_eq,
  arith, Option-cases, inl, inr, All,
}
use opt.Base.Texts.{bytes_of}
use opt.Base.Outcome.{Outcome, ok-inj, ok}
use opt.Genconfig.Types.{
  Tools, ReadsOwn, Config, toml, client, client2, node, authority, Key, Katzenpost, NodeConfig,
  PinnedGateway, ClientConfig, Client2Config,
}
use opt.Genconfig.Disk.{
  World, M, ◌>>◌, pure, fail, read_file, cfg_id_key, cfg_link_key, save_cfg, identifier_of,
  toml_name, write,
}
use opt.Genconfig.Disk.Laws.{
  >>=-ok_inv, read_file-skip_one, path_eq-folder, path_eq-file, save_cfg-files,
}
use opt.Genconfig.Nodes.{sorted_peers, node_config, count_node, gen_node_config}
use opt.Genconfig.OnDisk.{keys-elsewhere}
use opt.Genconfig.Pinned.{pin_gateways-elsewhere}
use opt.Genconfig.Run.{pin_gateways, gen_client_cfg, gen_client2_cfg, save_all}

abbrev Counted : Type 0
Counted = Katzenpost × NodeConfig

-- A step of the node leaves the authority's part of the run's state.
abbrev pub SameAuthority : Katzenpost → Katzenpost → Type 0
SameAuthority s s' =
    (s'.authorities ≡ s.authorities) × (s'.voting_auth_configs ≡ s.voting_auth_configs)

module _ (t : Tools) (all : (p : Bytes × Bytes) → t.creatable p ≡ true) (reads : ReadsOwn t) where
  count_node-elsewhere :
      (s : Katzenpost) (id other file : Bytes) (g sv : Bool) (cfg : NodeConfig) (w w' : World)
      (made : Counted)
      → count_node t s id g sv cfg w ≡ (ok made, w')
      → bytes_eq id other ≡ false
      → (read_file (other, file) w'.files ≡ read_file (other, file) w.files)
        × SameAuthority s made.0
        × (made.0.node_configs ≡ s.node_configs)
        × (made.1.identifier ≡ cfg.identifier)
  unfolding count_node write read_file
  count_node-elsewhere s id other file g sv cfg w w' made h apart =
      let here = path_eq-folder id other (bytes_of "http_proxy_config.toml") file apart in
      let can = all (id, bytes_of "http_proxy_config.toml") in ground arith

  abbrev added : Counted → NodeConfig → Katzenpost
  added counted cfg = record (counted.0) { node_configs = (counted.0).node_configs ++ (cfg ∷ []) }

  abbrev last_step : Counted → M Katzenpost
  last_step counted = elim (t.fixup_and_validate counted.1) [
    | none ↦ fail "node config is not valid"
    | some cfg ↦ pure (added counted cfg)
  ]

  last_step_lem :
      (counted : Counted) (w w' : World) (s' : Katzenpost)
      → last_step counted w ≡ (ok s', w')
      → (w ≡ w')
        × ((cfg : NodeConfig) × (t.fixup_and_validate counted.1 ≡ some cfg)
            × (s' ≡ added counted cfg))
  last_step_lem counted w w' s' h = elim (Option-cases (t.fixup_and_validate counted.1)) [
    | inl n ↦ absurd (ground arith)
    | inr (cfg, n) ↦
        let done : ◌≡◌ {A = Outcome Katzenpost × World} (ok (added counted cfg), w) (ok s', w') =
          ground arith in
        (
          ap (λ (r : Outcome Katzenpost × World). r.1) done,
          (cfg, n, sym (ok-inj (ap (λ (r : Outcome Katzenpost × World). r.0) done))),
        )
  ]

  -- The node of a run: the authority's files and part stay, and one node is added.
  pub gen_node_config-elsewhere :
      (s : Katzenpost) (id other file : Bytes) (g sv vt : Bool) (w w' : World) (s' : Katzenpost)
      → gen_node_config t s id g sv vt w ≡ (ok s', w')
      → bytes_eq id other ≡ false
      → (read_file (other, file) w'.files ≡ read_file (other, file) w.files)
        × SameAuthority s s'
        × ((bare cfg : NodeConfig) × (bare.identifier ≡ id)
            × (t.fixup_and_validate bare ≡ some cfg)
            × (s'.node_configs ≡ s.node_configs ++ (cfg ∷ [])))
  unfolding gen_node_config node_config
  gen_node_config-elsewhere s id other file g sv vt w w' s' h apart =
      let bare = node_config t s id g sv vt in
      let (counted, u, hc, h1) =
        >>=-ok_inv (count_node t s id g sv bare)
          (λ (c : Counted).
            cfg_id_key t id (c.1).pki_signature_scheme
            >> (cfg_link_key t id s.wire_kem_scheme >> last_step c))
          w w' s' h in
      let (identity, v, hi, h2) =
        >>=-ok_inv (cfg_id_key t id (counted.1).pki_signature_scheme)
          (λ (k : Key). cfg_link_key t id s.wire_kem_scheme >> last_step counted) u w' s' h1 in
      let (link, x, hl, h3) =
        >>=-ok_inv (cfg_link_key t id s.wire_kem_scheme) (λ (k : Key). last_step counted) v w' s'
          h2 in
      let (same, auths, nodes, named) =
        count_node-elsewhere s id other file g sv bare w u counted hc apart in
      let (world, rest) = last_step_lem counted x w' s' h3 in
      let (cfg, fixed, s_is) = rest in
      let keys =
        keys-elsewhere t all reads id other (counted.1).pki_signature_scheme s.wire_kem_scheme file
          u v x identity link hi hl apart in
      (
        ap (λ (y : World). read_file (other, file) y.files) (sym world) ∙ keys ∙ same,
        (
          ap (λ (k : Katzenpost). k.authorities) s_is ∙ auths.0,
          ap (λ (k : Katzenpost). k.voting_auth_configs) s_is ∙ auths.1,
        ),
        (
          counted.1,
          cfg,
          named,
          fixed,
          ap (λ (k : Katzenpost). k.node_configs) s_is ∙ ap (λ l. l ++ (cfg ∷ [])) nodes,
        ),
      )

  -- A file of the authority that no other configuration is written to.
  abbrev pub Foreign : Bytes → Type 0
  Foreign file =
      (bytes_eq (bytes_of "katzenpost.toml") file ≡ false)
      × (bytes_eq (bytes_of "client.toml") file ≡ false)

  abbrev pub NotAuthority : Config → Type 0
  NotAuthority (client c) = Unit
  NotAuthority (client2 c) = Unit
  NotAuthority (node c) = Unit
  NotAuthority (authority c) = ⊥

  pub save_cfg-elsewhere :
      (cfg : Config) (other file : Bytes) (w w' : World)
      → save_cfg t cfg w ≡ (ok tt, w')
      → NotAuthority cfg
      → Foreign file
      → read_file (other, file) w'.files ≡ read_file (other, file) w.files
  unfolding toml_name
  save_cfg-elsewhere cfg other file w w' h n f =
      ap (read_file (other, file)) (save_cfg-files t all cfg w w' h)
      ∙ read_file-skip_one (identifier_of t cfg, toml_name t cfg ++ bytes_of ".toml") (other, file)
          (toml cfg) w.files
          (path_eq-file (identifier_of t cfg) other (toml_name t cfg ++ bytes_of ".toml") file
            (differs cfg n))
    where
      differs :
          (cfg : Config)
          → NotAuthority cfg
          → bytes_eq (toml_name t cfg ++ bytes_of ".toml") file ≡ false
      differs (client c) n = f.1
      differs (client2 c) n = f.1
      differs (node c) n = f.0
      differs (authority c) n = absurd n

  pub save_all-elsewhere :
      (cs : List NodeConfig) (other file : Bytes) (w w' : World)
      → save_all t (map node cs) w ≡ (ok tt, w')
      → Foreign file
      → read_file (other, file) w'.files ≡ read_file (other, file) w.files
  unfolding save_all
  save_all-elsewhere [] other file w w' h f =
      ap (λ (r : Outcome (Unit {0}) × World). read_file (other, file) r.1.files) (sym h)
  save_all-elsewhere (c ∷ cs) other file w w' h f =
      let (done, v, hc, h1) =
        >>=-ok_inv (save_cfg t (node c)) (λ u. save_all t (map node cs)) w w' tt h in
      save_all-elsewhere cs other file v w' h1 f
      ∙ save_cfg-elsewhere (node c) other file w v hc tt f

  -- What the configuration of the clients leaves alone.
  pub gen_client_cfg-elsewhere :
      (s s' : Katzenpost) (other file : Bytes) (w w' : World)
      → gen_client_cfg t s w ≡ (ok s', w')
      → Foreign file
      → (read_file (other, file) w'.files ≡ read_file (other, file) w.files)
        × (s'.node_configs ≡ s.node_configs)
  unfolding gen_client_cfg
  gen_client_cfg-elsewhere s s' other file w w' h f =
      let cfg : ClientConfig = record {
        ratchet_nike_scheme = s.ratchet_nike_scheme;
        wire_kem_scheme = s.wire_kem_scheme;
        pki_signature_scheme = s.pki_signature_scheme;
        sphinx_geometry = s.sphinx_geometry;
        log_level = s.log_level;
        peers = sorted_peers s.authorities;
        debug = s.debug_config_client1;
      } in
      let counted : Katzenpost = record s { client_idx = s.client_idx + 1 } in
      let (done, v, hc, h1) = >>=-ok_inv (save_cfg t (client cfg)) (λ u. pure counted) w w' s' h in
      (
        ap (λ (r : Outcome Katzenpost × World). read_file (other, file) r.1.files) (sym h1)
            ∙ save_cfg-elsewhere (client cfg) other file w v hc tt f,
        ap (λ (k : Katzenpost). k.node_configs)
            (sym (ok-inj (ap (λ (r : Outcome Katzenpost × World). r.0) h1))),
      )

  pub gen_client2_cfg-elsewhere :
      (s : Katzenpost) (other file : Bytes) (w w' : World)
      → gen_client2_cfg t s w ≡ (ok tt, w')
      → Foreign file
      → All (λ c. bytes_eq c.identifier other ≡ false) s.node_configs
      → read_file (other, file) w'.files ≡ read_file (other, file) w.files
  unfolding gen_client2_cfg
  gen_client2_cfg-elsewhere s other file w w' h f apart =
      let cfg : List PinnedGateway → Client2Config = λ gateways. record {
        listen_network = bytes_of "tcp";
        listen_address = bytes_of "localhost:64331";
        pki_signature_scheme = s.pki_signature_scheme;
        wire_kem_scheme = s.wire_kem_scheme;
        sphinx_geometry = s.sphinx_geometry;
        log_level = bytes_of "DEBUG";
        peers = sorted_peers s.authorities;
        debug = s.debug_config_client2;
        pinned_gateways = gateways;
      } in
      let (gateways, v, hp, h1) =
        >>=-ok_inv (pin_gateways t s s.node_configs) (λ g. save_cfg t (client2 (cfg g))) w w' tt
          h in
      save_cfg-elsewhere (client2 (cfg gateways)) other file v w' h1 tt f
      ∙ pin_gateways-elsewhere t all reads s s.node_configs other file w v gateways hp apart
