-- ===== src/Genconfig/Saved.antt =====
-- What the later steps of a run of Genconfig do to the authority's files.
use opt.Base.{
  ℕ, ◌≡◌, refl, sym, ap, ◌∙◌, subst, List, [], ◌∷◌, ◌++◌, map, some, Bool, true, false, Bytes,
  bytes_eq, if◌then◌else◌, arith, All,
}
use opt.Base.Texts.{bytes_of}
use opt.Base.Outcome.{Outcome, ok}
use opt.Genconfig.Types.{
  Tools, ReadsOwn, toml, node, authority, Katzenpost, NodeConfig, AuthorityConfig,
}
use opt.Genconfig.Disk.{World, M, ◌>>◌, pure, read_file, save_cfg, identifier_of, toml_name}
use opt.Genconfig.Disk.Laws.{
  >>=-ok_inv, read_file-first, read_file-skip_one, path_eq-file, save_cfg-files,
}
use opt.Genconfig.Elsewhere.{
  Foreign, SameAuthority, gen_node_config-elsewhere, save_all-elsewhere, gen_client_cfg-elsewhere,
  gen_client2_cfg-elsewhere,
}
use opt.Genconfig.Input.{Kind, mix, gateway, servicenode, client1_kind, client2_kind, is_voting}
use opt.Genconfig.Run.{
  save_authorities, with_nodes, gen_nodes, save_nodes, save_clients, save_all, gen_client_cfg,
  gen_client2_cfg,
}

pub longer_differs : (s : Bytes) (c : ℕ) (more : Bytes) → bytes_eq s (s ++ (c ∷ more)) ≡ false
unfolding bytes_eq
longer_differs [] c more = refl
longer_differs (d ∷ s) c more = ground (arith, longer_differs s c more)

abbrev pub auth_folder : Bytes → Bytes
auth_folder id = id ++ bytes_of "-auth"

module _ (t : Tools) (all : (p : Bytes × Bytes) → t.creatable p ≡ true) (reads : ReadsOwn t)
    (keeps_name : (c d : NodeConfig)
      → t.fixup_and_validate c ≡ some d
      → d.identifier ≡ c.identifier) where
  -- The node's part of the run, for the kinds that have an authority.
  pub gen_nodes-elsewhere :
      (kind : Kind) (s : Katzenpost) (id other file : Bytes) (w w' : World) (s' : Katzenpost)
      → is_voting kind ≡ true
      → gen_nodes t kind s id w ≡ (ok s', w')
      → bytes_eq id other ≡ false
      → (read_file (other, file) w'.files ≡ read_file (other, file) w.files)
        × SameAuthority s s'
        × ((bare cfg : NodeConfig) × (bare.identifier ≡ id)
            × (t.fixup_and_validate bare ≡ some cfg)
            × (s'.node_configs ≡ s.node_configs ++ (cfg ∷ [])))
  unfolding gen_nodes
  gen_nodes-elsewhere mix s id other file w w' s' v h a =
      gen_node_config-elsewhere t all reads s id other file false false true w w' s' h a
  gen_nodes-elsewhere gateway s id other file w w' s' v h a =
      gen_node_config-elsewhere t all reads s id other file true false true w w' s' h a
  gen_nodes-elsewhere servicenode s id other file w w' s' v h a =
      gen_node_config-elsewhere t all reads s id other file false true true w w' s' h a
  gen_nodes-elsewhere client1_kind s id other file w w' s' v h a = cc
  gen_nodes-elsewhere client2_kind s id other file w w' s' v h a = cc

  pub save_clients-elsewhere :
      (kind : Kind) (s : Katzenpost) (other file : Bytes) (w w' : World)
      → save_clients t kind s w ≡ (ok tt, w')
      → Foreign t all reads file
      → All (λ c. bytes_eq c.identifier other ≡ false) s.node_configs
      → read_file (other, file) w'.files ≡ read_file (other, file) w.files
  unfolding save_clients
  save_clients-elsewhere mix s other file w w' h f a =
      ap (λ (r : Outcome (Unit {0}) × World). read_file (other, file) r.1.files) (sym h)
  save_clients-elsewhere servicenode s other file w w' h f a =
      ap (λ (r : Outcome (Unit {0}) × World). read_file (other, file) r.1.files) (sym h)
  save_clients-elsewhere gateway s other file w w' h f a =
      let (s', v, hc, h1) =
        >>=-ok_inv (gen_client_cfg t s) (λ s'. gen_client2_cfg t s') w w' tt h in
      let (same, nodes) = gen_client_cfg-elsewhere t all reads s s' other file w v hc f in
      gen_client2_cfg-elsewhere t all reads s' other file v w' h1 f
        (subst (All (λ c. bytes_eq c.identifier other ≡ false)) (sym nodes) a)
      ∙ same
  save_clients-elsewhere client1_kind s other file w w' h f a =
      let (s', v, hc, h1) = >>=-ok_inv (gen_client_cfg t s) (λ s'. pure tt) w w' tt h in
      ap (λ (r : Outcome (Unit {0}) × World). read_file (other, file) r.1.files) (sym h1)
      ∙ (gen_client_cfg-elsewhere t all reads s s' other file w v hc f).0
  save_clients-elsewhere client2_kind s other file w w' h f a =
      gen_client2_cfg-elsewhere t all reads s other file w w' h f a

  save_authorities-files :
      (kind : Kind) (s : Katzenpost) (config : AuthorityConfig) (w w' : World)
      → is_voting kind ≡ true
      → s.voting_auth_configs ≡ config ∷ []
      → save_authorities t kind s w ≡ (ok tt, w')
      → w'.files
        ≡ (
          (config.identifier, bytes_of "authority.toml"),
          toml (authority (with_nodes t s.node_configs config)),
        )
          ∷ w.files
  unfolding save_authorities save_all identifier_of toml_name
  save_authorities-files kind s config w w' v e h =
      let full : AuthorityConfig = with_nodes t s.node_configs config in
      let one : M (Unit {0}) = save_cfg t (authority full) >> pure tt in
      let opened : one w ≡ (ok tt, w') =
        ap (λ (b : Bool). (if b then one else pure tt) w) (sym v)
        ∙ ap
            (λ (l : List AuthorityConfig).
              (if is_voting kind
                  then save_all t
                      (map (λ (c : AuthorityConfig). authority (with_nodes t s.node_configs c)) l)
                  else pure tt)
                w)
            (sym e)
        ∙ h in
      let (done, y, hs, h1) =
        >>=-ok_inv (save_cfg t (authority full)) (λ u. pure tt) w w' tt opened in
      ap (λ (r : Outcome (Unit {0}) × World). r.1.files) (sym h1)
      ∙ save_cfg-files t all (authority full) w y hs

  pub save_nodes-writes :
      (kind : Kind) (s : Katzenpost) (config : AuthorityConfig) (w w' : World)
      → is_voting kind ≡ true
      → s.voting_auth_configs ≡ config ∷ []
      → save_nodes t kind s w ≡ (ok tt, w')
      → (read_file (config.identifier, bytes_of "authority.toml") w'.files
          ≡ some (toml (authority (with_nodes t s.node_configs config))))
        × ((file : Bytes)
            → Foreign t all reads file
            → bytes_eq (bytes_of "authority.toml") file ≡ false
            → read_file (config.identifier, file) w'.files
              ≡ read_file (config.identifier, file) w.files)
  unfolding save_nodes bytes_eq
  save_nodes-writes kind s config w w' v e h =
      let (done, x, ha, h1) =
        >>=-ok_inv (save_authorities t kind s) (λ u. save_all t (map node s.node_configs)) w w' tt
          h in
      let files = save_authorities-files kind s config w x v e ha in
      let id = config.identifier in
      (
        save_all-elsewhere t all reads s.node_configs id (bytes_of "authority.toml") x w' h1
              (refl, refl)
            ∙ ap (read_file (id, bytes_of "authority.toml")) files
            ∙ read_file-first (id, bytes_of "authority.toml") _ w.files,
        (λ file f apart.
            save_all-elsewhere t all reads s.node_configs id file x w' h1 f
            ∙ ap (read_file (id, file)) files
            ∙ read_file-skip_one (id, bytes_of "authority.toml") (id, file) _ w.files
                (path_eq-file id id (bytes_of "authority.toml") file apart)),
      )
