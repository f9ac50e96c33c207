-- ===== src/Genconfig/Agrees.antt =====
-- The configuration of the authority that a run of Genconfig writes, against the authority's keys.
use opt.Base.{◌≡◌, refl, sym, ap, ◌∙◌, subst, List, [], ◌∷◌, map, true, Bytes, insert, ◌+◌, ◌%◌}
use opt.Base.Int.{ℤ}
use opt.Base.Outcome.{Outcome, ok-inj, ok}
use opt.Authority.Types.{Parameters}
use opt.Genconfig.Types.{Tools, ReadsOwn, Key, Katzenpost, AuthorityConfig, Peer}
use opt.Genconfig.Disk.{Files, World, ◌>>=◌, pure, cfg_id_key, cfg_link_key}
use opt.Genconfig.Disk.Laws.{>>=-ok_inv}
use opt.Genconfig.Nodes.{
  sorted_peers, sort_by_id, insert_by_id, gen_authority, gen_authorities,
  gen_voting_authorities_cfg, new_peer, new_authority_config,
}
use opt.Genconfig.OnDisk.{OnDisk, keys-OnDisk}

abbrev Made : Type 0
Made = Katzenpost × AuthorityConfig

-- The authority of a run: it is the only one, its own configuration names it alone, and its keys lie
-- in its folder.
pub record OneAuthority (t : Tools) (files : Files) (id : Bytes) (s : Katzenpost) : Type 0 where
  pub peer : Peer
  pub config : AuthorityConfig
  pub only : sorted_peers s.authorities ≡ peer ∷ []
  pub configs : s.voting_auth_configs ≡ config ∷ []
  pub named : config.identifier ≡ id
  pub names_itself : config.authorities ≡ peer ∷ []
  pub no_nodes : s.node_configs ≡ []
  pub same_addresses : config.addresses ≡ peer.addresses
  pub keys : OnDisk t files id peer.identity_public_key peer.link_public_key

module _ (t : Tools) (all : (p : Bytes × Bytes) → t.creatable p ≡ true) (reads : ReadsOwn t) where
  gen_authority-keys :
      (s : Katzenpost) (id : Bytes) (parameters : Parameters) (layers : ℤ) (kem : Bytes)
      (w w' : World) (made : Made)
      → gen_authority t s id parameters layers kem w ≡ (ok made, w')
      → (v : World) × (id_key : Key) × (link_key : Key) × (cfg_id_key t id s.pki_signature_scheme w
          ≡ (ok id_key, v))
        × (cfg_link_key t id kem v ≡ (ok link_key, w'))
        × (made ≡ (
          record s {
            last_port = (s.last_port + 1) % 65536;
            authorities =
                insert (t.sum256 id_key) (new_peer t s id kem id_key link_key) s.authorities;
          },
          new_authority_config t s id parameters layers,
        ))
  unfolding gen_authority
  gen_authority-keys s id parameters layers kem w w' made h =
      let out : Key → Key → Made = λ id_key link_key. (
        record s {
          last_port = (s.last_port + 1) % 65536;
          authorities =
              insert (t.sum256 id_key) (new_peer t s id kem id_key link_key) s.authorities;
        },
        new_authority_config t s id parameters layers,
      ) in
      let (id_key, v, hi, h1) =
        >>=-ok_inv (cfg_id_key t id s.pki_signature_scheme)
          (λ id_key. cfg_link_key t id kem >>= λ link_key. pure (out id_key link_key)) w w' made
          h in
      let (link_key, x, hl, h2) =
        >>=-ok_inv (cfg_link_key t id kem) (λ link_key. pure (out id_key link_key)) v w' made h1 in
      let world : x ≡ w' = ap (λ (r : Outcome Made × World). r.1) h2 in
      (
        v,
        id_key,
        link_key,
        hi,
        hl ∙ ap (λ y. (ok link_key, y)) world,
        sym (ok-inj (ap (λ (r : Outcome Made × World). r.0) h2)),
      )

  -- The one authority that Genconfig asks for.
  pub gen_voting_authorities_cfg-One :
      (s : Katzenpost) (id : Bytes) (parameters : Parameters) (layers : ℤ) (kem : Bytes)
      (w w' : World) (s' : Katzenpost)
      → s.node_configs ≡ []
      → gen_voting_authorities_cfg t s id 1 parameters layers kem w ≡ (ok s', w')
      → OneAuthority t w'.files id s'
  unfolding gen_voting_authorities_cfg gen_authorities sorted_peers sort_by_id insert_by_id insert
      new_peer new_authority_config
  gen_voting_authorities_cfg-One s id parameters layers kem w w' s' none_yet h =
      let s0 : Katzenpost = record s { authorities = [] } in
      let finish : Katzenpost × List AuthorityConfig → Katzenpost = λ made. record (made.0) {
        voting_auth_configs =
            map
              (λ (c : AuthorityConfig). record c {
                authorities = sorted_peers (made.0).authorities;
              })
              made.1;
      } in
      let (made, v, hg, h1) =
        >>=-ok_inv (gen_authorities t 1 s0 [] id parameters layers kem) (λ made. pure (finish made))
          w w' s' h in
      let (m, x, ha, h2) =
        >>=-ok_inv (gen_authority t s0 id parameters layers kem)
          (λ (m : Made). pure (m.0, m.1 ∷ [])) w v made hg in
      let (u, id_key, link_key, hi, hl, m_is) =
        gen_authority-keys s0 id parameters layers kem w x m ha in
      let world : x ≡ w' =
        ap (λ (r : Outcome (Katzenpost × List AuthorityConfig) × World). r.1) h2
        ∙ ap (λ (r : Outcome Katzenpost × World). r.1) h1 in
      let made_is : (m.0, m.1 ∷ []) ≡ made =
        ok-inj (ap (λ (r : Outcome (Katzenpost × List AuthorityConfig) × World). r.0) h2) in
      let s_is : finish made ≡ s' = ok-inj (ap (λ (r : Outcome Katzenpost × World). r.0) h1) in
      let peer = new_peer t s0 id kem id_key link_key in
      let base : Katzenpost = record s0 {
        last_port = (s0.last_port + 1) % 65536;
        authorities = (t.sum256 id_key, peer) ∷ [];
      } in
      let config : AuthorityConfig = new_authority_config t s0 id parameters layers in
      let total : finish (base, config ∷ []) ≡ s' =
        ap (λ (p : Made). finish (p.0, p.1 ∷ [])) (sym m_is) ∙ ap finish made_is ∙ s_is in
      let on_disk : OnDisk t w'.files id id_key link_key =
        subst (λ y. OnDisk t y.files id id_key link_key) world
          (keys-OnDisk t all reads id s0.pki_signature_scheme kem w u x id_key link_key hi hl) in
      subst (OneAuthority t w'.files id) total record {
        peer = peer;
        config = record config { authorities = peer ∷ [] };
        only = refl;
        configs = refl;
        named = refl;
        names_itself = refl;
        no_nodes = none_yet;
        same_addresses = refl;
        keys = on_disk;
      }
