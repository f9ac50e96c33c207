-- ===== src/Genconfig/Written.antt =====
-- A whole run of Genconfig: the authority that it leaves on the disk.
use opt.Base.{◌≡◌, List, [], ◌∷◌, some, true, Bytes, if◌then◌else◌}
use opt.Base.Texts.{bytes_of}
use opt.Base.Outcome.{Outcome}
use opt.Genconfig.Types.{Tools, ReadsOwn, toml, authority, NodeConfig, AuthorityConfig, Peer, Node}
use opt.Genconfig.Disk.{Files, read_file}
use opt.Genconfig.OnDisk.{OnDisk}
use opt.Genconfig.Input.{GenconfigInput, is_empty}
use opt.Genconfig.Run.{gen_authorized_nodes}
use opt.Genconfig.Saved.{auth_folder}

-- The authority's file names it alone as authority, lists the one node by its role, and the keys that
-- it names lie beside it.
pub record Written (t : Tools) (files : Files) (id : Bytes) : Type 0 where
  pub peer : Peer
  pub config : AuthorityConfig
  pub node_cfg : NodeConfig
  pub written :
      read_file (auth_folder id, bytes_of "authority.toml") files ≡ some (toml (authority config))
  pub names_itself : config.authorities ≡ peer ∷ []
  pub same_addresses : config.addresses ≡ peer.addresses
  pub node_named : node_cfg.identifier ≡ id
  pub lists_node :
      ◌≡◌ {A = List Node × List Node × List Node}
        (config.gateway_nodes, config.service_nodes, config.mixes)
        (gen_authorized_nodes (node_cfg ∷ []))
  pub keys : OnDisk t files (auth_folder id) peer.identity_public_key peer.link_public_key

module _ (t : Tools) (all : (p : Bytes × Bytes) → t.creatable p ≡ true) (reads : ReadsOwn t)
    (keeps_name : (c d : NodeConfig)
      → t.fixup_and_validate c ≡ some d
      → d.identifier ≡ c.identifier) where
  abbrev chosen_id : GenconfigInput → Bytes
  chosen_id gi = if is_empty gi.identifier then gi.cfg_type else gi.identifier
