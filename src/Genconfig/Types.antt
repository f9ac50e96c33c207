-- ===== src/Genconfig/Types.antt =====
-- The configurations that genconfig writes, with the fields that it sets, its own state, and the
-- interface to katzenpost and hpqc. A path is a folder below -dir-out and a file in it.
use opt.Base.{◌≡◌, some, ℕ, Bool, List, Option, Bytes, Map}
use opt.Base.Int.{ℤ}
use opt.Authority.Types.{Parameters}
use opt.Genconfig.Network.{ClientDebug, Client2Debug, ServerDebug}

abbrev pub Key : Type 0
Key = Bytes

abbrev pub Geometry : Type 0
Geometry = Bytes

-- vConfig.Authority and vConfig.Node.
pub record Peer : Type 0 where
  pub identifier : Bytes
  pub identity_public_key : Key
  pub link_public_key : Key
  pub wire_kem_scheme : Bytes
  pub pki_signature_scheme : Bytes
  pub addresses : List Bytes

pub record Node : Type 0 where
  pub identifier : Bytes
  pub identity_public_key_pem : List Bytes  -- the elements of the path

-- CBORPluginKaetzchen, with the entries of its configuration.
pub record Plugin : Type 0 where
  pub capability : Bytes
  pub endpoint : Bytes
  pub command : Bytes
  pub max_concurrency : ℕ
  pub config : List (Bytes × Bytes)

pub record ServiceNode : Type 0 where
  pub plugins : List Plugin
  pub kaetzchen : List (Bytes × Bytes)  -- capability and endpoint

-- sConfig.Config.
pub record NodeConfig : Type 0 where
  pub sphinx_geometry : Geometry
  pub wire_kem : Bytes
  pub pki_signature_scheme : Bytes
  pub identifier : Bytes
  pub addresses : List Bytes
  pub bind_addresses : List Bytes
  pub data_dir : List Bytes
  pub is_gateway_node : Bool
  pub is_service_node : Bool
  pub management : Bool
  pub metrics_address : Bytes
  pub debug : ServerDebug
  pub voting : Option (List Peer)
  pub log_file : Bytes
  pub log_level : Bytes
  pub service_node : Option ServiceNode
  pub gateway : Bool

-- vConfig.Config; the topology is left out (omitTopology).
pub record AuthorityConfig : Type 0 where
  pub sphinx_geometry : Geometry
  pub wire_kem_scheme : Bytes
  pub pki_signature_scheme : Bytes
  pub identifier : Bytes
  pub addresses : List Bytes
  pub data_dir : List Bytes
  pub log_file : Bytes
  pub log_level : Bytes
  pub parameters : Parameters
  pub layers : ℤ
  pub min_nodes_per_layer : ℕ
  pub authorities : List Peer
  pub mixes : List Node
  pub gateway_nodes : List Node
  pub service_nodes : List Node

-- cConfig.Config and cConfig2.Config.
pub record ClientConfig : Type 0 where
  pub ratchet_nike_scheme : Bytes
  pub wire_kem_scheme : Bytes
  pub pki_signature_scheme : Bytes
  pub sphinx_geometry : Geometry
  pub log_level : Bytes
  pub peers : List Peer
  pub debug : ClientDebug

pub record PinnedGateway : Type 0 where
  pub pki_signature_scheme : Bytes
  pub wire_kem_scheme : Bytes
  pub name : Bytes
  pub identity_key : Key
  pub link_key : Key
  pub addresses : List Bytes

pub record Client2Config : Type 0 where
  pub listen_network : Bytes
  pub listen_address : Bytes
  pub pki_signature_scheme : Bytes
  pub wire_kem_scheme : Bytes
  pub sphinx_geometry : Geometry
  pub log_level : Bytes
  pub peers : List Peer
  pub debug : Client2Debug
  pub pinned_gateways : List PinnedGateway

pub data Config : Type 0 where
  client : ClientConfig → Config
  client2 : Client2Config → Config
  node : NodeConfig → Config
  authority : AuthorityConfig → Config

-- The state of a run: the struct katzenpost.
pub record Katzenpost : Type 0 where
  pub base_dir : Bytes
  pub bin_prefix : Bytes
  pub bin_suffix : Bytes
  pub log_level : Bytes
  pub ratchet_nike_scheme : Bytes
  pub wire_kem_scheme : Bytes
  pub pki_signature_scheme : Bytes  -- the name of the scheme
  pub sphinx_geometry : Geometry
  pub voting_auth_configs : List AuthorityConfig
  pub authorities : Map Peer
  pub node_configs : List NodeConfig
  pub base_port : ℕ
  pub last_port : ℕ
  pub addr : Bytes
  pub addr_bind : Bytes
  pub node_idx : ℕ
  pub client_idx : ℕ
  pub gateway_idx : ℕ
  pub service_node_idx : ℕ
  pub has_panda : Bool
  pub has_proxy : Bool
  pub transport : Bytes
  pub metrics : Bytes
  pub debug_config_client1 : ClientDebug
  pub debug_config_client2 : Client2Debug
  pub debug_config_server : ServerDebug

pub data Content : Type 0 where
  toml : Config → Content
  text : Bytes → Content
  public_pem : (scheme : Bytes) → Key → Content  -- the PEM type names the scheme
  private_pem : Key → Content

-- What other packages and the file system do. Keys are made from a seed that no other call has.
pub record Tools : Type 0 where
  pub creatable : Bytes × Bytes → Bool  -- os.Create, and a write to the file
  pub encodes : Config → Bool  -- toml.Encoder.Encode
  pub kem_known : Bytes → Bool  -- kem/schemes.ByName(name) != nil
  pub nike_known : Bytes → Bool  -- nike/schemes.ByName(name) != nil
  pub sign_by_name : Bytes → Option Bytes  -- sign/schemes.ByName, and the scheme's Name()
  pub nike_geometry : Bytes → ℤ → ℤ → Geometry  -- GeometryFromUserForwardPayloadLength
  pub kem_geometry : Bytes → ℤ → ℤ → Geometry  -- KEMGeometryFromUserForwardPayloadLength
  pub sign_key : Bytes → ℕ → Key × Key  -- GenerateKey: public and private
  pub kem_key : Bytes → ℕ → Option (Key × Key)  -- GenerateKeyPair
  pub read_public : Bytes → Content → Option Key  -- sign/pem.FromPublicPEMFile on the file's content
  pub sum256 : Key → ℕ  -- hash.Sum256From
  pub fixup_and_validate : NodeConfig → Option NodeConfig

-- A public identity key that was made is read back, by its own scheme, from the file written of it.
abbrev pub ReadsOwn : Tools → Type 0
ReadsOwn t =
    (name scheme : Bytes) (seed : ℕ)
    → t.sign_by_name name ≡ some scheme
    → t.read_public scheme (public_pem scheme (t.sign_key scheme seed).0)
      ≡ some (t.sign_key scheme seed).0
