-- ===== src/Authority/Startup.antt =====
-- How the authority starts: newState of pki/server/state.go with zkpki_newState of aux.go. log.Fatalf
-- ends the process, as an error of the whole start does here.
pub mod Tables
pub mod Ready
pub mod Keys
use opt.Base.{
  ℕ, ◌+◌, ◌/◌, String, List, [], ◌∷◌, ◌++◌, Option, none, some, Bool, true, false, Bytes, Map,
  lookup, insert, length, ◌==◌, if◌then◌else◌,
}
use opt.Base.Texts.{bytes_of, has_prefix}
use opt.Base.Outcome.{Outcome, ok, err, panics, ◌>>=◌, or_panic}
use opt.Authority.Types.{Katzenpost, MixDescriptor, ReplicaDescriptor, Document}
use opt.Authority.State.{State, Config, bootstrap}
use opt.Authority.Chain.{ChainBridge, NodeConfig, Node, Asked, ch_nodes_get, ch_nodes_register}
use opt.Authority.Restore.{Restoring, Metadata, restore_persistence}

-- config.Node and config.Authority.
pub record LocalNode : Type 0 where
  pub identifier : String
  pub identity_public_key_pem : Bytes

pub record Peer : Type 0 where
  pub identifier : String
  pub identity_public_key : Bytes
  pub link_public_key : Bytes

-- The configuration that the start reads.
pub record Setup : Type 0 where
  pub cfg : Config
  pub data_dir : Bytes
  pub mixes : List LocalNode
  pub gateway_nodes : List LocalNode
  pub service_nodes : List LocalNode
  pub storage_replicas : List LocalNode
  pub authorities : List Peer
  pub identity_public_key : Bytes  -- the server's own

-- filepath.Join(DataDir, p), unless the path is absolute.
unfoldable pub pem_path : Bytes → Bytes → Bytes
pem_path data_dir p = if has_prefix p (bytes_of "/") then p else data_dir ++ (bytes_of "/" ++ p)

module _ (k : Katzenpost) (read_pem : Bytes → Option Bytes) (st : Setup) where
  -- A key that cannot be read is a panic.
  unfoldable pub key_of : LocalNode → Outcome Bytes
  unfolding pem_path
  key_of v = or_panic (read_pem (pem_path st.data_dir v.identity_public_key_pem))

  -- The loop over one kind of node: what is entered under the hash of the node's key.
  unfoldable pub authorize :
      {V : Type 0} → (LocalNode → V) → List LocalNode → Map V → Outcome (Map V)
  unfolding key_of
  authorize entry [] m = ok m
  authorize entry (v ∷ vs) m = do
    key ← key_of v
    authorize entry vs (insert (k.sum256 key) (entry v) m)

  -- The keys that the same loop enters in reverseHash.
  unfoldable pub keys_by_hash : List LocalNode → Map Bytes → Outcome (Map Bytes)
  unfolding key_of
  keys_by_hash [] m = ok m
  keys_by_hash (v ∷ vs) m = do key ← key_of v; keys_by_hash vs (insert (k.sum256 key) key m)

-- The loops over the authorities.
module _ (k : Katzenpost) where
  unfoldable pub peer_table : {V : Type 0} → (Peer → V) → List Peer → Map V → Map V
  peer_table entry [] m = m
  peer_table entry (v ∷ vs) m =
      peer_table entry vs (insert (k.sum256 v.identity_public_key) (entry v) m)

  -- len(verifiers)/2 + 1, where the server's own key is one of the verifiers.
  unfoldable pub threshold_of : Setup → ℕ
  unfolding peer_table
  threshold_of st =
      let verifiers = peer_table (λ v. v.identity_public_key) st.authorities [] in
      length (insert (k.sum256 st.identity_public_key) st.identity_public_key verifiers) / 2 + 1

abbrev single : List LocalNode → Option LocalNode
single [] = none
single (v ∷ []) = some v
single (v ∷ u ∷ vs) = none

-- The node that the authority is for, and whether it is a gateway or a service node.
unfoldable pub extract_node : Setup → Option (LocalNode × Bool × Bool)
extract_node st = elim (single st.gateway_nodes) [
  | some v ↦ some (v, true, false)
  | none ↦ elim (single st.service_nodes) [
    | some v ↦ some (v, false, true)
    | none ↦ elim (single st.mixes) [
      | some v ↦ some (v, false, false)
      | none ↦ elim (single st.storage_replicas) [ some v ↦ some (v, false, false) | none ↦ none ]
    ]
  ]
]

-- The state with the peer tables and nothing else.
unfoldable pub peer_tables : Katzenpost → (Bytes → Option Bytes) → Setup → Outcome State
unfolding authorize keys_by_hash peer_table threshold_of
peer_tables k read_pem st = do
  mixes ← authorize k read_pem st (λ v. true) st.mixes []
  by_mixes ← keys_by_hash k read_pem st st.mixes []
  gateways ← authorize k read_pem st (λ v. v.identifier) st.gateway_nodes []
  by_gateways ← keys_by_hash k read_pem st st.gateway_nodes by_mixes
  services ← authorize k read_pem st (λ v. v.identifier) st.service_nodes []
  by_services ← keys_by_hash k read_pem st st.service_nodes by_gateways
  replicas ← authorize k read_pem st (λ v. v.identifier) st.storage_replicas []
  let by_authorities = peer_table k (λ v. v.identity_public_key) st.authorities by_services
  ok record {
    cfg = st.cfg;
    reverse_hash = insert (k.sum256 st.identity_public_key) st.identity_public_key by_authorities;
    authorized_mixes = mixes;
    authorized_gateway_nodes = gateways;
    authorized_service_nodes = services;
    authorized_replica_nodes = replicas;
    authorized_authorities = peer_table k (λ v. true) st.authorities [];
    authority_link_keys = peer_table k (λ v. v.link_public_key) st.authorities [];
    documents = [];
    myconsensus = [];
    descriptors = [];
    replica_descriptors = [];
    db_documents = [];
    db_descriptors = [];
    db_replica_descriptors = [];
    votes = [];
    certificates = [];
    signatures = [];
    reveals = [];
    commits = [];
    prior_srv = [];
    voting_epoch = 0;
    genesis_epoch = 0;
    threshold = threshold_of k st;
    phase = bootstrap;
    authorized_key = [];
  }

module _ {W : Type 0} {R : Type 0} (k : Katzenpost) (b : ChainBridge W R) where
  -- The node in the appchain: it is registered if it is not there, and asked for once more.
  unfoldable pub registered_node : LocalNode → Bytes → Bool → Bool → W → W × Outcome Node
  registered_node v key is_gateway is_service w =
      let (w1, first) = ch_nodes_get k b v.identifier w in
      elim first [
        | ok n ↦ (w1, ok n)
        | panics ↦ (w1, panics)
        | err e ↦
            let (w2, made) =
              ch_nodes_register k b record { identifier = v.identifier; identity_public_key = key }
                is_gateway is_service w1 in
            elim made [
              | err e' ↦ (w2, err "node registration failed")
              | panics ↦ (w2, panics)
              | ok done ↦ ch_nodes_get k b v.identifier w2
            ]
      ]

  -- zkpki_newState: the registered key of the one local node, which must be the configured one.
  unfoldable pub zkpki_new_state : (Bytes → Option Bytes) → Setup → W → W × Outcome Bytes
  unfolding extract_node key_of registered_node
  zkpki_new_state read_pem st w = elim (extract_node st) [
    | none ↦ (w, err "Invalid configuration for a single local node")
    | some (v, is_gateway, is_service) ↦ elim (key_of k read_pem st v) [
      | err e ↦ (w, err e)
      | panics ↦ (w, panics)
      | ok key ↦
          let (w', r) = registered_node v key is_gateway is_service w in
          (
            w',
            (do
              n ← r
              if k.sum256 key == k.sum256 n.identity_key
                  then ok n.identity_key
                  else err "IdentityKey mismatch"),
          )
    ]
  ]

  -- newState, on the buckets of the database that it opens.
  unfoldable pub new_state :
      Restoring
      → (Bytes → Option Bytes)
      → Setup
      → Option (Metadata × Map Bytes × Map (Map Bytes) × Map (Map Bytes))
      → ℕ
      → W
      → W × Outcome (Metadata × State)
  unfolding zkpki_new_state peer_tables
  new_state rs read_pem st opened now w = elim (peer_tables k read_pem st) [
    | err e ↦ (w, err e)
    | panics ↦ (w, panics)
    | ok s ↦
        let (w', r) = zkpki_new_state read_pem st w in
        (
          w',
          (do
            key ← r
            elim opened [
              | none ↦ err "bolt.Open failed"
              | some (db, documents, descriptors, replicas) ↦
                  restore_persistence k rs db now record s {
                    authorized_key = key;
                    db_documents = documents;
                    db_descriptors = descriptors;
                    db_replica_descriptors = replicas;
                  }
            ]),
        )
  ]
