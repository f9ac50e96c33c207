-- ===== src/Authority/State.antt =====
-- The `state` and `Server` structs of pki/server, with the fields that the handlers and the state
-- machine read or write. Locks, loggers, the database handle and the worker's channels are left
-- out: each handler holds the lock from its first to its last line.
use opt.Base.{ℕ, ◌+◌, ◌-◌, ◌%◌, ◌^◌, String, List, Option, Bytes, Bool, Map}
use opt.Authority.Types.{MixDescriptor, ReplicaDescriptor, Document, Parameters, Signature}

-- uint64 arithmetic.
abbrev pub u64 : ℕ → ℕ
u64 n = n % 2 ^ 64

abbrev pub add64 : ℕ → ℕ → ℕ
add64 a b = u64 (a + b)

abbrev pub sub64 : ℕ → ℕ → ℕ
sub64 a b = u64 (a + 2 ^ 64 - b)

-- The strings that `state` holds.
pub data Phase : Type 0 where
  bootstrap descriptor_send accept_desc accept_vote accept_reveal accept_cert : Phase
  accept_signature confirm_consensus : Phase

-- The parts of config.Config that the authority reads.
pub record Config : Type 0 where
  pub parameters : Parameters
  pub layers : ℕ  -- Debug.Layers
  pub min_nodes_per_layer : ℕ  -- Debug.MinNodesPerLayer
  -- Topology: the key hashes of each layer, or nil
  pub topology : Option (List (List ℕ))
  pub pki_signature_scheme : String
  pub wire_kem_scheme : String

pub record State : Type 0 where
  pub cfg : Config
  pub reverse_hash : Map Bytes
  pub authorized_mixes : Map Bool
  pub authorized_gateway_nodes : Map String
  pub authorized_service_nodes : Map String
  pub authorized_replica_nodes : Map String
  pub authorized_authorities : Map Bool
  pub authority_link_keys : Map Bytes
  pub documents : Map Document
  pub myconsensus : Map Document
  pub descriptors : Map (Map MixDescriptor)
  pub replica_descriptors : Map (Map ReplicaDescriptor)
  -- what the buckets "documents", "descriptors" and "replica_descriptors" of the database hold
  pub db_documents : Map Bytes
  pub db_descriptors : Map (Map Bytes)
  pub db_replica_descriptors : Map (Map Bytes)
  pub votes : Map (Map Document)
  pub certificates : Map (Map Document)
  pub signatures : Map (Map Signature)
  pub reveals : Map (Map Bytes)
  pub commits : Map (Map Bytes)
  pub prior_srv : List Bytes
  pub voting_epoch : ℕ
  pub genesis_epoch : ℕ
  pub threshold : ℕ
  pub phase : Phase  -- the field `state`
  pub authorized_key : Bytes  -- authorizedNode.IdentityKey
