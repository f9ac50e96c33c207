-- ===== src/Authority/Document.antt =====
-- pki/server/state.go and aux.go: the document that the authority votes for.
pub mod Carve
pub mod Contents
use opt.Base.{
  ℕ, ◌+◌, ◌-◌, ◌*◌, ◌/◌, List, [], ◌∷◌, Option, none, some, Bool, true, false, not, ◌&&◌, Bytes,
  Map, lookup, length, replicate, ltb, leb, ◌==◌, if◌then◌else◌,
}
use opt.Base.Int.{ℤ, sub_ℕ, pos, negsuc}
use opt.Base.Unique.{values}
use opt.Base.Outcome.{Outcome, ok, panics, ◌>>=◌}
use opt.Authority.Types.{
  Katzenpost, MixDescriptor, ReplicaDescriptor, Parameters, Document, Float64,
}
use opt.Authority.State.{State, Config, sub64}
use opt.Authority.Topology.{
  Layers, generate_topology, generate_random_topology, generate_fixed_topology,
}

-- The descriptors by the kind of their node.
pub record Kinds : Type 0 where
  pub gateways : List MixDescriptor
  pub service_nodes : List MixDescriptor
  pub nodes : List MixDescriptor

unfoldable pub carve : List MixDescriptor → Kinds
carve [] = record { gateways = []; service_nodes = []; nodes = [] }
carve (v ∷ vs) =
    let ks = carve vs in
    if v.is_gateway_node
    then record ks { gateways = v ∷ ks.gateways }
    else if v.is_service_node
    then record ks { service_nodes = v ∷ ks.service_nodes }
    else record ks { nodes = v ∷ ks.nodes }

module _ (k : Katzenpost) where
  -- zkpki_computeLambdaGFromNodesPerLayer
  unfoldable pub lambda_g_from : Parameters → ℕ → Float64
  lambda_g_from params npl = if npl == 1 then k.sum_of_lambdas params else k.n_log_n npl

  unfoldable pub layers_for : State → List MixDescriptor → Bytes → Outcome Layers
  layers_for s nodes srv = elim s.cfg.topology [
    | some layers ↦ ok (generate_fixed_topology k layers nodes)
    | none ↦ elim (lookup (sub64 s.voting_epoch 1) s.documents) [
      | some d ↦ generate_topology k s.cfg.layers nodes d srv
      | none ↦ generate_random_topology k s.cfg.layers nodes srv
    ]
  ]

  -- The document's literal, and the prior shared random that is then set.
  unfoldable pub document_of :
      State → Kinds → Layers → List ReplicaDescriptor → Parameters → Bytes → Document
  unfolding lambda_g_from
  document_of s ks topology replicas params srv = record {
    epoch = s.voting_epoch;
    genesis_epoch = s.genesis_epoch;
    version = "";
    parameters = params;
    lambda_g = lambda_g_from s.cfg.parameters (length ks.nodes / s.cfg.layers);
    topology = topology;
    gateway_nodes = ks.gateways;
    service_nodes = ks.service_nodes;
    storage_replicas = replicas;
    shared_random_value = srv;
    prior_shared_random = srv ∷ [];
    shared_random_commit = [];
    shared_random_reveal = [];
    signatures = [];
    sphinx_geometry_hash = k.geometry_hash;
    pki_signature_scheme = s.cfg.pki_signature_scheme;
  }

  -- getDocument; `len(nodes) / s.s.cfg.Debug.Layers` panics for no layer.
  unfoldable pub get_document :
      State → List MixDescriptor → List ReplicaDescriptor → Parameters → Bytes → Outcome Document
  unfolding carve layers_for document_of
  get_document s descriptors replicas params srv =
      let ks = carve descriptors in
      do
        topology ← layers_for s ks.nodes srv
        if s.cfg.layers == 0 then panics else ok (document_of s ks topology replicas params srv)

-- The counters of hasEnoughDescriptors. A node may count as both.
unfoldable pub count_gateways : List MixDescriptor → ℕ
count_gateways [] = 0
count_gateways (v ∷ vs) = let n = count_gateways vs in if v.is_gateway_node then n + 1 else n

unfoldable pub count_service_nodes : List MixDescriptor → ℕ
count_service_nodes [] = 0
count_service_nodes (v ∷ vs) =
    let n = count_service_nodes vs in if v.is_service_node then n + 1 else n

-- nrNodes >= minNodes, where nrNodes may be negative.
abbrev at_least : ℤ → ℕ → Bool
at_least (pos n) m = leb m n
at_least (negsuc n) m = false

unfoldable pub has_enough_descriptors : Config → Map MixDescriptor → Bool
unfolding count_gateways count_service_nodes
has_enough_descriptors cfg m =
    let nr_gateways = count_gateways (values m) in
    let nr_service_nodes = count_service_nodes (values m) in
    ltb 0 nr_gateways
    && ltb 0 nr_service_nodes
    && at_least (sub_ℕ (length m) (nr_gateways + nr_service_nodes))
        (cfg.layers * cfg.min_nodes_per_layer)
