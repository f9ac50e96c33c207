-- ===== src/Authority/Document/Contents.antt =====
-- getDocument: the layers that it asks for, and what is in its document.
use mathlib.Core.List.Permᴰ
use mathlib.Core.List.{Permᴰ}
use opt.Base.{
  inl, inr, ◌≤◌, ◌<◌, List, ◌++◌, ◌≡◌, refl, some, none, arith, length, All, Bytes, true, false,
  Option-cases, lookup, ==_ne,
}
use opt.Base.Outcome.{ok}
use opt.Base.Perms.{Distinct, All-perm}
use opt.Authority.Types.{Katzenpost, MixDescriptor, ReplicaDescriptor, Parameters, Document}
use opt.Authority.State.{State, sub64}
use opt.Authority.Topology.{Layers, node_id, generate_topology, generate_random_topology}
use opt.Authority.Topology.Deal.{flatten}
use opt.Authority.Topology.Keep.{ShufflesIndices}
use opt.Authority.Topology.Complete.{
  Places, generate_topology-Places, generate_random_topology-Places,
}
use opt.Authority.Document.{carve, layers_for, document_of, get_document}
use opt.Authority.Document.Carve.{Carves, carve-Carves, carve_nodes-Distinct}

module _ (k : Katzenpost) (s : State) (ds : List MixDescriptor) (srv : Bytes) where
  -- What the generators of topologies ask for: no topology is configured, there is a layer, the
  -- random numbers are a shuffle and their seed is taken, the previous document has no more layers
  -- than configured, and no two descriptors have the same key.
  pub record Placeable : Type 0 where
    pub dynamic : s.cfg.topology ≡ none
    pub some_layer : 0 < s.cfg.layers
    pub shuffles : ShufflesIndices k
    pub seed : k.seed_ok srv ≡ true
    pub prior_layers :
        (d : Document)
        → lookup (sub64 s.voting_epoch 1) s.documents ≡ some d
        → length d.topology ≤ s.cfg.layers
    pub distinct_keys : Distinct (node_id k) ds

  layers_fresh :
      (t : Layers)
      → s.cfg.topology ≡ none
      → lookup (sub64 s.voting_epoch 1) s.documents ≡ none
      → generate_random_topology k s.cfg.layers (carve ds).nodes srv ≡ ok t
      → layers_for k s (carve ds).nodes srv ≡ ok t
  unfolding layers_for
  layers_fresh t dyn e q = ground arith

  layers_next :
      (t : Layers) (d : Document)
      → s.cfg.topology ≡ none
      → lookup (sub64 s.voting_epoch 1) s.documents ≡ some d
      → generate_topology k s.cfg.layers (carve ds).nodes d srv ≡ ok t
      → layers_for k s (carve ds).nodes srv ≡ ok t
  unfolding layers_for
  layers_next t d dyn e q = ground arith

  layers_for-Places :
      Placeable
      → (t : Layers) × (layers_for k s (carve ds).nodes srv ≡ ok t)
        × Places k s.cfg.layers (carve ds).nodes t
  unfolding layers_for
  layers_for-Places p =
      let dis = carve_nodes-Distinct (node_id k) ds p.distinct_keys in
      elim (Option-cases (lookup (sub64 s.voting_epoch 1) s.documents)) [
        | inl e ↦
            let (t, q, pl, _) =
              generate_random_topology-Places k s.cfg.layers (carve ds).nodes srv p.shuffles p.seed
                p.some_layer in
            (t, layers_fresh t p.dynamic e q, pl)
        | inr (d, e) ↦
            let (t, q, pl, _) =
              generate_topology-Places k s.cfg.layers (carve ds).nodes d srv p.shuffles p.seed
                p.some_layer (p.prior_layers d e) dis in
            (t, layers_next t d p.dynamic e q, pl)
      ]

  -- The document has the configured number of layers, and holds each descriptor exactly once: the
  -- gateways, the service nodes and, in the layers, the mixes.
  pub record Contains (doc : Document) : Type 0 where
    pub for_epoch : doc.epoch ≡ s.voting_epoch
    pub layer_count : length doc.topology ≡ s.cfg.layers
    pub each_once : Permᴰ (doc.gateway_nodes ++ (doc.service_nodes ++ flatten doc.topology)) ds
    pub gateways : All (λ v. v.is_gateway_node ≡ true) doc.gateway_nodes
    pub services :
        All (λ v. (v.is_gateway_node ≡ false) × (v.is_service_node ≡ true)) doc.service_nodes
    pub mixes :
        All (λ v. (v.is_gateway_node ≡ false) × (v.is_service_node ≡ false)) (flatten doc.topology)

  placed :
      (t : Layers) (replicas : List ReplicaDescriptor) (params : Parameters)
      → Places k s.cfg.layers (carve ds).nodes t
      → Carves ds (carve ds)
      → Contains (document_of k s (carve ds) t replicas params srv)
  unfolding document_of
  placed t replicas params pl c = record {
    for_epoch = refl;
    layer_count = pl.layer_count;
    each_once =
        Permᴰ.trans
          (Permᴰ.append_left (carve ds).gateways
            (Permᴰ.append_left (carve ds).service_nodes pl.each_once))
          c.each_once;
    gateways = c.all_gateways;
    services = c.all_services;
    mixes = All-perm _ (Permᴰ.symm pl.each_once) c.all_mixes;
  }

  -- Where the generators of topologies have what they ask for, getDocument does not panic, and its
  -- document is for the voting epoch, has the configured number of layers and holds every descriptor
  -- exactly once, under the kind of its node.
  pub get_document-Contains :
      (replicas : List ReplicaDescriptor) (params : Parameters)
      → Placeable
      → (doc : Document) × (get_document k s ds replicas params srv ≡ ok doc) × Contains doc
  unfolding get_document
  get_document-Contains replicas params p =
      let (t, e, pl) = layers_for-Places p in
      let c = carve-Carves ds in
      (
        document_of k s (carve ds) t replicas params srv,
        rw (e, ==_ne s.cfg.layers 0 (λ z. absurd (omega (arith, p.some_layer)))) refl,
        placed t replicas params pl c,
      )
