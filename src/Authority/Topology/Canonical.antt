-- ===== src/Authority/Topology/Canonical.antt =====
-- generateTopology on the same nodes in different orders, as authorities collect them.
use mathlib.Core.List.Permᴰ
use mathlib.Core.List.{Permᴰ}
use opt.Base.{
  ℕ, List, [], ◌∷◌, ◌++◌, ◌≡◌, ◌≢◌, refl, sym, map, ◌∙◌, length, replicate, All, Bytes, Map, lookup,
  delete, leb, Bool-cases, Option-cases, inl, inr, ◌/◌,
}
use opt.Base.Outcome.{Outcome, ok, err, panics, ◌>>=◌}
use opt.Base.Perms.{Distinct, Distinct-perm, length-perm}
use opt.Base.Unique.{
  key, IsMap, values, lookup-perm, delete-perm, delete-IsMap, values-perm, All-delete,
}
use opt.Authority.Types.{Katzenpost, MixDescriptor, Document}
use opt.Authority.Topology.{
  Layers, node_id, node_map_from, keep_layer, keep_layers, finish_layers, assign_nodes,
  generate_topology,
}
use opt.Authority.Topology.Shuffle.{pick}
use opt.Authority.Topology.Sort.{sort_by-perm_eq}
use opt.Authority.Topology.NodeMap.{entry, node_map_from-perm, node_map_from-map, fresh-All}

module _ (k : Katzenpost) where
  -- Two orders of one map from key hashes to nodes.
  record SameMap (m n : Map MixDescriptor) : Type 0 where
    reordered : Permᴰ m n
    one_entry : IsMap m
    keyed : All (λ e. e.0 ≡ node_id k e.1) m

  delete-SameMap :
      (a : ℕ) {m n : Map MixDescriptor} → SameMap m n → SameMap (delete a m) (delete a n)
  delete-SameMap a {m} h = record {
    reordered = delete-perm a h.reordered;
    one_entry = delete-IsMap a m h.one_entry;
    keyed = All-delete _ a m h.keyed;
  }

  keys_distinct :
      (e : ℕ × MixDescriptor) (m : Map MixDescriptor)
      → e.0 ≡ node_id k e.1
      → All (λ x. key e ≢ key x) m
      → All (λ x. x.0 ≡ node_id k x.1) m
      → All (λ v. node_id k e.1 ≢ node_id k v) (values m)
  keys_distinct e [] q h g = tt
  keys_distinct e (x ∷ m) q h g = ((λ same. h.0 (q ∙ same ∙ sym g.0)), keys_distinct e m q h.1 g.1)

  values-Distinct :
      (m : Map MixDescriptor)
      → IsMap m
      → All (λ e. e.0 ≡ node_id k e.1) m
      → Distinct (node_id k) (values m)
  values-Distinct [] u g = tt
  values-Distinct (e ∷ m) u g = (keys_distinct e m g.0 u.0 g.1, values-Distinct m u.1 g.1)

  -- The slot is the same, and what is left in the map.
  abbrev SameKept :
      List MixDescriptor × Map MixDescriptor → List MixDescriptor × Map MixDescriptor → Type 0
  SameKept r q = (r.0 ≡ q.0) × SameMap r.1 q.1

  keep_layer-SameKept :
      (target : ℕ) (olds slot : List MixDescriptor) (m n : Map MixDescriptor)
      → SameMap m n
      → SameKept (keep_layer k target olds slot m) (keep_layer k target olds slot n)
  unfolding keep_layer
  keep_layer-SameKept target [] slot m n h = (refl, h)
  keep_layer-SameKept target (old ∷ olds) slot m n h =
      let same = lookup-perm (node_id k old) h.reordered h.one_entry in
      elim (Bool-cases (leb target (length slot))) [
        | inl full ↦ rw (full, keep_layer) (refl, h)
        | inr room ↦
            rw (room, keep_layer)
              (elim (Option-cases (lookup (node_id k old) n)) [
                | inl gone ↦
                    rw (same ∙ gone, gone, keep_layer) (keep_layer-SameKept target olds slot m n h)
                | inr (d, here) ↦
                    rw (same ∙ here, here, keep_layer)
                      (keep_layer-SameKept target olds (slot ++ d ∷ []) (delete (node_id k old) m)
                        (delete (node_id k old) n) (delete-SameMap (node_id k old) h))
              ])
      ]

  finish_layers_same :
      (target : ℕ) (srv : Bytes) (prev slots : Layers) (m n : Map MixDescriptor) (sizes : List ℕ)
      → SameMap m n
      → finish_layers k target srv prev slots m sizes
        ≡ finish_layers k target srv prev slots n sizes
  unfolding finish_layers
  finish_layers_same target srv prev slots m n sizes h =
      rw
        (sort_by-perm_eq (node_id k) (values-perm h.reordered)
          (values-Distinct m h.one_entry h.keyed))
        refl

  abbrev Run : Type 0
  Run = Outcome (Layers × Map MixDescriptor × List ℕ)

  abbrev SameRun : Run → Run → Type 0
  SameRun (ok r) (ok q) = (r.0 ≡ q.0) × SameMap r.1 q.1 × (r.2 ≡ q.2)
  SameRun panics panics = Unit
  SameRun _ _ = ⊥

  abbrev in_front : List MixDescriptor → Run → Run
  in_front slot run = run >>= λ (slots, m, sizes). ok (slot ∷ slots, m, sizes)

  SameRun-in_front :
      (s t : List MixDescriptor) (r q : Run)
      → s ≡ t
      → SameRun r q
      → SameRun (in_front s r) (in_front t q)
  SameRun-in_front s t (ok r) (ok q) e h = (cc (e, h.0), h.1, h.2)
  SameRun-in_front s t (ok r) (err x) e h = h
  SameRun-in_front s t (ok r) panics e h = h
  SameRun-in_front s t (err x) q e h = absurd h
  SameRun-in_front s t panics panics e h = tt
  SameRun-in_front s t panics (ok q) e h = h
  SameRun-in_front s t panics (err x) e h = h

  keep_layers-SameRun :
      (target : ℕ) (srv : Bytes) (sizes : List ℕ) (prev slots : Layers) (m n : Map MixDescriptor)
      → SameMap m n
      → SameRun
          (keep_layers k target srv sizes prev slots m)
          (keep_layers k target srv sizes prev slots n)
  unfolding keep_layers
  keep_layers-SameRun target srv sizes [] slots m n h = (refl, h, refl)
  keep_layers-SameRun target srv sizes ([] ∷ prev) [] m n h =
      keep_layers-SameRun target srv (sizes ++ 0 ∷ []) prev [] m n h
  keep_layers-SameRun target srv sizes ((_ ∷ _) ∷ prev) [] m n h = tt
  keep_layers-SameRun target srv sizes (nodes ∷ prev) (slot ∷ slots) m n h =
      elim (Option-cases (pick nodes (k.perm srv sizes (length nodes)))) [
        | inl out ↦ rw (out, keep_layers) tt
        | inr (olds, e) ↦
            let (same, h') = keep_layer-SameKept target olds slot m n h in
            let rest =
              keep_layers-SameRun target srv (sizes ++ length nodes ∷ []) prev slots
                (keep_layer k target olds slot m).1 (keep_layer k target olds slot n).1 h' in
            rw (e, keep_layers)
              (SameRun-in_front (keep_layer k target olds slot m).0
                (keep_layer k target olds slot n).0 _ _ same rest)
      ]

  SameRun-bind :
      (f : Layers → Map MixDescriptor → List ℕ → Outcome Layers)
      → ((slots : Layers) (m n : Map MixDescriptor) (sizes : List ℕ)
          → SameMap m n
          → f slots m sizes ≡ f slots n sizes)
      → (r q : Run) → SameRun r q
      → (r >>= λ x. f x.0 x.1 x.2) ≡ (q >>= λ x. f x.0 x.1 x.2)
  SameRun-bind f same (ok r) (ok q) h = rw (h.0, h.2) (same q.0 r.1 q.1 q.2 h.1)
  SameRun-bind f same (ok r) (err x) h = absurd h
  SameRun-bind f same (ok r) panics h = absurd h
  SameRun-bind f same (err x) q h = absurd h
  SameRun-bind f same panics panics h = refl
  SameRun-bind f same panics (ok q) h = absurd h
  SameRun-bind f same panics (err x) h = absurd h

  assign_nodes_same :
      (target layers : ℕ) (srv : Bytes) (prev : Layers) (m n : Map MixDescriptor)
      → SameMap m n
      → assign_nodes k target layers srv prev m ≡ assign_nodes k target layers srv prev n
  unfolding assign_nodes
  assign_nodes_same target layers srv prev m n h =
      SameRun-bind (finish_layers k target srv prev) (finish_layers_same target srv prev) _ _
        (keep_layers-SameRun target srv [] prev (replicate layers []) m n h)

  entries-keyed :
      (nodes : List MixDescriptor) → All (λ e. e.0 ≡ node_id k e.1) (map (entry k) nodes)
  entries-keyed [] = tt
  entries-keyed (v ∷ vs) = (refl, entries-keyed vs)

  node_map-SameMap :
      {xs ys : List MixDescriptor}
      → Permᴰ xs ys
      → Distinct (node_id k) xs
      → SameMap (node_map_from k [] xs) (node_map_from k [] ys)
  node_map-SameMap {xs} {ys} p d =
      let ex = node_map_from-map k [] xs (fresh-All k xs) d in
      let ey = node_map_from-map k [] ys (fresh-All k ys) (Distinct-perm (node_id k) p d) in
      record {
        reordered = rw (ex, ey) (Permᴰ.map (entry k) p);
        one_entry = (node_map_from-perm k [] xs tt (fresh-All k xs) d).0;
        keyed = rw ex (entries-keyed xs);
      }

  -- For nodes with different key hashes, generateTopology gives the same result, the panics
  -- included, for every order in which the nodes are listed.
  pub generate_topology-perm_eq :
      (layers : ℕ) (xs ys : List MixDescriptor) (doc : Document) (srv : Bytes)
      → Permᴰ xs ys
      → Distinct (node_id k) xs
      → generate_topology k layers xs doc srv ≡ generate_topology k layers ys doc srv
  unfolding generate_topology
  generate_topology-perm_eq layers xs ys doc srv p d = rw (
    length-perm p,
    assign_nodes_same (length ys / layers) layers srv doc.topology _ _ (node_map-SameMap p d),
  )
