-- ===== src/Authority/Topology/NodeMap.antt =====
-- nodeMap of generateTopology: the map from the hashes of the keys to the nodes.
use mathlib.Core.List.Permᴰ
use mathlib.Core.List.{Permᴰ, append-nil, append_assoc}
use opt.Base.{ℕ, List, [], ◌∷◌, ◌++◌, ◌≡◌, ◌≢◌, sym, map, ◌∙◌, All, All-append, Map}
use opt.Base.Perms.{Distinct, Distinct-snoc}
use opt.Base.Unique.{key, IsMap, values, values-append, insert_absent}
use opt.Authority.Types.{Katzenpost, MixDescriptor}
use opt.Authority.Topology.{node_id, node_map_from}

module _ (k : Katzenpost) where
  fresh_snoc :
      (m : Map MixDescriptor) (v : MixDescriptor) (vs : List MixDescriptor)
      → All (λ w. All (λ e. node_id k w ≢ key e) m) vs
      → All (λ w. node_id k v ≢ node_id k w) vs
      → All (λ w. All (λ e. node_id k w ≢ key e) (m ++ (node_id k v, v) ∷ [])) vs
  fresh_snoc m v [] h d = tt
  fresh_snoc m v (w ∷ ws) h d = (
    All-append _ m ((node_id k v, v) ∷ []) h.0 ((λ e. d.0 (sym e)), tt),
    fresh_snoc m v ws h.1 d.1,
  )

  -- Nodes with different keys get an entry each.
  pub node_map_from-perm :
      (m : Map MixDescriptor) (nodes : List MixDescriptor)
      → IsMap m
      → All (λ v. All (λ e. node_id k v ≢ key e) m) nodes
      → Distinct (node_id k) nodes
      → IsMap (node_map_from k m nodes)
        × Permᴰ (values (node_map_from k m nodes)) (values m ++ nodes)
  unfolding node_map_from
  node_map_from-perm m [] u fresh d = (u, rw append-nil (Permᴰ.refl _))
  node_map_from-perm m (v ∷ vs) u fresh d =
      let (u', p) =
        node_map_from-perm (m ++ (node_id k v, v) ∷ []) vs
          (Distinct-snoc key (node_id k v, v) m u fresh.0) (fresh_snoc m v vs fresh.1 d.0) d.1 in
      rw (insert_absent (node_id k v) v m fresh.0) (
        u',
        Permᴰ.trans p (
            rw (values-append m ((node_id k v, v) ∷ []), append_assoc (values m) (v ∷ []) vs)
              (Permᴰ.refl _)),
      )

  abbrev pub entry : MixDescriptor → ℕ × MixDescriptor
  entry v = (node_id k v, v)

  -- The node map of distinct nodes lists them with their keys.
  pub node_map_from-map :
      (m : Map MixDescriptor) (nodes : List MixDescriptor)
      → All (λ v. All (λ e. node_id k v ≢ key e) m) nodes
      → Distinct (node_id k) nodes
      → node_map_from k m nodes ≡ m ++ map entry nodes
  unfolding node_map_from
  node_map_from-map m [] fresh d = rw append-nil
  node_map_from-map m (v ∷ vs) fresh d = rw (insert_absent (node_id k v) v m fresh.0) (
      node_map_from-map (m ++ entry v ∷ []) vs (fresh_snoc m v vs fresh.1 d.0) d.1
      ∙ append_assoc m (entry v ∷ []) (map entry vs))

  pub fresh-All :
      (nodes : List MixDescriptor)
      → All (λ v. All (λ (e : ℕ × MixDescriptor). node_id k v ≢ key e) []) nodes
  fresh-All [] = tt
  fresh-All (v ∷ vs) = (tt, fresh-All vs)
