-- ===== src/Authority/Topology/Verify.antt =====
-- verifyTopology, and that the generated topologies pass it.
use native.Mathlib.Nat.{le-div_iff_mul-le, mul_comm}
use opt.Base.{
  ℕ, zero, suc, ◌*◌, ◌/◌, ◌%◌, ◌≤◌, ◌<◌, List, [], ◌∷◌, ◌≡◌, ◌↔◌, refl, arith, length, All, true,
  Bytes,
}
use opt.Base.Outcome.{ok}
use opt.Base.Perms.{Distinct}
use opt.Authority.Types.{Katzenpost, MixDescriptor, Document}
use opt.Authority.Topology.{Layers, node_id, generate_topology, enough_per_layer, verify_topology}
use opt.Authority.Topology.Deal.{Level}
use opt.Authority.Topology.Keep.{ShufflesIndices}
use opt.Authority.Topology.Complete.{generate_topology-Places}

enough_of :
    (least : ℕ) (t : Layers) → All (λ l. least ≤ length l) t → enough_per_layer least t ≡ true
unfolding enough_per_layer
enough_of least [] h = refl
enough_of least (l ∷ ls) h = ground (arith, enough_of least ls h.1, h.0)

enough_per_layer-All :
    (least : ℕ) (t : Layers) → enough_per_layer least t ≡ true → All (λ l. least ≤ length l) t
unfolding enough_per_layer
enough_per_layer-All least [] h = tt
enough_per_layer-All least (l ∷ ls) h = (ground arith, enough_per_layer-All least ls (ground arith))

-- A topology passes exactly if it has at least the configured number of layers and each of its layers
-- the configured number of nodes.
pub verify_topology_iff :
    (layers least : ℕ) (t : Layers)
    → (verify_topology layers least t ≡ true)
      ↔ ((layers ≤ length t) × All (λ l. least ≤ length l) t)
unfolding verify_topology
verify_topology_iff layers least t = (
  λ h. (ground arith, enough_per_layer-All least t (ground arith)),
  λ (n, a). ground (arith, enough_of least t a),
)

Level-All : (least b r : ℕ) (t : Layers) → least ≤ b → Level b r t → All (λ l. least ≤ length l) t
Level-All least b r [] h l = tt
Level-All least b zero (x ∷ xs) h l = (omega (arith, l.0), Level-All least b zero xs h l.1)
Level-All least b (suc r) (x ∷ xs) h l = (omega (arith, l.0), Level-All least b r xs h l.1)

share_enough : (layers least n : ℕ) → 0 < layers → layers * least ≤ n → least ≤ n / layers
share_enough layers least n pos h = (le-div_iff_mul-le pos).1 (rw (mul_comm layers least) at h)

module _ (k : Katzenpost) where
  -- Given what generateTopology needs, a previous document with the configured number of layers, and
  -- as many nodes as the layers must hold, the generated topology passes verifyTopology.
  pub generate_topology-verify_topology :
      (layers least : ℕ) (nodes : List MixDescriptor) (doc : Document) (srv : Bytes)
      → ShufflesIndices k
      → k.seed_ok srv ≡ true
      → 0 < layers
      → length doc.topology ≡ layers
      → Distinct (node_id k) nodes
      → layers * least ≤ length nodes
      → (t : Layers) × (generate_topology k layers nodes doc srv ≡ ok t)
        × (verify_topology layers least t ≡ true)
  generate_topology-verify_topology layers least nodes doc srv sh seed pos same d enough =
      let (t, e, p, lev) =
        generate_topology-Places k layers nodes doc srv sh seed pos (omega (arith, same)) d in
      (
        t,
        e,
        (verify_topology_iff layers least t).1 (
          omega (arith, p.layer_count),
          Level-All least (length nodes / layers) (length nodes % layers) t
              (share_enough layers least (length nodes) pos enough) (lev same),
        ),
      )
