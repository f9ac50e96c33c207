-- ===== src/Authority/Topology/Complete.antt =====
-- generateTopology and generateRandomTopology as a whole: their result, and the sizes of its layers.
use mathlib.Core.List.Permᴰ
use mathlib.Core.List.{Permᴰ, append-nil}
use native.Mathlib.Nat.{div-mul-le_self}
use opt.Base.{
  ℕ, zero, suc, ◌+◌, ◌*◌, ◌/◌, ◌%◌, ◌≤◌, ◌<◌, List, [], ◌++◌, ◌≡◌, refl, sym, ◌∙◌, some, arith,
  length, length-append, length-replicate, replicate, All, Bytes, Map, true, ==_ne,
}
use opt.Base.Outcome.{ok}
use opt.Base.Perms.{Distinct, length-perm}
use opt.Base.Unique.{IsMap, values}
use opt.Authority.Types.{Katzenpost, MixDescriptor, Document}
use opt.Authority.Topology.{
  Layers, node_id, node_map_from, finish_layers, assign_nodes, generate_topology,
  generate_random_topology, sort_nodes_by_public_key,
}
use opt.Authority.Topology.Deal.{flatten, Level, deal-Deals, deal-Leveled, Leveled, Leveled-div}
use opt.Authority.Topology.Shuffle.{pick, pick-perm}
use opt.Authority.Topology.Sort.{sort_by-perm}
use opt.Authority.Topology.Keep.{ShufflesIndices, keep_layers-KeptAll}
use opt.Authority.Topology.Fill.{Filled-Level, fill_layers_total}
use opt.Authority.Topology.NodeMap.{node_map_from-perm, fresh-All}

abbrev empty_layers : ℕ → Layers
empty_layers n = replicate n []

flatten-empty_layers : (n : ℕ) → flatten (empty_layers n) ≡ []
flatten-empty_layers zero = refl
flatten-empty_layers (suc n) = flatten-empty_layers n

Level-empty_layers : (n : ℕ) → Level 0 0 (empty_layers n)
Level-empty_layers zero = tt
Level-empty_layers (suc n) = (refl, Level-empty_layers n)

empty_layers_fit : (target n : ℕ) → All (λ s. length s ≤ target) (empty_layers n)
empty_layers_fit target zero = tt
empty_layers_fit target (suc n) = (omega arith, empty_layers_fit target n)

module _ (k : Katzenpost) where
  -- What a topology of `nodes` in `layers` layers has to be.
  pub record Places (layers : ℕ) (nodes : List MixDescriptor) (t : Layers) : Type 0 where
    pub layer_count : length t ≡ layers
    pub each_once : Permᴰ (flatten t) nodes

  waiting-perm :
      (left : Map MixDescriptor) (sizes : List ℕ) (srv : Bytes)
      → ShufflesIndices k
      → let to_assign = sort_nodes_by_public_key k (values left) in
        (pending : List MixDescriptor) × (pick to_assign (k.perm srv sizes (length to_assign))
          ≡ some pending)
        × Permᴰ pending (values left)
  unfolding sort_nodes_by_public_key
  waiting-perm left sizes srv sh =
      let to_assign = sort_nodes_by_public_key k (values left) in
      let (pending, e, p) =
        pick-perm to_assign (k.perm srv sizes (length to_assign))
          (sh srv sizes (length to_assign)) in
      (pending, e, Permᴰ.trans p (sort_by-perm (node_id k) (values left)))

  finish_layers_total :
      (target : ℕ) (srv : Bytes) (prev slots : Layers) (left : Map MixDescriptor) (sizes : List ℕ)
      → ShufflesIndices k
      → 0 < length slots
      → length prev ≤ length slots
      → All (λ s. length s ≤ target) slots
      → target * length slots ≤ length (flatten slots) + length (values left)
      → (t : Layers) × (finish_layers k target srv prev slots left sizes ≡ ok t)
        × (length t ≡ length slots)
        × Permᴰ (flatten t) (flatten slots ++ values left)
        × (length prev ≡ length slots → Leveled t)
  unfolding finish_layers
  finish_layers_total target srv prev slots left sizes sh pos le fits enough =
      let (pending, e, p) = waiting-perm left sizes srv sh in
      let (filled, rest, e', l, f, p') =
        fill_layers_total k target prev slots pending le fits (omega (arith, length-perm p)) in
      let (t, e'', l', p'') = deal-Deals 0 rest filled (omega arith) in
      (
        t,
        rw (e, e') e'',
        l' ∙ l,
        Permᴰ.trans p'' (
            Permᴰ.trans (Permᴰ.append_comm rest (flatten filled))
              (Permᴰ.trans p' (Permᴰ.append_left (flatten slots) p))),
        λ same.
            deal-Leveled target 0 rest filled (omega arith)
              (Filled-Level target prev filled f (omega arith)) e'',
      )

  assign_nodes_total :
      (target layers : ℕ) (srv : Bytes) (prev : Layers) (m : Map MixDescriptor)
      → ShufflesIndices k
      → 0 < layers
      → length prev ≤ layers
      → IsMap m
      → target * layers ≤ length (values m)
      → (t : Layers) × (assign_nodes k target layers srv prev m ≡ ok t)
        × Places layers (values m) t
        × (length prev ≡ layers → Leveled t)
  unfolding assign_nodes
  assign_nodes_total target layers srv prev m sh pos le u enough =
      let n = length-replicate {A = List MixDescriptor} layers [] in
      let (slots, left, sizes, e1, kept) =
        keep_layers-KeptAll k target srv [] prev (empty_layers layers) m sh (omega arith)
          (empty_layers_fit target layers) u in
      let p : Permᴰ (flatten slots ++ values left) (values m) =
        rw (flatten-empty_layers layers) at kept.placed in
      let size = kept.layers ∙ n in
      let (t, e2, l, p2, lev) =
        finish_layers_total target srv prev slots left sizes sh (rw size pos) (rw size le)
          kept.all_capped
          (rw size (omega (arith, length-perm p, length-append (flatten slots) (values left)))) in
      (
        t,
        rw e1 e2,
        record { layer_count = l ∙ size; each_once = Permᴰ.trans p2 p },
        λ same. lev (same ∙ sym size),
      )

  -- Sizes that are level are the quotient and the remainder of the number of nodes.
  share :
      (layers : ℕ) (nodes : List MixDescriptor) (t : Layers)
      → Places layers nodes t
      → Leveled t
      → Level (length nodes / layers) (length nodes % layers) t
  share layers nodes t p lev =
      let h : Level (length nodes / length t) (length nodes % length t) t =
        Leveled-div (length nodes) t (length-perm p.each_once) lev in
      rw p.layer_count at h

  -- Given nodes with different key hashes, a seed that the reader takes, at least one layer, and a
  -- previous document of at most as many layers, generateTopology returns a topology with the
  -- configured number of layers in which every node stands exactly once. If the previous document
  -- has that number of layers, then the first `n % layers` layers hold `n / layers + 1` of the n
  -- nodes and the others hold `n / layers`.
  pub generate_topology-Places :
      (layers : ℕ) (nodes : List MixDescriptor) (doc : Document) (srv : Bytes)
      → ShufflesIndices k
      → k.seed_ok srv ≡ true
      → 0 < layers
      → length doc.topology ≤ layers
      → Distinct (node_id k) nodes
      → (t : Layers) × (generate_topology k layers nodes doc srv ≡ ok t)
        × Places layers nodes t
        × (length doc.topology ≡ layers → Level (length nodes / layers) (length nodes % layers) t)
  unfolding generate_topology
  generate_topology-Places layers nodes doc srv sh seed pos le d =
      let (u, p) = node_map_from-perm k [] nodes tt (fresh-All k nodes) d in
      let (t, e, pl, lev) =
        assign_nodes_total (length nodes / layers) layers srv doc.topology
          (node_map_from k [] nodes) sh pos le u
          (omega (arith, length-perm p, div-mul-le_self (length nodes) layers)) in
      let placed : Places layers nodes t = record {
        layer_count = pl.layer_count;
        each_once = Permᴰ.trans pl.each_once p;
      } in
      (
        t,
        rw (seed, ==_ne layers 0 (λ z. omega arith)) e,
        placed,
        λ same. share layers nodes t placed (lev same),
      )

  -- Given a seed that the reader takes and at least one layer, generateRandomTopology returns a
  -- topology in which every node stands exactly once, the first `n % layers` layers hold
  -- `n / layers + 1` of the n nodes, and the others hold `n / layers`.
  pub generate_random_topology-Places :
      (layers : ℕ) (nodes : List MixDescriptor) (srv : Bytes)
      → ShufflesIndices k
      → k.seed_ok srv ≡ true
      → 0 < layers
      → (t : Layers) × (generate_random_topology k layers nodes srv ≡ ok t)
        × Places layers nodes t
        × Level (length nodes / layers) (length nodes % layers) t
  unfolding generate_random_topology
  generate_random_topology-Places layers nodes srv sh seed pos =
      let n = length-replicate {A = List MixDescriptor} layers [] in
      let (order, eo, po) =
        pick-perm nodes (k.perm srv [] (length nodes)) (sh srv [] (length nodes)) in
      let (t, e, l, p) = deal-Deals 0 order (empty_layers layers) (omega arith) in
      let placed : Places layers nodes t = record {
        layer_count = l ∙ n;
        each_once = Permᴰ.trans p (rw (flatten-empty_layers layers) (rw append-nil po));
      } in
      let lev =
        deal-Leveled 0 0 order (empty_layers layers) (omega arith) (Level-empty_layers layers) e in
      (t, rw (seed, eo) e, placed, share layers nodes t placed lev)
