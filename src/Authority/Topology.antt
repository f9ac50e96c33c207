-- ===== src/Authority/Topology.antt =====
-- pki/server/state.go: the assignment of mix nodes to layers.
-- `topology[layer]` is walked together with `doc.Topology`, since both loops of the source start at
-- layer 0 and advance by one; where the old topology has more layers than the new one, Go indexes
-- out of range. `idx` into `toAssign[assignIndexes[idx]]` is the list of nodes not yet taken.
pub mod Sort
pub mod Shuffle
pub mod Deal
pub mod Keep
pub mod Fill
pub mod NodeMap
pub mod Complete
pub mod Canonical
pub mod Verify
use opt.Base.{
  ℕ, zero, suc, ◌+◌, ◌/◌, ◌%◌, List, [], ◌∷◌, ◌++◌, map, Option, none, some, Bool, true, false, not,
  ◌||◌, Map, lookup, insert, delete, length, replicate, Bytes, leb, ltb, ◌==◌, if◌then◌else◌,
}
use opt.Base.Unique.{values}
use opt.Base.Outcome.{Outcome, ok, err, panics, ◌>>=◌, or_panic, or_err}
use opt.Authority.Types.{Katzenpost, MixDescriptor, Document}
use Shuffle.{pick}
use Sort.{sort_by}
use Deal.{deal}

abbrev pub Layers : Type 0
Layers = List (List MixDescriptor)

module _ (k : Katzenpost) where
  abbrev pub node_id : MixDescriptor → ℕ
  node_id d = k.sum256 d.identity_key

  unfoldable pub sort_nodes_by_public_key : List MixDescriptor → List MixDescriptor
  sort_nodes_by_public_key = sort_by node_id

  -- nodeMap[hash.Sum256(v.IdentityKey)] = v, for each node in turn
  unfoldable pub node_map_from : Map MixDescriptor → List MixDescriptor → Map MixDescriptor
  node_map_from m [] = m
  node_map_from m (v ∷ vs) = node_map_from (insert (node_id v) v m) vs

  -- The inner loop over `nodeIndexes`: stop at the target, and move over the nodes that are still
  -- there.
  unfoldable pub keep_layer :
      ℕ
      → List MixDescriptor
      → List MixDescriptor
      → Map MixDescriptor
      → List MixDescriptor × Map MixDescriptor
  keep_layer target [] slot m = (slot, m)
  keep_layer target (old ∷ olds) slot m = elim (leb target (length slot)) [
    | true ↦ (slot, m)
    | false ↦ elim (lookup (node_id old) m) [
      | none ↦ keep_layer target olds slot m
      | some n ↦ keep_layer target olds (slot ++ n ∷ []) (delete (node_id old) m)
    ]
  ]

  -- for layer, nodes := range doc.Topology; `sizes` are the earlier calls of rng.Perm
  unfoldable pub keep_layers :
      ℕ
      → Bytes
      → List ℕ
      → Layers
      → Layers
      → Map MixDescriptor
      → Outcome (Layers × Map MixDescriptor × List ℕ)
  keep_layers target srv sizes [] slots m = ok (slots, m, sizes)
  keep_layers target srv sizes ([] ∷ prev) [] m = keep_layers target srv (sizes ++ 0 ∷ []) prev [] m
  keep_layers target srv sizes ((_ ∷ _) ∷ prev) [] m = panics
  keep_layers target srv sizes (nodes ∷ prev) (slot ∷ slots) m = do
    olds ← or_panic (pick nodes (k.perm srv sizes (length nodes)))
    let (slot', m') = keep_layer target olds slot m
    (slots', m'', sizes') ← keep_layers target srv (sizes ++ length nodes ∷ []) prev slots m'
    ok (slot' ∷ slots', m'', sizes')

  -- for len(topology[layer]) < targetNodesPerLayer { n := toAssign[assignIndexes[idx]]; ... }
  unfoldable pub fill_layer :
      ℕ
      → List MixDescriptor
      → List MixDescriptor
      → Outcome (List MixDescriptor × List MixDescriptor)
  fill_layer target slot [] = if leb target (length slot) then ok (slot, []) else panics
  fill_layer target slot (n ∷ pending) = elim (leb target (length slot)) [
    | true ↦ ok (slot, n ∷ pending)
    | false ↦ fill_layer target (slot ++ n ∷ []) pending
  ]

  -- for layer := range doc.Topology
  unfoldable pub fill_layers :
      ℕ → Layers → Layers → List MixDescriptor → Outcome (Layers × List MixDescriptor)
  fill_layers target [] slots pending = ok (slots, pending)
  fill_layers target (_ ∷ prev) [] pending = panics
  fill_layers target (_ ∷ prev) (slot ∷ slots) pending = do
    (slot', rest) ← fill_layer target slot pending
    (slots', rest') ← fill_layers target prev slots rest
    ok (slot' ∷ slots', rest')

  -- What follows the first loop: the nodes left over, in the order of their keys, then shuffled.
  unfoldable pub finish_layers :
      ℕ → Bytes → Layers → Layers → Map MixDescriptor → List ℕ → Outcome Layers
  unfolding fill_layers sort_nodes_by_public_key
  finish_layers target srv prev slots left sizes = do
    let to_assign = sort_nodes_by_public_key (values left)
    pending ← or_panic (pick to_assign (k.perm srv sizes (length to_assign)))
    (filled, rest) ← fill_layers target prev slots pending
    deal 0 rest filled

  -- The three loops, after the division by cfg.Debug.Layers.
  unfoldable pub assign_nodes : ℕ → ℕ → Bytes → Layers → Map MixDescriptor → Outcome Layers
  unfolding keep_layers finish_layers
  assign_nodes target layers srv prev node_map = do
    (slots, left, sizes) ← keep_layers target srv [] prev (replicate layers []) node_map
    finish_layers target srv prev slots left sizes

  unfoldable pub generate_topology : ℕ → List MixDescriptor → Document → Bytes → Outcome Layers
  unfolding assign_nodes node_map_from
  generate_topology layers node_list doc srv =
      if not (k.seed_ok srv) || layers == 0
      then panics
      else assign_nodes (length node_list / layers) layers srv doc.topology
          (node_map_from [] node_list)

  -- A seed that the reader refuses leaves rng nil after the error went to fatalErrCh, and the call
  -- of rng.Perm panics, here and above. A seed of another length than 32 only stops the server, through
  -- fatalErrCh. With no layer, the index of `topology[layer]` panics.
  unfoldable pub generate_random_topology : ℕ → List MixDescriptor → Bytes → Outcome Layers
  generate_random_topology layers nodes srv =
      if k.seed_ok srv
      then (do
        order ← or_panic (pick nodes (k.perm srv [] (length nodes)))
        deal 0 order (replicate layers []))
      else panics

  -- The nodes of one configured layer that have a descriptor; `ids` are the hashes of the keys that
  -- the PEM files of the layer hold.
  unfoldable pub fixed_layer : Map MixDescriptor → List ℕ → List MixDescriptor
  fixed_layer m [] = []
  fixed_layer m (id ∷ ids) = elim (lookup id m) [
    | none ↦ fixed_layer m ids
    | some n ↦ n ∷ fixed_layer m ids
  ]

  -- The key hashes of the configured layers are given: that a PEM file cannot be read, which panics, is
  -- left out.
  unfoldable pub generate_fixed_topology : List (List ℕ) → List MixDescriptor → Layers
  unfolding fixed_layer node_map_from
  generate_fixed_topology layers nodes = map (fixed_layer (node_map_from [] nodes)) layers

-- errInvalidTopology is `false`.
enough_per_layer : ℕ → Layers → Bool
enough_per_layer least [] = true
enough_per_layer least (l ∷ ls) = if ltb (length l) least then false else enough_per_layer least ls

unfoldable pub verify_topology : ℕ → ℕ → Layers → Bool
unfolding enough_per_layer
verify_topology layers least t = if ltb (length t) layers then false else enough_per_layer least t
