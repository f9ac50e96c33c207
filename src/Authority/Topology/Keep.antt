-- ===== src/Authority/Topology/Keep.antt =====
-- The loop of generateTopology over the old topology: the nodes that keep their layer.
use mathlib.Core.List.Permᴰ
use mathlib.Core.List.{Permᴰ, append_assoc}
use opt.Base.{
  ℕ, suc, ◌≤◌, List, [], ◌∷◌, ◌++◌, some, false, ◌≡◌, refl, ap, arith, Map, lookup, delete, length,
  length-append, All, Bytes, leb, inl, inr, Bool-cases, Option-cases,
}
use opt.Base.Outcome.{ok}
use opt.Base.Perms.{perm_across}
use opt.Base.Unique.{IsMap, values, values-delete, delete-IsMap}
use opt.Authority.Types.{Katzenpost, MixDescriptor}
use opt.Authority.Topology.{Layers, node_id, keep_layer, keep_layers}
use opt.Authority.Topology.Deal.{flatten}
use opt.Authority.Topology.Shuffle.{range, pick-perm}

-- rng.Perm(n) is a permutation of 0, ..., n - 1.
abbrev pub ShufflesIndices : Katzenpost → Type 0
ShufflesIndices k = (srv : Bytes) (sizes : List ℕ) (n : ℕ) → Permᴰ (k.perm srv sizes n) (range n)

module _ (k : Katzenpost) where
  -- Every node stands in the slot or is still in the map, once; the target is not passed.
  record Kept (target : ℕ) (slot : List MixDescriptor) (m : Map MixDescriptor)
      (r : List MixDescriptor × Map MixDescriptor) : Type 0 where
    capped : length r.0 ≤ target
    is_map : IsMap r.1
    moved : Permᴰ (r.0 ++ values r.1) (slot ++ values m)

  Kept-step :
      (target : ℕ) (n : MixDescriptor) (a : ℕ) (slot : List MixDescriptor) (m : Map MixDescriptor)
      (r : List MixDescriptor × Map MixDescriptor)
      → IsMap m
      → lookup a m ≡ some n
      → Kept target (slot ++ n ∷ []) (delete a m) r
      → Kept target slot m r
  Kept-step target n a slot m r u e h = record {
    capped = h.capped;
    is_map = h.is_map;
    moved =
        Permᴰ.trans h.moved
          (rw append_assoc (Permᴰ.append_left slot (Permᴰ.symm (values-delete a m u e))));
  }

  room_for_one :
      (target : ℕ) (slot : List MixDescriptor) (n : MixDescriptor)
      → leb target (length slot) ≡ false
      → length (slot ++ n ∷ []) ≤ target
  room_for_one target slot n h = ground (arith, length-append slot (n ∷ []))

  keep_layer-Kept :
      (target : ℕ) (olds slot : List MixDescriptor) (m : Map MixDescriptor)
      → length slot ≤ target
      → IsMap m
      → Kept target slot m (keep_layer k target olds slot m)
  unfolding keep_layer
  keep_layer-Kept target [] slot m h u = record { capped = h; is_map = u; moved = Permᴰ.refl _ }
  keep_layer-Kept target (old ∷ olds) slot m h u = elim (Bool-cases (leb target (length slot))) [
    | inl full ↦ rw (full, keep_layer) (record { capped = h; is_map = u; moved = Permᴰ.refl _ })
    | inr room ↦
        rw (room, keep_layer)
          (elim (Option-cases (lookup (node_id k old) m)) [
            | inl gone ↦ rw (gone, keep_layer) (keep_layer-Kept target olds slot m h u)
            | inr (n, here) ↦
                rw (here, keep_layer)
                  (Kept-step target n (node_id k old) slot m _ u here (
                    keep_layer-Kept target olds (slot ++ n ∷ []) (delete (node_id k old) m)
                      (room_for_one target slot n room) (delete-IsMap (node_id k old) m u)))
          ])
  ]

  -- The same for all layers, with the layers beyond the old topology left as they were.
  pub record KeptAll (target : ℕ) (slots : Layers) (m : Map MixDescriptor) (slots' : Layers)
      (m' : Map MixDescriptor) : Type 0 where
    pub layers : length slots' ≡ length slots
    pub all_capped : All (λ s. length s ≤ target) slots'
    pub one_entry : IsMap m'
    pub placed : Permᴰ (flatten slots' ++ values m') (flatten slots ++ values m)

  KeptAll-cons :
      (target : ℕ) (slot slot' : List MixDescriptor) (slots slots' : Layers)
      (m m' m'' : Map MixDescriptor)
      → Kept target slot m (slot', m')
      → KeptAll target slots m' slots' m''
      → KeptAll target (slot ∷ slots) m (slot' ∷ slots') m''
  KeptAll-cons target slot slot' slots slots' m m' m'' h g = record {
    layers = ap suc g.layers;
    all_capped = (h.capped, g.all_capped);
    one_entry = g.one_entry;
    placed =
        perm_across slot slot' (flatten slots) (flatten slots') (values m) (values m') (values m'')
          g.placed h.moved;
  }

  -- Without a panic as long as the old topology has no more layers than the new one.
  pub keep_layers-KeptAll :
      (target : ℕ) (srv : Bytes) (sizes : List ℕ) (prev slots : Layers) (m : Map MixDescriptor)
      → ShufflesIndices k
      → length prev ≤ length slots
      → All (λ s. length s ≤ target) slots
      → IsMap m
      → (slots' : Layers) × (m' : Map MixDescriptor) × (sizes' : List ℕ) × (keep_layers k target srv
            sizes prev slots m
          ≡ ok (slots', m', sizes'))
        × KeptAll target slots m slots' m'
  unfolding keep_layers
  keep_layers-KeptAll target srv sizes [] slots m sh le fits u = (
    slots,
    m,
    sizes,
    refl,
    record { layers = refl; all_capped = fits; one_entry = u; placed = Permᴰ.refl _ },
  )
  keep_layers-KeptAll target srv sizes (nodes ∷ prev) [] m sh le fits u = absurd (omega arith)
  keep_layers-KeptAll target srv sizes (nodes ∷ prev) (slot ∷ slots) m sh le fits u =
      let (olds, eo, po) =
        pick-perm nodes (k.perm srv sizes (length nodes)) (sh srv sizes (length nodes)) in
      let one = keep_layer-Kept target olds slot m fits.0 u in
      let (slot', m') = keep_layer k target olds slot m in
      let (slots', m'', sizes', e, g) =
        keep_layers-KeptAll target srv (sizes ++ length nodes ∷ []) prev slots m' sh (omega arith)
          fits.1 one.is_map in
      (
        slot' ∷ slots',
        m'',
        sizes',
        rw (eo, keep_layers) (rw e),
        KeptAll-cons target slot slot' slots slots' m m' m'' one g,
      )
