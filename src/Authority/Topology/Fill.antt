-- ===== src/Authority/Topology/Fill.antt =====
-- The loop of generateTopology that fills the layers up to the target.
use mathlib.Core.List.Permᴰ
use mathlib.Core.List.{Permᴰ, append_assoc}
use opt.Base.{
  ℕ, suc, ◌+◌, ◌*◌, ◌≤◌, List, [], ◌∷◌, ◌++◌, ◌≡◌, refl, ap, arith, length, length-append, All, leb,
  inl, inr, Bool-cases,
}
use opt.Base.Outcome.{ok}
use opt.Base.Perms.{perm_across, length-perm}
use opt.Authority.Types.{Katzenpost, MixDescriptor}
use opt.Authority.Topology.{Layers, fill_layer, fill_layers}
use opt.Authority.Topology.Deal.{flatten, Level}

-- The first layers, as many as `prev` has, hold exactly the target.
abbrev pub Filled : ℕ → Layers → Layers → Type 0
Filled target [] slots = Unit
Filled target (_ ∷ prev) [] = ⊥
Filled target (_ ∷ prev) (s ∷ ss) = (length s ≡ target) × Filled target prev ss

pub Filled-Level :
    (target : ℕ) (prev slots : Layers)
    → Filled target prev slots
    → length prev ≡ length slots
    → Level target 0 slots
Filled-Level target [] [] h e = tt
Filled-Level target [] (s ∷ ss) h e = absurd (omega arith)
Filled-Level target (p ∷ prev) [] h e = absurd h
Filled-Level target (p ∷ prev) (s ∷ ss) h e = (h.0, Filled-Level target prev ss h.1 (omega arith))

length-flatten_capped :
    (target : ℕ) (slots : Layers)
    → All (λ s. length s ≤ target) slots
    → length (flatten slots) ≤ target * length slots
length-flatten_capped target [] h = omega arith
length-flatten_capped target (s ∷ ss) h =
    omega (arith, length-append s (flatten ss), length-flatten_capped target ss h.1)

module _ (k : Katzenpost) where
  fill_layer_total :
      (target : ℕ) (slot pending : List MixDescriptor)
      → length slot ≤ target
      → target ≤ length slot + length pending
      → (slot' : List MixDescriptor) × (rest : List MixDescriptor) × (fill_layer k target slot
            pending
          ≡ ok (slot', rest))
        × (length slot' ≡ target)
        × Permᴰ (slot' ++ rest) (slot ++ pending)
  unfolding fill_layer
  fill_layer_total target slot [] fits h = (slot, [], ground arith, omega arith, Permᴰ.refl _)
  fill_layer_total target slot (n ∷ pending) fits h = elim (Bool-cases (leb target (length slot))) [
    | inl full ↦ (slot, n ∷ pending, rw (full, fill_layer), ground arith, Permᴰ.refl _)
    | inr room ↦
        let (slot', rest, e, l, p) =
          fill_layer_total target (slot ++ n ∷ []) pending
            (ground (arith, length-append slot (n ∷ [])))
            (omega (arith, length-append slot (n ∷ []))) in
        (
          slot',
          rest,
          rw (room, fill_layer) e,
          l,
          Permᴰ.trans p (rw (append_assoc slot (n ∷ []) pending) (Permᴰ.refl _)),
        )
  ]

  -- No index is out of range, as long as the nodes suffice for all layers.
  pub fill_layers_total :
      (target : ℕ) (prev slots : Layers) (pending : List MixDescriptor)
      → length prev ≤ length slots
      → All (λ s. length s ≤ target) slots
      → target * length slots ≤ length (flatten slots) + length pending
      → (slots' : Layers) × (rest : List MixDescriptor) × (fill_layers k target prev slots pending
          ≡ ok (slots', rest))
        × (length slots' ≡ length slots)
        × Filled target prev slots'
        × Permᴰ (flatten slots' ++ rest) (flatten slots ++ pending)
  unfolding fill_layers
  fill_layers_total target [] slots pending le fits h =
      (slots, pending, refl, refl, tt, Permᴰ.refl _)
  fill_layers_total target (p ∷ prev) [] pending le fits h = absurd (omega arith)
  fill_layers_total target (p ∷ prev) (s ∷ ss) pending le fits h =
      let bound = length-flatten_capped target ss fits.1 in
      let total = length-append s (flatten ss) in
      let (s', rest, e, l, q) = fill_layer_total target s pending fits.0 (omega arith) in
      let (ss', rest', e', l', f, q') =
        fill_layers_total target prev ss rest (omega arith) fits.1
          (omega (arith, length-perm q, length-append s' rest, length-append s pending)) in
      (
        s' ∷ ss',
        rest',
        rw (e, fill_layers) (rw e'),
        ap suc l',
        (l, f),
        perm_across s s' (flatten ss) (flatten ss') pending rest rest' q' q,
      )
