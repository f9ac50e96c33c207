-- ===== src/Authority/Document/Carve.antt =====
-- The first loop of getDocument, which carves the descriptors by the kind of their node.
use mathlib.Core.List.Permᴰ
use mathlib.Core.List.{Permᴰ}
use opt.Base.{
  inl, inr, ℕ, List, [], ◌∷◌, ◌++◌, ◌≡◌, refl, subst, arith, All, true, false, Bool-cases,
}
use opt.Base.Perms.{Distinct, perm_front}
use opt.Authority.Types.{MixDescriptor}
use opt.Authority.Document.{Kinds, carve}

-- The kinds hold each descriptor once, and under its kind.
pub record Carves (ds : List MixDescriptor) (ks : Kinds) : Type 0 where
  pub each_once : Permᴰ (ks.gateways ++ (ks.service_nodes ++ ks.nodes)) ds
  pub all_gateways : All (λ v. v.is_gateway_node ≡ true) ks.gateways
  pub all_services :
      All (λ v. (v.is_gateway_node ≡ false) × (v.is_service_node ≡ true)) ks.service_nodes
  pub all_mixes : All (λ v. (v.is_gateway_node ≡ false) × (v.is_service_node ≡ false)) ks.nodes

carve_gateway :
    (v : MixDescriptor) (ds : List MixDescriptor) (ks : Kinds)
    → v.is_gateway_node ≡ true
    → Carves ds ks
    → Carves (v ∷ ds) (record ks { gateways = v ∷ ks.gateways })
carve_gateway v ds ks g c = record {
  each_once = Permᴰ.cons refl c.each_once;
  all_gateways = (g, c.all_gateways);
  all_services = c.all_services;
  all_mixes = c.all_mixes;
}

carve_service :
    (v : MixDescriptor) (ds : List MixDescriptor) (ks : Kinds)
    → v.is_gateway_node ≡ false
    → v.is_service_node ≡ true
    → Carves ds ks
    → Carves (v ∷ ds) (record ks { service_nodes = v ∷ ks.service_nodes })
carve_service v ds ks g h c = record {
  each_once =
      Permᴰ.trans (perm_front v ks.gateways (ks.service_nodes ++ ks.nodes))
        (Permᴰ.cons refl c.each_once);
  all_gateways = c.all_gateways;
  all_services = ((g, h), c.all_services);
  all_mixes = c.all_mixes;
}

carve_mix :
    (v : MixDescriptor) (ds : List MixDescriptor) (ks : Kinds)
    → v.is_gateway_node ≡ false
    → v.is_service_node ≡ false
    → Carves ds ks
    → Carves (v ∷ ds) (record ks { nodes = v ∷ ks.nodes })
carve_mix v ds ks g h c = record {
  each_once = Permᴰ.trans (Permᴰ.append_left ks.gateways (perm_front v ks.service_nodes ks.nodes)) (
      Permᴰ.trans (perm_front v ks.gateways (ks.service_nodes ++ ks.nodes))
        (Permᴰ.cons refl c.each_once));
  all_gateways = c.all_gateways;
  all_services = c.all_services;
  all_mixes = ((g, h), c.all_mixes);
}

module _ (v : MixDescriptor) (vs : List MixDescriptor) where
  carve_first :
      v.is_gateway_node ≡ true
      → record (carve vs) { gateways = v ∷ (carve vs).gateways } ≡ carve (v ∷ vs)
  unfolding carve
  carve_first g = ground arith

  carve_second :
      v.is_gateway_node ≡ false
      → v.is_service_node ≡ true
      → record (carve vs) { service_nodes = v ∷ (carve vs).service_nodes } ≡ carve (v ∷ vs)
  unfolding carve
  carve_second g h = ground arith

  carve_third :
      v.is_gateway_node ≡ false
      → v.is_service_node ≡ false
      → record (carve vs) { nodes = v ∷ (carve vs).nodes } ≡ carve (v ∷ vs)
  unfolding carve
  carve_third g h = ground arith

pub carve-Carves : (ds : List MixDescriptor) → Carves ds (carve ds)
unfolding carve
carve-Carves [] = record {
  each_once = Permᴰ.nil;
  all_gateways = tt;
  all_services = tt;
  all_mixes = tt;
}
carve-Carves (v ∷ vs) = elim (Bool-cases v.is_gateway_node) [
  | inl g ↦
      subst (Carves (v ∷ vs)) (carve_first v vs g)
        (carve_gateway v vs (carve vs) g (carve-Carves vs))
  | inr g ↦ elim (Bool-cases v.is_service_node) [
    | inl h ↦
        subst (Carves (v ∷ vs)) (carve_second v vs g h)
          (carve_service v vs (carve vs) g h (carve-Carves vs))
    | inr h ↦
        subst (Carves (v ∷ vs)) (carve_third v vs g h)
          (carve_mix v vs (carve vs) g h (carve-Carves vs))
  ]
]

-- A predicate at every descriptor holds at every mix.
carve_nodes-All :
    (P : MixDescriptor → Type 0) (ds : List MixDescriptor) → All P ds → All P (carve ds).nodes
unfolding carve
carve_nodes-All P [] h = tt
carve_nodes-All P (v ∷ vs) h = elim (Bool-cases v.is_gateway_node) [
  | inl g ↦ subst (λ ks. All P ks.nodes) (carve_first v vs g) (carve_nodes-All P vs h.1)
  | inr g ↦ elim (Bool-cases v.is_service_node) [
    | inl q ↦ subst (λ ks. All P ks.nodes) (carve_second v vs g q) (carve_nodes-All P vs h.1)
    | inr q ↦ subst (λ ks. All P ks.nodes) (carve_third v vs g q) (h.0, carve_nodes-All P vs h.1)
  ]
]

pub carve_nodes-Distinct :
    (f : MixDescriptor → ℕ) (ds : List MixDescriptor) → Distinct f ds → Distinct f (carve ds).nodes
unfolding carve
carve_nodes-Distinct f [] h = tt
carve_nodes-Distinct f (v ∷ vs) h = elim (Bool-cases v.is_gateway_node) [
  | inl g ↦ subst (λ ks. Distinct f ks.nodes) (carve_first v vs g) (carve_nodes-Distinct f vs h.1)
  | inr g ↦ elim (Bool-cases v.is_service_node) [
    | inl q ↦
        subst (λ ks. Distinct f ks.nodes) (carve_second v vs g q) (carve_nodes-Distinct f vs h.1)
    | inr q ↦
        subst (λ ks. Distinct f ks.nodes) (carve_third v vs g q)
          (carve_nodes-All _ vs h.0, carve_nodes-Distinct f vs h.1)
  ]
]
