-- ===== src/Tests/Topologies.antt =====
-- Topologies of three nodes in two layers.
use mathlib.Core.List.Permᴰ
use mathlib.Core.List.{Permᴰ}
use opt.Base.{
  true, ◌/◌, ◌%◌, List, [], ◌∷◌, ◌≡◌, refl, arith, length, Bytes, lookup, subst, some-inj, ◌≤◌,
}
use opt.Base.Outcome.{ok}
use opt.Authority.Types.{MixDescriptor, Document}
use opt.Authority.Topology.{Layers, node_id, generate_topology}
use opt.Authority.Topology.Deal.{Level}
use opt.Authority.Topology.Keep.{ShufflesIndices}
use opt.Authority.Topology.Complete.{Places, generate_topology-Places}
use opt.Authority.Topology.Canonical.{generate_topology-perm_eq}
use opt.Authority.Document.{get_document}
use opt.Authority.Document.Contents.{Placeable, Contains, get_document-Contains}
use opt.Base.Perms.{Distinct}
use opt.Authority.Topology.{verify_topology}
use opt.Authority.Topology.Verify.{generate_topology-verify_topology}
use opt.Tests.World.{packages, rates, mix_11, mix_12, mix_13, gateway_14, doc_4, voting_state}

abbrev three : List MixDescriptor
three = mix_11 ∷ mix_12 ∷ mix_13 ∷ []

abbrev swapped : List MixDescriptor
swapped = mix_12 ∷ mix_11 ∷ mix_13 ∷ []

abbrev seed : Bytes
seed = 9 ∷ []

shuffles : ShufflesIndices packages
shuffles srv sizes n = Permᴰ.refl _

three-Distinct : Distinct (node_id packages) three
three-Distinct =
    (((λ e. omega arith), ((λ e. omega arith), tt)), (((λ e. omega arith), tt), (tt, tt)))

generate_topology_example :
    (t : Layers) × (generate_topology packages 2 three doc_4 seed ≡ ok t)
    × Places packages 2 three t
    × (length doc_4.topology ≡ 2 → Level (length three / 2) (length three % 2) t)
generate_topology_example =
    generate_topology-Places packages 2 three doc_4 seed shuffles refl (omega arith) (omega arith)
      three-Distinct

generate_topology-perm_example :
    generate_topology packages 2 three doc_4 seed ≡ generate_topology packages 2 swapped doc_4 seed
generate_topology-perm_example =
    generate_topology-perm_eq packages 2 three swapped doc_4 seed (Permᴰ.swap refl refl)
      three-Distinct

abbrev four : List MixDescriptor
four = gateway_14 ∷ three

four_Placeable : Placeable packages voting_state four seed
unfolding lookup
four_Placeable = record {
  dynamic = refl;
  some_layer = omega arith;
  shuffles = shuffles;
  seed = refl;
  prior_layers = λ d e. subst (λ (x : Document). length x.topology ≤ 2) (some-inj e) (omega arith);
  distinct_keys =
      (((λ e. omega arith), ((λ e. omega arith), ((λ e. omega arith), tt))), three-Distinct);
}

get_document_example :
    (doc : Document) × (get_document packages voting_state four [] rates seed ≡ ok doc)
    × Contains packages voting_state four seed doc
get_document_example = get_document-Contains packages voting_state four seed [] rates four_Placeable

generate_topology-verify_topology_example :
    (t : Layers) × (generate_topology packages 2 three doc_4 seed ≡ ok t)
    × (verify_topology 2 1 t ≡ true)
generate_topology-verify_topology_example =
    generate_topology-verify_topology packages 2 1 three doc_4 seed shuffles refl (omega arith) refl
      three-Distinct (omega arith)
