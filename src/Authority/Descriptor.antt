-- ===== src/Authority/Descriptor.antt =====
-- pki/server/state.go: which nodes may publish, and what happens to the descriptors that they
-- upload. `db.Update` is a write to the buckets of the state; where it fails, the server shuts
-- down through fatalErrCh.
pub mod Laws
use text.Mathlib.Text.{◌==◌ as str_eq}
use opt.Base.{
  ℕ, String, List, [], ◌∷◌, Option, none, some, Bool, true, false, not, ◌&&◌, Bytes, bytes_eq, Map,
  lookup, lookup_at, ensure, store, is_some, if◌then◌else◌,
}
use opt.Authority.Types.{Katzenpost, MixDescriptor, ReplicaDescriptor}
use opt.Authority.State.{State}

-- Why an upload is refused.
pub data Refusal : Type 0 where
  marshal_failed conflicting late : Refusal

-- The map of names: the node is listed, under the name that it gives.
abbrev pub listed_as : String → Option String → Bool
listed_as name none = false
listed_as name (some n) = str_eq n name

abbrev value_or_false : Option Bool → Bool
value_or_false none = false
value_or_false (some b) = b

module _ (k : Katzenpost) where
  unfoldable pub is_descriptor_authorized : MixDescriptor → State → Bool
  is_descriptor_authorized desc s =
      let pk = k.sum256 desc.identity_key in
      if not desc.is_gateway_node && not desc.is_service_node
      then value_or_false (lookup pk s.authorized_mixes)
      else if desc.is_gateway_node
      then listed_as desc.name (lookup pk s.authorized_gateway_nodes)
      else listed_as desc.name (lookup pk s.authorized_service_nodes)

  unfoldable pub is_replica_descriptor_authorized : ReplicaDescriptor → State → Bool
  is_replica_descriptor_authorized desc s =
      listed_as desc.name (lookup (k.sum256 desc.identity_key) s.authorized_replica_nodes)

  -- Redundant uploads that do not change are harmless; changed ones are refused.
  abbrev pub redundant : Bytes → Option Bytes → Option Refusal
  redundant raw none = some marshal_failed
  redundant raw (some serialized) = if bytes_eq serialized raw then none else some conflicting

  unfoldable pub on_descriptor_upload : Bytes → MixDescriptor → ℕ → State → State × Option Refusal
  on_descriptor_upload raw desc epoch s =
      let pk = k.sum256 desc.identity_key in
      let s' = record s { descriptors = ensure epoch s.descriptors } in
      elim (lookup_at epoch pk s'.descriptors) [
        | some d ↦ (s', redundant raw (k.marshal_mix d))
        | none ↦ if is_some (lookup epoch s'.documents) then (s', some late) else (
          record s' {
            db_descriptors = store epoch pk raw (ensure epoch s'.db_descriptors);
            descriptors = store epoch pk desc s'.descriptors;
          },
          none,
        )
      ]

  unfoldable pub on_replica_descriptor_upload :
      Bytes → ReplicaDescriptor → ℕ → State → State × Option Refusal
  on_replica_descriptor_upload raw desc epoch s =
      let pk = k.sum256 desc.identity_key in
      let s' = record s { replica_descriptors = ensure epoch s.replica_descriptors } in
      elim (lookup_at epoch pk s'.replica_descriptors) [
        | some d ↦ (s', redundant raw (k.marshal_replica d))
        | none ↦ if is_some (lookup epoch s'.documents) then (s', some late) else (
          record s' {
            db_replica_descriptors = store epoch pk raw (ensure epoch s'.db_replica_descriptors);
            replica_descriptors = store epoch pk desc s'.replica_descriptors;
          },
          none,
        )
      ]
