-- ===== src/Authority/Descriptor/Laws.antt =====
-- onDescriptorUpload and onReplicaDescriptorUpload: what an upload changes, and when it is refused.
use opt.Base.{
  ℕ, ◌≡◌, ◌⊎◌, ◌↔◌, inl, inr, some, none, Bytes, lookup, lookup_at, ensure, is_some, arith,
  lookup_at-ensure, lookup_at-store, Option-cases, bytes_eq_sound, bytes_eq_refl, not, ◌&&◌, ◌==◌,
  if◌then◌else◌,
}
use opt.Authority.Types.{Katzenpost, MixDescriptor, ReplicaDescriptor}
use opt.Authority.State.{State}
use opt.Authority.Descriptor.{on_descriptor_upload, on_replica_descriptor_upload}

module _ (k : Katzenpost) (raw : Bytes) (desc : MixDescriptor) (epoch : ℕ) (s : State) where
  abbrev pub node_key : ℕ
  node_key = k.sum256 desc.identity_key

  same_node :
      lookup_at epoch node_key (ensure epoch s.descriptors) ≡ lookup_at epoch node_key s.descriptors
  same_node = lookup_at-ensure epoch epoch node_key s.descriptors

  -- A descriptor that is stored is not replaced, whatever is uploaded for whatever epoch.
  pub on_descriptor_upload_keeps :
      (j q : ℕ) (d : MixDescriptor)
      → lookup_at j q s.descriptors ≡ some d
      → lookup_at j q (on_descriptor_upload k raw desc epoch s).0.descriptors ≡ some d
  unfolding on_descriptor_upload
  on_descriptor_upload_keeps j q d h = ground (
    arith,
    same_node,
    lookup_at-ensure epoch j q s.descriptors,
    lookup_at-store epoch node_key j q desc (ensure epoch s.descriptors),
  )

  -- The upload of a node without a descriptor for the epoch succeeds exactly while the epoch has no
  -- document; of a node that has one, exactly if it marshals to the bytes uploaded.
  pub on_descriptor_upload_ok_iff : ((on_descriptor_upload k raw desc epoch s).1 ≡ none) ↔ (
      ((lookup_at epoch node_key s.descriptors ≡ none) × (lookup epoch s.documents ≡ none))
      ⊎ ((d : MixDescriptor) × (lookup_at epoch node_key s.descriptors ≡ some d)
          × (k.marshal_mix d ≡ some raw)))
  unfolding on_descriptor_upload
  on_descriptor_upload_ok_iff = (
    λ h. elim (Option-cases (lookup_at epoch node_key s.descriptors)) [
      | inl e ↦ inl (e, ground (arith, same_node))
      | inr (d, e) ↦ elim (Option-cases (k.marshal_mix d)) [
        | inl m ↦ absurd (ground (arith, same_node))
        | inr (b, m) ↦ inr (d, e, ground (arith, same_node, bytes_eq_sound b raw))
      ]
    ],
    λ h. elim h [
      | inl (e, n) ↦ ground (arith, same_node)
      | inr (d, e, m) ↦ ground (arith, same_node, bytes_eq_refl raw)
    ],
  )

  -- What is looked up after an upload: the new descriptor, under its node and epoch, if there was
  -- none and the epoch has no document, and its raw bytes in the database; else all as before.
  pub on_descriptor_upload_effect :
      (j q : ℕ)
      → let t = (on_descriptor_upload k raw desc epoch s).0 in
        let fresh =
          not (is_some (lookup_at epoch node_key s.descriptors))
          && not (is_some (lookup epoch s.documents))
          && (epoch == j)
          && (node_key == q) in
        (lookup_at j q t.descriptors ≡ (if fresh then some desc else lookup_at j q s.descriptors))
        × (lookup_at j q t.db_descriptors
            ≡ (if fresh then some raw else lookup_at j q s.db_descriptors))
  unfolding on_descriptor_upload
  on_descriptor_upload_effect j q = ground (
    arith,
    same_node,
    lookup_at-ensure epoch j q s.descriptors,
    lookup_at-ensure epoch j q s.db_descriptors,
    lookup_at-store epoch node_key j q desc (ensure epoch s.descriptors),
    lookup_at-store epoch node_key j q raw (ensure epoch s.db_descriptors),
  )

module _ (k : Katzenpost) (raw : Bytes) (desc : ReplicaDescriptor) (epoch : ℕ) (s : State) where
  abbrev pub replica_key : ℕ
  replica_key = k.sum256 desc.identity_key

  same_replica :
      lookup_at epoch replica_key (ensure epoch s.replica_descriptors)
      ≡ lookup_at epoch replica_key s.replica_descriptors
  same_replica = lookup_at-ensure epoch epoch replica_key s.replica_descriptors

  -- What is looked up after a replica's upload: the new descriptor, under its node and epoch, if
  -- there was none and the epoch has no document, and its raw bytes in the database; else all as
  -- before.
  pub on_replica_descriptor_upload_effect :
      (j q : ℕ)
      → let t = (on_replica_descriptor_upload k raw desc epoch s).0 in
        let fresh =
          not (is_some (lookup_at epoch replica_key s.replica_descriptors))
          && not (is_some (lookup epoch s.documents))
          && (epoch == j)
          && (replica_key == q) in
        (lookup_at j q t.replica_descriptors
          ≡ (if fresh then some desc else lookup_at j q s.replica_descriptors))
        × (lookup_at j q t.db_replica_descriptors
            ≡ (if fresh then some raw else lookup_at j q s.db_replica_descriptors))
  unfolding on_replica_descriptor_upload
  on_replica_descriptor_upload_effect j q = ground (
    arith,
    same_replica,
    lookup_at-ensure epoch j q s.replica_descriptors,
    lookup_at-ensure epoch j q s.db_replica_descriptors,
    lookup_at-store epoch replica_key j q desc (ensure epoch s.replica_descriptors),
    lookup_at-store epoch replica_key j q raw (ensure epoch s.db_replica_descriptors),
  )
