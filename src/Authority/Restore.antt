-- ===== src/Authority/Restore.antt =====
-- restorePersistence of pki/server/state.go: what a restart brings back from the database. The buckets
-- of documents and descriptors are those of the state, that of the version is an argument.
pub mod Frame
pub mod Bucket
pub mod Kept
pub mod Documents
use opt.Base.{
  ℕ, ◌+◌, List, [], ◌∷◌, Option, none, some, Bool, true, false, Bytes, Map, lookup, insert, ensure,
  store, inner, ◌==◌, if◌then◌else◌,
}
use opt.Base.Outcome.{Outcome, ok, err, panics}
use opt.Authority.Types.{Katzenpost, MixDescriptor, ReplicaDescriptor, Document}
use opt.Authority.State.{State, add64, sub64}
use opt.Authority.Descriptor.{is_descriptor_authorized, is_replica_descriptor_authorized}

-- ReplicaDescriptor.Unmarshal, and VerifyThreshold with the verifiers and a threshold.
pub record Restoring : Type 0 where
  pub unmarshal_replica : Bytes → Option ReplicaDescriptor
  pub verify_threshold : ℕ → Bytes → Bool

-- The bucket "metadata" of the database.
pub record Metadata : Type 0 where
  pub version : Option Bytes

-- The last epoch, the present one and the next.
abbrev pub around : ℕ → List ℕ
around now = sub64 now 1 ∷ now ∷ add64 now 1 ∷ []

module _ (k : Katzenpost) (rs : Restoring) where
  -- One entry of a bucket: it must parse, lie under the hash of its key, and be authorized.
  unfoldable pub restore_mix : ℕ → ℕ × Bytes → State → State
  restore_mix epoch (want_hash, raw) s = elim (k.unmarshal_mix raw) [
    | none ↦ s
    | some desc ↦
        if k.sum256 desc.identity_key == want_hash
        then (if is_descriptor_authorized k desc s
            then record s {
              descriptors =
                  store epoch (k.sum256 desc.identity_key) desc (ensure epoch s.descriptors);
            }
            else s)
        else s
  ]

  unfoldable pub restore_mixes : ℕ → Map Bytes → State → State
  unfolding restore_mix
  restore_mixes epoch [] s = s
  restore_mixes epoch (entry ∷ entries) s = restore_mixes epoch entries (restore_mix epoch entry s)

  unfoldable pub restore_replica : ℕ → ℕ × Bytes → State → State
  restore_replica epoch (want_hash, raw) s = elim (rs.unmarshal_replica raw) [
    | none ↦ s
    | some desc ↦
        if k.sum256 desc.identity_key == want_hash
        then (if is_replica_descriptor_authorized k desc s
            then record s {
              replica_descriptors =
                  store epoch (k.sum256 desc.identity_key) desc
                    (ensure epoch s.replica_descriptors);
            }
            else s)
        else s
  ]

  unfoldable pub restore_replicas : ℕ → Map Bytes → State → State
  unfolding restore_replica
  restore_replicas epoch [] s = s
  restore_replicas epoch (entry ∷ entries) s =
      restore_replicas epoch entries (restore_replica epoch entry s)

  -- The replica descriptors of each epoch.
  unfoldable pub restore_replica_epochs : List ℕ → State → State
  unfolding restore_replicas
  restore_replica_epochs [] s = s
  restore_replica_epochs (epoch ∷ epochs) s =
      restore_replica_epochs epochs
        (restore_replicas epoch (inner epoch s.db_replica_descriptors) s)

  -- A document: one that no threshold signed ends the loop.
  unfoldable pub restore_document : ℕ → State → Option State
  restore_document epoch s = elim (lookup epoch s.db_documents) [
    | none ↦ some s
    | some raw ↦
        if rs.verify_threshold s.threshold raw
        then elim (k.parse_document raw) [
          | none ↦ some s
          | some doc ↦
              if doc.epoch == epoch
              then some record s { documents = insert epoch doc s.documents }
              else some s
        ]
        else none
  ]

  -- The documents and the descriptors of each epoch.
  unfoldable pub restore_epochs : List ℕ → State → State
  unfolding restore_document restore_mixes
  restore_epochs [] s = s
  restore_epochs (epoch ∷ epochs) s = elim (restore_document epoch s) [
    | none ↦ s
    | some s' ↦ restore_epochs epochs (restore_mixes epoch (inner epoch s'.db_descriptors) s')
  ]

  -- A database without a version is a new one, and gets it. Of an empty version the first byte is
  -- printed, which panics.
  unfoldable pub restore_persistence : Metadata → ℕ → State → Outcome (Metadata × State)
  unfolding restore_replica_epochs restore_epochs
  restore_persistence db now s = elim db.version [
    | none ↦ ok (record db { version = some (0 ∷ []) }, s)
    | some version ↦ elim version [
      | [] ↦ panics
      | v ∷ vs ↦ elim vs [
        | w ∷ ws ↦ err "state: incompatible version"
        | [] ↦
            if v == 0
            then ok (db, restore_epochs (around now) (restore_replica_epochs (around now) s))
            else err "state: incompatible version"
      ]
    ]
  ]
