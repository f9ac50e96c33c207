-- ===== src/Authority/Restore/Frame.antt =====
-- What restorePersistence leaves alone, and when its loop over the epochs stops.
use opt.Base.{
  ℕ, ◌≡◌, refl, List, [], ◌∷◌, none, some, Bool, true, false, not, ◌⊎◌, ◌&&◌, ◌||◌, Bytes, Map,
  lookup, insert, inner, ◌==◌, arith, Option-cases, Bool-cases, inl, inr,
}
use opt.Base.Outcome.{ok}
use opt.Authority.Types.{Katzenpost}
use opt.Authority.State.{State}
use opt.Authority.Restore.{
  Restoring, Metadata, restore_mix, restore_mixes, restore_replica, restore_replicas,
  restore_replica_epochs, restore_document, restore_epochs, restore_persistence, around,
}

-- Restoring changes nothing but the descriptors and the documents.
abbrev pub SameBut : State → State → Type 0
SameBut s t = t ≡ record s {
  descriptors = t.descriptors;
  replica_descriptors = t.replica_descriptors;
  documents = t.documents;
}

abbrev pub ReplicasOnly : State → State → Type 0
ReplicasOnly s t = t ≡ record s { replica_descriptors = t.replica_descriptors }

pub trans-SameBut : (s t u : State) → SameBut s t → SameBut t u → SameBut s u
trans-SameBut s t u p q = cc

module _ (k : Katzenpost) (rs : Restoring) where
  pub restore_mix-SameBut :
      (e : ℕ) (entry : ℕ × Bytes) (s : State) → SameBut s (restore_mix k rs e entry s)
  unfolding restore_mix
  restore_mix-SameBut e (w, raw) s = ground arith

  pub restore_mixes-SameBut :
      (e : ℕ) (m : Map Bytes) (s : State) → SameBut s (restore_mixes k rs e m s)
  unfolding restore_mixes
  restore_mixes-SameBut e [] s = refl
  restore_mixes-SameBut e (entry ∷ m) s =
      let here = restore_mix-SameBut e entry s in
      let later = restore_mixes-SameBut e m (restore_mix k rs e entry s) in cc

  -- An epoch whose document stops the loop.
  abbrev pub stops : Map Bytes → ℕ → ℕ → Bool
  stops docs threshold e = elim (lookup e docs) [
    | none ↦ false
    | some raw ↦ not (rs.verify_threshold threshold raw)
  ]

  -- The loop comes to the epoch.
  unfoldable pub is_reached : Map Bytes → ℕ → List ℕ → ℕ → Bool
  is_reached docs threshold [] j = false
  is_reached docs threshold (e ∷ es) j =
      not (stops docs threshold e) && (e == j || is_reached docs threshold es j)

  pub restore_document_cases :
      (e : ℕ) (s : State)
      → ((restore_document k rs e s ≡ none) × (stops s.db_documents s.threshold e ≡ true))
        ⊎ ((t : State) × (restore_document k rs e s ≡ some t)
            × (stops s.db_documents s.threshold e ≡ false)
            × SameBut s t
            × (t.descriptors ≡ s.descriptors))
  unfolding restore_document
  restore_document_cases e s = elim (Option-cases (lookup e s.db_documents)) [
    | inl n ↦ inr (s, ground arith, ground arith, refl, refl)
    | inr (raw, n) ↦ elim (Bool-cases (rs.verify_threshold s.threshold raw)) [
      | inr bad ↦ inl (ground arith, ground arith)
      | inl good ↦ elim (Option-cases (k.parse_document raw)) [
        | inl p ↦ inr (s, ground arith, ground arith, refl, refl)
        | inr (doc, p) ↦ elim (Bool-cases (doc.epoch == e)) [
          | inl same ↦ inr (
            record s { documents = insert e doc s.documents },
            ground arith,
            ground arith,
            refl,
            refl,
          )
          | inr other ↦ inr (s, ground arith, ground arith, refl, refl)
        ]
      ]
    ]
  ]

  restore_replica-ReplicasOnly :
      (e : ℕ) (entry : ℕ × Bytes) (s : State) → ReplicasOnly s (restore_replica k rs e entry s)
  unfolding restore_replica
  restore_replica-ReplicasOnly e (w, raw) s = ground arith

  restore_replicas-ReplicasOnly :
      (e : ℕ) (m : Map Bytes) (s : State) → ReplicasOnly s (restore_replicas k rs e m s)
  unfolding restore_replicas
  restore_replicas-ReplicasOnly e [] s = refl
  restore_replicas-ReplicasOnly e (entry ∷ m) s =
      let here = restore_replica-ReplicasOnly e entry s in
      let later = restore_replicas-ReplicasOnly e m (restore_replica k rs e entry s) in cc

  pub replicas-ReplicasOnly :
      (es : List ℕ) (s : State) → ReplicasOnly s (restore_replica_epochs k rs es s)
  unfolding restore_replica_epochs
  replicas-ReplicasOnly [] s = refl
  replicas-ReplicasOnly (e ∷ es) s =
      let t = restore_replicas k rs e (inner e s.db_replica_descriptors) s in
      let here = restore_replicas-ReplicasOnly e (inner e s.db_replica_descriptors) s in
      let later = replicas-ReplicasOnly es t in cc

  restore_epochs-SameBut : (es : List ℕ) (s : State) → SameBut s (restore_epochs k rs es s)
  unfolding restore_epochs
  restore_epochs-SameBut [] s = refl
  restore_epochs-SameBut (e ∷ es) s = elim (restore_document_cases e s) [
    | inl (n, bad) ↦ rw (n, restore_epochs) refl
    | inr (t, n, good, same, descs) ↦
        let bucket = inner e t.db_descriptors in
        let v = restore_mixes k rs e bucket t in
        rw (n, restore_epochs)
          (trans-SameBut s v _ (trans-SameBut s t v same (restore_mixes-SameBut e bucket t))
            (restore_epochs-SameBut es v))
  ]

  -- A restart changes the descriptors and the documents only.
  pub restore_persistence-SameBut :
      (db db' : Metadata) (now : ℕ) (s s' : State)
      → restore_persistence k rs db now s ≡ ok (db', s')
      → SameBut s s'
  unfolding restore_persistence
  restore_persistence-SameBut db db' now s s' r =
      let t = restore_replica_epochs k rs (around now) s in
      let only = replicas-ReplicasOnly (around now) s in
      let later = restore_epochs-SameBut (around now) t in ground (arith, only, later)
