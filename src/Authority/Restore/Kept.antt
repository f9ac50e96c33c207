-- ===== src/Authority/Restore/Kept.antt =====
-- Which descriptors of mixes, gateways and service nodes a restart brings back (restorePersistence).
use opt.Base.{
  ℕ, ◌≡◌, ◌↔◌, refl, sym, ap, ◌∙◌, subst, List, [], ◌∷◌, none, some, true, Bytes, lookup, ensure,
  inner, lookup_at, lookup_at-ensure, lookup_at-store, ◌==◌, ==_iff, if◌then◌else◌, arith,
  Bool-cases, inl, inr,
}
use opt.Base.Unique.{IsMap}
use opt.Base.Outcome.{ok}
use opt.Authority.Types.{Katzenpost, MixDescriptor}
use opt.Authority.State.{State}
use opt.Authority.Descriptor.{on_descriptor_upload, is_descriptor_authorized}
use opt.Authority.Restore.Frame.{
  SameBut, restore_mixes-SameBut, trans-SameBut, stops, is_reached, restore_document_cases,
  ReplicasOnly, replicas-ReplicasOnly,
}
use opt.Authority.Restore.{
  Restoring, Metadata, restore_mixes, restore_replica_epochs, restore_document, restore_epochs,
  restore_persistence, around,
}
use opt.Authority.Restore.Bucket.{
  or_else, twice, once, alone, lookup_at-nil, accepted, in_bucket, accepted_iff, in_bucket-found,
  SameBut-in_bucket, restore_mixes-lookup,
}

module _ (k : Katzenpost) (rs : Restoring) where
  pub restore_epochs-step :
      (e : ℕ) (es : List ℕ) (s t : State)
      → restore_document k rs e s ≡ some t
      → restore_epochs k rs (e ∷ es) s
        ≡ restore_epochs k rs es (restore_mixes k rs e (inner e t.db_descriptors) t)
  unfolding restore_epochs
  restore_epochs-step e es s t n = rw (n, restore_epochs) refl

  restore_epochs-lookup :
      (es : List ℕ) (j q : ℕ) (s : State)
      → ((e : ℕ) → IsMap (inner e s.db_descriptors))
      → lookup_at j q (restore_epochs k rs es s).descriptors ≡ (
          if is_reached k rs s.db_documents s.threshold es j
          then or_else (in_bucket k s q (inner j s.db_descriptors)) (lookup_at j q s.descriptors)
          else lookup_at j q s.descriptors)
  unfolding restore_epochs is_reached
  restore_epochs-lookup [] j q s u = refl
  restore_epochs-lookup (e ∷ es) j q s u = elim (restore_document_cases k rs e s) [
    | inl (n, bad) ↦ ground arith
    | inr (t, n, good, same, descs) ↦
        let bucket = inner e t.db_descriptors in
        let v = restore_mixes k rs e bucket t in
        let same' : SameBut s v =
          trans-SameBut s t v same (restore_mixes-SameBut k rs e bucket t) in
        let dbs : v.db_descriptors ≡ s.db_descriptors =
          ap (λ (x : State). x.db_descriptors) same' in
        let dbt : t.db_descriptors ≡ s.db_descriptors = ap (λ (x : State). x.db_descriptors) same in
        let th : v.threshold ≡ s.threshold = ap (λ (x : State). x.threshold) same' in
        let here =
          restore_mixes-lookup k rs e j q bucket t
            (subst (λ b. IsMap (inner e b)) (sym dbt) (u e)) in
        let later =
          restore_epochs-lookup es j q v (λ e'. subst (λ b. IsMap (inner e' b)) (sym dbs) (u e')) in
        let table = SameBut-in_bucket k rs s v q (inner j s.db_descriptors) same' in
        let table' = SameBut-in_bucket k rs s t q bucket same in
        let final = lookup_at j q (restore_epochs k rs es v).descriptors in
        let stepped : final ≡ (
            if is_reached k rs s.db_documents s.threshold es j
            then or_else (in_bucket k s q (inner j s.db_descriptors)) (lookup_at j q v.descriptors)
            else lookup_at j q v.descriptors) =
          cc in
        let opened : lookup_at j q (restore_epochs k rs (e ∷ es) s).descriptors ≡ final =
          ap (λ (x : State). lookup_at j q x.descriptors) (restore_epochs-step e es s t n) in
        elim (Bool-cases (e == j)) [
          | inl hit ↦
              let p : e ≡ j = (==_iff e j).0 hit in
              let first : in_bucket k t q bucket ≡ in_bucket k s q (inner j s.db_descriptors) =
                table'
                ∙ ap (λ b. in_bucket k s q b)
                    (ap (λ b. inner e b) dbt ∙ ap (λ i. inner i s.db_descriptors) p) in
              opened
              ∙ twice (e == j) (stops k rs s.db_documents s.threshold e)
                  (is_reached k rs s.db_documents s.threshold es j)
                  (in_bucket k s q (inner j s.db_descriptors)) (lookup_at j q s.descriptors)
                  (lookup_at j q v.descriptors) final hit good (cc) stepped
          | inr miss ↦
              opened
              ∙ once (e == j) (stops k rs s.db_documents s.threshold e)
                  (is_reached k rs s.db_documents s.threshold es j)
                  (in_bucket k s q (inner j s.db_descriptors)) (lookup_at j q s.descriptors)
                  (lookup_at j q v.descriptors) final miss good (cc) stepped
        ]
  ]

  module _ (db db' : Metadata) (now : ℕ) (s s' : State) where
    -- After a restart on a database of this version, the descriptor that is looked up for an epoch
    -- and a key is the one in the database: the loop over the epochs around the present one comes to
    -- its epoch, and its bytes parse, to an authorized descriptor of that key. Nothing else is there.
    -- The server has no descriptors before, and a bucket has one entry for a key.
    pub restore_persistence-lookup :
        db.version ≡ some (0 ∷ [])
        → ((e : ℕ) → IsMap (inner e s.db_descriptors))
        → s.descriptors ≡ []
        → restore_persistence k rs db now s ≡ ok (db', s')
        → (j q : ℕ)
        → lookup_at j q s'.descriptors ≡ (
            if is_reached k rs s.db_documents s.threshold (around now) j
            then in_bucket k s q (inner j s.db_descriptors)
            else none)
    unfolding restore_persistence
    restore_persistence-lookup v u blank r j q =
        let t = restore_replica_epochs k rs (around now) s in
        let only : ReplicasOnly s t = replicas-ReplicasOnly k rs (around now) s in
        let dbs : t.db_descriptors ≡ s.db_descriptors = ap (λ (x : State). x.db_descriptors) only in
        let th : t.threshold ≡ s.threshold = ap (λ (x : State). x.threshold) only in
        let descs : t.descriptors ≡ s.descriptors = ap (λ (x : State). x.descriptors) only in
        let looked =
          restore_epochs-lookup (around now) j q t
            (λ e. subst (λ b. IsMap (inner e b)) (sym dbs) (u e)) in
        let table = SameBut-in_bucket k rs s t q (inner j s.db_descriptors) (cc) in
        let out : s' ≡ restore_epochs k rs (around now) t = ground arith in
        let empty : lookup_at j q t.descriptors ≡ none =
          ap (λ m. lookup_at j q m) (descs ∙ blank) ∙ lookup_at-nil j q in
        alone (is_reached k rs s.db_documents s.threshold (around now) j)
          (in_bucket k s q (inner j s.db_descriptors)) _ (cc)

    -- An upload of a new descriptor, and a server that starts again on the database it leaves, with
    -- the same authorization of the descriptor: the descriptor is back exactly if the uploaded bytes
    -- themselves parse as the descriptor. The epoch is one around the present, reached by the loop.
    pub upload-restored :
        (raw : Bytes) (desc : MixDescriptor) (epoch : ℕ) (before after : State)
        → lookup_at epoch (k.sum256 desc.identity_key) before.descriptors ≡ none
        → on_descriptor_upload k raw desc epoch before ≡ (after, none)
        → s.db_descriptors ≡ after.db_descriptors
        → is_descriptor_authorized k desc s ≡ true
        → is_reached k rs s.db_documents s.threshold (around now) epoch ≡ true
        → db.version ≡ some (0 ∷ [])
        → ((e : ℕ) → IsMap (inner e s.db_descriptors))
        → s.descriptors ≡ []
        → restore_persistence k rs db now s ≡ ok (db', s')
        → (lookup_at epoch (k.sum256 desc.identity_key) s'.descriptors ≡ some desc)
          ↔ (k.unmarshal_mix raw ≡ some desc)
    unfolding on_descriptor_upload lookup lookup_at
    upload-restored raw desc epoch before after new up same auth reached v u blank r =
        let pk = k.sum256 desc.identity_key in
        let kept : lookup_at epoch pk after.db_descriptors ≡ some raw = ground (
          arith,
          lookup_at-ensure epoch epoch pk before.descriptors,
          lookup_at-store epoch pk epoch pk raw (ensure epoch before.db_descriptors),
        ) in
        let there : lookup pk (inner epoch s.db_descriptors) ≡ some raw =
          ap (λ m. lookup_at epoch pk m) same ∙ kept in
        let back = restore_persistence-lookup v u blank r epoch pk in
        let shown : lookup_at epoch pk s'.descriptors ≡ accepted k s pk raw =
          back ∙ in_bucket-found k s pk (inner epoch s.db_descriptors) raw _ reached there in
        let iff = accepted_iff k s desc raw auth in
        ((λ e. iff.0 (sym shown ∙ e)), (λ e. shown ∙ iff.1 e))
