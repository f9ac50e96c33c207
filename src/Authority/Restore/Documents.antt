-- ===== src/Authority/Restore/Documents.antt =====
-- Which documents a restart brings back (restorePersistence), and those of getThresholdConsensus.
use opt.Base.{
  ℕ, ◌≡◌, refl, sym, ap, ◌∙◌, List, [], ◌∷◌, Option, none, some, true, Bytes, Map, lookup, insert,
  inner, lookup-insert, ◌==◌, ==_iff, if◌then◌else◌, arith, Option-cases, Bool-cases, inl, inr,
}
use opt.Base.Outcome.{Outcome, ok, ok-inj}
use opt.Authority.Types.{Katzenpost, Document}
use opt.Authority.State.{State}
use opt.Authority.Tally.{Encodings}
use opt.Authority.Commits.{SharedRandom}
use opt.Authority.Agreement.{Consensual, get_threshold_consensus}
use opt.Authority.Agreement.Consensus.{signed_by_all, get_threshold_consensus_exact}
use opt.Authority.Restore.Frame.{
  SameBut, restore_mixes-SameBut, trans-SameBut, stops, is_reached, restore_document_cases,
  ReplicasOnly, replicas-ReplicasOnly,
}
use opt.Authority.Restore.{
  Restoring, Metadata, restore_mix, restore_mixes, restore_replica_epochs, restore_document,
  restore_epochs, restore_persistence, around,
}
use opt.Authority.Restore.Bucket.{or_else, twice, once, alone}
use opt.Authority.Restore.Kept.{restore_epochs-step}

module _ (k : Katzenpost) (rs : Restoring) where
  -- The document in the bucket, if it is one to bring back for the epoch.
  unfoldable pub held : ℕ → Map Bytes → Option Document
  held e docs = elim (lookup e docs) [
    | none ↦ none
    | some raw ↦ elim (k.parse_document raw) [
      | none ↦ none
      | some doc ↦ if doc.epoch == e then some doc else none
    ]
  ]

  restore_mixes-documents :
      (e : ℕ) (m : Map Bytes) (s : State) → (restore_mixes k rs e m s).documents ≡ s.documents
  unfolding restore_mixes restore_mix
  restore_mixes-documents e [] s = refl
  restore_mixes-documents e ((w, raw) ∷ m) s =
      let later = restore_mixes-documents e m (restore_mix k rs e (w, raw) s) in
      ground (arith, later)

  restore_document-lookup :
      (e j : ℕ) (s t : State)
      → restore_document k rs e s ≡ some t
      → lookup j t.documents ≡ (
          if e == j
          then or_else (held e s.db_documents) (lookup j s.documents)
          else lookup j s.documents)
  unfolding restore_document held
  restore_document-lookup e j s t h = elim (Option-cases (lookup e s.db_documents)) [
    | inl n ↦ ground arith
    | inr (raw, n) ↦ elim (Bool-cases (rs.verify_threshold s.threshold raw)) [
      | inr bad ↦ absurd (ground arith)
      | inl good ↦ elim (Option-cases (k.parse_document raw)) [
        | inl p ↦ ground arith
        | inr (doc, p) ↦ ground (arith, lookup-insert e j doc s.documents)
      ]
    ]
  ]

  restore_epochs-documents :
      (es : List ℕ) (j : ℕ) (s : State)
      → lookup j (restore_epochs k rs es s).documents ≡ (
          if is_reached k rs s.db_documents s.threshold es j
          then or_else (held j s.db_documents) (lookup j s.documents)
          else lookup j s.documents)
  unfolding restore_epochs is_reached
  restore_epochs-documents [] j s = refl
  restore_epochs-documents (e ∷ es) j s = elim (restore_document_cases k rs e s) [
    | inl (n, bad) ↦ ground arith
    | inr (t, n, good, same, descs) ↦
        let bucket = inner e t.db_descriptors in
        let v = restore_mixes k rs e bucket t in
        let same' : SameBut s v =
          trans-SameBut s t v same (restore_mixes-SameBut k rs e bucket t) in
        let dbs : v.db_documents ≡ s.db_documents = ap (λ (x : State). x.db_documents) same' in
        let th : v.threshold ≡ s.threshold = ap (λ (x : State). x.threshold) same' in
        let one = restore_document-lookup e j s t n in
        let kept = restore_mixes-documents e bucket t in
        let later = restore_epochs-documents es j v in
        let final = lookup j (restore_epochs k rs es v).documents in
        let stepped : final ≡ (
            if is_reached k rs s.db_documents s.threshold es j
            then or_else (held j s.db_documents) (lookup j v.documents)
            else lookup j v.documents) =
          cc in
        let opened : lookup j (restore_epochs k rs (e ∷ es) s).documents ≡ final =
          ap (λ (x : State). lookup j x.documents) (restore_epochs-step k rs e es s t n) in
        elim (Bool-cases (e == j)) [
          | inl hit ↦
              let p : e ≡ j = (==_iff e j).0 hit in
              let found : lookup j v.documents
                  ≡ or_else (held j s.db_documents) (lookup j s.documents) =
                ap (λ d. lookup j d) kept ∙ ground (arith, one) in
              opened
              ∙ twice (e == j) (stops k rs s.db_documents s.threshold e)
                  (is_reached k rs s.db_documents s.threshold es j) (held j s.db_documents)
                  (lookup j s.documents) (lookup j v.documents) final hit good found stepped
          | inr miss ↦
              let found : lookup j v.documents ≡ lookup j s.documents =
                ap (λ d. lookup j d) kept ∙ ground (arith, one) in
              opened
              ∙ once (e == j) (stops k rs s.db_documents s.threshold e)
                  (is_reached k rs s.db_documents s.threshold es j) (held j s.db_documents)
                  (lookup j s.documents) (lookup j v.documents) final miss good found stepped
        ]
  ]

  module _ (db db' : Metadata) (now : ℕ) (s s' : State) where
    restore_persistence-documents :
        db.version ≡ some (0 ∷ [])
        → s.documents ≡ []
        → restore_persistence k rs db now s ≡ ok (db', s')
        → (j : ℕ)
        → lookup j s'.documents ≡ (
            if is_reached k rs s.db_documents s.threshold (around now) j
            then held j s.db_documents
            else none)
    unfolding restore_persistence lookup
    restore_persistence-documents v blank r j =
        let t = restore_replica_epochs k rs (around now) s in
        let only : ReplicasOnly s t = replicas-ReplicasOnly k rs (around now) s in
        let dbs : t.db_documents ≡ s.db_documents = ap (λ (x : State). x.db_documents) only in
        let th : t.threshold ≡ s.threshold = ap (λ (x : State). x.threshold) only in
        let docs : t.documents ≡ s.documents = ap (λ (x : State). x.documents) only in
        let found = restore_epochs-documents (around now) j t in
        let out : s' ≡ restore_epochs k rs (around now) t = ground arith in
        let empty : lookup j t.documents ≡ none = ap (λ m. lookup j m) (docs ∙ blank) in
        alone (is_reached k rs s.db_documents s.threshold (around now) j) (held j s.db_documents) _
          (cc)

    -- A document of getThresholdConsensus is back after a restart on the database that it leaves:
    -- the epoch is the document's own and one that the loop comes to, its certificate parses as the
    -- document, and the server has no documents before.
    pub consensus-restored :
        (enc : Encodings) (sr : SharedRandom) (cs : Consensual) (epoch : ℕ) (before after : State)
        (doc : Document)
        → get_threshold_consensus k enc sr cs epoch before ≡ (after, ok doc)
        → doc.epoch ≡ epoch
        → ((raw : Bytes) → k.marshal_certificate doc ≡ some raw → k.parse_document raw ≡ some doc)
        → s.db_documents ≡ after.db_documents
        → is_reached k rs s.db_documents s.threshold (around now) epoch ≡ true
        → db.version ≡ some (0 ∷ [])
        → s.documents ≡ []
        → restore_persistence k rs db now s ≡ ok (db', s')
        → lookup epoch s'.documents ≡ some doc
    unfolding held
    consensus-restored enc sr cs epoch before after doc made own parses kept reached v blank r =
        let back = restore_persistence-documents v blank r epoch in
        elim (get_threshold_consensus_exact k enc sr cs epoch before) [
          | inr (fails, _, _, _) ↦
              absurd (fails doc (ap (λ (x : State × Outcome Document). x.1) made))
          | inl (ours, raw, viewed, marshalled, verified, given, _, entry) ↦
              let is_doc : ok doc ≡ ok (signed_by_all k enc sr cs epoch before ours) =
                sym (ap (λ (x : State × Outcome Document). x.1) made) ∙ given in
              let there : s.db_documents ≡ insert epoch raw before.db_documents =
                kept
                ∙ sym (ap (λ (x : State × Outcome Document). (x.0).db_documents) made)
                ∙ entry in
              let found : lookup epoch s.db_documents ≡ some raw =
                ap (λ m. lookup epoch m) there
                ∙ ground (arith, lookup-insert epoch epoch raw before.db_documents) in
              let same : doc ≡ signed_by_all k enc sr cs epoch before ours = ok-inj is_doc in
              let parsed = parses raw (ap (λ d. k.marshal_certificate d) same ∙ marshalled) in
              ground (arith, back, found, parsed)
        ]
