-- ===== src/Authority/Agreement/Consensus.antt =====
-- getMyConsensus and getThresholdConsensus: what their results rest on.
use opt.Base.{
  ℕ, ◌≤◌, List, ◌≡◌, ◌≢◌, ◌⊎◌, inl, inr, arith, Bytes, some, true, false, Map, lookup, insert,
  length, ltb, ◌==◌, Option-cases, Bool-cases, lookup-insert, subst, inner,
}
use opt.Base.Outcome.{Outcome, ok, err, panics}
use opt.Authority.Types.{Katzenpost, Document}
use opt.Authority.State.{State}
use opt.Authority.Tally.{Encodings}
use opt.Authority.Commits.{SharedRandom, verify_commits}
use opt.Authority.Commits.Verified.{Paired, verify_commits-Paired}
use opt.Authority.Agreement.{
  Consensual, then_with, compute_shared_random, rotate_srv, add_signatures, get_threshold_consensus,
  agree, own_document, save_consensus, consensus_of_one, get_my_consensus,
}

module _ (k : Katzenpost) (enc : Encodings) (sr : SharedRandom) (cs : Consensual) where
  abbrev pub signed_by_all : ℕ → State → Document → Document
  signed_by_all epoch s ours =
      add_signatures k enc sr cs s.reverse_hash (inner epoch s.signatures) ours

  -- getThresholdConsensus gives a document exactly if the authority has a view of the consensus that,
  -- with the signatures that came in, marshals to a certificate that a threshold of the verifiers
  -- signed. That document is then held for the epoch, the certificate is its entry in the database, and
  -- no other epoch's document or entry changes; where it gives none, no document and no entry changes.
  pub get_threshold_consensus_exact :
      (epoch : ℕ) (s : State)
      → let (t, r) = get_threshold_consensus k enc sr cs epoch s in
        ((ours : Document) × (raw : List ℕ) × (lookup epoch s.myconsensus ≡ some ours)
          × (k.marshal_certificate (signed_by_all epoch s ours) ≡ some raw)
          × (cs.verify_threshold s.threshold raw ≡ true)
          × (r ≡ ok (signed_by_all epoch s ours))
          × (t.documents ≡ insert epoch (signed_by_all epoch s ours) s.documents)
          × (t.db_documents ≡ insert epoch raw s.db_documents))
        ⊎ (((doc : Document) → r ≢ ok doc)
            × ((ours : Document) (raw : List ℕ)
                → ¬ (
                    (lookup epoch s.myconsensus ≡ some ours)
                    × (k.marshal_certificate (signed_by_all epoch s ours) ≡ some raw)
                    × (cs.verify_threshold s.threshold raw ≡ true)))
            × (t.documents ≡ s.documents)
            × (t.db_documents ≡ s.db_documents))
  unfolding get_threshold_consensus
  get_threshold_consensus_exact epoch s = elim (Option-cases (lookup epoch s.myconsensus)) [
    | inl e ↦ inr ((λ doc q. ground arith), (λ ours raw (a, b, c). cc), ground arith, ground arith)
    | inr (ours, e) ↦ elim (Option-cases (k.marshal_certificate (signed_by_all epoch s ours))) [
      | inl n ↦ inr (
        (λ doc q. ground arith),
        (λ ours' raw (a, b, c). ground (arith, e, n, a, b)),
        ground arith,
        ground arith,
      )
      | inr (raw, n) ↦ elim (Bool-cases (cs.verify_threshold s.threshold raw)) [
        | inl v ↦ inl (ours, raw, e, n, v, ground arith, ground arith, ground arith)
        | inr v ↦ inr (
          (λ doc q. ground arith),
          (λ ours' raw' (a, b, c). ground (arith, e, n, v, a, b, c)),
          ground arith,
          ground arith,
        )
      ]
    ]
  ]

  -- If the result is the document, then it is held as the view of the epoch.
  abbrev Holds : ℕ → Document → State × Outcome Document → Type 0
  Holds epoch doc r = (r.1 ≡ ok doc) → lookup epoch r.0.myconsensus ≡ some doc

  then_with-Holds :
      {A : Type 0} (epoch : ℕ) (doc : Document) (s : State) (o : Outcome A)
      (f : A → State × Outcome Document)
      → ((a : A) → Holds epoch doc (f a))
      → Holds epoch doc (then_with s o f)
  then_with-Holds epoch doc s (ok a) f h q = h a q
  then_with-Holds epoch doc s (err e) f h q = absurd cc
  then_with-Holds epoch doc s panics f h q = absurd cc

  consensus_of_one-Holds :
      (epoch : ℕ) (srv : Bytes) (s : State) (doc : Document)
      → Holds epoch doc (consensus_of_one k enc sr cs epoch srv s)
  unfolding consensus_of_one
  consensus_of_one-Holds epoch srv s doc =
      then_with-Holds epoch doc s (own_document k enc sr cs epoch srv s)
        (save_consensus k enc sr cs epoch s)
        (λ signed q. ground (arith, lookup-insert epoch epoch signed s.myconsensus))

  agree_then :
      (epoch : ℕ) (commits reveals : Map Bytes) (s : State)
      → ltb (length commits) s.threshold ≡ false
      → (length commits == length reveals) ≡ true
      → then_with s (compute_shared_random k enc sr cs epoch commits reveals s) (λ srv.
        then_with s
          (rotate_srv k enc sr cs epoch srv s)
          (λ s'. consensus_of_one k enc sr cs epoch srv s'))
        ≡ agree k enc sr cs epoch commits reveals s
  unfolding agree
  agree_then epoch commits reveals s e e' = ground arith

  agree_enough :
      (epoch : ℕ) (commits reveals : Map Bytes) (s : State) (doc : Document)
      → (agree k enc sr cs epoch commits reveals s).1 ≡ ok doc
      → (s.threshold ≤ length commits) × (length commits ≡ length reveals)
  unfolding agree
  agree_enough epoch commits reveals s doc q = (ground arith, ground arith)

  agree-Holds :
      (epoch : ℕ) (commits reveals : Map Bytes) (s : State) (doc : Document)
      → Holds epoch doc (agree k enc sr cs epoch commits reveals s)
  agree-Holds epoch commits reveals s doc q =
      let (n, l) = agree_enough epoch commits reveals s doc q in
      subst (Holds epoch doc) (agree_then epoch commits reveals s (ground arith) (ground arith))
        (then_with-Holds epoch doc s (compute_shared_random k enc sr cs epoch commits reveals s)
          (λ srv.
            then_with s (rotate_srv k enc sr cs epoch srv s)
              (λ s'. consensus_of_one k enc sr cs epoch srv s'))
          (λ srv.
            then_with-Holds epoch doc s (rotate_srv k enc sr cs epoch srv s)
              (λ s'. consensus_of_one k enc sr cs epoch srv s')
              (λ s'. consensus_of_one-Holds epoch srv s' doc)))
        q

  -- Where getMyConsensus gives a document, a threshold of certificates came in, and verifyCommits
  -- accepts a threshold of commits of them and as many reveals, of the same nodes, each signed, for the
  -- epoch and fitting its commit; the document is held as the authority's view of the epoch.
  pub get_my_consensus_ok :
      (epoch : ℕ) (s : State) (doc : Document)
      → (get_my_consensus k enc sr cs epoch s).1 ≡ ok doc
      → (certificates : Map Document) × (lookup epoch s.certificates ≡ some certificates)
        × (s.threshold ≤ length certificates)
        × (s.threshold ≤ length (verify_commits k sr s.reverse_hash epoch certificates).0)
        × (length (verify_commits k sr s.reverse_hash epoch certificates).0
            ≡ length (verify_commits k sr s.reverse_hash epoch certificates).1)
        × Paired k sr s.reverse_hash epoch
            (verify_commits k sr s.reverse_hash epoch certificates).0
            (verify_commits k sr s.reverse_hash epoch certificates).1
        × (lookup epoch (get_my_consensus k enc sr cs epoch s).0.myconsensus ≡ some doc)
  unfolding get_my_consensus
  get_my_consensus_ok epoch s doc q = elim (Option-cases (lookup epoch s.certificates)) [
    | inl e ↦ absurd (ground arith)
    | inr (certificates, e) ↦ elim (Bool-cases (ltb (length certificates) s.threshold)) [
      | inl l ↦ absurd (ground arith)
      | inr l ↦
          let v = verify_commits k sr s.reverse_hash epoch certificates in
          let a : (agree k enc sr cs epoch v.0 v.1 s).1 ≡ ok doc = ground arith in
          (
            certificates,
            e,
            ground arith,
            (agree_enough epoch v.0 v.1 s doc a).0,
            (agree_enough epoch v.0 v.1 s doc a).1,
            (verify_commits-Paired k sr s.reverse_hash epoch certificates).0,
            ground (arith, agree-Holds epoch v.0 v.1 s doc a),
          )
    ]
  ]
