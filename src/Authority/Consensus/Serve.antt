-- ===== src/Authority/Consensus/Serve.antt =====
-- What clients are told about an epoch, and what stays available.
use opt.Base.{
  ℕ, ◌≡◌, ◌⊎◌, ◌↔◌, ◌+◌, ◌-◌, ◌*◌, ◌/◌, ◌^◌, ◌≤◌, ◌<◌, inl, inr, some, none, Bytes, lookup,
  lookup_at, arith, lookup-insert, lookup-delete_below, lookup_at-delete_below, ltb, if◌then◌else◌,
  refl, Option-cases,
}
use opt.Authority.Types.{Katzenpost, Document}
use opt.Authority.State.{State, sub64}
use opt.Authority.Consensus.{
  Now, consensus_ok, consensus_gone, on_get_consensus, set_local_document, prune_documents,
}

module _ (k : Katzenpost) (period : ℕ) (now : Now) (epoch : ℕ) (s : State) where
  -- Unless the current epoch is the last number, a client is told that an epoch is gone exactly if
  -- the epoch has no document and has begun, or is the next one after 7/8 of the current one.
  pub consensus_gone_iff :
      now.epoch + 1 < 2 ^ 64
      → (on_get_consensus k period now epoch s ≡ consensus_gone) ↔ (
          (lookup epoch s.documents ≡ none)
          × ((epoch ≤ now.epoch) ⊎ ((epoch ≡ now.epoch + 1) × (7 * (period / 8) < now.elapsed))))
  unfolding on_get_consensus
  consensus_gone_iff small = (λ h. ground arith, λ h. ground arith)

  -- A client gets bytes exactly if a document is held for the epoch and marshals to them.
  pub consensus_ok_iff :
      (raw : Bytes)
      → (on_get_consensus k period now epoch s ≡ consensus_ok raw) ↔ (
          (doc : Document) × (lookup epoch s.documents ≡ some doc)
          × (k.marshal_certificate doc ≡ some raw))
  unfolding on_get_consensus
  consensus_ok_iff raw = (
    λ h. elim (Option-cases (lookup epoch s.documents)) [
      | inl e ↦ absurd (ground arith)
      | inr (doc, e) ↦ (doc, e, ground arith)
    ],
    λ (doc, e, m). ground arith,
  )

-- A document that is held, for whatever epoch, is not replaced by one that is fetched.
pub set_local_document-lookup :
    (k : Katzenpost) (epoch j : ℕ) (doc old : Document) (s : State)
    → lookup j s.documents ≡ some old
    → lookup j (set_local_document k epoch doc s).documents ≡ some old
unfolding set_local_document
set_local_document-lookup k epoch j doc old s h = elim (Option-cases (k.sign_document doc)) [
  | inl e ↦ ground arith
  | inr (signed, e) ↦ ground (arith, lookup-insert epoch j signed s.documents)
]

-- What pruning in epoch `now` leaves: nothing before `now - 3` in five of the maps, and all else.
pub record Prunes (now : ℕ) (s t : State) : Type 0 where
  pub documents_from :
      (e : ℕ) → lookup e t.documents ≡ (if ltb e (now - 3) then none else lookup e s.documents)
  pub myconsensus_from :
      (e : ℕ) → lookup e t.myconsensus ≡ (if ltb e (now - 3) then none else lookup e s.myconsensus)
  pub descriptors_from :
      (e q : ℕ)
      → lookup_at e q t.descriptors
        ≡ (if ltb e (now - 3) then none else lookup_at e q s.descriptors)
  pub votes_from :
      (e q : ℕ) → lookup_at e q t.votes ≡ (if ltb e (now - 3) then none else lookup_at e q s.votes)
  pub certificates_from :
      (e q : ℕ)
      → lookup_at e q t.certificates
        ≡ (if ltb e (now - 3) then none else lookup_at e q s.certificates)
  pub rest_kept : t ≡ record s {
    documents = t.documents;
    myconsensus = t.myconsensus;
    descriptors = t.descriptors;
    votes = t.votes;
    certificates = t.certificates;
  }

cmp_epoch_lem : (now : ℕ) → 3 ≤ now → now < 2 ^ 64 → sub64 now 3 ≡ now - 3
cmp_epoch_lem now h lt = omega arith

-- From epoch 3 on, and below 2^64, pruning drops the documents, the consensus, the descriptors, the votes and the
-- certificates of the epochs before `now - 3`; those of `now - 3` and later, and the commits, the
-- reveals, the signatures and the replica descriptors of every epoch, are as they were.
pub prune_documents-Prunes :
    (now : ℕ) (s : State) → 3 ≤ now → now < 2 ^ 64 → Prunes now s (prune_documents now s)
unfolding prune_documents
prune_documents-Prunes now s h lt = rw (cmp_epoch_lem now h lt) (record {
  documents_from = λ e. lookup-delete_below (now - 3) e s.documents;
  myconsensus_from = λ e. lookup-delete_below (now - 3) e s.myconsensus;
  descriptors_from = λ e q. lookup_at-delete_below (now - 3) e q s.descriptors;
  votes_from = λ e q. lookup_at-delete_below (now - 3) e q s.votes;
  certificates_from = λ e q. lookup_at-delete_below (now - 3) e q s.certificates;
  rest_kept = refl;
})

-- In the first three epochs the subtraction wraps, and the documents of every epoch below 2^64 - 3
-- are dropped.
pub prune_documents_early :
    (now e : ℕ) (s : State)
    → now < 3
    → e < 2 ^ 64 - 3
    → lookup e (prune_documents now s).documents ≡ none
unfolding prune_documents
prune_documents_early now e s h lt = ground (arith, lookup-delete_below (sub64 now 3) e s.documents)
