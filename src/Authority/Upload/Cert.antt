-- ===== src/Authority/Upload/Cert.antt =====
-- onCertUpload: which certificates are taken, and what a certificate changes.
use opt.Base.{
  ℕ, ◌≡◌, ◌≢◌, ◌⊎◌, inl, inr, some, none, true, lookup, lookup_at, ensure, store, is_some, arith,
  lookup_at-ensure, Option-cases, ap,
}
use opt.Authority.Types.{Katzenpost, Document}
use opt.Authority.State.{State}
use opt.Authority.Upload.{Upload, Status, done, done_cases, on_cert_upload}

module _ (k : Katzenpost) (cert : Upload) (s : State) where
  abbrev pub certifier : ℕ
  certifier = k.sum256 cert.public_key

  -- The peer is known, certifies the epoch at hand, has voted in it and has not certified yet, and
  -- its key signs a document.
  pub record TakesCert (doc : Document) : Type 0 where
    pub authorized : is_some (lookup certifier s.authorized_authorities) ≡ true
    pub in_epoch : cert.epoch ≡ s.voting_epoch
    pub signed : is_some (k.verify cert.public_key cert.payload) ≡ true
    pub parses : k.parse_document cert.payload ≡ some doc
    pub voted : is_some (lookup_at s.voting_epoch certifier s.votes) ≡ true
    pub first : lookup_at s.voting_epoch certifier s.certificates ≡ none

  abbrev pub with_cert : Document → State
  with_cert doc = record s {
    certificates = store s.voting_epoch certifier doc (ensure s.voting_epoch s.certificates);
  }

  pub record SameCerts (s' : State) : Type 0 where
    pub certificates_kept : (j q : ℕ) → lookup_at j q s'.certificates ≡ lookup_at j q s.certificates
    pub rest_kept : s' ≡ record s { certificates = s'.certificates }

  same_certifier :
      lookup_at s.voting_epoch certifier (ensure s.voting_epoch s.certificates)
      ≡ lookup_at s.voting_epoch certifier s.certificates
  same_certifier = lookup_at-ensure s.voting_epoch s.voting_epoch certifier s.certificates

  TakesCert-of_done : (on_cert_upload k cert s).1 ≡ done → (doc : Document) × TakesCert doc
  unfolding on_cert_upload
  TakesCert-of_done h = elim (Option-cases (k.parse_document cert.payload)) [
    | inl e ↦ absurd (ground (arith, same_certifier))
    | inr (doc, e) ↦ (doc, ground (arith, same_certifier))
  ]

  pub TakesCert-done :
      (doc : Document) → TakesCert doc → on_cert_upload k cert s ≡ (with_cert doc, done)
  unfolding on_cert_upload
  TakesCert-done doc t = ground (arith, same_certifier)

  refused_cert : (on_cert_upload k cert s).1 ≢ done → SameCerts (on_cert_upload k cert s).0
  unfolding on_cert_upload
  refused_cert h = record {
    certificates_kept = λ j q. ground (arith, lookup_at-ensure s.voting_epoch j q s.certificates);
    rest_kept = ground arith;
  }

  -- A certificate either has all that it needs, and then the status is CertOk and exactly its
  -- document is stored; or it lacks something, and then another status is answered and every stored
  -- certificate, and all else, stays.
  pub on_cert_upload_exact :
      ((doc : Document) × TakesCert doc × (on_cert_upload k cert s ≡ (with_cert doc, done)))
      ⊎ (((on_cert_upload k cert s).1 ≢ done)
          × ((doc : Document) → ¬ TakesCert doc)
          × SameCerts (on_cert_upload k cert s).0)
  on_cert_upload_exact = elim (done_cases (on_cert_upload k cert s).1) [
    | inl e ↦ let (doc, t) = TakesCert-of_done e in inl (doc, t, TakesCert-done doc t)
    | inr e ↦
        inr (
          e,
          (λ doc t. e (ap (λ (r : State × Status). r.1) (TakesCert-done doc t))),
          refused_cert e,
        )
  ]
