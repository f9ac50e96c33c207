-- ===== src/Authority/Upload/Sig.antt =====
-- onSigUpload: which signatures are taken, and what a signature changes.
use opt.Base.{
  ℕ, ◌≡◌, ◌≢◌, ◌⊎◌, inl, inr, some, none, true, Bytes, lookup, lookup_at, ensure, store, is_some,
  arith, lookup_at-ensure, Option-cases, ap,
}
use opt.Authority.Types.{Katzenpost, Signature}
use opt.Authority.State.{State}
use opt.Authority.Upload.{Upload, Status, done, done_cases, on_sig_upload}

module _ (k : Katzenpost) (sig : Upload) (s : State) where
  abbrev pub signer : ℕ
  signer = k.sum256 sig.public_key

  -- The peer is known, signs for the epoch at hand and has not signed yet, and its key certifies
  -- the bytes of a signature.
  pub record TakesSig (verified : Bytes) (csig : Signature) : Type 0 where
    pub authorized : is_some (lookup signer s.authorized_authorities) ≡ true
    pub in_epoch : sig.epoch ≡ s.voting_epoch
    pub signed : k.verify sig.public_key sig.payload ≡ some verified
    pub first : lookup_at s.voting_epoch signer s.signatures ≡ none
    pub parses : k.unmarshal_signature verified ≡ some csig

  abbrev pub with_sig : Signature → State
  with_sig csig = record s {
    signatures = store s.voting_epoch signer csig (ensure s.voting_epoch s.signatures);
  }

  pub record SameSigs (s' : State) : Type 0 where
    pub signatures_kept : (j q : ℕ) → lookup_at j q s'.signatures ≡ lookup_at j q s.signatures
    pub rest_kept : s' ≡ record s { signatures = s'.signatures }

  same_signer :
      lookup_at s.voting_epoch signer (ensure s.voting_epoch s.signatures)
      ≡ lookup_at s.voting_epoch signer s.signatures
  same_signer = lookup_at-ensure s.voting_epoch s.voting_epoch signer s.signatures

  TakesSig-of_done :
      (on_sig_upload k sig s).1 ≡ done
      → (verified : Bytes) × (csig : Signature) × TakesSig verified csig
  unfolding on_sig_upload
  TakesSig-of_done h = elim (Option-cases (k.verify sig.public_key sig.payload)) [
    | inl e ↦ absurd (ground (arith, same_signer))
    | inr (verified, e) ↦ elim (Option-cases (k.unmarshal_signature verified)) [
      | inl e' ↦ absurd (ground (arith, same_signer))
      | inr (csig, e') ↦ (verified, csig, ground (arith, same_signer))
    ]
  ]

  pub TakesSig-done :
      (verified : Bytes) (csig : Signature)
      → TakesSig verified csig
      → on_sig_upload k sig s ≡ (with_sig csig, done)
  unfolding on_sig_upload
  TakesSig-done verified csig t = ground (arith, same_signer)

  refused_sig : (on_sig_upload k sig s).1 ≢ done → SameSigs (on_sig_upload k sig s).0
  unfolding on_sig_upload
  refused_sig h = record {
    signatures_kept = λ j q. ground (arith, lookup_at-ensure s.voting_epoch j q s.signatures);
    rest_kept = ground arith;
  }

  -- A signature either has all that it needs, and then the status is SigOk and exactly it is
  -- stored; or it lacks something, and then another status is answered and every stored signature,
  -- and all else, stays.
  pub on_sig_upload_exact :
      ((verified : Bytes) × (csig : Signature) × TakesSig verified csig
        × (on_sig_upload k sig s ≡ (with_sig csig, done)))
      ⊎ (((on_sig_upload k sig s).1 ≢ done)
          × ((verified : Bytes) (csig : Signature) → ¬ TakesSig verified csig)
          × SameSigs (on_sig_upload k sig s).0)
  on_sig_upload_exact = elim (done_cases (on_sig_upload k sig s).1) [
    | inl e ↦
        let (verified, csig, t) = TakesSig-of_done e in
        inl (verified, csig, t, TakesSig-done verified csig t)
    | inr e ↦ inr (
      e,
      (λ verified csig t. e (ap (λ (r : State × Status). r.1) (TakesSig-done verified csig t))),
      refused_sig e,
    )
  ]
